-- ===== src/Util/ScopedMap/Runs.antt =====
-- util/scoped_map.h: a map over a sequence of calls, and the same calls on a table with a stack of
-- the tables that can be taken back.
use lean.Base.{
  drop, ap, arith, inl, inr, subst, sym, ◌≤◌, length, refl, true, ◌↔◌, ◌≡◌, Bool, List, Option, [],
  get_elem?, none, some, suc, zero, ℕ, ◌>>=◌, ◌∷◌,
}
use lean.Util.ScopedMap.Undo.{
  Represents, Represents-pop, undo_to_all, Represents-erase, Represents-insert,
}
use lean.Util.ScopedMap.{
  Action, undo_to, ScopedMap, set, push, pop, insert, erase, clear, num_scopes,
}

pub data Call {ℓ κ} (K : Type ℓ) (V : Type κ) : Type (ℓ ⊔ κ) where
  push_call : Call K V
  pop_call : ℕ → Call K V
  insert_call : K → V → Call K V
  erase_call : K → Call K V
  find_call : K → Call K V

module _ {ℓ κ} {K : Type ℓ} {V : Type κ} (key_eq : K → K → Bool) where
  -- The answers of the `find` calls, and the table and the number of scopes in the end.
  unfoldable pub run :
      List (Call K V) → ScopedMap K V → Option (List (Option V) × (K → Option V) × ℕ)
  unfolding push pop insert erase
  run [] m = some ([], m.entries, num_scopes m)
  run (push_call ∷ calls) m = run calls (push m)
  run (pop_call n ∷ calls) m = do m' ← pop key_eq m n; run calls m'
  run (insert_call k v ∷ calls) m = run calls (insert key_eq m k v)
  run (erase_call k ∷ calls) m = run calls (erase key_eq m k)
  run (find_call k ∷ calls) m = do
    (answers, table, n) ← run calls m
    some (m.entries k ∷ answers, table, n)

  -- `e` is the table, and `saved` the tables of the open scopes, the last one first.
  unfoldable pub replay :
      List (Call K V)
      → (K → Option V)
      → List (K → Option V)
      → Option (List (Option V) × (K → Option V) × ℕ)
  unfolding set
  replay [] e saved = some ([], e, length saved)
  replay (push_call ∷ calls) e saved = replay calls e (e ∷ saved)
  replay (pop_call zero ∷ calls) e saved = none
  replay (pop_call (suc n) ∷ calls) e saved = do
    t ← get_elem? saved n
    replay calls t (drop (suc n) saved)
  replay (insert_call k v ∷ calls) e saved = replay calls (set key_eq e k (some v)) saved
  replay (erase_call k ∷ calls) e saved = replay calls (set key_eq e k none) saved
  replay (find_call k ∷ calls) e saved = do
    (answers, table, n) ← replay calls e saved
    some (e k ∷ answers, table, n)

  abbrev IsMap : ScopedMap K V → List (K → Option V) → Type (ℓ ⊔ κ)
  IsMap m saved = Represents key_eq m.entries m.actions m.scopes saved

  length-saved :
      (e : K → Option V) (acts : List (Action K V)) (scopes : List ℕ) (saved : List (K → Option V))
      → Represents key_eq e acts scopes saved
      → length scopes ≡ length saved
  length-saved e acts [] [] h = refl
  length-saved e acts (sz ∷ scopes) [] h = cc
  length-saved e acts [] (t ∷ saved) h = cc
  length-saved e acts (sz ∷ scopes) (t ∷ saved) h =
      let r = undo_to key_eq sz e acts in ap suc (length-saved r.0 r.1 scopes saved h.2)

  module _ (decides : (i j : K) → (key_eq i j ≡ true) ↔ (i ≡ j)) where
    push-IsMap :
        (m : ScopedMap K V) (saved : List (K → Option V))
        → IsMap m saved
        → IsMap (push m) (m.entries ∷ saved)
    unfolding push
    push-IsMap m saved h =
        subst
          (λ r.
            (length m.actions ≤ length m.actions)
            × (r.0 ≡ m.entries)
            × Represents key_eq r.0 r.1 m.scopes saved)
          (sym (undo_to_all key_eq m.entries m.actions)) (omega arith, refl, h)

    insert-IsMap :
        (e : K → Option V) (acts : List (Action K V)) (scopes : List ℕ)
        (saved : List (K → Option V)) (k : K) (v : V)
        → Represents key_eq e acts scopes saved
        → IsMap (insert key_eq (record { entries = e; actions = acts; scopes = scopes }) k v) saved
    unfolding insert
    insert-IsMap e acts [] [] k v h = tt
    insert-IsMap e acts [] (t ∷ saved) k v h = cc
    insert-IsMap e acts (sz ∷ scopes) saved k v h =
        Represents-insert key_eq decides (sz ∷ scopes) e acts saved k v h

    erase-IsMap :
        (e : K → Option V) (acts : List (Action K V)) (scopes : List ℕ)
        (saved : List (K → Option V)) (k : K)
        → Represents key_eq e acts scopes saved
        → IsMap (erase key_eq (record { entries = e; actions = acts; scopes = scopes }) k) saved
    unfolding erase
    erase-IsMap e acts [] [] k h = tt
    erase-IsMap e acts [] (t ∷ saved) k h = cc
    erase-IsMap e acts (sz ∷ scopes) saved k h =
        Represents-erase key_eq decides (sz ∷ scopes) e acts saved k h

    refined :
        (calls : List (Call K V)) (m : ScopedMap K V) (saved : List (K → Option V))
        → IsMap m saved
        → run calls m ≡ replay calls m.entries saved
    unfolding run replay
    refined [] m saved h =
        ap (λ n. some ([], m.entries, n)) (length-saved m.entries m.actions m.scopes saved h)
    refined (push_call ∷ calls) m saved h =
        refined calls (push m) (m.entries ∷ saved) (push-IsMap m saved h)
    refined (pop_call zero ∷ calls) m saved h = refl
    refined (pop_call (suc n) ∷ calls) m saved h =
        elim (Represents-pop key_eq m.entries m.actions n m.scopes saved h) [
          | inl (p, q) ↦ rw (p, q)
          | inr (sz, (p, q, le, k)) ↦ rw (
            p,
            q,
            refined calls
                (record {
                  entries = (undo_to key_eq sz m.entries m.actions).0;
                  actions = (undo_to key_eq sz m.entries m.actions).1;
                  scopes = drop (suc n) m.scopes;
                })
                (drop (suc n) saved) k,
          )
        ]
    refined (insert_call k v ∷ calls) m saved h =
        refined calls (insert key_eq m k v) saved
          (insert-IsMap m.entries m.actions m.scopes saved k v h)
    refined (erase_call k ∷ calls) m saved h =
        refined calls (erase key_eq m k) saved (erase-IsMap m.entries m.actions m.scopes saved k h)
    refined (find_call k ∷ calls) m saved h = rw (refined calls m saved h)

    -- From the empty map, any sequence of calls of `push`, `pop`, `insert`, `erase` and `find`
    -- fails, or gives the answers, the table and the number of scopes, as on a table with a stack
    -- of tables, where `pop` takes a table from the stack; `KeyEqual` decides equality of keys.
    pub run-clear : (calls : List (Call K V)) → run calls clear ≡ replay calls (λ k. none) []
    run-clear calls = refined calls clear [] tt
