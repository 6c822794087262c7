-- ===== src/Util/ScopedMap.antt =====
-- util/scoped_map.h: maps that can be taken back to an earlier state. The hash table is a function
-- from keys to values, and `key_eq` is `KeyEqual`. `none` is what `pop` reads past the scopes.
pub mod Undo
pub mod Runs
use lean.Base.{
  drop, Bool, List, Option, [], false, get_elem?, if◌then◌else◌, is_some, length, ltb, none, some,
  suc, true, zero, ℕ, ◌>>=◌, ◌∷◌,
}

-- An `action_kind` with the pair that is saved beside it.
pub data Action {ℓ κ} (K : Type ℓ) (V : Type κ) : Type (ℓ ⊔ κ) where
  insert_action : K → V → Action K V
  replace_action : K → V → Action K V
  erase_action : K → V → Action K V

-- `m_actions` and `m_scopes` have their last element first.
pub record ScopedMap {ℓ κ} (K : Type ℓ) (V : Type κ) : Type (ℓ ⊔ κ) where
  pub entries : K → Option V
  pub actions : List (Action K V)
  pub scopes : List ℕ

module _ {ℓ κ} {K : Type ℓ} {V : Type κ} where
  abbrev pub num_scopes : ScopedMap K V → ℕ
  num_scopes m = length m.scopes

  abbrev pub at_base_lvl : ScopedMap K V → Bool
  at_base_lvl m = is_empty m.scopes
    where
      is_empty : List ℕ → Bool
      is_empty [] = true
      is_empty (s ∷ ss) = false

  unfoldable pub push : ScopedMap K V → ScopedMap K V
  push m = record { entries = m.entries; actions = m.actions; scopes = length m.actions ∷ m.scopes }

  abbrev pub clear : ScopedMap K V
  clear = record { entries = λ k. none; actions = []; scopes = [] }

module _ {ℓ κ} {K : Type ℓ} {V : Type κ} where
  -- What `insert` and `erase` save above the base level.
  abbrev pub saved_insert : Option V → K → V → Action K V
  saved_insert none k v = insert_action k v
  saved_insert (some w) k v = replace_action k w

  abbrev pub saved_erase : Option V → K → List (Action K V) → List (Action K V)
  saved_erase none k as' = as'
  saved_erase (some w) k as' = erase_action k w ∷ as'

module _ {ℓ κ} {K : Type ℓ} {V : Type κ} (key_eq : K → K → Bool) where
  -- The table with another answer for a key.
  unfoldable pub set : (K → Option V) → K → Option V → K → Option V
  set e k r j = if key_eq k j then r else e j

  -- The switch in the loop of `pop`. Insertion into the table keeps an entry that is there.
  unfoldable pub undo : Action K V → (K → Option V) → K → Option V
  unfolding set
  undo (insert_action k v) e = set e k none
  undo (replace_action k v) e = set e k (some v)
  undo (erase_action k v) e = if is_some (e k) then e else set e k (some v)

  -- The loop of `pop`.
  unfoldable pub undo_to :
      ℕ → (K → Option V) → List (Action K V) → (K → Option V) × List (Action K V)
  unfolding undo
  undo_to old_sz e [] = (e, [])
  undo_to old_sz e (a ∷ as') =
      let rest = undo_to old_sz (undo a e) as' in
      if ltb old_sz (suc (length as')) then rest else (e, a ∷ as')

  unfoldable pub pop : ScopedMap K V → ℕ → Option (ScopedMap K V)
  unfolding undo_to
  pop m zero = none
  pop m (suc n) = do
    old_sz ← get_elem? m.scopes n
    some (record {
      entries = (undo_to old_sz m.entries m.actions).0;
      actions = (undo_to old_sz m.entries m.actions).1;
      scopes = drop (suc n) m.scopes;
    })

  unfoldable pub insert : ScopedMap K V → K → V → ScopedMap K V
  unfolding set
  insert m k v = record {
    entries = set m.entries k (some v);
    actions = if at_base_lvl m then m.actions else saved_insert (m.entries k) k v ∷ m.actions;
    scopes = m.scopes;
  }

  unfoldable pub erase : ScopedMap K V → K → ScopedMap K V
  unfolding set
  erase m k = record {
    entries = set m.entries k none;
    actions = if at_base_lvl m then m.actions else saved_erase (m.entries k) k m.actions;
    scopes = m.scopes;
  }
