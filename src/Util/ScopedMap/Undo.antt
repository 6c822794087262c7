-- ===== src/Util/ScopedMap/Undo.antt =====
-- util/scoped_map.h: what `pop` takes back.
use lean.Base.{
  subst, sym, zero, ◌∙◌, get_elem?, ◌⊎◌, Bool-cases, Option-cases, ap, inl, inr, ltb, suc, Bool,
  List, Option, [], arith, length, none, refl, some, true, ℕ, ◌↔◌, ◌∷◌, ◌≡◌, ◌≤◌,
}
use mathlib.Core.Path.{fun_ext}
use lean.Util.ScopedMap.{Action, erase_action, set, undo, undo_to, saved_insert, drop}
use lean.Util.ScopedMap.{saved_erase}

module _ {ℓ κ} {K : Type ℓ} {V : Type κ} (key_eq : K → K → Bool) where
  -- Each scope is the length that the actions had when it was made. Taking the actions above it
  -- back gives the table of that time, which `saved` lists.
  abbrev pub Represents :
      (K → Option V) → List (Action K V) → List ℕ → List (K → Option V) → Type (ℓ ⊔ κ)
  Represents e acts [] [] = Unit
  Represents e acts [] (t ∷ saved) = [] ≡ t ∷ saved
  Represents e acts (sz ∷ scopes) [] = [] ≡ e ∷ []
  Represents e acts (sz ∷ scopes) (t ∷ saved) =
      let r = undo_to key_eq sz e acts in
      (sz ≤ length acts) × (r.0 ≡ t) × Represents r.0 r.1 scopes saved

  pub undo_to_all :
      (e : K → Option V) (acts : List (Action K V))
      → undo_to key_eq (length acts) e acts ≡ (e, acts)
  unfolding undo_to
  undo_to_all e [] = refl
  undo_to_all e (a ∷ acts) = ground arith

  pub undo_to_above :
      (sz : ℕ) (e : K → Option V) (a : Action K V) (acts : List (Action K V))
      → sz ≤ length acts
      → undo_to key_eq sz e (a ∷ acts) ≡ undo_to key_eq sz (undo key_eq a e) acts
  unfolding undo_to
  undo_to_above sz e a acts h = ground arith

  pub length-undo_to :
      (sz : ℕ) (e : K → Option V) (acts : List (Action K V))
      → sz ≤ length acts
      → length (undo_to key_eq sz e acts).1 ≡ sz
  unfolding undo_to
  length-undo_to sz e [] h = omega arith
  length-undo_to sz e (a ∷ acts) h = ground (arith, length-undo_to sz (undo key_eq a e) acts)

  pub undo_to_twice :
      (s sz : ℕ) (e : K → Option V) (acts : List (Action K V))
      → s ≤ sz
      → undo_to key_eq s (undo_to key_eq sz e acts).0 (undo_to key_eq sz e acts).1
        ≡ undo_to key_eq s e acts
  unfolding undo_to
  undo_to_twice s sz e [] h = refl
  undo_to_twice s sz e (a ∷ acts) h = elim (Bool-cases (ltb sz (suc (length acts)))) [
    | inl p ↦ ground (arith, p, undo_to_twice s sz (undo key_eq a e) acts h)
    | inr p ↦ ground (arith, p)
  ]

  -- An action that takes the table back to `e` may be put on the actions.
  pub Represents-cons :
      (e : K → Option V) (acts : List (Action K V)) (a : Action K V) (e' : K → Option V)
      (scopes : List ℕ) (saved : List (K → Option V))
      → undo key_eq a e' ≡ e
      → Represents e acts scopes saved
      → Represents e' (a ∷ acts) scopes saved
  Represents-cons e acts a e' [] [] q h = tt
  Represents-cons e acts a e' (sz ∷ scopes) [] q h = cc
  Represents-cons e acts a e' [] (t ∷ saved) q h = h
  Represents-cons e acts a e' (sz ∷ scopes) (t ∷ saved) q h =
      let above = undo_to_above sz e' a acts h.0 ∙ ap (λ x. undo_to key_eq sz x acts) q in
      let rest = subst (λ r. (r.0 ≡ t) × Represents r.0 r.1 scopes saved) (sym above) (h.1, h.2) in
      (omega arith, rest.0, rest.1)

  -- What `pop` finds on the stacks of scopes and of tables.
  abbrev Popped :
      (K → Option V) → List (Action K V) → ℕ → List ℕ → List (K → Option V) → ℕ → Type (ℓ ⊔ κ)
  Popped e acts n scopes saved sz =
      (get_elem? scopes n ≡ some sz)
      × (get_elem? saved n ≡ some (undo_to key_eq sz e acts).0)
      × (sz ≤ length acts)
      × Represents (undo_to key_eq sz e acts).0 (undo_to key_eq sz e acts).1 (drop (suc n) scopes)
          (drop (suc n) saved)

  pub Represents-pop :
      (e : K → Option V) (acts : List (Action K V)) (n : ℕ) (scopes : List ℕ)
      (saved : List (K → Option V))
      → Represents e acts scopes saved
      → ((get_elem? scopes n ≡ none) × (get_elem? saved n ≡ none))
        ⊎ ((sz : ℕ) × Popped e acts n scopes saved sz)
  Represents-pop e acts n [] [] h = inl (refl, refl)
  Represents-pop e acts n [] (t ∷ saved) h = cc
  Represents-pop e acts n (sz ∷ scopes) [] h = cc
  Represents-pop e acts zero (sz ∷ scopes) (t ∷ saved) h =
      inr (sz, (refl, ap some (sym h.1), h.0, h.2))
  Represents-pop e acts (suc n) (sz ∷ scopes) (t ∷ saved) h =
      let r = undo_to key_eq sz e acts in
      let len = length-undo_to sz e acts h.0 in
      elim (Represents-pop r.0 r.1 n scopes saved h.2) [
        | inl none_left ↦ inl none_left
        | inr (s, (p, q, le, k)) ↦
            let rest =
              subst
                (λ x.
                  (get_elem? saved n ≡ some x.0)
                  × Represents x.0 x.1 (drop (suc n) scopes) (drop (suc n) saved))
                (undo_to_twice s sz e acts (omega (arith, le, len))) (q, k) in
            inr (s, (p, rest.0, omega (arith, le, len, h.0), rest.1))
      ]

  module _ (decides : (i j : K) → (key_eq i j ≡ true) ↔ (i ≡ j)) where
    set_back :
        (e : K → Option V) (k : K) (r s : Option V)
        → e k ≡ s
        → set key_eq (set key_eq e k r) k s ≡ e
    unfolding set
    set_back e k r s h = fun_ext λ j. elim (Bool-cases (key_eq k j)) [
      | inl p ↦ ground (arith, p, h, ap e ((decides k j).0 p))
      | inr p ↦ ground (arith, p)
    ]

    set_same : (e : K → Option V) (k : K) (s : Option V) → e k ≡ s → set key_eq e k s ≡ e
    unfolding set
    set_same e k s h = fun_ext λ j. elim (Bool-cases (key_eq k j)) [
      | inl p ↦ ground (arith, p, h, ap e ((decides k j).0 p))
      | inr p ↦ ground (arith, p)
    ]

    set_at : (e : K → Option V) (k : K) (r : Option V) → set key_eq e k r k ≡ r
    unfolding set
    set_at e k r = rw ((decides k k).1 refl)

    pub undo_insert :
        (e : K → Option V) (k : K) (v : V)
        → undo key_eq (saved_insert (e k) k v) (set key_eq e k (some v)) ≡ e
    unfolding undo
    undo_insert e k v = elim (Option-cases (e k)) [
      | inl p ↦ rw (p, set_back e k (some v) none p)
      | inr (w, p) ↦ rw (p, set_back e k (some v) (some w) p)
    ]

    pub undo_erase :
        (e : K → Option V) (k : K) (w : V)
        → e k ≡ some w
        → undo key_eq (erase_action k w) (set key_eq e k none) ≡ e
    unfolding undo
    undo_erase e k w h = rw (set_at e k none, set_back e k none (some w) h)

    pub Represents-insert :
        (scopes : List ℕ) (e : K → Option V) (acts : List (Action K V))
        (saved : List (K → Option V)) (k : K) (v : V)
        → Represents e acts scopes saved
        → Represents (set key_eq e k (some v)) (saved_insert (e k) k v ∷ acts) scopes saved
    Represents-insert scopes e acts saved k v h =
        Represents-cons e acts (saved_insert (e k) k v) (set key_eq e k (some v)) scopes saved
          (undo_insert e k v) h

    pub Represents-erase :
        (scopes : List ℕ) (e : K → Option V) (acts : List (Action K V))
        (saved : List (K → Option V)) (k : K)
        → Represents e acts scopes saved
        → Represents (set key_eq e k none) (saved_erase (e k) k acts) scopes saved
    Represents-erase scopes e acts saved k h =
        let kept : Option V → Type (ℓ ⊔ κ) =
          λ o. Represents (set key_eq e k none) (saved_erase o k acts) scopes saved in
        elim (Option-cases (e k)) [
          | inl p ↦
              subst kept (sym p)
                (subst (λ t. Represents t acts scopes saved) (sym (set_same e k none p)) h)
          | inr (w, p) ↦ subst kept (sym p) (
              Represents-cons e acts (erase_action k w) (set key_eq e k none) scopes saved
                (undo_erase e k w p) h)
        ]
