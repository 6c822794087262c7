-- ===== src/Util/SplayTree/Sorted.antt =====
-- The abstract view of util/splay_tree.h: a sorted list without values that compare equal.
use lean.Base.{
  All, IsWeakOrder, List, Option, Ordering, Ordering-cases, [], ap, flip, inl, inr, none, refl,
  some, ◌++◌, ◌∙◌, ◌∷◌, ◌≡◌,
}
use Prim.Native.Nat.Ordering.{lt, eq, gt}

module _ {ℓ} {T : Type ℓ} (cmp : T → T → Ordering) where
  unfoldable pub find_in : T → List T → Option T
  find_in v [] = none
  find_in v (x ∷ xs) = elim (cmp v x) [ lt ↦ find_in v xs | eq ↦ some x | gt ↦ find_in v xs ]

  unfoldable pub insert_in : T → List T → List T
  insert_in v [] = v ∷ []
  insert_in v (x ∷ xs) = elim (cmp v x) [ lt ↦ v ∷ x ∷ xs | eq ↦ v ∷ xs | gt ↦ x ∷ insert_in v xs ]

  unfoldable pub erase_in : T → List T → List T
  erase_in v [] = []
  erase_in v (x ∷ xs) = elim (cmp v x) [ lt ↦ x ∷ erase_in v xs | eq ↦ xs | gt ↦ x ∷ erase_in v xs ]

  -- The value is smaller, or greater, than all of a list.
  abbrev pub AllAbove : T → List T → Type 0
  AllAbove v xs = All (λ x. cmp v x ≡ lt) xs

  abbrev pub AllBelow : T → List T → Type 0
  AllBelow v xs = All (λ x. cmp v x ≡ gt) xs

  abbrev pub IsSorted : List T → Type 0
  IsSorted [] = Unit
  IsSorted (x ∷ xs) = AllAbove x xs × IsSorted xs

  -- Each operation passes the values below, and ends before those above.
  pub find_in-below : (v : T) (xs ys : List T) → AllBelow v xs → find_in v (xs ++ ys) ≡ find_in v ys
  unfolding find_in
  find_in-below v [] ys h = refl
  find_in-below v (x ∷ xs) ys h = rw h.0 (find_in-below v xs ys h.1)

  pub find_in-above : (v : T) (ys : List T) → AllAbove v ys → find_in v ys ≡ none
  unfolding find_in
  find_in-above v [] h = refl
  find_in-above v (y ∷ ys) h = rw (h.0, find_in) (find_in-above v ys h.1)

  pub insert_in-below :
      (v : T) (xs ys : List T) → AllBelow v xs → insert_in v (xs ++ ys) ≡ xs ++ insert_in v ys
  unfolding insert_in
  insert_in-below v [] ys h = refl
  insert_in-below v (x ∷ xs) ys h = rw h.0 (ap (◌∷◌ x) (insert_in-below v xs ys h.1))

  pub insert_in-above : (v : T) (ys : List T) → AllAbove v ys → insert_in v ys ≡ v ∷ ys
  unfolding insert_in
  insert_in-above v [] h = refl
  insert_in-above v (y ∷ ys) h = rw (h.0, insert_in) refl

  pub erase_in-below :
      (v : T) (xs ys : List T) → AllBelow v xs → erase_in v (xs ++ ys) ≡ xs ++ erase_in v ys
  unfolding erase_in
  erase_in-below v [] ys h = refl
  erase_in-below v (x ∷ xs) ys h = rw h.0 (ap (◌∷◌ x) (erase_in-below v xs ys h.1))

  pub erase_in-above : (v : T) (ys : List T) → AllAbove v ys → erase_in v ys ≡ ys
  unfolding erase_in
  erase_in-above v [] h = refl
  erase_in-above v (y ∷ ys) h = rw (h.0, erase_in) (ap (◌∷◌ y) (erase_in-above v ys h.1))

  module _ (o : IsWeakOrder cmp) where
    pub above_lt : (v x : T) (ys : List T) → cmp v x ≡ lt → AllAbove x ys → AllAbove v ys
    above_lt v x [] h a = tt
    above_lt v x (y ∷ ys) h a = (o.lt_lt v x y h a.0, above_lt v x ys h a.1)

    pub above_eq : (v x : T) (ys : List T) → cmp v x ≡ eq → AllAbove x ys → AllAbove v ys
    above_eq v x [] h a = tt
    above_eq v x (y ∷ ys) h a = (o.eq_lt v x y h a.0, above_eq v x ys h a.1)

    -- Insertion and removal keep the order.
    AllAbove-insert_in :
        (x v : T) (ys : List T) → cmp x v ≡ lt → AllAbove x ys → AllAbove x (insert_in v ys)
    unfolding insert_in
    AllAbove-insert_in x v [] h a = (h, tt)
    AllAbove-insert_in x v (y ∷ ys) h a = elim (Ordering-cases (cmp v y)) [
      | inl e ↦ rw (e, insert_in) (h, a)
      | inr (inl e) ↦ rw (e, insert_in) (h, a.1)
      | inr (inr e) ↦ rw (e, insert_in) (a.0, AllAbove-insert_in x v ys h a.1)
    ]

    pub insert_in-IsSorted : (v : T) (xs : List T) → IsSorted xs → IsSorted (insert_in v xs)
    unfolding insert_in
    insert_in-IsSorted v [] s = (tt, tt)
    insert_in-IsSorted v (x ∷ xs) s = elim (Ordering-cases (cmp v x)) [
      | inl h ↦ rw (h, insert_in) ((h, above_lt v x xs h s.0), s)
      | inr (inl h) ↦ rw (h, insert_in) (above_eq v x xs h s.0, s.1)
      | inr (inr h) ↦
          rw (h, insert_in)
            (AllAbove-insert_in x v xs (o.flips v x ∙ ap flip h) s.0, insert_in-IsSorted v xs s.1)
    ]

  AllAbove-erase_in : (x v : T) (ys : List T) → AllAbove x ys → AllAbove x (erase_in v ys)
  unfolding erase_in
  AllAbove-erase_in x v [] a = tt
  AllAbove-erase_in x v (y ∷ ys) a = elim (Ordering-cases (cmp v y)) [
    | inl e ↦ rw (e, erase_in) (a.0, AllAbove-erase_in x v ys a.1)
    | inr (inl e) ↦ rw (e, erase_in) a.1
    | inr (inr e) ↦ rw (e, erase_in) (a.0, AllAbove-erase_in x v ys a.1)
  ]

  pub erase_in-IsSorted : (v : T) (xs : List T) → IsSorted xs → IsSorted (erase_in v xs)
  unfolding erase_in
  erase_in-IsSorted v [] s = tt
  erase_in-IsSorted v (x ∷ xs) s = elim (Ordering-cases (cmp v x)) [
    | inl e ↦ rw (e, erase_in) (AllAbove-erase_in x v xs s.0, erase_in-IsSorted v xs s.1)
    | inr (inl e) ↦ rw (e, erase_in) s.1
    | inr (inr e) ↦ rw (e, erase_in) (AllAbove-erase_in x v xs s.0, erase_in-IsSorted v xs s.1)
  ]
