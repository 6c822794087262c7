-- ===== src/Kernel/ForEach/Cell.antt =====
-- kernel/find_fn.h: the search of one cell, whose parts are searched in turn.
use lean.Base.{
  and_true, All, Bool, Bool-cases, List, Option, ap, arith, false, if◌then◌else◌, inl, inr, none,
  refl, some, suc, sym, true, ℕ, ◌&&◌, ◌∙◌, ◌∷◌, ◌≡◌, ◌≤◌,
}
use lean.Kernel.Expr.{Expr}
use lean.Kernel.ForEach.{Item, item, visit, is_plain, items_of, is_visited, call, pass, pred_fn}
use lean.Kernel.ForEach.Parts.{
  cells, or_else, test, first_part, first_items, weight, weight-items_of, first_part-items_of,
  first_part_plain,
}
use lean.Kernel.ForEach.Finds.{
  iterate, Cleared, Cleared-mono, IsSearched, items_searched, visited-first_part,
}

module _ (same_cell : Expr → Expr → Bool) (is_shared : Expr → Bool) (p : Expr → Bool)
    (same : (a b : Expr) → same_cell a b ≡ true → a ≡ b) where
  found-pred_fn : (s : Option Expr) (e : Expr) (o : ℕ) → (pred_fn p s e o).0 ≡ or_else s (test p e)
  found-pred_fn (some r) e o = refl
  found-pred_fn none e o = ground arith

  pub plain-IsSearched :
      (e : Expr) (o : ℕ) → is_plain e ≡ true → IsSearched same_cell is_shared p (item e o)
  unfolding iterate pass
  plain-IsSearched e o h todo visited s c = (
    1,
    visited,
    omega (arith, weight-items_of e o),
    rw h (
        ap (λ r. some (visit todo visited r))
          (found-pred_fn s e o ∙ ap (or_else s) (sym (first_part_plain p e h)))),
    λ k g v. v,
  )

  -- The set of visited cells with the new cell.
  abbrev grown : Expr → ℕ → List Item → List Item
  grown e o visited = if is_shared e then item e o ∷ visited else visited

  grown-Cleared :
      (e : Expr) (o k : ℕ) (visited : List Item)
      → (cells e ≤ k → first_part p e ≡ none)
      → Cleared same_cell is_shared p k visited
      → Cleared same_cell is_shared p k (grown e o visited)
  grown-Cleared e o k visited h c = elim (Bool-cases (is_shared e)) [
    | inl q ↦ rw q (h, c)
    | inr q ↦ rw q c
  ]

  -- A cell that is searched for the first time.
  abbrev IsNew : Expr → ℕ → List Item → List Item → Option Expr → Type 0
  IsNew e o todo visited s =
      (n : ℕ) × (visited' : List Item) × (suc n ≤ cells e)
      × (iterate same_cell is_shared p n
            (call same_cell is_shared (pred_fn p) e o todo (grown e o visited) (pred_fn p s e o))
          ≡ some (visit todo visited' (or_else s (first_part p e))))
      × ((k : ℕ)
          → or_else s (first_part p e) ≡ none
          → Cleared same_cell is_shared p k visited
          → Cleared same_cell is_shared p k visited')

  cell-IsNew :
      (e : Expr) (o : ℕ) (todo visited : List Item) (s : Option Expr)
      → All (IsSearched same_cell is_shared p) (items_of e o)
      → (s ≡ none → Cleared same_cell is_shared p (cells e) visited)
      → IsNew e o todo visited s
  unfolding iterate
  cell-IsNew e o todo visited (some r) a c =
      (0, grown e o visited, omega (arith, weight-items_of e o), refl, λ k h v. cc)
  cell-IsNew e o todo visited none a c = elim (Bool-cases (p e)) [
    | inl t ↦
        let found : first_part p e ≡ some e = first_part-items_of p e o ∙ rw t in
        (0, grown e o visited, omega (arith, weight-items_of e o), rw (t, found), λ k h v. cc)
    | inr t ↦
        let parts : first_part p e ≡ first_items p (items_of e o) =
          first_part-items_of p e o ∙ rw t in
        let (n, visited', le, it, keep) =
          items_searched same_cell is_shared p (items_of e o) (weight (items_of e o)) todo
            (grown e o visited) none a (omega arith)
            (λ h.
              grown-Cleared e o (weight (items_of e o)) visited
                (λ l. ground (arith, l, weight-items_of e o))
                (Cleared-mono same_cell is_shared p (weight (items_of e o)) (cells e) visited
                  (omega (arith, weight-items_of e o)) (c refl))) in
        (
          n,
          visited',
          omega (arith, le, weight-items_of e o),
          rw t (it ∙ ap (λ r. some (visit todo visited' r)) (sym parts)),
          λ k h v. keep k (sym parts ∙ h) (grown-Cleared e o k visited (λ l. h) v),
        )
  ]

  unchanged :
      (e : Expr) (o : ℕ) (visited : List Item) (s : Option Expr)
      → is_visited same_cell visited e o ≡ true
      → (s ≡ none → Cleared same_cell is_shared p (cells e) visited)
      → s ≡ or_else s (first_part p e)
  unchanged e o visited none t c =
      sym (visited-first_part same_cell is_shared p same visited e o (c refl) t)
  unchanged e o visited (some r) t c = refl

  first_pass :
      (e : Expr) (o n : ℕ) (todo visited : List Item) (s : Option Expr)
      → is_plain e ≡ false
      → (is_shared e && is_visited same_cell visited e o) ≡ false
      → iterate same_cell is_shared p (suc n) (visit (item e o ∷ todo) visited s)
        ≡ iterate same_cell is_shared p n
            (call same_cell is_shared (pred_fn p) e o todo (grown e o visited) (pred_fn p s e o))
  unfolding iterate pass
  first_pass e o n todo visited s h t = rw (h, t)

  pub cell-IsSearched :
      (e : Expr) (o : ℕ)
      → is_plain e ≡ false
      → All (IsSearched same_cell is_shared p) (items_of e o)
      → IsSearched same_cell is_shared p (item e o)
  unfolding iterate pass
  cell-IsSearched e o h a todo visited s c =
      elim (Bool-cases (is_shared e && is_visited same_cell visited e o)) [
        | inl t ↦ (
          1,
          visited,
          omega (arith, weight-items_of e o),
          rw (h, t)
              (ap (λ r. some (visit todo visited r))
                (unchanged e o visited s (and_true _ _ t).1 c)),
          λ k g v. v,
        )
        | inr t ↦
            let (n, visited', le, it, keep) = cell-IsNew e o todo visited s a c in
            (suc n, visited', le, first_pass e o n todo visited s h t ∙ it, keep)
      ]
