-- ===== src/Kernel/ForEach/Finds.antt =====
-- kernel/find_fn.h: what the search does with one expression, and with the items on the stack.
use lean.Base.{
  ap, ◌∙◌, All, Bool, Bool-cases, List, Option, [], and_true, arith, inl, inr, none, some, subst,
  suc, true, zero, ℕ, ◌&&◌, ◌++◌, ◌+◌, ◌==◌, ◌∷◌, ◌≡◌, ◌≤◌,
}
use lean.Kernel.Expr.{Expr}
use lean.Kernel.ForEach.{Item, item, Visit, visit, is_visited, pass, pred_fn}
use lean.Kernel.ForEach.Parts.{
  or_else-none_left, cells, or_else, first_part, first_items, weight, or_else_assoc, or_else-none,
}

module _ (same_cell : Expr → Expr → Bool) (is_shared : Expr → Bool) (p : Expr → Bool) where
  -- n passes.
  unfoldable pub iterate : ℕ → Visit (Option Expr) → Option (Visit (Option Expr))
  unfolding pass
  iterate zero st = some st
  iterate (suc n) (visit [] visited s) = none
  iterate (suc n) (visit (item e o ∷ todo) visited s) =
      iterate n (pass same_cell is_shared (pred_fn p) e o todo visited s)

  iterate_add :
      (m k : ℕ) (a b : Visit (Option Expr)) → iterate m a ≡ some b → iterate (m + k) a ≡ iterate k b
  unfolding iterate
  iterate_add zero k a b h =
      let same : a ≡ b = cc in let none_more : 0 + k ≡ k = omega arith in rw (none_more, same)
  iterate_add (suc m) k (visit [] visited s) b h = cc
  iterate_add (suc m) k (visit (item e o ∷ todo) visited s) b h =
      let next : suc m + k ≡ suc (m + k) = omega arith in rw next (iterate_add m k _ b h)

  -- The visited cells of at most `k` cells have no part that is searched for.
  abbrev pub IsCleared : ℕ → Item → Type 0
  IsCleared k (item e o) = cells e ≤ k → first_part p e ≡ none

  abbrev pub Cleared : ℕ → List Item → Type 0
  Cleared k visited = All (IsCleared k) visited

  pub Cleared-mono : (j k : ℕ) (visited : List Item) → j ≤ k → Cleared k visited → Cleared j visited
  Cleared-mono j k [] le c = tt
  Cleared-mono j k (item e o ∷ visited) le c =
      ((λ h. c.0 (omega (arith, h, le))), Cleared-mono j k visited le c.1)

  -- The search goes through the items `is` and keeps what was cleared, unless it finds a part.
  abbrev pub Searches : List Item → Option Expr → ℕ → List Item → List Item → Option Expr → Type 0
  Searches is found total todo visited s =
      (n : ℕ) × (visited' : List Item) × (n ≤ total)
      × (iterate n (visit (is ++ todo) visited s) ≡ some (visit todo visited' (or_else s found)))
      × ((k : ℕ) → or_else s found ≡ none → Cleared k visited → Cleared k visited')

  abbrev pub IsSearched : Item → Type 0
  IsSearched (item e o) =
      (todo visited : List Item) (s : Option Expr)
      → (s ≡ none → Cleared (cells e) visited)
      → Searches (item e o ∷ []) (first_part p e) (cells e) todo visited s

  pub items_searched :
      (is : List Item) (m : ℕ) (todo visited : List Item) (s : Option Expr)
      → All IsSearched is
      → weight is ≤ m
      → (s ≡ none → Cleared m visited)
      → Searches is (first_items p is) (weight is) todo visited s
  unfolding iterate
  items_searched [] m todo visited s a le c =
      (0, visited, omega arith, rw (or_else-none s), λ k h v. v)
  items_searched (item e o ∷ is) m todo visited s a le c =
      let (n, visited1, le1, it1, keep1) =
        a.0 (is ++ todo) visited s (λ h. Cleared-mono (cells e) m visited (omega arith) (c h)) in
      let s1 = or_else s (first_part p e) in
      let (n2, visited2, le2, it2, keep2) =
        items_searched is m todo visited1 s1 a.1 (omega arith)
          (λ h. keep1 m h (c (or_else-none_left s (first_part p e) h))) in
      (
        n + n2,
        visited2,
        omega (arith, le1, le2),
        iterate_add n n2 _ _ it1
            ∙ it2
            ∙ ap (λ r. some (visit todo visited2 r))
                (or_else_assoc s (first_part p e) (first_items p is)),
        λ k h v.
            let h2 = or_else_assoc s (first_part p e) (first_items p is) ∙ h in
            keep2 k h2 (keep1 k (or_else-none_left s1 (first_items p is) h2) v),
      )

  module _ (same : (a b : Expr) → same_cell a b ≡ true → a ≡ b) where
    pub visited-first_part :
        (visited : List Item) (e : Expr) (o : ℕ)
        → Cleared (cells e) visited
        → is_visited same_cell visited e o ≡ true
        → first_part p e ≡ none
    unfolding is_visited
    visited-first_part [] e o c h = cc
    visited-first_part (item d q ∷ visited) e o c h = elim (Bool-cases (same_cell d e && q == o)) [
      | inl t ↦
          let (a, b) = and_true (same_cell d e) (q == o) t in
          let is_e = same d e a in
          subst (λ x. first_part p x ≡ none) is_e
            (c.0 (subst (λ x. cells d ≤ cells x) is_e (omega arith)))
      | inr t ↦ visited-first_part visited e o c.1 (ground (arith, t, h))
    ]
