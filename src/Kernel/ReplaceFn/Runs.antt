-- ===== src/Kernel/ReplaceFn/Runs.antt =====
-- kernel/replace_fn.h: what the stacks compute.
use lean.Base.{
  ap, ◌>>=◌, ==_iff, All, Option-cases, and_true, ap₂, arith, false, refl, suc, sym, ◌∙◌, Bool,
  Bool-cases, List, Option, [], inl, inr, is_some, not, some, true, ℕ, ◌&&◌, ◌==◌, ◌∷◌, ◌≡◌,
}
use lean.Kernel.Expr.{Expr}
use lean.Kernel.Replace.{replace, or_parts}
use lean.Kernel.ReplaceFn.{
  Frame, Saved, saved, stacks, is_atomic, parts_of, update, find_saved, save_result, visit_new,
  visit, finish,
}
use lean.Kernel.ReplaceFn.Size.{weight-parts_of}
use lean.Kernel.ReplaceFn.Steps.{IsSound, results, Leaves, Ends, Visits, PartVisits, passes}

module _ (same_cell : Expr → Expr → Bool) (is_shared : Expr → Bool) (f : Expr → ℕ → Option Expr)
    (same : (a b : Expr) → same_cell a b ≡ true → a ≡ b) where
  abbrev pub Ok : List Saved → Type 0
  Ok cache = IsSound same_cell is_shared f cache

  find_saved-Ok :
      (cache : List Saved) (e : Expr) (o : ℕ) (r : Expr)
      → Ok cache
      → find_saved same_cell cache e o ≡ some r
      → r ≡ replace f e o
  unfolding find_saved
  find_saved-Ok [] e o r k h = cc
  find_saved-Ok (saved c p q ∷ cache) e o r k h = elim (Bool-cases (same_cell c e && p == o)) [
    | inl t ↦
        let (a, b) = and_true (same_cell c e) (p == o) t in
        let hit : q ≡ r = ground (arith, t, h) in
        sym hit ∙ k.0 ∙ ap₂ (replace f) (same c e a) ((==_iff p o).0 b)
    | inr t ↦ find_saved-Ok cache e o r k.1 (ground (arith, t, h))
  ]

  save_result-Leaves :
      (e : Expr) (r : Expr) (o : ℕ) (s : Bool) (fs : List Frame) (rs : List Expr)
      (cache : List Saved)
      → Ok cache
      → r ≡ replace f e o
      → Leaves same_cell is_shared f e o fs rs (save_result same_cell e r o s (stacks fs rs cache))
  unfolding save_result
  save_result-Leaves e r o s fs rs cache k h =
      elim (Bool-cases (s && not (is_some (find_saved same_cell cache e o)))) [
        | inl p ↦ (saved e o r ∷ cache, (h, k), rw (p, h))
        | inr p ↦ (cache, k, rw (p, h))
      ]

  -- What a visit does with the answer of `f`.
  NewEnds : Expr → ℕ → List Frame → List Expr → List Saved → Type 0
  NewEnds e o fs rs cache =
      Ends same_cell is_shared f e o fs rs
        (visit_new same_cell is_shared f (f e o) e o (stacks fs rs cache))

  visit-Visits :
      (e : Expr)
      → ((o : ℕ) (fs : List Frame) (rs : List Expr) (cache : List Saved)
          → Ok cache
          → NewEnds e o fs rs cache)
      → Visits same_cell is_shared f e
  unfolding visit NewEnds
  visit-Visits e new o fs rs cache k = elim (Bool-cases (is_shared e)) [
    | inr p ↦ rw p (new o fs rs cache k)
    | inl p ↦ elim (Option-cases (find_saved same_cell cache e o)) [
      | inl q ↦ rw (p, q) (new o fs rs cache k)
      | inr (r, q) ↦
          rw (p, q)
            (inl (
              refl,
              (cache, k, ap (λ x. stacks fs (x ∷ rs) cache) (find_saved-Ok cache e o r k q)),
            ))
    ]
  ]

  pub atomic-Visits :
      (e : Expr)
      → is_atomic e ≡ true
      → ((o : ℕ) → replace f e o ≡ or_parts (f e o) e)
      → Visits same_cell is_shared f e
  unfolding NewEnds visit_new
  atomic-Visits e a eq = visit-Visits e λ o fs rs cache k. elim (Option-cases (f e o)) [
    | inl p ↦
        rw (p, a)
          (inl (
            refl,
            save_result-Leaves e e o (is_shared e) fs rs cache k
                (sym (eq o ∙ ap (λ x. or_parts x e) p)),
          ))
    | inr (r, p) ↦ rw p (
        inl (
          refl,
          save_result-Leaves e r o (is_shared e) fs rs cache k
              (sym (eq o ∙ ap (λ x. or_parts x e) p)),
        ))
  ]

  -- The result of `update` on the results of the visits.
  abbrev pub Updates : Expr → Type 0
  Updates e =
      (o : ℕ) (rs : List Expr)
      → (r : Expr) × (update e (results same_cell is_shared f (parts_of e) o rs) ≡ some (r, rs))
        × (replace f e o ≡ or_parts (f e o) r)

  pub inner-Visits :
      (e : Expr)
      → is_atomic e ≡ false
      → All (PartVisits same_cell is_shared f) (parts_of e)
      → Updates e
      → Visits same_cell is_shared f e
  unfolding NewEnds visit_new finish
  inner-Visits e a v u = visit-Visits e λ o fs rs cache k. elim (Option-cases (f e o)) [
    | inr (r, p) ↦ rw p (
        inl (
          refl,
          save_result-Leaves e r o (is_shared e) fs rs cache k
              (sym ((u o rs).2 ∙ ap (λ x. or_parts x (u o rs).0) p)),
        ))
    | inl p ↦
        let (n, j, last, le, sound, w) =
          passes same_cell is_shared f e o (is_shared e) fs (parts_of e) 0 rs cache refl k v in
        let (r, q, eq) = u o rs in
        let left =
          save_result-Leaves e r o (is_shared e) fs rs last sound
            (sym (eq ∙ ap (λ x. or_parts x r) p)) in
        rw (p, a)
          (inr (
            refl,
            (
              suc n,
              save_result same_cell e r o (is_shared e) (stacks fs rs last),
              omega (arith, le, weight-parts_of e a),
              w
                  ∙ ap
                      (λ x. x >>= λ y.
                        some (save_result same_cell e y.0 o (is_shared e) (stacks fs y.1 last)))
                      q,
              left,
            ),
          ))
  ]
