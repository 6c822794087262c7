-- ===== src/Kernel/ReplaceFn/Result.antt =====
-- kernel/replace_fn.h: `replace_fn` and the recursion that it stands for.
use lean.Base.{
  >>=-eq-some, All, Bool, List, Option, [], ap, arith, inl, inr, refl, some, suc, true, zero, ℕ,
  ◌*◌, ◌+◌, ◌∙◌, ◌∷◌, ◌≡◌, ◌≤◌,
}
use lean.Util.Name.{Name}
use lean.Kernel.Expr.{
  Expr, Exprs, OptExpr, var, constant, value, app, pair, proj, abstraction, type, let_in, heq,
  metavar, nil, cons, absent, present, mk_app, length_args, append_args,
}
use lean.Kernel.Replace.{replace, replace_args}
use lean.Kernel.ReplaceFn.{
  Saved, Stacks, stacks, args_parts, opt_part, update, pop_args, step, loop, replace_fn,
}
use lean.Kernel.ReplaceFn.Size.{size}
use lean.Kernel.ReplaceFn.Steps.{iterate, results, Visits, PartVisits}
use lean.Kernel.ReplaceFn.Runs.{Updates, atomic-Visits, inner-Visits}

append_args_nil : (xs : Exprs) → append_args xs nil ≡ xs
append_args_nil nil = refl
append_args_nil (cons x xs) = ap (cons x) (append_args_nil xs)

module _ (same_cell : Expr → Expr → Bool) (is_shared : Expr → Bool)
    (f : Expr → ℕ → Option Expr) where
  loop-iterate :
      (m n : ℕ) (st : Stacks) (r : Expr) (rs : List Expr) (cache : List Saved)
      → iterate same_cell is_shared f m st ≡ some (stacks [] (r ∷ rs) cache)
      → m ≤ n
      → loop same_cell is_shared f n st ≡ some r
  unfolding iterate loop
  loop-iterate zero n st r rs cache h le = let same : st ≡ stacks [] (r ∷ rs) cache = cc in rw same
  loop-iterate (suc m) n (stacks [] rs' cache') r rs cache h le = cc
  loop-iterate (suc m) zero (stacks (g ∷ fs) rs' cache') r rs cache h le = ground arith
  loop-iterate (suc m) (suc n) (stacks (g ∷ fs) rs' cache') r rs cache h le =
      let (st, p, q) =
        >>=-eq-some (step same_cell is_shared f (stacks (g ∷ fs) rs' cache'))
          (iterate same_cell is_shared f m) h in
      rw p (loop-iterate m n st r rs cache q (omega (arith, le)))

  pop_args-results :
      (xs : Exprs) (k o : ℕ) (rs : List Expr) (acc : Exprs)
      → pop_args (length_args xs + k) (results same_cell is_shared f (args_parts xs) o rs) acc
        ≡ pop_args k rs (append_args (replace_args f xs o) acc)
  unfolding replace_args
  pop_args-results nil k o rs acc = let none_more : 0 + k ≡ k = omega arith in rw none_more
  pop_args-results (cons e es) k o rs acc =
      let more : suc (length_args es) + k ≡ length_args es + suc k = omega arith in
      rw more (pop_args-results es (suc k) o (replace f e o ∷ rs) acc)

  module _ (same : (a b : Expr) → same_cell a b ≡ true → a ≡ b) where
    app-Updates : (g : Expr) (xs : Exprs) → Updates same_cell is_shared f same (app g xs)
    unfolding update replace
    app-Updates g xs o rs =
        let r = replace f g o in
        let whole : length_args xs ≡ length_args xs + 0 = omega arith in
        (
          mk_app r (replace_args f xs o),
          ap (λ n. pop_args n (results same_cell is_shared f (args_parts xs) o (r ∷ rs)) nil) whole
              ∙ pop_args-results xs 0 o (r ∷ rs) nil
              ∙ ap (λ ys. some (mk_app r ys, rs)) (append_args_nil (replace_args f xs o)),
          refl,
        )

    let_in-Updates :
        (m : Name) (t : OptExpr) (v b : Expr) → Updates same_cell is_shared f same (let_in m t v b)
    unfolding update replace
    let_in-Updates m absent v b o rs = (_, refl, refl)
    let_in-Updates m (present t) v b o rs = (_, refl, refl)

    mutual
      unfolding update replace

      every-Visits : (e : Expr) → Visits same_cell is_shared f e
      every-Visits (var i) = atomic-Visits same_cell is_shared f same (var i) refl (λ o. refl)
      every-Visits (constant n t) =
          atomic-Visits same_cell is_shared f same (constant n t) refl (λ o. refl)
      every-Visits (value v) = atomic-Visits same_cell is_shared f same (value v) refl (λ o. refl)
      every-Visits (type l) = atomic-Visits same_cell is_shared f same (type l) refl (λ o. refl)
      every-Visits (metavar n c) =
          atomic-Visits same_cell is_shared f same (metavar n c) refl (λ o. refl)
      every-Visits (heq a b) =
          inner-Visits same_cell is_shared f same (heq a b) refl
            (every-Visits a, (every-Visits b, tt)) (λ o rs. (_, refl, refl))
      every-Visits (pair a b t) =
          inner-Visits same_cell is_shared f same (pair a b t) refl
            (every-Visits a, (every-Visits b, (every-Visits t, tt))) (λ o rs. (_, refl, refl))
      every-Visits (proj i e) =
          inner-Visits same_cell is_shared f same (proj i e) refl (every-Visits e, tt)
            (λ o rs. (_, refl, refl))
      every-Visits (app g xs) =
          inner-Visits same_cell is_shared f same (app g xs) refl (every-Visits g, args-Visits xs)
            (app-Updates g xs)
      every-Visits (abstraction k n t b) =
          inner-Visits same_cell is_shared f same (abstraction k n t b) refl
            (every-Visits t, (every-Visits b, tt)) (λ o rs. (_, refl, refl))
      every-Visits (let_in n t v b) =
          inner-Visits same_cell is_shared f same (let_in n t v b) refl
            (opt-Visits t, (every-Visits v, (every-Visits b, tt))) (let_in-Updates n t v b)

      args-Visits : (xs : Exprs) → All (PartVisits same_cell is_shared f) (args_parts xs)
      args-Visits nil = tt
      args-Visits (cons e es) = (every-Visits e, args-Visits es)

      opt-Visits : (t : OptExpr) → PartVisits same_cell is_shared f (opt_part t)
      opt-Visits absent = tt
      opt-Visits (present e) = every-Visits e

    -- `replace_fn` ends with the result of the recursion on expressions, for any function, sharing
    -- and cache of results, within twice as many passes through its loop as the expression has
    -- cells, where cells at one address are equal.
    pub replace_fn-eq :
        (e : Expr) (n : ℕ)
        → 2 * size e ≤ n
        → replace_fn same_cell is_shared f n e ≡ some (replace f e 0)
    unfolding replace_fn iterate
    replace_fn-eq e n le = elim (every-Visits e 0 [] [] [] tt) [
      | inl (p, (cache, so, q)) ↦
          loop-iterate 0 n _ (replace f e 0) [] cache (ap some q) (omega arith)
      | inr (p, (m, st, lt, it, (cache, so, q))) ↦
          loop-iterate m n _ (replace f e 0) [] cache (it ∙ ap some q) (omega (arith, lt, le))
    ]
