-- ===== src/Kernel/ForEach/Occurs.antt =====
-- kernel/find_fn.h and kernel/occurs.cpp: what `find` and `occurs` answer.
use lean.Base.{
  All, Bool, List, Option, [], add32, arith, none, refl, some, suc, true, zero, ℕ, ◌∷◌, ◌≡◌, ◌≤◌,
}
use lean.Kernel.Expr.{
  Expr, Exprs, var, constant, value, app, pair, proj, abstraction, type, let_in, heq, metavar, nil,
  cons, absent, present,
}
use lean.Kernel.ForEach.{Item, item, Visit, visit, args_items, pred_fn, loop, find}
use lean.Kernel.ForEach.Parts.{cells, first_part}
use lean.Kernel.ForEach.Finds.{iterate, IsSearched}
use lean.Kernel.ForEach.Cell.{plain-IsSearched, cell-IsSearched}

module _ (same_cell : Expr → Expr → Bool) (is_shared : Expr → Bool) (p : Expr → Bool) where
  loop-iterate :
      (m n : ℕ) (st : Visit (Option Expr)) (visited : List Item) (s : Option Expr)
      → iterate same_cell is_shared p m st ≡ some (visit [] visited s)
      → m ≤ n
      → loop same_cell is_shared (pred_fn p) n st ≡ some s
  unfolding iterate loop
  loop-iterate zero n st visited s h le = let here : st ≡ visit [] visited s = cc in rw here
  loop-iterate (suc m) n (visit [] visited' s') visited s h le = cc
  loop-iterate (suc m) zero (visit (item e o ∷ todo) visited' s') visited s h le = ground arith
  loop-iterate (suc m) (suc n) (visit (item e o ∷ todo) visited' s') visited s h le =
      loop-iterate m n _ visited s h (omega (arith, le))

  module _ (same : (a b : Expr) → same_cell a b ≡ true → a ≡ b) where
    mutual
      every-IsSearched : (e : Expr) (o : ℕ) → IsSearched same_cell is_shared p (item e o)
      every-IsSearched (var i) o = plain-IsSearched same_cell is_shared p same (var i) o refl
      every-IsSearched (constant n absent) o =
          plain-IsSearched same_cell is_shared p same (constant n absent) o refl
      every-IsSearched (constant n (present t)) o =
          cell-IsSearched same_cell is_shared p same (constant n (present t)) o refl
            (every-IsSearched t o, tt)
      every-IsSearched (value v) o = plain-IsSearched same_cell is_shared p same (value v) o refl
      every-IsSearched (type l) o = plain-IsSearched same_cell is_shared p same (type l) o refl
      every-IsSearched (metavar n c) o =
          plain-IsSearched same_cell is_shared p same (metavar n c) o refl
      every-IsSearched (heq a b) o =
          cell-IsSearched same_cell is_shared p same (heq a b) o refl
            (every-IsSearched b o, (every-IsSearched a o, tt))
      every-IsSearched (pair a b t) o =
          cell-IsSearched same_cell is_shared p same (pair a b t) o refl
            (every-IsSearched t o, (every-IsSearched b o, (every-IsSearched a o, tt)))
      every-IsSearched (proj i e) o =
          cell-IsSearched same_cell is_shared p same (proj i e) o refl (every-IsSearched e o, tt)
      every-IsSearched (app g xs) o =
          cell-IsSearched same_cell is_shared p same (app g xs) o refl
            (every-IsSearched g o, args-IsSearched xs o)
      every-IsSearched (abstraction k n t b) o =
          cell-IsSearched same_cell is_shared p same (abstraction k n t b) o refl
            (every-IsSearched t o, (every-IsSearched b (add32 o 1), tt))
      every-IsSearched (let_in n absent v b) o =
          cell-IsSearched same_cell is_shared p same (let_in n absent v b) o refl
            (every-IsSearched v o, (every-IsSearched b (add32 o 1), tt))
      every-IsSearched (let_in n (present t) v b) o =
          cell-IsSearched same_cell is_shared p same (let_in n (present t) v b) o refl
            (every-IsSearched t o, (every-IsSearched v o, (every-IsSearched b (add32 o 1), tt)))

      args-IsSearched :
          (xs : Exprs) (o : ℕ) → All (IsSearched same_cell is_shared p) (args_items xs o)
      args-IsSearched nil o = tt
      args-IsSearched (cons e es) o = (every-IsSearched e o, args-IsSearched es o)

    -- `find` returns the first part of the expression, in the order of the visit, that satisfies
    -- the predicate, or none if no part does, for any sharing of cells, within as many passes through
    -- its loop as the expression has cells, where cells at one address are equal.
    pub find-eq :
        (e : Expr) (n : ℕ) → cells e ≤ n → find same_cell is_shared p n e ≡ some (first_part p e)
    unfolding find
    find-eq e n le =
        let (m, visited, bound, it, keep) = every-IsSearched e 0 [] [] none (λ h. tt) in
        loop-iterate m n _ visited (first_part p e) it (omega (arith, bound, le))
