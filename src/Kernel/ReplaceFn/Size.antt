-- ===== src/Kernel/ReplaceFn/Size.antt =====
-- kernel/replace_fn.h: the number of cells that are visited.
use lean.Base.{List, [], arith, false, refl, suc, ℕ, ◌*◌, ◌+◌, ◌<◌, ◌∷◌, ◌≡◌}
use lean.Kernel.Expr.{
  Expr, Exprs, OptExpr, var, constant, value, app, pair, proj, abstraction, type, let_in, heq,
  metavar, nil, cons, absent, present,
}
use lean.Kernel.ReplaceFn.{Part, part, no_part, args_parts, parts_of, is_atomic}

-- The cells of an expression, the types of constants and the contexts of metavariables aside.
unfoldable mutual
  pub size : Expr → ℕ
  size (heq a b) = suc (size a + size b)
  size (pair a b t) = suc (size a + size b + size t)
  size (proj i e) = suc (size e)
  size (app g xs) = suc (size g + size_args xs)
  size (abstraction k n t b) = suc (size t + size b)
  size (let_in n t v b) = suc (size_opt t + size v + size b)
  size _ = 1

  pub size_args : Exprs → ℕ
  size_args nil = 0
  size_args (cons e es) = size e + size_args es

  pub size_opt : OptExpr → ℕ
  size_opt absent = 0
  size_opt (present e) = size e

abbrev pub weight : List Part → ℕ
weight [] = 0
weight (no_part ∷ ps) = weight ps
weight (part b c ∷ ps) = 2 * size c + weight ps

weight-args_parts : (xs : Exprs) → weight (args_parts xs) ≡ 2 * size_args xs
unfolding size
weight-args_parts nil = refl
weight-args_parts (cons e es) = omega (arith, weight-args_parts es)

-- Each case visits the cells below its own.
pub weight-parts_of : (e : Expr) → is_atomic e ≡ false → suc (weight (parts_of e)) < 2 * size e
unfolding size
weight-parts_of (app g xs) h = omega (arith, weight-args_parts xs)
weight-parts_of (let_in n absent v b) h = omega arith
weight-parts_of (let_in n (present t) v b) h = omega arith
weight-parts_of (heq a b) h = omega arith
weight-parts_of (pair a b t) h = omega arith
weight-parts_of (proj i e) h = omega arith
weight-parts_of (abstraction k n t b) h = omega arith
weight-parts_of (var i) h = cc
weight-parts_of (constant n t) h = cc
weight-parts_of (value v) h = cc
weight-parts_of (type l) h = cc
weight-parts_of (metavar n c) h = cc
