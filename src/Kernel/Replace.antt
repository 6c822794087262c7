-- ===== src/Kernel/Replace.antt =====
-- kernel/replace_fn.h: `replace_fn`, and kernel/update_expr.cpp. The function `f` answers `none`
-- where the source's returns the very cell that it was given. The cache of `replace_fn` is keyed by
-- cell and offset and holds the results of this function, so it leaves no trace. The `update_`
-- functions return the old cell if no part is new, which is the same expression, an application's
-- head being no application.
use lean.Base.{Option, add32, none, some, ℕ}
use lean.Kernel.Expr.{
  Expr, Exprs, OptExpr, var, constant, value, app, pair, proj, abstraction, type, let_in, heq,
  metavar, nil, cons, absent, present, mk_app,
}

-- The result of `f` where it is another cell, else what the parts give.
abbrev pub or_parts : Option Expr → Expr → Expr
or_parts none e = e
or_parts (some r) e = r

-- `replace`; the offset is the number of binders passed.
unfoldable mutual
  pub replace : (Expr → ℕ → Option Expr) → Expr → ℕ → Expr
  replace f (var i) o = or_parts (f (var i) o) (var i)
  replace f (constant n t) o = or_parts (f (constant n t) o) (constant n t)
  replace f (value v) o = or_parts (f (value v) o) (value v)
  replace f (type l) o = or_parts (f (type l) o) (type l)
  replace f (metavar n c) o = or_parts (f (metavar n c) o) (metavar n c)
  replace f (heq a b) o = or_parts (f (heq a b) o) (heq (replace f a o) (replace f b o))
  replace f (pair a b t) o =
      or_parts (f (pair a b t) o) (pair (replace f a o) (replace f b o) (replace f t o))
  replace f (proj i e) o = or_parts (f (proj i e) o) (proj i (replace f e o))
  replace f (app g xs) o = or_parts (f (app g xs) o) (mk_app (replace f g o) (replace_args f xs o))
  replace f (abstraction k n t b) o =
      or_parts (f (abstraction k n t b) o)
        (abstraction k n (replace f t o) (replace f b (add32 o 1)))
  replace f (let_in n t v b) o =
      or_parts (f (let_in n t v b) o)
        (let_in n (replace_opt f t o) (replace f v o) (replace f b (add32 o 1)))

  pub replace_args : (Expr → ℕ → Option Expr) → Exprs → ℕ → Exprs
  replace_args f nil o = nil
  replace_args f (cons e es) o = cons (replace f e o) (replace_args f es o)

  pub replace_opt : (Expr → ℕ → Option Expr) → OptExpr → ℕ → OptExpr
  replace_opt f absent o = absent
  replace_opt f (present e) o = present (replace f e o)
