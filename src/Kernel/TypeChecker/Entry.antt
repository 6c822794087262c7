-- ===== src/Kernel/TypeChecker/Entry.antt =====
-- kernel/type_checker.cpp: the calls that the environment makes, to a depth that is enough.
use lean.Base.{Bool, Option, [], false, if◌then◌else◌, none, some, suc, true, ℕ, ◌+◌, ◌>>=◌, ◌∷◌}
use lean.Kernel.Conversion.{RoEnvironment, check_sort, is_bool, expose}
use lean.Kernel.TypeChecker.{Checker, infer_to, extend}
use lean.Kernel.Context.{Context}
use lean.Kernel.Expr.{
  Expr, Exprs, OptExpr, app, pair, proj, abstraction, type, let_in, heq, nil, cons, absent, present,
  lambda, pi,
}

-- The cells of an expression that `infer_type_core` can reach, and those of the bodies of a context.
abbrev mutual
  pub reach : Expr → ℕ
  reach (app f xs) = suc (reach f + reach_args xs)
  reach (pair a b t) = suc (reach a + reach b)
  reach (proj first a) = suc (reach a)
  reach (abstraction k n d b) = suc (reach d + reach b)
  reach (let_in n t v b) = suc (reach_opt t + reach v + reach b)
  reach (heq a b) = suc (reach a + reach b)
  reach e = 1

  pub reach_args : Exprs → ℕ
  reach_args nil = 0
  reach_args (cons e es) = reach e + reach_args es

  pub reach_opt : OptExpr → ℕ
  reach_opt absent = 0
  reach_opt (present e) = reach e

abbrev pub reach_context : Context → ℕ
reach_context [] = 0
reach_context (e ∷ c) = reach_opt e.body + reach_context c

abbrev pub nothing : Checker
nothing e ctx = none

module _ (env : RoEnvironment) where
  abbrev pub infer_type_core : Bool → Checker
  infer_type_core only e ctx = infer_to env only nothing (reach e + reach_context ctx) e ctx

  -- `check(e, ctx)` and `infer_type(e, ctx)`
  unfoldable pub check : Expr → Context → Option Expr
  unfolding infer_to
  check = infer_type_core false

  unfoldable pub infer_type : Expr → Context → Option Expr
  unfolding infer_to
  infer_type = infer_type_core true

  -- `check_type(e, ctx)` of a checker that is not made for `infer_only`.
  unfoldable pub check_type : Expr → Context → Option Expr
  unfolding infer_to expose
  check_type e ctx = do t ← infer_type_core false e ctx; check_sort env t ctx

  -- `is_proposition(e, ctx)`
  unfoldable pub is_proposition : Expr → Context → Option Bool
  unfolding infer_type is_bool
  is_proposition (lambda n d b) ctx = some false
  is_proposition (type l) ctx = some false
  is_proposition (pi n d b) ctx = is_proposition b (extend ctx n d)
  is_proposition e ctx = do
    t ← infer_type e ctx
    if is_bool t then some true else do r ← env.normalize t ctx; some (is_bool r)
