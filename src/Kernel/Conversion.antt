-- ===== src/Kernel/Conversion.antt =====
-- kernel/type_checker.cpp: types up to normal forms and universes, as the kernel asks for them:
-- without a metavariable environment and without a buffer for unification constraints. `none` is an
-- exception.
pub mod Relation
pub mod Separate
use lean.Base.{
  add32, suc, zero, Bool, Option, [], false, if◌then◌else◌, none, not, some, true, ℕ, ◌&&◌, ◌>>=◌,
  ◌||◌, ◌∷◌, pos,
}
use lean.Kernel.Expr.{
  Expr, Exprs, OptExpr, Binder, var, constant, value, app, pair, proj, abstraction, type, let_in,
  heq, metavar, nil, cons, absent, present, lambda_kind, pi_kind, sigma_kind, lambda, pi, sigma,
}
use lean.Kernel.Context.{Context, ContextEntry, lookup, lookup_ext}
use lean.Kernel.ExprEq.{expr_eq}
use lean.Kernel.FreeVars.{closed, has_free_var}
use lean.Kernel.FreeVars.Lift.{lift_free_vars, lower_free_vars}
use lean.Kernel.Instantiate.{instantiate, instantiate_with_closed}
use lean.Kernel.Level.{Level, plus, level_max}
use lean.Kernel.Universes.{is_ge}
use lean.Kernel.UniverseConstraints.{Constraints}
use lean.Util.Name.{Name, name_eq, anonymous, str}

-- What the checker calls of its environment: the universe constraints, the type of the object with
-- a name, if there is one and it has a type, whether a semantic attachment is a builtin value of the
-- object with its name or belongs to its builtin set, its type and hash, and the normalizer.
pub record RoEnvironment : Type 0 where
  pub constraints : Constraints
  pub object_type : Name → Option Expr
  pub is_registered : ℕ → Bool
  pub value_type : ℕ → Expr
  pub value_hash : ℕ → ℕ
  pub normalize : Expr → Context → Option Expr

abbrev pub bool_name : Name
bool_name = str anonymous (b'B' ∷ b'o' ∷ b'o' ∷ b'l' ∷ [])

abbrev pub bool_type : Expr
bool_type = constant bool_name absent

unfoldable pub is_bool : Expr → Bool
is_bool (constant n t) = name_eq n bool_name
is_bool e = false

abbrev pub is_type : Expr → Bool
is_type (type l) = true
is_type e = false

abbrev pub is_pi : Expr → Bool
is_pi (pi n d b) = true
is_pi e = false

abbrev pub is_sigma : Expr → Bool
is_sigma (sigma n d b) = true
is_sigma e = false

abbrev pub abst_domain : Expr → Expr
abst_domain (abstraction k n d b) = d
abst_domain e = e

abbrev pub abst_body : Expr → Expr
abst_body (abstraction k n d b) = b
abst_body e = e

module _ (env : RoEnvironment) where
  -- The answer `e`, or else the normal form of `e`, that passes the test.
  unfoldable pub expose : (Expr → Bool) → Expr → Context → Option Expr
  expose p e ctx = if p e then some e else do r ← env.normalize e ctx; if p r then some r else none

  -- `check_type`, `check_pi` and `check_sigma`
  abbrev pub check_sort : Expr → Context → Option Expr
  check_sort = expose (λ e. is_type e || is_bool e)

  abbrev pub check_pi : Expr → Context → Option Expr
  check_pi = expose is_pi

  abbrev pub check_sigma : Expr → Context → Option Expr
  check_sigma = expose is_sigma

  -- The loop of `is_convertible_core`.
  unfoldable pub convertible_loop : Expr → Expr → Option Bool
  unfolding expr_eq is_ge
  convertible_loop (type lg) (type le) = is_ge env.constraints le lg (pos 0)
  convertible_loop g (type le) = some (expr_eq env.value_hash g bool_type)
  convertible_loop (pi m d b) (pi n c a) =
      let rest = convertible_loop b a in if expr_eq env.value_hash c d then rest else some false
  convertible_loop g e = some false

  unfoldable pub is_convertible_core : Expr → Expr → Option Bool
  unfolding expr_eq convertible_loop
  is_convertible_core given expected =
      if expr_eq env.value_hash given expected then some true else convertible_loop given expected

  -- `is_convertible`
  unfoldable pub is_convertible : Expr → Expr → Context → Option Bool
  unfolding is_convertible_core
  is_convertible given expected ctx = do
    direct ← is_convertible_core given expected
    if direct
        then some true
        else do g ← env.normalize given ctx; e ← env.normalize expected ctx; is_convertible_core g e

  -- `is_definitionally_equal`
  unfoldable pub is_definitionally_equal : Expr → Expr → Context → Option Bool
  unfolding expr_eq
  is_definitionally_equal t1 t2 ctx = if expr_eq env.value_hash t1 t2 then some true else do
    n1 ← env.normalize t1 ctx
    n2 ← env.normalize t2 ctx
    some (expr_eq env.value_hash n1 n2)

  -- The expression `r`, where `given` is convertible to `expected`.
  unfoldable pub require : Expr → Expr → Context → Expr → Option Expr
  unfolding is_convertible
  require given expected ctx r = do
    ok ← is_convertible given expected ctx
    if ok then some r else none
