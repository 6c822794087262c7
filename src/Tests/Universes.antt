-- ===== src/Tests/Universes.antt =====
-- Levels against universe constraints: 3 above a variable is at least 1 above it and 1 more.
use lean.Base.{
  [], ap, ◌≤ℤ◌, ◌-ℤ◌, -ℤ_parts, +ℤ_parts, Option, arith, none, refl, some, true, ℕ, ◌↔◌, ◌≡◌,
}
use lean.Kernel.Level.{Level, uvar, lift, maximum, nil, cons}
use lean.Kernel.Level.Value.{value}
use lean.Kernel.UniverseConstraints.{Constraints, no_constraints, add_var}
use lean.Kernel.UniverseConstraints.Edges.{Mirrors, no_constraints-Mirrors, add_var-Mirrors}
use lean.Kernel.Environment.{
  Environment, Universes, empty_environment, get_ro_universes, init_uvars,
}
use lean.Kernel.Environment.Above.{add_uvar_cnstr-is_implied}
use lean.Kernel.Environment.WellFormed.{IsWellFormed, init_uvars-IsWellFormed}
use lean.Kernel.Environment.Universe.{add_uvar_cnstr}
use lean.Kernel.Level.{bottom}
use lean.Kernel.UniverseConstraints.{is_implied}
use lean.Kernel.Universes.{u_name}
use lean.Kernel.Universes.{is_ge, add_constraints}
use lean.Kernel.Universes.Implied.{IsModel, AtLeast, is_ge-AtLeast}
use lean.Kernel.Universes.Constrained.{add_constraints-IsModel_iff}
use lean.Util.Name.{Name, anonymous, num}
use lean.Base.{pos}
use lean.Kernel.Conversion.{RoEnvironment}
use lean.Kernel.Conversion.Relation.{Converts}
use lean.Kernel.Conversion.Separate.{Converts-Below}
use lean.Kernel.Expr.{type}
use lean.Kernel.ExprEq.Erasure.{erase}
use mathlib.Core.Option.{some-injective}

abbrev u : Name
u = num anonymous 1

abbrev w : Name
w = num anonymous 2

abbrev two_variables : Constraints
two_variables = add_var (add_var no_constraints u) w

abbrev zero_model : Name → ℕ
zero_model n = 0

abbrev low_level : Level
low_level = maximum (cons (lift (uvar u) 1) (cons (uvar u) nil))

abbrev high_level : Level
high_level = lift (uvar u) 3

zero_model-IsModel : IsModel zero_model (add_var no_constraints u)
unfolding add_var value
zero_model-IsModel x y k h = ground (arith, +ℤ_parts (pos (value zero_model (uvar y))) k, h)

is_ge_run : is_ge (add_var no_constraints u) high_level low_level (pos 1) ≡ some true
unfolding is_ge lean.Util.Name.name_eq lean.Util.Name.stored_hash lean.Util.Arith.safe_add_int
    lean.Util.Arith.safe_sub_int
is_ge_run = refl

is_ge-AtLeast_example : AtLeast zero_model high_level low_level (pos 1)
is_ge-AtLeast_example =
    is_ge-AtLeast zero_model (add_var no_constraints u) high_level low_level (pos 1)
      zero_model-IsModel (tt, (tt, (tt, tt))) is_ge_run

two_variables-Mirrors : Mirrors two_variables
unfolding add_var lean.Util.Name.name_eq lean.Util.Name.stored_hash lean.Util.Arith.safe_add_int
two_variables-Mirrors =
    add_var-Mirrors (add_var no_constraints u) w refl
      (add_var-Mirrors no_constraints u refl no_constraints-Mirrors)

-- The constraint w >= max(u + 1, u).
abbrev raised : Option Constraints
raised = add_constraints two_variables w low_level (pos 0)

abbrev constraints_or : Option Constraints → Constraints
constraints_or none = no_constraints
constraints_or (some c) = c

raised_run : raised ≡ some (constraints_or raised)
unfolding add_constraints add_var lean.Util.Name.name_eq lean.Util.Name.stored_hash
    lean.Util.Arith.safe_add_int
raised_run = refl

add_constraints-IsModel_iff_example :
    IsModel zero_model (constraints_or raised)
    ↔ (IsModel zero_model two_variables × AtLeast zero_model (uvar w) low_level (pos 0))
unfolding add_var lean.Util.Name.name_eq lean.Util.Name.stored_hash lean.Util.Arith.safe_add_int
add_constraints-IsModel_iff_example =
    add_constraints-IsModel_iff zero_model two_variables w low_level (pos 0) two_variables-Mirrors
      refl (tt, (tt, (tt, tt))) raised_run

-- A new environment with the variable M.
abbrev with_m : Option Environment
with_m = add_uvar_cnstr empty_environment w bottom

abbrev env_of : Option Environment → Environment
env_of none = empty_environment
env_of (some e) = e

add_uvar_cnstr-m : with_m ≡ some (env_of with_m)
unfolding add_uvar_cnstr empty_environment add_var lean.Util.Hash.hash_str lean.Util.Name.name_eq
    lean.Util.Name.stored_hash lean.Util.Arith.safe_add_int lean.Util.Arith.safe_sub_int
add_uvar_cnstr-m = refl

add_uvar_cnstr-is_implied_example :
    (v : Universes) × (get_ro_universes (env_of with_m) ≡ some v)
    × IsWellFormed v
    × (is_implied v.constraints u_name w (pos 1) ≡ true)
unfolding get_ro_universes empty_environment init_uvars lean.Util.Name.name_eq
    lean.Util.Name.stored_hash
add_uvar_cnstr-is_implied_example =
    add_uvar_cnstr-is_implied empty_environment w bottom refl init_uvars-IsWellFormed refl (λ e. cc)
      add_uvar_cnstr-m

-- Without reduction, over one variable, Type 1 does not convert to Type 0, also not by way of an
-- empty maximum.
abbrev plain_env : RoEnvironment
plain_env = record {
  constraints = add_var no_constraints u;
  object_type = λ n. none;
  is_registered = λ v. true;
  value_type = λ v. type bottom;
  value_hash = λ v. v;
  normalize = λ e c. some e;
}

universes_apart : ¬ Converts plain_env [] (type (lift bottom 1)) (type bottom)
unfolding value lean.Util.Name.name_eq lean.Util.Name.stored_hash lean.Util.Hash.hash_str
universes_apart h =
    let below =
      Converts-Below plain_env [] (lift bottom 1) bottom (λ a b e. ap erase (some-injective _ _ e))
        h in
    let one_below : pos 0 ≤ℤ pos 0 -ℤ pos 1 =
      below zero_model (pos 0) zero_model-IsModel (omega arith) in
    absurd (ground (arith, -ℤ_parts (pos 0) (pos 1), one_below))
