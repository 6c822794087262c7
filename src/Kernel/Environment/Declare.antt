-- ===== src/Kernel/Environment/Declare.antt =====
-- kernel/environment.cpp: declarations. The normalizer, which reads the environment, is a parameter.
use lean.Base.{
  Bool, Option, [], add32, false, if◌then◌else◌, is_some, max, none, not, some, true, ℕ, ◌&&◌,
  ◌>>=◌,
}
use lean.Kernel.Conversion.{RoEnvironment, is_convertible}
use lean.Kernel.Context.{Context}
use lean.Kernel.Environment.{
  Environment, cell_of, check_name, get_object_core, register_named_object, add_neutral_object,
  set_opaque, get_ro_universes,
}
use lean.Kernel.Expr.{
  Expr, Exprs, OptExpr, constant, app, pair, proj, abstraction, let_in, heq, nil, cons, absent,
  present,
}
use lean.Kernel.ForEach.Parts.{first_part}
use lean.Kernel.Object.{
  Neutral, ValueClasses, builtin, builtin_set, axiom_object, variable_decl, definition, mk_theorem,
  get_type, get_weight, provides_value,
}
use lean.Kernel.TypeChecker.Entry.{check, infer_type, check_type}
use lean.Kernel.UniverseConstraints.{Constraints, no_constraints}
use lean.Util.Name.{Name, name_eq}

-- The function of `check_no_cached_type`, and whether it does not throw.
abbrev pub has_cached_type : Expr → Bool
has_cached_type (constant n (present t)) = true
has_cached_type e = false

unfoldable pub check_no_cached_type : Expr → Bool
unfolding first_part
check_no_cached_type e = not (is_some (first_part has_cached_type e))

-- The weight of the object that a name stands for, and the greatest for the constants of an
-- expression.
abbrev pub weight_of : Environment → Name → ℕ
weight_of env n = elim (get_object_core env n) [ none ↦ 0 | some o ↦ get_weight o ]

unfoldable mutual
  unfolding get_object_core

  pub get_max_weight : Environment → Expr → ℕ
  get_max_weight env (constant n t) = max (weight_of env n) (max_weight_opt env t)
  get_max_weight env (app f xs) = max (get_max_weight env f) (max_weight_args env xs)
  get_max_weight env (pair a b t) =
      max (get_max_weight env a) (max (get_max_weight env b) (get_max_weight env t))
  get_max_weight env (proj first a) = get_max_weight env a
  get_max_weight env (abstraction k n d b) = max (get_max_weight env d) (get_max_weight env b)
  get_max_weight env (let_in n t v b) =
      max (max_weight_opt env t) (max (get_max_weight env v) (get_max_weight env b))
  get_max_weight env (heq a b) = max (get_max_weight env a) (get_max_weight env b)
  get_max_weight env e = 0

  pub max_weight_args : Environment → Exprs → ℕ
  max_weight_args env nil = 0
  max_weight_args env (cons e es) = max (get_max_weight env e) (max_weight_args env es)

  pub max_weight_opt : Environment → OptExpr → ℕ
  max_weight_opt env absent = 0
  max_weight_opt env (present e) = get_max_weight env e

-- The weight of a new definition.
abbrev pub new_weight : Environment → Expr → ℕ
new_weight env v = add32 (get_max_weight env v) 1

-- The environment `env` where the test holds; an exception where it does not.
abbrev pub unless_throws : Bool → Option Environment → Option Environment
unless_throws ok env = if ok then env else none

abbrev pub constraints_of : Environment → Constraints
constraints_of env = elim (get_ro_universes env) [ none ↦ no_constraints | some u ↦ u.constraints ]

abbrev pub is_checked : Environment → Bool
is_checked env = (cell_of env).type_check

abbrev pub set_opaque_if : Bool → Name → Environment → Option Environment
set_opaque_if opaque n env = if opaque then set_opaque env n true else some env

module _ (vs : ValueClasses) (normalize : Environment → Expr → Context → Option Expr) where
  -- What the type checker sees of an environment.
  unfoldable pub read_only : Environment → RoEnvironment
  unfolding get_object_core provides_value get_ro_universes
  read_only env = record {
    constraints = constraints_of env;
    object_type = λ n. get_object_core env n >>= get_type vs;
    is_registered = λ v. elim (get_object_core env (vs.get_name v)) [
      | none ↦ false
      | some o ↦ provides_value vs o v
    ];
    value_type = vs.get_value_type;
    value_hash = vs.value_hash;
    normalize = normalize env;
  }

  -- `check_type(n, t, v)`: whether it does not throw.
  unfoldable pub check_value : Environment → Expr → Expr → Bool
  unfolding check_type check read_only is_convertible
  check_value env t v =
      if is_checked env
      then is_some (do
        _ ← check_type (read_only env) t []
        v_t ← check (read_only env) v []
        ok ← is_convertible (read_only env) v_t t []
        if ok then some v_t else none)
      else true

  -- `m_type_checker->check_type(t)`, under `m_type_check`.
  unfoldable pub check_postulate : Environment → Expr → Bool
  unfolding check_type read_only
  check_postulate env t = if is_checked env then is_some (check_type (read_only env) t []) else true

  -- `add_definition(n, t, v, opaque)`
  unfoldable pub add_definition : Environment → Name → Expr → Expr → Bool → Option Environment
  unfolding check_no_cached_type check_name check_value get_max_weight register_named_object
      set_opaque
  add_definition env n t v opaque =
      unless_throws
        (check_no_cached_type t
          && check_no_cached_type v
          && check_name env n
          && check_value env t v)
        (set_opaque_if opaque n
          (register_named_object env n (definition n t v false (new_weight env v))))

  -- The type that a definition without one gets.
  unfoldable pub type_of_value : Environment → Expr → Option Expr
  unfolding check infer_type read_only
  type_of_value env v =
      if is_checked env then check (read_only env) v [] else infer_type (read_only env) v []

  -- `add_definition(n, v, opaque)`
  unfoldable pub add_untyped_definition : Environment → Name → Expr → Bool → Option Environment
  unfolding check_no_cached_type check_name type_of_value get_max_weight register_named_object
      set_opaque
  add_untyped_definition env n v opaque =
      unless_throws (check_no_cached_type v && check_name env n) (do
        v_t ← type_of_value env v
        set_opaque_if opaque n
            (register_named_object env n (definition n v_t v false (new_weight env v))))

  -- `add_theorem`
  unfoldable pub add_theorem : Environment → Name → Expr → Expr → Option Environment
  unfolding check_no_cached_type check_name check_value register_named_object
  add_theorem env n t v =
      unless_throws
        (check_no_cached_type t
          && check_no_cached_type v
          && check_name env n
          && check_value env t v)
        (some (register_named_object env n (mk_theorem n t v)))

  -- `add_axiom` and `add_var`
  unfoldable pub add_axiom : Environment → Name → Expr → Option Environment
  unfolding check_no_cached_type check_name check_postulate register_named_object
  add_axiom env n t =
      unless_throws (check_no_cached_type t && check_name env n && check_postulate env t)
        (some (register_named_object env n (axiom_object n t)))

  unfoldable pub add_var : Environment → Name → Expr → Option Environment
  unfolding check_no_cached_type check_name check_postulate register_named_object
  add_var env n t =
      unless_throws (check_no_cached_type t && check_name env n && check_postulate env t)
        (some (register_named_object env n (variable_decl n t)))

  -- `add_builtin` of the attachment `v`; its definition by the other name stands in an auxiliary
  -- section.
  unfoldable pub add_builtin : Environment → ℕ → Option Environment
  unfolding check_name register_named_object add_neutral_object add_definition
  add_builtin env v =
      let n = vs.get_name v in
      let u = vs.get_unicode_name v in
      let named = register_named_object env n (builtin v false) in
      unless_throws (check_name env n && check_name env u) (
        if name_eq u n then some named else do
          e ←
              add_definition (add_neutral_object named Neutral.begin_import_mark) u
                (vs.get_value_type v) (constant n absent) false
          some (add_neutral_object e Neutral.end_import_mark))

  -- `add_builtin_set` of the attachment `r`
  unfoldable pub add_builtin_set : Environment → ℕ → Option Environment
  unfolding check_name register_named_object
  add_builtin_set env r =
      unless_throws (check_name env (vs.get_name r))
        (some (register_named_object env (vs.get_name r) (builtin_set r)))
