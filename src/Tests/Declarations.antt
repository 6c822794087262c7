-- ===== src/Tests/Declarations.antt =====
-- A type A, a value a of it, and the identity on it; with a normalizer that reduces at the head.
use lean.Base.{
  ◌<◌, arith, inr, is_some, true, ◌>>=◌, List, Option, [], false, none, refl, some, ◌∷◌, ◌≡◌,
}
use lean.Kernel.Context.{Context}
use lean.Kernel.Environment.{
  Environment, empty_environment, register_named_object, set_opaque, get_object_core, mk_child,
}
use lean.Kernel.Environment.Commands.{Command, definition_command, var_command, run}
use lean.Kernel.Expr.{Expr, var, constant, type, absent, lambda, pi, sigma, pair, app, nil, cons}
use lean.Kernel.Conversion.{RoEnvironment, is_convertible}
use lean.Kernel.Conversion.Relation.{Converts, is_convertible-Converts}
use lean.Kernel.Environment.Changes.{Changes}
use lean.Kernel.Environment.Declare.{
  read_only, add_definition, add_untyped_definition, add_theorem, add_axiom, add_var, weight_of,
  new_weight, get_max_weight,
}
use lean.Kernel.Environment.Names.{declarations-refused}
use lean.Kernel.Environment.Permanent.{run-get_object_core, SameUpToFlag}
use lean.Kernel.TypeChecker.{infer_to}
use lean.Kernel.TypeChecker.Entry.{check, nothing}
use lean.Kernel.TypeChecker.Terminates.{infer_to_enough}
use lean.Kernel.Environment.Weights.{add_definition-weight_of}
use lean.Kernel.Instantiate.{head_beta_reduce}
use lean.Kernel.Level.{bottom}
use lean.Kernel.Object.{Object, ValueClasses, variable_decl, definition}
use lean.Util.Name.{Name, anonymous, num}

abbrev type_name : Name
type_name = num anonymous 1

abbrev id_name : Name
id_name = num anonymous 2

abbrev x_name : Name
x_name = num anonymous 3

abbrev the_type : Expr
the_type = constant type_name absent

abbrev id_type : Expr
id_type = pi x_name the_type the_type

abbrev id_value : Expr
id_value = lambda x_name the_type (var 0)

abbrev no_values : ValueClasses
no_values = record {
  get_name = λ v. num anonymous 4;
  get_unicode_name = λ v. num anonymous 4;
  get_value_type = λ v. the_type;
  value_hash = λ v. v;
  same_class = λ v w. false;
}

abbrev reduce_head : Environment → Expr → Context → Option Expr
reduce_head env e ctx = some (head_beta_reduce none e)

abbrev type_env : Environment
type_env = register_named_object empty_environment type_name (variable_decl type_name (type bottom))

abbrev id_object : Object
id_object = definition id_name id_type id_value false 1

abbrev id_env : Environment
id_env = register_named_object type_env id_name id_object

abbrev commands : List Command
commands =
    var_command type_name (type bottom) ∷ definition_command id_name id_type id_value false ∷ []

declared : get_object_core type_env type_name ≡ some (variable_decl type_name (type bottom))
unfolding get_object_core register_named_object empty_environment lean.Util.Name.name_eq
    lean.Util.Name.stored_hash
declared = refl

abbrev later_commands : List Command
later_commands = definition_command id_name id_type id_value false ∷ []

run-later_commands : run no_values reduce_head later_commands type_env ≡ some id_env
unfolding run register_named_object empty_environment lean.Util.Name.name_eq
    lean.Util.Name.stored_hash
run-later_commands = refl

run-get_object_core_example :
    (p : Object) × (get_object_core id_env type_name ≡ some p)
    × SameUpToFlag (variable_decl type_name (type bottom)) p
unfolding register_named_object empty_environment
run-get_object_core_example =
    run-get_object_core no_values reduce_head later_commands type_env type_name refl
      run-later_commands declared

declarations-refused_example :
    (add_definition no_values reduce_head type_env type_name id_type id_value true ≡ none)
    × (add_untyped_definition no_values reduce_head type_env type_name id_value true ≡ none)
    × (add_theorem no_values reduce_head type_env type_name id_type id_value ≡ none)
    × (add_axiom no_values reduce_head type_env type_name id_type ≡ none)
    × (add_var no_values reduce_head type_env type_name id_type ≡ none)
declarations-refused_example =
    declarations-refused no_values reduce_head type_env type_name id_type id_value true
      (inr (variable_decl type_name (type bottom), declared))

-- The function that applies the identity.
abbrev applied : Expr
applied = lambda x_name the_type (app (constant id_name absent) (cons (var 0) nil))

abbrev checked_env : RoEnvironment
checked_env = read_only no_values reduce_head id_env

infer_to_enough_example :
    infer_to checked_env true nothing 5 applied []
    ≡ infer_to checked_env true (λ e c. some e) 9 applied []
infer_to_enough_example =
    infer_to_enough checked_env true nothing (λ e c. some e) 5 9 applied [] (omega arith)
      (omega arith)

-- (fun y : A, A) x, which is A.
abbrev redex : Expr
redex = app (lambda x_name the_type the_type) (cons (var 0) nil)

is_convertible-redex : is_convertible checked_env redex the_type [] ≡ some true
unfolding is_convertible read_only head_beta_reduce lean.Util.Name.name_eq
    lean.Util.Name.stored_hash lean.Kernel.ExprEq.expr_eq
is_convertible-redex = refl

is_convertible-Converts_example : Converts checked_env [] redex the_type
is_convertible-Converts_example =
    is_convertible-Converts checked_env redex the_type [] is_convertible-redex

-- The type that a pair carries: a Sigma whose range applies a function to a name that nothing
-- declares. It does not pass the checker, but the pair with it does.
abbrev odd_sigma : Expr
odd_sigma =
    sigma x_name the_type
      (app (lambda x_name the_type the_type) (cons (constant (num anonymous 9) absent) nil))

odd_sigma_refused : check checked_env (lambda x_name the_type odd_sigma) [] ≡ none
unfolding check read_only get_object_core register_named_object empty_environment
    lean.Util.Name.name_eq lean.Util.Name.stored_hash
odd_sigma_refused = refl

pair_accepted :
    is_some (check checked_env (lambda x_name the_type (pair (var 0) (var 0) odd_sigma)) []) ≡ true
unfolding check read_only head_beta_reduce get_object_core register_named_object empty_environment
    lean.Util.Name.name_eq lean.Util.Name.stored_hash
pair_accepted = refl

-- A flag set from a child changes the object of the parent, which has a child.
flag_in_parent :
    (set_opaque (mk_child id_env) id_name true >>= λ e. get_object_core e id_name)
    ≡ some (definition id_name id_type id_value true 1)
unfolding set_opaque mk_child register_named_object empty_environment lean.Util.Name.name_eq
    lean.Util.Name.stored_hash
flag_in_parent = refl

abbrev applied_name : Name
applied_name = num anonymous 5

abbrev env_or_empty : Option Environment → Environment
env_or_empty none = empty_environment
env_or_empty (some e) = e

-- A definition that names the identity, which has the weight 1.
abbrev applied_env : Option Environment
applied_env = add_definition no_values reduce_head id_env applied_name id_type applied true

add_definition-applied : applied_env ≡ some (env_or_empty applied_env)
unfolding add_definition register_named_object empty_environment lean.Util.Name.name_eq
    lean.Util.Name.stored_hash
add_definition-applied = refl

weight_of-id : weight_of id_env id_name ≡ 1
unfolding get_object_core register_named_object empty_environment lean.Util.Name.name_eq
    lean.Util.Name.stored_hash
weight_of-id = refl

add_definition-weight_of_example :
    (p : Object) × (get_object_core (env_or_empty applied_env) applied_name ≡ some p)
    × SameUpToFlag (definition applied_name id_type applied true (new_weight id_env applied)) p
    × (weight_of id_env id_name < new_weight id_env applied)
unfolding get_max_weight lean.Kernel.ForEach.Parts.first_part register_named_object
    empty_environment lean.Util.Name.name_eq lean.Util.Name.stored_hash
add_definition-weight_of_example =
    add_definition-weight_of no_values reduce_head id_env applied_name id_type applied true id_name
      add_definition-applied refl (omega arith)
