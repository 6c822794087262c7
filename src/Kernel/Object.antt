-- ===== src/Kernel/Object.antt =====
-- kernel/object.h and kernel/object.cpp: the objects of an environment. Serialisation and keywords
-- are left out.
use lean.Base.{Bool, Option, false, none, not, some, true, ℕ, ◌&&◌, ◌==◌, ◌||◌}
use lean.Kernel.Expr.{Expr}
use lean.Kernel.Level.{Level}
use lean.Util.Name.{Name}

-- The virtual functions of semantic attachments that the kernel calls: two names, the type, the
-- hash, and whether two are of one class.
pub record ValueClasses : Type 0 where
  pub get_name : ℕ → Name
  pub get_unicode_name : ℕ → Name
  pub get_value_type : ℕ → Expr
  pub value_hash : ℕ → ℕ
  pub same_class : ℕ → ℕ → Bool

-- The neutral objects that the kernel makes.
pub data Neutral : Type 0 where
  set_opaque_command : Name → Bool → Neutral
  begin_import_mark end_import_mark : Neutral

-- The flag of a builtin, a definition or a theorem tells whether it is opaque; a definition also has
-- its weight.
pub data Object : Type 0 where
  uvar_constraint : Name → Level → Object
  builtin : ℕ → Bool → Object
  builtin_set : ℕ → Object
  axiom_object : Name → Expr → Object
  variable_decl : Name → Expr → Object
  definition : Name → Expr → Expr → Bool → ℕ → Object
  theorem_object : Name → Expr → Expr → Bool → Object
  neutral : Neutral → Object

abbrev pub get_type : ValueClasses → Object → Option Expr
get_type vs (builtin v o) = some (vs.get_value_type v)
get_type vs (axiom_object n t) = some t
get_type vs (variable_decl n t) = some t
get_type vs (definition n t v o w) = some t
get_type vs (theorem_object n t v o) = some t
get_type vs o = none

abbrev pub is_definition : Object → Bool
is_definition (builtin v o) = true
is_definition (definition n t v o w) = true
is_definition (theorem_object n t v o) = true
is_definition o = false

abbrev pub is_theorem : Object → Bool
is_theorem (theorem_object n t v o) = true
is_theorem o = false

abbrev pub is_opaque : Object → Bool
is_opaque (builtin v o) = o
is_opaque (definition n t v o w) = o
is_opaque (theorem_object n t v o) = o
is_opaque o = false

abbrev pub get_weight : Object → ℕ
get_weight (definition n t v o w) = w
get_weight o = 0

-- `set_opaque`, which no object but a definition gets.
abbrev pub set_flag : Bool → Object → Object
set_flag f (builtin v o) = builtin v f
set_flag f (definition n t v o w) = definition n t v f w
set_flag f (theorem_object n t v o) = theorem_object n t v f
set_flag f o = o

-- A theorem is opaque and has no weight.
abbrev pub mk_theorem : Name → Expr → Expr → Object
mk_theorem n t v = theorem_object n t v true

-- `should_unfold`
unfoldable pub should_unfold : Object → Bool → Bool
should_unfold o unfold_opaque =
    is_definition o && not (is_theorem o) && (unfold_opaque || not (is_opaque o))

-- Whether the object is the builtin value `v`, or a set with `v` in it.
unfoldable pub provides_value : ValueClasses → Object → ℕ → Bool
provides_value vs (builtin w o) v = w == v
provides_value vs (builtin_set r) v = vs.same_class v r
provides_value vs o v = false
