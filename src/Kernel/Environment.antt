-- ===== src/Kernel/Environment.antt =====
-- kernel/environment.h and kernel/environment.cpp: the state of an environment, its objects by name
-- and its universes. An environment is its own cell with those of its ancestors; `none` is an
-- exception. A vector of objects holds them in the order they were added; the dictionary gives the
-- place of a named object there, so that both see a flag that is set.
pub mod Declare
pub mod Universe
pub mod Commands
pub mod Changes
pub mod Accepted
pub mod Run
pub mod AllObjects
pub mod Stored
pub mod Names
pub mod Weights
pub mod Avoids
pub mod WellFormed
pub mod Above
pub mod Permanent
use lean.Base.{
  Bool, List, Option, [], get_elem?, if◌then◌else◌, is_some, leb, length, ltb, none, not, some, suc,
  true, zero, ℕ, ◌&&◌, ◌++◌, ◌+◌, ◌-◌, ◌>>=◌, ◌∷◌,
}
use lean.Kernel.Conversion.{RoEnvironment}
use lean.Kernel.Context.{Context}
use lean.Kernel.Expr.{
  Expr, Exprs, OptExpr, var, constant, value, app, pair, proj, abstraction, type, let_in, heq,
  metavar, nil, cons, absent, present,
}
use lean.Kernel.ForEach.Parts.{first_part}
use lean.Kernel.Level.{bot_name}
use lean.Kernel.Object.{
  Object, Neutral, ValueClasses, neutral, get_type, get_weight, is_definition, set_flag,
  provides_value,
}
use lean.Kernel.UniverseConstraints.{Constraints, no_constraints, add_var}
use lean.Util.Name.{Name, name_eq}

-- The universe variables and their constraints.
pub record Universes : Type 0 where
  pub uvars : List Name
  pub constraints : Constraints

pub record Cell : Type 0 where
  pub num_children : ℕ
  pub universes : Option Universes
  pub objects : List Object
  pub object_dictionary : Name → Option ℕ
  pub type_check : Bool

pub data Environment : Type 0 where
  root : Cell → Environment
  child : Cell → Environment → Environment

abbrev pub cell_of : Environment → Cell
cell_of (root c) = c
cell_of (child c parent) = c

abbrev pub with_cell : Cell → Environment → Environment
with_cell d (root c) = root d
with_cell d (child c parent) = child d parent

abbrev pub empty_cell : Option Universes → Cell
empty_cell u = record {
  num_children = 0;
  universes = u;
  objects = [];
  object_dictionary = λ n. none;
  type_check = true;
}

-- `init_uvars`, and the environment that the constructor makes.
unfoldable pub init_uvars : Universes
unfolding add_var
init_uvars = record { uvars = bot_name ∷ []; constraints = add_var no_constraints bot_name }

unfoldable pub empty_environment : Environment
unfolding init_uvars
empty_environment = root (empty_cell (some init_uvars))

abbrev pub inc_children : Cell → Cell
inc_children c = record {
  num_children = suc c.num_children;
  universes = c.universes;
  objects = c.objects;
  object_dictionary = c.object_dictionary;
  type_check = c.type_check;
}

-- `mk_child`: the new environment, over this one with one child more.
unfoldable pub mk_child : Environment → Environment
mk_child env = child (empty_cell none) (with_cell (inc_children (cell_of env)) env)

abbrev pub has_children : Environment → Bool
has_children env = ltb 0 (cell_of env).num_children

-- The object of a cell with the name.
abbrev pub find_in : Cell → Name → Option Object
find_in c n = do i ← c.object_dictionary n; get_elem? c.objects i

-- `get_object_core`, also `find_object`
unfoldable pub get_object_core : Environment → Name → Option Object
get_object_core (root c) n = find_in c n
get_object_core (child c parent) n = elim (c.object_dictionary n) [
  | none ↦ get_object_core parent n
  | some i ↦ get_elem? c.objects i
]

-- `check_name_core`: whether it does not throw.
unfoldable pub check_name_core : Environment → Name → Bool
check_name_core (root c) n = not (is_some (c.object_dictionary n))
check_name_core (child c parent) n =
    check_name_core parent n && not (is_some (c.object_dictionary n))

-- `check_name`
unfoldable pub check_name : Environment → Name → Bool
unfolding check_name_core
check_name env n = not (has_children env) && check_name_core env n

abbrev pub push_object : Object → Cell → Cell
push_object o c = record {
  num_children = c.num_children;
  universes = c.universes;
  objects = c.objects ++ o ∷ [];
  object_dictionary = c.object_dictionary;
  type_check = c.type_check;
}

-- The pair goes into the dictionary where it has none for the name.
abbrev pub insert_name : (Name → Option ℕ) → Name → ℕ → Name → Option ℕ
insert_name dict n i m =
    if name_eq n m then elim (dict n) [ none ↦ some i | some j ↦ some j ] else dict m

abbrev pub register_in : Name → Object → Cell → Cell
register_in n o c = record {
  num_children = c.num_children;
  universes = c.universes;
  objects = c.objects ++ o ∷ [];
  object_dictionary = insert_name c.object_dictionary n (length c.objects);
  type_check = c.type_check;
}

-- `register_named_object`
unfoldable pub register_named_object : Environment → Name → Object → Environment
register_named_object env n o = with_cell (register_in n o (cell_of env)) env

-- `add_neutral_object`
unfoldable pub add_neutral_object : Environment → Neutral → Environment
add_neutral_object env c = with_cell (push_object (neutral c) (cell_of env)) env

abbrev pub update_at {ℓ} : {A : Type ℓ} → (A → A) → List A → ℕ → List A
update_at f [] i = []
update_at f (x ∷ xs) zero = f x ∷ xs
update_at f (x ∷ xs) (suc i) = x ∷ update_at f xs i

abbrev pub flag_in : Bool → ℕ → Cell → Cell
flag_in f i c = record {
  num_children = c.num_children;
  universes = c.universes;
  objects = update_at (set_flag f) c.objects i;
  object_dictionary = c.object_dictionary;
  type_check = c.type_check;
}

-- The object with the name gets the flag where it is stored, in an ancestor too.
unfoldable pub set_object_flag : Environment → Name → Bool → Environment
set_object_flag (root c) n f = elim (c.object_dictionary n) [
  | none ↦ root c
  | some i ↦ root (flag_in f i c)
]
set_object_flag (child c parent) n f =
    let above = set_object_flag parent n f in
    elim (c.object_dictionary n) [ none ↦ child c above | some i ↦ child (flag_in f i c) parent ]

-- `set_opaque`
unfoldable pub set_opaque : Environment → Name → Bool → Option Environment
unfolding get_object_core set_object_flag add_neutral_object
set_opaque env n f = do
  o ← get_object_core env n
  if is_definition o
      then some (add_neutral_object (set_object_flag env n f) (Neutral.set_opaque_command n f))
      else none

-- `get_num_objects(false)` and `get_object(i, false)`
unfoldable pub get_num_objects : Environment → ℕ
get_num_objects (root c) = length c.objects
get_num_objects (child c parent) = length c.objects + get_num_objects parent

unfoldable pub get_object_at : Environment → ℕ → Option Object
unfolding get_num_objects
get_object_at (root c) i = get_elem? c.objects i
get_object_at (child c parent) i =
    let above = get_object_at parent i in
    if leb (get_num_objects parent) i
    then get_elem? c.objects (i - get_num_objects parent)
    else above

-- `get_ro_universes`
unfoldable pub get_ro_universes : Environment → Option Universes
get_ro_universes (root c) = c.universes
get_ro_universes (child c parent) = elim c.universes [
  | none ↦ get_ro_universes parent
  | some u ↦ some u
]
