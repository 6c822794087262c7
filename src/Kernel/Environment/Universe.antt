-- ===== src/Kernel/Environment/Universe.antt =====
-- kernel/environment.cpp: universe variables. `get_rw_universes` copies the universes of the parent
-- into the cell; the copies that ancestors make on the way are what they read before.
use lean.Base.{Bool, List, Option, [], false, if◌then◌else◌, none, some, ◌++◌, ◌>>=◌, ◌||◌, ◌∷◌}
use lean.Kernel.Environment.{
  Environment, Cell, Universes, cell_of, with_cell, has_children, check_name, push_object,
  get_ro_universes,
}
use lean.Kernel.Level.{Level, uvar, plus}
use lean.Kernel.Object.{uvar_constraint}
use lean.Kernel.UniverseConstraints.{Constraints, add_var}
use lean.Kernel.Universes.{u_name, is_ge, add_constraints, check_consistency}
use lean.Util.Name.{Name, name_eq}
use lean.Base.{pos}

-- `std::find_if` on the variables.
abbrev pub is_known : List Name → Name → Bool
is_known [] n = false
is_known (m ∷ ms) n = name_eq m n || is_known ms n

-- `get_uvar`
unfoldable pub get_uvar : Environment → Name → Option Level
unfolding get_ro_universes
get_uvar env n = do u ← get_ro_universes env; if is_known u.uvars n then some (uvar n) else none

-- The variable `n`, where it is new.
unfoldable pub add_uvar_core : Universes → Name → Universes
unfolding add_var
add_uvar_core u n = record { uvars = u.uvars ++ n ∷ []; constraints = add_var u.constraints n }

abbrev pub with_constraints : Universes → Constraints → Universes
with_constraints u c = record { uvars = u.uvars; constraints = c }

-- The universes with `n`, if it is new, and with the constraint `n >= l`.
unfoldable pub constrain : Universes → Name → Level → Option Universes
unfolding add_uvar_core add_constraints
constrain u n l = do
  let known = if is_known u.uvars n then u else add_uvar_core u n
  c ← add_constraints known.constraints n l (pos 0)
  some (with_constraints known c)

abbrev pub with_universes : Universes → Cell → Cell
with_universes u c = record {
  num_children = c.num_children;
  universes = some u;
  objects = c.objects;
  object_dictionary = c.object_dictionary;
  type_check = c.type_check;
}

-- The universes in the environment, and the constraint as an object.
abbrev pub store_constraint : Environment → Universes → Name → Level → Environment
store_constraint env u n l =
    with_cell (push_object (uvar_constraint n l) (with_universes u (cell_of env))) env

-- `add_uvar_cnstr` but for its last test.
unfoldable pub add_uvar_step : Environment → Name → Level → Option Environment
unfolding get_ro_universes check_name check_consistency constrain
add_uvar_step env n l = if has_children env then none else do
  u ← get_ro_universes env
  _ ← check_consistency u.constraints n l (pos 0)
  v ← constrain u n l
  if is_known u.uvars n || check_name env n then some (store_constraint env v n l) else none

-- `add_uvar_cnstr`: the variable of `TypeU` is put above each new one.
unfoldable pub add_uvar_cnstr : Environment → Name → Level → Option Environment
unfolding get_ro_universes is_ge add_uvar_step plus
add_uvar_cnstr env n l = do
  u ← get_ro_universes env
  e ← add_uvar_step env n l
  v ← get_ro_universes e
  if is_known u.uvars n || name_eq n u_name then some e else do
    above ← is_ge v.constraints (uvar u_name) (uvar n) (pos 1)
    if above then some e else do next ← plus (uvar n) 1; add_uvar_step e u_name next
