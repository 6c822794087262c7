-- ===== src/Kernel/Universes.antt =====
-- kernel/environment.cpp: the universe levels of an environment against its universe constraints.
-- `none` is an exception.
pub mod Implied
pub mod Bounds
pub mod Constrained
use lean.Base.{
  [], ◌∷◌, Bool, Option, false, if◌then◌else◌, ltb_ℤ, none, not, some, true, ℤ, ◌>>=◌, pos,
}
use lean.Kernel.Level.{Level, Levels, uvar, lift, maximum, nil, cons, level_eq}
use lean.Kernel.UniverseConstraints.{
  Constraints, is_implied, is_consistent, overflows, add_constraint,
}
use lean.Util.Arith.{safe_add_int, safe_sub_int}
use lean.Util.Name.{Name, name_eq, anonymous, str}

-- One step of `std::any_of` and of `std::all_of`: the rest is not run where the first test decides.
abbrev pub or_else : Option Bool → Option Bool → Option Bool
or_else none rest = none
or_else (some true) rest = some true
or_else (some false) rest = rest

abbrev pub and_then : Option Bool → Option Bool → Option Bool
and_then none rest = none
and_then (some true) rest = rest
and_then (some false) rest = some false

abbrev pub at_most_zero : ℤ → Bool
at_most_zero k = not (ltb_ℤ (pos 0) k)

-- `is_ge(l1, l2, k)` where `l2` is the variable `n2`.
unfoldable mutual
  unfolding is_implied

  pub uvar_ge : Constraints → Level → Name → ℤ → Option Bool
  uvar_ge c (uvar n1) n2 k =
      if name_eq n1 n2 then some (at_most_zero k) else some (is_implied c n1 n2 k)
  uvar_ge c (lift l j) n2 k = do d ← safe_sub_int k (pos j); uvar_ge c l n2 d
  uvar_ge c (maximum ls) n2 k = any_ge c ls n2 k

  pub any_ge : Constraints → Levels → Name → ℤ → Option Bool
  any_ge c nil n2 k = some false
  any_ge c (cons l ls) n2 k = or_else (uvar_ge c l n2 k) (any_ge c ls n2 k)

-- `is_ge(l1, l2, k)`
unfoldable mutual
  unfolding uvar_ge level_eq

  pub is_ge : Constraints → Level → Level → ℤ → Option Bool
  is_ge c l1 (uvar n2) k = uvar_ge c l1 n2 k
  is_ge c l1 (lift l j) k =
      if level_eq l1 (lift l j)
      then some (at_most_zero k)
      else do s ← safe_add_int k (pos j); is_ge c l1 l s
  is_ge c l1 (maximum ls) k =
      let each = all_ge c l1 ls k in
      if level_eq l1 (maximum ls) then some (at_most_zero k) else each

  pub all_ge : Constraints → Level → Levels → ℤ → Option Bool
  all_ge c l1 nil k = some true
  all_ge c l1 (cons l ls) k = and_then (is_ge c l1 l k) (all_ge c l1 ls k)

-- `add_constraints`
unfoldable mutual
  unfolding add_constraint

  pub add_constraints : Constraints → Name → Level → ℤ → Option Constraints
  add_constraints c n (uvar m) k = add_constraint c n m k
  add_constraints c n (lift l j) k = do s ← safe_add_int k (pos j); add_constraints c n l s
  add_constraints c n (maximum ls) k = add_all_constraints c n ls k

  pub add_all_constraints : Constraints → Name → Levels → ℤ → Option Constraints
  add_all_constraints c n nil k = some c
  add_all_constraints c n (cons l ls) k = do
    d ← add_constraints c n l k
    add_all_constraints d n ls k

-- The variable of `TypeU`.
abbrev pub u_name : Name
u_name = str anonymous (b'U' ∷ [])

-- `check_consistency`, which answers nothing where it does not throw.
unfoldable mutual
  unfolding is_consistent overflows

  pub check_consistency : Constraints → Name → Level → ℤ → Option {0} (Unit {0})
  check_consistency c n (uvar m) k = if name_eq m u_name then none else do
    consistent ← is_consistent c n m k
    if consistent then (if overflows c n m k then none else some tt) else none
  check_consistency c n (lift l j) k = do s ← safe_add_int k (pos j); check_consistency c n l s
  check_consistency c n (maximum ls) k = check_all_consistent c n ls k

  pub check_all_consistent : Constraints → Name → Levels → ℤ → Option {0} (Unit {0})
  check_all_consistent c n nil k = some tt
  check_all_consistent c n (cons l ls) k = do
    _ ← check_consistency c n l k
    check_all_consistent c n ls k
