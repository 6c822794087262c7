-- ===== src/Kernel/Environment/Accepted.antt =====
-- kernel/environment.cpp: declarations that the type checker accepts.
use lean.Base.{
  ℕ, >>=-eq-some, Bool, Bool-cases, Option, [], arith, false, inl, inr, some, subst, true, ◌≡◌,
}
use lean.Kernel.Context.{Context}
use lean.Kernel.Environment.{Environment, set_opaque, get_object_core}
use lean.Kernel.Environment.Declare.{
  read_only, add_definition, add_untyped_definition, add_theorem, add_axiom, add_var,
  add_builtin_set, is_checked, check_value, check_postulate, type_of_value, set_opaque_if,
}
use lean.Kernel.Conversion.{is_convertible}
use lean.Kernel.Conversion.Relation.{is_convertible-Converts}
use lean.Kernel.Expr.{Expr}
use lean.Kernel.Object.{ValueClasses, is_definition}
use lean.Kernel.TypeChecker.Entry.{check, check_type}
use lean.Kernel.TypeChecker.Typing.{HasType, IsSort}
use lean.Kernel.TypeChecker.Sound.{check-HasType, check_type-HasType}
use mathlib.Core.Option.{some-injective}
use lean.Util.Name.{Name}
use lean.Kernel.Environment.Changes.{Changes, declares, sets_flag, both, is_some_lem, guard_true}

module _ (vs : ValueClasses) (normalize : Environment → Expr → Context → Option Expr) where
  pub set_opaque-Changes :
      {e0 : Environment} (env : Environment) (n : Name) (f : Bool) {e : Environment}
      → Changes vs normalize e0 env
      → set_opaque env n f ≡ some e
      → Changes vs normalize e0 e
  unfolding set_opaque
  set_opaque-Changes {e0} env n f c h =
      let (o, known, g) = >>=-eq-some (get_object_core env n) _ h in
      elim (Bool-cases (is_definition o)) [
        | inl y ↦
            subst (Changes vs normalize e0) (some-injective _ _ (rw y at g))
              (sets_flag n f o c known y)
        | inr z ↦ absurd (ground (arith, g, z))
      ]

  pub set_opaque_if-Changes :
      {e0 : Environment} (opaque : Bool) (env : Environment) (n : Name) {e : Environment}
      → Changes vs normalize e0 env
      → set_opaque_if opaque n env ≡ some e
      → Changes vs normalize e0 e
  set_opaque_if-Changes true env n c h = set_opaque-Changes env n true c h
  set_opaque_if-Changes {e0} false env n c h =
      subst (Changes vs normalize e0) (some-injective _ _ h) c

  -- What `check_type(n, t, v)` has checked, where it does not throw.
  pub check_value-HasType :
      (env : Environment) (t v : Expr)
      → is_checked env ≡ true
      → check_value vs normalize env t v ≡ true
      → HasType (read_only vs normalize env) [] v t
  unfolding check_value
  check_value-HasType env t v on h =
      let (r, k) = is_some_lem _ (rw on at h) in
      let (_, _, g0) = >>=-eq-some (check_type (read_only vs normalize env) t []) _ k in
      let (v_t, e1, g1) = >>=-eq-some (check (read_only vs normalize env) v []) _ g0 in
      let (ok, e2, g2) = >>=-eq-some (is_convertible (read_only vs normalize env) v_t t []) _ g1 in
      elim (Bool-cases ok) [
        | inl y ↦
            HasType.converted (check-HasType (read_only vs normalize env) v [] v_t e1)
              (is_convertible-Converts (read_only vs normalize env) v_t t [] (rw y at e2))
        | inr z ↦ absurd (ground (arith, g2, z))
      ]

  pub check_postulate-HasType :
      (env : Environment) (t : Expr)
      → is_checked env ≡ true
      → check_postulate vs normalize env t ≡ true
      → (s : Expr) × HasType (read_only vs normalize env) [] t s × IsSort s
  unfolding check_postulate
  check_postulate-HasType env t on h =
      let (s, k) = is_some_lem _ (rw on at h) in
      let (d, i) = check_type-HasType (read_only vs normalize env) t [] s k in (s, d, i)

  pub type_of_value-HasType :
      (env : Environment) (v : Expr) {t : Expr}
      → is_checked env ≡ true
      → type_of_value vs normalize env v ≡ some t
      → HasType (read_only vs normalize env) [] v t
  unfolding type_of_value
  type_of_value-HasType env v {t} on h =
      check-HasType (read_only vs normalize env) v [] t (rw on at h)

  pub add_definition-Changes :
      (env : Environment) (n : Name) (t v : Expr) (opaque : Bool) {e0 e : Environment}
      → Changes vs normalize e0 env
      → is_checked env ≡ true
      → add_definition vs normalize env n t v opaque ≡ some e
      → Changes vs normalize e0 e
  unfolding add_definition
  add_definition-Changes env n t v opaque c on h =
      let (g, k) = guard_true _ _ h in
      let (g1, checked) = both _ _ g in
      let (g2, named) = both _ _ g1 in
      set_opaque_if-Changes opaque _ n
        (declares n _ c named (check_value-HasType env t v on checked)) k

  pub add_untyped_definition-Changes :
      (env : Environment) (n : Name) (v : Expr) (opaque : Bool) {e0 e : Environment}
      → Changes vs normalize e0 env
      → is_checked env ≡ true
      → add_untyped_definition vs normalize env n v opaque ≡ some e
      → Changes vs normalize e0 e
  unfolding add_untyped_definition
  add_untyped_definition-Changes env n v opaque c on h =
      let (g, k) = guard_true _ _ h in
      let (t, e1, k1) = >>=-eq-some (type_of_value vs normalize env v) _ k in
      set_opaque_if-Changes opaque _ n
        (declares n _ c (both _ _ g).1 (type_of_value-HasType env v on e1)) k1

  pub add_theorem-Changes :
      (env : Environment) (n : Name) (t v : Expr) {e0 e : Environment}
      → Changes vs normalize e0 env
      → is_checked env ≡ true
      → add_theorem vs normalize env n t v ≡ some e
      → Changes vs normalize e0 e
  unfolding add_theorem
  add_theorem-Changes env n t v {e0} c on h =
      let (g, k) = guard_true _ _ h in
      let (g1, checked) = both _ _ g in
      subst (Changes vs normalize e0) (some-injective _ _ k)
        (declares n _ c (both _ _ g1).1 (check_value-HasType env t v on checked))

  pub add_axiom-Changes :
      (env : Environment) (n : Name) (t : Expr) {e0 e : Environment}
      → Changes vs normalize e0 env
      → is_checked env ≡ true
      → add_axiom vs normalize env n t ≡ some e
      → Changes vs normalize e0 e
  unfolding add_axiom
  add_axiom-Changes env n t {e0} c on h =
      let (g, k) = guard_true _ _ h in
      let (g1, checked) = both _ _ g in
      subst (Changes vs normalize e0) (some-injective _ _ k)
        (declares n _ c (both _ _ g1).1 (check_postulate-HasType env t on checked))

  pub add_var-Changes :
      (env : Environment) (n : Name) (t : Expr) {e0 e : Environment}
      → Changes vs normalize e0 env
      → is_checked env ≡ true
      → add_var vs normalize env n t ≡ some e
      → Changes vs normalize e0 e
  unfolding add_var
  add_var-Changes env n t {e0} c on h =
      let (g, k) = guard_true _ _ h in
      let (g1, checked) = both _ _ g in
      subst (Changes vs normalize e0) (some-injective _ _ k)
        (declares n _ c (both _ _ g1).1 (check_postulate-HasType env t on checked))

  pub add_builtin_set-Changes :
      (env : Environment) (r : ℕ) {e0 e : Environment}
      → Changes vs normalize e0 env
      → add_builtin_set vs normalize env r ≡ some e
      → Changes vs normalize e0 e
  unfolding add_builtin_set
  add_builtin_set-Changes env r {e0} c h =
      let (g, k) = guard_true _ _ h in
      subst (Changes vs normalize e0) (some-injective _ _ k) (declares (vs.get_name r) _ c g tt)
