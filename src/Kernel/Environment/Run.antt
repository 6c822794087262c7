-- ===== src/Kernel/Environment/Run.antt =====
-- kernel/environment.cpp: every sequence of calls makes such changes.
use lean.Base.{
  Option-cases, List, ◌∷◌, ◌||◌, ℕ, ◌∙◌, >>=-eq-some, Bool, Option, [], false, inl, inr, refl, some,
  subst, true, ◌≡◌, pos,
}
use lean.Kernel.Context.{Context}
use lean.Kernel.Environment.{
  Environment, Universes, mk_child, check_name, register_named_object, add_neutral_object,
  set_object_flag, get_ro_universes, constant, absent, has_children, name_eq,
}
use lean.Kernel.Environment.Declare.{add_definition, add_builtin, is_checked}
use lean.Kernel.Environment.Universe.{
  add_uvar_cnstr, add_uvar_step, store_constraint, constrain, is_known,
}
use lean.Kernel.Expr.{Expr}
use lean.Kernel.Level.{Level, uvar, plus}
use lean.Kernel.Object.{Object, Neutral, ValueClasses, builtin}
use lean.Kernel.Universes.{check_consistency, u_name, is_ge}
use mathlib.Core.Option.{some-injective}
use lean.Util.Name.{Name}
use lean.Kernel.Environment.Changes.{
  Changes, unchanged, declares, sets_flag, marks, constrains, branches, both, if_cases, not_first,
  guard_true, constrain-Extends,
}
use lean.Kernel.Environment.Accepted.{
  set_opaque-Changes, add_definition-Changes, add_untyped_definition-Changes, add_theorem-Changes,
  add_axiom-Changes, add_var-Changes, add_builtin_set-Changes,
}
use lean.Kernel.Environment.Commands.{
  Command, definition_command, untyped_definition_command, theorem_command, axiom_command,
  var_command, builtin_command, builtin_set_command, opaque_command, universe_command,
  child_command, run_command, run,
}

module _ (vs : ValueClasses) (normalize : Environment → Expr → Context → Option Expr) where
  type_check_register :
      (env : Environment) (n : Name) (o : Object)
      → is_checked (register_named_object env n o) ≡ is_checked env
  unfolding register_named_object
  type_check_register (Environment.root c) n o = refl
  type_check_register (Environment.child c p) n o = refl

  type_check_neutral :
      (env : Environment) (o : Neutral) → is_checked (add_neutral_object env o) ≡ is_checked env
  unfolding add_neutral_object
  type_check_neutral (Environment.root c) o = refl
  type_check_neutral (Environment.child c p) o = refl

  pub add_builtin-Changes :
      (env : Environment) (v : ℕ) {e0 e : Environment}
      → Changes vs normalize e0 env
      → is_checked env ≡ true
      → add_builtin vs normalize env v ≡ some e
      → Changes vs normalize e0 e
  unfolding add_builtin
  add_builtin-Changes env v {e0} c on h =
      let (g, k) = guard_true _ _ h in
      let named = declares (vs.get_name v) (builtin v false) c (both _ _ g).0 tt in
      let marked =
        add_neutral_object (register_named_object env (vs.get_name v) (builtin v false))
          Neutral.begin_import_mark in
      elim (if_cases _ _ _ k) [
        | inl k1 ↦ subst (Changes vs normalize e0) (some-injective _ _ k1) named
        | inr k1 ↦
            let (d, e1, k2) =
              >>=-eq-some
                (add_definition vs normalize marked (vs.get_unicode_name v) (vs.get_value_type v)
                  (constant (vs.get_name v) absent) false)
                (λ e. some (add_neutral_object e Neutral.end_import_mark)) k1 in
            subst (Changes vs normalize e0) (some-injective _ _ k2) (
              marks Neutral.end_import_mark refl (
                add_definition-Changes vs normalize marked (vs.get_unicode_name v)
                  (vs.get_value_type v) (constant (vs.get_name v) absent) false
                  (marks Neutral.begin_import_mark refl named)
                  (type_check_neutral (register_named_object env (vs.get_name v) (builtin v false))
                      Neutral.begin_import_mark
                    ∙ (type_check_register env (vs.get_name v) (builtin v false) ∙ on))
                  e1))
      ]

  add_uvar_step-Changes :
      (env : Environment) (n : Name) (l : Level) {e0 e : Environment}
      → Changes vs normalize e0 env
      → add_uvar_step env n l ≡ some e
      → Changes vs normalize e0 e
  unfolding add_uvar_step
  add_uvar_step-Changes env n l {e0} c h =
      let (alone, h0) = not_first (has_children env) _ h in
      let (u, e1, h1) = >>=-eq-some (get_ro_universes env) _ h0 in
      let (ok, e2, h2) = >>=-eq-some (check_consistency u.constraints n l (pos 0)) _ h1 in
      let (v, e3, h3) = >>=-eq-some (constrain u n l) _ h2 in
      let (named, h4) =
        guard_true (is_known u.uvars n || check_name env n) (some (store_constraint env v n l))
          h3 in
      subst (Changes vs normalize e0) (some-injective _ _ h4)
        (constrains v n l c (alone, u, e1, e2, constrain-Extends u n l e3, named))

  pub add_uvar_cnstr-Changes :
      (env : Environment) (n : Name) (l : Level) {e0 e : Environment}
      → Changes vs normalize e0 env
      → add_uvar_cnstr env n l ≡ some e
      → Changes vs normalize e0 e
  unfolding add_uvar_cnstr
  add_uvar_cnstr-Changes env n l {e0} c h =
      let (u, _, h1) = >>=-eq-some (get_ro_universes env) _ h in
      let (e, e2, h2) = >>=-eq-some (add_uvar_step env n l) _ h1 in
      let (v, _, h3) = >>=-eq-some (get_ro_universes e) _ h2 in
      let c1 = add_uvar_step-Changes env n l c e2 in
      elim (if_cases (is_known u.uvars n || name_eq n u_name) (some e) _ h3) [
        | inl k ↦ subst (Changes vs normalize e0) (some-injective _ _ k) c1
        | inr h4 ↦
            let (above, _, h5) =
              >>=-eq-some (is_ge v.constraints (uvar u_name) (uvar n) (pos 1)) _ h4 in
            elim (if_cases above (some e) _ h5) [
              | inl k ↦ subst (Changes vs normalize e0) (some-injective _ _ k) c1
              | inr h6 ↦
                  let (next, _, h7) =
                    >>=-eq-some (plus (uvar n) 1) (λ next. add_uvar_step e u_name next) h6 in
                  add_uvar_step-Changes e u_name next c1 h7
            ]
      ]

  type_check_store :
      (env : Environment) (u : Universes) (n : Name) (l : Level)
      → is_checked (store_constraint env u n l) ≡ is_checked env
  type_check_store (Environment.root c) u n l = refl
  type_check_store (Environment.child c p) u n l = refl

  type_check_flag :
      (env : Environment) (n : Name) (f : Bool)
      → is_checked (set_object_flag env n f) ≡ is_checked env
  unfolding set_object_flag
  type_check_flag (Environment.root c) n f = elim (Option-cases (c.object_dictionary n)) [
    | inl h ↦ rw h refl
    | inr (i, h) ↦ rw h refl
  ]
  type_check_flag (Environment.child c p) n f = elim (Option-cases (c.object_dictionary n)) [
    | inl h ↦ rw h refl
    | inr (i, h) ↦ rw h refl
  ]

  pub Changes-is_checked :
      {e f : Environment} → Changes vs normalize e f → is_checked e ≡ true → is_checked f ≡ true
  unfolding mk_child
  Changes-is_checked unchanged on = on
  Changes-is_checked (declares {f = f} n o c fresh j) on =
      type_check_register f n o ∙ Changes-is_checked c on
  Changes-is_checked (sets_flag {f = f} n b o c known d) on =
      type_check_neutral (set_object_flag f n b) (Neutral.set_opaque_command n b)
      ∙ (type_check_flag f n b ∙ Changes-is_checked c on)
  Changes-is_checked (marks {f = f} m i c) on = type_check_neutral f m ∙ Changes-is_checked c on
  Changes-is_checked (constrains {f = f} u n l c a) on =
      type_check_store f u n l ∙ Changes-is_checked c on
  Changes-is_checked (branches c) on = refl

  pub run_command-Changes :
      (c : Command) (env : Environment) {e0 e : Environment}
      → Changes vs normalize e0 env
      → is_checked env ≡ true
      → run_command vs normalize c env ≡ some e
      → Changes vs normalize e0 e
  unfolding run
  run_command-Changes (definition_command n t v o) env c on h =
      add_definition-Changes vs normalize env n t v o c on h
  run_command-Changes (untyped_definition_command n v o) env c on h =
      add_untyped_definition-Changes vs normalize env n v o c on h
  run_command-Changes (theorem_command n t v) env c on h =
      add_theorem-Changes vs normalize env n t v c on h
  run_command-Changes (axiom_command n t) env c on h = add_axiom-Changes vs normalize env n t c on h
  run_command-Changes (var_command n t) env c on h = add_var-Changes vs normalize env n t c on h
  run_command-Changes (builtin_command v) env c on h = add_builtin-Changes env v c on h
  run_command-Changes (builtin_set_command r) env c on h =
      add_builtin_set-Changes vs normalize env r c h
  run_command-Changes (opaque_command n f) env c on h = set_opaque-Changes vs normalize env n f c h
  run_command-Changes (universe_command n l) env c on h = add_uvar_cnstr-Changes env n l c h
  run_command-Changes child_command env {e0} c on h =
      subst (Changes vs normalize e0) (some-injective _ _ h) (branches c)

  run_from :
      (cs : List Command) (env : Environment) {e0 e : Environment}
      → Changes vs normalize e0 env
      → is_checked e0 ≡ true
      → run vs normalize cs env ≡ some e
      → Changes vs normalize e0 e
  unfolding run
  run_from [] env {e0} c on h = subst (Changes vs normalize e0) (some-injective _ _ h) c
  run_from (x ∷ xs) env c on h =
      let (d, e1, h1) = >>=-eq-some (run_command vs normalize x env) _ h in
      run_from xs d (run_command-Changes x env c (Changes-is_checked c on) e1) on h1

  pub run-Changes :
      (cs : List Command) (env : Environment) {e : Environment}
      → is_checked env ≡ true
      → run vs normalize cs env ≡ some e
      → Changes vs normalize env e
  run-Changes cs env on h = run_from cs env unchanged on h
