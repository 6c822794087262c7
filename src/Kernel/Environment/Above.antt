-- ===== src/Kernel/Environment/Above.antt =====
-- kernel/environment.cpp: the variable of `TypeU` stays above the variables that are added.
use lean.Base.{
  Bool, ◌⊎◌, Option, if◌then◌else◌, subst, ◌||◌, >>=-eq-some, Bool-cases, ap, arith, false, inl,
  inr, none, refl, some, sym, true, ◌∙◌, ◌≡◌, pos,
}
use lean.Kernel.Environment.{Universes, get_ro_universes, Environment, root, child}
use lean.Kernel.Environment.Universe.{
  is_known, add_uvar_step, constrain, add_uvar_core, store_constraint,
}
use lean.Kernel.Level.{Level, uvar, lift}
use lean.Kernel.UniverseConstraints.{Constraints, add_var, get_distance}
use lean.Kernel.UniverseConstraints.Added.{HasLoop}
use lean.Kernel.UniverseConstraints.Edges.{Mirrors}
use lean.Kernel.Universes.{u_name, add_constraints, check_consistency}
use lean.Kernel.Environment.Changes.{not_first, guard_true}
use lean.Kernel.Universes.Constrained.{Keeps, Keeps-HasLoop}
use lean.Util.Arith.{safe_add_int}
use lean.Util.Name.{Name, name_eq}
use lean.Util.Name.Equality.{name_eq_iff}
use mathlib.Core.Option.{some-injective}
use lean.Kernel.UniverseConstraints.{is_implied}
use lean.Kernel.Universes.{is_ge}
use lean.Kernel.Environment.Universe.{add_uvar_cnstr}
use lean.Kernel.UniverseConstraints.Edges.{add_var-Mirrors}
use lean.Kernel.Environment.{has_children}
use lean.Kernel.Environment.{check_name}
use lean.Kernel.Level.{plus}
use lean.Kernel.UniverseConstraints.Added.{is_implied-add_constraint}
use lean.Kernel.Universes.Constrained.{add_constraints-Keeps}
use lean.Kernel.Environment.Avoids.{
  AvoidsU, check_consistency-AvoidsU, add_constraints-frame, add_var-HasLoop, add_var-other,
}
use lean.Kernel.Environment.WellFormed.{
  IsWellFormed, is_known-append, HasLoop-eq, constrain-constraints,
}
use lean.Kernel.Environment.WellFormed.{constrain-IsWellFormed}

get_ro_universes-store :
    (env : Environment) (v : Universes) (n : Name) (l : Level)
    → get_ro_universes (store_constraint env v n l) ≡ some v
unfolding get_ro_universes
get_ro_universes-store (root c) v n l = refl
get_ro_universes-store (child c p) v n l = refl

-- What one step of `add_uvar_cnstr` does to the universes.
add_uvar_step-universes :
    (env : Environment) (n : Name) (l : Level) {u : Universes} {e : Environment}
    → get_ro_universes env ≡ some u
    → add_uvar_step env n l ≡ some e
    → (v : Universes) × (get_ro_universes e ≡ some v) × (constrain u n l ≡ some v) × AvoidsU l
unfolding add_uvar_step
add_uvar_step-universes env n l {u} g h =
    let (_, h0) = not_first (has_children env) _ h in
    let (u1, g1, h1) = >>=-eq-some (get_ro_universes env) _ h0 in
    let (_, ec, h2) = >>=-eq-some (check_consistency u1.constraints n l (pos 0)) _ h1 in
    let (v, ev, h3) = >>=-eq-some (constrain u1 n l) _ h2 in
    let (_, h4) =
      guard_true (is_known u1.uvars n || check_name env n) (some (store_constraint env v n l)) h3 in
    (
      v,
      subst (λ x. get_ro_universes x ≡ some v) (some-injective _ _ h4)
          (get_ro_universes-store env v n l),
      subst (λ x. constrain x n l ≡ some v) (some-injective _ _ (sym g1 ∙ g)) ev,
      check_consistency-AvoidsU u1.constraints n l (pos 0) ec,
    )

raises :
    (c : Constraints) (n : Name) {d : Constraints}
    → Mirrors c
    → HasLoop c u_name
    → add_constraints c u_name (lift (uvar n) 1) (pos 0) ≡ some d
    → is_implied d u_name n (pos 1) ≡ true
unfolding add_constraints safe_add_int
raises c n m l h = is_implied-add_constraint c u_name n (pos 1) m l h

-- The step for the variable of `TypeU`, over universes where it is known and reaches itself, or is
-- not known and has no distance to itself.
raised-step :
    (v : Universes) (n : Name) {w : Universes}
    → Mirrors v.constraints
    → (is_known v.uvars u_name ≡ true → HasLoop v.constraints u_name)
    → (is_known v.uvars u_name ≡ false → get_distance v.constraints u_name u_name ≡ none)
    → constrain v u_name (lift (uvar n) 1) ≡ some w
    → is_implied w.constraints u_name n (pos 1) ≡ true
unfolding add_uvar_core
raised-step v n m known free h =
    let (e, _) = constrain-constraints v u_name (lift (uvar n) 1) h in
    elim (Bool-cases (is_known v.uvars u_name)) [
      | inl y ↦ raises v.constraints n m (known y) (rw y at e)
      | inr z ↦
          raises (add_var v.constraints u_name) n (add_var-Mirrors v.constraints u_name (free z) m)
            (add_var-HasLoop v.constraints u_name) (rw z at e)
    ]

-- Universes with a new variable `n` and the constraint `n >= l`.
module _ (u : Universes) (n : Name) (l : Level) {v : Universes} (wf : IsWellFormed u)
    (fresh : is_known u.uvars n ≡ false) (differ : ¬ (u_name ≡ n)) (avoids : AvoidsU l)
    (made : constrain u n l ≡ some v) where
  made_constraints : add_constraints (add_var u.constraints n) n l (pos 0) ≡ some v.constraints
  unfolding add_uvar_core
  made_constraints = rw fresh at (constrain-constraints u n l made).0

  made_known : is_known v.uvars u_name ≡ is_known u.uvars u_name
  unfolding add_uvar_core
  made_known =
      ap (λ ms. is_known ms u_name) (sym (rw fresh at (constrain-constraints u n l made).1))
      ∙ is_known-append u.uvars n u_name differ

  made-Keeps : Keeps (add_var u.constraints n) v.constraints
  made-Keeps = add_constraints-Keeps (add_var u.constraints n) n l (pos 0) made_constraints

  made-Mirrors : Mirrors v.constraints
  made-Mirrors =
      made-Keeps.keeps_mirrors
        (add_var-Mirrors u.constraints n (wf.unknown_free n fresh n) wf.mirrored)

  made-HasLoop : is_known v.uvars u_name ≡ true → HasLoop v.constraints u_name
  made-HasLoop h = Keeps-HasLoop u_name made-Keeps (
      HasLoop-eq u.constraints (add_var u.constraints n) u_name
        (add_var-other u.constraints n u_name differ) (wf.known_loop u_name (sym made_known ∙ h)))

  made-free : is_known v.uvars u_name ≡ false → get_distance v.constraints u_name u_name ≡ none
  made-free h =
      add_constraints-frame (add_var u.constraints n) n l (pos 0) differ avoids made_constraints
      ∙ (add_var-other u.constraints n u_name differ
          ∙ wf.unknown_free u_name (sym made_known ∙ h) u_name)

-- The two ways through a test, with its answer.
if_split :
    (b : Bool) (x y : Option Environment) {e : Environment}
    → (if b then x else y) ≡ some e
    → ((b ≡ true) × (x ≡ some e)) ⊎ ((b ≡ false) × (y ≡ some e))
if_split true x y h = inl (refl, h)
if_split false x y h = inr (refl, h)

name_neq : (n : Name) → ¬ (u_name ≡ n) → name_eq n u_name ≡ false
name_neq n ne = elim (Bool-cases (name_eq n u_name)) [
  | inl e ↦ absurd (ne (sym ((name_eq_iff n u_name).0 e)))
  | inr e ↦ e
]

uvar_above :
    (c : Constraints) (n : Name) {b : Bool}
    → ¬ (u_name ≡ n)
    → is_ge c (uvar u_name) (uvar n) (pos 1) ≡ some b
    → is_implied c u_name n (pos 1) ≡ b
unfolding is_ge
uvar_above c n ne h = elim (Bool-cases (name_eq u_name n)) [
  | inl e ↦ absurd (ne ((name_eq_iff u_name n).0 e))
  | inr e ↦ some-injective _ _ (rw e at h)
]

-- After `add_uvar_cnstr(n, l)` for a new variable `n` other than that of `TypeU`, where it does not
-- throw, the constraints imply that the variable of `TypeU` is at least `n + 1`, and the universes are
-- well formed, where they were so before: the edge lists mirror the distances, each variable has a
-- distance to itself that is not negative, and there is no distance from what is no variable.
pub add_uvar_cnstr-is_implied :
    (env : Environment) (n : Name) (l : Level) {u : Universes} {e : Environment}
    → get_ro_universes env ≡ some u
    → IsWellFormed u
    → is_known u.uvars n ≡ false
    → ¬ (u_name ≡ n)
    → add_uvar_cnstr env n l ≡ some e
    → (v : Universes) × (get_ro_universes e ≡ some v)
      × IsWellFormed v
      × (is_implied v.constraints u_name n (pos 1) ≡ true)
unfolding add_uvar_cnstr plus
add_uvar_cnstr-is_implied env n l {u} {e} g wf fresh differ h =
    let (u1, g1, h1) = >>=-eq-some (get_ro_universes env) _ h in
    let (e1, s1, h2) = >>=-eq-some (add_uvar_step env n l) _ h1 in
    let (v1, g2, h3) = >>=-eq-some (get_ro_universes e1) _ h2 in
    let (v, gv, made, avoids) = add_uvar_step-universes env n l g s1 in
    let same_u = some-injective _ _ (sym g1 ∙ g) in
    let same_v = some-injective _ _ (sym g2 ∙ gv) in
    elim (if_split (is_known u1.uvars n || name_eq n u_name) (some e1) _ h3) [
      | inl (k, _) ↦ absurd (
          ground (
            arith,
            subst (λ x. is_known x.uvars n || name_eq n u_name ≡ true) same_u k,
            fresh,
            name_neq n differ,
          ))
      | inr (_, h4) ↦
          let (above, ea, h5) =
            >>=-eq-some (is_ge v1.constraints (uvar u_name) (uvar n) (pos 1)) _ h4 in
          elim (if_split above (some e1) _ h5) [
            | inl (k, q) ↦ (
              v1,
              subst (λ x. get_ro_universes x ≡ some v1) (some-injective _ _ q) g2,
              subst IsWellFormed (sym same_v) (constrain-IsWellFormed u n l wf made),
              uvar_above v1.constraints n differ ea ∙ k,
            )
            | inr (_, h6) ↦
                let (w, gw, raised, _) =
                  add_uvar_step-universes e1 u_name (lift (uvar n) 1) gv h6 in
                (
                  w,
                  gw,
                  constrain-IsWellFormed v u_name (lift (uvar n) 1)
                      (constrain-IsWellFormed u n l wf made) raised,
                  raised-step v n (made-Mirrors u n l wf fresh differ avoids made)
                      (made-HasLoop u n l wf fresh differ avoids made)
                      (made-free u n l wf fresh differ avoids made) raised,
                )
          ]
    ]
