-- ===== src/Kernel/Environment/Avoids.antt =====
-- kernel/environment.cpp: levels without the variable of `TypeU`, which `check_consistency` lets pass.
use lean.Base.{
  >>=-eq-some, Bool-cases, ap, arith, false, inl, inr, refl, some, sym, ℤ, ◌∙◌, ◌≡◌, pos,
}
use lean.Kernel.Level.{Level, Levels, uvar, lift, maximum, nil, cons}
use lean.Kernel.UniverseConstraints.{Constraints, add_var, get_distance}
use lean.Kernel.UniverseConstraints.Added.{HasLoop}
use lean.Kernel.UniverseConstraints.Unclosed.{add_constraint-frame}
use lean.Kernel.Universes.{
  u_name, add_constraints, add_all_constraints, check_consistency, check_all_consistent,
}
use lean.Util.Arith.{safe_add_int}
use lean.Util.Name.{Name, name_eq}
use lean.Util.Name.Equality.{name_eq_iff}
use mathlib.Core.Option.{some-injective}

-- The variable of `TypeU` does not stand in the level.
abbrev mutual
  pub AvoidsU : Level → Type 0
  AvoidsU (uvar m) = ¬ (u_name ≡ m)
  AvoidsU (lift l j) = AvoidsU l
  AvoidsU (maximum ls) = AllAvoidU ls

  pub AllAvoidU : Levels → Type 0
  AllAvoidU nil = Unit
  AllAvoidU (cons l ls) = AvoidsU l × AllAvoidU ls

names_differ : (m n : Name) → name_eq m n ≡ false → ¬ (n ≡ m)
names_differ m n h e = absurd (ground (arith, h, (name_eq_iff m n).1 (sym e)))

mutual
  unfolding check_consistency

  pub check_consistency-AvoidsU :
      (c : Constraints) (n : Name) (l : Level) (k : ℤ)
      → check_consistency c n l k ≡ some tt
      → AvoidsU l
  check_consistency-AvoidsU c n (uvar m) k h = elim (Bool-cases (name_eq m u_name)) [
    | inl e ↦ absurd (ground (arith, h, e))
    | inr e ↦ names_differ m u_name e
  ]
  check_consistency-AvoidsU c n (lift l j) k h =
      let (s, _, g) = >>=-eq-some (safe_add_int k (pos j)) (λ s. check_consistency c n l s) h in
      check_consistency-AvoidsU c n l s g
  check_consistency-AvoidsU c n (maximum ls) k h = check_all-AvoidsU c n ls k h

  check_all-AvoidsU :
      (c : Constraints) (n : Name) (ls : Levels) (k : ℤ)
      → check_all_consistent c n ls k ≡ some tt
      → AllAvoidU ls
  check_all-AvoidsU c n nil k h = tt
  check_all-AvoidsU c n (cons l ls) k h =
      let (_, e, g) =
        >>=-eq-some (check_consistency c n l k) (λ u. check_all_consistent c n ls k) h in
      (check_consistency-AvoidsU c n l k e, check_all-AvoidsU c n ls k g)

mutual
  unfolding add_constraints

  -- No distance of the variable to itself is made.
  pub add_constraints-frame :
      (c : Constraints) (n : Name) (l : Level) (k : ℤ) {d : Constraints}
      → ¬ (u_name ≡ n)
      → AvoidsU l
      → add_constraints c n l k ≡ some d
      → get_distance d u_name u_name ≡ get_distance c u_name u_name
  add_constraints-frame c n (uvar m) k ne a h = add_constraint-frame c n m k u_name u_name ne a h
  add_constraints-frame c n (lift l j) k ne a h =
      let (s, _, g) = >>=-eq-some (safe_add_int k (pos j)) (λ s. add_constraints c n l s) h in
      add_constraints-frame c n l s ne a g
  add_constraints-frame c n (maximum ls) k ne a h = add_all-frame c n ls k ne a h

  add_all-frame :
      (c : Constraints) (n : Name) (ls : Levels) (k : ℤ) {d : Constraints}
      → ¬ (u_name ≡ n)
      → AllAvoidU ls
      → add_all_constraints c n ls k ≡ some d
      → get_distance d u_name u_name ≡ get_distance c u_name u_name
  add_all-frame c n nil k ne a h =
      ap (λ x. get_distance x u_name u_name) (sym (some-injective _ _ h))
  add_all-frame c n (cons l ls) k ne (a, b) h =
      let (m, e, g) = >>=-eq-some (add_constraints c n l k) (λ m. add_all_constraints m n ls k) h in
      add_all-frame m n ls k ne b g ∙ add_constraints-frame c n l k ne a e

pub add_var-HasLoop : (c : Constraints) (n : Name) → HasLoop (add_var c n) n
unfolding add_var
add_var-HasLoop c n = ground (arith, (name_eq_iff n n).1 refl)

pub add_var-other :
    (c : Constraints) (n m : Name) → ¬ (m ≡ n) → get_distance (add_var c n) m m ≡ get_distance c m m
unfolding add_var
add_var-other c n m ne = elim (Bool-cases (name_eq n m)) [
  | inl e ↦ absurd (ne (sym ((name_eq_iff n m).0 e)))
  | inr e ↦ rw e refl
]
