-- ===== src/Kernel/Environment/WellFormed.antt =====
-- kernel/environment.cpp: the invariant of the universes.
use lean.Base.{
  ℤ, List, [], if◌then◌else◌, subst, ◌++◌, ◌||◌, ◌∷◌, >>=-eq-some, Bool-cases, ap, arith, false,
  inl, inr, refl, some, sym, true, ◌∙◌, ◌≡◌, pos,
}
use lean.Kernel.Environment.{Universes, init_uvars}
use lean.Kernel.Environment.Universe.{is_known, constrain, add_uvar_core}
use lean.Kernel.Level.{Level, uvar, lift, bot_name, Levels, maximum, nil, cons}
use lean.Kernel.UniverseConstraints.{Constraints, add_var, get_distance, at_least, no_constraints}
use lean.Kernel.UniverseConstraints.Added.{HasLoop}
use lean.Kernel.UniverseConstraints.Edges.{Mirrors, no_constraints-Mirrors, add_var-Mirrors}
use lean.Kernel.Universes.{add_constraints, add_all_constraints}
use lean.Kernel.Universes.Constrained.{Keeps-HasLoop, add_constraints-Keeps}
use lean.Util.Arith.{safe_add_int}
use lean.Util.Name.{Name, name_eq}
use lean.Util.Name.Equality.{name_eq_iff}
use mathlib.Core.Option.{some-injective}
use lean.Kernel.Environment.Avoids.{add_var-HasLoop, add_var-other}
use lean.Kernel.UniverseConstraints.Sources.{IsSourceless, add_constraint-IsSourceless}

pub is_known-append :
    (ms : List Name) (n m : Name) → ¬ (m ≡ n) → is_known (ms ++ n ∷ []) m ≡ is_known ms m
is_known-append [] n m ne = elim (Bool-cases (name_eq n m)) [
  | inl e ↦ absurd (ne (sym ((name_eq_iff n m).0 e)))
  | inr e ↦ rw e refl
]
is_known-append (x ∷ xs) n m ne = ap (λ b. name_eq x m || b) (is_known-append xs n m ne)

pub HasLoop-eq :
    (c d : Constraints) (n : Name)
    → get_distance d n n ≡ get_distance c n n
    → HasLoop c n
    → HasLoop d n
HasLoop-eq c d n e h = subst (λ o. at_least o (pos 0) ≡ true) (sym e) h

-- The edge lists mirror the distances, each variable reaches itself, and nothing else reaches
-- anything.
pub record IsWellFormed (u : Universes) : Type 0 where
  pub mirrored : Mirrors u.constraints
  pub known_loop : (n : Name) → is_known u.uvars n ≡ true → HasLoop u.constraints n
  pub unknown_free : (n : Name) → is_known u.uvars n ≡ false → IsSourceless u.constraints n

-- The constraints that `constrain` makes.
pub constrain-constraints :
    (u : Universes) (n : Name) (l : Level) {v : Universes}
    → constrain u n l ≡ some v
    → (add_constraints (if is_known u.uvars n then u else add_uvar_core u n).constraints n l (pos 0)
        ≡ some v.constraints)
      × ((if is_known u.uvars n then u else add_uvar_core u n).uvars ≡ v.uvars)
unfolding constrain
constrain-constraints u n l h =
    let (c, e, g) =
      >>=-eq-some
        (add_constraints (if is_known u.uvars n then u else add_uvar_core u n).constraints n l
          (pos 0))
        _ h in
    let q = some-injective _ _ g in (e ∙ ap (λ x. some x.constraints) q, ap (λ x. x.uvars) q)

is_known-last : (ms : List Name) (n : Name) → is_known (ms ++ n ∷ []) n ≡ true
is_known-last [] n = ground (arith, (name_eq_iff n n).1 refl)
is_known-last (x ∷ xs) n = ground (arith, is_known-last xs n)

add_var-source :
    (c : Constraints) (n m : Name) → ¬ (m ≡ n) → IsSourceless c m → IsSourceless (add_var c n) m
unfolding add_var
add_var-source c n m ne h b = elim (Bool-cases (name_eq n m)) [
  | inl e ↦ absurd (ne (sym ((name_eq_iff n m).0 e)))
  | inr e ↦ rw e (h b)
]

names_apart : (m n : Name) → name_eq n m ≡ false → ¬ (m ≡ n)
names_apart m n h e = absurd (ground (arith, h, (name_eq_iff n m).1 (sym e)))

-- The universes of a new environment have the bottom variable alone.
pub init_uvars-IsWellFormed : IsWellFormed init_uvars
unfolding init_uvars
init_uvars-IsWellFormed = record {
  mirrored = add_var-Mirrors no_constraints bot_name refl no_constraints-Mirrors;
  known_loop = λ n h.
      subst (HasLoop (add_var no_constraints bot_name))
        ((name_eq_iff bot_name n).0 (ground (arith, h))) (add_var-HasLoop no_constraints bot_name);
  unknown_free = λ n h.
      add_var-source no_constraints bot_name n
        (λ e. absurd (ground (arith, h, (name_eq_iff bot_name n).1 (sym e)))) (λ b. refl);
}

pub add_uvar_core-IsWellFormed :
    (u : Universes) (n : Name)
    → IsWellFormed u
    → is_known u.uvars n ≡ false
    → IsWellFormed (add_uvar_core u n)
unfolding add_uvar_core
add_uvar_core-IsWellFormed u n wf fresh = record {
  mirrored = add_var-Mirrors u.constraints n (wf.unknown_free n fresh n) wf.mirrored;
  known_loop = λ m h. elim (Bool-cases (name_eq n m)) [
    | inl e ↦
        subst (HasLoop (add_var u.constraints n)) ((name_eq_iff n m).0 e)
          (add_var-HasLoop u.constraints n)
    | inr e ↦
        HasLoop-eq u.constraints (add_var u.constraints n) m
          (add_var-other u.constraints n m (names_apart m n e))
          (wf.known_loop m (sym (is_known-append u.uvars n m (names_apart m n e)) ∙ h))
  ];
  unknown_free = λ m h. elim (Bool-cases (name_eq n m)) [
    | inl e ↦ absurd (
        ground (
          arith,
          h,
          subst (λ x. is_known (u.uvars ++ n ∷ []) x ≡ true) ((name_eq_iff n m).0 e)
              (is_known-last u.uvars n),
        ))
    | inr e ↦
        add_var-source u.constraints n m (names_apart m n e)
          (wf.unknown_free m (sym (is_known-append u.uvars n m (names_apart m n e)) ∙ h))
  ];
}

mutual
  unfolding add_constraints

  add_constraints-IsSourceless :
      (c : Constraints) (n : Name) (l : Level) (k : ℤ) (a : Name) {d : Constraints}
      → Mirrors c
      → ¬ (a ≡ n)
      → IsSourceless c a
      → add_constraints c n l k ≡ some d
      → IsSourceless d a
  add_constraints-IsSourceless c n (uvar m) k a mi ne f h =
      add_constraint-IsSourceless c n m k a mi ne f h
  add_constraints-IsSourceless c n (lift l j) k a mi ne f h =
      let (s, _, g) = >>=-eq-some (safe_add_int k (pos j)) (λ s. add_constraints c n l s) h in
      add_constraints-IsSourceless c n l s a mi ne f g
  add_constraints-IsSourceless c n (maximum ls) k a mi ne f h =
      add_all-IsSourceless c n ls k a mi ne f h

  add_all-IsSourceless :
      (c : Constraints) (n : Name) (ls : Levels) (k : ℤ) (a : Name) {d : Constraints}
      → Mirrors c
      → ¬ (a ≡ n)
      → IsSourceless c a
      → add_all_constraints c n ls k ≡ some d
      → IsSourceless d a
  add_all-IsSourceless c n nil k a mi ne f h =
      subst (λ x. IsSourceless x a) (some-injective _ _ h) f
  add_all-IsSourceless c n (cons l ls) k a mi ne f h =
      let (m, e, g) = >>=-eq-some (add_constraints c n l k) (λ m. add_all_constraints m n ls k) h in
      add_all-IsSourceless m n ls k a ((add_constraints-Keeps c n l k e).keeps_mirrors mi) ne
        (add_constraints-IsSourceless c n l k a mi ne f e) g

-- Universes where the variable `n` is known, with more constraints on it.
constrained-IsWellFormed :
    (b v : Universes) (n : Name) (l : Level)
    → IsWellFormed b
    → is_known b.uvars n ≡ true
    → add_constraints b.constraints n l (pos 0) ≡ some v.constraints
    → b.uvars ≡ v.uvars
    → IsWellFormed v
constrained-IsWellFormed b v n l wf known e q =
    let keep = add_constraints-Keeps b.constraints n l (pos 0) e in
    record {
      mirrored = keep.keeps_mirrors wf.mirrored;
      known_loop = λ m h. Keeps-HasLoop m keep (wf.known_loop m (ap (λ ms. is_known ms m) q ∙ h));
      unknown_free = λ m h.
          let h0 = ap (λ ms. is_known ms m) q ∙ h in
          add_constraints-IsSourceless b.constraints n l (pos 0) m wf.mirrored
            (λ p. absurd (ground (arith, h0, subst (λ x. is_known b.uvars x ≡ true) (sym p) known)))
            (wf.unknown_free m h0) e;
    }

-- `add_uvar_cnstr` keeps the universes well formed in each step, where it does not throw.
pub constrain-IsWellFormed :
    (u : Universes) (n : Name) (l : Level) {v : Universes}
    → IsWellFormed u
    → constrain u n l ≡ some v
    → IsWellFormed v
unfolding add_uvar_core
constrain-IsWellFormed u n l {v} wf h =
    let (e, q) = constrain-constraints u n l h in
    elim (Bool-cases (is_known u.uvars n)) [
      | inl y ↦ constrained-IsWellFormed u v n l wf y (rw y at e) (rw y at q)
      | inr z ↦
          constrained-IsWellFormed (add_uvar_core u n) v n l (add_uvar_core-IsWellFormed u n wf z)
            (is_known-last u.uvars n) (rw z at e) (rw z at q)
    ]
