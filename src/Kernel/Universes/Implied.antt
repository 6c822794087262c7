-- ===== src/Kernel/Universes/Implied.antt =====
-- kernel/environment.cpp: what `is_ge` concludes about levels.
use lean.Base.{
  leb, ◌-ℤ◌, +ℤ_parts, -ℤ_parts, >>=-eq-some, Bool, Bool-cases, Option, ap, arith, false, inl, inr,
  int_laws, max, none, refl, some, subst, true, ℕ, ℤ, ◌+ℤ◌, ◌+◌, ◌≡◌, ◌≤ℤ◌, ◌≤◌, ◌⊎◌, pos,
}
use lean.Kernel.Level.{Level, Levels, uvar, lift, maximum, nil, cons, level_eq}
use lean.Kernel.Level.Equality.{level_eq_iff}
use lean.Kernel.Level.Plus.{IsNonempty}
use lean.Kernel.Level.Value.{value, values}
use lean.Kernel.UniverseConstraints.{Constraints}
use lean.Kernel.UniverseConstraints.Solutions.{Satisfies, is_implied_lem}
use lean.Kernel.Universes.{or_else, and_then, at_most_zero, uvar_ge, any_ge, is_ge, all_ge}
use lean.Util.Name.{Name, name_eq}
use mathlib.Core.Option.{some-injective}
use lean.Util.Name.Equality.{name_eq_iff}
use lean.Util.Arith.{safe_add_int, safe_sub_int, safe_add_int_result, safe_sub_int_result}

-- An assignment of universes to the variables under which every constraint holds; the bottom
-- variable is 0.
abbrev pub IsModel : (Name → ℕ) → Constraints → Type 0
IsModel v c = Satisfies (λ n. pos (value v (uvar n))) c

-- l1 >= l2 + k
abbrev pub AtLeast : (Name → ℕ) → Level → Level → ℤ → Type 0
AtLeast v l1 l2 k = pos (value v l2) +ℤ k ≤ℤ pos (value v l1)

pub or_else-true : (a b : Option Bool) → or_else a b ≡ some true → (a ≡ some true) ⊎ (b ≡ some true)
or_else-true none b h = inl h
or_else-true (some true) b h = inl refl
or_else-true (some false) b h = inr h

pub and_then-true :
    (a b : Option Bool) → and_then a b ≡ some true → (a ≡ some true) × (b ≡ some true)
and_then-true none b h = absurd (ground arith)
and_then-true (some true) b h = (refl, h)
and_then-true (some false) b h = absurd (ground arith)

at_most_zero_lem : (a : ℕ) (k : ℤ) → at_most_zero k ≡ true → pos a +ℤ k ≤ℤ pos a
at_most_zero_lem a k h = ground (arith, +ℤ_parts (pos a) k, h)

through_left :
    (a b j : ℕ) (k : ℤ) {d : ℤ}
    → safe_sub_int k (pos j) ≡ some d
    → pos b +ℤ d ≤ℤ pos a
    → pos b +ℤ k ≤ℤ pos (a + j)
through_left a b j k e h =
    let f = subst (λ x. pos b +ℤ x ≤ℤ pos a) (safe_sub_int_result k (pos j) e) h in
    omega
      (arith, int_laws, f, +ℤ_parts (pos b) (k -ℤ pos j), +ℤ_parts (pos b) k, -ℤ_parts k (pos j))

pub through_right :
    (a b j : ℕ) (k : ℤ) {s : ℤ}
    → safe_add_int k (pos j) ≡ some s
    → pos b +ℤ s ≤ℤ pos a
    → pos (b + j) +ℤ k ≤ℤ pos a
through_right a b j k e h =
    let f = subst (λ x. pos b +ℤ x ≤ℤ pos a) (safe_add_int_result k (pos j) e) h in
    omega (
      arith,
      int_laws,
      f,
      +ℤ_parts (pos b) (k +ℤ pos j),
      +ℤ_parts (pos (b + j)) k,
      +ℤ_parts k (pos j),
    )

below_greater : (a b m : ℕ) (k : ℤ) → pos b +ℤ k ≤ℤ pos a → a ≤ m → pos b +ℤ k ≤ℤ pos m
below_greater a b m k h le = omega (arith, int_laws, +ℤ_parts (pos b) k)

pub smaller_below : (a b m : ℕ) (k : ℤ) → pos b +ℤ k ≤ℤ pos a → m ≤ b → pos m +ℤ k ≤ℤ pos a
smaller_below a b m k h le = omega (arith, int_laws, +ℤ_parts (pos b) k, +ℤ_parts (pos m) k)

pub max_below :
    (a b1 b2 : ℕ) (k : ℤ)
    → pos b1 +ℤ k ≤ℤ pos a
    → pos b2 +ℤ k ≤ℤ pos a
    → pos (max b1 b2) +ℤ k ≤ℤ pos a
max_below a b1 b2 k h1 h2 = elim (Bool-cases (leb b1 b2)) [
  | inl le ↦ smaller_below a b2 (max b1 b2) k h2 (ground (arith, le))
  | inr le ↦ smaller_below a b1 (max b1 b2) k h1 (ground (arith, le))
]

-- Every maximum inside the level has an argument.
abbrev mutual
  pub NoEmptyMax : Level → Type 0
  NoEmptyMax (uvar n) = Unit
  NoEmptyMax (lift l k) = NoEmptyMax l
  NoEmptyMax (maximum ls) = IsNonempty ls × NoneEmpty ls

  pub NoneEmpty : Levels → Type 0
  NoneEmpty nil = Unit
  NoneEmpty (cons l ls) = NoEmptyMax l × NoneEmpty ls

module _ (v : Name → ℕ) (c : Constraints) (model : IsModel v c) where
  same : (l1 l2 : Level) (k : ℤ) → l1 ≡ l2 → some (at_most_zero k) ≡ some true → AtLeast v l1 l2 k
  same l1 l2 k e h =
      subst (λ l. AtLeast v l1 l k) e (at_most_zero_lem (value v l1) k (some-injective _ _ h))

  mutual
    unfolding uvar_ge value

    uvar_ge_lem :
        (l1 : Level) (n2 : Name) (k : ℤ) → uvar_ge c l1 n2 k ≡ some true → AtLeast v l1 (uvar n2) k
    uvar_ge_lem (uvar n1) n2 k h = elim (Bool-cases (name_eq n1 n2)) [
      | inl e ↦
          same (uvar n1) (uvar n2) k (ap uvar ((name_eq_iff n1 n2).0 e)) (ground (arith, h, e))
      | inr e ↦ is_implied_lem (λ n. pos (value v (uvar n))) c n1 n2 k model (ground (arith, h, e))
    ]
    uvar_ge_lem (lift l j) n2 k h =
        let (d, e, g) = >>=-eq-some (safe_sub_int k (pos j)) (λ d. uvar_ge c l n2 d) h in
        through_left (value v l) (value v (uvar n2)) j k e (uvar_ge_lem l n2 d g)
    uvar_ge_lem (maximum ls) n2 k h = any_ge_lem ls n2 k h

    any_ge_lem :
        (ls : Levels) (n2 : Name) (k : ℤ)
        → any_ge c ls n2 k ≡ some true
        → AtLeast v (maximum ls) (uvar n2) k
    any_ge_lem nil n2 k h = absurd (ground arith)
    any_ge_lem (cons l ls) n2 k h = elim (or_else-true (uvar_ge c l n2 k) (any_ge c ls n2 k) h) [
      | inl e ↦
          below_greater (value v l) (value v (uvar n2)) (max (value v l) (values v ls)) k
            (uvar_ge_lem l n2 k e) (omega arith)
      | inr e ↦
          below_greater (values v ls) (value v (uvar n2)) (max (value v l) (values v ls)) k
            (any_ge_lem ls n2 k e) (omega arith)
    ]

  mutual
    unfolding is_ge value

    is_ge_core :
        (l1 l2 : Level) (k : ℤ) → NoEmptyMax l2 → is_ge c l1 l2 k ≡ some true → AtLeast v l1 l2 k
    is_ge_core l1 (uvar n2) k p h = uvar_ge_lem l1 n2 k h
    is_ge_core l1 (lift l j) k p h = elim (Bool-cases (level_eq l1 (lift l j))) [
      | inl e ↦ same l1 (lift l j) k ((level_eq_iff l1 (lift l j)).0 e) (rw e at h)
      | inr e ↦
          let (s, a, g) = >>=-eq-some (safe_add_int k (pos j)) (λ s. is_ge c l1 l s) (rw e at h) in
          through_right (value v l1) (value v l) j k a (is_ge_core l1 l s p g)
    ]
    is_ge_core l1 (maximum ls) k (ne, p) h = elim (Bool-cases (level_eq l1 (maximum ls))) [
      | inl e ↦ same l1 (maximum ls) k ((level_eq_iff l1 (maximum ls)).0 e) (rw e at h)
      | inr e ↦ all_ge_core l1 ls k ne p (rw e at h)
    ]

    all_ge_core :
        (l1 : Level) (ls : Levels) (k : ℤ)
        → IsNonempty ls
        → NoneEmpty ls
        → all_ge c l1 ls k ≡ some true
        → AtLeast v l1 (maximum ls) k
    all_ge_core l1 nil k ne p h = absurd ne
    all_ge_core l1 (cons l nil) k ne (p, q) h =
        let (a, b) = and_then-true (is_ge c l1 l k) (some true) h in
        smaller_below (value v l1) (value v l) (max (value v l) 0) k (is_ge_core l1 l k p a)
          (omega arith)
    all_ge_core l1 (cons l (cons m ms)) k ne (p, q) h =
        let (a, b) = and_then-true (is_ge c l1 l k) (all_ge c l1 (cons m ms) k) h in
        max_below (value v l1) (value v l) (values v (cons m ms)) k (is_ge_core l1 l k p a)
          (all_ge_core l1 (cons m ms) k tt q b)

-- Where `is_ge(l1, l2, k)` answers true, `l1` is at least `k` above `l2` in every assignment that
-- satisfies the constraints, for a level `l2` whose maxima are not empty.
pub is_ge-AtLeast :
    (v : Name → ℕ) (c : Constraints) (l1 l2 : Level) (k : ℤ)
    → IsModel v c
    → NoEmptyMax l2
    → is_ge c l1 l2 k ≡ some true
    → AtLeast v l1 l2 k
is_ge-AtLeast v c l1 l2 k model p h = is_ge_core v c model l1 l2 k p h
