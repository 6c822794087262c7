-- ===== src/Kernel/Universes/Bounds.antt =====
-- kernel/environment.cpp: what `is_ge` concludes about any levels, also those with an empty
-- maximum, which lies below every level.
use lean.Base.{
  ◌-ℤ◌, +ℤ_parts, -ℤ_parts, >>=-eq-some, Bool-cases, ap, arith, inl, inr, int_laws, some, subst,
  true, ℕ, ℤ, ◌+ℤ◌, ◌≡◌, ◌≤ℤ◌, ◌∙◌, pos,
}
use lean.Kernel.Level.{Level, Levels, uvar, lift, maximum, nil, cons, level_eq}
use lean.Kernel.Level.Equality.{level_eq_iff}
use lean.Kernel.Level.Value.{value}
use lean.Kernel.UniverseConstraints.{Constraints}
use lean.Kernel.UniverseConstraints.Solutions.{is_implied_lem}
use lean.Kernel.Universes.{at_most_zero, uvar_ge, any_ge, is_ge, all_ge}
use lean.Kernel.Universes.Implied.{IsModel, or_else-true, and_then-true}
use lean.Util.Name.{Name, name_eq}
use lean.Util.Name.Equality.{name_eq_iff}
use lean.Util.Arith.{safe_add_int, safe_sub_int, safe_add_int_result, safe_sub_int_result}
use mathlib.Core.Option.{some-injective}

-- The universe of the level is at most `x`; an empty maximum is, for every `x`.
abbrev mutual
  pub Bounded : (Name → ℕ) → Level → ℤ → Type 0
  Bounded v (uvar n) x = pos (value v (uvar n)) ≤ℤ x
  Bounded v (lift l j) x = Bounded v l (x -ℤ pos j)
  Bounded v (maximum ls) x = AllBounded v ls x

  pub AllBounded : (Name → ℕ) → Levels → ℤ → Type 0
  AllBounded v nil x = Unit
  AllBounded v (cons l ls) x = Bounded v l x × AllBounded v ls x

-- `l2` is at least `l1`: in every assignment that satisfies the constraints, what bounds `l2`
-- bounds `l1`.
abbrev pub Below : Constraints → Level → Level → Type 0
Below c l1 l2 = (v : Name → ℕ) (x : ℤ) → IsModel v c → Bounded v l2 x → Bounded v l1 x

sub_mono : (x y : ℤ) (j : ℕ) → x ≤ℤ y → x -ℤ pos j ≤ℤ y -ℤ pos j
sub_mono x y j h = omega (arith, int_laws, h, -ℤ_parts x (pos j), -ℤ_parts y (pos j))

mutual
  Bounded-mono : (v : Name → ℕ) (l : Level) (x y : ℤ) → x ≤ℤ y → Bounded v l x → Bounded v l y
  Bounded-mono v (uvar n) x y le h = omega (arith, int_laws, le, h)
  Bounded-mono v (lift l j) x y le h =
      Bounded-mono v l (x -ℤ pos j) (y -ℤ pos j) (sub_mono x y j le) h
  Bounded-mono v (maximum ls) x y le h = AllBounded-mono v ls x y le h

  AllBounded-mono :
      (v : Name → ℕ) (ls : Levels) (x y : ℤ) → x ≤ℤ y → AllBounded v ls x → AllBounded v ls y
  AllBounded-mono v nil x y le h = tt
  AllBounded-mono v (cons l ls) x y le h =
      (Bounded-mono v l x y le h.0, AllBounded-mono v ls x y le h.1)

less_at_most_zero : (x k : ℤ) → at_most_zero k ≡ true → x ≤ℤ x -ℤ k
less_at_most_zero x k h = ground (arith, -ℤ_parts x k, h)

both_sides : (a b : ℕ) (x k : ℤ) → pos b +ℤ k ≤ℤ pos a → pos a ≤ℤ x → pos b ≤ℤ x -ℤ k
both_sides a b x k h g = omega (arith, int_laws, h, g, +ℤ_parts (pos b) k, -ℤ_parts x k)

sub_sub : (x j k : ℤ) → (x -ℤ j) -ℤ (k -ℤ j) ≡ x -ℤ k
sub_sub x j k =
    omega (arith, int_laws, -ℤ_parts x j, -ℤ_parts k j, -ℤ_parts x k, -ℤ_parts (x -ℤ j) (k -ℤ j))

sub_add : (x j k : ℤ) → x -ℤ (k +ℤ j) ≡ (x -ℤ k) -ℤ j
sub_add x j k =
    omega (arith, int_laws, -ℤ_parts x k, +ℤ_parts k j, -ℤ_parts x (k +ℤ j), -ℤ_parts (x -ℤ k) j)

module _ (v : Name → ℕ) (c : Constraints) (model : IsModel v c) where
  same_bound :
      (l1 l2 : Level) (k x : ℤ)
      → l1 ≡ l2
      → some (at_most_zero k) ≡ some true
      → Bounded v l1 x
      → Bounded v l2 (x -ℤ k)
  same_bound l1 l2 k x e h g =
      subst (λ l. Bounded v l (x -ℤ k)) e
        (Bounded-mono v l1 x (x -ℤ k) (less_at_most_zero x k (some-injective _ _ h)) g)

  mutual
    unfolding uvar_ge

    uvar_ge-Bounded :
        (l1 : Level) (n2 : Name) (k x : ℤ)
        → uvar_ge c l1 n2 k ≡ some true
        → Bounded v l1 x
        → Bounded v (uvar n2) (x -ℤ k)
    uvar_ge-Bounded (uvar n1) n2 k x h b = elim (Bool-cases (name_eq n1 n2)) [
      | inl e ↦
          same_bound (uvar n1) (uvar n2) k x (ap uvar ((name_eq_iff n1 n2).0 e))
            (ground (arith, h, e)) b
      | inr e ↦
          both_sides (value v (uvar n1)) (value v (uvar n2)) x k
            (is_implied_lem (λ n. pos (value v (uvar n))) c n1 n2 k model (ground (arith, h, e))) b
    ]
    uvar_ge-Bounded (lift l j) n2 k x h b =
        let (d, e, g) = >>=-eq-some (safe_sub_int k (pos j)) (λ d. uvar_ge c l n2 d) h in
        subst (Bounded v (uvar n2))
          (ap (λ z. (x -ℤ pos j) -ℤ z) (safe_sub_int_result k (pos j) e) ∙ sub_sub x (pos j) k)
          (uvar_ge-Bounded l n2 d (x -ℤ pos j) g b)
    uvar_ge-Bounded (maximum ls) n2 k x h b = any_ge-Bounded ls n2 k x h b

    any_ge-Bounded :
        (ls : Levels) (n2 : Name) (k x : ℤ)
        → any_ge c ls n2 k ≡ some true
        → AllBounded v ls x
        → Bounded v (uvar n2) (x -ℤ k)
    any_ge-Bounded nil n2 k x h b = absurd (ground arith)
    any_ge-Bounded (cons l ls) n2 k x h (b, bs) =
        elim (or_else-true (uvar_ge c l n2 k) (any_ge c ls n2 k) h) [
          | inl e ↦ uvar_ge-Bounded l n2 k x e b
          | inr e ↦ any_ge-Bounded ls n2 k x e bs
        ]

  mutual
    unfolding is_ge

    is_ge-Bounded :
        (l1 l2 : Level) (k x : ℤ)
        → is_ge c l1 l2 k ≡ some true
        → Bounded v l1 x
        → Bounded v l2 (x -ℤ k)
    is_ge-Bounded l1 (uvar n2) k x h b = uvar_ge-Bounded l1 n2 k x h b
    is_ge-Bounded l1 (lift l j) k x h b = elim (Bool-cases (level_eq l1 (lift l j))) [
      | inl e ↦ same_bound l1 (lift l j) k x ((level_eq_iff l1 (lift l j)).0 e) (rw e at h) b
      | inr e ↦
          let (s, a, g) = >>=-eq-some (safe_add_int k (pos j)) (λ s. is_ge c l1 l s) (rw e at h) in
          subst (Bounded v l)
            (ap (λ z. x -ℤ z) (safe_add_int_result k (pos j) a) ∙ sub_add x (pos j) k)
            (is_ge-Bounded l1 l s x g b)
    ]
    is_ge-Bounded l1 (maximum ls) k x h b = elim (Bool-cases (level_eq l1 (maximum ls))) [
      | inl e ↦ same_bound l1 (maximum ls) k x ((level_eq_iff l1 (maximum ls)).0 e) (rw e at h) b
      | inr e ↦ all_ge-Bounded l1 ls k x (rw e at h) b
    ]

    all_ge-Bounded :
        (l1 : Level) (ls : Levels) (k x : ℤ)
        → all_ge c l1 ls k ≡ some true
        → Bounded v l1 x
        → AllBounded v ls (x -ℤ k)
    all_ge-Bounded l1 nil k x h b = tt
    all_ge-Bounded l1 (cons l ls) k x h b =
        let (a, r) = and_then-true (is_ge c l1 l k) (all_ge c l1 ls k) h in
        (is_ge-Bounded l1 l k x a b, all_ge-Bounded l1 ls k x r b)

sub_zero : (x : ℤ) → x -ℤ pos 0 ≡ x
sub_zero x = omega (arith, int_laws, -ℤ_parts x (pos 0))

-- Where `is_ge(l2, l1, 0)` answers true, `l2` is at least `l1`.
pub is_ge-Below :
    (c : Constraints) (l1 l2 : Level) → is_ge c l2 l1 (pos 0) ≡ some true → Below c l1 l2
is_ge-Below c l1 l2 h v x model b =
    subst (Bounded v l1) (sub_zero x) (is_ge-Bounded v c model l2 l1 (pos 0) x h b)
