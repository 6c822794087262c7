-- ===== src/Kernel/Level/Plus.antt =====
-- kernel/level.cpp: `operator+`, its exceptions and its value.
use lean.Base.{ap, sym, ◌∙◌, >>=-eq-some, arith, refl, some, ℕ, ◌+◌, ◌↔◌, ◌≡◌, ◌≤◌}
use lean.Util.Name.{Name}
use lean.Util.Arith.{int_max, safe_add, safe_add_small, safe_add_result}
use lean.Kernel.Level.{Level, Levels, uvar, lift, maximum, nil, cons, plus, plus_all}
use lean.Kernel.Level.Value.{value, values}
use mathlib.Core.Option.{some-injective}

-- Every `max` inside the level has an argument, as the calls of `max` in the kernel ensure.
abbrev mutual
  pub HasParts : Level → Type 0
  HasParts (uvar n) = Unit
  HasParts (lift l k) = Unit
  HasParts (maximum ls) = IsNonempty ls × AllHaveParts ls

  pub IsNonempty : Levels → Type 0
  IsNonempty nil = ⊥
  IsNonempty (cons l ls) = Unit

  pub AllHaveParts : Levels → Type 0
  AllHaveParts nil = Unit
  AllHaveParts (cons l ls) = HasParts l × AllHaveParts ls

-- Each offset inside the level that `+ k` checks has room for `k`.
abbrev mutual
  pub OffsetsFit : Level → ℕ → Type 0
  OffsetsFit (uvar n) k = Unit
  OffsetsFit (lift l j) k = j + k ≤ int_max
  OffsetsFit (maximum ls) k = AllOffsetsFit ls k

  pub AllOffsetsFit : Levels → ℕ → Type 0
  AllOffsetsFit nil k = Unit
  AllOffsetsFit (cons l ls) k = OffsetsFit l k × AllOffsetsFit ls k

mutual
  unfolding plus

  plus_defined : (l : Level) (k : ℕ) → OffsetsFit l k → (m : Level) × (plus l k ≡ some m)
  plus_defined (uvar n) k h = (lift (uvar n) k, refl)
  plus_defined (lift l j) k h = (lift l (j + k), rw (safe_add_small j k h))
  plus_defined (maximum ls) k h = let (xs, e) = plus_all_defined ls k h in (maximum xs, rw e)

  plus_all_defined :
      (ls : Levels) (k : ℕ) → AllOffsetsFit ls k → (xs : Levels) × (plus_all ls k ≡ some xs)
  plus_all_defined nil k h = (nil, refl)
  plus_all_defined (cons l ls) k h =
      let (x, e) = plus_defined l k h.0 in
      let (xs, es) = plus_all_defined ls k h.1 in (cons x xs, rw (e, es))

mutual
  unfolding plus

  plus_fits : (l : Level) (k : ℕ) (m : Level) → plus l k ≡ some m → OffsetsFit l k
  plus_fits (uvar n) k m h = tt
  plus_fits (lift l j) k m h =
      let (n, e, _) = >>=-eq-some (safe_add j k) (λ n. some (lift l n)) h in
      (safe_add_result j k e).1
  plus_fits (maximum ls) k m h =
      let (xs, e, _) = >>=-eq-some (plus_all ls k) (λ xs. some (maximum xs)) h in
      plus_all_fits ls k xs e

  plus_all_fits : (ls : Levels) (k : ℕ) (xs : Levels) → plus_all ls k ≡ some xs → AllOffsetsFit ls k
  plus_all_fits nil k xs h = tt
  plus_all_fits (cons l ls) k xs h =
      let (x, e, h') = >>=-eq-some (plus l k) _ h in
      let (ys, es, _) = >>=-eq-some (plus_all ls k) _ h' in
      (plus_fits l k x e, plus_all_fits ls k ys es)

-- What the array of a `max` denotes with `k` added to each member.
abbrev shifted : (Name → ℕ) → Levels → ℕ → ℕ
shifted v nil k = 0
shifted v (cons l ls) k = values v (cons l ls) + k

values_cons :
    (v : Name → ℕ) (x : Level) (ys : Levels) (l : Level) (ls : Levels) (k : ℕ)
    → value v x ≡ value v l + k
    → values v ys ≡ shifted v ls k
    → values v (cons x ys) ≡ values v (cons l ls) + k
unfolding value
values_cons v x ys l nil k p q = omega arith
values_cons v x ys l (cons m ls) k p q = omega arith

mutual
  unfolding plus value

  plus-value :
      (v : Name → ℕ) (l : Level) (k : ℕ) (m : Level)
      → HasParts l
      → plus l k ≡ some m
      → value v m ≡ value v l + k
  plus-value v (uvar n) k m p h = ground arith
  plus-value v (lift l j) k m p h =
      let (n, e, e') = >>=-eq-some (safe_add j k) (λ n. some (lift l n)) h in
      sym (ap (value v) (some-injective _ _ e')) ∙ omega (arith, (safe_add_result j k e).0)
  plus-value v (maximum nil) k m p h = absurd p.0
  plus-value v (maximum (cons l ls)) k m p h =
      let (xs, e, e') = >>=-eq-some (plus_all (cons l ls) k) (λ xs. some (maximum xs)) h in
      sym (ap (value v) (some-injective _ _ e')) ∙ plus_all-value v (cons l ls) k xs p.1 e

  plus_all-value :
      (v : Name → ℕ) (ls : Levels) (k : ℕ) (xs : Levels)
      → AllHaveParts ls
      → plus_all ls k ≡ some xs
      → values v xs ≡ shifted v ls k
  plus_all-value v nil k xs p h = ground arith
  plus_all-value v (cons l ls) k xs p h =
      let (x, e, h') = >>=-eq-some (plus l k) _ h in
      let (ys, es, e') = >>=-eq-some (plus_all ls k) _ h' in
      sym (ap (values v) (some-injective _ _ e'))
      ∙ (values_cons v x ys l ls k (plus-value v l k x p.0 e) (plus_all-value v ls k ys p.1 es))

-- `l + k` gives a level exactly where no offset that it raises passes the limit of `int`, for a
-- level whose maxima are not empty.
pub plus-defined_iff :
    (l : Level) (k : ℕ) → HasParts l → OffsetsFit l k ↔ ((m : Level) × (plus l k ≡ some m))
plus-defined_iff l k p = (plus_defined l k, λ r. plus_fits l k r.0 r.1)

-- Where `l + k` does not throw, it denotes `k` more than `l`, whatever the variables stand for, for
-- a level whose maxima are not empty.
pub value-plus :
    (l : Level) (k : ℕ) (m : Level) (v : Name → ℕ)
    → HasParts l
    → plus l k ≡ some m
    → value v m ≡ value v l + k
value-plus l k m v p e = plus-value v l k m p e
