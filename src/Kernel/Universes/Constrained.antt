-- ===== src/Kernel/Universes/Constrained.antt =====
-- kernel/environment.cpp: what `add_constraints` adds.
use lean.Base.{
  +ℤ_parts, >>=-eq-some, arith, int_laws, max, some, subst, sym, true, ℕ, ℤ, ◌+ℤ◌, ◌+◌, ◌↔◌, ◌≡◌,
  ◌≤ℤ◌,
}
use lean.Kernel.Level.{Level, Levels, uvar, lift, maximum, nil, cons}
use lean.Kernel.Level.Plus.{IsNonempty}
use lean.Kernel.Level.Value.{value, values}
use lean.Kernel.UniverseConstraints.{Constraints, is_implied}
use lean.Kernel.UniverseConstraints.Edges.{Mirrors, add_constraint-Mirrors}
use lean.Kernel.UniverseConstraints.Added.{
  HasLoop, add_constraint-Satisfies_iff, add_constraint-is_implied,
}
use lean.Kernel.Universes.{add_constraints, add_all_constraints}
use lean.Kernel.Universes.Implied.{
  IsModel, AtLeast, NoEmptyMax, NoneEmpty, smaller_below, max_below, through_right,
}
use lean.Util.Name.{Name}
use mathlib.Core.Option.{some-injective}
use lean.Util.Arith.{safe_add_int, safe_add_int_result}
use lean.Base.{pos}

-- What a step from one set of constraints to the next keeps.
pub record Keeps (c d : Constraints) : Type 0 where
  pub keeps_mirrors : Mirrors c → Mirrors d
  pub keeps_implied : (a b : Name) (j : ℤ) → is_implied c a b j ≡ true → is_implied d a b j ≡ true

Keeps-refl : (c : Constraints) → Keeps c c
Keeps-refl c = record { keeps_mirrors = λ m. m; keeps_implied = λ a b j h. h }

Keeps-trans : {c d e : Constraints} → Keeps c d → Keeps d e → Keeps c e
Keeps-trans k l = record {
  keeps_mirrors = λ m. l.keeps_mirrors (k.keeps_mirrors m);
  keeps_implied = λ a b j h. l.keeps_implied a b j (k.keeps_implied a b j h);
}

mutual
  unfolding add_constraints

  pub add_constraints-Keeps :
      (c : Constraints) (n : Name) (l : Level) (k : ℤ) {d : Constraints}
      → add_constraints c n l k ≡ some d
      → Keeps c d
  add_constraints-Keeps c n (uvar m) k h = record {
    keeps_mirrors = λ mirrors. add_constraint-Mirrors c n m k mirrors h;
    keeps_implied = λ a b j i. add_constraint-is_implied c n m k a b j h i;
  }
  add_constraints-Keeps c n (lift l j) k h =
      let (s, e, g) = >>=-eq-some (safe_add_int k (pos j)) (λ s. add_constraints c n l s) h in
      add_constraints-Keeps c n l s g
  add_constraints-Keeps c n (maximum ls) k h = add_all-Keeps c n ls k h

  add_all-Keeps :
      (c : Constraints) (n : Name) (ls : Levels) (k : ℤ) {d : Constraints}
      → add_all_constraints c n ls k ≡ some d
      → Keeps c d
  add_all-Keeps c n nil k h = subst (Keeps c) (some-injective _ _ h) (Keeps-refl c)
  add_all-Keeps c n (cons l ls) k h =
      let (m, e, g) = >>=-eq-some (add_constraints c n l k) (λ m. add_all_constraints m n ls k) h in
      Keeps-trans (add_constraints-Keeps c n l k e) (add_all-Keeps m n ls k g)

HasLoop-iff : (c : Constraints) (n : Name) → HasLoop c n ↔ (is_implied c n n (pos 0) ≡ true)
unfolding is_implied
HasLoop-iff c n = (λ h. h, λ h. h)

pub Keeps-HasLoop : {c d : Constraints} (n : Name) → Keeps c d → HasLoop c n → HasLoop d n
Keeps-HasLoop {c} {d} n k h =
    (HasLoop-iff d n).1 (k.keeps_implied n n (pos 0) ((HasLoop-iff c n).0 h))

over_max :
    (a b1 b2 : ℕ) (k : ℤ)
    → (pos (max b1 b2) +ℤ k ≤ℤ pos a) ↔ ((pos b1 +ℤ k ≤ℤ pos a) × (pos b2 +ℤ k ≤ℤ pos a))
over_max a b1 b2 k = (
  λ h. (
    smaller_below a (max b1 b2) b1 k h (omega arith),
    smaller_below a (max b1 b2) b2 k h (omega arith),
  ),
  λ (h1, h2). max_below a b1 b2 k h1 h2,
)

over_lift :
    (a b j : ℕ) (k s : ℤ)
    → safe_add_int k (pos j) ≡ some s
    → (pos b +ℤ s ≤ℤ pos a) ↔ (pos (b + j) +ℤ k ≤ℤ pos a)
over_lift a b j k s e = (
  through_right a b j k e,
  λ h.
      subst (λ x. pos b +ℤ x ≤ℤ pos a) (sym (safe_add_int_result k (pos j) e))
        (omega (
          arith,
          int_laws,
          h,
          +ℤ_parts (pos b) (k +ℤ pos j),
          +ℤ_parts (pos (b + j)) k,
          +ℤ_parts k (pos j),
        )),
)

only_max : (a b : ℕ) (k : ℤ) → (pos (max b 0) +ℤ k ≤ℤ pos a) ↔ (pos b +ℤ k ≤ℤ pos a)
only_max a b k = (
  λ h. smaller_below a (max b 0) b k h (omega arith),
  λ h. smaller_below a b (max b 0) k h (omega arith),
)

module _ (v : Name → ℕ) where
  mutual
    unfolding add_constraints value

    models_iff :
        (c : Constraints) (n : Name) (l : Level) (k : ℤ) {d : Constraints}
        → Mirrors c
        → HasLoop c n
        → NoEmptyMax l
        → add_constraints c n l k ≡ some d
        → IsModel v d ↔ (IsModel v c × AtLeast v (uvar n) l k)
    models_iff c n (uvar m) k mi lo p h =
        add_constraint-Satisfies_iff (λ n. pos (value v (uvar n))) c n m k mi lo h
    models_iff c n (lift l j) k {d} mi lo p h =
        let (s, e, g) = >>=-eq-some (safe_add_int k (pos j)) (λ s. add_constraints c n l s) h in
        let f = models_iff c n l s mi lo p g in
        let o = over_lift (value v (uvar n)) (value v l) j k s e in
        (λ m. ((f.0 m).0, o.0 (f.0 m).1), λ (m, a). f.1 (m, o.1 a))
    models_iff c n (maximum ls) k mi lo (ne, p) h = all_models_iff c n ls k mi lo ne p h

    all_models_iff :
        (c : Constraints) (n : Name) (ls : Levels) (k : ℤ) {d : Constraints}
        → Mirrors c
        → HasLoop c n
        → IsNonempty ls
        → NoneEmpty ls
        → add_all_constraints c n ls k ≡ some d
        → IsModel v d ↔ (IsModel v c × AtLeast v (uvar n) (maximum ls) k)
    all_models_iff c n nil k mi lo ne p h = absurd ne
    all_models_iff c n (cons l nil) k {d} mi lo ne (p, q) h =
        let (m, e, g) = >>=-eq-some (add_constraints c n l k) (λ m. some m) h in
        let f = models_iff c n l k mi lo p e in
        let o = only_max (value v (uvar n)) (value v l) k in
        subst (λ x. IsModel v x ↔ (IsModel v c × AtLeast v (uvar n) (maximum (cons l nil)) k))
          (some-injective _ _ g) (λ z. ((f.0 z).0, o.1 (f.0 z).1), λ (z, a). f.1 (z, o.0 a))
    all_models_iff c n (cons l (cons x xs)) k mi lo ne (p, q) h =
        let (m, e, g) =
          >>=-eq-some (add_constraints c n l k) (λ m. add_all_constraints m n (cons x xs) k) h in
        let keep = add_constraints-Keeps c n l k e in
        let f = models_iff c n l k mi lo p e in
        let r =
          all_models_iff m n (cons x xs) k (keep.keeps_mirrors mi) (Keeps-HasLoop n keep lo) tt q
            g in
        let o = over_max (value v (uvar n)) (value v l) (values v (cons x xs)) k in
        (
          λ z. ((f.0 (r.0 z).0).0, o.1 ((f.0 (r.0 z).0).1, (r.0 z).1)),
          λ (z, a). r.1 (f.1 (z, (o.0 a).0), (o.0 a).1),
        )

-- The assignments that satisfy what `add_constraints(n, l, k)` makes, where it does not throw, are
-- those that satisfied the constraints before and put `n` at least `k` above `l`, for constraints
-- whose edge lists mirror their distances and where `n` reaches itself, and a level whose maxima
-- are not empty.
pub add_constraints-IsModel_iff :
    (v : Name → ℕ) (c : Constraints) (n : Name) (l : Level) (k : ℤ) {d : Constraints}
    → Mirrors c
    → HasLoop c n
    → NoEmptyMax l
    → add_constraints c n l k ≡ some d
    → IsModel v d ↔ (IsModel v c × AtLeast v (uvar n) l k)
add_constraints-IsModel_iff v c n l k mi lo p h = models_iff v c n l k mi lo p h
