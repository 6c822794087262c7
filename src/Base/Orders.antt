-- ===== src/Base/Orders.antt =====
-- Total orders given by a three-way comparison, and the lexicographic order on lists.
use Prim.Native.Nat.{compare, Ordering}
use Prim.Native.Nat.Ordering.{lt, eq, gt}
use lean.Base.Tests.{if◌then◌else◌}
use mathlib.Core.Bool.{Bool, true, false}
use mathlib.Core.Path.{◌≡◌, refl, ap, sym, ◌∙◌}
use mathlib.Core.Logic.{◌⊎◌, inl, inr}
use mathlib.Core.List.{List, [], ◌∷◌}
use native.Mathlib.Omega.{arith}

-- The answer for the arguments taken the other way round.
abbrev pub flip : Ordering → Ordering
flip lt = gt
flip eq = eq
flip gt = lt

abbrev pub is_lt : Ordering → Bool
is_lt lt = true
is_lt eq = false
is_lt gt = false

-- The comparison that a test for less than makes.
abbrev pub from_lt {ℓ} : {A : Type ℓ} → (A → A → Bool) → A → A → Ordering
from_lt less a b = if less a b then lt else if less b a then gt else eq

-- The second answer decides where the first finds no difference.
abbrev pub then_by : Ordering → Ordering → Ordering
then_by lt r = lt
then_by eq r = r
then_by gt r = gt

pub flip-then_by : (a b : Ordering) → flip (then_by a b) ≡ then_by (flip a) (flip b)
flip-then_by lt b = refl
flip-then_by eq b = refl
flip-then_by gt b = refl

pub record IsTotalOrder {ℓ} {A : Type ℓ} (cmp : A → A → Ordering) : Type ℓ where
  pub cmp_refl : (a : A) → cmp a a ≡ eq
  pub eq_of_cmp : (a b : A) → cmp a b ≡ eq → a ≡ b
  pub cmp_flip : (a b : A) → cmp b a ≡ flip (cmp a b)
  pub lt_trans : (a b c : A) → cmp a b ≡ lt → cmp b c ≡ lt → cmp a c ≡ lt

pub Ordering-cases : (c : Ordering) → (c ≡ lt) ⊎ ((c ≡ eq) ⊎ (c ≡ gt))
Ordering-cases lt = inl refl
Ordering-cases eq = inr (inl refl)
Ordering-cases gt = inr (inr refl)

-- Values that compare equal need not be the same, as with the entries of a map.
pub record IsWeakOrder {ℓ} {A : Type ℓ} (cmp : A → A → Ordering) : Type ℓ where
  pub flips : (a b : A) → cmp b a ≡ flip (cmp a b)
  pub lt_lt : (a b c : A) → cmp a b ≡ lt → cmp b c ≡ lt → cmp a c ≡ lt
  pub eq_lt : (a b c : A) → cmp a b ≡ eq → cmp b c ≡ lt → cmp a c ≡ lt
  pub lt_eq : (a b c : A) → cmp a b ≡ lt → cmp b c ≡ eq → cmp a c ≡ lt

pub compare-IsTotalOrder : IsTotalOrder compare
compare-IsTotalOrder = ground arith

module _ {ℓ κ} {A : Type ℓ} {K : Type κ} (key : A → K) (cmp : K → K → Ordering) where
  -- Values compared by a key.
  abbrev pub by_key : A → A → Ordering
  by_key a b = cmp (key a) (key b)

  pub by_key-IsWeakOrder : IsTotalOrder cmp → IsWeakOrder by_key
  by_key-IsWeakOrder o = record {
    flips = λ a b. o.cmp_flip (key a) (key b);
    lt_lt = λ a b c. o.lt_trans (key a) (key b) (key c);
    eq_lt = λ a b c h k. ap (λ x. cmp x (key c)) (o.eq_of_cmp _ _ h) ∙ k;
    lt_eq = λ a b c h k. ap (cmp (key a)) (sym (o.eq_of_cmp _ _ k)) ∙ h;
  }

module _ {ℓ} {A : Type ℓ} where
  -- Compare the members in turn; a list that ends first is the smaller one.
  unfoldable pub lex : (A → A → Ordering) → List A → List A → Ordering
  lex cmp [] [] = eq
  lex cmp [] (y ∷ ys) = lt
  lex cmp (x ∷ xs) [] = gt
  lex cmp (x ∷ xs) (y ∷ ys) = elim (cmp x y) [ lt ↦ lt | eq ↦ lex cmp xs ys | gt ↦ gt ]

module _ {ℓ} {A : Type ℓ} (cmp : A → A → Ordering) (o : IsTotalOrder cmp) where
  lex_refl : (xs : List A) → lex cmp xs xs ≡ eq
  unfolding lex
  lex_refl [] = refl
  lex_refl (x ∷ xs) = ground (arith, o.cmp_refl x, lex_refl xs)

  eq_of_lex : (xs ys : List A) → lex cmp xs ys ≡ eq → xs ≡ ys
  unfolding lex
  eq_of_lex [] [] h = refl
  eq_of_lex [] (y ∷ ys) h = ground arith
  eq_of_lex (x ∷ xs) [] h = ground arith
  eq_of_lex (x ∷ xs) (y ∷ ys) h = ground (arith, o.eq_of_cmp x y, eq_of_lex xs ys)

  lex-flip : (xs ys : List A) → lex cmp ys xs ≡ flip (lex cmp xs ys)
  unfolding lex
  lex-flip [] [] = refl
  lex-flip [] (y ∷ ys) = refl
  lex-flip (x ∷ xs) [] = refl
  lex-flip (x ∷ xs) (y ∷ ys) = ground (arith, o.cmp_flip x y, lex-flip xs ys)

  lex_trans : (xs ys zs : List A) → lex cmp xs ys ≡ lt → lex cmp ys zs ≡ lt → lex cmp xs zs ≡ lt
  unfolding lex
  lex_trans [] [] zs h k = ground arith
  lex_trans [] (y ∷ ys) [] h k = ground arith
  lex_trans [] (y ∷ ys) (z ∷ zs) h k = refl
  lex_trans (x ∷ xs) [] zs h k = ground arith
  lex_trans (x ∷ xs) (y ∷ ys) [] h k = ground arith
  lex_trans (x ∷ xs) (y ∷ ys) (z ∷ zs) h k =
      ground (arith, o.eq_of_cmp x y, o.eq_of_cmp y z, o.lt_trans x y z, lex_trans xs ys zs)

  -- The lexicographic order is total where that of the members is.
  pub lex-IsTotalOrder : IsTotalOrder (lex cmp)
  lex-IsTotalOrder = record {
    cmp_refl = lex_refl;
    eq_of_cmp = eq_of_lex;
    cmp_flip = lex-flip;
    lt_trans = lex_trans;
  }
