-- ===== src/Kernel/Level/Order.antt =====
-- kernel/level.cpp: `operator<`.
use lean.Base.{
  Bool-cases, Ordering-cases, from_lt, inl, inr, is_lt, subst, true, IsTotalOrder,
  compare-IsTotalOrder, ap, arith, refl, ◌≡◌, compare, sym, ◌∙◌,
}
use mathlib.Core.Path.{fun_ext}
use Prim.Native.Nat.Ordering.{eq}
use lean.Kernel.Level.{
  level_eq, level_lt, first_lt, Level, Levels, uvar, lift, maximum, nil, cons, max_size,
}
use lean.Kernel.Level.Compare.{
  compare_levels, compare_all, compare_refl, eq_of_compare, compare-flip,
  compare_levels-IsTotalOrder,
}
use lean.Util.Name.{is_eq}
use lean.Kernel.Level.Equality.{level_eq_iff}

-- The code's tests are the answers of the comparison.
level_eq-compare : (a b : Level) → level_eq a b ≡ is_eq (compare_levels a b)
level_eq-compare a b = elim (Bool-cases (level_eq a b)) [
  | inl e ↦
      let same : compare_levels a b ≡ eq =
        ap (compare_levels a) (sym ((level_eq_iff a b).0 e)) ∙ compare_refl a in
      rw (e, same)
  | inr e ↦ elim (Ordering-cases (compare_levels a b)) [
    | inl p ↦ rw (e, p)
    | inr (inl p) ↦
        let same : level_eq a b ≡ true = (level_eq_iff a b).1 (eq_of_compare a b p) in cc
    | inr (inr p) ↦ rw (e, p)
  ]
]

mutual
  unfolding compare_levels level_lt

  level_lt-compare : (a b : Level) → level_lt a b ≡ is_lt (compare_levels a b)
  level_lt-compare (uvar m) (uvar n) = refl
  level_lt-compare (lift a j) (lift b k) = elim (Ordering-cases (compare_levels a b)) [
    | inl p ↦ ground (arith, p, level_eq-compare a b, level_lt-compare a b)
    | inr (inl p) ↦ ground (arith, p, level_eq-compare a b)
    | inr (inr p) ↦ ground (arith, p, level_eq-compare a b, level_lt-compare a b)
  ]
  level_lt-compare (maximum xs) (maximum ys) =
      elim (Ordering-cases (compare (max_size xs) (max_size ys))) [
        | inl p ↦ ground (arith, p)
        | inr (inl p) ↦ ground (
          arith,
          p,
          first_lt-compare xs ys (compare-IsTotalOrder.eq_of_cmp (max_size xs) (max_size ys) p),
        )
        | inr (inr p) ↦ ground (arith, p)
      ]
  level_lt-compare (uvar m) (lift b k) = refl
  level_lt-compare (uvar m) (maximum ys) = refl
  level_lt-compare (lift a j) (uvar n) = refl
  level_lt-compare (lift a j) (maximum ys) = refl
  level_lt-compare (maximum xs) (uvar n) = refl
  level_lt-compare (maximum xs) (lift b k) = refl

  first_lt-compare :
      (xs ys : Levels) → max_size xs ≡ max_size ys → first_lt xs ys ≡ is_lt (compare_all xs ys)
  first_lt-compare nil nil h = refl
  first_lt-compare nil (cons y ys) h = ground arith
  first_lt-compare (cons x xs) nil h = ground arith
  first_lt-compare (cons x xs) (cons y ys) h =
      let rest = first_lt-compare xs ys (omega arith) in
      elim (Ordering-cases (compare_levels x y)) [
        | inl p ↦ ground (arith, p, level_eq-compare x y, level_lt-compare x y)
        | inr (inl p) ↦ ground (arith, p, level_eq-compare x y, rest)
        | inr (inr p) ↦ ground (arith, p, level_eq-compare x y, level_lt-compare x y)
      ]

from_lt-compare : (a b : Level) → from_lt level_lt a b ≡ compare_levels a b
from_lt-compare a b = elim (Ordering-cases (compare_levels a b)) [
  | inl p ↦ rw (level_lt-compare a b, p)
  | inr (inl p) ↦ rw (level_lt-compare a b, level_lt-compare b a, compare-flip a b, p)
  | inr (inr p) ↦ rw (level_lt-compare a b, level_lt-compare b a, compare-flip a b, p)
]

-- `operator<` on levels is a strict total order: the comparison that it makes, less, greater or
-- neither, is a total order, in which neither means the same level.
pub level_lt-IsTotalOrder : IsTotalOrder (from_lt level_lt)
level_lt-IsTotalOrder =
    subst IsTotalOrder (sym (fun_ext λ a. fun_ext λ b. from_lt-compare a b))
      compare_levels-IsTotalOrder
