-- ===== src/Kernel/Level/Compare.antt =====
-- The order of levels as one comparison, for `operator<` of kernel/level.cpp.
use lean.Base.{
  IsTotalOrder, compare-IsTotalOrder, ap, arith, refl, ◌≡◌, Ordering, compare, flip, then_by,
  flip-then_by, ap₂, sym, ◌∙◌,
}
use Prim.Native.Nat.Ordering.{lt, eq, gt}
use lean.Util.Name.{cmp}
use lean.Kernel.Level.{Level, Levels, uvar, lift, maximum, nil, cons, max_size, level_kind}
use lean.Util.Name.Order.{cmp-IsTotalOrder}

-- The order as one comparison: the kind first, then what the levels hold.
unfoldable mutual
  pub compare_levels : Level → Level → Ordering
  compare_levels (uvar m) (uvar n) = cmp m n
  compare_levels (lift a j) (lift b k) = then_by (compare_levels a b) (compare j k)
  compare_levels (maximum xs) (maximum ys) =
      then_by (compare (max_size xs) (max_size ys)) (compare_all xs ys)
  compare_levels a b = compare (level_kind a) (level_kind b)

  pub compare_all : Levels → Levels → Ordering
  compare_all nil nil = eq
  compare_all nil (cons y ys) = lt
  compare_all (cons x xs) nil = gt
  compare_all (cons x xs) (cons y ys) = then_by (compare_levels x y) (compare_all xs ys)

mutual
  unfolding compare_levels

  pub compare_refl : (a : Level) → compare_levels a a ≡ eq
  compare_refl (uvar n) = cmp-IsTotalOrder.cmp_refl n
  compare_refl (lift a j) = ground (arith, compare_refl a)
  compare_refl (maximum xs) = ground (arith, all_refl xs)

  all_refl : (xs : Levels) → compare_all xs xs ≡ eq
  all_refl nil = refl
  all_refl (cons x xs) = ground (arith, compare_refl x, all_refl xs)

mutual
  unfolding compare_levels

  pub eq_of_compare : (a b : Level) → compare_levels a b ≡ eq → a ≡ b
  eq_of_compare (uvar m) (uvar n) h = ap uvar (cmp-IsTotalOrder.eq_of_cmp m n h)
  eq_of_compare (lift a j) (lift b k) h = ground (arith, eq_of_compare a b)
  eq_of_compare (maximum xs) (maximum ys) h = ground (arith, eq_of_all xs ys)
  eq_of_compare (uvar m) (lift b k) h = ground arith
  eq_of_compare (uvar m) (maximum ys) h = ground arith
  eq_of_compare (lift a j) (uvar n) h = ground arith
  eq_of_compare (lift a j) (maximum ys) h = ground arith
  eq_of_compare (maximum xs) (uvar n) h = ground arith
  eq_of_compare (maximum xs) (lift b k) h = ground arith

  eq_of_all : (xs ys : Levels) → compare_all xs ys ≡ eq → xs ≡ ys
  eq_of_all nil nil h = refl
  eq_of_all nil (cons y ys) h = ground arith
  eq_of_all (cons x xs) nil h = ground arith
  eq_of_all (cons x xs) (cons y ys) h = ground (arith, eq_of_compare x y, eq_of_all xs ys)

mutual
  unfolding compare_levels

  pub compare-flip : (a b : Level) → compare_levels b a ≡ flip (compare_levels a b)
  compare-flip (uvar m) (uvar n) = cmp-IsTotalOrder.cmp_flip m n
  compare-flip (lift a j) (lift b k) =
      ap₂ then_by (compare-flip a b) (compare-IsTotalOrder.cmp_flip j k)
      ∙ sym (flip-then_by (compare_levels a b) (compare j k))
  compare-flip (maximum xs) (maximum ys) =
      ap₂ then_by (compare-IsTotalOrder.cmp_flip (max_size xs) (max_size ys)) (all-flip xs ys)
      ∙ sym (flip-then_by (compare (max_size xs) (max_size ys)) (compare_all xs ys))
  compare-flip (uvar m) (lift b k) = refl
  compare-flip (uvar m) (maximum ys) = refl
  compare-flip (lift a j) (uvar n) = refl
  compare-flip (lift a j) (maximum ys) = refl
  compare-flip (maximum xs) (uvar n) = refl
  compare-flip (maximum xs) (lift b k) = refl

  all-flip : (xs ys : Levels) → compare_all ys xs ≡ flip (compare_all xs ys)
  all-flip nil nil = refl
  all-flip nil (cons y ys) = refl
  all-flip (cons x xs) nil = refl
  all-flip (cons x xs) (cons y ys) =
      ap₂ then_by (compare-flip x y) (all-flip xs ys)
      ∙ sym (flip-then_by (compare_levels x y) (compare_all xs ys))

-- A step of the lexicographic order.
then_by_trans :
    (p q r p' q' r' : Ordering)
    → (p ≡ lt → q ≡ lt → r ≡ lt)
    → (p ≡ eq → r ≡ q)
    → (q ≡ eq → r ≡ p)
    → (p' ≡ lt → q' ≡ lt → r' ≡ lt)
    → then_by p p' ≡ lt
    → then_by q q' ≡ lt
    → then_by r r' ≡ lt
then_by_trans lt lt r p' q' r' t i j t' h k = rw (t refl refl)
then_by_trans lt eq r p' q' r' t i j t' h k = rw (j refl)
then_by_trans lt gt r p' q' r' t i j t' h k = ground arith
then_by_trans eq lt r p' q' r' t i j t' h k = rw (i refl)
then_by_trans eq eq r p' q' r' t i j t' h k = rw (i refl) (t' h k)
then_by_trans eq gt r p' q' r' t i j t' h k = ground arith
then_by_trans gt q r p' q' r' t i j t' h k = ground arith

mutual
  unfolding compare_levels

  compare_trans :
      (a b c : Level) → compare_levels a b ≡ lt → compare_levels b c ≡ lt → compare_levels a c ≡ lt
  compare_trans (uvar m) (uvar n) (uvar o) h k = cmp-IsTotalOrder.lt_trans m n o h k
  compare_trans (lift a i) (lift b j) (lift c l) h k =
      then_by_trans (compare_levels a b) (compare_levels b c) (compare_levels a c) (compare i j)
        (compare j l) (compare i l) (compare_trans a b c)
        (λ e. ap (λ x. compare_levels x c) (eq_of_compare a b e))
        (λ e. ap (compare_levels a) (sym (eq_of_compare b c e)))
        (compare-IsTotalOrder.lt_trans i j l) h k
  compare_trans (maximum xs) (maximum ys) (maximum zs) h k =
      then_by_trans (compare (max_size xs) (max_size ys)) (compare (max_size ys) (max_size zs))
        (compare (max_size xs) (max_size zs)) (compare_all xs ys) (compare_all ys zs)
        (compare_all xs zs)
        (compare-IsTotalOrder.lt_trans (max_size xs) (max_size ys) (max_size zs))
        (λ e. ap (λ n. compare n (max_size zs)) (compare-IsTotalOrder.eq_of_cmp _ _ e))
        (λ e. ap (compare (max_size xs)) (sym (compare-IsTotalOrder.eq_of_cmp _ _ e)))
        (all_trans xs ys zs) h k
  compare_trans (uvar m) b (lift c l) h k = refl
  compare_trans (uvar m) b (maximum zs) h k = refl
  compare_trans (lift a i) b (maximum zs) h k = refl
  compare_trans (uvar m) (lift b j) (uvar o) h k = ground arith
  compare_trans (uvar m) (maximum ys) (uvar o) h k = ground arith
  compare_trans (lift a i) (uvar n) (lift c l) h k = ground arith
  compare_trans (lift a i) (maximum ys) (lift c l) h k = ground arith
  compare_trans (maximum xs) (uvar n) (maximum zs) h k = ground arith
  compare_trans (maximum xs) (lift b j) (maximum zs) h k = ground arith
  compare_trans (lift a i) (uvar n) (uvar o) h k = ground arith
  compare_trans (lift a i) (lift b j) (uvar o) h k = ground arith
  compare_trans (lift a i) (maximum ys) (uvar o) h k = ground arith
  compare_trans (maximum xs) (uvar n) c h k = ground arith
  compare_trans (maximum xs) (lift b j) (uvar o) h k = ground arith
  compare_trans (maximum xs) (lift b j) (lift c l) h k = ground arith
  compare_trans (maximum xs) (maximum ys) (uvar o) h k = ground arith
  compare_trans (maximum xs) (maximum ys) (lift c l) h k = ground arith

  all_trans :
      (xs ys zs : Levels) → compare_all xs ys ≡ lt → compare_all ys zs ≡ lt → compare_all xs zs ≡ lt
  all_trans nil ys (cons z zs) h k = refl
  all_trans nil nil nil h k = h
  all_trans nil (cons y ys) nil h k = ground arith
  all_trans (cons x xs) nil zs h k = ground arith
  all_trans (cons x xs) (cons y ys) nil h k = ground arith
  all_trans (cons x xs) (cons y ys) (cons z zs) h k =
      then_by_trans (compare_levels x y) (compare_levels y z) (compare_levels x z)
        (compare_all xs ys) (compare_all ys zs) (compare_all xs zs) (compare_trans x y z)
        (λ e. ap (λ w. compare_levels w z) (eq_of_compare x y e))
        (λ e. ap (compare_levels x) (sym (eq_of_compare y z e))) (all_trans xs ys zs) h k

pub compare_levels-IsTotalOrder : IsTotalOrder compare_levels
compare_levels-IsTotalOrder = record {
  cmp_refl = compare_refl;
  eq_of_cmp = eq_of_compare;
  cmp_flip = compare-flip;
  lt_trans = compare_trans;
}
