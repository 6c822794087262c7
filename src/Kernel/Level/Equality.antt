-- ===== src/Kernel/Level/Equality.antt =====
-- kernel/level.cpp: `operator==`.
use lean.Base.{ap, arith, refl, true, ◌↔◌, ◌≡◌}
use lean.Util.Name.Equality.{name_eq_iff}
use lean.Kernel.Level.{Level, Levels, uvar, lift, maximum, nil, cons, level_eq, levels_eq}

mutual
  unfolding level_eq

  eq_of_level_eq : (a b : Level) → level_eq a b ≡ true → a ≡ b
  eq_of_level_eq (uvar m) (uvar n) h = ap uvar ((name_eq_iff m n).0 h)
  eq_of_level_eq (lift a j) (lift b k) h = ground (arith, eq_of_level_eq a b)
  eq_of_level_eq (maximum xs) (maximum ys) h = ap maximum (eq_of_levels_eq xs ys h)
  eq_of_level_eq (uvar m) (lift b k) h = cc
  eq_of_level_eq (uvar m) (maximum ys) h = cc
  eq_of_level_eq (lift a j) (uvar n) h = cc
  eq_of_level_eq (lift a j) (maximum ys) h = cc
  eq_of_level_eq (maximum xs) (uvar n) h = cc
  eq_of_level_eq (maximum xs) (lift b k) h = cc

  eq_of_levels_eq : (xs ys : Levels) → levels_eq xs ys ≡ true → xs ≡ ys
  eq_of_levels_eq nil nil h = refl
  eq_of_levels_eq nil (cons y ys) h = cc
  eq_of_levels_eq (cons x xs) nil h = cc
  eq_of_levels_eq (cons x xs) (cons y ys) h =
      ground (arith, eq_of_level_eq x y, eq_of_levels_eq xs ys)

mutual
  unfolding level_eq

  level_eq_self : (a : Level) → level_eq a a ≡ true
  level_eq_self (uvar m) = (name_eq_iff m m).1 refl
  level_eq_self (lift a j) = ground (arith, level_eq_self a)
  level_eq_self (maximum xs) = levels_eq_self xs

  levels_eq_self : (xs : Levels) → levels_eq xs xs ≡ true
  levels_eq_self nil = refl
  levels_eq_self (cons x xs) = ground (arith, level_eq_self x, levels_eq_self xs)

-- `operator==` on levels decides structural equality.
pub level_eq_iff : (a b : Level) → (level_eq a b ≡ true) ↔ (a ≡ b)
level_eq_iff a b = (eq_of_level_eq a b, λ e. rw e (level_eq_self b))
