-- ===== src/Kernel/Level/Value.antt =====
-- kernel/level.cpp: the universe that a level denotes, and `max`.
use lean.Base.{ap, arith, if◌then◌else◌, max, refl, true, ℕ, ◌+◌, ◌≡◌}
use lean.Util.Name.{Name, name_eq}
use lean.Kernel.Level.{
  Level, Levels, uvar, lift, maximum, nil, cons, bot_name, is_bottom, lift_of, lift_offset,
  level_eq, push_entry, push_back, push_all, finish, level_max, parts,
}
use lean.Kernel.Level.Equality.{level_eq_iff}
use lean.Util.Name.Equality.{name_eq_iff}

-- The universe a level stands for, given one for each variable; the bottom variable is 0.
unfoldable mutual
  pub value : (Name → ℕ) → Level → ℕ
  value v (uvar n) = if name_eq n bot_name then 0 else v n
  value v (lift l k) = value v l + k
  value v (maximum ls) = values v ls

  pub values : (Name → ℕ) → Levels → ℕ
  values v nil = 0
  values v (cons l ls) = max (value v l) (values v ls)

module _ (v : Name → ℕ) where
  value-lift_of : (l : Level) → value v l ≡ value v (lift_of l) + lift_offset l
  unfolding value
  value-lift_of (uvar n) = omega arith
  value-lift_of (lift l k) = refl
  value-lift_of (maximum ls) = omega arith

  values-push_entry :
      (ls : Levels) (l : Level) → values v (push_entry ls l) ≡ max (values v ls) (value v l)
  unfolding value push_entry
  values-push_entry nil l = omega arith
  values-push_entry (cons x xs) l = ground (
    arith,
    values-push_entry xs l,
    value-lift_of x,
    value-lift_of l,
    (λ (h : level_eq (lift_of x) (lift_of l) ≡ true).
        ap (value v) ((level_eq_iff (lift_of x) (lift_of l)).0 h)),
  )

  value-is_bottom : (l : Level) → is_bottom l ≡ true → value v l ≡ 0
  unfolding value is_bottom
  value-is_bottom (uvar n) h = ground arith
  value-is_bottom (lift l k) h = cc
  value-is_bottom (maximum ls) h = cc

  values-push_back :
      (ls : Levels) (l : Level) → values v (push_back ls l) ≡ max (values v ls) (value v l)
  unfolding push_back
  values-push_back ls l = ground (arith, value-is_bottom l, values-push_entry ls l)

  values-push_all :
      (acc ls : Levels) → values v (push_all acc ls) ≡ max (values v acc) (values v ls)
  unfolding push_all value
  values-push_all acc nil = omega arith
  values-push_all acc (cons l ls) =
      omega (arith, values-push_all (push_back acc l) ls, values-push_back acc l)

  value-finish : (ls : Levels) → value v (finish ls) ≡ values v ls
  unfolding finish value
  value-finish nil = rw ((name_eq_iff bot_name bot_name).1 refl)
  value-finish (cons l nil) = omega arith
  value-finish (cons l (cons m ls)) = refl

  values-parts : (l : Level) → values v (parts l) ≡ value v l
  unfolding value
  values-parts (uvar n) = omega arith
  values-parts (lift l k) = omega arith
  values-parts (maximum ls) = refl

-- `max(l1, l2)` denotes the greater of the two universes, whatever the variables stand for:
-- dropping bottoms and merging levels over one variable loses nothing.
pub value-level_max :
    (v : Name → ℕ) (l1 l2 : Level) → value v (level_max l1 l2) ≡ max (value v l1) (value v l2)
unfolding level_max value
value-level_max v l1 l2 = omega (
  arith,
  value-finish v (push_all (push_all nil (parts l1)) (parts l2)),
  values-push_all v (push_all nil (parts l1)) (parts l2),
  values-push_all v nil (parts l1),
  values-parts v l1,
  values-parts v l2,
)
