-- ===== src/Kernel/Level.antt =====
-- kernel/level.h and kernel/level.cpp: universe levels. A level is a variable, a variable with an
-- offset, or a maximum of levels; reference counts leave no trace. `Levels` is the array of a
-- `level_max` and the `buffer<level>` of the functions that build one.
pub mod Equality
pub mod Value
pub mod Plus
pub mod Canonical
pub mod Compare
pub mod Order
use lean.Base.{
  is_lt, suc, ◌>>=◌, Bool, Option, [], false, if◌then◌else◌, ltb, map, none, some, true, ℕ, ◌&&◌,
  ◌==◌, ◌∷◌,
}
use lean.Util.Arith.{safe_add}
use lean.Util.Name.{Name, anonymous, str, cmp, name_eq}

mutual
  pub data Level : Type 0 where
    uvar : Name → Level
    lift : Level → ℕ → Level
    maximum : Levels → Level

  pub data Levels : Type 0 where
    nil : Levels
    cons : Level → Levels → Levels

-- `g_bot_name("bot")`
abbrev pub bot_name : Name
bot_name = str anonymous (b'b' ∷ b'o' ∷ b't' ∷ [])

abbrev pub bottom : Level
bottom = uvar bot_name

unfoldable pub is_bottom : Level → Bool
is_bottom (uvar n) = name_eq n bot_name
is_bottom _ = false

abbrev pub lift_of : Level → Level
lift_of (lift l k) = l
lift_of l = l

abbrev pub lift_offset : Level → ℕ
lift_offset (lift l k) = k
lift_offset _ = 0

-- `operator==`
unfoldable mutual
  pub level_eq : Level → Level → Bool
  level_eq (uvar m) (uvar n) = name_eq m n
  level_eq (lift a j) (lift b k) = level_eq a b && j == k
  level_eq (maximum xs) (maximum ys) = levels_eq xs ys
  level_eq _ _ = false

  pub levels_eq : Levels → Levels → Bool
  levels_eq nil nil = true
  levels_eq (cons x xs) (cons y ys) = level_eq x y && levels_eq xs ys
  levels_eq _ _ = false

-- The loop of `push_back`: a level over the same variable keeps the greater offset.
unfoldable pub push_entry : Levels → Level → Levels
push_entry nil l = cons l nil
push_entry (cons x xs) l =
    let rest = push_entry xs l in
    if level_eq (lift_of x) (lift_of l)
    then (if ltb (lift_offset x) (lift_offset l) then cons l xs else cons x xs)
    else cons x rest

unfoldable pub push_back : Levels → Level → Levels
push_back ls l = if is_bottom l then ls else push_entry ls l

unfoldable pub push_all : Levels → Levels → Levels
push_all acc nil = acc
push_all acc (cons l ls) = push_all (push_back acc l) ls

unfoldable pub finish : Levels → Level
finish nil = bottom
finish (cons l nil) = l
finish ls = maximum ls

unfoldable pub max_core : Levels → Levels → Level
max_core ls1 ls2 = finish (push_all (push_all nil ls1) ls2)

abbrev pub parts : Level → Levels
parts (maximum ls) = ls
parts l = cons l nil

-- `max(l1, l2)`: the four overloads of `max_core` differ in which side is an array.
unfoldable pub level_max : Level → Level → Level
unfolding max_core
level_max l1 l2 = max_core (parts l1) (parts l2)

-- `operator+`; `none` is the exception that `safe_add` throws.
unfoldable mutual
  pub plus : Level → ℕ → Option Level
  plus (uvar n) k = some (lift (uvar n) k)
  plus (lift l j) k = do n ← safe_add j k; some (lift l n)
  plus (maximum ls) k = do xs ← plus_all ls k; some (maximum xs)

  pub plus_all : Levels → ℕ → Option Levels
  plus_all nil k = some nil
  plus_all (cons l ls) k = do x ← plus l k; xs ← plus_all ls k; some (cons x xs)

-- `max` of an initializer list.
unfoldable pub max_list : Levels → Level
max_list (cons l nil) = l
max_list ls = maximum ls

-- The order of `level_kind`.
abbrev pub level_kind : Level → ℕ
level_kind (uvar n) = 0
level_kind (lift l k) = 1
level_kind (maximum xs) = 2

abbrev pub max_size : Levels → ℕ
max_size nil = 0
max_size (cons x xs) = suc (max_size xs)

-- `operator<` on levels, and its loop over two maxima of one size.
unfoldable mutual
  unfolding level_eq cmp

  pub level_lt : Level → Level → Bool
  level_lt (uvar m) (uvar n) = is_lt (cmp m n)
  level_lt (lift a j) (lift b k) =
      let below = level_lt a b in if level_eq a b then ltb j k else below
  level_lt (maximum xs) (maximum ys) =
      let first = first_lt xs ys in
      if max_size xs == max_size ys then first else ltb (max_size xs) (max_size ys)
  level_lt a b = ltb (level_kind a) (level_kind b)

  pub first_lt : Levels → Levels → Bool
  first_lt (cons x xs) (cons y ys) =
      let below = level_lt x y in let rest = first_lt xs ys in if level_eq x y then rest else below
  first_lt _ _ = false
