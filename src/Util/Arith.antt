-- ===== src/Util/Arith.antt =====
-- util/safe_arith.cpp: additions that throw on overflow. `none` is the exception. The sum is
-- made on `long long`, where it is exact.
use lean.Base.{
  ltb_ℤ, ℤ, ◌+ℤ◌, ◌-ℤ◌, arith, ◌≡◌, ◌≤◌, Option, if◌then◌else◌, ltb, none, some, ◌+◌, ℕ,
}
use lean.Base.{negsuc, pos}

-- std::numeric_limits<int>::max()
abbrev pub int_max : ℕ
int_max = 2147483647

-- `safe_add(unsigned, unsigned)`: the limit checked is that of `int`.
unfoldable pub safe_add : ℕ → ℕ → Option ℕ
safe_add v k = if ltb int_max (v + k) then none else some (v + k)

pub safe_add_small : (v k : ℕ) → v + k ≤ int_max → safe_add v k ≡ some (v + k)
unfolding safe_add
safe_add_small v k h = ground arith

pub safe_add_result : (v k : ℕ) {r : ℕ} → safe_add v k ≡ some r → (r ≡ v + k) × (v + k ≤ int_max)
unfolding safe_add
safe_add_result v k h = ground arith

-- std::numeric_limits<int>::min()
abbrev pub int_min : ℤ
int_min = negsuc 2147483647

-- `check_int_overflow`, which throws, and the conversion back to `int`.
unfoldable pub check_int : ℤ → Option ℤ
check_int r = if ltb_ℤ r int_min then none else if ltb_ℤ (pos int_max) r then none else some r

-- `safe_add(int, int)` and `safe_sub(int, int)`
unfoldable pub safe_add_int : ℤ → ℤ → Option ℤ
unfolding check_int ◌+ℤ◌
safe_add_int v k = check_int (v +ℤ k)

unfoldable pub safe_sub_int : ℤ → ℤ → Option ℤ
unfolding check_int ◌-ℤ◌
safe_sub_int v k = check_int (v -ℤ k)

check_int_result : (r : ℤ) {n : ℤ} → check_int r ≡ some n → n ≡ r
unfolding check_int
check_int_result r h = ground arith

-- A sum or difference that does not throw is the exact one.
pub safe_add_int_result : (v k : ℤ) {n : ℤ} → safe_add_int v k ≡ some n → n ≡ v +ℤ k
unfolding safe_add_int
safe_add_int_result v k h = check_int_result (v +ℤ k) h

pub safe_sub_int_result : (v k : ℤ) {n : ℤ} → safe_sub_int v k ≡ some n → n ≡ v -ℤ k
unfolding safe_sub_int
safe_sub_int_result v k h = check_int_result (v -ℤ k) h
