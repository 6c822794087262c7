-- ===== src/Util/Name/Equality.antt =====
-- util/name.cpp: `operator==`.
use lean.Base.{
  ℕ, ◌≡◌, refl, ◌↔◌, true, List, arith, IsTotalOrder, lex-IsTotalOrder, compare-IsTotalOrder,
  compare, ==_refl,
}
use lean.Util.Name.{Name, anonymous, str, num, name_eq, strcmp, stored_hash, is_eq}

pub strcmp-IsTotalOrder : IsTotalOrder strcmp
unfolding strcmp
strcmp-IsTotalOrder = lex-IsTotalOrder compare compare-IsTotalOrder

pub is_eq→eq : (s t : List ℕ) → is_eq (strcmp s t) ≡ true → s ≡ t
is_eq→eq s t h = strcmp-IsTotalOrder.eq_of_cmp s t (ground arith)

eq_of_name_eq : (a b : Name) → name_eq a b ≡ true → a ≡ b
unfolding name_eq
eq_of_name_eq anonymous anonymous h = refl
eq_of_name_eq anonymous (str q t) h = cc
eq_of_name_eq anonymous (num q k) h = cc
eq_of_name_eq (str p s) anonymous h = cc
eq_of_name_eq (str p s) (str q t) h = ground (arith, is_eq→eq s t, eq_of_name_eq p q)
eq_of_name_eq (str p s) (num q k) h = cc
eq_of_name_eq (num p j) anonymous h = cc
eq_of_name_eq (num p j) (str q t) h = cc
eq_of_name_eq (num p j) (num q k) h = ground (arith, eq_of_name_eq p q)

name_eq_refl : (a : Name) → name_eq a a ≡ true
unfolding name_eq
name_eq_refl anonymous = refl
name_eq_refl (str p s) =
    ground (arith, strcmp-IsTotalOrder.cmp_refl s, ==_refl (stored_hash (str p s)), name_eq_refl p)
name_eq_refl (num p j) = ground (arith, ==_refl (stored_hash (num p j)), name_eq_refl p)

-- `operator==` answers true exactly on equal names: the early exit on different hashes is sound.
pub name_eq_iff : (a b : Name) → (name_eq a b ≡ true) ↔ (a ≡ b)
name_eq_iff a b = (eq_of_name_eq a b, λ e. rw e (name_eq_refl b))
