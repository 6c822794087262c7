-- ===== src/Util/Name/Append.antt =====
-- util/name.cpp: `operator+` and `is_prefix_of`.
use lean.Base.{
  ==_iff, Bool-cases, inl, inr, ◌==◌, ==_refl, List, [], and_intro, and_true, ap₂, arith, length,
  length-append, reverse, true, ◌↔◌, ◌∙◌, ap, refl, sym, ◌++◌, ◌∷◌, ◌≡◌,
}
use mathlib.Core.List.{append_assoc, reverse-append, reverse-reverse, append-nil}
use lean.Util.Name.Equality.{is_eq→eq, strcmp-IsTotalOrder}
use lean.Util.Name.Order.{copy_limbs_inj}
use lean.Util.Name.{
  Name, anonymous, str, num, Limb, text, numeral, push_limbs, copy_limbs, append_name, is_prefix_of,
  all_limbs_eq, limb_eq, name_hash,
}

push_limbs-append_name : (a b : Name) → push_limbs (append_name a b) ≡ push_limbs b ++ push_limbs a
unfolding push_limbs append_name
push_limbs-append_name a anonymous = refl
push_limbs-append_name anonymous (str p s) = ap (◌∷◌ (text s)) (sym (append-nil _))
push_limbs-append_name anonymous (num p k) = ap (◌∷◌ (numeral k)) (sym (append-nil _))
push_limbs-append_name a (str anonymous s) = refl
push_limbs-append_name a (str p s) = ap (◌∷◌ (text s)) (push_limbs-append_name a p)
push_limbs-append_name a (num anonymous k) = refl
push_limbs-append_name a (num p k) = ap (◌∷◌ (numeral k)) (push_limbs-append_name a p)

-- The limbs of `n1 + n2` are those of `n1` followed by those of `n2`.
pub copy_limbs-append_name :
    (a b : Name) → copy_limbs (append_name a b) ≡ copy_limbs a ++ copy_limbs b
unfolding copy_limbs
copy_limbs-append_name a b =
    ap reverse (push_limbs-append_name a b) ∙ reverse-append (push_limbs b) (push_limbs a)

-- `+` on names is associative.
pub append_name_assoc :
    (a b c : Name) → append_name (append_name a b) c ≡ append_name a (append_name b c)
append_name_assoc a b c = copy_limbs_inj _ _ (simp (copy_limbs-append_name, append_assoc))

limb_eq→eq : (x y : Limb) → limb_eq x y ≡ true → x ≡ y
unfolding limb_eq
limb_eq→eq (text s) (text t) h = ap text (is_eq→eq s t h)
limb_eq→eq (text s) (numeral k) h = cc
limb_eq→eq (numeral j) (text t) h = cc
limb_eq→eq (numeral j) (numeral k) h = ground arith

limb_eq_refl : (x : Limb) → limb_eq x x ≡ true
unfolding limb_eq
limb_eq_refl (text s) = rw (strcmp-IsTotalOrder.cmp_refl s)
limb_eq_refl (numeral k) = ==_refl k

all_limbs_eq→suffix :
    (xs ys : List Limb) → all_limbs_eq xs ys ≡ true → (zs : List Limb) × (ys ≡ xs ++ zs)
unfolding all_limbs_eq
all_limbs_eq→suffix [] ys h = (ys, refl)
all_limbs_eq→suffix (x ∷ xs) [] h = absurd (ground arith)
all_limbs_eq→suffix (x ∷ xs) (y ∷ ys) h =
    let (p, q) = and_true (limb_eq x y) (all_limbs_eq xs ys) h in
    let (zs, e) = all_limbs_eq→suffix xs ys q in (zs, ap₂ ◌∷◌ (sym (limb_eq→eq x y p)) e)

all_limbs_eq-append : (xs zs : List Limb) → all_limbs_eq xs (xs ++ zs) ≡ true
unfolding all_limbs_eq
all_limbs_eq-append [] zs = refl
all_limbs_eq-append (x ∷ xs) zs = and_intro (limb_eq_refl x) (all_limbs_eq-append xs zs)

-- The name with the given limbs, last limb first.
name_of : List Limb → Name
name_of [] = anonymous
name_of (text s ∷ xs) = str (name_of xs) s
name_of (numeral k ∷ xs) = num (name_of xs) k

push_limbs-name_of : (xs : List Limb) → push_limbs (name_of xs) ≡ xs
unfolding push_limbs name_of
push_limbs-name_of [] = refl
push_limbs-name_of (text s ∷ xs) = ap (◌∷◌ (text s)) (push_limbs-name_of xs)
push_limbs-name_of (numeral k ∷ xs) = ap (◌∷◌ (numeral k)) (push_limbs-name_of xs)

copy_limbs-name_of : (xs : List Limb) → copy_limbs (name_of (reverse xs)) ≡ xs
unfolding copy_limbs
copy_limbs-name_of xs = ap reverse (push_limbs-name_of (reverse xs)) ∙ reverse-reverse xs

is_prefix_of→suffix :
    (n1 n2 : Name) → is_prefix_of n1 n2 ≡ true → (n3 : Name) × (append_name n1 n3 ≡ n2)
unfolding is_prefix_of
is_prefix_of→suffix n1 n2 h =
    let (zs, e) = all_limbs_eq→suffix (copy_limbs n1) (copy_limbs n2) (ground arith) in
    (
      name_of (reverse zs),
      copy_limbs_inj _ _ (
          copy_limbs-append_name n1 _
          ∙ (ap (◌++◌ (copy_limbs n1)) (copy_limbs-name_of zs) ∙ sym e)),
    )

length_zero→nil : (xs : List Limb) → length xs ≡ 0 → xs ≡ []
length_zero→nil [] h = refl
length_zero→nil (x ∷ xs) h = absurd (omega arith)

-- The early exit of `is_prefix_of` on different hashes: names with as many limbs, one a prefix of
-- the other, are equal.
same_length-append :
    (n1 n3 : Name)
    → length (copy_limbs n1) ≡ length (copy_limbs (append_name n1 n3))
    → append_name n1 n3 ≡ n1
same_length-append n1 n3 h =
    let e = ap length (copy_limbs-append_name n1 n3) in
    let z =
      length_zero→nil (copy_limbs n3)
        (omega (arith, e, length-append (copy_limbs n1) (copy_limbs n3))) in
    copy_limbs_inj _ _ (copy_limbs-append_name n1 n3 ∙ (ap (◌++◌ (copy_limbs n1)) z ∙ append-nil _))

is_prefix_of-append_name : (n1 n3 : Name) → is_prefix_of n1 (append_name n1 n3) ≡ true
unfolding is_prefix_of
is_prefix_of-append_name n1 n3 =
    let all : all_limbs_eq (copy_limbs n1) (copy_limbs (append_name n1 n3)) ≡ true =
      rw (copy_limbs-append_name n1 n3) (all_limbs_eq-append (copy_limbs n1) (copy_limbs n3)) in
    let counts = ap length (copy_limbs-append_name n1 n3) in
    elim (Bool-cases (length (copy_limbs n1) == length (copy_limbs (append_name n1 n3)))) [
      | inl h ↦ ground (arith, all, ap name_hash (same_length-append n1 n3 ((==_iff _ _).0 h)))
      | inr h ↦ ground (arith, all, counts, length-append (copy_limbs n1) (copy_limbs n3))
    ]

-- `is_prefix_of n1 n2` answers true exactly when `n2` is `n1 + n3` for some name `n3`.
pub is_prefix_of_iff :
    (n1 n2 : Name) → (is_prefix_of n1 n2 ≡ true) ↔ ((n3 : Name) × (append_name n1 n3 ≡ n2))
is_prefix_of_iff n1 n2 =
    (is_prefix_of→suffix n1 n2, λ s. rw (← s.1) (is_prefix_of-append_name n1 s.0))
