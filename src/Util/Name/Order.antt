-- ===== src/Util/Name/Order.antt =====
-- util/name.cpp: `cmp` and `quick_cmp`.
use lean.Base.{
  refl, reverse, ◌∙◌, ◌≡◌, IsTotalOrder, arith, sym, Ordering, lex-IsTotalOrder, ap, flip,
}
use mathlib.Core.List.{reverse-reverse}
use lean.Util.Name.Equality.{strcmp-IsTotalOrder}
use lean.Util.Name.{
  Name, anonymous, str, num, Limb, text, numeral, push_limbs, copy_limbs, cmp_limb, cmp_limbs, cmp,
  quick_cmp,
}

pub cmp_limb-IsTotalOrder : IsTotalOrder cmp_limb
unfolding cmp_limb
cmp_limb-IsTotalOrder = record {
  cmp_refl = elim [ text s ↦ strcmp-IsTotalOrder.cmp_refl s | numeral k ↦ ground arith ];
  eq_of_cmp = eq_of_cmp_limb;
  cmp_flip = cmp_limb-flip;
  lt_trans = cmp_limb_trans;
}
  where
    eq_of_cmp_limb : (a b : Limb) → cmp_limb a b ≡ Ordering.eq → a ≡ b
    eq_of_cmp_limb (text s) (text t) h = ap text (strcmp-IsTotalOrder.eq_of_cmp s t h)
    eq_of_cmp_limb (text s) (numeral k) h = cc
    eq_of_cmp_limb (numeral j) (text t) h = cc
    eq_of_cmp_limb (numeral j) (numeral k) h = ground arith

    cmp_limb-flip : (a b : Limb) → cmp_limb b a ≡ flip (cmp_limb a b)
    cmp_limb-flip (text s) (text t) = strcmp-IsTotalOrder.cmp_flip s t
    cmp_limb-flip (text s) (numeral k) = refl
    cmp_limb-flip (numeral j) (text t) = refl
    cmp_limb-flip (numeral j) (numeral k) = ground arith

    cmp_limb_trans :
        (a b c : Limb)
        → cmp_limb a b ≡ Ordering.lt
        → cmp_limb b c ≡ Ordering.lt
        → cmp_limb a c ≡ Ordering.lt
    cmp_limb_trans (text s) (text t) (text u) h k = strcmp-IsTotalOrder.lt_trans s t u h k
    cmp_limb_trans (text s) (text t) (numeral l) h k = cc
    cmp_limb_trans (text s) (numeral l) c h k = cc
    cmp_limb_trans (numeral j) b (text u) h k = ground arith
    cmp_limb_trans (numeral j) (text t) (numeral l) h k = cc
    cmp_limb_trans (numeral j) (numeral i) (numeral l) h k = ground arith

push_limbs_inj : (a b : Name) → push_limbs a ≡ push_limbs b → a ≡ b
unfolding push_limbs
push_limbs_inj anonymous anonymous h = refl
push_limbs_inj anonymous (str q t) h = cc
push_limbs_inj anonymous (num q k) h = cc
push_limbs_inj (str p s) anonymous h = cc
push_limbs_inj (str p s) (str q t) h = ground (arith, push_limbs_inj p q)
push_limbs_inj (str p s) (num q k) h = cc
push_limbs_inj (num p j) anonymous h = cc
push_limbs_inj (num p j) (str q t) h = cc
push_limbs_inj (num p j) (num q k) h = ground (arith, push_limbs_inj p q)

pub copy_limbs_inj : (a b : Name) → copy_limbs a ≡ copy_limbs b → a ≡ b
unfolding copy_limbs
copy_limbs_inj a b h =
    push_limbs_inj a b (sym (reverse-reverse _) ∙ (ap reverse h ∙ reverse-reverse _))

cmp_limbs-IsTotalOrder : IsTotalOrder cmp_limbs
unfolding cmp_limbs
cmp_limbs-IsTotalOrder = lex-IsTotalOrder cmp_limb cmp_limb-IsTotalOrder

-- `cmp` is a total order on names: zero exactly on equal names, sign-reversing and transitive.
pub cmp-IsTotalOrder : IsTotalOrder cmp
unfolding cmp
cmp-IsTotalOrder = record {
  cmp_refl = λ a. cmp_limbs-IsTotalOrder.cmp_refl (copy_limbs a);
  eq_of_cmp = λ a b h. copy_limbs_inj a b (cmp_limbs-IsTotalOrder.eq_of_cmp _ _ h);
  cmp_flip = λ a b. cmp_limbs-IsTotalOrder.cmp_flip (copy_limbs a) (copy_limbs b);
  lt_trans = λ a b c. cmp_limbs-IsTotalOrder.lt_trans (copy_limbs a) (copy_limbs b) (copy_limbs c);
}

-- `quick_cmp`, which looks at the hashes first, is a total order on names too.
pub quick_cmp-IsTotalOrder : IsTotalOrder quick_cmp
unfolding quick_cmp
quick_cmp-IsTotalOrder = record {
  cmp_refl = λ a. ground (arith, cmp-IsTotalOrder.cmp_refl a);
  eq_of_cmp = λ a b h. ground (arith, cmp-IsTotalOrder.eq_of_cmp a b);
  cmp_flip = λ a b. ground (arith, cmp-IsTotalOrder.cmp_flip a b);
  lt_trans = λ a b c h k. ground (arith, cmp-IsTotalOrder.lt_trans a b c);
}
