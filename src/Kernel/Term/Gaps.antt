-- ===== src/Kernel/Term/Gaps.antt =====
-- The variable just below the gap that a shift makes.
use lean.Base.{ap, arith, refl, suc, ℕ, ◌+◌, ◌-◌, ◌<◌, ◌≡◌}
use lean.Kernel.Term.{
  Term, tvar, tapp, tpair, tproj, tabs, tlet, tlet_untyped, theq, shift, subst_term,
}

-- What a substitution does under a binder, with the variable raised.
under :
    (k j : ℕ) (b : Term)
    → subst_term (suc k) (shift 0 1 (tvar j)) b ≡ subst_term (suc k) (tvar (suc j)) b
unfolding shift
under k j b = ap (λ v. subst_term (suc k) v b) (ground arith)

-- The variable just below the gap, replaced by the last variable of the gap, joins the gap.
pub subst_term-shift_var :
    (s d j : ℕ) (t : Term)
    → 0 < d
    → suc j ≡ s + d
    → subst_term s (tvar j) (shift (suc s) d t) ≡ shift s (d - 1) t
unfolding shift subst_term
subst_term-shift_var s d j (tvar i) p q = ground arith
subst_term-shift_var s d j (tapp f a) p q =
    cc (subst_term-shift_var s d j f p q, subst_term-shift_var s d j a p q)
subst_term-shift_var s d j (tpair a b t) p q = cc (
  subst_term-shift_var s d j a p q,
  subst_term-shift_var s d j b p q,
  subst_term-shift_var s d j t p q,
)
subst_term-shift_var s d j (tproj i e) p q = cc (subst_term-shift_var s d j e p q)
subst_term-shift_var s d j (tabs n t b) p q = cc (
  subst_term-shift_var s d j t p q,
  under s j (shift (suc (suc s)) d b),
  subst_term-shift_var (suc s) d (suc j) b p (omega arith),
)
subst_term-shift_var s d j (tlet t x b) p q = cc (
  subst_term-shift_var s d j t p q,
  subst_term-shift_var s d j x p q,
  under s j (shift (suc (suc s)) d b),
  subst_term-shift_var (suc s) d (suc j) b p (omega arith),
)
subst_term-shift_var s d j (tlet_untyped x b) p q = cc (
  subst_term-shift_var s d j x p q,
  under s j (shift (suc (suc s)) d b),
  subst_term-shift_var (suc s) d (suc j) b p (omega arith),
)
subst_term-shift_var s d j (theq a b) p q =
    cc (subst_term-shift_var s d j a p q, subst_term-shift_var s d j b p q)
subst_term-shift_var s d j _ p q = refl
