-- ===== src/Kernel/Term/Laws.antt =====
-- The algebra of shifting and substitution on terms.
use lean.Base.{arith, refl, suc, ℕ, ◌+◌, ◌-◌, ◌<◌, ◌≤◌, ◌≡◌}
use lean.Kernel.Term.{
  Term, tvar, tapp, tpair, tproj, tabs, tlet, tlet_untyped, theq, shift, subst_term,
}

pub shift_zero : (s : ℕ) (t : Term) → shift s 0 t ≡ t
unfolding shift
shift_zero s (tvar i) = ground arith
shift_zero s (tapp f a) = cc (shift_zero s f, shift_zero s a)
shift_zero s (tpair a b t) = cc (shift_zero s a, shift_zero s b, shift_zero s t)
shift_zero s (tproj i e) = cc (shift_zero s e)
shift_zero s (tabs n t b) = cc (shift_zero s t, shift_zero (suc s) b)
shift_zero s (tlet t v b) = cc (shift_zero s t, shift_zero s v, shift_zero (suc s) b)
shift_zero s (tlet_untyped v b) = cc (shift_zero s v, shift_zero (suc s) b)
shift_zero s (theq a b) = cc (shift_zero s a, shift_zero s b)
shift_zero s _ = refl

-- Two shifts merge where the second starts inside the gap that the first one makes.
pub shift-shift :
    (s d s' d' : ℕ) (t : Term)
    → s ≤ s'
    → s' ≤ s + d
    → shift s' d' (shift s d t) ≡ shift s (d + d') t
unfolding shift
shift-shift s d s' d' (tvar i) p q = ground arith
shift-shift s d s' d' (tapp f a) p q = cc (shift-shift s d s' d' f p q, shift-shift s d s' d' a p q)
shift-shift s d s' d' (tpair a b t) p q =
    cc (shift-shift s d s' d' a p q, shift-shift s d s' d' b p q, shift-shift s d s' d' t p q)
shift-shift s d s' d' (tproj i e) p q = cc (shift-shift s d s' d' e p q)
shift-shift s d s' d' (tabs n t b) p q =
    cc
      (shift-shift s d s' d' t p q, shift-shift (suc s) d (suc s') d' b (omega arith) (omega arith))
shift-shift s d s' d' (tlet t v b) p q = cc (
  shift-shift s d s' d' t p q,
  shift-shift s d s' d' v p q,
  shift-shift (suc s) d (suc s') d' b (omega arith) (omega arith),
)
shift-shift s d s' d' (tlet_untyped v b) p q =
    cc
      (shift-shift s d s' d' v p q, shift-shift (suc s) d (suc s') d' b (omega arith) (omega arith))
shift-shift s d s' d' (theq a b) p q = cc (shift-shift s d s' d' a p q, shift-shift s d s' d' b p q)
shift-shift s d s' d' _ p q = refl

-- A substitution inside the gap that a shift makes only narrows the gap.
pub subst_term-shift :
    (s d k : ℕ) (v t : Term) → s ≤ k → k < s + d → subst_term k v (shift s d t) ≡ shift s (d - 1) t
unfolding shift subst_term
subst_term-shift s d k v (tvar i) p q = ground arith
subst_term-shift s d k v (tapp f a) p q =
    cc (subst_term-shift s d k v f p q, subst_term-shift s d k v a p q)
subst_term-shift s d k v (tpair a b t) p q =
    cc (
      subst_term-shift s d k v a p q,
      subst_term-shift s d k v b p q,
      subst_term-shift s d k v t p q,
    )
subst_term-shift s d k v (tproj i e) p q = cc (subst_term-shift s d k v e p q)
subst_term-shift s d k v (tabs n t b) p q = cc (
  subst_term-shift s d k v t p q,
  subst_term-shift (suc s) d (suc k) (shift 0 1 v) b (omega arith) (omega arith),
)
subst_term-shift s d k v (tlet t x b) p q = cc (
  subst_term-shift s d k v t p q,
  subst_term-shift s d k v x p q,
  subst_term-shift (suc s) d (suc k) (shift 0 1 v) b (omega arith) (omega arith),
)
subst_term-shift s d k v (tlet_untyped x b) p q = cc (
  subst_term-shift s d k v x p q,
  subst_term-shift (suc s) d (suc k) (shift 0 1 v) b (omega arith) (omega arith),
)
subst_term-shift s d k v (theq a b) p q =
    cc (subst_term-shift s d k v a p q, subst_term-shift s d k v b p q)
subst_term-shift s d k v _ p q = refl
