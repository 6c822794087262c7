-- ===== src/Kernel/Term/Scope.antt =====
-- Terms whose free variables lie below a bound.
use lean.Base.{arith, refl, suc, ℕ, ◌+◌, ◌≡◌, ◌≤◌}
use lean.Kernel.Term.{
  Term, tvar, tapp, tpair, tproj, tabs, tlet, tlet_untyped, theq, shift, subst_term, Below,
}

pub Below-mono : (j k : ℕ) (t : Term) → j ≤ k → Below j t → Below k t
Below-mono j k (tvar i) p h = omega arith
Below-mono j k (tapp f a) p h = (Below-mono j k f p h.0, Below-mono j k a p h.1)
Below-mono j k (tpair a b t) p h =
    (Below-mono j k a p h.0, Below-mono j k b p h.1, Below-mono j k t p h.2)
Below-mono j k (tproj i e) p h = Below-mono j k e p h
Below-mono j k (tabs n t b) p h =
    (Below-mono j k t p h.0, Below-mono (suc j) (suc k) b (omega arith) h.1)
Below-mono j k (tlet t v b) p h =
    (Below-mono j k t p h.0, Below-mono j k v p h.1, Below-mono (suc j) (suc k) b (omega arith) h.2)
Below-mono j k (tlet_untyped v b) p h =
    (Below-mono j k v p h.0, Below-mono (suc j) (suc k) b (omega arith) h.1)
Below-mono j k (theq a b) p h = (Below-mono j k a p h.0, Below-mono j k b p h.1)
Below-mono j k _ p h = tt

-- Shifting from a bound of the free variables on changes nothing.
pub shift-Below : (s d : ℕ) (t : Term) → Below s t → shift s d t ≡ t
unfolding shift
shift-Below s d (tvar i) h = ground arith
shift-Below s d (tapp f a) h = cc (shift-Below s d f h.0, shift-Below s d a h.1)
shift-Below s d (tpair a b t) h =
    cc (shift-Below s d a h.0, shift-Below s d b h.1, shift-Below s d t h.2)
shift-Below s d (tproj i e) h = cc (shift-Below s d e h)
shift-Below s d (tabs n t b) h = cc (shift-Below s d t h.0, shift-Below (suc s) d b h.1)
shift-Below s d (tlet t v b) h =
    cc (shift-Below s d t h.0, shift-Below s d v h.1, shift-Below (suc s) d b h.2)
shift-Below s d (tlet_untyped v b) h = cc (shift-Below s d v h.0, shift-Below (suc s) d b h.1)
shift-Below s d (theq a b) h = cc (shift-Below s d a h.0, shift-Below s d b h.1)
shift-Below s d _ h = refl

-- So does substituting there.
pub subst_term-Below : (k : ℕ) (v t : Term) → Below k t → subst_term k v t ≡ t
unfolding subst_term
subst_term-Below k v (tvar i) h = ground arith
subst_term-Below k v (tapp f a) h = cc (subst_term-Below k v f h.0, subst_term-Below k v a h.1)
subst_term-Below k v (tpair a b t) h =
    cc (subst_term-Below k v a h.0, subst_term-Below k v b h.1, subst_term-Below k v t h.2)
subst_term-Below k v (tproj i e) h = cc (subst_term-Below k v e h)
subst_term-Below k v (tabs n t b) h =
    cc (subst_term-Below k v t h.0, subst_term-Below (suc k) (shift 0 1 v) b h.1)
subst_term-Below k v (tlet t x b) h = cc (
  subst_term-Below k v t h.0,
  subst_term-Below k v x h.1,
  subst_term-Below (suc k) (shift 0 1 v) b h.2,
)
subst_term-Below k v (tlet_untyped x b) h =
    cc (subst_term-Below k v x h.0, subst_term-Below (suc k) (shift 0 1 v) b h.1)
subst_term-Below k v (theq a b) h = cc (subst_term-Below k v a h.0, subst_term-Below k v b h.1)
subst_term-Below k v _ h = refl

under : (b d : ℕ) (t : Term) → Below (suc b + d) t → Below (suc (b + d)) t
under b d t h = Below-mono (suc b + d) (suc (b + d)) t (omega arith) h

pub Below-shift : (b s d : ℕ) (t : Term) → Below b t → Below (b + d) (shift s d t)
unfolding shift
Below-shift b s d (tvar i) h = ground arith
Below-shift b s d (tapp f a) h = (Below-shift b s d f h.0, Below-shift b s d a h.1)
Below-shift b s d (tpair x y t) h =
    (Below-shift b s d x h.0, Below-shift b s d y h.1, Below-shift b s d t h.2)
Below-shift b s d (tproj i e) h = Below-shift b s d e h
Below-shift b s d (tabs n t e) h =
    (Below-shift b s d t h.0, under b d (shift (suc s) d e) (Below-shift (suc b) (suc s) d e h.1))
Below-shift b s d (tlet t v e) h = (
  Below-shift b s d t h.0,
  Below-shift b s d v h.1,
  under b d (shift (suc s) d e) (Below-shift (suc b) (suc s) d e h.2),
)
Below-shift b s d (tlet_untyped v e) h =
    (Below-shift b s d v h.0, under b d (shift (suc s) d e) (Below-shift (suc b) (suc s) d e h.1))
Below-shift b s d (theq x y) h = (Below-shift b s d x h.0, Below-shift b s d y h.1)
Below-shift b s d _ h = tt

raised : (b : ℕ) (v : Term) → Below b v → Below (suc b) (shift 0 1 v)
raised b v h = Below-mono (b + 1) (suc b) (shift 0 1 v) (omega arith) (Below-shift b 0 1 v h)

-- Substituting for a variable below the bound lowers the bound.
pub Below-subst_term :
    (b k : ℕ) (v t : Term) → k ≤ b → Below b v → Below (suc b) t → Below b (subst_term k v t)
unfolding subst_term
Below-subst_term b k v (tvar i) p hv h = ground arith
Below-subst_term b k v (tapp f a) p hv h =
    (Below-subst_term b k v f p hv h.0, Below-subst_term b k v a p hv h.1)
Below-subst_term b k v (tpair x y t) p hv h = (
  Below-subst_term b k v x p hv h.0,
  Below-subst_term b k v y p hv h.1,
  Below-subst_term b k v t p hv h.2,
)
Below-subst_term b k v (tproj i e) p hv h = Below-subst_term b k v e p hv h
Below-subst_term b k v (tabs n t e) p hv h = (
  Below-subst_term b k v t p hv h.0,
  Below-subst_term (suc b) (suc k) (shift 0 1 v) e (omega arith) (raised b v hv) h.1,
)
Below-subst_term b k v (tlet t x e) p hv h = (
  Below-subst_term b k v t p hv h.0,
  Below-subst_term b k v x p hv h.1,
  Below-subst_term (suc b) (suc k) (shift 0 1 v) e (omega arith) (raised b v hv) h.2,
)
Below-subst_term b k v (tlet_untyped x e) p hv h = (
  Below-subst_term b k v x p hv h.0,
  Below-subst_term (suc b) (suc k) (shift 0 1 v) e (omega arith) (raised b v hv) h.1,
)
Below-subst_term b k v (theq x y) p hv h =
    (Below-subst_term b k v x p hv h.0, Below-subst_term b k v y p hv h.1)
Below-subst_term b k v _ p hv h = tt
