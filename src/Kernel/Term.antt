-- ===== src/Kernel/Term.antt =====
-- The abstract view of an expression: a lambda term with de Bruijn indices, in unbounded numbers.
-- It forgets the names of binders, the types cached in constants and how applications are grouped
-- into arrays, as the structural equality of kernel/expr_eq.h does; it has no metavariables.
pub mod Laws
pub mod Gaps
pub mod Scope
pub mod Abstract
use lean.Base.{Bool, if◌then◌else◌, leb, ltb, suc, ℕ, ◌+◌, ◌-◌, ◌<◌, ◌==◌}
use lean.Util.Name.{Name}
use lean.Kernel.Level.{Level}
use lean.Kernel.Expr.{Binder}

pub data Term : Type 0 where
  tvar : ℕ → Term
  tconst : Name → Term
  tvalue : ℕ → Term
  tapp : Term → Term → Term
  tpair : Term → Term → Term → Term
  tproj : Bool → Term → Term
  tabs : Binder → Term → Term → Term
  ttype : Level → Term
  tlet : Term → Term → Term → Term
  tlet_untyped : Term → Term → Term
  theq : Term → Term → Term

-- Add `d` to the free variables from `s` on.
unfoldable pub shift : ℕ → ℕ → Term → Term
shift s d (tvar i) = if leb s i then tvar (i + d) else tvar i
shift s d (tconst n) = tconst n
shift s d (tvalue v) = tvalue v
shift s d (tapp f a) = tapp (shift s d f) (shift s d a)
shift s d (tpair a b t) = tpair (shift s d a) (shift s d b) (shift s d t)
shift s d (tproj i e) = tproj i (shift s d e)
shift s d (tabs k t b) = tabs k (shift s d t) (shift (suc s) d b)
shift s d (ttype l) = ttype l
shift s d (tlet t v b) = tlet (shift s d t) (shift s d v) (shift (suc s) d b)
shift s d (tlet_untyped v b) = tlet_untyped (shift s d v) (shift (suc s) d b)
shift s d (theq a b) = theq (shift s d a) (shift s d b)

-- Put `v` for the free variable `k` and close the gap; `v` is read outside of the term's variable `k`.
unfoldable pub subst_term : ℕ → Term → Term → Term
unfolding shift
subst_term k v (tvar i) = if i == k then v else if ltb k i then tvar (i - 1) else tvar i
subst_term k v (tconst n) = tconst n
subst_term k v (tvalue x) = tvalue x
subst_term k v (tapp f a) = tapp (subst_term k v f) (subst_term k v a)
subst_term k v (tpair a b t) = tpair (subst_term k v a) (subst_term k v b) (subst_term k v t)
subst_term k v (tproj i e) = tproj i (subst_term k v e)
subst_term k v (tabs n t b) = tabs n (subst_term k v t) (subst_term (suc k) (shift 0 1 v) b)
subst_term k v (ttype l) = ttype l
subst_term k v (tlet t x b) =
    tlet (subst_term k v t) (subst_term k v x) (subst_term (suc k) (shift 0 1 v) b)
subst_term k v (tlet_untyped x b) =
    tlet_untyped (subst_term k v x) (subst_term (suc k) (shift 0 1 v) b)
subst_term k v (theq a b) = theq (subst_term k v a) (subst_term k v b)

-- Every free variable is below `k`.
abbrev pub Below : ℕ → Term → Type 0
Below k (tvar i) = i < k
Below k (tconst n) = Unit
Below k (tvalue v) = Unit
Below k (tapp f a) = Below k f × Below k a
Below k (tpair a b t) = Below k a × Below k b × Below k t
Below k (tproj i e) = Below k e
Below k (tabs n t b) = Below k t × Below (suc k) b
Below k (ttype l) = Unit
Below k (tlet t v b) = Below k t × Below k v × Below (suc k) b
Below k (tlet_untyped v b) = Below k v × Below (suc k) b
Below k (theq a b) = Below k a × Below k b
