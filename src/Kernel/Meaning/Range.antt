-- ===== src/Kernel/Meaning/Range.antt =====
-- kernel/free_vars.cpp: `free_var_range`, on terms.
use lean.Base.{
  Bool-cases, add32, add32_small, if◌then◌else◌, inl, inr, ltb, ltb_false→le, ◌+◌, arith, max, some,
  suc, ℕ, ◌<◌,
}
use lean.Kernel.Expr.{
  Expr, Exprs, OptExpr, LocalContext, var, constant, value, app, pair, proj, abstraction, type,
  let_in, heq, metavar, nil, cons, absent, present, empty, lift_entry, inst_entry,
}
use lean.Kernel.FreeVars.{
  has_free_vars, dec, range, range_args, range_opt, range_context, free_var_range,
}
use lean.Kernel.Term.{Term, tapp, shift, subst_term, Below}
use lean.Kernel.Term.Scope.{
  Below-mono, Below-shift, shift-Below, subst_term-Below, Below-subst_term,
}
use lean.Kernel.Meaning.{Assignment, meaning, spine, meaning_let, meaning_context}
use lean.Kernel.Meaning.Closed.{closed-Below}
use lean.Kernel.Meaning.Room.{Room, RoomArgs, RoomOpt, RoomContext, Room-mono}
use lean.Util.Name.{Name}

lifted :
    (s k r : ℕ) (t : Term)
    → r + k < 4294967296
    → Below r t
    → Below (if ltb s r then add32 r k else r) (shift s k t)
lifted s k r t w b = elim (Bool-cases (ltb s r)) [
  | inl h ↦ rw (h, add32_small r k w) (Below-shift r s k t b)
  | inr h ↦ rw (h, shift-Below s k t (Below-mono r s t (ltb_false→le s r h) b)) b
]

instantiated :
    (s r rv : ℕ) (v t : Term)
    → Below rv v
    → Below r t
    → Below (if ltb s r then max (dec r) rv else r) (subst_term s v t)
instantiated s r rv v t bv b = elim (Bool-cases (ltb s r)) [
  | inl h ↦ rw h (
      Below-subst_term (max (dec r) rv) s v t (ground arith) (Below-mono rv _ v (omega arith) bv)
        (Below-mono r (suc (max (dec r) rv)) t (ground arith) b))
  | inr h ↦ rw (h, subst_term-Below s v t (Below-mono r s t (ltb_false→le s r h) b)) b
]

module _ (size : Name → ℕ) (σ : Assignment) (fits : (n : Name) → Below (size n) (σ n)) where
  mutual
    unfolding range meaning

    bounded :
        (e : Expr) (m : ℕ)
        → 0 < m
        → Room (some size) e m
        → Below (range (some size) e) (meaning σ e)
    bounded (var i) m p r = omega arith
    bounded (constant n t) m p r = tt
    bounded (value v) m p r = tt
    bounded (app f xs) m p r =
        bounded_args xs m (meaning σ f) (range (some size) f) p r.1 (bounded f m p r.0)
    bounded (pair a b t) m p r = (
      Below-mono _ _ (meaning σ a) (omega arith) (bounded a m p r.0),
      Below-mono _ _ (meaning σ b) (omega arith) (bounded b m p r.1),
      Below-mono _ _ (meaning σ t) (omega arith) (bounded t m p r.2),
    )
    bounded (proj i e) m p r = bounded e m p r
    bounded (abstraction k n t b) m p r = (
      Below-mono _ _ (meaning σ t) (omega arith) (bounded t m p r.1),
      Below-mono _ _ (meaning σ b) (ground arith) (bounded b (suc m) (omega arith) r.2),
    )
    bounded (type l) m p r = tt
    bounded (let_in n t v b) m p r =
        bounded_let t m (meaning σ v) (meaning σ b) (range (some size) v) (range (some size) b) p
          r.1 (bounded v m p r.2) (bounded b (suc m) (omega arith) r.3)
    bounded (heq a b) m p r = (
      Below-mono _ _ (meaning σ a) (omega arith) (bounded a m p r.0),
      Below-mono _ _ (meaning σ b) (omega arith) (bounded b m p r.1),
    )
    bounded (metavar n c) m p r = bounded_context n c m r.1

    bounded_args :
        (xs : Exprs) (m : ℕ) (f : Term) (k : ℕ)
        → 0 < m
        → RoomArgs (some size) xs m
        → Below k f
        → Below (max k (range_args (some size) xs)) (spine σ f xs)
    bounded_args nil m f k p r b = Below-mono k _ f (omega arith) b
    bounded_args (cons e es) m f k p r b =
        let ke = range (some size) e in
        Below-mono (max (max k ke) (range_args (some size) es))
          (max k (max ke (range_args (some size) es))) (spine σ (tapp f (meaning σ e)) es)
          (omega arith)
          (bounded_args es m (tapp f (meaning σ e)) (max k ke) p r.1 (
            Below-mono k (max k ke) f (omega arith) b,
            Below-mono ke (max k ke) (meaning σ e) (omega arith) (bounded e m p r.0),
          ))

    bounded_let :
        (t : OptExpr) (m : ℕ) (v b : Term) (j k : ℕ)
        → 0 < m
        → RoomOpt (some size) t m
        → Below j v
        → Below k b
        → Below (max (max (range_opt (some size) t) j) (dec k)) (meaning_let σ t v b)
    bounded_let absent m v b j k p r hv hb =
        (Below-mono j _ v (omega arith) hv, Below-mono k _ b (ground arith) hb)
    bounded_let (present t) m v b j k p r hv hb = (
      Below-mono _ _ (meaning σ t) (omega arith) (bounded t m p r),
      Below-mono j _ v (omega arith) hv,
      Below-mono k _ b (ground arith) hb,
    )

    bounded_context :
        (n : Name) (c : LocalContext) (m : ℕ)
        → RoomContext (some size) n c m
        → Below (range_context (some size) n c) (meaning_context σ c (σ n))
    bounded_context n empty m r = fits n
    bounded_context n (lift_entry s k c) m r =
        lifted s k (range_context (some size) n c) (meaning_context σ c (σ n)) r.2
          (bounded_context n c (k + m) r.3)
    bounded_context n (inst_entry s v c) m r =
        instantiated s (range_context (some size) n c) (range (some size) v) (meaning σ v)
          (meaning_context σ c (σ n)) (bounded v 1 (omega arith) r.1) (bounded_context n c m r.2)

  -- Where the context sizes bound the free variables of what the metavariables stand for,
  -- `free_var_range` bounds those of the whole expression, if its indices have room for one more.
  pub free_var_range-Below :
      (e : Expr) → Room (some size) e 1 → Below (free_var_range (some size) e) (meaning σ e)
  unfolding free_var_range
  free_var_range-Below e r = elim (Bool-cases (has_free_vars e)) [
    | inl h ↦ rw h (bounded e 1 (omega arith) r)
    | inr h ↦ rw h (closed-Below (some size) σ e (Room-mono (some size) e 0 1 (omega arith) r) h)
  ]
