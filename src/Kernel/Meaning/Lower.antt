-- ===== src/Kernel/Meaning/Lower.antt =====
-- kernel/free_vars.cpp: `lower_free_vars`, on terms.
use lean.Base.{
  ==_iff, Bool-cases, inl, inr, ◌==◌, subst, add32, ap, or_false, refl, suc, ◌∙◌, add32_small,
  arith, leb, ltb, none, some, false, ℕ, ◌+◌, ◌-◌, ◌<◌, ◌≡◌, ◌≤◌,
}
use lean.Kernel.Expr.{
  Expr, Exprs, OptExpr, constant, value, app, pair, proj, abstraction, type, let_in, heq, nil, cons,
  absent, present, LocalContext, var, metavar, Expr,
}
use lean.Kernel.FreeVars.{
  in_range_args, in_range_opt, MenvSizes, free_var_range, range_context, in_range, ge_lower,
  has_free_vars_core, lt_upper, range, has_free_var, has_free_vars,
}
use lean.Kernel.FreeVars.Lift.{lower_step, lower_free_vars}
use lean.Kernel.Replace.{replace_args, replace_opt, replace}
use lean.Kernel.Term.{tapp, Term, tvar, shift, Below}
use lean.Kernel.Term.Scope.{shift-Below, Below-mono}
use lean.Kernel.Meaning.{meaning-mk_app, meaning_let, spine, Assignment, meaning, meaning_context}
use lean.Kernel.Meaning.Closed.{closed-Below}
use lean.Kernel.Meaning.Room.{Room-mono, Room, RoomArgs, RoomOpt, RoomContext, RoomContext-mono}
use lean.Kernel.Term.Laws.{shift_zero}
use lean.Kernel.Meaning.Lift.{Knows}
use lean.Kernel.Meaning.Range.{free_var_range-Below}
use lean.Util.Name.{Name}

lower_small : (low i o : ℕ) → low + o < 4294967296 → ge_lower low i o ≡ leb (low + o) i
lower_small low i o w = ground (arith, add32_small low o w)

upper_small : (high i o : ℕ) → high + o < 4294967296 → lt_upper high i o ≡ ltb i (high + o)
upper_small high i o w = ground (arith, add32_small high o w)

-- A metavariable without variables in the range has all of them below it.
metavar-Below :
    (menv : MenvSizes) (σ : Assignment) (n : Name) (c : LocalContext) (low high o : ℕ)
    → Knows menv σ
    → low + o < 4294967296
    → RoomContext menv n c 1
    → in_range menv low high (metavar n c) o ≡ false
    → Below (low + o) (meaning_context σ c (σ n))
unfolding in_range free_var_range has_free_vars_core range meaning
metavar-Below none σ n c low high o k w r h = cc
metavar-Below (some size) σ n c low high o k w r h =
    Below-mono (range_context (some size) n c) (low + o) (meaning_context σ c (σ n))
      (ground (arith, h, lower_small low (range_context (some size) n c - 1) o w))
      (free_var_range-Below size σ k (metavar n c) (omega arith, r))

module _ (menv : MenvSizes) (σ : Assignment) (k : Knows menv σ) (s d : ℕ) (z : 0 < d)
    (le : d ≤ s) where
  -- Lowering below `o` binders is undone by a shift.
  abbrev RaisesTo : Term → Term → ℕ → Type 0
  RaisesTo t' t o = shift (s - d + o) d t' ≡ t

  lowered_var :
      (i o : ℕ)
      → i + (s + o) < 4294967296
      → in_range menv (s - d) s (var i) o ≡ false
      → RaisesTo (meaning σ (replace (lower_step s d) (var i) o)) (tvar i) o
  unfolding in_range replace lower_step meaning shift
  lowered_var i o r h = ground (
    arith,
    add32_small s o (omega arith),
    h,
    lower_small (s - d) i o (omega arith),
    upper_small s i o (omega arith),
  )

  lowered_metavar :
      (n : Name) (c : LocalContext) (o : ℕ)
      → s + o < 4294967296
      → RoomContext menv n c (s + o)
      → in_range menv (s - d) s (metavar n c) o ≡ false
      → RaisesTo (meaning_context σ c (σ n)) (meaning_context σ c (σ n)) o
  lowered_metavar n c o w r h = shift-Below (s - d + o) d (meaning_context σ c (σ n)) (
      metavar-Below menv σ n c (s - d) s o k (omega arith)
        (RoomContext-mono menv n c 1 (s + o) (omega arith) r) h)

  lowered_body :
      (b : Expr) (o : ℕ)
      → (Room menv b (s + suc o)
          → in_range menv (s - d) s b (suc o) ≡ false
          → RaisesTo (meaning σ (replace (lower_step s d) b (suc o))) (meaning σ b) (suc o))
      → suc (s + o) < 4294967296
      → Room menv b (suc (s + o))
      → in_range menv (s - d) s b (add32 o 1) ≡ false
      → shift (suc (s - d + o)) d (meaning σ (replace (lower_step s d) b (add32 o 1))) ≡ meaning σ b
  lowered_body b o below w r h =
      let next : add32 o 1 ≡ suc o = omega arith in
      let room : suc (s + o) ≡ s + suc o = omega arith in
      let low : suc (s - d + o) ≡ s - d + suc o = omega arith in
      rw (next, low)
        (below (subst (Room menv b) room r)
          (subst (λ i. in_range menv (s - d) s b i ≡ false) next h))

  mutual
    unfolding in_range replace lower_step meaning shift

    lowered :
        (e : Expr) (o : ℕ)
        → Room menv e (s + o)
        → in_range menv (s - d) s e o ≡ false
        → RaisesTo (meaning σ (replace (lower_step s d) e o)) (meaning σ e) o
    lowered (var i) o r h = lowered_var i o r h
    lowered (metavar n c) o r h = lowered_metavar n c o r.0 r.1 h
    lowered (constant n t) o r h = refl
    lowered (value v) o r h = refl
    lowered (type l) o r h = refl
    lowered (app g xs) o r h =
        let (hg, hx) = or_false _ _ h in
        let g' = replace (lower_step s d) g o in
        ap (shift (s - d + o) d) (meaning-mk_app σ g' (replace_args (lower_step s d) xs o))
        ∙ lowered_args xs o (meaning σ g) (meaning σ g') (lowered g o r.0 hg) r.1 hx
    lowered (pair a b t) o r h =
        let (hab, ht) = or_false _ _ h in
        let (ha, hb) = or_false _ _ hab in
        cc (lowered a o r.0 ha, lowered b o r.1 hb, lowered t o r.2 ht)
    lowered (proj i e) o r h = cc (lowered e o r h)
    lowered (abstraction k n t b) o r h =
        let (ht, hb) = or_false _ _ h in
        cc (lowered t o r.1 ht, lowered_body b o (lowered b (suc o)) r.0 r.2 hb)
    lowered (let_in n t v b) o r h =
        let (htv, hb) = or_false _ _ h in
        let (ht, hv) = or_false _ _ htv in
        lowered_let t o (meaning σ v) _ (meaning σ b) _ (lowered v o r.2 hv)
          (lowered_body b o (lowered b (suc o)) r.0 r.3 hb) r.1 ht
    lowered (heq a b) o r h =
        let (ha, hb) = or_false _ _ h in cc (lowered a o r.0 ha, lowered b o r.1 hb)

    lowered_args :
        (xs : Exprs) (o : ℕ) (t t' : Term)
        → RaisesTo t' t o
        → RoomArgs menv xs (s + o)
        → in_range_args menv (s - d) s xs o ≡ false
        → RaisesTo (spine σ t' (replace_args (lower_step s d) xs o)) (spine σ t xs) o
    lowered_args nil o t t' e r h = e
    lowered_args (cons x xs) o t t' e r h =
        let (hx, hs) = or_false _ _ h in
        lowered_args xs o (tapp t (meaning σ x))
          (tapp t' (meaning σ (replace (lower_step s d) x o))) (cc (e, lowered x o r.0 hx)) r.1 hs

    lowered_let :
        (t : OptExpr) (o : ℕ) (v v' b b' : Term)
        → RaisesTo v' v o
        → shift (suc (s - d + o)) d b' ≡ b
        → RoomOpt menv t (s + o)
        → in_range_opt menv (s - d) s t o ≡ false
        → RaisesTo (meaning_let σ (replace_opt (lower_step s d) t o) v' b') (meaning_let σ t v b) o
    lowered_let absent o v v' b b' p q r h = cc (p, q)
    lowered_let (present t) o v v' b b' p q r h = cc (lowered t o r h, p, q)

-- Where `has_free_var` finds no free variable of `e` in the range from `s - d` up to `s`,
-- `lower_free_vars(e, s, d)` stands for the term that gives back the term of `e` when its free
-- variables from `s - d` on are raised by `d`, for `d` at most `s`, whatever the metavariables stand
-- for within the sizes that `menv` knows, where the indices of `e` have room for `s`.
pub shift-lower_free_vars :
    (menv : MenvSizes) (σ : Assignment) (s d : ℕ) (e : Expr)
    → Knows menv σ
    → d ≤ s
    → Room menv e s
    → has_free_var menv (s - d) s e ≡ false
    → shift (s - d) d (meaning σ (lower_free_vars s d e)) ≡ meaning σ e
unfolding lower_free_vars has_free_var
shift-lower_free_vars menv σ s d e k le r h = elim (Bool-cases (d == 0)) [
  | inl z ↦ rw z (
      ap (λ i. shift (s - d) i (meaning σ e)) ((==_iff d 0).0 z) ∙ shift_zero (s - d) (meaning σ e))
  | inr z ↦ elim (Bool-cases (has_free_vars e)) [
    | inr c ↦
        rw (z, c)
          (shift-Below (s - d) d (meaning σ e) (
            Below-mono 0 (s - d) (meaning σ e) (omega arith)
              (closed-Below menv σ e (Room-mono menv e 0 s (omega arith) r) c)))
    | inl c ↦
        let p : in_range menv (s - d) s e 0 ≡ false = ground (arith, c, h, z) in
        rw (z, c)
          (subst (λ i. shift i d (meaning σ (replace (lower_step s d) e 0)) ≡ meaning σ e)
            (omega arith)
            (lowered menv σ k s d (ground (arith, z)) le e 0 (subst (Room menv e) (omega arith) r)
              p))
  ]
]
