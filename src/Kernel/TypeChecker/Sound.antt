-- ===== src/Kernel/TypeChecker/Sound.antt =====
-- kernel/type_checker.cpp: what `infer_type_core` accepts without `m_infer_only` has the type that it
-- answers.
use lean.Base.{
  Bool, if◌then◌else◌, suc, zero, ◌+◌, Bool-cases, false, inl, inr, ℕ, ◌∙◌, >>=-eq-some, ap, arith,
  refl, some, subst, sym, true, ◌≡◌,
}
use lean.Kernel.Conversion.{
  RoEnvironment, is_pi, is_sigma, check_sort, check_pi, require, abst_body, check_sigma,
  abst_domain,
}
use lean.Kernel.Conversion.Relation.{Converts, require-Converts, expose-Converts}
use lean.Kernel.Context.{Context, ContextEntry, lookup, lookup_ext}
use lean.Kernel.Expr.{
  Expr, Exprs, constant, type, absent, pi, sigma, OptExpr, pair, present, var, proj, app, lambda,
  metavar, let_in, value, heq,
}
use lean.Kernel.TypeChecker.{
  Checker, types_of, check_domain, check_pair, extend, type_of_constant, type_of_body, type_of_var,
  instantiate_one, infer_step, infer_to, let_type_of, range_at, extend_let, plus,
}
use lean.Kernel.TypeChecker.Typing.{HasType, IsSort}
use lean.Util.Name.{Name}
use mathlib.Core.Option.{some-injective}
use lean.Kernel.TypeChecker.Entry.{
  nothing, check, check_type, infer_type_core, reach, reach_context,
}
use lean.Kernel.TypeChecker.Arguments.{as_pi, as_sigma, check_sort-HasType, check_args-HasSpine}
use lean.Kernel.TypeChecker.Sorts.{sort_of-pi, sort_of-sigma}

module _ (env : RoEnvironment) (rec : Checker)
    (sound : (e : Expr) (ctx : Context) (t : Expr) → rec e ctx ≡ some t → HasType env ctx e t) where
  type_of_body-HasType :
      (o : OptExpr) (e : ContextEntry) (rest ctx : Context) (i : ℕ) {t : Expr}
      → lookup_ext ctx i ≡ some (e, rest)
      → e.body ≡ o
      → type_of_body rec o rest i ≡ some t
      → HasType env ctx (var i) t
  type_of_body-HasType absent e rest ctx i l b h = absurd (ground arith)
  type_of_body-HasType (present v) e rest ctx i l b h =
      let (s, es, g) = >>=-eq-some (rec v rest) _ h in
      subst (HasType env ctx (var i)) (some-injective _ _ g)
        (HasType.defined l b (sound v rest s es))

  type_of_var-HasType :
      (o : OptExpr) (e : ContextEntry) (ctx : Context) (i : ℕ) {t : Expr}
      → lookup ctx i ≡ some e
      → e.domain ≡ o
      → type_of_var rec o ctx i ≡ some t
      → HasType env ctx (var i) t
  type_of_var-HasType (present d) e ctx i l b h =
      subst (HasType env ctx (var i)) (some-injective _ _ h) (HasType.var l b)
  type_of_var-HasType absent e ctx i l b h =
      let (p, ep, g) = >>=-eq-some (lookup_ext ctx i) _ h in
      type_of_body-HasType p.0.body p.0 p.1 ctx i ep refl g

  type_of_constant-HasType :
      (n : Name) (o : OptExpr) (ctx : Context) {t : Expr}
      → type_of_constant env n o ≡ some t
      → HasType env ctx (constant n o) t
  type_of_constant-HasType n (present s) ctx h =
      subst (HasType env ctx (constant n (present s))) (some-injective _ _ h) HasType.cached
  type_of_constant-HasType n absent ctx h = HasType.declared h

  check_pair-HasType :
      (a b t : Expr) (ctx : Context) {r : Expr}
      → check_pair env rec a b t ctx ≡ some r
      → HasType env ctx (pair a b t) r
  unfolding check_pair
  check_pair-HasType a b t ctx h =
      let (sig, e0, h0) = >>=-eq-some (check_sigma env t ctx) _ h in
      let (f_t, e1, h1) = >>=-eq-some (rec a ctx) _ h0 in
      let (s_t, e2, h2) = >>=-eq-some (rec b ctx) _ h1 in
      let (u, e3, h3) = >>=-eq-some (require env f_t (abst_domain sig) ctx sig) _ h2 in
      let (c0, p) = expose-Converts env is_sigma t ctx e0 in
      let (n, d, r, es) = as_sigma sig p in
      let (c1, _) = require-Converts env f_t (abst_domain sig) ctx sig e3 in
      let (c2, q) = require-Converts env s_t (instantiate_one (abst_body sig) a) ctx sig h3 in
      subst (HasType env ctx (pair a b t)) (sym es ∙ q) (
        HasType.pair (subst (Converts env ctx t) es c0)
          (HasType.converted (sound a ctx f_t e1)
            (subst (λ z. Converts env ctx f_t (abst_domain z)) es c1))
          (HasType.converted (sound b ctx s_t e2)
            (subst (λ z. Converts env ctx s_t (instantiate_one (abst_body z) a)) es c2)))

  check_domain-HasType :
      (d : Expr) (ctx : Context) {r : Expr}
      → check_domain env false rec d ctx ≡ some r
      → (s : Expr) × HasType env ctx d s × IsSort s
  unfolding check_domain
  check_domain-HasType d ctx h =
      let (t, e, g) = >>=-eq-some (rec d ctx) _ h in
      let (s, e2, k) = >>=-eq-some (check_sort env t ctx) _ g in
      let (ht, is) = check_sort-HasType env ctx (sound d ctx t e) e2 in (s, ht, is)

  infer_step-app :
      (f : Expr) (xs : Exprs) (ctx : Context) {r : Expr}
      → infer_step env false rec (app f xs) ctx ≡ some r
      → HasType env ctx (app f xs) r
  unfolding infer_step
  infer_step-app f xs ctx h =
      let (t, e0, h0) = >>=-eq-some (rec f ctx) _ h in
      let (ts, e1, h1) = >>=-eq-some (types_of rec xs ctx) _ h0 in
      let (f_t, e2, h2) = >>=-eq-some (check_pi env t ctx) _ h1 in
      let (conv, p) = expose-Converts env is_pi t ctx e2 in
      let (n, d, b, ep) = as_pi f_t p in
      HasType.app (HasType.converted (sound f ctx t e0) (subst (Converts env ctx t) ep conv))
        (check_args-HasSpine env rec sound n d b xs ts ctx e1 (rw ep at h2))

  projected :
      {ctx : Context} {n : Name} {a d b : Expr} (first : Bool)
      → HasType env ctx a (sigma n d b)
      → HasType env ctx (proj first a) (if first then d else range_at b (proj true a))
  projected true h = HasType.first h
  projected false h = HasType.second h

  infer_step-proj :
      (first : Bool) (a : Expr) (ctx : Context) {r : Expr}
      → infer_step env false rec (proj first a) ctx ≡ some r
      → HasType env ctx (proj first a) r
  unfolding infer_step
  infer_step-proj first a ctx {r} h =
      let (t, e0, h0) = >>=-eq-some (rec a ctx) _ h in
      let (sig, e1, h1) = >>=-eq-some (check_sigma env t ctx) _ h0 in
      let (conv, p) = expose-Converts env is_sigma t ctx e1 in
      let (n, d, b, ep) = as_sigma sig p in
      let typed = HasType.converted (sound a ctx t e0) (subst (Converts env ctx t) ep conv) in
      subst (HasType env ctx (proj first a)) (some-injective _ _ h1) (
        subst
          (λ z.
            HasType env ctx (proj first a)
              (if first then abst_domain z else range_at (abst_body z) (proj true a)))
          (sym ep) (projected first typed))

  infer_step-lambda :
      (n : Name) (d b : Expr) (ctx : Context) {r : Expr}
      → infer_step env false rec (lambda n d b) ctx ≡ some r
      → HasType env ctx (lambda n d b) r
  unfolding infer_step
  infer_step-lambda n d b ctx h =
      let (u, e0, h0) = >>=-eq-some (check_domain env false rec d ctx) _ h in
      let (t, e1, h1) = >>=-eq-some (rec b (extend ctx n d)) _ h0 in
      let (s, hs, is) = check_domain-HasType d ctx e0 in
      subst (HasType env ctx (lambda n d b)) (some-injective _ _ h1)
        (HasType.lambda hs is (sound b (extend ctx n d) t e1))

  infer_step-pi :
      (n : Name) (d b : Expr) (ctx : Context) {r : Expr}
      → infer_step env false rec (pi n d b) ctx ≡ some r
      → HasType env ctx (pi n d b) r
  unfolding infer_step
  infer_step-pi n d b ctx h =
      let (t1, e0, h0) = >>=-eq-some (rec d ctx) _ h in
      let (s1, e1, h1) = >>=-eq-some (check_sort env t1 ctx) _ h0 in
      let (t2, e2, h2) = >>=-eq-some (rec b (extend ctx n d)) _ h1 in
      let (s2, e3, h3) = >>=-eq-some (check_sort env t2 (extend ctx n d)) _ h2 in
      let (hd, id) = check_sort-HasType env ctx (sound d ctx t1 e0) e1 in
      let (hb, _) = check_sort-HasType env (extend ctx n d) (sound b (extend ctx n d) t2 e2) e3 in
      sort_of-pi env n d b ctx s1 s2 hd id hb h3

  infer_step-sigma :
      (n : Name) (d b : Expr) (ctx : Context) {r : Expr}
      → infer_step env false rec (sigma n d b) ctx ≡ some r
      → HasType env ctx (sigma n d b) r
  unfolding infer_step
  infer_step-sigma n d b ctx h =
      let (t1, e0, h0) = >>=-eq-some (rec d ctx) _ h in
      let (s1, e1, h1) = >>=-eq-some (check_sort env t1 ctx) _ h0 in
      let (t2, e2, h2) = >>=-eq-some (rec b (extend ctx n d)) _ h1 in
      let (s2, e3, h3) = >>=-eq-some (check_sort env t2 (extend ctx n d)) _ h2 in
      let (hd, id) = check_sort-HasType env ctx (sound d ctx t1 e0) e1 in
      let (hb, _) = check_sort-HasType env (extend ctx n d) (sound b (extend ctx n d) t2 e2) e3 in
      sort_of-sigma env n d b ctx s1 s2 hd hb h3

  infer_step-let :
      (n : Name) (o : OptExpr) (v b : Expr) (ctx : Context) {r : Expr}
      → infer_step env false rec (let_in n o v b) ctx ≡ some r
      → HasType env ctx (let_in n o v b) r
  unfolding infer_step let_type_of
  infer_step-let n (present t) v b ctx h =
      let (lt, e0, h0) = >>=-eq-some (let_type_of env false rec (present t) v ctx) _ h in
      let (r, e1, h1) = >>=-eq-some (rec b (extend_let ctx n lt v)) _ h0 in
      let (vt, f0, g0) = >>=-eq-some (rec v ctx) _ e0 in
      let (ty, f1, g1) = >>=-eq-some (rec t ctx) _ g0 in
      let (s, f2, g2) = >>=-eq-some (check_sort env ty ctx) _ g1 in
      let (u, f3, g3) = >>=-eq-some (require env vt t ctx t) _ g2 in
      let (ht, is) = check_sort-HasType env ctx (sound t ctx ty f1) f2 in
      let (conv, q) = require-Converts env vt t ctx t f3 in
      let same_lt = ap present q ∙ some-injective _ _ g3 in
      subst (HasType env ctx (let_in n (present t) v b)) (some-injective _ _ h1) (
        HasType.let_typed ht is (HasType.converted (sound v ctx vt f0) conv) (
          subst (λ z. HasType env (extend_let ctx n z v) b r) (sym same_lt)
            (sound b (extend_let ctx n lt v) r e1)))
  infer_step-let n absent v b ctx h =
      let (lt, e0, h0) = >>=-eq-some (let_type_of env false rec absent v ctx) _ h in
      let (r, e1, h1) = >>=-eq-some (rec b (extend_let ctx n lt v)) _ h0 in
      let (vt, f0, g0) = >>=-eq-some (rec v ctx) _ e0 in
      subst (HasType env ctx (let_in n absent v b)) (some-injective _ _ h1) (
        HasType.let_untyped (sound v ctx vt f0) (
          subst (λ z. HasType env (extend_let ctx n z v) b r) (sym (some-injective _ _ g0))
            (sound b (extend_let ctx n lt v) r e1)))

  infer_step-HasType :
      (e : Expr) (ctx : Context) (t : Expr)
      → infer_step env false rec e ctx ≡ some t
      → HasType env ctx e t
  unfolding infer_step
  infer_step-HasType (metavar n c) ctx t h = absurd (ground arith)
  infer_step-HasType (constant n o) ctx t h = type_of_constant-HasType n o ctx h
  infer_step-HasType (var i) ctx t h =
      let (e, l, g) = >>=-eq-some (lookup ctx i) _ h in
      type_of_var-HasType e.domain e ctx i l refl g
  infer_step-HasType (value v) ctx t h = elim (Bool-cases (env.is_registered v)) [
    | inl y ↦ subst (HasType env ctx (value v)) (some-injective _ _ (rw y at h)) (HasType.value y)
    | inr n ↦ absurd (ground (arith, h, n))
  ]
  infer_step-HasType (type l) ctx t h =
      let (m, e, g) = >>=-eq-some (plus l 1) _ h in
      subst (HasType env ctx (type l)) (some-injective _ _ g) (HasType.type e)
  infer_step-HasType (heq a b) ctx t h =
      let (u, e0, h0) = >>=-eq-some (rec a ctx) _ h in
      let (v, e1, h1) = >>=-eq-some (rec b ctx) _ h0 in
      subst (HasType env ctx (heq a b)) (some-injective _ _ h1)
        (HasType.heq (sound a ctx u e0) (sound b ctx v e1))
  infer_step-HasType (app f xs) ctx t h = infer_step-app f xs ctx h
  infer_step-HasType (pair a b s) ctx t h = check_pair-HasType a b s ctx h
  infer_step-HasType (proj first a) ctx t h = infer_step-proj first a ctx h
  infer_step-HasType (lambda n d b) ctx t h = infer_step-lambda n d b ctx h
  infer_step-HasType (pi n d b) ctx t h = infer_step-pi n d b ctx h
  infer_step-HasType (sigma n d b) ctx t h = infer_step-sigma n d b ctx h
  infer_step-HasType (let_in n o v b) ctx t h = infer_step-let n o v b ctx h

infer_to-HasType :
    (env : RoEnvironment) (n : ℕ) (e : Expr) (ctx : Context) (t : Expr)
    → infer_to env false nothing n e ctx ≡ some t
    → HasType env ctx e t
unfolding infer_to
infer_to-HasType env zero e ctx t h = absurd (ground arith)
infer_to-HasType env (suc n) e ctx t h =
    infer_step-HasType env (infer_to env false nothing n) (infer_to-HasType env n) e ctx t h

pub check-HasType :
    (env : RoEnvironment) (e : Expr) (ctx : Context) (t : Expr)
    → check env e ctx ≡ some t
    → HasType env ctx e t
unfolding check
check-HasType env e ctx t h = infer_to-HasType env (reach e + reach_context ctx) e ctx t h

-- Where `check_type(e, ctx)` does not throw, the expression has a sort by the typing rules.
pub check_type-HasType :
    (env : RoEnvironment) (e : Expr) (ctx : Context) (s : Expr)
    → check_type env e ctx ≡ some s
    → HasType env ctx e s × IsSort s
unfolding check_type
check_type-HasType env e ctx s h =
    let (t, e0, h0) = >>=-eq-some (infer_type_core env false e ctx) _ h in
    check_sort-HasType env ctx (infer_to-HasType env (reach e + reach_context ctx) e ctx t e0) h0
