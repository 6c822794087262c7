-- ===== src/Kernel/TypeChecker/Arguments.antt =====
-- kernel/type_checker.cpp: sorts, Pis and Sigmas that are exposed, and the arguments of an
-- application against its type.
use lean.Base.{>>=-eq-some, ap, arith, refl, some, subst, sym, true, ◌||◌, ◌≡◌}
use lean.Kernel.Conversion.{
  RoEnvironment, bool_type, is_bool, is_type, is_pi, is_sigma, check_sort, check_pi, require,
}
use lean.Kernel.Conversion.Relation.{
  Converts, fits, through, same, require-Converts, expose-Converts,
}
use lean.Kernel.Context.{Context}
use lean.Kernel.Expr.{Expr, Exprs, constant, type, nil, cons, absent, pi, sigma}
use lean.Kernel.ExprEq.Erasure.{erase}
use lean.Kernel.TypeChecker.{Checker, types_of, check_args, pi_body_at}
use lean.Kernel.TypeChecker.Typing.{HasType, HasSpine, IsSort}
use lean.Util.Name.{Name}
use lean.Util.Name.Equality.{name_eq_iff}

pub as_pi : (t : Expr) → is_pi t ≡ true → (n : Name) × (d : Expr) × (b : Expr) × (t ≡ pi n d b)
as_pi (pi n d b) h = (n, d, b, refl)
as_pi t h = absurd (ground arith)

pub as_sigma :
    (t : Expr) → is_sigma t ≡ true → (n : Name) × (d : Expr) × (b : Expr) × (t ≡ sigma n d b)
as_sigma (sigma n d b) h = (n, d, b, refl)
as_sigma t h = absurd (ground arith)

pub is_bool_lem : (t : Expr) → is_bool t ≡ true → erase t ≡ bool_type
unfolding is_bool
is_bool_lem (constant n t) h = ap (λ n. constant n absent) ((name_eq_iff n _).0 h)
is_bool_lem t h = absurd (ground arith)

pub is_sort_lem : (t : Expr) → is_type t || is_bool t ≡ true → IsSort t
unfolding is_bool
is_sort_lem (type l) h = IsSort.universe l
is_sort_lem (constant n t) h = IsSort.bool_sort (is_bool_lem (constant n t) h)
is_sort_lem t h = absurd (ground arith)

module _ (env : RoEnvironment) where
  pub check_sort-HasType :
      {e t s : Expr} (ctx : Context)
      → HasType env ctx e t
      → check_sort env t ctx ≡ some s
      → HasType env ctx e s × IsSort s
  check_sort-HasType {e} {t} {s} ctx d h =
      let (conv, p) = expose-Converts env (λ e. is_type e || is_bool e) t ctx h in
      (HasType.converted d conv, is_sort_lem s p)

  pub spine_from :
      {ctx : Context} {t s a r : Expr} {xs : Exprs}
      → Converts env ctx t s
      → HasSpine env ctx s (cons a xs) r
      → HasSpine env ctx t (cons a xs) r
  spine_from c (HasSpine.argument d h k) = HasSpine.argument (through c d) h k

module _ (env : RoEnvironment) (rec : Checker)
    (sound : (e : Expr) (ctx : Context) (t : Expr) → rec e ctx ≡ some t → HasType env ctx e t) where
  pub types_of_cons :
      (a : Expr) (xs : Exprs) (ctx : Context) (t : Expr) (ts : Exprs)
      → types_of rec (cons a xs) ctx ≡ some (cons t ts)
      → (rec a ctx ≡ some t) × (types_of rec xs ctx ≡ some ts)
  types_of_cons a xs ctx t ts h =
      let (t1, e1, g) = >>=-eq-some (rec a ctx) _ h in
      let (ts1, e2, k) = >>=-eq-some (types_of rec xs ctx) _ g in (cc, cc)

  pub check_args-HasSpine :
      (n : Name) (d b : Expr) (xs ts : Exprs) (ctx : Context) {r : Expr}
      → types_of rec xs ctx ≡ some ts
      → check_args env (pi n d b) xs ts ctx ≡ some r
      → HasSpine env ctx (pi n d b) xs r
  unfolding check_args
  check_args-HasSpine n d b nil ts ctx e h = absurd (ground arith)
  check_args-HasSpine n d b (cons c xs) nil ctx e h = absurd (ground arith)
  check_args-HasSpine n d b (cons c nil) (cons c_t nil) ctx e h =
      let (ec, _) = types_of_cons c nil ctx c_t nil e in
      let (conv, q) = require-Converts env c_t d ctx (pi_body_at (pi n d b) c) h in
      HasSpine.argument {n = n} (fits (same refl)) (HasType.converted (sound c ctx c_t ec) conv)
        (subst (HasSpine env ctx (pi_body_at (pi n d b) c) nil) q HasSpine.done)
  check_args-HasSpine n d b (cons c nil) (cons c_t (cons t ts)) ctx e h =
      let (_, g) = types_of_cons c nil ctx c_t (cons t ts) e in absurd (ground arith)
  check_args-HasSpine n d b (cons c (cons x xs)) (cons c_t ts) ctx {r} e h =
      let (ec, es) = types_of_cons c (cons x xs) ctx c_t ts e in
      let (r1, h1, k1) = >>=-eq-some (require env c_t d ctx (pi_body_at (pi n d b) c)) _ h in
      let (p, h2, k2) = >>=-eq-some (check_pi env r1 ctx) _ k1 in
      let (conv, q) = require-Converts env c_t d ctx (pi_body_at (pi n d b) c) h1 in
      let (to_pi, isp) = expose-Converts env is_pi r1 ctx h2 in
      let (n2, d2, b2, ep) = as_pi p isp in
      HasSpine.argument {n = n} (fits (same refl)) (HasType.converted (sound c ctx c_t ec) conv) (
        spine_from env
          (subst (λ z. Converts env ctx z (pi n2 d2 b2)) (sym q)
            (subst (Converts env ctx r1) ep to_pi))
          (check_args-HasSpine n2 d2 b2 (cons x xs) ts ctx es (rw ep at k2)))
