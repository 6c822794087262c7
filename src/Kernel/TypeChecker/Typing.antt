-- ===== src/Kernel/TypeChecker/Typing.antt =====
-- kernel/type_checker.cpp: the typing rules. A rule is named after the expression that it types.
use lean.Base.{add32, false, none, some, true, ℕ, ◌≡◌}
use lean.Kernel.Conversion.{RoEnvironment, bool_type}
use lean.Kernel.Conversion.Relation.{Converts}
use lean.Kernel.TypeChecker.{instantiate_one, pi_body_at, range_at, extend, extend_let}
use lean.Kernel.Context.{Context, ContextEntry, lookup, lookup_ext}
use lean.Kernel.Expr.{
  Expr, Exprs, OptExpr, nil, cons, absent, present, pi as mk_pi, sigma as mk_sigma,
  lambda as mk_lambda,
}
use lean.Kernel.ExprEq.Erasure.{erase}
use lean.Kernel.FreeVars.Lift.{lift_free_vars}
use lean.Kernel.Level.{Level, plus, level_max}
use lean.Util.Name.{Name}

-- The type of a type: a universe or `Bool`.
pub data IsSort : Expr → Type 0 where
  universe : (l : Level) → IsSort (Expr.type l)
  bool_sort :
      {n : Name} {t : OptExpr} → erase (Expr.constant n t) ≡ bool_type → IsSort (Expr.constant n t)

mutual
  -- The expression has the type in the context.
  pub data HasType (env : RoEnvironment) : Context → Expr → Expr → Type 0 where
    converted :
        {ctx : Context} {e t s : Expr}
        → HasType env ctx e t
        → Converts env ctx t s
        → HasType env ctx e s
    cached : {ctx : Context} {n : Name} {t : Expr} → HasType env ctx (Expr.constant n (present t)) t
    declared :
        {ctx : Context} {n : Name} {t : Expr}
        → env.object_type n ≡ some t
        → HasType env ctx (Expr.constant n absent) t
    var :
        {ctx : Context} {i : ℕ} {e : ContextEntry} {d : Expr}
        → lookup ctx i ≡ some e
        → e.domain ≡ present d
        → HasType env ctx (Expr.var i) (lift_free_vars none 0 (add32 i 1) d)
    defined :
        {ctx rest : Context} {i : ℕ} {e : ContextEntry} {b t : Expr}
        → lookup_ext ctx i ≡ some (e, rest)
        → e.body ≡ present b
        → HasType env rest b t
        → HasType env ctx (Expr.var i) (lift_free_vars none 0 (add32 i 1) t)
    value :
        {ctx : Context} {v : ℕ}
        → env.is_registered v ≡ true
        → HasType env ctx (Expr.value v) (env.value_type v)
    type :
        {ctx : Context} {l m : Level}
        → plus l 1 ≡ some m
        → HasType env ctx (Expr.type l) (Expr.type m)
    heq :
        {ctx : Context} {a b s t : Expr}
        → HasType env ctx a s
        → HasType env ctx b t
        → HasType env ctx (Expr.heq a b) bool_type
    app :
        {ctx : Context} {f t r : Expr} {xs : Exprs}
        → HasType env ctx f t
        → HasSpine env ctx t xs r
        → HasType env ctx (Expr.app f xs) r
    pair :
        {ctx : Context} {n : Name} {a b d r : Expr} {t : Expr}
        → Converts env ctx t (mk_sigma n d r)
        → HasType env ctx a d
        → HasType env ctx b (instantiate_one r a)
        → HasType env ctx (Expr.pair a b t) (mk_sigma n d r)
    first :
        {ctx : Context} {n : Name} {e d r : Expr}
        → HasType env ctx e (mk_sigma n d r)
        → HasType env ctx (Expr.proj true e) d
    second :
        {ctx : Context} {n : Name} {e d r : Expr}
        → HasType env ctx e (mk_sigma n d r)
        → HasType env ctx (Expr.proj false e) (range_at r (Expr.proj true e))
    lambda :
        {ctx : Context} {n : Name} {d b s t : Expr}
        → HasType env ctx d s
        → IsSort s
        → HasType env (extend ctx n d) b t
        → HasType env ctx (mk_lambda n d b) (mk_pi n d t)
    pi :
        {ctx : Context} {n : Name} {d b : Expr} {l m : Level}
        → HasType env ctx d (Expr.type l)
        → HasType env (extend ctx n d) b (Expr.type m)
        → HasType env ctx (mk_pi n d b) (Expr.type (level_max l m))
    proposition :
        {ctx : Context} {n : Name} {d b s : Expr}
        → HasType env ctx d s
        → IsSort s
        → HasType env (extend ctx n d) b bool_type
        → HasType env ctx (mk_pi n d b) bool_type
    sigma :
        {ctx : Context} {n : Name} {d b : Expr} {l m : Level}
        → HasType env ctx d (Expr.type l)
        → HasType env (extend ctx n d) b (Expr.type m)
        → HasType env ctx (mk_sigma n d b) (Expr.type (level_max l m))
    let_typed :
        {ctx : Context} {n : Name} {t v b s r : Expr}
        → HasType env ctx t s
        → IsSort s
        → HasType env ctx v t
        → HasType env (extend_let ctx n (present t) v) b r
        → HasType env ctx (Expr.let_in n (present t) v b) (instantiate_one r v)
    let_untyped :
        {ctx : Context} {n : Name} {t v b r : Expr}
        → HasType env ctx v t
        → HasType env (extend_let ctx n (present t) v) b r
        → HasType env ctx (Expr.let_in n absent v b) (instantiate_one r v)

  -- A function of the type on the left has the type on the right at the arguments.
  pub data HasSpine (env : RoEnvironment) : Context → Expr → Exprs → Expr → Type 0 where
    done : {ctx : Context} {t : Expr} → HasSpine env ctx t nil t
    argument :
        {ctx : Context} {n : Name} {t d b a r : Expr} {xs : Exprs}
        → Converts env ctx t (mk_pi n d b)
        → HasType env ctx a d
        → HasSpine env ctx (pi_body_at (mk_pi n d b) a) xs r
        → HasSpine env ctx t (cons a xs) r
