-- ===== src/Kernel/TypeChecker/Sorts.antt =====
-- kernel/type_checker.cpp: the types of Pis and Sigmas.
use lean.Base.{Bool-cases, inl, inr, arith, some, subst, true, ◌≡◌}
use lean.Kernel.Conversion.{RoEnvironment, bool_type, is_bool}
use lean.Kernel.Conversion.Relation.{fits, same, bool_below}
use lean.Kernel.Context.{Context}
use lean.Kernel.Expr.{Expr, type, pi, sigma, pi_kind, sigma_kind}
use lean.Kernel.TypeChecker.{as_type, extend, sort_of, max_type}
use lean.Kernel.TypeChecker.Typing.{HasType, IsSort}
use lean.Util.Name.{Name}
use mathlib.Core.Option.{some-injective}
use lean.Kernel.TypeChecker.Arguments.{is_bool_lem}

module _ (env : RoEnvironment) where
  -- A type or `Bool` is a universe, `Bool` by cumulativity.
  pub as_type-HasType :
      {e s : Expr} (ctx : Context) → HasType env ctx e s → HasType env ctx e (as_type s)
  as_type-HasType {e} {s} ctx h = elim (Bool-cases (is_bool s)) [
    | inl b ↦ rw b (HasType.converted h (fits (bool_below (is_bool_lem s b))))
    | inr b ↦ rw b h
  ]

  pub as_bool :
      {e s : Expr} (ctx : Context)
      → is_bool s ≡ true
      → HasType env ctx e s
      → HasType env ctx e bool_type
  as_bool {e} {s} ctx b h = HasType.converted h (fits (same (is_bool_lem s b)))

  pub max_type-pi :
      (n : Name) (d b : Expr) (ctx : Context) (t1 t2 : Expr) {r : Expr}
      → HasType env ctx d t1
      → HasType env (extend ctx n d) b t2
      → max_type t1 t2 ≡ some r
      → HasType env ctx (pi n d b) r
  max_type-pi n d b ctx (type l1) (type l2) h1 h2 h =
      subst (HasType env ctx (pi n d b)) (some-injective _ _ h) (HasType.pi h1 h2)
  max_type-pi n d b ctx t1 t2 h1 h2 h = absurd (ground arith)

  pub max_type-sigma :
      (n : Name) (d b : Expr) (ctx : Context) (t1 t2 : Expr) {r : Expr}
      → HasType env ctx d t1
      → HasType env (extend ctx n d) b t2
      → max_type t1 t2 ≡ some r
      → HasType env ctx (sigma n d b) r
  max_type-sigma n d b ctx (type l1) (type l2) h1 h2 h =
      subst (HasType env ctx (sigma n d b)) (some-injective _ _ h) (HasType.sigma h1 h2)
  max_type-sigma n d b ctx t1 t2 h1 h2 h = absurd (ground arith)

  pub sort_of-pi :
      (n : Name) (d b : Expr) (ctx : Context) (s1 s2 : Expr) {r : Expr}
      → HasType env ctx d s1
      → IsSort s1
      → HasType env (extend ctx n d) b s2
      → sort_of pi_kind s1 s2 ≡ some r
      → HasType env ctx (pi n d b) r
  unfolding sort_of
  sort_of-pi n d b ctx s1 s2 h1 i1 h2 h = elim (Bool-cases (is_bool s2)) [
    | inl y ↦
        subst (HasType env ctx (pi n d b)) (some-injective _ _ (rw y at h))
          (HasType.proposition h1 i1 (as_bool (extend ctx n d) y h2))
    | inr z ↦
        max_type-pi n d b ctx (as_type s1) (as_type s2) (as_type-HasType ctx h1)
          (as_type-HasType (extend ctx n d) h2) (ground (arith, h, z))
  ]

  pub sort_of-sigma :
      (n : Name) (d b : Expr) (ctx : Context) (s1 s2 : Expr) {r : Expr}
      → HasType env ctx d s1
      → HasType env (extend ctx n d) b s2
      → sort_of sigma_kind s1 s2 ≡ some r
      → HasType env ctx (sigma n d b) r
  unfolding sort_of
  sort_of-sigma n d b ctx s1 s2 h1 h2 h =
      max_type-sigma n d b ctx (as_type s1) (as_type s2) (as_type-HasType ctx h1)
        (as_type-HasType (extend ctx n d) h2) (ground (arith, h))
