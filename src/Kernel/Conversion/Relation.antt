-- ===== src/Kernel/Conversion/Relation.antt =====
-- kernel/type_checker.cpp: what it means that one type fits where another is expected, and that
-- `is_convertible` tests it.
use lean.Base.{
  >>=-eq-some, Bool, Bool-cases, Option, ap, arith, false, if◌then◌else◌, inl, inr, refl, some, sym,
  true, ◌≡◌, ◌⊎◌,
}
use lean.Kernel.Conversion.{
  RoEnvironment, bool_type, expose, convertible_loop, is_convertible_core, is_convertible, require,
}
use lean.Kernel.Context.{Context}
use lean.Kernel.Expr.{
  Expr, var, constant, value, app, pair, proj, abstraction, type, let_in, heq, metavar, pi,
}
use lean.Kernel.ExprEq.{expr_eq}
use lean.Kernel.ExprEq.Complete.{expr_eq_iff}
use lean.Kernel.ExprEq.Erasure.{erase}
use lean.Kernel.Level.{Level}
use lean.Kernel.UniverseConstraints.{Constraints}
use lean.Util.Name.{Name}
use mathlib.Core.Option.{some-injective}
use lean.Kernel.Universes.Bounds.{Below, is_ge-Below}

-- The type on the left is one on the right up to names of binders, greater universes, `Bool` as a
-- universe, and this in the range of a Pi.
pub data Fits (c : Constraints) : Expr → Expr → Type 0 where
  same : {a b : Expr} → erase a ≡ erase b → Fits c a b
  universe : {l1 l2 : Level} → Below c l1 l2 → Fits c (type l1) (type l2)
  bool_below : {a : Expr} {l : Level} → erase a ≡ bool_type → Fits c a (type l)
  range :
      {m n : Name} {d1 d2 b1 b2 : Expr}
      → erase d1 ≡ erase d2
      → Fits c b1 b2
      → Fits c (pi m d1 b1) (pi n d2 b2)

-- The same up to normal forms in a context.
pub data Converts (env : RoEnvironment) (ctx : Context) : Expr → Expr → Type 0 where
  fits : {a b : Expr} → Fits env.constraints a b → Converts env ctx a b
  reduces : {a b : Expr} → env.normalize a ctx ≡ some b → Converts env ctx a b
  expands : {a b : Expr} → env.normalize b ctx ≡ some a → Converts env ctx a b
  through : {a b c : Expr} → Converts env ctx a b → Converts env ctx b c → Converts env ctx a c

module _ (env : RoEnvironment) where
  eq_same : (a b : Expr) → expr_eq env.value_hash a b ≡ true → erase a ≡ erase b
  eq_same a b h = (expr_eq_iff env.value_hash a b).0 h

  -- What the loop needs at a type on the right.
  fits_type :
      (a : Expr) (l : Level)
      → some (expr_eq env.value_hash a bool_type) ≡ some true
      → Fits env.constraints a (type l)
  fits_type a l h = bool_below (eq_same a bool_type (some-injective _ _ h))

  convertible_loop-Fits :
      (a b : Expr) → convertible_loop env a b ≡ some true → Fits env.constraints a b
  unfolding convertible_loop
  convertible_loop-Fits (type l1) (type l2) h = universe (is_ge-Below env.constraints l1 l2 h)
  convertible_loop-Fits (pi m d1 b1) (pi n d2 b2) h =
      elim (Bool-cases (expr_eq env.value_hash d2 d1)) [
        | inl e ↦ range (sym (eq_same d2 d1 e)) (convertible_loop-Fits b1 b2 (rw e at h))
        | inr e ↦ absurd (ground (arith, h, e))
      ]
  convertible_loop-Fits (var i) (type l) h = fits_type (var i) l h
  convertible_loop-Fits (constant n t) (type l) h = fits_type (constant n t) l h
  convertible_loop-Fits (value v) (type l) h = fits_type (value v) l h
  convertible_loop-Fits (app f xs) (type l) h = fits_type (app f xs) l h
  convertible_loop-Fits (pair x y t) (type l) h = fits_type (pair x y t) l h
  convertible_loop-Fits (proj i e) (type l) h = fits_type (proj i e) l h
  convertible_loop-Fits (abstraction k n d b) (type l) h = fits_type (abstraction k n d b) l h
  convertible_loop-Fits (let_in n t v b) (type l) h = fits_type (let_in n t v b) l h
  convertible_loop-Fits (heq x y) (type l) h = fits_type (heq x y) l h
  convertible_loop-Fits (metavar n c) (type l) h = fits_type (metavar n c) l h
  convertible_loop-Fits a b h = absurd (ground arith)

  is_convertible_core-Fits :
      (a b : Expr) → is_convertible_core env a b ≡ some true → Fits env.constraints a b
  unfolding is_convertible_core
  is_convertible_core-Fits a b h = elim (Bool-cases (expr_eq env.value_hash a b)) [
    | inl e ↦ same (eq_same a b e)
    | inr e ↦ convertible_loop-Fits a b (rw e at h)
  ]

  if_some :
      {x : Option Bool} (b : Bool)
      → (if b then some true else x) ≡ some true
      → (b ≡ true) ⊎ (x ≡ some true)
  if_some true h = inl refl
  if_some false h = inr h

  -- Where `is_convertible(given, expected, ctx)` answers true, `given` is `expected` up to normal
  -- forms, names of binders, `Bool` as a universe, and greater universes, also in the ranges of Pis:
  -- the greater universe is at least the other in every assignment that satisfies the constraints.
  pub is_convertible-Converts :
      (given expected : Expr) (ctx : Context)
      → is_convertible env given expected ctx ≡ some true
      → Converts env ctx given expected
  unfolding is_convertible
  is_convertible-Converts given expected ctx h =
      let (direct, e, h1) = >>=-eq-some (is_convertible_core env given expected) _ h in
      elim (if_some direct h1) [
        | inl t ↦ fits (is_convertible_core-Fits given expected (rw t at e))
        | inr h2 ↦
            let (g, eg, h3) = >>=-eq-some (env.normalize given ctx) _ h2 in
            let (e, ee, h4) = >>=-eq-some (env.normalize expected ctx) _ h3 in
            through (reduces eg) (through (fits (is_convertible_core-Fits g e h4)) (expands ee))
      ]

  pub require-Converts :
      (given expected : Expr) (ctx : Context) (r : Expr) {t : Expr}
      → require env given expected ctx r ≡ some t
      → Converts env ctx given expected × (r ≡ t)
  unfolding require
  require-Converts given expected ctx r h =
      let (ok, e, g) = >>=-eq-some (is_convertible env given expected ctx) _ h in
      elim (Bool-cases ok) [
        | inl y ↦ (is_convertible-Converts given expected ctx (rw y at e), ground (arith, g, y))
        | inr n ↦ absurd (ground (arith, g, n))
      ]

  -- What `expose` answers is what it was given up to normal forms, and passes the test.
  pub expose-Converts :
      (p : Expr → Bool) (e : Expr) (ctx : Context) {r : Expr}
      → expose env p e ctx ≡ some r
      → Converts env ctx e r × (p r ≡ true)
  unfolding expose
  expose-Converts p e ctx h = elim (Bool-cases (p e)) [
    | inl y ↦ let s = some-injective _ _ (rw y at h) in (fits (same (ap erase s)), rw (← s) y)
    | inr n ↦
        let (r, er, g) = >>=-eq-some (env.normalize e ctx) _ (rw n at h) in
        elim (Bool-cases (p r)) [
          | inl y ↦ let s = some-injective _ _ (rw y at g) in (reduces (rw s at er), rw (← s) y)
          | inr n ↦ absurd (ground (arith, g, n))
        ]
  ]
