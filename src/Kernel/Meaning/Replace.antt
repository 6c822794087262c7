-- ===== src/Kernel/Meaning/Replace.antt =====
-- kernel/replace_fn.h: `replace` with a function that acts on variables and metavariables alone.
use lean.Base.{Bool, Option, add32, arith, none, subst, suc, sym, ℕ, ◌+◌, ◌<◌, ◌∙◌, ◌≡◌}
use lean.Kernel.FreeVars.{MenvSizes}
use lean.Kernel.Expr.{
  Expr, Exprs, OptExpr, LocalContext, Binder, var, constant, value, app, pair, proj, abstraction,
  type, let_in, heq, metavar, nil, cons, absent, present,
}
use lean.Kernel.Replace.{or_parts, replace, replace_args, replace_opt}
use lean.Kernel.Term.{
  Term, tvar, tconst, tvalue, tapp, tpair, tproj, tabs, ttype, tlet, tlet_untyped, theq,
}
use lean.Kernel.Meaning.{Assignment, meaning, spine, meaning_let, meaning_context, meaning-mk_app}
use lean.Kernel.Meaning.Room.{Room, RoomArgs, RoomOpt, RoomContext}
use lean.Kernel.Level.{Level}
use lean.Util.Name.{Name}

-- A family of operations on terms, one for each number of binders passed, that goes through every
-- constructor but the variables.
pub record IsStructural (g : ℕ → Term → Term) : Type 0 where
  pub at_const : (o : ℕ) (n : Name) → g o (tconst n) ≡ tconst n
  pub at_value : (o v : ℕ) → g o (tvalue v) ≡ tvalue v
  pub at_app : (o : ℕ) (f a : Term) → g o (tapp f a) ≡ tapp (g o f) (g o a)
  pub at_pair : (o : ℕ) (a b t : Term) → g o (tpair a b t) ≡ tpair (g o a) (g o b) (g o t)
  pub at_proj : (o : ℕ) (i : Bool) (e : Term) → g o (tproj i e) ≡ tproj i (g o e)
  pub at_abs : (o : ℕ) (k : Binder) (t b : Term) → g o (tabs k t b) ≡ tabs k (g o t) (g (suc o) b)
  pub at_type : (o : ℕ) (l : Level) → g o (ttype l) ≡ ttype l
  pub at_let : (o : ℕ) (t v b : Term) → g o (tlet t v b) ≡ tlet (g o t) (g o v) (g (suc o) b)
  pub at_let_untyped :
      (o : ℕ) (v b : Term) → g o (tlet_untyped v b) ≡ tlet_untyped (g o v) (g (suc o) b)
  pub at_heq : (o : ℕ) (a b : Term) → g o (theq a b) ≡ theq (g o a) (g o b)

-- Neither a variable nor a metavariable.
abbrev pub IsInner : Expr → Type 0
IsInner (var i) = ⊥
IsInner (metavar n c) = ⊥
IsInner _ = Unit

-- The function `f` computes the family at the leaves, within the bounds for the margin `m`, and
-- leaves every other expression to `replace`.
pub record IsStepFor (menv : MenvSizes) (σ : Assignment) (f : Expr → ℕ → Option Expr)
    (g : ℕ → Term → Term) (m : ℕ) : Type 0 where
  pub at_var :
      (i o : ℕ)
      → i + (m + o) < 4294967296
      → meaning σ (or_parts (f (var i) o) (var i)) ≡ g o (tvar i)
  pub at_metavar :
      (n : Name) (c : LocalContext) (o : ℕ)
      → RoomContext menv n c (m + o)
      → m + o < 4294967296
      → meaning σ (or_parts (f (metavar n c) o) (metavar n c)) ≡ g o (meaning_context σ c (σ n))
  pub at_inner : (e : Expr) (o : ℕ) → IsInner e → f e o ≡ none

module _ (menv : MenvSizes) (σ : Assignment) (f : Expr → ℕ → Option Expr) (g : ℕ → Term → Term)
    (m : ℕ) (structural : IsStructural g) (step : IsStepFor menv σ f g m) where
  mutual
    unfolding replace meaning

    replaced :
        (e : Expr) (o w : ℕ)
        → w ≡ m + o
        → Room menv e w
        → meaning σ (replace f e o) ≡ g o (meaning σ e)
    replaced (var i) o w q r = step.at_var i o (omega arith)
    replaced (metavar n c) o w q r =
        step.at_metavar n c o (subst (RoomContext menv n c) q r.1) (omega arith)
    replaced (constant n t) o w q r =
        rw (step.at_inner (constant n t) o tt) (sym (structural.at_const o n))
    replaced (value v) o w q r = rw (step.at_inner (value v) o tt) (sym (structural.at_value o v))
    replaced (type l) o w q r = rw (step.at_inner (type l) o tt) (sym (structural.at_type o l))
    replaced (app h xs) o w q r = rw (step.at_inner (app h xs) o tt) (
        meaning-mk_app σ (replace f h o) (replace_args f xs o)
        ∙ replaced_args xs o w (meaning σ h) (meaning σ (replace f h o)) q r.1
            (replaced h o w q r.0))
    replaced (pair a b t) o w q r = rw (step.at_inner (pair a b t) o tt) (
        cc (
          structural.at_pair o (meaning σ a) (meaning σ b) (meaning σ t),
          replaced a o w q r.0,
          replaced b o w q r.1,
          replaced t o w q r.2,
        ))
    replaced (proj i e) o w q r =
        rw (step.at_inner (proj i e) o tt)
          (cc (structural.at_proj o i (meaning σ e), replaced e o w q r))
    replaced (abstraction k n t b) o w q r =
        let next : add32 o 1 ≡ suc o = omega arith in
        rw (step.at_inner (abstraction k n t b) o tt, next)
          (cc (
            structural.at_abs o k (meaning σ t) (meaning σ b),
            replaced t o w q r.1,
            replaced b (suc o) (suc w) (omega arith) r.2,
          ))
    replaced (let_in n t v b) o w q r =
        let next : add32 o 1 ≡ suc o = omega arith in
        rw (step.at_inner (let_in n t v b) o tt, next)
          (replaced_let t o w _ _ _ _ q r.1 (replaced v o w q r.2)
            (replaced b (suc o) (suc w) (omega arith) r.3))
    replaced (heq a b) o w q r = rw (step.at_inner (heq a b) o tt) (
        cc (
          structural.at_heq o (meaning σ a) (meaning σ b),
          replaced a o w q r.0,
          replaced b o w q r.1,
        ))

    replaced_args :
        (xs : Exprs) (o w : ℕ) (t t' : Term)
        → w ≡ m + o
        → RoomArgs menv xs w
        → t' ≡ g o t
        → spine σ t' (replace_args f xs o) ≡ g o (spine σ t xs)
    replaced_args nil o w t t' q r e = e
    replaced_args (cons x xs) o w t t' q r e =
        replaced_args xs o w (tapp t (meaning σ x)) (tapp t' (meaning σ (replace f x o))) q r.1
          (cc (structural.at_app o t (meaning σ x), replaced x o w q r.0))

    replaced_let :
        (t : OptExpr) (o w : ℕ) (v v' b b' : Term)
        → w ≡ m + o
        → RoomOpt menv t w
        → v' ≡ g o v
        → b' ≡ g (suc o) b
        → meaning_let σ (replace_opt f t o) v' b' ≡ g o (meaning_let σ t v b)
    replaced_let absent o w v v' b b' q r e e' = cc (structural.at_let_untyped o v b)
    replaced_let (present t) o w v v' b b' q r e e' =
        cc (structural.at_let o (meaning σ t) v b, replaced t o w q r)

  -- `replace` then computes the family on whole expressions.
  pub meaning-replace : (e : Expr) → Room menv e m → meaning σ (replace f e 0) ≡ g 0 (meaning σ e)
  meaning-replace e r = replaced e 0 m (omega arith) r
