-- ===== src/Kernel/Meaning.antt =====
-- The term that an expression stands for, given one for each metavariable. The local context of a
-- metavariable is read as kernel/expr.h documents it: its entries are applied from the last to the
-- first to the term that the metavariable stands for.
pub mod Room
pub mod Constants
pub mod Abstract
pub mod Beta
pub mod Context
pub mod Closed
pub mod Replace
pub mod Range
pub mod Lift
pub mod Lower
pub mod Instantiate
pub mod ApplyContext
use lean.Base.{arith, refl, ◌≡◌}
use lean.Kernel.Expr.{
  Expr, Exprs, OptExpr, LocalContext, var, constant, value, app, pair, proj, abstraction, type,
  let_in, heq, metavar, nil, cons, absent, present, empty, lift_entry, inst_entry, mk_app,
  append_args,
}
use lean.Kernel.Term.{
  Term, tvar, tconst, tvalue, tapp, tpair, tproj, tabs, ttype, tlet, tlet_untyped, theq, shift,
  subst_term,
}
use lean.Util.Name.{Name}

-- A term for each metavariable.
abbrev pub Assignment : Type 0
Assignment = Name → Term

unfoldable mutual
  pub meaning : Assignment → Expr → Term
  meaning σ (var i) = tvar i
  meaning σ (constant n t) = tconst n
  meaning σ (value v) = tvalue v
  meaning σ (app f xs) = spine σ (meaning σ f) xs
  meaning σ (pair a b t) = tpair (meaning σ a) (meaning σ b) (meaning σ t)
  meaning σ (proj i e) = tproj i (meaning σ e)
  meaning σ (abstraction k n t b) = tabs k (meaning σ t) (meaning σ b)
  meaning σ (type l) = ttype l
  meaning σ (let_in n t v b) = meaning_let σ t (meaning σ v) (meaning σ b)
  meaning σ (heq a b) = theq (meaning σ a) (meaning σ b)
  meaning σ (metavar n c) = meaning_context σ c (σ n)

  pub spine : Assignment → Term → Exprs → Term
  spine σ f nil = f
  spine σ f (cons e es) = spine σ (tapp f (meaning σ e)) es

  pub meaning_let : Assignment → OptExpr → Term → Term → Term
  meaning_let σ absent v b = tlet_untyped v b
  meaning_let σ (present t) v b = tlet (meaning σ t) v b

  pub meaning_context : Assignment → LocalContext → Term → Term
  meaning_context σ empty t = t
  meaning_context σ (lift_entry s n c) t = shift s n (meaning_context σ c t)
  meaning_context σ (inst_entry s v c) t = subst_term s (meaning σ v) (meaning_context σ c t)

spine-append_args :
    (σ : Assignment) (f : Term) (xs ys : Exprs)
    → spine σ f (append_args xs ys) ≡ spine σ (spine σ f xs) ys
unfolding meaning
spine-append_args σ f nil ys = refl
spine-append_args σ f (cons x xs) ys = spine-append_args σ (tapp f (meaning σ x)) xs ys

-- Flattening an application does not change what it stands for.
pub meaning-mk_app :
    (σ : Assignment) (f : Expr) (ys : Exprs) → meaning σ (mk_app f ys) ≡ spine σ (meaning σ f) ys
unfolding meaning mk_app
meaning-mk_app σ (app f xs) ys = ground (arith, spine-append_args σ (meaning σ f) xs ys)
meaning-mk_app σ _ ys = refl
