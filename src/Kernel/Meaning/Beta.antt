-- ===== src/Kernel/Meaning/Beta.antt =====
-- kernel/instantiate.cpp: `head_beta_reduce` on one argument, on terms.
use lean.Base.{[], ap, refl, ℕ, ◌<◌, ◌∙◌, ◌∷◌, ◌≡◌}
use lean.Kernel.Expr.{Expr, app, lambda, nil, cons}
use lean.Kernel.FreeVars.{MenvSizes}
use lean.Kernel.Instantiate.{head_beta_reduce, instantiate}
use lean.Kernel.Term.{subst_term}
use lean.Kernel.Meaning.{Assignment, meaning}
use lean.Kernel.Meaning.Instantiate.{CanLift, meaning-instantiate}
use lean.Kernel.Meaning.Lift.{Knows}
use lean.Kernel.Meaning.Room.{Room}
use lean.Util.Name.{Name}

beta_step :
    (menv : MenvSizes) (n : Name) (t b a : Expr)
    → head_beta_reduce menv (app (lambda n t b) (cons a nil)) ≡ instantiate menv 0 (a ∷ []) b
unfolding head_beta_reduce
beta_step menv n t b a = refl

-- `head_beta_reduce` of a lambda applied to one argument stands for the term of its body with that
-- of the argument for the bound variable, whatever the metavariables stand for within the sizes
-- that `menv` knows, where the indices of the body have the room `m`, which is not 0, and the
-- argument can be lifted past all binders that this leaves.
pub meaning-head_beta_reduce :
    (menv : MenvSizes) (σ : Assignment) (m : ℕ) (n : Name) (t b a : Expr)
    → Knows menv σ
    → 0 < m
    → CanLift menv a m
    → Room menv b m
    → meaning σ (head_beta_reduce menv (app (lambda n t b) (cons a nil)))
      ≡ subst_term 0 (meaning σ a) (meaning σ b)
meaning-head_beta_reduce menv σ m n t b a k z lifts r =
    ap (meaning σ) (beta_step menv n t b a) ∙ meaning-instantiate menv σ 0 m a k z lifts b r
