-- ===== src/Kernel/Instantiate.antt =====
-- kernel/instantiate.cpp: instantiation of free variables and beta reduction.
use lean.Base.{
  Bool, List, Option, [], add32, false, get_or, if◌then◌else◌, leb, length, ltb, none, some, sub32,
  subst, true, ℕ, ◌++◌, ◌∷◌,
}
use lean.Kernel.Expr.{Expr, Exprs, var, app, metavar, abstraction, lambda_kind, nil, cons, mk_app}
use lean.Kernel.LocalContext.{add_inst_entry}
use lean.Kernel.FreeVars.{MenvSizes, free_var_range}
use lean.Kernel.FreeVars.Lift.{lift_free_vars}
use lean.Kernel.Replace.{replace}

-- `add_inst(m, s, v, menv)` of kernel/metavar.cpp.
unfoldable pub add_inst : MenvSizes → Expr → ℕ → Expr → Expr
unfolding add_inst_entry
add_inst none (metavar m c) s v = metavar m (add_inst_entry c s v)
add_inst (some size) (metavar m c) s v =
    if leb (free_var_range (some size) (metavar m c)) s
    then metavar m c
    else metavar m (add_inst_entry c s v)
add_inst menv e s v = e

-- The template's argument `ClosedSubst` tells whether the substitution needs no lifting.
abbrev pub lift_subst : Bool → MenvSizes → ℕ → Expr → Expr
lift_subst true menv d v = v
lift_subst false menv d v = lift_free_vars menv 0 d v

-- The loop over the substitution at a metavariable; `n - i - 1` is the length of what is left.
unfoldable pub inst_loop : Bool → MenvSizes → ℕ → ℕ → List Expr → Expr → Expr
unfolding add_inst lift_free_vars
inst_loop c menv s o [] r = r
inst_loop c menv s o (v ∷ vs) r =
    inst_loop c menv s o vs
      (add_inst menv r (add32 (add32 o s) (length vs)) (lift_subst c menv (add32 o (length vs)) v))

-- The function that `instantiate_core` gives to `replace`.
unfoldable pub inst_step : Bool → MenvSizes → ℕ → List Expr → Expr → ℕ → Option Expr
unfolding inst_loop
inst_step c menv s subst (var i) o =
    if leb (add32 o s) i
    then (if ltb i (add32 (add32 o s) (length subst))
        then some (
            lift_subst c menv o
              (get_or subst (sub32 (sub32 (length subst) (sub32 (sub32 i s) o)) 1) (var i)))
        else some (var (sub32 i (length subst))))
    else none
inst_step c menv s subst (metavar m k) o = some (inst_loop c menv s o subst (metavar m k))
inst_step c menv s subst e o = none

unfoldable pub instantiate_core : Bool → MenvSizes → ℕ → List Expr → Expr → Expr
unfolding replace inst_step
instantiate_core c menv s subst e = replace (inst_step c menv s subst) e 0

-- `instantiate_with_closed(a, n, s, menv)` and `instantiate(a, s, n, subst, menv)`.
unfoldable pub instantiate_with_closed : MenvSizes → List Expr → Expr → Expr
unfolding instantiate_core
instantiate_with_closed menv subst e = instantiate_core true menv 0 subst e

unfoldable pub instantiate : MenvSizes → ℕ → List Expr → Expr → Expr
unfolding instantiate_core
instantiate menv s subst e = instantiate_core false menv s subst e

abbrev pub to_args : List Expr → Exprs
to_args [] = nil
to_args (x ∷ xs) = cons x (to_args xs)

abbrev pub to_list : Exprs → List Expr
to_list nil = []
to_list (cons x xs) = x ∷ to_list xs

-- The loop of `apply_beta`: the binders of `f` are passed while arguments are left. `seen` are the
-- `m` arguments taken so far; the body `b` is that of the last binder passed.
apply_loop : MenvSizes → Expr → List Expr → List Expr → Expr
unfolding instantiate
apply_loop menv (abstraction lambda_kind n t b) seen (a ∷ rest) =
    apply_loop menv b (seen ++ a ∷ []) rest
apply_loop menv b seen [] = instantiate menv 0 seen b
apply_loop menv b seen (a ∷ rest) = mk_app (instantiate menv 0 seen b) (to_args (a ∷ rest))

-- `apply_beta(f, num_args, args, menv)`
unfoldable pub apply_beta : MenvSizes → Expr → List Expr → Expr
unfolding apply_loop mk_app
apply_beta menv (abstraction lambda_kind n t b) (a ∷ rest) = apply_loop menv b (a ∷ []) rest
apply_beta menv f args = mk_app f (to_args args)

abbrev pub is_lambda : Expr → Bool
is_lambda (abstraction lambda_kind n t b) = true
is_lambda _ = false

abbrev pub is_head_beta : Expr → Bool
is_head_beta (app f xs) = is_lambda f
is_head_beta _ = false

unfoldable pub head_beta_reduce : MenvSizes → Expr → Expr
unfolding apply_beta
head_beta_reduce menv (app f xs) = if is_lambda f then apply_beta menv f (to_list xs) else app f xs
head_beta_reduce menv t = t
