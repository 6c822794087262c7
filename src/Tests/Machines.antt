-- ===== src/Tests/Machines.antt =====
-- Stacks at work: the replacement of variables below a binder.
use lean.Base.{Bool, arith, false, none, refl, some, true, ◌≡◌}
use lean.Kernel.Expr.{metavar, inst_entry, empty, Expr, var, app, lambda, nil, cons}
use lean.Kernel.FreeVars.Lift.{lift_step}
use lean.Kernel.Replace.{replace}
use lean.Kernel.ForEach.{find, occurs, is_constant_named}
use lean.Kernel.ForEach.Parts.{cells, first_part}
use lean.Kernel.ForEach.Occurs.{find-eq}
use lean.Kernel.ReplaceFn.{replace_fn}
use lean.Kernel.ReplaceFn.Size.{size}
use lean.Kernel.ReplaceFn.Result.{replace_fn-eq}
use lean.Tests.Terms.{x}
use lean.Kernel.Expr.{mk_app}
use lean.Kernel.Expr.{constant}
use lean.Kernel.Expr.{absent}

-- fun x : #2, (#0 #1)
abbrev below_binder : Expr
below_binder = lambda x (var 2) (app (var 0) (cons (var 1) nil))

-- No two cells have one address, though all are shared.
abbrev apart : Expr → Expr → Bool
apart a b = false

apart-eq : (a b : Expr) → apart a b ≡ true → a ≡ b
apart-eq a b h = cc

replace_fn-eq_example :
    replace_fn apart (λ e. true) (lift_step none 0 3) 10 below_binder
    ≡ some (replace (lift_step none 0 3) below_binder 0)
unfolding size
replace_fn-eq_example =
    replace_fn-eq apart (λ e. true) (lift_step none 0 3) apart-eq below_binder 10 (omega arith)

stacks_run :
    replace_fn apart (λ e. true) (lift_step none 0 3) 10 below_binder
    ≡ some (lambda x (var 5) (app (var 0) (cons (var 4) nil)))
unfolding replace_fn lift_step mk_app
stacks_run = refl

-- fun x : x, (#0 x)
abbrev with_constant : Expr
with_constant = lambda x (constant x absent) (app (var 0) (cons (constant x absent) nil))

find-eq_example :
    find apart (λ e. true) (is_constant_named x) 6 with_constant
    ≡ some (first_part (is_constant_named x) with_constant)
unfolding cells
find-eq_example =
    find-eq apart (λ e. true) (is_constant_named x) apart-eq with_constant 6 (omega arith)

x-occurs : occurs apart (λ e. true) 6 x with_constant ≡ some true
unfolding occurs lean.Util.Name.name_eq lean.Util.Name.stored_hash
x-occurs = refl

-- A constant in the local context of a metavariable is not found.
x-hidden :
    occurs apart (λ e. true) 6 x (metavar x (inst_entry 0 (constant x absent) empty)) ≡ some false
unfolding occurs
x-hidden = refl
