-- ===== src/Kernel/FreeVars/Lift.antt =====
-- kernel/free_vars.cpp: lifting and lowering free variables.
use lean.Base.{◌||◌, Option, add32, if◌then◌else◌, leb, none, some, sub32, ℕ, ◌==◌}
use lean.Kernel.Expr.{Expr, var, metavar}
use lean.Kernel.LocalContext.{add_lift_entry}
use lean.Kernel.FreeVars.{MenvSizes, free_var_range, closed, has_free_vars_core}
use lean.Kernel.Replace.{replace}

-- `add_lift(m, s, n, menv)`: an expression that is no metavariable is not passed to it.
unfoldable pub add_lift : MenvSizes → Expr → ℕ → ℕ → Expr
unfolding add_lift_entry
add_lift none (metavar m c) s n = metavar m (add_lift_entry c s n)
add_lift (some size) (metavar m c) s n =
    if leb (free_var_range (some size) (metavar m c)) s
    then metavar m c
    else metavar m (add_lift_entry c s n)
add_lift menv e s n = e

-- The function that `lift_free_vars` gives to `replace`.
unfoldable pub lift_step : MenvSizes → ℕ → ℕ → Expr → ℕ → Option Expr
unfolding add_lift
lift_step menv s d (var i) o = if leb (add32 s o) i then some (var (add32 i d)) else none
lift_step menv s d (metavar m c) o = some (add_lift menv (metavar m c) (add32 s o) d)
lift_step menv s d e o = none

unfoldable pub lift_free_vars : MenvSizes → ℕ → ℕ → Expr → Expr
unfolding replace lift_step has_free_vars_core
lift_free_vars menv s d e = if (d == 0) || closed e then e else replace (lift_step menv s d) e 0

-- The function that `lower_free_vars` gives to `replace`.
unfoldable pub lower_step : ℕ → ℕ → Expr → ℕ → Option Expr
lower_step s d (var i) o = if leb (add32 s o) i then some (var (sub32 i d)) else none
lower_step s d e o = none

unfoldable pub lower_free_vars : ℕ → ℕ → Expr → Expr
unfolding replace lower_step has_free_vars_core
lower_free_vars s d e = if (d == 0) || closed e then e else replace (lower_step s d) e 0
