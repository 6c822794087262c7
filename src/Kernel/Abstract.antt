-- ===== src/Kernel/Abstract.antt =====
-- kernel/abstract.h and kernel/abstract.cpp: replacing closed expressions by bound variables, and
-- the binders built that way.
use lean.Base.{List, Option, [], add32, if◌then◌else◌, none, reverse, some, suc, ℕ, ◌∷◌}
use lean.Kernel.Expr.{Expr, OptExpr, var, constant, lambda, pi, let_in, absent}
use lean.Kernel.ExprEq.{expr_eq}
use lean.Kernel.Replace.{replace}
use lean.Util.Name.{Name, anonymous}

-- The loop of `abstract`, from the last expression to the first; `j` is `n - i - 1`.
unfoldable pub search : (ℕ → ℕ) → List Expr → ℕ → Expr → ℕ → Option Expr
unfolding expr_eq
search vh [] j e o = none
search vh (v ∷ vs) j e o =
    let rest = search vh vs (suc j) e o in if expr_eq vh v e then some (var (add32 o j)) else rest

unfoldable pub abstract : (ℕ → ℕ) → List Expr → Expr → Expr
unfolding search replace
abstract vh s e = replace (search vh (reverse s) 0) e 0

-- `Fun`, `Pi` and `Let` over one name, and `Let_simp`.
abbrev pub const_name : Expr → Name
const_name (constant n t) = n
const_name _ = anonymous

unfoldable pub fun_over : (ℕ → ℕ) → Expr → Expr → Expr → Expr
unfolding abstract
fun_over vh x t b = lambda (const_name x) t (abstract vh (x ∷ []) b)

unfoldable pub pi_over : (ℕ → ℕ) → Expr → Expr → Expr → Expr
unfolding abstract
pi_over vh x t b = pi (const_name x) t (abstract vh (x ∷ []) b)

unfoldable pub let_over : (ℕ → ℕ) → Expr → OptExpr → Expr → Expr → Expr
unfolding abstract
let_over vh x t v b = let_in (const_name x) t v (abstract vh (x ∷ []) b)

unfoldable pub let_simp : (ℕ → ℕ) → Expr → Expr → Expr → Expr
unfolding let_over expr_eq
let_simp vh x v b = if expr_eq vh x b then v else let_over vh x absent v b

-- `MkBinder`: the binders of a list, the last one innermost.
unfoldable pub fun_all : (ℕ → ℕ) → List (Expr × Expr) → Expr → Expr
unfolding fun_over
fun_all vh [] b = b
fun_all vh ((x, t) ∷ l) b = fun_over vh x t (fun_all vh l b)

unfoldable pub pi_all : (ℕ → ℕ) → List (Expr × Expr) → Expr → Expr
unfolding pi_over
pi_all vh [] b = b
pi_all vh ((x, t) ∷ l) b = pi_over vh x t (pi_all vh l b)

unfoldable pub let_all : (ℕ → ℕ) → List (Expr × Expr) → Expr → Expr
unfolding let_over
let_all vh [] b = b
let_all vh ((x, v) ∷ l) b = let_over vh x absent v (let_all vh l b)
