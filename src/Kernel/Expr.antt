-- ===== src/Kernel/Expr.antt =====
-- kernel/expr.h and kernel/expr.cpp: kernel expressions. A cell is its content: reference counts,
-- hashes and flags leave no trace, and equal pointers are equal values. A semantic attachment is
-- the number that tells it from others. An application is its first argument, the function, and the
-- array `Exprs` of the others; `OptExpr` is an
-- `optional<expr>`, and `LocalContext` the `list<local_entry>` of a metavariable.
use lean.Base.{Bool, if◌then◌else◌, suc, ℕ, ◌==◌}
use lean.Util.Name.{Name}
use lean.Kernel.Level.{Level}

-- The kinds that share `expr_abstraction`.
pub data Binder : Type 0 where
  lambda_kind pi_kind sigma_kind : Binder

mutual
  pub data Expr : Type 0 where
    var : ℕ → Expr
    constant : Name → OptExpr → Expr
    value : ℕ → Expr
    app : Expr → Exprs → Expr
    pair : Expr → Expr → Expr → Expr
    proj : Bool → Expr → Expr
    abstraction : Binder → Name → Expr → Expr → Expr
    type : Level → Expr
    let_in : Name → OptExpr → Expr → Expr → Expr
    heq : Expr → Expr → Expr
    metavar : Name → LocalContext → Expr

  pub data Exprs : Type 0 where
    nil : Exprs
    cons : Expr → Exprs → Exprs

  pub data OptExpr : Type 0 where
    absent : OptExpr
    present : Expr → OptExpr

  pub data LocalContext : Type 0 where
    empty : LocalContext
    lift_entry : ℕ → ℕ → LocalContext → LocalContext
    inst_entry : ℕ → Expr → LocalContext → LocalContext

pattern abbrev pub lambda : Name → Expr → Expr → Expr
lambda n t b = abstraction lambda_kind n t b

pattern abbrev pub pi : Name → Expr → Expr → Expr
pi n t b = abstraction pi_kind n t b

pattern abbrev pub sigma : Name → Expr → Expr → Expr
sigma n t b = abstraction sigma_kind n t b

abbrev pub length_args : Exprs → ℕ
length_args nil = 0
length_args (cons e es) = suc (length_args es)

abbrev pub append_args : Exprs → Exprs → Exprs
append_args nil ys = ys
append_args (cons x xs) ys = cons x (append_args xs ys)

abbrev pub num_args : Expr → ℕ
num_args (app f xs) = suc (length_args xs)
num_args _ = 0

-- `mk_app`: ((app a b) c) is stored as (app a b c). The array is copied as it stands where the
-- head is an application of one term, since then the two sizes agree.
unfoldable pub mk_app : Expr → Exprs → Expr
mk_app (app f xs) ys =
    if num_args (app f xs) == 1 then app (app f xs) ys else app f (append_args xs ys)
mk_app f ys = app f ys

abbrev pub append_context : LocalContext → LocalContext → LocalContext
append_context empty d = d
append_context (lift_entry s n c) d = lift_entry s n (append_context c d)
append_context (inst_entry s v c) d = inst_entry s v (append_context c d)
