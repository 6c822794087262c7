-- ===== src/Kernel/ExprEq.antt =====
-- kernel/expr_eq.h: `expr_eq_fn`, which is `operator==` on expressions, and the hash of a cell as the
-- constructors of kernel/expr.cpp fill it. The set of visited pairs and the test for equal pointers
-- only cut short comparisons that are being made or that answer true. `value_hash` is the hash of a
-- semantic attachment, which its own class computes.
pub mod Complete
pub mod Erasure
use lean.Base.{Bool, List, [], false, not, true, ℕ, ◌&&◌, ◌==◌, ◌∷◌}
use lean.Kernel.Expr.{
  Expr, Exprs, OptExpr, LocalContext, Binder, lambda_kind, pi_kind, sigma_kind, var, constant,
  value, app, pair, proj, abstraction, type, let_in, heq, metavar, nil, cons, absent, present,
  empty, lift_entry, inst_entry, length_args,
}
use lean.Kernel.Level.{Level, Levels, uvar, lift, maximum, level_eq}
use lean.Util.Hash.{hash, hash_values}
use lean.Util.Name.{name_hash, name_eq}

-- `level::hash`
unfoldable mutual
  unfolding hash hash_values name_hash

  pub level_hash : Level → ℕ
  level_hash (uvar n) = name_hash n
  level_hash (lift l k) = hash (level_hash l) k
  level_hash (maximum ls) = hash_values (levels_hash ls) 31

  pub levels_hash : Levels → List ℕ
  levels_hash Levels.nil = []
  levels_hash (Levels.cons l ls) = level_hash l ∷ levels_hash ls

-- The field `m_hash`.
unfoldable mutual
  unfolding hash hash_values name_hash level_hash

  pub expr_hash : (ℕ → ℕ) → Expr → ℕ
  expr_hash vh (var i) = i
  expr_hash vh (constant n t) = name_hash n
  expr_hash vh (value v) = vh v
  expr_hash vh (app f xs) = hash_values (expr_hash vh f ∷ hash_args vh xs) 31
  expr_hash vh (pair a b t) = hash (expr_hash vh a) (expr_hash vh b)
  expr_hash vh (proj i e) = hash 17 (expr_hash vh e)
  expr_hash vh (abstraction k n t b) = hash (expr_hash vh t) (expr_hash vh b)
  expr_hash vh (type l) = level_hash l
  expr_hash vh (let_in n t v b) = hash (expr_hash vh v) (expr_hash vh b)
  expr_hash vh (heq a b) = hash (expr_hash vh a) (expr_hash vh b)
  expr_hash vh (metavar n c) = name_hash n

  pub hash_args : (ℕ → ℕ) → Exprs → List ℕ
  hash_args vh nil = []
  hash_args vh (cons e es) = expr_hash vh e ∷ hash_args vh es

abbrev pub binder_eq : Binder → Binder → Bool
binder_eq lambda_kind lambda_kind = true
binder_eq pi_kind pi_kind = true
binder_eq sigma_kind sigma_kind = true
binder_eq _ _ = false

abbrev pub bool_eq : Bool → Bool → Bool
bool_eq true b = b
bool_eq false b = not b

abbrev pub same_hash : (ℕ → ℕ) → Expr → Expr → Bool
same_hash vh a b = expr_hash vh a == expr_hash vh b

-- `expr_eq_fn::apply`: the hashes are compared first, then the kinds, then the parts. Names of
-- binders and types of constants are ignored.
unfoldable mutual
  unfolding expr_hash name_eq level_eq

  pub parts_eq : (ℕ → ℕ) → Expr → Expr → Bool
  parts_eq vh (var i) (var j) = i == j
  parts_eq vh (constant m s) (constant n t) = name_eq m n
  parts_eq vh (value v) (value w) = v == w
  parts_eq vh (app f xs) (app g ys) =
      (length_args xs == length_args ys)
      && (same_hash vh f g && parts_eq vh f g)
      && args_eq vh xs ys
  parts_eq vh (pair a b t) (pair a' b' t') =
      (same_hash vh a a' && parts_eq vh a a')
      && (same_hash vh b b' && parts_eq vh b b')
      && (same_hash vh t t' && parts_eq vh t t')
  parts_eq vh (proj i e) (proj j e') = bool_eq i j && (same_hash vh e e' && parts_eq vh e e')
  parts_eq vh (abstraction k m t b) (abstraction l n t' b') =
      binder_eq k l
      && (same_hash vh t t' && parts_eq vh t t')
      && (same_hash vh b b' && parts_eq vh b b')
  parts_eq vh (type l) (type l') = level_eq l l'
  parts_eq vh (let_in m t v b) (let_in n t' v' b') =
      opt_eq vh t t'
      && (same_hash vh v v' && parts_eq vh v v')
      && (same_hash vh b b' && parts_eq vh b b')
  parts_eq vh (heq a b) (heq a' b') =
      (same_hash vh a a' && parts_eq vh a a') && (same_hash vh b b' && parts_eq vh b b')
  parts_eq vh (metavar m c) (metavar n d) = name_eq m n && context_eq vh c d
  parts_eq vh _ _ = false

  pub args_eq : (ℕ → ℕ) → Exprs → Exprs → Bool
  args_eq vh nil nil = true
  args_eq vh (cons a as') (cons b bs) = (same_hash vh a b && parts_eq vh a b) && args_eq vh as' bs
  args_eq vh _ _ = false

  pub opt_eq : (ℕ → ℕ) → OptExpr → OptExpr → Bool
  opt_eq vh absent absent = true
  opt_eq vh (present a) (present b) = same_hash vh a b && parts_eq vh a b
  opt_eq vh _ _ = false

  pub context_eq : (ℕ → ℕ) → LocalContext → LocalContext → Bool
  context_eq vh empty empty = true
  context_eq vh (lift_entry s m c) (lift_entry t n d) = (s == t) && (m == n) && context_eq vh c d
  context_eq vh (inst_entry s v c) (inst_entry t w d) =
      (s == t) && (same_hash vh v w && parts_eq vh v w) && context_eq vh c d
  context_eq vh _ _ = false

unfoldable pub expr_eq : (ℕ → ℕ) → Expr → Expr → Bool
unfolding parts_eq
expr_eq vh a b = same_hash vh a b && parts_eq vh a b
