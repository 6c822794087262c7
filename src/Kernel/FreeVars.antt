-- ===== src/Kernel/FreeVars.antt =====
-- kernel/free_vars.cpp and, for the entries of a local context, kernel/metavar.cpp. A metavariable
-- environment is read only for the size of a metavariable's context, and `none` is its absence.
-- The caches and the `is_closed` flag hold results of these functions, and leave no trace.
pub mod Lift
use lean.Base.{
  if◌then◌else◌, ltb, max, none, some, ◌&&◌, ◌-◌, ◌==◌, Bool, Option, add32, false, leb, not, true,
  ℕ,
}
use lean.Kernel.Expr.{
  Expr, Exprs, OptExpr, LocalContext, var, constant, value, app, pair, proj, abstraction, type,
  let_in, heq, metavar, nil, cons, absent, present, empty, lift_entry, inst_entry,
}
use lean.Util.Name.{Name}
use lean.Base.{◌||◌}

abbrev pub MenvSizes : Type 0
MenvSizes = Option (Name → ℕ)

-- `has_free_vars_fn::apply` in terms of `apply_core`: below a binder the offset 0 is tried first.
abbrev pub apply : (ℕ → Bool) → ℕ → Bool
apply core o = if o == 0 then core 0 else core 0 && core o

-- `has_free_vars_fn::apply_core`: a metavariable counts as having free variables.
unfoldable mutual
  pub has_free_vars_core : Expr → ℕ → Bool
  has_free_vars_core (var i) o = leb o i
  has_free_vars_core (constant n t) o = has_free_vars_opt t o
  has_free_vars_core (value v) o = false
  has_free_vars_core (app f xs) o = apply (has_free_vars_core f) o || has_free_vars_args xs o
  has_free_vars_core (pair a b t) o =
      apply (has_free_vars_core a) o
      || apply (has_free_vars_core b) o
      || apply (has_free_vars_core t) o
  has_free_vars_core (proj i e) o = apply (has_free_vars_core e) o
  has_free_vars_core (abstraction k n t b) o =
      apply (has_free_vars_core t) o || apply (has_free_vars_core b) (add32 o 1)
  has_free_vars_core (type l) o = false
  has_free_vars_core (let_in n t v b) o =
      has_free_vars_opt t o
      || apply (has_free_vars_core v) o
      || apply (has_free_vars_core b) (add32 o 1)
  has_free_vars_core (heq a b) o = apply (has_free_vars_core a) o || apply (has_free_vars_core b) o
  has_free_vars_core (metavar n c) o = true

  pub has_free_vars_args : Exprs → ℕ → Bool
  has_free_vars_args nil o = false
  has_free_vars_args (cons e es) o = apply (has_free_vars_core e) o || has_free_vars_args es o

  pub has_free_vars_opt : OptExpr → ℕ → Bool
  has_free_vars_opt absent o = false
  has_free_vars_opt (present e) o = apply (has_free_vars_core e) o

abbrev pub has_free_vars : Expr → Bool
has_free_vars e = has_free_vars_core e 0

abbrev pub closed : Expr → Bool
closed e = not (has_free_vars e)

abbrev pub dec : ℕ → ℕ
dec s = if s == 0 then 0 else s - 1

-- `free_var_range_fn`; its `process_metavar` takes the entries of a local context from the last.
unfoldable mutual
  pub range : MenvSizes → Expr → ℕ
  range menv (var i) = add32 i 1
  range menv (constant n t) = range_opt menv t
  range menv (value v) = 0
  range menv (app f xs) = max (range menv f) (range_args menv xs)
  range menv (pair a b t) = max (max (range menv a) (range menv b)) (range menv t)
  range menv (proj i e) = range menv e
  range menv (abstraction k n t b) = max (range menv t) (dec (range menv b))
  range menv (type l) = 0
  range menv (let_in n t v b) = max (max (range_opt menv t) (range menv v)) (dec (range menv b))
  range menv (heq a b) = max (range menv a) (range menv b)
  range menv (metavar n c) = range_context menv n c

  pub range_args : MenvSizes → Exprs → ℕ
  range_args menv nil = 0
  range_args menv (cons e es) = max (range menv e) (range_args menv es)

  pub range_opt : MenvSizes → OptExpr → ℕ
  range_opt menv absent = 0
  range_opt menv (present e) = range menv e

  pub range_context : MenvSizes → Name → LocalContext → ℕ
  range_context none n c = 4294967295
  range_context (some size) n empty = size n
  range_context (some size) n (inst_entry s v c) =
      let r = range_context (some size) n c in
      let rv = range (some size) v in if ltb s r then max (dec r) rv else r
  range_context (some size) n (lift_entry s k c) =
      let r = range_context (some size) n c in if ltb s r then add32 r k else r

-- `free_var_range(e, menv)` and `free_var_range(e)`.
unfoldable pub free_var_range : MenvSizes → Expr → ℕ
unfolding range has_free_vars_core
free_var_range none e = range none e
free_var_range (some size) e = if closed e then 0 else range (some size) e

-- `ge_lower` and `lt_upper` of `has_free_var_in_range_fn`: a sum that wraps round is past every index.
abbrev pub ge_lower : ℕ → ℕ → ℕ → Bool
ge_lower low i o = if ltb (add32 low o) low then false else leb (add32 low o) i

abbrev pub lt_upper : ℕ → ℕ → ℕ → Bool
lt_upper high i o = if ltb (add32 high o) high then true else ltb i (add32 high o)

-- `has_free_var_in_range_fn`
unfoldable mutual
  unfolding range

  pub in_range : MenvSizes → ℕ → ℕ → Expr → ℕ → Bool
  in_range menv low high (var i) o = ge_lower low i o && lt_upper high i o
  in_range menv low high (constant n t) o = in_range_opt menv low high t o
  in_range menv low high (value v) o = false
  in_range menv low high (app f xs) o =
      in_range menv low high f o || in_range_args menv low high xs o
  in_range menv low high (pair a b t) o =
      in_range menv low high a o || in_range menv low high b o || in_range menv low high t o
  in_range menv low high (proj i e) o = in_range menv low high e o
  in_range menv low high (abstraction k n t b) o =
      in_range menv low high t o || in_range menv low high b (add32 o 1)
  in_range menv low high (type l) o = false
  in_range menv low high (let_in n t v b) o =
      in_range_opt menv low high t o
      || in_range menv low high v o
      || in_range menv low high b (add32 o 1)
  in_range menv low high (heq a b) o = in_range menv low high a o || in_range menv low high b o
  in_range none low high (metavar n c) o = true
  in_range (some size) low high (metavar n c) o =
      let r = range_context (some size) n c in if ltb 0 r then ge_lower low (r - 1) o else false

  pub in_range_args : MenvSizes → ℕ → ℕ → Exprs → ℕ → Bool
  in_range_args menv low high nil o = false
  in_range_args menv low high (cons e es) o =
      in_range menv low high e o || in_range_args menv low high es o

  pub in_range_opt : MenvSizes → ℕ → ℕ → OptExpr → ℕ → Bool
  in_range_opt menv low high absent o = false
  in_range_opt menv low high (present e) o = in_range menv low high e o

-- `has_free_var(e, low, high, menv)`
unfoldable pub has_free_var : MenvSizes → ℕ → ℕ → Expr → Bool
unfolding in_range has_free_vars_core
has_free_var menv low high e = ltb low high && not (closed e) && in_range menv low high e 0

-- `has_free_var_ge`
unfoldable pub has_free_var_ge : MenvSizes → ℕ → Expr → Bool
unfolding has_free_var
has_free_var_ge menv low e = has_free_var menv low 4294967295 e
