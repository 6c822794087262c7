-- ===== src/Kernel/TypeChecker.antt =====
-- kernel/type_checker.cpp: types of expressions, as the kernel calls it: without a metavariable
-- environment and without a buffer for unification constraints. The cache, which holds earlier
-- results, leaves no trace. `none` is an exception.
pub mod Typing
pub mod Entry
pub mod Arguments
pub mod Sorts
pub mod Sound
pub mod Terminates
use lean.Base.{
  ◌+◌, add32, suc, zero, Bool, Option, [], false, if◌then◌else◌, none, not, some, true, ℕ, ◌&&◌,
  ◌>>=◌, ◌||◌, ◌∷◌, pos,
}
use lean.Kernel.Conversion.{
  RoEnvironment, bool_type, is_bool, is_type, is_pi, is_sigma, abst_domain, abst_body, expose,
  check_sort, check_pi, check_sigma, require,
}
use lean.Kernel.Expr.{
  Expr, Exprs, OptExpr, Binder, var, constant, value, app, pair, proj, abstraction, type, let_in,
  heq, metavar, nil, cons, absent, present, lambda_kind, pi_kind, sigma_kind, lambda, pi, sigma,
}
use lean.Kernel.Context.{Context, ContextEntry, lookup, lookup_ext}
use lean.Kernel.ExprEq.{expr_eq}
use lean.Kernel.FreeVars.{closed, has_free_var}
use lean.Kernel.FreeVars.Lift.{lift_free_vars, lower_free_vars}
use lean.Kernel.Instantiate.{instantiate, instantiate_with_closed}
use lean.Kernel.Level.{Level, bottom, plus, level_max}
use lean.Kernel.Universes.{is_ge}
use lean.Kernel.UniverseConstraints.{Constraints}
use lean.Util.Name.{Name, name_eq, anonymous, str}

-- `instantiate(e, v)`
abbrev pub instantiate_one : Expr → Expr → Expr
instantiate_one e v = instantiate none 0 (v ∷ []) e

-- The range `b` of a Sigma at `a`, in the case for projections.
unfoldable pub range_at : Expr → Expr → Expr
unfolding instantiate
range_at b a = if closed b then b else instantiate_one b a

-- `pi_body_at`
unfoldable pub pi_body_at : Expr → Expr → Expr
unfolding instantiate instantiate_with_closed
pi_body_at t a =
    if closed (abst_body t)
    then abst_body t
    else if closed a
    then instantiate_with_closed none (a ∷ []) (abst_body t)
    else instantiate_one (abst_body t) a

-- `is_arrow`
unfoldable pub is_arrow : Expr → Bool
unfolding has_free_var
is_arrow t = is_pi t && not (has_free_var none 0 1 (abst_body t))

-- `get_pi_body`
unfoldable pub get_pi_body : Expr → Expr → Expr
unfolding is_arrow lower_free_vars instantiate
get_pi_body t a =
    if is_arrow t then lower_free_vars 1 1 (abst_body t) else instantiate_one (abst_body t) a

abbrev pub Checker : Type 0
Checker = Expr → Context → Option Expr

-- `extend(c, n, d)`
abbrev pub extend : Context → Name → Expr → Context
extend c n d = record { entry_name = n; domain = present d; body = absent } ∷ c

abbrev pub extend_let : Context → Name → OptExpr → Expr → Context
extend_let c n t v = record { entry_name = n; domain = t; body = present v } ∷ c

abbrev pub types_of : Checker → Exprs → Context → Option Exprs
types_of rec nil ctx = some nil
types_of rec (cons a xs) ctx = do t ← rec a ctx; ts ← types_of rec xs ctx; some (cons t ts)

-- `Bool` where a type is expected is `Type`.
abbrev pub as_type : Expr → Expr
as_type t = if is_bool t then type bottom else t

abbrev pub max_type : Expr → Expr → Option Expr
max_type (type l1) (type l2) = some (type (level_max l1 l2))
max_type t1 t2 = none

abbrev pub is_pi_kind : Binder → Bool
is_pi_kind pi_kind = true
is_pi_kind k = false

-- The type of a Pi or of a Sigma from the sorts of its domain and its range.
unfoldable pub sort_of : Binder → Expr → Expr → Option Expr
unfolding is_bool level_max
sort_of k t1 t2 =
    if is_bool t2 && is_pi_kind k then some bool_type else max_type (as_type t1) (as_type t2)

-- The case for a variable: the domain of its entry, or the type of its body.
abbrev pub type_of_body : Checker → OptExpr → Context → ℕ → Option Expr
type_of_body rec absent ctx i = none
type_of_body rec (present b) ctx i = do t ← rec b ctx; some (lift_free_vars none 0 (add32 i 1) t)

abbrev pub type_of_var : Checker → OptExpr → Context → ℕ → Option Expr
type_of_var rec (present d) ctx i = some (lift_free_vars none 0 (add32 i 1) d)
type_of_var rec absent ctx i = do (e, def_ctx) ← lookup_ext ctx i; type_of_body rec e.body def_ctx i

module _ (env : RoEnvironment) where
  -- `get_range`, for the arguments that are left.
  unfoldable pub get_range : Expr → Exprs → Context → Option Expr
  unfolding expose get_pi_body
  get_range t nil ctx = some t
  get_range t (cons a xs) ctx = do p ← check_pi env t ctx; get_range (get_pi_body p a) xs ctx

  -- The loop of the case for applications: the arguments against their types.
  unfoldable pub check_args : Expr → Exprs → Exprs → Context → Option Expr
  unfolding require pi_body_at
  check_args f_t (cons c nil) (cons c_t ts) ctx =
      require env c_t (abst_domain f_t) ctx (pi_body_at f_t c)
  check_args f_t (cons c xs) (cons c_t ts) ctx = do
    r ← require env c_t (abst_domain f_t) ctx (pi_body_at f_t c)
    p ← check_pi env r ctx
    check_args p xs ts ctx
  check_args f_t xs ts ctx = none

  abbrev pub type_of_constant : Name → OptExpr → Option Expr
  type_of_constant n (present t) = some t
  type_of_constant n absent = env.object_type n

  -- The type that the variable of a `let` gets.
  unfoldable pub let_type_of : Bool → Checker → OptExpr → Expr → Context → Option OptExpr
  unfolding expose require
  let_type_of true rec t v ctx = some t
  let_type_of false rec (present t) v ctx = do
    value_ty ← rec v ctx
    ty ← rec t ctx
    _ ← check_sort env ty ctx
    r ← require env value_ty t ctx t
    some (present r)
  let_type_of false rec absent v ctx = do t ← rec v ctx; some (present t)

  -- The domain of a lambda is checked to be a type, but not with `m_infer_only`.
  unfoldable pub check_domain : Bool → Checker → Expr → Context → Option Expr
  unfolding expose
  check_domain true rec d ctx = some d
  check_domain false rec d ctx = do s ← rec d ctx; _ ← check_sort env s ctx; some d

  unfoldable pub check_pair : Checker → Expr → Expr → Expr → Context → Option Expr
  unfolding expose require instantiate
  check_pair rec a b t ctx = do
    sig ← check_sigma env t ctx
    f_t ← rec a ctx
    s_t ← rec b ctx
    _ ← require env f_t (abst_domain sig) ctx sig
    require env s_t (instantiate_one (abst_body sig) a) ctx sig

  -- One call of `infer_type_core`, for the calls that it makes; the flag is `m_infer_only`.
  unfoldable pub infer_step : Bool → Checker → Expr → Context → Option Expr
  unfolding range_at lookup lookup_ext lift_free_vars plus expose get_range check_args sort_of
      let_type_of check_domain check_pair instantiate
  infer_step only rec (metavar n c) ctx = none
  infer_step only rec (constant n t) ctx = type_of_constant n t
  infer_step only rec (var i) ctx = do entry ← lookup ctx i; type_of_var rec entry.domain ctx i
  infer_step only rec (value v) ctx =
      if only || env.is_registered v then some (env.value_type v) else none
  infer_step only rec (type l) ctx = do m ← plus l 1; some (type m)
  infer_step true rec (heq a b) ctx = some bool_type
  infer_step false rec (heq a b) ctx = do _ ← rec a ctx; _ ← rec b ctx; some bool_type
  infer_step true rec (app f xs) ctx = do f_t ← rec f ctx; get_range f_t xs ctx
  infer_step false rec (app f xs) ctx = do
    t ← rec f ctx
    ts ← types_of rec xs ctx
    f_t ← check_pi env t ctx
    check_args f_t xs ts ctx
  infer_step true rec (pair a b t) ctx = some t
  infer_step false rec (pair a b t) ctx = check_pair rec a b t ctx
  infer_step only rec (proj first a) ctx = do
    t ← rec a ctx
    sig ← check_sigma env t ctx
    some (if first then abst_domain sig else range_at (abst_body sig) (proj true a))
  infer_step only rec (lambda n d b) ctx = do
    _ ← check_domain only rec d ctx
    t ← rec b (extend ctx n d)
    some (pi n d t)
  infer_step only rec (abstraction k n d b) ctx = do
    t1 ← rec d ctx
    s1 ← check_sort env t1 ctx
    t2 ← rec b (extend ctx n d)
    s2 ← check_sort env t2 (extend ctx n d)
    sort_of k s1 s2
  infer_step only rec (let_in n t v b) ctx = do
    lt ← let_type_of only rec t v ctx
    r ← rec b (extend_let ctx n lt v)
    some (instantiate_one r v)

  -- `infer_type_core`, to a depth of calls; `base` answers below that.
  unfoldable pub infer_to : Bool → Checker → ℕ → Checker
  unfolding infer_step
  infer_to only base zero = base
  infer_to only base (suc n) = infer_step only (infer_to only base n)
