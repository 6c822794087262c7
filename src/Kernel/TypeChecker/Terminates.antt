-- ===== src/Kernel/TypeChecker/Terminates.antt =====
-- kernel/type_checker.cpp: the recursion of `infer_type_core` ends.
use lean.Base.{
  subst, Bool, Option, Option-cases, [], arith, false, inl, inr, none, refl, some, suc, true, zero,
  ℕ, ◌+◌, ◌<◌, ◌>>=◌, ◌∷◌, ◌≡◌, ◌≤◌,
}
use lean.Kernel.Context.{Context, ContextEntry, lookup, lookup_ext}
use lean.Kernel.Conversion.{RoEnvironment}
use lean.Kernel.Expr.{
  Expr, Exprs, OptExpr, var, constant, value, app, pair, proj, abstraction, type, let_in, heq,
  metavar, nil, cons, absent, present, lambda, pi, sigma,
}
use lean.Kernel.TypeChecker.{
  Checker, types_of, type_of_var, type_of_body, let_type_of, check_domain, check_pair, infer_step,
  infer_to, extend, extend_let,
}
use lean.Kernel.TypeChecker.Entry.{reach, reach_args, reach_opt, reach_context}
use mathlib.Core.Option.{some-injective}

>>=-cong :
    {A B : Type 0} (x : Option A) {f g : A → Option B}
    → ((a : A) → f a ≡ g a)
    → (x >>= f) ≡ (x >>= g)
>>=-cong none h = refl
>>=-cong (some a) h = h a

pub reach_positive : (e : Expr) → 1 ≤ reach e
reach_positive (app f xs) = omega arith
reach_positive (pair a b t) = omega arith
reach_positive (proj first a) = omega arith
reach_positive (abstraction k n d b) = omega arith
reach_positive (let_in n t v b) = omega arith
reach_positive (heq a b) = omega arith
reach_positive e = omega arith

lookup_ext-reach :
    (ctx : Context) (i : ℕ) (e : ContextEntry) (rest : Context)
    → lookup_ext ctx i ≡ some (e, rest)
    → reach_opt e.body + reach_context rest ≤ reach_context ctx
unfolding lookup_ext
lookup_ext-reach [] i e rest h = absurd (ground arith)
lookup_ext-reach (x ∷ c) zero e rest h =
    subst (λ p. reach_opt p.0.body + reach_context p.1 ≤ reach_opt x.body + reach_context c)
      (some-injective _ _ h) (omega arith)
lookup_ext-reach (x ∷ c) (suc i) e rest h = omega (arith, lookup_ext-reach c i e rest h)

-- Two checkers that give the same answer below a bound.
abbrev Agree : Checker → Checker → ℕ → Type 0
Agree r1 r2 m = (e : Expr) (ctx : Context) → reach e + reach_context ctx < m → r1 e ctx ≡ r2 e ctx

module _ (env : RoEnvironment) (r1 r2 : Checker) where
  types_of-Agree :
      (xs : Exprs) (ctx : Context) (m : ℕ)
      → Agree r1 r2 m
      → reach_args xs + reach_context ctx < m
      → types_of r1 xs ctx ≡ types_of r2 xs ctx
  types_of-Agree nil ctx m agree le = refl
  types_of-Agree (cons x xs) ctx m agree le =
      rw (agree x ctx (omega arith), types_of-Agree xs ctx m agree (omega arith))

  type_of_body-Agree :
      (o : OptExpr) (rest : Context) (i m : ℕ)
      → Agree r1 r2 m
      → reach_opt o + reach_context rest < m
      → type_of_body r1 o rest i ≡ type_of_body r2 o rest i
  type_of_body-Agree absent rest i m agree le = refl
  type_of_body-Agree (present b) rest i m agree le = rw (agree b rest le)

  type_of_var-Agree :
      (o : OptExpr) (ctx : Context) (i m : ℕ)
      → Agree r1 r2 m
      → reach_context ctx < m
      → type_of_var r1 o ctx i ≡ type_of_var r2 o ctx i
  type_of_var-Agree (present d) ctx i m agree le = refl
  type_of_var-Agree absent ctx i m agree le = elim (Option-cases (lookup_ext ctx i)) [
    | inl e ↦ rw e refl
    | inr ((d, rest), e) ↦
        rw e (
          type_of_body-Agree d.body rest i m agree (omega (arith, lookup_ext-reach ctx i d rest e)))
  ]

  let_type_of-Agree :
      (only : Bool) (o : OptExpr) (v : Expr) (ctx : Context) (m : ℕ)
      → Agree r1 r2 m
      → reach_opt o + reach v + reach_context ctx < m
      → let_type_of env only r1 o v ctx ≡ let_type_of env only r2 o v ctx
  unfolding let_type_of
  let_type_of-Agree true o v ctx m agree le = refl
  let_type_of-Agree false (present t) v ctx m agree le =
      rw (agree v ctx (omega arith), agree t ctx (omega arith))
  let_type_of-Agree false absent v ctx m agree le = rw (agree v ctx (omega arith))

  check_domain-Agree :
      (only : Bool) (d : Expr) (ctx : Context) (m : ℕ)
      → Agree r1 r2 m
      → reach d + reach_context ctx < m
      → check_domain env only r1 d ctx ≡ check_domain env only r2 d ctx
  unfolding check_domain
  check_domain-Agree true d ctx m agree le = refl
  check_domain-Agree false d ctx m agree le = rw (agree d ctx le)

  infer_step-Agree :
      (only : Bool) (e : Expr) (ctx : Context)
      → Agree r1 r2 (reach e + reach_context ctx)
      → infer_step env only r1 e ctx ≡ infer_step env only r2 e ctx
  unfolding infer_step check_pair
  infer_step-Agree only (metavar n c) ctx agree = refl
  infer_step-Agree only (constant n o) ctx agree = refl
  infer_step-Agree only (var i) ctx agree =
      >>=-cong (lookup ctx i) (λ e. type_of_var-Agree e.domain ctx i _ agree (omega arith))
  infer_step-Agree only (value v) ctx agree = refl
  infer_step-Agree only (type l) ctx agree = refl
  infer_step-Agree true (heq a b) ctx agree = refl
  infer_step-Agree false (heq a b) ctx agree =
      rw (agree a ctx (omega arith), agree b ctx (omega arith))
  infer_step-Agree true (app f xs) ctx agree = rw (agree f ctx (omega arith))
  infer_step-Agree false (app f xs) ctx agree =
      rw
        (agree f ctx (omega arith), types_of-Agree xs ctx _ agree (omega (arith, reach_positive f)))
  infer_step-Agree true (pair a b t) ctx agree = refl
  infer_step-Agree false (pair a b t) ctx agree =
      rw (agree a ctx (omega arith), agree b ctx (omega arith))
  infer_step-Agree only (proj first a) ctx agree = rw (agree a ctx (omega arith))
  infer_step-Agree only (lambda n d b) ctx agree =
      rw (
        check_domain-Agree only d ctx _ agree (omega arith),
        agree b (extend ctx n d) (omega arith),
      )
  infer_step-Agree only (pi n d b) ctx agree =
      rw (agree d ctx (omega arith), agree b (extend ctx n d) (omega arith))
  infer_step-Agree only (sigma n d b) ctx agree =
      rw (agree d ctx (omega arith), agree b (extend ctx n d) (omega arith))
  infer_step-Agree only (let_in n o v b) ctx agree =
      rw (let_type_of-Agree only o v ctx _ agree (omega (arith, reach_positive b))) (
        >>=-cong (let_type_of env only r2 o v ctx)
          (λ lt. rw (agree b (extend_let ctx n lt v) (omega arith))))

-- `infer_type_core` ends: with or without `m_infer_only`, at any depth of calls from as many as the
-- expression and the definitions of the context have cells, the answer is the same, whatever is
-- answered where that depth is used up.
pub infer_to_enough :
    (env : RoEnvironment) (only : Bool) (base1 base2 : Checker) (n m : ℕ) (e : Expr) (ctx : Context)
    → reach e + reach_context ctx ≤ n
    → reach e + reach_context ctx ≤ m
    → infer_to env only base1 n e ctx ≡ infer_to env only base2 m e ctx
unfolding infer_to
infer_to_enough env only base1 base2 zero m e ctx h1 h2 = absurd (omega (arith, reach_positive e))
infer_to_enough env only base1 base2 (suc n) zero e ctx h1 h2 =
    absurd (omega (arith, reach_positive e))
infer_to_enough env only base1 base2 (suc n) (suc m) e ctx h1 h2 =
    infer_step-Agree env (infer_to env only base1 n) (infer_to env only base2 m) only e ctx
      (λ d c le. infer_to_enough env only base1 base2 n m d c (omega arith) (omega arith))
