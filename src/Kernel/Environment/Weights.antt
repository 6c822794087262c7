-- ===== src/Kernel/Environment/Weights.antt =====
-- kernel/environment.cpp: the weight of a definition against those of the constants in its value.
use lean.Base.{
  Bool, add32_small, false, ◌<◌, Bool-cases, Option, arith, inl, inr, is_some, none, refl, some,
  subst, true, ◌≡◌, ◌≤◌, ◌⊎◌,
}
use lean.Kernel.Context.{Context}
use lean.Kernel.Environment.{Environment, get_object_core, register_named_object}
use lean.Kernel.Environment.Accepted.{set_opaque_if-Changes}
use lean.Kernel.Environment.Changes.{unchanged, both, guard_true}
use lean.Kernel.Environment.Names.{get_object_core-register}
use lean.Kernel.Environment.Permanent.{SameUpToFlag, Changes-Still}
use lean.Kernel.Object.{Object, ValueClasses, definition}
use lean.Kernel.Environment.Declare.{
  add_definition, weight_of, get_max_weight, max_weight_args, max_weight_opt,
}
use lean.Kernel.Expr.{
  Expr, Exprs, OptExpr, var, constant, value, app, pair, proj, abstraction, type, let_in, heq,
  metavar, nil, cons, absent, present,
}
use lean.Kernel.ForEach.{is_constant_named}
use lean.Kernel.ForEach.Parts.{first_part, first_args, first_opt, or_else}
use lean.Util.Name.{Name, name_eq}
use lean.Util.Name.Equality.{name_eq_iff}
use lean.Kernel.Environment.Declare.{new_weight}

found_in :
    {A : Type 0} (x y : Option A)
    → is_some (or_else x y) ≡ true
    → (is_some x ≡ true) ⊎ (is_some y ≡ true)
found_in none y h = inr h
found_in (some a) y h = inl refl

-- The name stands in the expression as a constant.
abbrev pub Mentions : Name → Expr → Type 0
Mentions c e = is_some (first_part (is_constant_named c) e) ≡ true

module _ (env : Environment) (c : Name) where
  mutual
    unfolding get_max_weight first_part

    get_max_weight-part : (e : Expr) → Mentions c e → weight_of env c ≤ get_max_weight env e
    get_max_weight-part (constant n t) h = elim (Bool-cases (name_eq n c)) [
      | inl e ↦
          subst (λ m. weight_of env m ≤ get_max_weight env (constant n t)) ((name_eq_iff n c).0 e)
            (omega arith)
      | inr e ↦ omega (arith, max_weight_opt-part t (rw e at h))
    ]
    get_max_weight-part (app f xs) h = elim (found_in _ _ h) [
      | inl k ↦ omega (arith, get_max_weight-part f k)
      | inr k ↦ omega (arith, max_weight_args-part xs k)
    ]
    get_max_weight-part (pair a b t) h = elim (found_in _ _ h) [
      | inl k ↦ omega (arith, get_max_weight-part t k)
      | inr k ↦ elim (found_in _ _ k) [
        | inl m ↦ omega (arith, get_max_weight-part b m)
        | inr m ↦ omega (arith, get_max_weight-part a m)
      ]
    ]
    get_max_weight-part (proj first a) h = get_max_weight-part a h
    get_max_weight-part (abstraction k n d b) h = elim (found_in _ _ h) [
      | inl m ↦ omega (arith, get_max_weight-part d m)
      | inr m ↦ omega (arith, get_max_weight-part b m)
    ]
    get_max_weight-part (let_in n t v b) h = elim (found_in _ _ h) [
      | inl k ↦ omega (arith, max_weight_opt-part t k)
      | inr k ↦ elim (found_in _ _ k) [
        | inl m ↦ omega (arith, get_max_weight-part v m)
        | inr m ↦ omega (arith, get_max_weight-part b m)
      ]
    ]
    get_max_weight-part (heq a b) h = elim (found_in _ _ h) [
      | inl m ↦ omega (arith, get_max_weight-part b m)
      | inr m ↦ omega (arith, get_max_weight-part a m)
    ]
    get_max_weight-part (var i) h = absurd (ground arith)
    get_max_weight-part (value v) h = absurd (ground arith)
    get_max_weight-part (type l) h = absurd (ground arith)
    get_max_weight-part (metavar n k) h = absurd (ground arith)

    max_weight_args-part :
        (es : Exprs)
        → is_some (first_args (is_constant_named c) es) ≡ true
        → weight_of env c ≤ max_weight_args env es
    max_weight_args-part nil h = absurd (ground arith)
    max_weight_args-part (cons e es) h = elim (found_in _ _ h) [
      | inl m ↦ omega (arith, get_max_weight-part e m)
      | inr m ↦ omega (arith, max_weight_args-part es m)
    ]

    max_weight_opt-part :
        (o : OptExpr)
        → is_some (first_opt (is_constant_named c) o) ≡ true
        → weight_of env c ≤ max_weight_opt env o
    max_weight_opt-part absent h = absurd (ground arith)
    max_weight_opt-part (present e) h = get_max_weight-part e h

new_weight_greater :
    (env : Environment) (v : Expr) (c : Name)
    → Mentions c v
    → get_max_weight env v < 4294967295
    → weight_of env c < new_weight env v
new_weight_greater env v c h small =
    ground (arith, get_max_weight-part env c v h, add32_small (get_max_weight env v) 1)

module _ (vs : ValueClasses) (normalize : Environment → Expr → Context → Option Expr) where
  -- After `add_definition(n, t, v, opaque)`, where it does not throw, the name stands for a definition
  -- with this type and value, whose weight is greater than that of the object of every constant in the
  -- value, where the greatest of those weights is below 2^32 - 1.
  pub add_definition-weight_of :
      (env : Environment) (n : Name) (t v : Expr) (opaque : Bool) (c : Name) {e : Environment}
      → add_definition vs normalize env n t v opaque ≡ some e
      → Mentions c v
      → get_max_weight env v < 4294967295
      → (p : Object) × (get_object_core e n ≡ some p)
        × SameUpToFlag (definition n t v opaque (new_weight env v)) p
        × (weight_of env c < new_weight env v)
  unfolding add_definition
  add_definition-weight_of env n t v opaque c h m small =
      let (g, k) = guard_true _ _ h in
      let (g1, _) = both _ _ g in
      let o = definition n t v false (new_weight env v) in
      let named = register_named_object env n o in
      let changes = set_opaque_if-Changes vs normalize opaque named n unchanged k in
      let (p, found, same) =
        Changes-Still vs normalize changes n o (get_object_core-register env n o (both _ _ g1).1) in
      (p, found, same, new_weight_greater env v c m small)
