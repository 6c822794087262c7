-- ===== src/Kernel/Environment/Changes.antt =====
-- kernel/environment.cpp: what a call may do to an environment: it declares what the type checker
-- has accepted, under a name that is not declared yet, sets flags, adds bookkeeping, and adds
-- universe constraints that contradict none of those it has.
use lean.Base.{
  Bool-cases, >>=-eq-some, subst, ◌++◌, ◌∷◌, if◌then◌else◌, is_some, none, ◌&&◌, ◌⊎◌, Bool, Option,
  [], arith, false, inl, inr, refl, some, true, ◌≡◌, ◌||◌, pos,
}
use lean.Kernel.Context.{Context}
use lean.Kernel.Environment.{
  Environment, Universes, mk_child, check_name, register_named_object, add_neutral_object,
  set_object_flag, get_object_core, has_children, get_ro_universes,
}
use lean.Kernel.Environment.Declare.{read_only, unless_throws}
use lean.Kernel.Environment.Universe.{
  store_constraint, constrain, is_known, add_uvar_core, with_constraints,
}
use lean.Kernel.Universes.{check_consistency, add_constraints}
use lean.Kernel.UniverseConstraints.{add_var}
use mathlib.Core.Option.{some-injective}
use lean.Kernel.Expr.{Expr}
use lean.Kernel.Level.{Level}
use lean.Kernel.Object.{
  Object, Neutral, ValueClasses, is_definition, axiom_object, variable_decl, definition,
  theorem_object,
}
use lean.Kernel.TypeChecker.Typing.{HasType, IsSort}
use lean.Util.Name.{Name}

pub both : (a b : Bool) → a && b ≡ true → (a ≡ true) × (b ≡ true)
both true true h = (refl, refl)
both true false h = absurd (ground arith)
both false b h = absurd (ground arith)

pub is_some_lem : {A : Type 0} (x : Option A) → is_some x ≡ true → (a : A) × (x ≡ some a)
is_some_lem none h = absurd (ground arith)
is_some_lem (some a) h = (a, refl)

-- The two ways through a test.
pub if_cases :
    (b : Bool) (x y : Option Environment) {e : Environment}
    → (if b then x else y) ≡ some e
    → (x ≡ some e) ⊎ (y ≡ some e)
if_cases true x y h = inl h
if_cases false x y h = inr h

pub not_first :
    (b : Bool) (x : Option Environment) {e : Environment}
    → (if b then none else x) ≡ some e
    → (b ≡ false) × (x ≡ some e)
not_first true x h = absurd (ground arith)
not_first false x h = (refl, h)

pub guard_true :
    (b : Bool) (x : Option Environment) {e : Environment}
    → unless_throws b x ≡ some e
    → (b ≡ true) × (x ≡ some e)
guard_true true x h = (refl, h)
guard_true false x h = absurd (ground arith)

-- The universes `u` are `w` with the constraint `n >= l`, on a new variable where `n` is not known.
abbrev pub Extends : Universes → Name → Level → Universes → Type 0
Extends w n l u =
    (u.uvars ≡ (if is_known w.uvars n then w.uvars else w.uvars ++ n ∷ []))
    × (add_constraints (if is_known w.uvars n then w.constraints else add_var w.constraints n) n l
          (pos 0)
        ≡ some u.constraints)

pub constrain-Extends :
    (w : Universes) (n : Name) (l : Level) {u : Universes}
    → constrain w n l ≡ some u
    → Extends w n l u
unfolding constrain
constrain-Extends w n l {u} h = elim (Bool-cases (is_known w.uvars n)) [
  | inl k ↦
      let (c, e, g) =
        >>=-eq-some (add_constraints w.constraints n l (pos 0)) (λ c. some (with_constraints w c))
          (rw k at h) in
      subst (λ u. Extends w n l u) (some-injective _ _ g) (rw k (refl, e))
  | inr k ↦
      let (c, e, g) =
        >>=-eq-some (add_constraints (add_var w.constraints n) n l (pos 0))
          (λ c. some (with_constraints (add_uvar_core w n) c)) (rw k at h) in
      subst (λ u. Extends w n l u) (some-injective _ _ g) (rw k (refl, e))
]

-- The universes `u` are those of the environment with the constraint `n >= l` added, which contradicts
-- none of theirs; `n` is one of their variables or a name that is free in the environment, which
-- has no children.
abbrev pub Constrained : Environment → Name → Level → Universes → Type 0
Constrained env n l u =
    (has_children env ≡ false)
    × (w : Universes) × (get_ro_universes env ≡ some w)
    × (check_consistency w.constraints n l (pos 0) ≡ some tt)
    × Extends w n l u
    × (is_known w.uvars n || check_name env n ≡ true)

-- The marks around what a call adds for itself.
abbrev pub is_import_mark : Neutral → Bool
is_import_mark (Neutral.set_opaque_command n b) = false
is_import_mark Neutral.begin_import_mark = true
is_import_mark Neutral.end_import_mark = true

module _ (vs : ValueClasses) (normalize : Environment → Expr → Context → Option Expr) where
  -- What the typing rules say of an object in an environment: a definition or a theorem has a value
  -- of its type, and the type of an axiom or a variable is a type.
  abbrev pub IsJustified : Environment → Object → Type 0
  IsJustified env (definition n t v o w) = HasType (read_only vs normalize env) [] v t
  IsJustified env (theorem_object n t v o) = HasType (read_only vs normalize env) [] v t
  IsJustified env (axiom_object n t) =
      (s : Expr) × HasType (read_only vs normalize env) [] t s × IsSort s
  IsJustified env (variable_decl n t) =
      (s : Expr) × HasType (read_only vs normalize env) [] t s × IsSort s
  IsJustified env o = Unit

  pub data Changes : Environment → Environment → Type 0 where
    unchanged : {e : Environment} → Changes e e
    declares :
        {e f : Environment} (n : Name) (o : Object)
        → Changes e f
        → check_name f n ≡ true
        → IsJustified f o
        → Changes e (register_named_object f n o)
    sets_flag :
        {e f : Environment} (n : Name) (b : Bool) (o : Object)
        → Changes e f
        → get_object_core f n ≡ some o
        → is_definition o ≡ true
        → Changes e (add_neutral_object (set_object_flag f n b) (Neutral.set_opaque_command n b))
    marks :
        {e f : Environment} (c : Neutral)
        → is_import_mark c ≡ true
        → Changes e f
        → Changes e (add_neutral_object f c)
    constrains :
        {e f : Environment} (u : Universes) (n : Name) (l : Level)
        → Changes e f
        → Constrained f n l u
        → Changes e (store_constraint f u n l)
    branches : {e f : Environment} → Changes e f → Changes e (mk_child f)
