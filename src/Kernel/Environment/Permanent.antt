-- ===== src/Kernel/Environment/Permanent.antt =====
-- kernel/environment.cpp: a name keeps its object.
use lean.Base.{
  sym, Bool, Bool-cases, List, Option, Option-cases, [], arith, false, get_elem?, inl, inr, none,
  refl, some, subst, suc, true, zero, ℕ, ◌++◌, ◌∙◌, ◌∷◌, ◌≡◌,
}
use lean.Kernel.Context.{Context}
use lean.Kernel.Environment.{
  Environment, Cell, cell_of, with_cell, mk_child, check_name, register_named_object, register_in,
  add_neutral_object, set_object_flag, get_object_core, update_at, root, child,
}
use lean.Kernel.Environment.Changes.{
  Changes, both, unchanged, declares, sets_flag, marks, constrains, branches,
}
use lean.Kernel.Environment.Commands.{Command, run}
use lean.Kernel.Environment.Declare.{is_checked}
use lean.Kernel.Environment.Run.{run-Changes}
use lean.Kernel.Expr.{Expr}
use lean.Kernel.Object.{
  Neutral, Object, ValueClasses, set_flag, uvar_constraint, builtin, builtin_set, axiom_object,
  variable_decl, definition, theorem_object, neutral,
}
use lean.Util.Name.{Name, name_eq}
use lean.Util.Name.Equality.{name_eq_iff}
use mathlib.Core.Option.{some-injective}
use lean.Kernel.Environment.{flag_in}
use lean.Kernel.Environment.Names.{free_name, child_own}

get_elem?-longer :
    (xs : List Object) (o x : Object) (i : ℕ)
    → get_elem? xs i ≡ some o
    → get_elem? (xs ++ x ∷ []) i ≡ some o
get_elem?-longer [] o x i h = absurd (ground arith)
get_elem?-longer (y ∷ ys) o x zero h = h
get_elem?-longer (y ∷ ys) o x (suc i) h = get_elem?-longer ys o x i h

-- Objects that differ at most in the flag of opacity.
abbrev pub SameUpToFlag : Object → Object → Type 0
SameUpToFlag a b = set_flag true a ≡ set_flag true b

set_flag_same : (b : Bool) (o : Object) → SameUpToFlag o (set_flag b o)
set_flag_same b (uvar_constraint n l) = refl
set_flag_same b (builtin v x) = refl
set_flag_same b (builtin_set r) = refl
set_flag_same b (axiom_object n t) = refl
set_flag_same b (variable_decl n t) = refl
set_flag_same b (definition n t v x w) = refl
set_flag_same b (theorem_object n t v x) = refl
set_flag_same b (neutral c) = refl

-- The environment still has the object of the name, but for its flag.
abbrev pub Still : Environment → Name → Object → Type 0
Still env n o = (p : Object) × (get_object_core env n ≡ some p) × SameUpToFlag o p

update_at_still :
    (b : Bool) (xs : List Object) (i j : ℕ) (o : Object)
    → get_elem? xs j ≡ some o
    → (p : Object) × (get_elem? (update_at (set_flag b) xs i) j ≡ some p) × SameUpToFlag o p
update_at_still b [] i j o h = absurd (ground arith)
update_at_still b (x ∷ xs) zero zero o h = (
  set_flag b x,
  refl,
  subst (λ y. SameUpToFlag y (set_flag b x)) (some-injective _ _ h) (set_flag_same b x),
)
update_at_still b (x ∷ xs) zero (suc j) o h = (o, h, refl)
update_at_still b (x ∷ xs) (suc i) zero o h = (o, h, refl)
update_at_still b (x ∷ xs) (suc i) (suc j) o h = update_at_still b xs i j o h

-- The object stays where one more is put at the end of the cell and the name is not the new one.
pushed_still :
    (env : Environment) (c : Cell) (n : Name) (o x : Object)
    → c.objects ≡ (cell_of env).objects ++ x ∷ []
    → c.object_dictionary n ≡ (cell_of env).object_dictionary n
    → get_object_core env n ≡ some o
    → get_object_core (with_cell c env) n ≡ some o
unfolding get_object_core
pushed_still (root d) c n o x e f h = elim (Option-cases (d.object_dictionary n)) [
  | inl g ↦ absurd (ground (arith, h, g))
  | inr (i, g) ↦ rw (f, g, e) (get_elem?-longer d.objects o x i (rw g at h))
]
pushed_still (child d p) c n o x e f h = elim (Option-cases (d.object_dictionary n)) [
  | inl g ↦ rw (f, g) (rw g at h)
  | inr (i, g) ↦ rw (f, g, e) (get_elem?-longer d.objects o x i (rw g at h))
]

other_name :
    (c : Cell) (n m : Name) (x : Object)
    → name_eq n m ≡ false
    → (register_in n x c).object_dictionary m ≡ c.object_dictionary m
other_name c n m x h = rw h refl

register_still :
    (env : Environment) (n m : Name) (x o : Object)
    → check_name env n ≡ true
    → get_object_core env m ≡ some o
    → get_object_core (register_named_object env n x) m ≡ some o
unfolding register_named_object check_name
register_still env n m x o fresh h = elim (Bool-cases (name_eq n m)) [
  | inl e ↦
      let gone = free_name env n (both _ _ fresh).1 in
      absurd
        (ground (arith, h, subst (λ k. get_object_core env k ≡ none) ((name_eq_iff n m).0 e) gone))
  | inr e ↦
      pushed_still env (register_in n x (cell_of env)) m o x refl (other_name (cell_of env) n m x e)
        h
]

child_above :
    (c : Cell) (p : Environment) (m : Name)
    → c.object_dictionary m ≡ none
    → get_object_core (child c p) m ≡ get_object_core p m
unfolding get_object_core
child_above c p m h = rw h refl

set_object_flag-Still :
    (env : Environment) (n m : Name) (b : Bool) (o : Object)
    → get_object_core env m ≡ some o
    → Still (set_object_flag env n b) m o
unfolding get_object_core set_object_flag
set_object_flag-Still (root c) n m b o h = elim (Option-cases (c.object_dictionary n)) [
  | inl e ↦ rw e (o, h, refl)
  | inr (i, e) ↦ elim (Option-cases (c.object_dictionary m)) [
    | inl g ↦ absurd (ground (arith, h, g))
    | inr (j, g) ↦ rw (e, g) (update_at_still b c.objects i j o (rw g at h))
  ]
]
set_object_flag-Still (child c p) n m b o h = elim (Option-cases (c.object_dictionary m)) [
  | inl g ↦ elim (Option-cases (c.object_dictionary n)) [
    | inl e ↦ rw (e, g) (set_object_flag-Still p n m b o (rw g at h))
    | inr (i, e) ↦
        rw e (o, child_above (flag_in b i c) p m g ∙ (sym (child_above c p m g) ∙ h), refl)
  ]
  | inr (j, g) ↦ elim (Option-cases (c.object_dictionary n)) [
    | inl e ↦
        rw e (o, child_own c (set_object_flag p n b) m j g ∙ (sym (child_own c p m j g) ∙ h), refl)
    | inr (i, e) ↦
        let (q, k, t) = update_at_still b c.objects i j o (rw g at h) in
        rw e (q, child_own (flag_in b i c) p m j g ∙ k, t)
  ]
]

branch_still :
    (env : Environment) (n : Name) (o : Object)
    → get_object_core env n ≡ some o
    → get_object_core (mk_child env) n ≡ some o
unfolding get_object_core mk_child
branch_still (root c) n o h = h
branch_still (child c p) n o h = h

module _ (vs : ValueClasses) (normalize : Environment → Expr → Context → Option Expr) where
  pub Changes-Still :
      {e f : Environment}
      → Changes vs normalize e f
      → (n : Name) (o : Object) → get_object_core e n ≡ some o
      → Still f n o
  unfolding add_neutral_object
  Changes-Still unchanged n o h = (o, h, refl)
  Changes-Still (declares {f = f} m x c fresh j) n o h =
      let (p, g, s) = Changes-Still c n o h in (p, register_still f m n x p fresh g, s)
  Changes-Still (sets_flag {f = f} m b x c known d) n o h =
      let (p, g, s) = Changes-Still c n o h in
      let (q, k, t) = set_object_flag-Still f m n b p g in
      let flagged = set_object_flag f m b in
      let mark = neutral (Neutral.set_opaque_command m b) in
      (q, pushed_still flagged _ n q mark refl refl k, s ∙ t)
  Changes-Still (marks {f = f} m i c) n o h =
      let (p, g, s) = Changes-Still c n o h in (p, pushed_still f _ n p (neutral m) refl refl g, s)
  Changes-Still (constrains {f = f} u m l c a) n o h =
      let (p, g, s) = Changes-Still c n o h in
      (p, pushed_still f _ n p (uvar_constraint m l) refl refl g, s)
  Changes-Still (branches {f = f} c) n o h =
      let (p, g, s) = Changes-Still c n o h in (p, branch_still f n p g, s)

  -- An object that a name stands for is still there after every sequence of declarations, children
  -- included, the same but for its flag of opacity; from an environment that checks types.
  pub run-get_object_core :
      (cs : List Command) (env : Environment) (n : Name) {e : Environment} {o : Object}
      → is_checked env ≡ true
      → run vs normalize cs env ≡ some e
      → get_object_core env n ≡ some o
      → (p : Object) × (get_object_core e n ≡ some p) × SameUpToFlag o p
  run-get_object_core cs env n {e} {o} on h g =
      Changes-Still (run-Changes vs normalize cs env on h) n o g
