-- ===== src/Kernel/Environment/Names.antt =====
-- kernel/environment.cpp: what is declared under a name, and when a name is refused.
use lean.Base.{
  is_some, not, ◌&&◌, Bool, Bool-cases, List, Option, Option-cases, [], arith, false, get_elem?,
  inl, inr, length, none, refl, some, true, ℕ, ◌++◌, ◌∙◌, ◌∷◌, ◌≡◌, ◌⊎◌,
}
use lean.Kernel.Context.{Context}
use lean.Kernel.Environment.{
  Environment, Cell, has_children, check_name, check_name_core, register_named_object, register_in,
  get_object_core, root, child,
}
use lean.Kernel.Environment.Changes.{both}
use lean.Kernel.Environment.Declare.{add_var, unless_throws}
use lean.Kernel.Expr.{Expr}
use lean.Kernel.Object.{Object, ValueClasses}
use lean.Util.Name.{Name}
use lean.Util.Name.Equality.{name_eq_iff}
use lean.Kernel.Environment.Declare.{add_definition}
use lean.Kernel.Environment.Declare.{add_untyped_definition}
use lean.Kernel.Environment.Declare.{add_theorem}
use lean.Kernel.Environment.Declare.{add_axiom}
use lean.Kernel.Environment.Declare.{check_no_cached_type}
use lean.Kernel.Environment.Declare.{check_value}
use lean.Kernel.Environment.Declare.{check_postulate}

-- A name that is free has no object.
pub free_name :
    (env : Environment) (n : Name) → check_name_core env n ≡ true → get_object_core env n ≡ none
unfolding check_name_core get_object_core
free_name (root c) n h = elim (Option-cases (c.object_dictionary n)) [
  | inl e ↦ rw e refl
  | inr (i, e) ↦ absurd (ground (arith, h, e))
]
free_name (child c p) n h = elim (Option-cases (c.object_dictionary n)) [
  | inl e ↦ rw e (free_name p n (ground (arith, h)))
  | inr (i, e) ↦ absurd (ground (arith, h, e))
]

pub child_own :
    (c : Cell) (p : Environment) (m : Name) (j : ℕ)
    → c.object_dictionary m ≡ some j
    → get_object_core (child c p) m ≡ get_elem? c.objects j
unfolding get_object_core
child_own c p m j h = rw h refl

get_elem?-last : (xs : List Object) (x : Object) → get_elem? (xs ++ x ∷ []) (length xs) ≡ some x
get_elem?-last [] x = refl
get_elem?-last (y ∷ ys) x = get_elem?-last ys x

dictionary_free : (o : Option ℕ) → not (is_some o) ≡ true → o ≡ none
dictionary_free none h = refl
dictionary_free (some i) h = absurd (ground arith)

-- A test that fails among those of a guard.
module _ (x : Option Environment) where
  refused2 : (a b : Bool) → b ≡ false → unless_throws (a && b) x ≡ none
  refused2 a b h = ground (arith, h)

  refused3 : (a b c : Bool) → b ≡ false → unless_throws (a && b && c) x ≡ none
  refused3 a b c h = ground (arith, h)

  refused4 : (a b c d : Bool) → c ≡ false → unless_throws (a && b && c && d) x ≡ none
  refused4 a b c d h = ground (arith, h)

register_own :
    (c : Cell) (n : Name) (o : Object)
    → c.object_dictionary n ≡ none
    → (register_in n o c).object_dictionary n ≡ some (length c.objects)
register_own c n o h = rw ((name_eq_iff n n).1 refl, h) refl

-- What `register_named_object` adds is found by its name, where that was free.
pub get_object_core-register :
    (env : Environment) (n : Name) (o : Object)
    → check_name env n ≡ true
    → get_object_core (register_named_object env n o) n ≡ some o
unfolding get_object_core register_named_object check_name
get_object_core-register (root c) n o h =
    rw ((name_eq_iff n n).1 refl, dictionary_free (c.object_dictionary n) (ground (arith, h)))
      (get_elem?-last c.objects o)
get_object_core-register (child c p) n o h =
    child_own (register_in n o c) p n (length c.objects) (
      register_own c n o (
        dictionary_free (c.object_dictionary n)
          (both (check_name_core p n) _ (ground (arith, h))).1))
    ∙ get_elem?-last c.objects o

refuses :
    (env : Environment) (n : Name)
    → (has_children env ≡ true) ⊎ ((o : Object) × (get_object_core env n ≡ some o))
    → check_name env n ≡ false
unfolding check_name
refuses env n (inl h) = rw h refl
refuses env n (inr (o, h)) = elim (Bool-cases (check_name_core env n)) [
  | inl e ↦ absurd (ground (arith, h, free_name env n e))
  | inr e ↦ ground (arith, e)
]

module _ (vs : ValueClasses) (normalize : Environment → Expr → Context → Option Expr) where
  -- An environment with children, and one where the name stands for an object already, refuses a
  -- definition with or without a type, a theorem, an axiom and a variable of that name.
  pub declarations-refused :
      (env : Environment) (n : Name) (t v : Expr) (opaque : Bool)
      → (has_children env ≡ true) ⊎ ((o : Object) × (get_object_core env n ≡ some o))
      → (add_definition vs normalize env n t v opaque ≡ none)
        × (add_untyped_definition vs normalize env n v opaque ≡ none)
        × (add_theorem vs normalize env n t v ≡ none)
        × (add_axiom vs normalize env n t ≡ none)
        × (add_var vs normalize env n t ≡ none)
  unfolding add_definition add_untyped_definition add_theorem add_axiom add_var
  declarations-refused env n t v opaque h =
      let r = refuses env n h in
      (
        refused4 _ (check_no_cached_type t) (check_no_cached_type v) (check_name env n)
            (check_value vs normalize env t v) r,
        refused2 _ (check_no_cached_type v) (check_name env n) r,
        refused4 _ (check_no_cached_type t) (check_no_cached_type v) (check_name env n)
            (check_value vs normalize env t v) r,
        refused3 _ (check_no_cached_type t) (check_name env n) (check_postulate vs normalize env t)
            r,
        refused3 _ (check_no_cached_type t) (check_name env n) (check_postulate vs normalize env t)
            r,
      )
