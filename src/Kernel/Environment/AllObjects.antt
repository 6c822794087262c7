-- ===== src/Kernel/Environment/AllObjects.antt =====
-- kernel/environment.cpp: all objects of an environment, and predicates on
-- them that operations keep.
use lean.Base.{
  All, All-append, Bool, List, Option-cases, [], arith, get_elem?, if◌then◌else◌, inl, inr, leb,
  length, length-append, refl, some, subst, suc, sym, zero, ℕ, ◌++◌, ◌-◌, ◌∷◌, ◌≡◌,
}
use lean.Kernel.Environment.{
  Environment, Cell, cell_of, with_cell, mk_child, set_object_flag, get_num_objects, get_object_at,
  update_at, root, child,
}
use lean.Util.Name.{Name}
use mathlib.Core.Option.{some-injective}
use lean.Kernel.Object.{Object, set_flag}

-- The objects of an environment after those of its ancestors.
abbrev pub all_objects : Environment → List Object
all_objects (root c) = c.objects
all_objects (child c parent) = all_objects parent ++ c.objects

get_elem?-append :
    {A : Type 0} (xs ys : List A) (i : ℕ)
    → get_elem? (xs ++ ys) i
      ≡ (if leb (length xs) i then get_elem? ys (i - length xs) else get_elem? xs i)
get_elem?-append [] ys i = ground arith
get_elem?-append (x ∷ xs) ys zero = ground arith
get_elem?-append (x ∷ xs) ys (suc i) = ground (arith, get_elem?-append xs ys i)

get_num_objects_lem : (env : Environment) → get_num_objects env ≡ length (all_objects env)
unfolding get_num_objects
get_num_objects_lem (root c) = refl
get_num_objects_lem (child c p) =
    omega (arith, get_num_objects_lem p, length-append (all_objects p) c.objects)

-- `get_object(i)` numbers the objects of the ancestors first.
pub get_object_at-eq :
    (env : Environment) (i : ℕ) → get_object_at env i ≡ get_elem? (all_objects env) i
unfolding get_object_at
get_object_at-eq (root c) i = refl
get_object_at-eq (child c p) i =
    rw (get_elem?-append (all_objects p) c.objects i, get_num_objects_lem p, get_object_at-eq p i)
      refl

module _ (P : Object → Type 0) where
  pub All-get : (xs : List Object) (i : ℕ) (o : Object) → All P xs → get_elem? xs i ≡ some o → P o
  All-get [] i o h e = absurd (ground arith)
  All-get (x ∷ xs) zero o h e = subst P (some-injective _ _ e) h.0
  All-get (x ∷ xs) (suc i) o h e = All-get xs i o h.1 e

  All-prefix : (xs ys : List Object) → All P (xs ++ ys) → All P xs
  All-prefix [] ys h = tt
  All-prefix (x ∷ xs) ys h = (h.0, All-prefix xs ys h.1)

  All-suffix : (xs ys : List Object) → All P (xs ++ ys) → All P ys
  All-suffix [] ys h = h
  All-suffix (x ∷ xs) ys h = All-suffix xs ys h.1

  All-update :
      (f : Object → Object)
      → ((o : Object) → P o → P (f o))
      → (xs : List Object) (i : ℕ) → All P xs
      → All P (update_at f xs i)
  All-update f k [] i h = tt
  All-update f k (x ∷ xs) zero h = (k x h.0, h.1)
  All-update f k (x ∷ xs) (suc i) h = (h.0, All-update f k xs i h.1)

  -- One more object at the end of the cell.
  pub All-pushed :
      (env : Environment) (c : Cell) (o : Object)
      → c.objects ≡ (cell_of env).objects ++ o ∷ []
      → P o
      → All P (all_objects env)
      → All P (all_objects (with_cell c env))
  All-pushed (root d) c o e p h = subst (All P) (sym e) (All-append P d.objects (o ∷ []) h (p, tt))
  All-pushed (child d q) c o e p h =
      All-append P (all_objects q) c.objects (All-prefix (all_objects q) d.objects h) (
        subst (All P) (sym e)
          (All-append P d.objects (o ∷ []) (All-suffix (all_objects q) d.objects h) (p, tt)))

  pub All-flagged :
      (env : Environment) (n : Name) (b : Bool)
      → ((o : Object) → P o → P (set_flag b o))
      → All P (all_objects env)
      → All P (all_objects (set_object_flag env n b))
  unfolding set_object_flag
  All-flagged (root c) n b k h = elim (Option-cases (c.object_dictionary n)) [
    | inl e ↦ rw e h
    | inr (i, e) ↦ rw e (All-update (set_flag b) k c.objects i h)
  ]
  All-flagged (child c q) n b k h = elim (Option-cases (c.object_dictionary n)) [
    | inl e ↦ rw e (
        All-append P (all_objects (set_object_flag q n b)) c.objects
          (All-flagged q n b k (All-prefix (all_objects q) c.objects h))
          (All-suffix (all_objects q) c.objects h))
    | inr (i, e) ↦ rw e (
        All-append P (all_objects q) (update_at (set_flag b) c.objects i)
          (All-prefix (all_objects q) c.objects h)
          (All-update (set_flag b) k c.objects i (All-suffix (all_objects q) c.objects h)))
  ]

  pub All-branched :
      (env : Environment) → All P (all_objects env) → All P (all_objects (mk_child env))
  unfolding mk_child
  All-branched (root c) h = All-append P c.objects [] h tt
  All-branched (child c q) h = All-append P (all_objects q ++ c.objects) [] h tt
