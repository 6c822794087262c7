-- ===== src/Kernel/UniverseConstraints/Unclosed.antt =====
-- kernel/universe_constraints.cpp: the distances that `add_constraint` does not look at.
use lean.Base.{
  >>=-eq-some, All, All-append, List, [], ap, arith, inl, inr, refl, some, subst, sym, ℤ, ◌++◌, ◌∙◌,
  ◌∷◌, ◌≡◌, ◌⊎◌,
}
use lean.Kernel.UniverseConstraints.{
  Constraints, Edge, Entry, get_distance, add_entry, add_entries, add_constraint, entries_in,
  entries_out,
}
use lean.Kernel.UniverseConstraints.Edges.{add_constraint_cases}
use lean.Kernel.UniverseConstraints.Solutions.{get_distance-add_entry}
use lean.Util.Arith.{safe_add_int}
use mathlib.Core.Option.{some-injective}
use lean.Util.Name.{Name}
use lean.Util.Name.Equality.{name_eq_iff}

-- An entry that starts at n1 or ends at n2.
abbrev Touches : Name → Name → Entry → Type 0
Touches n1 n2 (from, to, k) = (from ≡ n1) ⊎ (to ≡ n2)

entries_in-Touches :
    (es : List Edge) (n1 n2 : Name) (k : ℤ) {rs : List Entry}
    → entries_in es n2 k ≡ some rs
    → All (Touches n1 n2) rs
unfolding entries_in
entries_in-Touches [] n1 n2 k e = subst (All (Touches n1 n2)) (some-injective _ _ e) tt
entries_in-Touches ((n, j) ∷ es) n1 n2 k e =
    let (r, er, e1) = >>=-eq-some (safe_add_int j k) _ e in
    let (rest, es1, e2) = >>=-eq-some (entries_in es n2 k) _ e1 in
    subst (All (Touches n1 n2)) (some-injective _ _ e2)
      (inr refl, entries_in-Touches es n1 n2 k es1)

entries_out-Touches :
    (es : List Edge) (n1 n2 : Name) (k : ℤ) {rs : List Entry}
    → entries_out es n1 k ≡ some rs
    → All (Touches n1 n2) rs
unfolding entries_out
entries_out-Touches [] n1 n2 k e = subst (All (Touches n1 n2)) (some-injective _ _ e) tt
entries_out-Touches ((n, j) ∷ es) n1 n2 k e =
    let (r, er, e1) = >>=-eq-some (safe_add_int j k) _ e in
    let (rest, es1, e2) = >>=-eq-some (entries_out es n1 k) _ e1 in
    subst (All (Touches n1 n2)) (some-injective _ _ e2)
      (inl refl, entries_out-Touches es n1 n2 k es1)

add_entries-frame :
    (s : Constraints) (es : List Entry) (n1 n2 a d : Name)
    → ¬ (a ≡ n1)
    → ¬ (d ≡ n2)
    → All (Touches n1 n2) es
    → get_distance (add_entries s es) a d ≡ get_distance s a d
unfolding add_entries
add_entries-frame s [] n1 n2 a d na nd h = refl
add_entries-frame s ((from, to, k) ∷ es) n1 n2 a d na nd h =
    add_entries-frame (add_entry s (from, to, k)) es n1 n2 a d na nd h.1
    ∙ ground (
      arith,
      get_distance-add_entry s from to k a d,
      name_eq_iff from a,
      name_eq_iff to d,
      h.0,
      na,
      nd,
    )

-- `add_constraint`, where it does not throw, changes no distance of a pair that neither starts at
-- `n1` nor ends at `n2`, also where the new constraint completes a path between the two.
pub add_constraint-frame :
    (s : Constraints) (n1 n2 : Name) (k : ℤ) (a d : Name) {s' : Constraints}
    → ¬ (a ≡ n1)
    → ¬ (d ≡ n2)
    → add_constraint s n1 n2 k ≡ some s'
    → get_distance s' a d ≡ get_distance s a d
add_constraint-frame s n1 n2 k a d na nd h = elim (add_constraint_cases s n1 n2 k h) [
  | inl (i, e) ↦ ap (λ t. get_distance t a d) (sym e)
  | inr (ins, outs, ei, eo, e) ↦
      ap (λ t. get_distance t a d) (sym e)
      ∙ add_entries-frame s (ins ++ outs) n1 n2 a d na nd (
          All-append (Touches n1 n2) ins outs (entries_in-Touches (s.incoming_edges n1) n1 n2 k ei)
            (entries_out-Touches (s.outgoing_edges n2) n1 n2 k eo))
]
