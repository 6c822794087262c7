-- ===== src/Kernel/UniverseConstraints/Sources.antt =====
-- kernel/universe_constraints.cpp: variables from which there is no distance.
use lean.Base.{
  >>=-eq-some, All, All-append, List, [], ap, arith, inl, inr, none, refl, some, subst, sym, ℤ,
  ◌++◌, ◌∙◌, ◌∷◌, ◌≡◌,
}
use lean.Kernel.UniverseConstraints.{
  Constraints, Edge, Entry, get_distance, add_entry, add_entries, add_constraint, entries_in,
  entries_out,
}
use lean.Kernel.UniverseConstraints.Edges.{Mirrors, All-edges, add_constraint_cases}
use lean.Kernel.UniverseConstraints.Solutions.{get_distance-add_entry}
use lean.Util.Arith.{safe_add_int}
use mathlib.Core.Option.{some-injective}
use lean.Util.Name.{Name}
use lean.Util.Name.Equality.{name_eq_iff}

-- Nothing is asserted of the variable as the greater one.
abbrev pub IsSourceless : Constraints → Name → Type 0
IsSourceless s a = (b : Name) → get_distance s a b ≡ none

abbrev Elsewhere : Name → Entry → Type 0
Elsewhere a (from, to, k) = ¬ (a ≡ from)

entries_in-Elsewhere :
    (a : Name) (es : List Edge) (n2 : Name) (k : ℤ) {rs : List Entry}
    → All (λ (e : Edge). ¬ (a ≡ e.0)) es
    → entries_in es n2 k ≡ some rs
    → All (Elsewhere a) rs
unfolding entries_in
entries_in-Elsewhere a [] n2 k h e = subst (All (Elsewhere a)) (some-injective _ _ e) tt
entries_in-Elsewhere a ((n, j) ∷ es) n2 k h e =
    let (r, er, e1) = >>=-eq-some (safe_add_int j k) _ e in
    let (rest, es1, e2) = >>=-eq-some (entries_in es n2 k) _ e1 in
    subst (All (Elsewhere a)) (some-injective _ _ e2) (h.0, entries_in-Elsewhere a es n2 k h.1 es1)

entries_out-Elsewhere :
    (a : Name) (es : List Edge) (n1 : Name) (k : ℤ) {rs : List Entry}
    → ¬ (a ≡ n1)
    → entries_out es n1 k ≡ some rs
    → All (Elsewhere a) rs
unfolding entries_out
entries_out-Elsewhere a [] n1 k h e = subst (All (Elsewhere a)) (some-injective _ _ e) tt
entries_out-Elsewhere a ((n, j) ∷ es) n1 k h e =
    let (r, er, e1) = >>=-eq-some (safe_add_int j k) _ e in
    let (rest, es1, e2) = >>=-eq-some (entries_out es n1 k) _ e1 in
    subst (All (Elsewhere a)) (some-injective _ _ e2) (h, entries_out-Elsewhere a es n1 k h es1)

add_entries-Elsewhere :
    (s : Constraints) (es : List Entry) (a b : Name)
    → All (Elsewhere a) es
    → get_distance (add_entries s es) a b ≡ get_distance s a b
unfolding add_entries
add_entries-Elsewhere s [] a b h = refl
add_entries-Elsewhere s ((from, to, k) ∷ es) a b h =
    add_entries-Elsewhere (add_entry s (from, to, k)) es a b h.1
    ∙ ground (arith, get_distance-add_entry s from to k a b, name_eq_iff from a, h.0)

-- `add_constraint` makes no distance from a variable that has none, but for `n1`.
pub add_constraint-IsSourceless :
    (s : Constraints) (n1 n2 : Name) (k : ℤ) (a : Name) {s' : Constraints}
    → Mirrors s
    → ¬ (a ≡ n1)
    → IsSourceless s a
    → add_constraint s n1 n2 k ≡ some s'
    → IsSourceless s' a
add_constraint-IsSourceless s n1 n2 k a m na h e b = elim (add_constraint_cases s n1 n2 k e) [
  | inl (i, q) ↦ ap (λ t. get_distance t a b) (sym q) ∙ h b
  | inr (ins, outs, ei, eo, q) ↦
      ap (λ t. get_distance t a b) (sym q)
      ∙ (add_entries-Elsewhere s (ins ++ outs) a b (
            All-append (Elsewhere a) ins outs
              (entries_in-Elsewhere a (s.incoming_edges n1) n2 k
                (All-edges (λ n j. ¬ (a ≡ n)) _ (m.incoming_distinct n1)
                  (λ n j f p. absurd (
                    ground (
                      arith,
                      subst (λ x. get_distance s x n1 ≡ none) p (h n1),
                      m.incoming n n1,
                      f,
                    ))))
                ei)
              (entries_out-Elsewhere a (s.outgoing_edges n2) n1 k na eo))
          ∙ h b)
]
