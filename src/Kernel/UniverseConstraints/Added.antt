-- ===== src/Kernel/UniverseConstraints/Added.antt =====
-- kernel/universe_constraints.cpp: the set that `add_constraint` makes, and its solutions.
use lean.Base.{
  All-append, sym, +ℤ_parts, Option-cases, arith, inl, inr, some, subst, true, ℤ, ◌++◌, ◌+ℤ◌, ◌↔◌,
  ◌∙◌, ◌≡◌, ◌≤ℤ◌, pos,
}
use lean.Kernel.UniverseConstraints.{
  Constraints, get_distance, at_least, add_entries, add_constraint, is_implied,
}
use lean.Kernel.UniverseConstraints.Edges.{Mirrors, All-edges, add_constraint_cases}
use lean.Kernel.UniverseConstraints.Solutions.{
  Satisfies, Holds, is_implied_lem, add_entries-Satisfies, add_entries-at_least, entries_in-Holds,
  entries_out-Holds, entries_in-reached,
}
use lean.Util.Name.{Name}

-- The distance of a variable to itself, which `add_var` sets to 0, is not negative.
abbrev pub HasLoop : Constraints → Name → Type 0
HasLoop s n = at_least (get_distance s n n) (pos 0) ≡ true

grows :
    (s : Constraints) (n1 n2 : Name) (d k : ℤ)
    → pos 0 ≤ℤ d
    → at_least (get_distance s n1 n2) (d +ℤ k) ≡ true
    → at_least (get_distance s n1 n2) k ≡ true
grows s n1 n2 d k h1 h2 = ground (arith, +ℤ_parts d k, h1, h2)

-- Where `add_constraint` does not throw, the new set implies the constraint that was added, for a
-- set whose edge lists mirror its distances and where `n1` reaches itself.
pub is_implied-add_constraint :
    (s : Constraints) (n1 n2 : Name) (k : ℤ) {s' : Constraints}
    → Mirrors s
    → HasLoop s n1
    → add_constraint s n1 n2 k ≡ some s'
    → is_implied s' n1 n2 k ≡ true
unfolding is_implied
is_implied-add_constraint s n1 n2 k m loop h = elim (add_constraint_cases s n1 n2 k h) [
  | inl (i, e) ↦ rw (← e) i
  | inr (ins, outs, ei, eo, e) ↦ rw (← e) (elim (Option-cases (get_distance s n1 n1)) [
    | inl el ↦ absurd (ground (arith, loop, el))
    | inr (d, el) ↦
        grows (add_entries s (ins ++ outs)) n1 n2 d k (ground (arith, loop, el))
          (entries_in-reached s (s.incoming_edges n1) n1 n2 k d outs (m.incoming n1 n1 ∙ el) ei)
  ])
]

-- `add_constraint`, where it does not throw, forgets no implied constraint.
pub add_constraint-is_implied :
    (s : Constraints) (n1 n2 : Name) (k : ℤ) {s' : Constraints} (a b : Name) (j : ℤ)
    → add_constraint s n1 n2 k ≡ some s'
    → is_implied s a b j ≡ true
    → is_implied s' a b j ≡ true
unfolding is_implied
add_constraint-is_implied s n1 n2 k a b j h i = elim (add_constraint_cases s n1 n2 k h) [
  | inl (same, e) ↦ rw (← e) i
  | inr (ins, outs, ei, eo, e) ↦ rw (← e) (add_entries-at_least s (ins ++ outs) a b j i)
]

implied :
    (s : Constraints) {a b : Name} {j : ℤ} → get_distance s a b ≡ some j → is_implied s a b j ≡ true
unfolding is_implied
implied s e = ground (arith, e)

-- An assignment satisfies the set that `add_constraint` makes, where it does not throw, exactly
-- where it satisfies the old set and the constraint that was added, for a set whose edge lists
-- mirror its distances and where `n1` reaches itself.
pub add_constraint-Satisfies_iff :
    (ρ : Name → ℤ) (s : Constraints) (n1 n2 : Name) (k : ℤ) {s' : Constraints}
    → Mirrors s
    → HasLoop s n1
    → add_constraint s n1 n2 k ≡ some s'
    → Satisfies ρ s' ↔ (Satisfies ρ s × (ρ n2 +ℤ k ≤ℤ ρ n1))
add_constraint-Satisfies_iff ρ s n1 n2 k {s'} m loop h = (
  λ sat. (
    λ a b j e.
        is_implied_lem ρ s' a b j sat (add_constraint-is_implied s n1 n2 k a b j h (implied s e)),
    is_implied_lem ρ s' n1 n2 k sat (is_implied-add_constraint s n1 n2 k m loop h),
  ),
  λ (sat, l). elim (add_constraint_cases s n1 n2 k h) [
    | inl (i, e) ↦ subst (Satisfies ρ) e sat
    | inr (ins, outs, ei, eo, e) ↦ subst (Satisfies ρ) e (
        add_entries-Satisfies ρ s (ins ++ outs) sat (
          All-append (Holds ρ) ins outs
            (entries_in-Holds ρ (s.incoming_edges n1) n1 n2 k
              (All-edges (λ n j. ρ n1 +ℤ j ≤ℤ ρ n) _ (m.incoming_distinct n1)
                (λ n j f. sat n n1 j (sym (m.incoming n n1) ∙ f)))
              l ei)
            (entries_out-Holds ρ (s.outgoing_edges n2) n1 n2 k
              (All-edges (λ n j. ρ n +ℤ j ≤ℤ ρ n2) _ (m.outgoing_distinct n2)
                (λ n j f. sat n2 n j (sym (m.outgoing n2 n) ∙ f)))
              l eo)))
  ],
)
