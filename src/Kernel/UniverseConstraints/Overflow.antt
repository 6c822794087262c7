-- ===== src/Kernel/UniverseConstraints/Overflow.antt =====
-- kernel/universe_constraints.cpp: `overflows`, and the answers of `is_consistent`.
use lean.Base.{
  is_some, +ℤ_parts, -ℤ_parts, ap, int_laws, neg_part, pos_part, ◌-ℤ◌, >>=-eq-some, List, [], arith,
  false, not, refl, some, ℤ, ◌+ℤ◌, ◌||◌, ◌∷◌, ◌≡◌, ◌≤ℤ◌, pos,
}
use lean.Kernel.UniverseConstraints.{
  Constraints, Edge, add_constraint, is_implied, entries_in, entries_out, overflows, throws,
  is_consistent,
}
use lean.Kernel.UniverseConstraints.Solutions.{Satisfies, is_implied_lem}
use lean.Util.Arith.{safe_add_int, safe_sub_int, safe_add_int_result, safe_sub_int_result}
use mathlib.Core.Option.{some-injective}
use lean.Util.Name.{Name}

entries_in-throws :
    (es : List Edge) (n : Name) (k : ℤ) → is_some (entries_in es n k) ≡ not (throws es k)
unfolding entries_in throws
entries_in-throws [] n k = refl
entries_in-throws ((m, j) ∷ es) n k = ground (arith, entries_in-throws es n k)

entries_out-throws :
    (es : List Edge) (n : Name) (k : ℤ) → is_some (entries_out es n k) ≡ not (throws es k)
unfolding entries_out throws
entries_out-throws [] n k = refl
entries_out-throws ((m, j) ∷ es) n k = ground (arith, entries_out-throws es n k)

-- `add_constraint` throws exactly where the constraint is not implied and `overflows` holds.
pub add_constraint-overflows :
    (s : Constraints) (n1 n2 : Name) (k : ℤ)
    → is_some (add_constraint s n1 n2 k) ≡ (is_implied s n1 n2 k || not (overflows s n1 n2 k))
unfolding add_constraint overflows
add_constraint-overflows s n1 n2 k = ground (
  arith,
  entries_in-throws (s.incoming_edges n1) n2 k,
  entries_out-throws (s.outgoing_edges n2) n1 k,
)

opposed :
    (a b k minus bound : ℤ)
    → minus ≡ pos 0 -ℤ k
    → bound ≡ minus +ℤ pos 1
    → a +ℤ bound ≤ℤ b
    → ¬ (b +ℤ k ≤ℤ a)
opposed a b k minus bound e1 e2 h1 h2 = omega (
  arith,
  int_laws,
  -ℤ_parts (pos 0) k,
  +ℤ_parts minus (pos 1),
  +ℤ_parts a bound,
  +ℤ_parts b k,
  ap pos_part e1,
  ap neg_part e1,
  ap pos_part e2,
  ap neg_part e2,
)

-- Where `is_consistent` answers false on a constraint, no assignment that satisfies the set
-- satisfies the constraint.
pub is_consistent-rejects :
    (ρ : Name → ℤ) (s : Constraints) (n1 n2 : Name) (k : ℤ)
    → Satisfies ρ s
    → is_consistent s n1 n2 k ≡ some false
    → ¬ (ρ n2 +ℤ k ≤ℤ ρ n1)
unfolding is_consistent
is_consistent-rejects ρ s n1 n2 k sat h =
    let (minus, em, h1) = >>=-eq-some (safe_sub_int (pos 0) k) _ h in
    let (bound, eb, h2) = >>=-eq-some (safe_add_int minus (pos 1)) _ h1 in
    let l = is_implied_lem ρ s n2 n1 bound sat (ground (arith, some-injective _ _ h2)) in
    opposed (ρ n1) (ρ n2) k minus bound (safe_sub_int_result (pos 0) k em)
      (safe_add_int_result minus (pos 1) eb) l
