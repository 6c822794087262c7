-- ===== src/Tests/Constraints.antt =====
-- Universe constraints at work: two variables, and b >= a + 2.
use lean.Base.{
  is_some, +ℤ_parts, false, sym, [], arith, if◌then◌else◌, not, refl, some, ℤ, ◌+ℤ◌, ◌||◌, ◌↔◌, ◌∷◌,
  ◌≡◌, ◌≤ℤ◌, pos,
}
use lean.Kernel.UniverseConstraints.{
  Constraints, no_constraints, add_var, add_entries, add_constraint, is_implied, overflows,
  get_distance, is_consistent,
}
use lean.Kernel.UniverseConstraints.Edges.{
  Mirrors, no_constraints-Mirrors, add_var-Mirrors, add_constraint-Mirrors,
}
use lean.Kernel.UniverseConstraints.Solutions.{Satisfies}
use lean.Kernel.UniverseConstraints.Added.{add_constraint-Satisfies_iff}
use lean.Kernel.UniverseConstraints.Overflow.{add_constraint-overflows, is_consistent-rejects}
use lean.Kernel.UniverseConstraints.Unclosed.{add_constraint-frame}
use lean.Util.Name.{Name, anonymous, str, num, name_eq}

abbrev a : Name
a = num anonymous 1

abbrev b : Name
b = num anonymous 2

a_not_b : ¬ (a ≡ b)
a_not_b e = cc

abbrev start : Constraints
start = add_var (add_var no_constraints a) b

abbrev linked : Constraints
linked = add_entries start ((b, a, pos 2) ∷ (b, a, pos 2) ∷ [])

start-Mirrors : Mirrors start
unfolding add_var name_eq lean.Util.Name.stored_hash lean.Util.Arith.safe_add_int
start-Mirrors =
    add_var-Mirrors (add_var no_constraints a) b refl
      (add_var-Mirrors no_constraints a refl no_constraints-Mirrors)

linked_eq : add_constraint start b a (pos 2) ≡ some linked
unfolding add_constraint add_var name_eq lean.Util.Name.stored_hash lean.Util.Arith.safe_add_int
linked_eq = refl

add_constraint-Mirrors_example : Mirrors linked
add_constraint-Mirrors_example = add_constraint-Mirrors start b a (pos 2) start-Mirrors linked_eq

abbrev heights : Name → ℤ
heights n = if name_eq n b then pos 5 else pos 1

add_constraint-Satisfies_iff_example :
    Satisfies heights linked ↔ (Satisfies heights start × (heights a +ℤ pos 2 ≤ℤ heights b))
unfolding add_var name_eq lean.Util.Name.stored_hash lean.Util.Arith.safe_add_int
add_constraint-Satisfies_iff_example =
    add_constraint-Satisfies_iff heights start b a (pos 2) start-Mirrors refl linked_eq

add_constraint-overflows_example :
    is_some (add_constraint start b a (pos 2))
    ≡ (is_implied start b a (pos 2) || not (overflows start b a (pos 2)))
add_constraint-overflows_example = add_constraint-overflows start b a (pos 2)

abbrev flat : Name → ℤ
flat n = pos 0

flat-Satisfies : Satisfies flat (add_var no_constraints a)
unfolding add_var
flat-Satisfies x y k h = ground (arith, +ℤ_parts (pos 0) k, h)

rejected : is_consistent (add_var no_constraints a) a a (pos 1) ≡ some false
unfolding is_consistent add_var lean.Util.Arith.safe_add_int lean.Util.Arith.safe_sub_int name_eq
    lean.Util.Name.stored_hash
rejected = refl

is_consistent-rejects_example : ¬ (pos 0 +ℤ pos 1 ≤ℤ pos 0)
is_consistent-rejects_example =
    is_consistent-rejects flat (add_var no_constraints a) a a (pos 1) flat-Satisfies rejected

add_constraint-frame_example : get_distance linked a b ≡ get_distance start a b
add_constraint-frame_example =
    add_constraint-frame start b a (pos 2) a b a_not_b (λ e. a_not_b (sym e)) linked_eq
