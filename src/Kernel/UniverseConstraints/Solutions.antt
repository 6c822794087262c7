-- ===== src/Kernel/UniverseConstraints/Solutions.antt =====
-- kernel/universe_constraints.cpp: the integer solutions of a set of constraints.
use lean.Base.{
  ap, ◌∙◌, ◌++◌, Bool-cases, if◌then◌else◌, sym, ◌&&◌, >>=-eq-some, All, List, Option-cases, [],
  subst, ◌∷◌, +ℤ_parts, arith, inl, inr, int_laws, some, true, ℤ, ◌+ℤ◌, ◌≡◌, ◌≤ℤ◌,
}
use lean.Kernel.UniverseConstraints.{
  Edge, Entry, Constraints, get_distance, improves, at_least, set_distance, add_entry, add_entries,
  is_implied, entries_in, entries_out,
}
use lean.Kernel.UniverseConstraints.Edges.{find_edge}
use lean.Util.Name.{Name, name_eq}
use lean.Util.Name.Equality.{name_eq_iff}
use lean.Util.Arith.{safe_add_int, safe_add_int_result}
use mathlib.Core.Option.{some-injective}

-- An assignment of integers under which every distance of the set holds.
abbrev pub Satisfies : (Name → ℤ) → Constraints → Type 0
Satisfies ρ s = (a b : Name) (k : ℤ) → get_distance s a b ≡ some k → ρ b +ℤ k ≤ℤ ρ a

-- What an entry (from, to, k) claims: from >= to + k.
abbrev pub Holds : (Name → ℤ) → Entry → Type 0
Holds ρ (from, to, k) = ρ to +ℤ k ≤ℤ ρ from

add_le : (a b c d : ℤ) → b ≤ℤ c → a +ℤ c ≤ℤ d → a +ℤ b ≤ℤ d
add_le a b c d h1 h2 = omega (arith, int_laws, +ℤ_parts a b, +ℤ_parts a c)

chain : (a b c i j : ℤ) → a +ℤ i ≤ℤ b → b +ℤ j ≤ℤ c → a +ℤ (i +ℤ j) ≤ℤ c
chain a b c i j h1 h2 =
    omega (arith, int_laws, +ℤ_parts a i, +ℤ_parts b j, +ℤ_parts i j, +ℤ_parts a (i +ℤ j))

chain_flip : (a b c i j : ℤ) → a +ℤ j ≤ℤ b → b +ℤ i ≤ℤ c → a +ℤ (i +ℤ j) ≤ℤ c
chain_flip a b c i j h1 h2 =
    omega (arith, int_laws, +ℤ_parts a j, +ℤ_parts b i, +ℤ_parts i j, +ℤ_parts a (i +ℤ j))

-- Every answer of `is_implied` is true of every solution.
pub is_implied_lem :
    (ρ : Name → ℤ) (s : Constraints) (n1 n2 : Name) (k : ℤ)
    → Satisfies ρ s
    → is_implied s n1 n2 k ≡ true
    → ρ n2 +ℤ k ≤ℤ ρ n1
unfolding is_implied
is_implied_lem ρ s n1 n2 k sat h = elim (Option-cases (get_distance s n1 n2)) [
  | inl e ↦ absurd (ground (arith, h, e))
  | inr (d, e) ↦ add_le (ρ n2) k d (ρ n1) (ground (arith, h, e)) (sat n1 n2 d e)
]

pub get_distance-add_entry :
    (s : Constraints) (from to : Name) (k : ℤ) (a b : Name)
    → get_distance (add_entry s (from, to, k)) a b ≡ (
        if name_eq from a && name_eq to b && improves (get_distance s a b) k
        then some k
        else get_distance s a b)
unfolding add_entry set_distance
get_distance-add_entry s from to k a b = ground (arith, name_eq_iff from a, name_eq_iff to b)

add_entry-Satisfies :
    (ρ : Name → ℤ) (s : Constraints) (e : Entry)
    → Satisfies ρ s
    → Holds ρ e
    → Satisfies ρ (add_entry s e)
add_entry-Satisfies ρ s (from, to, k) sat h a b j e =
    elim (Bool-cases (name_eq from a && name_eq to b && improves (get_distance s a b) k)) [
      | inl t ↦
          let ea : from ≡ a = (name_eq_iff from a).0 (ground (arith, t)) in
          let eb : to ≡ b = (name_eq_iff to b).0 (ground (arith, t)) in
          let ej : k ≡ j = ground (arith, get_distance-add_entry s from to k a b, e, t) in
          subst (λ x. ρ b +ℤ x ≤ℤ ρ a) ej
            (subst (λ x. ρ x +ℤ k ≤ℤ ρ a) eb (subst (λ x. ρ to +ℤ k ≤ℤ ρ x) ea h))
      | inr t ↦ sat a b j (ground (arith, get_distance-add_entry s from to k a b, e, t))
    ]

pub add_entries-Satisfies :
    (ρ : Name → ℤ) (s : Constraints) (es : List Entry)
    → Satisfies ρ s
    → All (Holds ρ) es
    → Satisfies ρ (add_entries s es)
unfolding add_entries
add_entries-Satisfies ρ s [] sat h = sat
add_entries-Satisfies ρ s (e ∷ es) sat h =
    add_entries-Satisfies ρ (add_entry s e) es (add_entry-Satisfies ρ s e sat h.0) h.1

-- Distances only grow.
add_entry-at_least :
    (s : Constraints) (e : Entry) (a b : Name) (j : ℤ)
    → at_least (get_distance s a b) j ≡ true
    → at_least (get_distance (add_entry s e) a b) j ≡ true
add_entry-at_least s (from, to, k) a b j h =
    ground (arith, get_distance-add_entry s from to k a b, h)

add_entry-reached :
    (s : Constraints) (m n n2 : Name) {r k : ℤ}
    → m ≡ n
    → r ≡ k
    → at_least (get_distance (add_entry s (m, n2, r)) n n2) k ≡ true
add_entry-reached s m n n2 {r} {k} en ek =
    ground (arith, get_distance-add_entry s m n2 r n n2, name_eq_iff m n, name_eq_iff n2 n2, ek)

pub entries_in-Holds :
    (ρ : Name → ℤ) (es : List Edge) (n1 n2 : Name) (k : ℤ) {rs : List Entry}
    → All (λ (e : Edge). ρ n1 +ℤ e.1 ≤ℤ ρ e.0) es
    → ρ n2 +ℤ k ≤ℤ ρ n1
    → entries_in es n2 k ≡ some rs
    → All (Holds ρ) rs
unfolding entries_in
entries_in-Holds ρ [] n1 n2 k h l e = subst (All (Holds ρ)) (some-injective _ _ e) tt
entries_in-Holds ρ ((n, j) ∷ es) n1 n2 k h l e =
    let (r, er, e1) = >>=-eq-some (safe_add_int j k) _ e in
    let (rest, es1, e2) = >>=-eq-some (entries_in es n2 k) _ e1 in
    subst (All (Holds ρ)) (some-injective _ _ e2) (
      subst (λ x. ρ n2 +ℤ x ≤ℤ ρ n) (sym (safe_add_int_result j k er))
          (chain_flip (ρ n2) (ρ n1) (ρ n) j k l h.0),
      entries_in-Holds ρ es n1 n2 k h.1 l es1,
    )

pub entries_out-Holds :
    (ρ : Name → ℤ) (es : List Edge) (n1 n2 : Name) (k : ℤ) {rs : List Entry}
    → All (λ (e : Edge). ρ e.0 +ℤ e.1 ≤ℤ ρ n2) es
    → ρ n2 +ℤ k ≤ℤ ρ n1
    → entries_out es n1 k ≡ some rs
    → All (Holds ρ) rs
unfolding entries_out
entries_out-Holds ρ [] n1 n2 k h l e = subst (All (Holds ρ)) (some-injective _ _ e) tt
entries_out-Holds ρ ((n, j) ∷ es) n1 n2 k h l e =
    let (r, er, e1) = >>=-eq-some (safe_add_int j k) _ e in
    let (rest, es1, e2) = >>=-eq-some (entries_out es n1 k) _ e1 in
    subst (All (Holds ρ)) (some-injective _ _ e2) (
      subst (λ x. ρ n +ℤ x ≤ℤ ρ n1) (sym (safe_add_int_result j k er))
          (chain (ρ n) (ρ n2) (ρ n1) j k h.0 l),
      entries_out-Holds ρ es n1 n2 k h.1 l es1,
    )

pub add_entries-at_least :
    (s : Constraints) (es : List Entry) (a b : Name) (j : ℤ)
    → at_least (get_distance s a b) j ≡ true
    → at_least (get_distance (add_entries s es) a b) j ≡ true
unfolding add_entries
add_entries-at_least s [] a b j h = h
add_entries-at_least s (e ∷ es) a b j h =
    add_entries-at_least (add_entry s e) es a b j (add_entry-at_least s e a b j h)

-- The new distance along the first edge to a name, where the loop makes one for it.
pub entries_in-reached :
    (s : Constraints) (es : List Edge) (n n2 : Name) (k d : ℤ) {rs : List Entry} (tail : List Entry)
    → find_edge es n ≡ some d
    → entries_in es n2 k ≡ some rs
    → at_least (get_distance (add_entries s (rs ++ tail)) n n2) (d +ℤ k) ≡ true
unfolding entries_in find_edge add_entries
entries_in-reached s [] n n2 k d tail f e = absurd (ground (arith, f))
entries_in-reached s ((m, j) ∷ es) n n2 k d tail f e =
    let (r, er, e1) = >>=-eq-some (safe_add_int j k) _ e in
    let (rest, es1, e2) = >>=-eq-some (entries_in es n2 k) _ e1 in
    subst (λ rs. at_least (get_distance (add_entries s (rs ++ tail)) n n2) (d +ℤ k) ≡ true)
      (some-injective _ _ e2)
      (elim (Bool-cases (name_eq m n)) [
        | inl t ↦ add_entries-at_least (add_entry s (m, n2, r)) (rest ++ tail) n n2 (d +ℤ k) (
            add_entry-reached s m n n2 ((name_eq_iff m n).0 t)
              (safe_add_int_result j k er ∙ ap (λ x. x +ℤ k) (some-injective _ _ (rw t at f))))
        | inr t ↦ entries_in-reached (add_entry s (m, n2, r)) es n n2 k d tail (rw t at f) es1
      ])
