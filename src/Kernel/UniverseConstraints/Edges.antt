-- ===== src/Kernel/UniverseConstraints/Edges.antt =====
-- kernel/universe_constraints.cpp: the edge lists against the distances.
use lean.Base.{
  true, ◌⊎◌, >>=-eq-some, subst, ◌++◌, All, Bool-cases, List, Option, [], arith, if◌then◌else◌, inl,
  inr, none, refl, some, ℤ, ◌∙◌, ◌∷◌, ◌≡◌, pos,
}
use lean.Kernel.UniverseConstraints.{
  Edge, Entry, Constraints, no_constraints, add_var, get_distance, improves, updt_entry,
  set_distance, add_entry, add_entries, add_constraint, is_implied, entries_in, entries_out,
}
use lean.Util.Name.{Name, name_eq}
use mathlib.Core.Option.{some-injective}
use lean.Util.Name.Equality.{name_eq_iff}

-- The distance that a list of edges gives for a name.
unfoldable pub find_edge : List Edge → Name → Option ℤ
find_edge [] n = none
find_edge ((m, j) ∷ es) n = let rest = find_edge es n in if name_eq m n then some j else rest

-- No name has two edges.
abbrev pub AreDistinct : List Edge → Type 0
AreDistinct [] = Unit
AreDistinct ((m, j) ∷ es) = (find_edge es m ≡ none) × AreDistinct es

-- Each edge list gives the distances, and has at most one edge for a name.
pub record Mirrors (s : Constraints) : Type 0 where
  pub incoming : (a b : Name) → find_edge (s.incoming_edges b) a ≡ s.distances a b
  pub outgoing : (a b : Name) → find_edge (s.outgoing_edges a) b ≡ s.distances a b
  pub incoming_distinct : (b : Name) → AreDistinct (s.incoming_edges b)
  pub outgoing_distinct : (a : Name) → AreDistinct (s.outgoing_edges a)

find_edge-updt_entry :
    (es : List Edge) (n m : Name) (k : ℤ)
    → find_edge (updt_entry es n k) m ≡ (if name_eq n m then some k else find_edge es m)
unfolding find_edge updt_entry
find_edge-updt_entry [] n m k = refl
find_edge-updt_entry ((i, j) ∷ es) n m k =
    ground (arith, find_edge-updt_entry es n m k, name_eq_iff i n, name_eq_iff i m, name_eq_iff n m)

updt_entry-AreDistinct :
    (es : List Edge) (n : Name) (k : ℤ) → AreDistinct es → AreDistinct (updt_entry es n k)
unfolding updt_entry find_edge
updt_entry-AreDistinct [] n k d = (refl, tt)
updt_entry-AreDistinct ((i, j) ∷ es) n k d = elim (Bool-cases (name_eq i n)) [
  | inl e ↦ rw e d
  | inr e ↦ rw e (
    find_edge-updt_entry es n i k ∙ ground (arith, name_eq_iff i n, name_eq_iff n i, d.0),
    updt_entry-AreDistinct es n k d.1,
  )
]

-- What holds of every distance that the edges give holds of every edge.
pub All-edges :
    (P : Name → ℤ → Type 0) (es : List Edge)
    → AreDistinct es
    → ((n : Name) (j : ℤ) → find_edge es n ≡ some j → P n j)
    → All (λ (e : Edge). P e.0 e.1) es
unfolding find_edge
All-edges P [] d h = tt
All-edges P ((m, j) ∷ es) d h = (
  h m j (ground (arith, name_eq_iff m m)),
  All-edges P es d.1 (λ n i e. h n i (ground (arith, name_eq_iff m n, d.0))),
)

set_distance-Mirrors :
    (s : Constraints) (from to : Name) (k : ℤ) → Mirrors s → Mirrors (set_distance s from to k)
unfolding set_distance
set_distance-Mirrors s from to k m = record {
  incoming = λ a b. ground (
    arith,
    find_edge-updt_entry (s.incoming_edges to) from a k,
    m.incoming a b,
    name_eq_iff to b,
    name_eq_iff from a,
  );
  outgoing = λ a b. ground (
    arith,
    find_edge-updt_entry (s.outgoing_edges from) to b k,
    m.outgoing a b,
    name_eq_iff to b,
    name_eq_iff from a,
  );
  incoming_distinct = λ b. ground (
    arith,
    m.incoming_distinct b,
    name_eq_iff to b,
    updt_entry-AreDistinct (s.incoming_edges to) from k (m.incoming_distinct to),
  );
  outgoing_distinct = λ a. ground (
    arith,
    m.outgoing_distinct a,
    name_eq_iff from a,
    updt_entry-AreDistinct (s.outgoing_edges from) to k (m.outgoing_distinct from),
  );
}

add_entry-Mirrors : (s : Constraints) (e : Entry) → Mirrors s → Mirrors (add_entry s e)
unfolding add_entry
add_entry-Mirrors s (from, to, k) m = elim (Bool-cases (improves (get_distance s from to) k)) [
  | inl h ↦ rw h (set_distance-Mirrors s from to k m)
  | inr h ↦ rw h m
]

pub add_entries-Mirrors :
    (s : Constraints) (es : List Entry) → Mirrors s → Mirrors (add_entries s es)
unfolding add_entries
add_entries-Mirrors s [] m = m
add_entries-Mirrors s (e ∷ es) m = add_entries-Mirrors (add_entry s e) es (add_entry-Mirrors s e m)

pub no_constraints-Mirrors : Mirrors no_constraints
unfolding find_edge
no_constraints-Mirrors = record {
  incoming = λ a b. refl;
  outgoing = λ a b. refl;
  incoming_distinct = λ b. tt;
  outgoing_distinct = λ a. tt;
}

find_edge-append :
    (es : List Edge) (n m : Name) (k : ℤ)
    → find_edge es n ≡ none
    → find_edge (es ++ (n, k) ∷ []) m ≡ (if name_eq n m then some k else find_edge es m)
unfolding find_edge
find_edge-append [] n m k h = refl
find_edge-append ((i, j) ∷ es) n m k h =
    ground (arith, find_edge-append es n m k, name_eq_iff i n, name_eq_iff i m, name_eq_iff n m)

append-AreDistinct :
    (es : List Edge) (n : Name) (k : ℤ)
    → find_edge es n ≡ none
    → AreDistinct es
    → AreDistinct (es ++ (n, k) ∷ [])
unfolding find_edge
append-AreDistinct [] n k h d = (refl, tt)
append-AreDistinct ((i, j) ∷ es) n k h d = (
  find_edge-append es n i k (ground arith) ∙ ground (arith, name_eq_iff i n, name_eq_iff n i, d.0),
  append-AreDistinct es n k (ground arith) d.1,
)

-- `add_var` of a variable that is not in the set keeps the invariant that each edge list gives the
-- distances and has at most one edge for a name.
pub add_var-Mirrors :
    (s : Constraints) (n : Name) → s.distances n n ≡ none → Mirrors s → Mirrors (add_var s n)
unfolding add_var
add_var-Mirrors s n new m = record {
  incoming = λ a b. ground (
    arith,
    find_edge-append (s.incoming_edges n) n a (pos 0),
    m.incoming n n,
    m.incoming a b,
    name_eq_iff n a,
    name_eq_iff n b,
  );
  outgoing = λ a b. ground (
    arith,
    find_edge-append (s.outgoing_edges n) n b (pos 0),
    m.outgoing n n,
    m.outgoing a b,
    name_eq_iff n a,
    name_eq_iff n b,
  );
  incoming_distinct = λ b. ground (
    arith,
    m.incoming n n,
    m.incoming_distinct b,
    name_eq_iff n b,
    append-AreDistinct (s.incoming_edges n) n (pos 0),
  );
  outgoing_distinct = λ a. ground (
    arith,
    m.outgoing n n,
    m.outgoing_distinct a,
    name_eq_iff n a,
    append-AreDistinct (s.outgoing_edges n) n (pos 0),
  );
}

-- What a call of `add_constraint` that does not throw has done.
pub add_constraint_cases :
    (s : Constraints) (n1 n2 : Name) (k : ℤ) {s' : Constraints}
    → add_constraint s n1 n2 k ≡ some s'
    → ((is_implied s n1 n2 k ≡ true) × (s ≡ s'))
      ⊎ ((ins : List Entry) × (outs : List Entry) × (entries_in (s.incoming_edges n1) n2 k
            ≡ some ins)
          × (entries_out (s.outgoing_edges n2) n1 k ≡ some outs)
          × (add_entries s (ins ++ outs) ≡ s'))
unfolding add_constraint
add_constraint_cases s n1 n2 k {s'} h = elim (Bool-cases (is_implied s n1 n2 k)) [
  | inl i ↦ inl (i, some-injective _ _ (rw i at h))
  | inr i ↦
      let (ins, ei, h1) = >>=-eq-some (entries_in (s.incoming_edges n1) n2 k) _ (rw i at h) in
      let (outs, eo, h2) = >>=-eq-some (entries_out (s.outgoing_edges n2) n1 k) _ h1 in
      inr (ins, outs, ei, eo, some-injective _ _ h2)
]

-- `add_constraint`, where it does not throw, keeps the invariant that each edge list gives the
-- distances and has at most one edge for a name.
pub add_constraint-Mirrors :
    (s : Constraints) (n1 n2 : Name) (k : ℤ) {s' : Constraints}
    → Mirrors s
    → add_constraint s n1 n2 k ≡ some s'
    → Mirrors s'
add_constraint-Mirrors s n1 n2 k m h = elim (add_constraint_cases s n1 n2 k h) [
  | inl (i, e) ↦ subst Mirrors e m
  | inr (ins, outs, ei, eo, e) ↦ subst Mirrors e (add_entries-Mirrors s (ins ++ outs) m)
]
