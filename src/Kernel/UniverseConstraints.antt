-- ===== src/Kernel/UniverseConstraints.antt =====
-- kernel/universe_constraints.h and kernel/universe_constraints.cpp: the constraints n1 >= n2 + k on
-- universe variables. The two edge maps give no edges for a
-- name that they do not hold; `none` is an exception that `safe_add` or `safe_sub` throws.
pub mod Added
pub mod Edges
pub mod Unclosed
pub mod Sources
pub mod Overflow
pub mod Solutions
use lean.Base.{
  is_some, Bool, List, Option, [], false, if◌then◌else◌, ltb_ℤ, none, not, some, true, ℤ, ◌++◌,
  ◌>>=◌, ◌||◌, ◌∷◌, pos,
}
use lean.Util.Arith.{safe_add_int, safe_sub_int}
use lean.Util.Name.{Name, name_eq}

abbrev pub Edge : Type 0
Edge = Name × ℤ

pub record Constraints : Type 0 where
  pub incoming_edges : Name → List Edge
  pub outgoing_edges : Name → List Edge
  pub distances : Name → Name → Option ℤ

abbrev pub no_constraints : Constraints
no_constraints = record {
  incoming_edges = λ n. [];
  outgoing_edges = λ n. [];
  distances = λ a b. none;
}

abbrev pub get_distance : Constraints → Name → Name → Option ℤ
get_distance s n1 n2 = s.distances n1 n2

-- A map with a new value at one key.
abbrev pub update {ℓ} : {A : Type ℓ} → (Name → A) → Name → A → Name → A
update f n a m = if name_eq n m then a else f m

unfoldable pub add_var : Constraints → Name → Constraints
add_var s n = record {
  incoming_edges = update s.incoming_edges n (s.incoming_edges n ++ (n, pos 0) ∷ []);
  outgoing_edges = update s.outgoing_edges n (s.outgoing_edges n ++ (n, pos 0) ∷ []);
  distances = update s.distances n (update (s.distances n) n (some (pos 0)));
}

unfoldable pub contains : Constraints → Name → Bool
contains s n = is_some (get_distance s n n)

abbrev pub at_least : Option ℤ → ℤ → Bool
at_least none k = false
at_least (some d) k = not (ltb_ℤ d k)

unfoldable pub is_implied : Constraints → Name → Name → ℤ → Bool
is_implied s n1 n2 k = at_least (get_distance s n1 n2) k

unfoldable pub is_consistent : Constraints → Name → Name → ℤ → Option Bool
unfolding is_implied
is_consistent s n1 n2 k = do
  minus ← safe_sub_int (pos 0) k
  bound ← safe_add_int minus (pos 1)
  some (not (is_implied s n2 n1 bound))

-- The additions that `overflows` tries on one of the edge lists, until one throws.
throws : List Edge → ℤ → Bool
throws [] k = false
throws ((n, j) ∷ es) k = elim (safe_add_int j k) [ none ↦ true | some r ↦ throws es k ]

unfoldable pub overflows : Constraints → Name → Name → ℤ → Bool
unfolding throws
overflows s n1 n2 k = throws (s.incoming_edges n1) k || throws (s.outgoing_edges n2) k

-- `updt_entry`
unfoldable pub updt_entry : List Edge → Name → ℤ → List Edge
updt_entry [] n k = (n, k) ∷ []
updt_entry ((m, j) ∷ es) n k =
    let rest = updt_entry es n k in if name_eq m n then (m, k) ∷ es else (m, j) ∷ rest

-- The entries of `to_add`: from, to and the new distance.
abbrev pub Entry : Type 0
Entry = Name × Name × ℤ

unfoldable pub entries_in : List Edge → Name → ℤ → Option (List Entry)
entries_in [] n2 k = some []
entries_in ((n, j) ∷ es) n2 k = do
  r ← safe_add_int j k
  rest ← entries_in es n2 k
  some ((n, n2, r) ∷ rest)

unfoldable pub entries_out : List Edge → Name → ℤ → Option (List Entry)
entries_out [] n1 k = some []
entries_out ((n, j) ∷ es) n1 k = do
  r ← safe_add_int j k
  rest ← entries_out es n1 k
  some ((n1, n, r) ∷ rest)

-- The body of the second loop of `add_constraint`, and the loop.
abbrev pub improves : Option ℤ → ℤ → Bool
improves none new_k = true
improves (some old_k) new_k = ltb_ℤ old_k new_k

unfoldable pub set_distance : Constraints → Name → Name → ℤ → Constraints
unfolding updt_entry
set_distance s from to new_k = record {
  incoming_edges = update s.incoming_edges to (updt_entry (s.incoming_edges to) from new_k);
  outgoing_edges = update s.outgoing_edges from (updt_entry (s.outgoing_edges from) to new_k);
  distances = update s.distances from (update (s.distances from) to (some new_k));
}

unfoldable pub add_entry : Constraints → Entry → Constraints
unfolding set_distance
add_entry s (from, to, new_k) =
    if improves (get_distance s from to) new_k then set_distance s from to new_k else s

unfoldable pub add_entries : Constraints → List Entry → Constraints
unfolding add_entry
add_entries s [] = s
add_entries s (e ∷ es) = add_entries (add_entry s e) es

unfoldable pub add_constraint : Constraints → Name → Name → ℤ → Option Constraints
unfolding is_implied entries_in entries_out add_entries
add_constraint s n1 n2 k = if is_implied s n1 n2 k then some s else do
  ins ← entries_in (s.incoming_edges n1) n2 k
  outs ← entries_out (s.outgoing_edges n2) n1 k
  some (add_entries s (ins ++ outs))
