-- ===== src/Kernel/ForEach.antt =====
-- kernel/for_each_fn.h, kernel/find_fn.h and kernel/occurs.cpp: a visit of the parts of an
-- expression, and the search that it serves. `same_cell` compares addresses and `is_shared` reads a
-- reference count. The stack and the set of visited cells have their last element first.
pub mod Parts
pub mod Finds
pub mod Cell
pub mod Occurs
use lean.Base.{
  Bool, List, Option, [], add32, false, if◌then◌else◌, is_some, none, some, suc, true, zero, ℕ,
  ◌&&◌, ◌++◌, ◌==◌, ◌>>=◌, ◌∷◌,
}
use lean.Kernel.Expr.{
  Expr, Exprs, OptExpr, var, constant, value, app, pair, proj, abstraction, type, let_in, heq,
  metavar, nil, cons, absent, present,
}
use lean.Util.Name.{Name, name_eq}

-- An expression with the number of binders above it, in `todo` and in `m_visited`.
pub data Item : Type 0 where
  item : Expr → ℕ → Item

-- `todo`, `m_visited` and the state of `m_f`.
pub data Visit {ℓ} (S : Type ℓ) : Type ℓ where
  visit : List Item → List Item → S → Visit S

-- The kinds that are visited before the set of visited cells is asked.
abbrev pub is_plain : Expr → Bool
is_plain (constant n absent) = true
is_plain (type l) = true
is_plain (value v) = true
is_plain (var i) = true
is_plain (metavar n c) = true
is_plain _ = false

abbrev pub args_items : Exprs → ℕ → List Item
args_items nil o = []
args_items (cons e es) o = item e o ∷ args_items es o

abbrev pub opt_items : OptExpr → ℕ → List Item
opt_items absent o = []
opt_items (present e) o = item e o ∷ []

-- What the switch puts on the stack, the top first.
abbrev pub items_of : Expr → ℕ → List Item
items_of (constant n t) o = opt_items t o
items_of (app g xs) o = item g o ∷ args_items xs o
items_of (heq a b) o = item b o ∷ item a o ∷ []
items_of (pair a b t) o = item t o ∷ item b o ∷ item a o ∷ []
items_of (proj i e) o = item e o ∷ []
items_of (abstraction k n t b) o = item t o ∷ item b (add32 o 1) ∷ []
items_of (let_in n t v b) o = opt_items t o ++ (item v o ∷ item b (add32 o 1) ∷ [])
items_of _ o = []

abbrev pub is_constant_named : Name → Expr → Bool
is_constant_named n (constant m t) = name_eq m n
is_constant_named n _ = false

-- `pred_fn`
abbrev pub pred_fn : (Expr → Bool) → Option Expr → Expr → ℕ → Option Expr × Bool
pred_fn p (some r) e o = (some r, false)
pred_fn p none e o = if p e then (some e, false) else (none, true)

module _ (same_cell : Expr → Expr → Bool) where
  unfoldable pub is_visited : List Item → Expr → ℕ → Bool
  is_visited [] e o = false
  is_visited (item c p ∷ visited) e o =
      let rest = is_visited visited e o in if same_cell c e && p == o then true else rest

module _ (same_cell : Expr → Expr → Bool) (is_shared : Expr → Bool) where
  module _ {ℓ} {S : Type ℓ} (f : S → Expr → ℕ → S × Bool) where
    -- The end of a pass through the loop, where `m_f` is called on a cell.
    abbrev pub call : Expr → ℕ → List Item → List Item → S × Bool → Visit S
    call e o todo visited (s, go) = visit (if go then items_of e o ++ todo else todo) visited s

    -- A pass through the loop of `apply`.
    unfoldable pub pass : Expr → ℕ → List Item → List Item → S → Visit S
    unfolding is_visited
    pass e o todo visited s =
        if is_plain e
        then visit todo visited (f s e o).0
        else if is_shared e && is_visited same_cell visited e o
        then visit todo visited s
        else call e o todo (if is_shared e then item e o ∷ visited else visited) (f s e o)

    unfoldable pub loop : ℕ → Visit S → Option S
    unfolding pass
    loop n (visit [] visited s) = some s
    loop zero (visit (i ∷ todo) visited s) = none
    loop (suc n) (visit (item e o ∷ todo) visited s) = loop n (pass e o todo visited s)

    -- `for_each`, with fuel for the passes.
    unfoldable pub for_each : ℕ → Expr → S → Option S
    unfolding loop
    for_each n e s = loop n (visit (item e 0 ∷ []) [] s)

  module _ (p : Expr → Bool) where
    unfoldable pub find : ℕ → Expr → Option (Option Expr)
    unfolding for_each
    find n e = for_each (pred_fn p) n e none

  -- `occurs(n, m)` for a name.
  unfoldable pub occurs : ℕ → Name → Expr → Option Bool
  unfolding find
  occurs fuel n e = do r ← find (is_constant_named n) fuel e; some (is_some r)
