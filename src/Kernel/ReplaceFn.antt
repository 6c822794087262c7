-- ===== src/Kernel/ReplaceFn.antt =====
-- kernel/replace_fn.h: `replace_fn` with its stacks of frames and results and its cache. `f` answers
-- `none` where the source's returns the cell that it was given; `same_cell` compares addresses, and
-- `is_shared` reads a reference count. The stacks have their top first; there is no post-processing.
pub mod Size
pub mod Steps
pub mod Runs
pub mod Result
use lean.Base.{
  Bool, List, Option, [], add32, drop, false, if◌then◌else◌, is_some, none, not, some, suc, true,
  zero, ℕ, ◌&&◌, ◌==◌, ◌>>=◌, ◌∷◌,
}
use lean.Kernel.Expr.{
  Expr, Exprs, OptExpr, var, constant, value, app, pair, proj, abstraction, type, let_in, heq,
  metavar, nil, cons, absent, present, mk_app, length_args,
}

-- `m_expr`, `m_offset`, `m_shared` and `m_index` of a frame.
pub data Frame : Type 0 where
  frame : Expr → ℕ → Bool → ℕ → Frame

-- An entry of `m_cache`: the cell, the offset and the result.
pub data Saved : Type 0 where
  saved : Expr → ℕ → Expr → Saved

-- `m_fs`, `m_rs` and `m_cache`.
pub data Stacks : Type 0 where
  stacks : List Frame → List Expr → List Saved → Stacks

-- The visits of one case of the switch, in order: an expression, with whether it is below one more
-- binder, or none for the absent type of a let.
pub data Part : Type 0 where
  part : Bool → Expr → Part
  no_part : Part

abbrev pub is_atomic : Expr → Bool
is_atomic (var i) = true
is_atomic (constant n t) = true
is_atomic (value v) = true
is_atomic (type l) = true
is_atomic (metavar n c) = true
is_atomic _ = false

abbrev pub args_parts : Exprs → List Part
args_parts nil = []
args_parts (cons e es) = part false e ∷ args_parts es

abbrev pub opt_part : OptExpr → Part
opt_part absent = no_part
opt_part (present e) = part false e

abbrev pub parts_of : Expr → List Part
parts_of (heq a b) = part false a ∷ part false b ∷ []
parts_of (pair a b t) = part false a ∷ part false b ∷ part false t ∷ []
parts_of (proj i e) = part false e ∷ []
parts_of (app g xs) = part false g ∷ args_parts xs
parts_of (abstraction k n t b) = part false t ∷ part true b ∷ []
parts_of (let_in n t v b) = opt_part t ∷ part false v ∷ part true b ∷ []
parts_of _ = []

abbrev pub part_offset : Bool → ℕ → ℕ
part_offset b o = if b then add32 o 1 else o

-- `update_app` on the results on the stack, and `pop_rs`.
abbrev pub pop_args : ℕ → List Expr → Exprs → Option (Expr × List Expr)
pop_args n [] acc = none
pop_args zero (g ∷ rs) acc = some (mk_app g acc, rs)
pop_args (suc n) (x ∷ rs) acc = pop_args n rs (cons x acc)

-- The call of an `update_` function that ends each case of the switch.
unfoldable pub update : Expr → List Expr → Option (Expr × List Expr)
update (heq a b) (y ∷ x ∷ rs) = some (heq x y, rs)
update (pair a b t) (z ∷ y ∷ x ∷ rs) = some (pair x y z, rs)
update (proj i e) (x ∷ rs) = some (proj i x, rs)
update (app g xs) rs = pop_args (length_args xs) rs nil
update (abstraction k n t b) (y ∷ x ∷ rs) = some (abstraction k n x y, rs)
update (let_in n absent v b) (z ∷ y ∷ rs) = some (let_in n absent y z, rs)
update (let_in n (present t) v b) (z ∷ y ∷ x ∷ rs) = some (let_in n (present x) y z, rs)
update _ rs = none

-- `f.m_index++`
abbrev pub next_index : Stacks → Stacks
next_index (stacks (frame e o s i ∷ fs) rs cache) = stacks (frame e o s (suc i) ∷ fs) rs cache
next_index (stacks [] rs cache) = stacks [] rs cache

module _ (same_cell : Expr → Expr → Bool) where
  unfoldable pub find_saved : List Saved → Expr → ℕ → Option Expr
  find_saved [] e o = none
  find_saved (saved c p r ∷ cache) e o =
      if same_cell c e && p == o then some r else find_saved cache e o

  unfoldable pub save_result : Expr → Expr → ℕ → Bool → Stacks → Stacks
  unfolding find_saved
  save_result e r o shared (stacks fs rs cache) =
      stacks fs (r ∷ rs)
        (if shared && not (is_some (find_saved cache e o)) then saved e o r ∷ cache else cache)

module _ (same_cell : Expr → Expr → Bool) (is_shared : Expr → Bool)
    (f : Expr → ℕ → Option Expr) where
  -- `visit`: whether the result is on the stack, else a frame was pushed.
  abbrev pub visit_new : Option Expr → Expr → ℕ → Stacks → Stacks × Bool
  unfolding save_result
  visit_new (some r) e o st = (save_result same_cell e r o (is_shared e) st, true)
  visit_new none e o (stacks fs rs cache) =
      if is_atomic e
      then (save_result same_cell e e o (is_shared e) (stacks fs rs cache), true)
      else (stacks (frame e o (is_shared e) 0 ∷ fs) rs cache, false)

  abbrev pub visit_with : Option Expr → Expr → ℕ → Stacks → Stacks × Bool
  visit_with (some r) e o (stacks fs rs cache) = (stacks fs (r ∷ rs) cache, true)
  visit_with none e o st = visit_new (f e o) e o st

  unfoldable pub visit : Expr → ℕ → Stacks → Stacks × Bool
  unfolding find_saved
  visit e o (stacks fs rs cache) =
      visit_with (if is_shared e then find_saved same_cell cache e o else none) e o
        (stacks fs rs cache)

  -- The visits that a pass through the loop makes, up to the first one that pushes a frame.
  unfoldable pub visit_parts : List Part → ℕ → Stacks → Stacks × Bool
  unfolding visit
  visit_parts [] o st = (st, true)
  visit_parts (no_part ∷ ps) o st = visit_parts ps o (next_index st)
  visit_parts (part b c ∷ ps) o st =
      let next = visit c (part_offset b o) (next_index st) in
      let rest = visit_parts ps o next.0 in if next.1 then rest else (next.0, false)

  -- The end of a pass, after the visits.
  unfoldable pub finish : Stacks → Option Stacks
  unfolding update save_result
  finish (stacks [] rs cache) = none
  finish (stacks (frame e o s i ∷ fs) rs cache) = do
    (r, rest) ← update e rs
    some (save_result same_cell e r o s (stacks fs rest cache))

  abbrev pub after : Stacks × Bool → Option Stacks
  unfolding finish
  after (st, ended) = if ended then finish st else some st

  -- A pass through the loop; `check_index` skips the visits that were made.
  unfoldable pub step : Stacks → Option Stacks
  unfolding visit_parts after
  step (stacks [] rs cache) = none
  step (stacks (frame e o s i ∷ fs) rs cache) =
      after (visit_parts (drop i (parts_of e)) o (stacks (frame e o s i ∷ fs) rs cache))

  unfoldable pub loop : ℕ → Stacks → Option Expr
  unfolding step
  loop n (stacks [] [] cache) = none
  loop n (stacks [] (r ∷ rs) cache) = some r
  loop zero (stacks (g ∷ fs) rs cache) = none
  loop (suc n) (stacks (g ∷ fs) rs cache) = do st ← step (stacks (g ∷ fs) rs cache); loop n st

  -- `replace_fn::operator()`, with fuel for the passes through the loop.
  unfoldable pub replace_fn : ℕ → Expr → Option Expr
  unfolding visit loop
  replace_fn n e = loop n (visit e 0 (stacks [] [] [])).0
