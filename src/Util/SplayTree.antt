-- ===== src/Util/SplayTree.antt =====
-- util/splay_tree.h: splay trees. A node is its content: nodes that trees share are copied before
-- they are changed, so reference counts leave no trace. `cmp` is the functional object `CMP`.
pub mod Elements
pub mod Refine
pub mod Runs
pub mod Search
pub mod Sorted
use lean.Base.{Bool, List, Option, [], add32, false, if◌then◌else◌, none, some, true, ℕ, ◌++◌, ◌∷◌}
use Prim.Native.Nat.{Ordering}
use Prim.Native.Nat.Ordering.{lt, eq, gt}

-- A `node *`.
pub data Tree {ℓ} (T : Type ℓ) : Type ℓ where
  leaf : Tree T
  node : Tree T → T → Tree T → Tree T

-- An `entry` of a path: the direction taken at the node (true is right), and what the node has
-- apart from the child taken, which `update` replaces.
pub data Entry {ℓ} (T : Type ℓ) : Type ℓ where
  entry : Bool → T → Tree T → Entry T

module _ {ℓ} {T : Type ℓ} where
  -- `splay_to_top`; the path has its last entry first, and the node is given by its fields.
  unfoldable pub splay_to_top : List (Entry T) → Tree T → T → Tree T → Tree T
  splay_to_top [] a x b = node a x b
  splay_to_top (entry false p c ∷ []) a x b = node a x (node b p c)
  splay_to_top (entry true p c ∷ []) a x b = node (node c p a) x b
  splay_to_top (entry false p c ∷ entry false g d ∷ path) a x b =
      splay_to_top path a x (node b p (node c g d))
  splay_to_top (entry true p c ∷ entry false g d ∷ path) a x b =
      splay_to_top path (node c p a) x (node b g d)
  splay_to_top (entry false p c ∷ entry true g d ∷ path) a x b =
      splay_to_top path (node d g a) x (node b p c)
  splay_to_top (entry true p c ∷ entry true g d ∷ path) a x b =
      splay_to_top path (node (node d g c) p a) x b

  -- Where the child taken at the last node is null, that node is splayed.
  unfoldable pub splay_last : List (Entry T) → Tree T
  unfolding splay_to_top
  splay_last [] = leaf
  splay_last (entry false p c ∷ path) = splay_to_top path leaf p c
  splay_last (entry true p c ∷ path) = splay_to_top path c p leaf

  -- The loop of `pull_max`.
  unfoldable pub max_loop : Tree T → T → Tree T → List (Entry T) → Tree T
  unfolding splay_to_top
  max_loop l x leaf path = splay_to_top path l x leaf
  max_loop l x (node rl y rr) path = max_loop rl y rr (entry true x l ∷ path)

  unfoldable pub pull_max : Tree T → Tree T
  unfolding max_loop
  pull_max leaf = leaf
  pull_max (node l x r) = max_loop l x r []

  unfoldable pub to_buffer : Tree T → List T → List T
  to_buffer leaf buffer = buffer
  to_buffer (node l x r) buffer = to_buffer r (to_buffer l buffer ++ x ∷ [])

  unfoldable pub fold {κ} : {R : Type κ} → (T → R → R) → Tree T → R → R
  fold f leaf r = r
  fold f (node l x t) r = fold f t (f x (fold f l r))

  -- `size`; the count is an `unsigned`.
  unfoldable pub size : Tree T → ℕ
  unfolding fold
  size t = fold (λ x a. add32 a 1) t 0

  -- `left.m_ptr->m_right = right.m_ptr`
  abbrev pub set_right : Tree T → Tree T → Tree T
  set_right leaf t = leaf
  set_right (node l x r) t = node l x t

  -- The end of `erase`, on the two children of the root.
  unfoldable pub join : Tree T → Tree T → Tree T
  unfolding pull_max
  join leaf r = r
  join l leaf = l
  join l r = set_right (pull_max l) r

module _ {ℓ} {T : Type ℓ} (cmp : T → T → Ordering) where
  -- The loop of `insert_pull`: whether the value was found, and the new tree.
  unfoldable pub search_loop : Bool → T → Tree T → List (Entry T) → Bool × Tree T
  unfolding splay_to_top splay_last
  search_loop is_insert v leaf path =
      (false, if is_insert then splay_to_top path leaf v leaf else splay_last path)
  search_loop is_insert v (node l x r) path = elim (cmp v x) [
    | lt ↦ search_loop is_insert v l (entry false x r ∷ path)
    | eq ↦ (true, splay_to_top path l (if is_insert then v else x) r)
    | gt ↦ search_loop is_insert v r (entry true x l ∷ path)
  ]

  unfoldable pub insert_pull : Bool → T → Tree T → Bool × Tree T
  unfolding search_loop
  insert_pull is_insert v t = search_loop is_insert v t []

  unfoldable pub insert : Tree T → T → Tree T
  unfolding insert_pull
  insert t v = (insert_pull true v t).1

  -- The value at the root.
  abbrev pub root_value : Tree T → Option T
  root_value leaf = none
  root_value (node l x r) = some x

  -- `find`: the answer, and the tree that `pull` has reorganized.
  unfoldable pub find : Tree T → T → Option T × Tree T
  unfolding insert_pull
  find t v = let r = insert_pull false v t in (if r.0 then root_value r.1 else none, r.1)

  abbrev pub erase_root : Tree T → Tree T
  erase_root leaf = leaf
  erase_root (node l x r) = join l r

  unfoldable pub erase : Tree T → T → Tree T
  unfolding insert_pull join
  erase t v = let r = insert_pull false v t in if r.0 then erase_root r.1 else r.1
