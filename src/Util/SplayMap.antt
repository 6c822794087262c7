-- ===== src/Util/SplayMap.antt =====
-- util/splay_map.h: maps as splay trees of pairs that are compared by their keys. `filler` is the
-- value `T()` that a search is made with.
pub mod Update
use lean.Base.{is_some, Bool, Option, Ordering, by_key, false, if◌then◌else◌, none, some, true}
use lean.Util.SplayTree
use lean.Util.SplayTree.{Tree}
use mathlib.Core.Option.{map}

-- `entry_cmp`
abbrev pub entry_cmp {ℓ κ} :
    {K : Type ℓ} {V : Type κ} → (K → K → Ordering) → K × V → K × V → Ordering
entry_cmp cmp = by_key (λ e. e.0) cmp

module _ {ℓ κ} {K : Type ℓ} {V : Type κ} where
  unfoldable pub insert : (K → K → Ordering) → Tree (K × V) → K → V → Tree (K × V)
  unfolding SplayTree.insert
  insert cmp m k v = SplayTree.insert (entry_cmp cmp) m (k, v)

  unfoldable pub fold {μ} : {R : Type μ} → (K → V → R → R) → Tree (K × V) → R → R
  unfolding SplayTree.fold
  fold f m r = SplayTree.fold (λ e r. f e.0 e.1 r) m r

module _ {ℓ κ} {K : Type ℓ} {V : Type κ} (cmp : K → K → Ordering) (filler : V) where
  -- `find`: the answer, and the reorganized tree.
  unfoldable pub find : Tree (K × V) → K → Option V × Tree (K × V)
  unfolding SplayTree.find
  find m k = let r = SplayTree.find (entry_cmp cmp) m (k, filler) in (map (λ e. e.1) r.0, r.1)

  unfoldable pub contains : Tree (K × V) → K → Bool × Tree (K × V)
  unfolding find
  contains m k = let r = find m k in (is_some r.0, r.1)

  unfoldable pub erase : Tree (K × V) → K → Tree (K × V)
  unfolding SplayTree.erase
  erase m k = SplayTree.erase (entry_cmp cmp) m (k, filler)

  -- Reading through a `ref`, which inserts the value `T()` on a key that the map does not hold.
  unfoldable pub read_ref : Tree (K × V) → K → Option V × Tree (K × V)
  unfolding find insert
  read_ref m k = let r = find m k in if is_some r.0 then r else find (insert cmp r.1 k filler) k
