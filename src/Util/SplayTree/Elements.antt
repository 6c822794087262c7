-- ===== src/Util/SplayTree/Elements.antt =====
-- util/splay_tree.h: the elements of a tree in order, through every rotation.
use lean.Base.{refl, ◌∙◌, List, [], ap, false, sym, true, ◌++◌, ◌∷◌, ◌≡◌}
use mathlib.Core.List.{append-nil, append_assoc}
use lean.Util.SplayTree.{
  Tree, Entry, leaf, node, splay_to_top, splay_last, max_loop, pull_max, to_buffer, join, set_right,
}
use lean.Util.SplayTree.{entry}

module _ {ℓ} {T : Type ℓ} where
  unfoldable pub elements : Tree T → List T
  elements leaf = []
  elements (node l x r) = elements l ++ x ∷ elements r

  -- What lies before and after the node at the end of a path.
  abbrev pub before : List (Entry T) → List T
  before [] = []
  before (entry false p c ∷ path) = before path
  before (entry true p c ∷ path) = before path ++ elements c ++ p ∷ []

  abbrev pub after : List (Entry T) → List T
  after [] = []
  after (entry false p c ∷ path) = p ∷ elements c ++ after path
  after (entry true p c ∷ path) = after path

  -- The node comes to the root, with what lies before it on the left and the rest on the right.
  pub splay_to_top-root :
      (path : List (Entry T)) (a : Tree T) (x : T) (b : Tree T)
      → (l : Tree T) × (r : Tree T) × (splay_to_top path a x b ≡ node l x r)
        × (elements l ≡ before path ++ elements a)
        × (elements r ≡ elements b ++ after path)
  unfolding splay_to_top elements
  splay_to_top-root [] a x b = (a, b, refl, refl, sym (append-nil (elements b)))
  splay_to_top-root (entry false p c ∷ []) a x b = (a, node b p c, refl, refl, simp append-nil)
  splay_to_top-root (entry true p c ∷ []) a x b =
      (node c p a, b, refl, simp append_assoc, sym (append-nil (elements b)))
  splay_to_top-root (entry false p c ∷ entry false g d ∷ path) a x b =
      let (l, r, e, h, k) = splay_to_top-root path a x (node b p (node c g d)) in
      (l, r, e, h, k ∙ simp append_assoc)
  splay_to_top-root (entry true p c ∷ entry false g d ∷ path) a x b =
      let (l, r, e, h, k) = splay_to_top-root path (node c p a) x (node b g d) in
      (l, r, e, h ∙ simp append_assoc, k ∙ simp append_assoc)
  splay_to_top-root (entry false p c ∷ entry true g d ∷ path) a x b =
      let (l, r, e, h, k) = splay_to_top-root path (node d g a) x (node b p c) in
      (l, r, e, h ∙ simp append_assoc, k ∙ simp append_assoc)
  splay_to_top-root (entry true p c ∷ entry true g d ∷ path) a x b =
      let (l, r, e, h, k) = splay_to_top-root path (node (node d g c) p a) x b in
      (l, r, e, h ∙ simp append_assoc, k)

  pub elements-splay_to_top :
      (path : List (Entry T)) (a : Tree T) (x : T) (b : Tree T)
      → elements (splay_to_top path a x b)
        ≡ before path ++ elements a ++ x ∷ elements b ++ after path
  unfolding elements
  elements-splay_to_top path a x b =
      let (l, r, e, h, k) = splay_to_top-root path a x b in
      ap elements e ∙ simp (h, k, append_assoc)

  pub elements-splay_last :
      (path : List (Entry T)) → elements (splay_last path) ≡ before path ++ after path
  unfolding splay_last elements
  elements-splay_last [] = refl
  elements-splay_last (entry false p c ∷ path) =
      simp (elements-splay_to_top path leaf p c, append_assoc, append-nil)
  elements-splay_last (entry true p c ∷ path) =
      simp (elements-splay_to_top path c p leaf, append_assoc)

  -- Every entry of the path goes right.
  abbrev IsRight : List (Entry T) → Type 0
  IsRight [] = Unit
  IsRight (entry false p c ∷ path) = ⊥
  IsRight (entry true p c ∷ path) = IsRight path

  after-IsRight : (path : List (Entry T)) → IsRight path → after path ≡ []
  after-IsRight [] h = refl
  after-IsRight (entry false p c ∷ path) h = absurd h
  after-IsRight (entry true p c ∷ path) h = after-IsRight path h

  -- The right child then stays where it is.
  splay_right :
      (path : List (Entry T)) (a : Tree T) (x : T) (b : Tree T)
      → IsRight path
      → (l : Tree T) × (splay_to_top path a x b ≡ node l x b)
  unfolding splay_to_top
  splay_right [] a x b h = (a, refl)
  splay_right (entry false p c ∷ path) a x b h = absurd h
  splay_right (entry true p c ∷ []) a x b h = (node c p a, refl)
  splay_right (entry true p c ∷ entry false g d ∷ path) a x b h = absurd h
  splay_right (entry true p c ∷ entry true g d ∷ path) a x b h =
      splay_right path (node (node d g c) p a) x b h

  max_loop-shape :
      (l : Tree T) (x : T) (r : Tree T) (path : List (Entry T))
      → IsRight path
      → (a : Tree T) × (y : T) × (max_loop l x r path ≡ node a y leaf)
        × (elements a ++ y ∷ [] ≡ before path ++ elements l ++ x ∷ elements r)
  unfolding max_loop elements
  max_loop-shape l x leaf path h =
      let (a, e) = splay_right path l x leaf h in
      (
        a,
        x,
        e,
        sym (ap elements e)
            ∙ elements-splay_to_top path l x leaf
            ∙ simp (after-IsRight path h, append-nil),
      )
  max_loop-shape l x (node rl y rr) path h =
      let (a, z, e, c) = max_loop-shape rl y rr (entry true x l ∷ path) h in
      (a, z, e, c ∙ simp append_assoc)

  -- The end of `erase` keeps the elements of the two children, in order.
  pub elements-join : (l r : Tree T) → elements (join l r) ≡ elements l ++ elements r
  unfolding join elements pull_max
  elements-join leaf r = refl
  elements-join (node a x b) leaf = sym (append-nil (elements a ++ x ∷ elements b))
  elements-join (node a x b) (node c y d) =
      let (l, z, e, p) = max_loop-shape a x b [] tt in
      let rest = elements c ++ y ∷ elements d in
      ap (λ t. elements (set_right t (node c y d))) e
      ∙ sym (append_assoc (elements l) (z ∷ []) rest)
      ∙ ap {A = List T} {B = List T} (λ es. es ++ rest) p

  pub to_buffer-eq : (t : Tree T) (buffer : List T) → to_buffer t buffer ≡ buffer ++ elements t
  unfolding to_buffer elements
  to_buffer-eq leaf buffer = sym (append-nil buffer)
  to_buffer-eq (node l x r) buffer =
      to_buffer-eq r (to_buffer l buffer ++ x ∷ []) ∙ simp (to_buffer-eq l buffer, append_assoc)
