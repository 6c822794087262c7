-- ===== src/Util/SplayTree/Refine.antt =====
-- util/splay_tree.h: each operation on a tree, on the list of its elements.
use lean.Base.{
  IsWeakOrder, List, Ordering, ap, false, inl, inr, refl, some, sym, true, ◌++◌, ◌∙◌, ◌∷◌, ◌≡◌,
}
use Prim.Native.Nat.Ordering.{eq}
use lean.Util.SplayTree.{Tree, insert, find, erase}
use lean.Util.SplayTree.Elements.{elements, elements-join}
use lean.Util.SplayTree.Search.{insert_pull-split}
use lean.Util.SplayTree.Sorted.{
  IsSorted, find_in, insert_in, erase_in, find_in-below, find_in-above, insert_in-below,
  insert_in-above, erase_in-below, erase_in-above,
}

module _ {ℓ} {T : Type ℓ} (cmp : T → T → Ordering) (o : IsWeakOrder cmp) where
  find_in_equal : (v x : T) (ys : List T) → cmp v x ≡ eq → find_in cmp v (x ∷ ys) ≡ some x
  unfolding find_in
  find_in_equal v x ys h = rw (h, find_in) refl

  insert_in_equal : (v x : T) (ys : List T) → cmp v x ≡ eq → insert_in cmp v (x ∷ ys) ≡ v ∷ ys
  unfolding insert_in
  insert_in_equal v x ys h = rw (h, insert_in) refl

  erase_in_equal : (v x : T) (ys : List T) → cmp v x ≡ eq → erase_in cmp v (x ∷ ys) ≡ ys
  unfolding erase_in
  erase_in_equal v x ys h = rw (h, erase_in) refl

  pub elements-insert :
      (t : Tree T) (v : T)
      → IsSorted cmp (elements t)
      → elements (insert cmp t v) ≡ insert_in cmp v (elements t)
  unfolding insert elements
  elements-insert t v s = elim (insert_pull-split cmp o true v t s) [
    | inl a ↦
        a.result
        ∙ sym (
            ap (insert_in cmp v) a.parts
            ∙ insert_in-below cmp v a.low a.high a.below
            ∙ ap (◌++◌ a.low) (insert_in-above cmp v a.high a.above))
    | inr p ↦
        ap elements p.result
        ∙ sym (
            ap (insert_in cmp v) p.parts
            ∙ insert_in-below cmp v (elements p.left) (p.found ∷ elements p.right) p.below
            ∙ ap (◌++◌ (elements p.left)) (insert_in_equal v p.found (elements p.right) p.equal))
  ]

  pub find-answer :
      (t : Tree T) (v : T)
      → IsSorted cmp (elements t)
      → (find cmp t v).0 ≡ find_in cmp v (elements t)
  unfolding find
  find-answer t v s = elim (insert_pull-split cmp o false v t s) [
    | inl a ↦ rw a.answer (
        sym (
          ap (find_in cmp v) a.parts
          ∙ find_in-below cmp v a.low a.high a.below
          ∙ find_in-above cmp v a.high a.above))
    | inr p ↦
        rw (p.answer, p.result)
          (sym (
            ap (find_in cmp v) p.parts
            ∙ find_in-below cmp v (elements p.left) (p.found ∷ elements p.right) p.below
            ∙ find_in_equal v p.found (elements p.right) p.equal))
  ]

  pub elements-find :
      (t : Tree T) (v : T) → IsSorted cmp (elements t) → elements (find cmp t v).1 ≡ elements t
  unfolding find elements
  elements-find t v s = elim (insert_pull-split cmp o false v t s) [
    | inl a ↦ a.result ∙ sym a.parts
    | inr p ↦ ap elements p.result ∙ sym p.parts
  ]

  pub elements-erase :
      (t : Tree T) (v : T)
      → IsSorted cmp (elements t)
      → elements (erase cmp t v) ≡ erase_in cmp v (elements t)
  unfolding erase
  elements-erase t v s = elim (insert_pull-split cmp o false v t s) [
    | inl a ↦ rw a.answer (
        a.result
        ∙ sym (
            ap (erase_in cmp v) a.parts
            ∙ erase_in-below cmp v a.low a.high a.below
            ∙ ap (◌++◌ a.low) (erase_in-above cmp v a.high a.above)))
    | inr p ↦
        rw (p.answer, p.result)
          (elements-join p.left p.right
            ∙ sym (
                ap (erase_in cmp v) p.parts
                ∙ erase_in-below cmp v (elements p.left) (p.found ∷ elements p.right) p.below
                ∙ ap (◌++◌ (elements p.left))
                    (erase_in_equal v p.found (elements p.right) p.equal)))
  ]
