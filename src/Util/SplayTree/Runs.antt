-- ===== src/Util/SplayTree/Runs.antt =====
-- util/splay_tree.h: a tree over a sequence of calls, and the same calls on a sorted list.
use lean.Base.{ap₂, refl, sym, ◌∙◌, IsWeakOrder, List, Option, Ordering, [], subst, ◌∷◌, ◌≡◌}
use lean.Util.SplayTree.{Tree, insert, find, erase, to_buffer}
use lean.Util.SplayTree.Elements.{elements, to_buffer-eq}
use lean.Util.SplayTree.Sorted.{
  IsSorted, find_in, insert_in, erase_in, insert_in-IsSorted, erase_in-IsSorted,
}
use lean.Util.SplayTree.Refine.{elements-insert, find-answer, elements-find, elements-erase}

pub data Call {ℓ} (T : Type ℓ) : Type ℓ where
  insert_call : T → Call T
  erase_call : T → Call T
  find_call : T → Call T

module _ {ℓ} {T : Type ℓ} (cmp : T → T → Ordering) where
  -- The answers of the `find` calls, and the tree in the end.
  unfoldable pub run : List (Call T) → Tree T → List (Option T) × Tree T
  unfolding insert erase find
  run [] t = ([], t)
  run (insert_call v ∷ calls) t = run calls (insert cmp t v)
  run (erase_call v ∷ calls) t = run calls (erase cmp t v)
  run (find_call v ∷ calls) t =
      let (answers, t') = run calls (find cmp t v).1 in ((find cmp t v).0 ∷ answers, t')

  unfoldable pub replay : List (Call T) → List T → List (Option T) × List T
  unfolding insert_in erase_in find_in
  replay [] xs = ([], xs)
  replay (insert_call v ∷ calls) xs = replay calls (insert_in cmp v xs)
  replay (erase_call v ∷ calls) xs = replay calls (erase_in cmp v xs)
  replay (find_call v ∷ calls) xs =
      let (answers, ys) = replay calls xs in (find_in cmp v xs ∷ answers, ys)

  -- The run of the calls from a tree agrees with their replay on a list.
  abbrev Agrees : List (Call T) → Tree T → List T → Type ℓ
  Agrees calls t xs =
      ((run calls t).0 ≡ (replay calls xs).0)
      × (elements (run calls t).1 ≡ (replay calls xs).1)
      × IsSorted cmp (elements (run calls t).1)

  module _ (o : IsWeakOrder cmp) where
    refined :
        (calls : List (Call T)) (t : Tree T)
        → IsSorted cmp (elements t)
        → Agrees calls t (elements t)
    unfolding run replay
    refined [] t s = (refl, refl, s)
    refined (insert_call v ∷ calls) t s =
        let e = elements-insert cmp o t v s in
        subst (Agrees calls (insert cmp t v)) e (
          refined calls (insert cmp t v)
            (subst (IsSorted cmp) (sym e) (insert_in-IsSorted cmp o v (elements t) s)))
    refined (erase_call v ∷ calls) t s =
        let e = elements-erase cmp o t v s in
        subst (Agrees calls (erase cmp t v)) e (
          refined calls (erase cmp t v)
            (subst (IsSorted cmp) (sym e) (erase_in-IsSorted cmp v (elements t) s)))
    refined (find_call v ∷ calls) t s =
        let e = elements-find cmp o t v s in
        let (a, b, q) =
          subst (Agrees calls (find cmp t v).1) e
            (refined calls (find cmp t v).1 (subst (IsSorted cmp) (sym e) s)) in
        (ap₂ ◌∷◌ (find-answer cmp o t v s) a, b, q)

    -- From an ordered tree, any sequence of calls of `insert`, `erase` and `find` gives the answers
    -- that a sorted list gives, and ends in a tree that `to_buffer` writes as the sorted list in the
    -- end, for a comparison that is a weak order.
    pub run_refines :
        (calls : List (Call T)) (t : Tree T)
        → IsSorted cmp (to_buffer t [])
        → ((run calls t).0 ≡ (replay calls (to_buffer t [])).0)
          × (to_buffer (run calls t).1 [] ≡ (replay calls (to_buffer t [])).1)
          × IsSorted cmp (to_buffer (run calls t).1 [])
    run_refines calls t s =
        let e = to_buffer-eq t [] in
        let d = to_buffer-eq (run calls t).1 [] in
        let (a, b, q) =
          subst (Agrees calls t) (sym e) (refined calls t (subst (IsSorted cmp) e s)) in
        (a, d ∙ b, subst (IsSorted cmp) (sym d) q)
