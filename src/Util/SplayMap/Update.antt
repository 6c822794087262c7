-- ===== src/Util/SplayMap/Update.antt =====
-- util/splay_map.h: what `find` answers after `insert` and after `erase`.
use lean.Base.{
  All, ap, by_key-IsWeakOrder, subst, sym, ◌∙◌, Ordering-cases, inl, inr, none, IsTotalOrder, List,
  Option, Ordering, [], arith, if◌then◌else◌, some, ◌∷◌, ◌≡◌,
}
use Prim.Native.Nat.Ordering.{lt}
use lean.Util.Name.{is_eq}
use lean.Util.SplayMap.{entry_cmp, insert, find, erase}
use lean.Util.SplayTree.{Tree}
use lean.Util.SplayTree.Elements.{elements}
use lean.Util.SplayTree.Refine.{elements-insert, find-answer, elements-erase}
use lean.Util.SplayTree.Sorted.{
  IsSorted, AllAbove, find_in, insert_in, erase_in, insert_in-IsSorted, erase_in-IsSorted,
  find_in-above,
}
use mathlib.Core.Option.{map}

module _ {ℓ κ} {K : Type ℓ} {V : Type κ} (cmp : K → K → Ordering) (o : IsTotalOrder cmp) where
  abbrev get : K → V → List (K × V) → Option V
  get j d xs = map (λ e. e.1) (find_in (entry_cmp cmp) (j, d) xs)

  get-insert_in :
      (xs : List (K × V)) (k j : K) (v d : V)
      → get j d (insert_in (entry_cmp cmp) (k, v) xs)
        ≡ (if is_eq (cmp j k) then some v else get j d xs)
  unfolding find_in insert_in
  get-insert_in [] k j v d = ground arith
  get-insert_in ((i, w) ∷ xs) k j v d = ground (
    arith,
    get-insert_in xs k j v d,
    o.eq_of_cmp j k,
    o.eq_of_cmp k i,
    o.eq_of_cmp j i,
    o.cmp_refl j,
    o.cmp_refl k,
  )

  none_above :
      (i : K) (w : V) (xs : List (K × V)) (j : K) (d : V)
      → AllAbove (entry_cmp cmp) (i, w) xs
      → j ≡ i
      → get j d xs ≡ none
  none_above i w xs j d a e = ap (map (λ e. e.1)) (
      find_in-above (entry_cmp cmp) (j, d) xs (subst (λ k. All (λ x. cmp k x.0 ≡ lt) xs) (sym e) a))

  get-erase_in :
      (xs : List (K × V)) (k j : K) (f d : V)
      → IsSorted (entry_cmp cmp) xs
      → get j d (erase_in (entry_cmp cmp) (k, f) xs)
        ≡ (if is_eq (cmp j k) then none else get j d xs)
  unfolding find_in erase_in
  get-erase_in [] k j f d s = ground arith
  get-erase_in ((i, w) ∷ xs) k j f d s = elim (Ordering-cases (cmp k i)) [
    | inl h ↦ ground (arith, get-erase_in xs k j f d s.1, o.eq_of_cmp j i, o.eq_of_cmp j k, h)
    | inr (inl h) ↦ ground (
      arith,
      o.eq_of_cmp k i,
      o.eq_of_cmp j i,
      o.eq_of_cmp j k,
      o.cmp_refl k,
      h,
      none_above i w xs j d s.0,
    )
    | inr (inr h) ↦ ground (arith, get-erase_in xs k j f d s.1, o.eq_of_cmp j i, o.eq_of_cmp j k, h)
  ]

  -- In an ordered map, `find` answers the value that was inserted last on the key, and none after
  -- the key was erased; on other keys it answers as before, for a total order on keys.
  pub find-update :
      (m : Tree (K × V)) (k j : K) (v d : V)
      → IsSorted (entry_cmp cmp) (elements m)
      → ((find cmp d (insert cmp m k v) j).0
          ≡ (if is_eq (cmp j k) then some v else (find cmp d m j).0))
        × ((find cmp d (erase cmp d m k) j).0
            ≡ (if is_eq (cmp j k) then none else (find cmp d m j).0))
  unfolding find insert erase
  find-update m k j v d s =
      let w = by_key-IsWeakOrder (λ e. e.0) cmp o in
      let before : (find cmp d m j).0 ≡ get j d (elements m) =
        ap (map (λ e. e.1)) (find-answer (entry_cmp cmp) w m (j, d) s) in
      let ei = elements-insert (entry_cmp cmp) w m (k, v) s in
      let ee = elements-erase (entry_cmp cmp) w m (k, d) s in
      (
        ap (map (λ e. e.1)) (
              find-answer (entry_cmp cmp) w (insert cmp m k v) (j, d)
                (subst (IsSorted (entry_cmp cmp)) (sym ei)
                  (insert_in-IsSorted (entry_cmp cmp) w (k, v) (elements m) s)))
            ∙ ap (get j d) ei
            ∙ get-insert_in (elements m) k j v d
            ∙ ap (λ r. if is_eq (cmp j k) then some v else r) (sym before),
        ap (map (λ e. e.1)) (
              find-answer (entry_cmp cmp) w (erase cmp d m k) (j, d)
                (subst (IsSorted (entry_cmp cmp)) (sym ee)
                  (erase_in-IsSorted (entry_cmp cmp) (k, d) (elements m) s)))
            ∙ ap (get j d) ee
            ∙ get-erase_in (elements m) k j d d s
            ∙ ap (λ r. if is_eq (cmp j k) then none else r) (sym before),
      )
