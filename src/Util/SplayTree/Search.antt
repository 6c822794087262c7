-- ===== src/Util/SplayTree/Search.antt =====
-- util/splay_tree.h: where the loop of `insert_pull` ends in an ordered tree.
use lean.Base.{
  subst, sym, All-append, Bool, Bool-cases, IsWeakOrder, List, Ordering, Ordering-cases, [], ap,
  false, flip, if◌then◌else◌, inl, inr, refl, true, ◌++◌, ◌∙◌, ◌∷◌, ◌≡◌, ◌⊎◌,
}
use mathlib.Core.List.{append-nil, append_assoc}
use Prim.Native.Nat.Ordering.{lt, eq, gt}
use lean.Util.SplayTree.{Tree, Entry, leaf, node, entry, search_loop, insert_pull, splay_to_top}
use lean.Util.SplayTree.Elements.{
  elements, before, after, splay_to_top-root, elements-splay_to_top, elements-splay_last,
}
use lean.Util.SplayTree.Sorted.{AllAbove, AllBelow, IsSorted, above_lt, above_eq}

module _ {ℓ} {T : Type ℓ} (cmp : T → T → Ordering) (o : IsWeakOrder cmp) where
  -- No value of the tree is equal to `v`: the values below and above it.
  pub record Absent (is_insert : Bool) (v : T) (whole : List T) (r : Bool × Tree T) : Type ℓ where
    pub low : List T
    pub high : List T
    pub below : AllBelow cmp v low
    pub above : AllAbove cmp v high
    pub parts : whole ≡ low ++ high
    pub answer : r.0 ≡ false
    pub result : elements r.1 ≡ (if is_insert then low ++ v ∷ high else low ++ high)

  -- The value `found` is equal to `v`: its tree has come to the root.
  pub record Present (is_insert : Bool) (v : T) (whole : List T) (r : Bool × Tree T) : Type ℓ where
    pub found : T
    pub left : Tree T
    pub right : Tree T
    pub equal : cmp v found ≡ eq
    pub below : AllBelow cmp v (elements left)
    pub above : AllAbove cmp v (elements right)
    pub parts : whole ≡ elements left ++ found ∷ elements right
    pub answer : r.0 ≡ true
    pub result : r.1 ≡ node left (if is_insert then v else found) right

  IsSorted-parts :
      (xs : List T) (x : T) (ys : List T)
      → IsSorted cmp (xs ++ x ∷ ys)
      → IsSorted cmp xs × AllBelow cmp x xs × AllAbove cmp x ys × IsSorted cmp ys
  IsSorted-parts [] x ys s = (tt, tt, s.0, s.1)
  IsSorted-parts (y ∷ xs) x ys s =
      let (s1, b, a, s2) = IsSorted-parts xs x ys s.1 in
      let (a1, h, a2) = all_parts xs x ys s.0 in ((a1, s1), (o.flips y x ∙ ap flip h, b), a, s2)
    where
      all_parts :
          (xs : List T) (x : T) (ys : List T)
          → AllAbove cmp y (xs ++ x ∷ ys)
          → AllAbove cmp y xs × (cmp y x ≡ lt) × AllAbove cmp y ys
      all_parts [] x ys h = (tt, h.0, h.1)
      all_parts (z ∷ xs) x ys h = let (p, q, r) = all_parts xs x ys h.1 in ((h.0, p), q, r)

  flip-flip : (a b : T) {c : Ordering} → cmp a b ≡ c → cmp b a ≡ flip c
  flip-flip a b h = o.flips a b ∙ ap flip h

  below_gt : (v x : T) (ys : List T) → cmp v x ≡ gt → AllBelow cmp x ys → AllBelow cmp v ys
  below_gt v x [] h b = tt
  below_gt v x (y ∷ ys) h b =
      (flip-flip y v (o.lt_lt y x v (flip-flip x y b.0) (flip-flip v x h)), below_gt v x ys h b.1)

  below_eq : (v x : T) (ys : List T) → cmp v x ≡ eq → AllBelow cmp x ys → AllBelow cmp v ys
  below_eq v x [] h b = tt
  below_eq v x (y ∷ ys) h b =
      (flip-flip y v (o.lt_eq y x v (flip-flip x y b.0) (flip-flip v x h)), below_eq v x ys h b.1)

  search :
      (is_insert : Bool) (v : T) (t : Tree T) (path : List (Entry T)) (whole : List T)
      → IsSorted cmp (elements t)
      → AllBelow cmp v (before path)
      → AllAbove cmp v (after path)
      → whole ≡ before path ++ elements t ++ after path
      → Absent is_insert v whole (search_loop cmp is_insert v t path)
        ⊎ Present is_insert v whole (search_loop cmp is_insert v t path)
  unfolding search_loop elements
  search is_insert v leaf path whole s b a w = inl (record {
    low = before path;
    high = after path;
    below = b;
    above = a;
    parts = w ∙ simp append-nil;
    answer = refl;
    result = elim (Bool-cases is_insert) [
      | inl e ↦ rw e (elements-splay_to_top path leaf v leaf ∙ simp (append-nil, append_assoc))
      | inr e ↦ rw e (elements-splay_last path)
    ];
  })
  search is_insert v (node l x r) path whole s b a w =
      let (s1, bx, ax, s2) = IsSorted-parts (elements l) x (elements r) s in
      elim (Ordering-cases (cmp v x)) [
        | inl h ↦
            rw (h, search_loop)
              (search is_insert v l (entry false x r ∷ path) whole s1 b
                (
                  h,
                  All-append (λ y. cmp v y ≡ lt) (elements r) (after path)
                      (above_lt cmp o v x (elements r) h ax) a,
                )
                (w ∙ simp append_assoc))
        | inr (inl h) ↦ rw (h, search_loop) (inr (at_root h bx ax))
        | inr (inr h) ↦
            rw (h, search_loop)
              (search is_insert v r (entry true x l ∷ path) whole s2
                (All-append (λ y. cmp v y ≡ gt) (before path ++ elements l) (x ∷ [])
                  (All-append (λ y. cmp v y ≡ gt) (before path) (elements l) b
                    (below_gt v x (elements l) h bx))
                  (h, tt))
                a (w ∙ simp append_assoc))
      ]
    where
      at_root :
          cmp v x ≡ eq
          → AllBelow cmp x (elements l)
          → AllAbove cmp x (elements r)
          → Present is_insert v whole (true, splay_to_top path l (if is_insert then v else x) r)
      at_root h bx ax =
          let (l', r', e, hl, hr) = splay_to_top-root path l (if is_insert then v else x) r in
          record {
            found = x;
            left = l';
            right = r';
            equal = h;
            below = subst (AllBelow cmp v) (sym hl) (
                All-append (λ y. cmp v y ≡ gt) (before path) (elements l) b
                  (below_eq v x (elements l) h bx));
            above = subst (AllAbove cmp v) (sym hr) (
                All-append (λ y. cmp v y ≡ lt) (elements r) (after path)
                  (above_eq cmp o v x (elements r) h ax) a);
            parts = w ∙ simp (hl, hr, append_assoc);
            answer = refl;
            result = e;
          }

  pub insert_pull-split :
      (is_insert : Bool) (v : T) (t : Tree T)
      → IsSorted cmp (elements t)
      → Absent is_insert v (elements t) (insert_pull cmp is_insert v t)
        ⊎ Present is_insert v (elements t) (insert_pull cmp is_insert v t)
  unfolding insert_pull
  insert_pull-split is_insert v t s = search is_insert v t [] (elements t) s tt tt (simp append-nil)
