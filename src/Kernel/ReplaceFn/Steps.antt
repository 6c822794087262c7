-- ===== src/Kernel/ReplaceFn/Steps.antt =====
-- kernel/replace_fn.h: what the passes of the loop do with one frame.
use lean.Base.{
  >>=-eq-some, ap, arith, inl, inr, none, refl, sym, ◌∙◌, ◌≤◌, All, Bool, List, Option, [], drop,
  false, some, suc, true, zero, ℕ, ◌*◌, ◌+◌, ◌<◌, ◌>>=◌, ◌∷◌, ◌≡◌, ◌⊎◌,
}
use lean.Kernel.Expr.{Expr}
use lean.Kernel.Replace.{replace}
use lean.Kernel.ReplaceFn.{
  Frame, frame, Saved, saved, Stacks, stacks, Part, part, no_part, parts_of, part_offset, visit,
  visit_parts, finish, after, step,
}
use lean.Kernel.ReplaceFn.Size.{size, weight}

drop-suc {ℓ} :
    {A : Type ℓ} (n : ℕ) (xs : List A) (x : A) (ys : List A)
    → drop n xs ≡ x ∷ ys
    → drop (suc n) xs ≡ ys
drop-suc zero [] x ys h = cc
drop-suc zero (y ∷ xs) x ys h = cc
drop-suc (suc n) [] x ys h = cc
drop-suc (suc n) (y ∷ xs) x ys h = drop-suc n xs x ys h

module _ (same_cell : Expr → Expr → Bool) (is_shared : Expr → Bool)
    (f : Expr → ℕ → Option Expr) where
  -- n passes.
  unfoldable pub iterate : ℕ → Stacks → Option Stacks
  unfolding step
  iterate zero st = some st
  iterate (suc n) st = step same_cell is_shared f st >>= iterate n

  pub iterate_add :
      (m k : ℕ) (a b : Stacks) → iterate m a ≡ some b → iterate (m + k) a ≡ iterate k b
  unfolding iterate
  iterate_add zero k a b h =
      let same : a ≡ b = cc in let none_more : 0 + k ≡ k = omega arith in rw (none_more, same)
  iterate_add (suc m) k a b h =
      let (c, p, q) = >>=-eq-some (step same_cell is_shared f a) (iterate m) h in
      let next : suc m + k ≡ suc (m + k) = omega arith in rw (next, p) (iterate_add m k c b q)

  iterate_zero : (o : Option Stacks) → (o >>= iterate 0) ≡ o
  unfolding iterate
  iterate_zero none = refl
  iterate_zero (some st) = refl

  -- The cache holds results of `replace`.
  abbrev pub IsResult : Saved → Type 0
  IsResult (saved e o r) = r ≡ replace f e o

  abbrev pub IsSound : List Saved → Type 0
  IsSound cache = All IsResult cache

  -- The results of the visits, on the stack.
  abbrev pub results : List Part → ℕ → List Expr → List Expr
  results [] o rs = rs
  results (no_part ∷ ps) o rs = results ps o rs
  results (part b c ∷ ps) o rs = results ps o (replace f c (part_offset b o) ∷ rs)

  -- The stacks with the result of a visit.
  abbrev pub Leaves : Expr → ℕ → List Frame → List Expr → Stacks → Type 0
  Leaves e o fs rs st =
      (cache : List Saved) × IsSound cache × (st ≡ stacks fs (replace f e o ∷ rs) cache)

  -- The result is left, or a frame was pushed from which fewer than twice as many passes as the
  -- expression has cells leave it.
  abbrev pub Ends : Expr → ℕ → List Frame → List Expr → Stacks × Bool → Type 0
  Ends e o fs rs next =
      ((next.1 ≡ true) × Leaves e o fs rs next.0)
      ⊎ ((next.1 ≡ false)
          × ((n : ℕ) × (st : Stacks) × (n < 2 * size e)
              × (iterate n next.0 ≡ some st)
              × Leaves e o fs rs st))

  abbrev pub Visits : Expr → Type 0
  Visits e =
      (o : ℕ) (fs : List Frame) (rs : List Expr) (cache : List Saved)
      → IsSound cache
      → Ends e o fs rs (visit same_cell is_shared f e o (stacks fs rs cache))

  abbrev pub PartVisits : Part → Type 0
  PartVisits (part b c) = Visits c
  PartVisits no_part = Unit

  module _ (e : Expr) (o : ℕ) (s : Bool) (fs : List Frame) where
    -- The stacks with a frame of `e` on top.
    abbrev pub at : ℕ → List Expr → List Saved → Stacks
    at i rs cache = stacks (frame e o s i ∷ fs) rs cache

    step-at :
        (i : ℕ) (rs : List Expr) (cache : List Saved) (ps : List Part)
        → drop i (parts_of e) ≡ ps
        → step same_cell is_shared f (at i rs cache)
          ≡ after same_cell is_shared f (visit_parts same_cell is_shared f ps o (at i rs cache))
    unfolding step
    step-at i rs cache ps d =
        ap
          (λ xs.
            after same_cell is_shared f (visit_parts same_cell is_shared f xs o (at i rs cache)))
          d

    module _ (b : Bool) (c : Expr) (ps : List Part) (i : ℕ) (rs : List Expr)
        (cache : List Saved) where
      abbrev next : Stacks × Bool
      next = visit same_cell is_shared f c (part_offset b o) (at (suc i) rs cache)

      step_visited :
          (st : Stacks)
          → drop i (parts_of e) ≡ part b c ∷ ps
          → next.1 ≡ true
          → next.0 ≡ st
          → step same_cell is_shared f (at i rs cache)
            ≡ after same_cell is_shared f (visit_parts same_cell is_shared f ps o st)
      unfolding visit_parts after
      step_visited st d p q = step-at i rs cache (part b c ∷ ps) d ∙ rw (p, q)

      step_pushed :
          drop i (parts_of e) ≡ part b c ∷ ps
          → next.1 ≡ false
          → step same_cell is_shared f (at i rs cache) ≡ some next.0
      unfolding visit_parts after
      step_pushed d p = step-at i rs cache (part b c ∷ ps) d ∙ rw p

    -- Passes that make the visits `ps` and end the frame.
    abbrev pub Passes : ℕ → List Part → List Expr → List Saved → Type 0
    Passes i ps rs cache =
        (n : ℕ) × (j : ℕ) × (cache' : List Saved) × (n ≤ weight ps)
        × IsSound cache'
        × (iterate (suc n) (at i rs cache)
            ≡ finish same_cell is_shared f (at j (results ps o rs) cache'))

    pub passes :
        (ps : List Part) (i : ℕ) (rs : List Expr) (cache : List Saved)
        → drop i (parts_of e) ≡ ps
        → IsSound cache
        → All PartVisits ps
        → Passes i ps rs cache
    unfolding iterate visit_parts
    passes [] i rs cache d so v = (
      0,
      i,
      cache,
      omega arith,
      so,
      ap (λ x. x >>= iterate 0) (step-at i rs cache [] d) ∙ iterate_zero _,
    )
    passes (no_part ∷ ps) i rs cache d so v =
        let d' = drop-suc i (parts_of e) no_part ps d in
        let (n, j, cache', le, so', q) = passes ps (suc i) rs cache d' so v.1 in
        let same = step-at i rs cache (no_part ∷ ps) d ∙ sym (step-at (suc i) rs cache ps d') in
        (n, j, cache', le, so', ap (λ x. x >>= iterate n) same ∙ q)
    passes (part b c ∷ ps) i rs cache d so v =
        let d' = drop-suc i (parts_of e) (part b c) ps d in
        let r = replace f c (part_offset b o) in
        elim (v.0 (part_offset b o) (frame e o s (suc i) ∷ fs) rs cache so) [
          | inl (p, (cache', so', q)) ↦
              let (m, j, last, le, sound, w) = passes ps (suc i) (r ∷ rs) cache' d' so' v.1 in
              let same =
                step_visited b c ps i rs cache (at (suc i) (r ∷ rs) cache') d p q
                ∙ sym (step-at (suc i) (r ∷ rs) cache' ps d') in
              (m, j, last, omega (arith, le), sound, ap (λ x. x >>= iterate m) same ∙ w)
          | inr (p, (n, st, lt, it, (cache', so', q))) ↦
              let (m, j, last, le, sound, w) = passes ps (suc i) (r ∷ rs) cache' d' so' v.1 in
              (
                n + suc m,
                j,
                last,
                omega (arith, le, lt),
                sound,
                ap (λ x. x >>= iterate (n + suc m)) (step_pushed b c ps i rs cache d p)
                    ∙ iterate_add n (suc m) _ st it
                    ∙ ap (iterate (suc m)) q
                    ∙ w,
              )
        ]
