-- ===== src/Kernel/Context/Remove.antt =====
-- kernel/context.cpp: `context::remove`.
use lean.Base.{
  subst, ◌↔◌, >>=-eq-some, length, none, sym, ◌-◌, ◌≤◌, Bool-cases, [], add32, ap, arith, false,
  inl, inr, refl, some, sub32, suc, zero, ℕ, ◌+◌, ◌<◌, ◌∙◌, ◌∷◌, ◌≡◌,
}
use lean.Kernel.Context.{
  Context, ContextEntry, lookup, remove, remove_front, lower_entry, entry_has_free_var,
}
use lean.Kernel.FreeVars.{MenvSizes}
use mathlib.Core.Option.{some-injective, map}

lookup-remove_front : (c : Context) (n i : ℕ) → lookup (remove_front c n) i ≡ lookup c (n + i)
unfolding lookup remove_front
lookup-remove_front c zero i = ap (lookup c) (omega arith)
lookup-remove_front [] (suc n) i = refl
lookup-remove_front (e ∷ c) (suc n) i =
    lookup-remove_front c n i ∙ let s : suc n + i ≡ suc (n + i) = omega arith in rw s refl

none_ne : {d : Context} → ¬ (none ≡ some d)
none_ne h = cc

-- What a step of `remove` on an entry below `s` that does not throw has done.
removed :
    (menv : MenvSizes) (e : ContextEntry) (c : Context) (s n : ℕ) (d : Context)
    → suc s + n < 4294967296
    → remove menv (e ∷ c) (suc s) n ≡ some d
    → (entry_has_free_var menv s (s + n) e ≡ false)
      × (r : Context) × (remove menv c s n ≡ some r)
      × (d ≡ lower_entry (s + n) n e ∷ r)
unfolding remove
removed menv e c s n d w h =
    let top : sub32 (add32 (suc s) n) 1 ≡ s + n = omega arith in
    elim (Bool-cases (entry_has_free_var menv s (s + n) e)) [
      | inl t ↦ absurd (none_ne (rw (top, t) at h))
      | inr f ↦
          let (r, hr, p) = >>=-eq-some (remove menv c s n) _ (rw (top, f) at h) in
          (f, r, hr, sym (some-injective _ _ p))
    ]

module _ (menv : MenvSizes) (n : ℕ) where
  -- Where `remove(s, n)` gives a context, its entry at `s + i` is the old one at `s + n + i`, for
  -- a context of `s` entries or more and indices that are within 32 bits.
  pub lookup-remove_above :
      (c : Context) (s i : ℕ) (d : Context)
      → s + n < 4294967296
      → s ≤ length c
      → remove menv c s n ≡ some d
      → lookup d (s + i) ≡ lookup c (s + n + i)
  unfolding remove lookup
  lookup-remove_above [] zero i d w l h = rw (sym (some-injective _ _ h)) refl
  lookup-remove_above [] (suc s) i d w l h = absurd (omega arith)
  lookup-remove_above (e ∷ c) zero i d w l h =
      let z : 0 + i ≡ i = omega arith in
      let zn : 0 + n + i ≡ n + i = omega arith in
      rw (sym (some-injective _ _ h), z, zn) (lookup-remove_front (e ∷ c) n i)
  lookup-remove_above (e ∷ c) (suc s) i d w l h =
      let (f, r, hr, p) = removed menv e c s n d w h in
      let ih = lookup-remove_above c s i r (omega arith) (omega arith) hr in
      let si : suc s + i ≡ suc (s + i) = omega arith in
      let sni : suc s + n + i ≡ suc (s + n + i) = omega arith in rw (p, si, sni) ih

  -- Where `remove(s, n)` gives a context, its entry at an index `i` below `s` is the old one at
  -- `i` with its free variables lowered by `n` from `s - i - 1 + n` on, for indices that are
  -- within 32 bits.
  pub lookup-remove_below :
      (c : Context) (s i : ℕ) (d : Context)
      → s + n < 4294967296
      → i < s
      → remove menv c s n ≡ some d
      → lookup d i ≡ map (lower_entry (s - i - 1 + n) n) (lookup c i)
  unfolding remove lookup
  lookup-remove_below [] s i d w l h = rw (sym (some-injective _ _ h)) refl
  lookup-remove_below (e ∷ c) zero i d w l h = absurd (omega arith)
  lookup-remove_below (e ∷ c) (suc s) zero d w l h =
      let (f, r, hr, p) = removed menv e c s n d w h in
      let q : suc s - 0 - 1 ≡ s = omega arith in rw (p, q) refl
  lookup-remove_below (e ∷ c) (suc s) (suc i) d w l h =
      let (f, r, hr, p) = removed menv e c s n d w h in
      let ih = lookup-remove_below c s i r (omega arith) (omega arith) hr in
      let q : suc s - suc i - 1 ≡ s - i - 1 = omega arith in rw (p, q) ih

-- No entry before the removed ones uses a removed variable.
abbrev pub AreUnused : MenvSizes → Context → ℕ → ℕ → Type 0
AreUnused menv [] s n = Unit
AreUnused menv (e ∷ c) zero n = Unit
AreUnused menv (e ∷ c) (suc s) n =
    (entry_has_free_var menv s (s + n) e ≡ false) × AreUnused menv c s n

remove_kept :
    (menv : MenvSizes) (e : ContextEntry) (c : Context) (s n : ℕ) (d : Context)
    → entry_has_free_var menv s (sub32 (add32 (suc s) n) 1) e ≡ false
    → remove menv c s n ≡ some d
    → remove menv (e ∷ c) (suc s) n ≡ some (lower_entry (sub32 (add32 (suc s) n) 1) n e ∷ d)
unfolding remove
remove_kept menv e c s n d f h = rw (f, h) refl

remove_result :
    (menv : MenvSizes) (c : Context) (s n : ℕ)
    → s + n < 4294967296
    → AreUnused menv c s n
    → (d : Context) × (remove menv c s n ≡ some d)
unfolding remove
remove_result menv [] s n w u = ([], refl)
remove_result menv (e ∷ c) zero n w u = (remove_front (e ∷ c) n, refl)
remove_result menv (e ∷ c) (suc s) n w u =
    let top : s + n ≡ sub32 (add32 (suc s) n) 1 = omega arith in
    let (d, p) = remove_result menv c s n (omega arith) u.1 in
    (
      lower_entry (sub32 (add32 (suc s) n) 1) n e ∷ d,
      remove_kept menv e c s n d (subst (λ k. entry_has_free_var menv s k e ≡ false) top u.0) p,
    )

remove_unused :
    (menv : MenvSizes) (c : Context) (s n : ℕ) (d : Context)
    → s + n < 4294967296
    → remove menv c s n ≡ some d
    → AreUnused menv c s n
remove_unused menv [] s n d w h = tt
remove_unused menv (e ∷ c) zero n d w h = tt
remove_unused menv (e ∷ c) (suc s) n d w h =
    let (f, r, hr, p) = removed menv e c s n d w h in
    (f, remove_unused menv c s n r (omega arith) hr)

-- `remove(s, n)` gives a context exactly where no entry before the removed ones uses a variable of
-- theirs, as `has_free_var` tells, for indices that are within 32 bits.
pub remove_defined_iff :
    (menv : MenvSizes) (c : Context) (s n : ℕ)
    → s + n < 4294967296
    → AreUnused menv c s n ↔ ((d : Context) × (remove menv c s n ≡ some d))
remove_defined_iff menv c s n w =
    (λ u. remove_result menv c s n w u, λ (d, h). remove_unused menv c s n d w h)
