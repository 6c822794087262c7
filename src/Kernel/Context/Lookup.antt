-- ===== src/Kernel/Context/Lookup.antt =====
-- kernel/context.cpp: `context::lookup_ext` and `context::truncate`.
use lean.Base.{
  >>=-eq-some, [], ap, ap₂, arith, length, refl, some, suc, sym, zero, ℕ, ◌++◌, ◌↔◌, ◌∷◌, ◌≡◌,
}
use lean.Kernel.Context.{Context, ContextEntry, lookup_ext, truncate}
use mathlib.Core.Option.{some-injective}

found :
    (c : Context) (i : ℕ) (e : ContextEntry) (d : Context)
    → lookup_ext c i ≡ some (e, d)
    → (front : Context) × (length front ≡ i) × (c ≡ front ++ e ∷ d)
unfolding lookup_ext
found [] i e d h = absurd (ground (arith, h))
found (x ∷ c) zero e d h =
    let p = some-injective _ _ h in ([], refl, ap₂ ◌∷◌ (ap (λ p. p.0) p) (ap (λ p. p.1) p))
found (x ∷ c) (suc i) e d h =
    let (front, l, s) = found c i e d h in (x ∷ front, ap suc l, ap (◌∷◌ x) s)

placed :
    (front : Context) (e : ContextEntry) (d : Context)
    → lookup_ext (front ++ e ∷ d) (length front) ≡ some (e, d)
unfolding lookup_ext
placed [] e d = refl
placed (x ∷ front) e d = placed front e d

-- `lookup_ext(i)` gives an entry and a context exactly where the context has `i` entries, then that
-- entry, then that context.
pub lookup_ext_iff :
    (c : Context) (i : ℕ) (e : ContextEntry) (d : Context)
    → (lookup_ext c i ≡ some (e, d))
      ↔ ((front : Context) × (length front ≡ i) × (c ≡ front ++ e ∷ d))
lookup_ext_iff c i e d = (found c i e d, λ (front, l, s). rw (s, (sym l)) (placed front e d))

kept :
    (c : Context) (s : ℕ) (d : Context)
    → truncate c s ≡ some d
    → (length d ≡ s) × (rest : Context) × (c ≡ d ++ rest)
unfolding truncate
kept c zero d h = rw (sym (some-injective _ _ h)) (refl, c, refl)
kept [] (suc s) d h = absurd (ground (arith, h))
kept (x ∷ c) (suc s) d h =
    let (r, hr, e) = >>=-eq-some (truncate c s) _ h in
    let k = kept c s r hr in rw (sym (some-injective _ _ e)) (ap suc k.0, k.1, ap (◌∷◌ x) k.2)

cut : (d rest : Context) → truncate (d ++ rest) (length d) ≡ some d
unfolding truncate
cut [] rest = refl
cut (x ∷ d) rest = rw (cut d rest) refl

-- `truncate(s)` gives a context exactly where it is the first `s` entries of the old one.
pub truncate_iff :
    (c : Context) (s : ℕ) (d : Context)
    → (truncate c s ≡ some d) ↔ ((length d ≡ s) × (rest : Context) × (c ≡ d ++ rest))
truncate_iff c s d = (kept c s d, λ (l, rest, e). rw (e, (sym l)) (cut d rest))
