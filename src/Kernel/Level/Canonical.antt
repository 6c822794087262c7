-- ===== src/Kernel/Level/Canonical.antt =====
-- kernel/level.cpp: a normal form of levels for `max` and `operator+`.
use lean.Base.{
  ◌∙◌, >>=-eq-some, refl, some, subst, ℕ, Bool-cases, arith, false, inl, inr, ltb, sym, ◌≢◌, ◌≡◌,
}
use lean.Kernel.Level.{
  Level, Levels, uvar, lift, maximum, nil, cons, is_bottom, lift_of, lift_offset, level_eq,
  push_entry, push_back, push_all, finish, level_max, parts, plus, plus_all,
}
use lean.Kernel.Level.Plus.{IsNonempty}
use mathlib.Core.Option.{some-injective}
use lean.Kernel.Level.Equality.{level_eq_iff}
use lean.Kernel.Level.{safe_add}

-- A variable, or a variable with an offset.
abbrev pub IsAtom : Level → Type 0
IsAtom (uvar n) = Unit
IsAtom (lift (uvar n) k) = Unit
IsAtom _ = ⊥

-- No level of the list is over the variable `b`.
abbrev pub IsFresh : Level → Levels → Type 0
IsFresh b nil = Unit
IsFresh b (cons l ls) = (lift_of l ≢ b) × IsFresh b ls

-- The members of a `max` are atoms, none of them is bottom, and their variables differ.
abbrev pub IsBuffer : Levels → Type 0
IsBuffer nil = Unit
IsBuffer (cons l ls) = IsAtom l × (is_bottom l ≡ false) × IsFresh (lift_of l) ls × IsBuffer ls

abbrev pub HasTwo : Levels → Type 0
HasTwo nil = ⊥
HasTwo (cons l ls) = IsNonempty ls

abbrev pub IsCanonical : Level → Type 0
IsCanonical (maximum ls) = HasTwo ls × IsBuffer ls
IsCanonical l = IsAtom l

push_entry-IsFresh :
    (b : Level) (ls : Levels) (l : Level)
    → IsFresh b ls
    → lift_of l ≢ b
    → IsFresh b (push_entry ls l)
unfolding push_entry
push_entry-IsFresh b nil l f h = (h, tt)
push_entry-IsFresh b (cons x xs) l f h = ground (arith, push_entry-IsFresh b xs l)

push_entry-IsBuffer :
    (ls : Levels) (l : Level)
    → IsBuffer ls
    → IsAtom l
    → is_bottom l ≡ false
    → IsBuffer (push_entry ls l)
unfolding push_entry
push_entry-IsBuffer nil l b a h = (a, h, tt, tt)
push_entry-IsBuffer (cons x xs) l b a h = elim (Bool-cases (level_eq (lift_of x) (lift_of l))) [
  | inl e ↦
      let same = (level_eq_iff (lift_of x) (lift_of l)).0 e in
      let fresh : IsFresh (lift_of l) xs = rw (← same) b.2 in
      rw e (elim (Bool-cases (ltb (lift_offset x) (lift_offset l))) [
        | inl t ↦ rw t (a, h, fresh, b.3)
        | inr t ↦ rw t b
      ])
  | inr e ↦ rw e (
    b.0,
    b.1,
    push_entry-IsFresh (lift_of x) xs l b.2
        (λ p. cc ((level_eq_iff (lift_of x) (lift_of l)).1 (sym p))),
    push_entry-IsBuffer xs l b.3 a h,
  )
]

-- What may be pushed: any atom, bottom too.
abbrev AllAtoms : Levels → Type 0
AllAtoms nil = Unit
AllAtoms (cons l ls) = IsAtom l × AllAtoms ls

push_back-IsBuffer : (ls : Levels) (l : Level) → IsBuffer ls → IsAtom l → IsBuffer (push_back ls l)
unfolding push_back
push_back-IsBuffer ls l b a = elim (Bool-cases (is_bottom l)) [
  | inl e ↦ rw e b
  | inr e ↦ rw e (push_entry-IsBuffer ls l b a e)
]

push_all-IsBuffer : (acc ls : Levels) → IsBuffer acc → AllAtoms ls → IsBuffer (push_all acc ls)
unfolding push_all
push_all-IsBuffer acc nil b a = b
push_all-IsBuffer acc (cons l ls) b a =
    push_all-IsBuffer (push_back acc l) ls (push_back-IsBuffer acc l b a.0) a.1

finish-IsCanonical : (ls : Levels) → IsBuffer ls → IsCanonical (finish ls)
unfolding finish
finish-IsCanonical nil b = tt
finish-IsCanonical (cons (uvar n) nil) b = tt
finish-IsCanonical (cons (lift (uvar n) k) nil) b = tt
finish-IsCanonical (cons (lift (lift l j) k) nil) b = absurd b.0
finish-IsCanonical (cons (lift (maximum ls) k) nil) b = absurd b.0
finish-IsCanonical (cons (maximum ls) nil) b = absurd b.0
finish-IsCanonical (cons l (cons m ls)) b = (tt, b)

buffer_atoms : (ls : Levels) → IsBuffer ls → AllAtoms ls
buffer_atoms nil b = tt
buffer_atoms (cons l ls) b = (b.0, buffer_atoms ls b.3)

parts_atoms : (l : Level) → IsCanonical l → AllAtoms (parts l)
parts_atoms (uvar n) c = (tt, tt)
parts_atoms (lift l k) c = (c, tt)
parts_atoms (maximum ls) c = buffer_atoms ls c.1

-- `max` of two canonical levels is canonical: a variable, a variable with an offset, or a maximum
-- of two or more of these, none over the bottom variable alone and no two over one variable.
pub level_max-IsCanonical :
    (l1 l2 : Level) → IsCanonical l1 → IsCanonical l2 → IsCanonical (level_max l1 l2)
unfolding level_max
level_max-IsCanonical l1 l2 c d = finish-IsCanonical _ (
    push_all-IsBuffer _ (parts l2) (push_all-IsBuffer nil (parts l1) tt (parts_atoms l1 c))
      (parts_atoms l2 d))

plus-IsAtom :
    (l : Level) (k : ℕ) (m : Level)
    → IsAtom l
    → plus l k ≡ some m
    → IsAtom m × (is_bottom m ≡ false) × (lift_of m ≡ lift_of l)
unfolding plus is_bottom
plus-IsAtom (uvar n) k m a h =
    subst (λ m. IsAtom m × (is_bottom m ≡ false) × (lift_of m ≡ uvar n)) (some-injective _ _ h)
      (tt, refl, refl)
plus-IsAtom (lift (uvar n) j) k m a h =
    let (r, e, e') = >>=-eq-some (safe_add j k) _ h in
    subst (λ m. IsAtom m × (is_bottom m ≡ false) × (lift_of m ≡ uvar n)) (some-injective _ _ e')
      (tt, refl, refl)
plus-IsAtom (lift (lift l i) j) k m a h = absurd a
plus-IsAtom (lift (maximum ls) j) k m a h = absurd a
plus-IsAtom (maximum ls) k m a h = absurd a

-- What raising the members of an array keeps.
abbrev Raised : Levels → Levels → Type 0
Raised ls xs =
    IsBuffer xs × ((b : Level) → IsFresh b ls → IsFresh b xs) × (IsNonempty ls → IsNonempty xs)

plus_all-IsBuffer :
    (ls : Levels) (k : ℕ) (xs : Levels) → IsBuffer ls → plus_all ls k ≡ some xs → Raised ls xs
unfolding plus
plus_all-IsBuffer nil k xs b h = subst (Raised nil) (some-injective _ _ h) (tt, λ b f. tt, λ n. n)
plus_all-IsBuffer (cons l ls) k xs b h =
    let (x, e, h') = >>=-eq-some (plus l k) _ h in
    let (ys, es, e') = >>=-eq-some (plus_all ls k) _ h' in
    let (atom, notbot, same) = plus-IsAtom l k x b.0 e in
    let (buf, fresh, two) = plus_all-IsBuffer ls k ys b.3 es in
    subst (Raised (cons l ls)) (some-injective _ _ e') (
      (atom, notbot, rw same (fresh (lift_of l) b.2), buf),
      λ c f. (λ q. f.0 (sym same ∙ q), fresh c f.1),
      λ n. tt,
    )

atom_IsCanonical : (l : Level) → IsAtom l → IsCanonical l
atom_IsCanonical (uvar n) a = a
atom_IsCanonical (lift l k) a = a
atom_IsCanonical (maximum ls) a = absurd a

two_IsCanonical :
    (ls : Levels) (k : ℕ) (xs : Levels)
    → HasTwo ls × IsBuffer ls
    → plus_all ls k ≡ some xs
    → IsCanonical (maximum xs)
unfolding plus
two_IsCanonical nil k xs c h = absurd c.0
two_IsCanonical (cons l ls) k xs c h =
    let (x, e, h') = >>=-eq-some (plus l k) _ h in
    let (ys, es, e') = >>=-eq-some (plus_all ls k) _ h' in
    let all = plus_all-IsBuffer (cons l ls) k xs c.1 h in
    let rest = plus_all-IsBuffer ls k ys c.1.3 es in
    (subst HasTwo (some-injective _ _ e') (rest.2 c.0), all.0)

-- `l + k` of a canonical level is canonical, where it does not throw.
pub plus-IsCanonical :
    (l : Level) (k : ℕ) (m : Level) → IsCanonical l → plus l k ≡ some m → IsCanonical m
unfolding plus
plus-IsCanonical (uvar n) k m c h = atom_IsCanonical m (plus-IsAtom (uvar n) k m c h).0
plus-IsCanonical (lift l j) k m c h = atom_IsCanonical m (plus-IsAtom (lift l j) k m c h).0
plus-IsCanonical (maximum nil) k m c h = absurd c.0
plus-IsCanonical (maximum (cons l ls)) k m c h =
    let (xs, e, e') = >>=-eq-some (plus_all (cons l ls) k) _ h in
    subst IsCanonical (some-injective _ _ e') (two_IsCanonical (cons l ls) k xs c e)
