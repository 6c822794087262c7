-- ===== src/Kernel/Meaning/Constants.antt =====
-- kernel/abstract.cpp: the search of `abstract` among constants.
use mathlib.Core.List.{map-append}
use lean.Base.{
  Bool, Bool-cases, List, Option, [], ap, arith, false, inl, inr, none, refl, reverse, map,
  length-append, some, suc, sym, true, length, ℕ, ◌+◌, ◌<◌, ◌∙◌, ◌∷◌, ◌≡◌,
}
use lean.Kernel.Expr.{
  Expr, OptExpr, var, constant, value, app, pair, proj, abstraction, type, let_in, heq, metavar,
  absent,
}
use lean.Kernel.Abstract.{search}
use lean.Kernel.ExprEq.{expr_eq}
use lean.Kernel.ExprEq.Complete.{expr_eq_iff}
use lean.Kernel.ExprEq.Erasure.{erase}
use lean.Kernel.Replace.{or_parts}
use lean.Kernel.Term.{tvar}
use lean.Kernel.Term.Abstract.{place, next_place, name_term}
use lean.Kernel.Meaning.{Assignment, meaning}
use mathlib.Core.List.{reverse-cons, map-append}
use lean.Util.Name.{Name, name_eq}
use lean.Util.Name.Equality.{name_eq_iff}
use mathlib.Core.List.{reverse-cons}

abbrev pub is_constant : Expr → Bool
is_constant (constant n t) = true
is_constant _ = false

is_constant-erase : (e : Expr) → is_constant (erase e) ≡ is_constant e
is_constant-erase (var i) = refl
is_constant-erase (constant n t) = refl
is_constant-erase (value v) = refl
is_constant-erase (app f xs) = refl
is_constant-erase (pair a b t) = refl
is_constant-erase (proj i e) = refl
is_constant-erase (abstraction k n t b) = refl
is_constant-erase (type l) = refl
is_constant-erase (let_in n t v b) = refl
is_constant-erase (heq a b) = refl
is_constant-erase (metavar n c) = refl

abbrev pub constant_of : Name → Expr
constant_of n = constant n absent

name_term-suc :
    (x : Option ℕ) (k : ℕ) (m : Name) → name_term x (suc k) m ≡ name_term (next_place x) k m
name_term-suc none k m = refl
name_term-suc (some i) k m = ap tvar (omega arith)

pub map-reverse : (ns : List Name) → reverse (map constant_of ns) ≡ map constant_of (reverse ns)
map-reverse [] = refl
map-reverse (n ∷ ns) = simp (reverse-cons, map-append, map-reverse ns)

module _ (vh : ℕ → ℕ) where
  no_constant : (n : Name) (e : Expr) → is_constant e ≡ false → expr_eq vh (constant_of n) e ≡ false
  no_constant n e h = elim (Bool-cases (expr_eq vh (constant_of n) e)) [
    | inl f ↦ absurd (
        ground
          (arith, h, is_constant-erase e, ap is_constant ((expr_eq_iff vh (constant_of n) e).0 f)))
    | inr f ↦ f
  ]

  same_name : (n m : Name) (t : OptExpr) → expr_eq vh (constant_of n) (constant m t) ≡ name_eq n m
  same_name n m t = elim (Bool-cases (name_eq n m)) [
    | inl e ↦
        let named : n ≡ m = (name_eq_iff n m).0 e in
        (expr_eq_iff vh (constant_of n) (constant m t)).1 (ap constant_of named) ∙ sym e
    | inr e ↦ elim (Bool-cases (expr_eq vh (constant_of n) (constant m t))) [
      | inl f ↦
          let named : n ≡ m = cc ((expr_eq_iff vh (constant_of n) (constant m t)).0 f) in
          absurd (ground (arith, e, (name_eq_iff n m).1 named))
      | inr f ↦ f ∙ sym e
    ]
  ]

  -- What the search answers: nothing but at a constant.
  pub search_no_constant :
      (ns : List Name) (j : ℕ) (e : Expr) (o : ℕ)
      → is_constant e ≡ false
      → search vh (map constant_of ns) j e o ≡ none
  unfolding search
  search_no_constant [] j e o h = refl
  search_no_constant (n ∷ ns) j e o h = rw (no_constant n e h) (search_no_constant ns (suc j) e o h)

  pub search_constant :
      (σ : Assignment) (ns : List Name) (j : ℕ) (m : Name) (t : OptExpr) (o : ℕ)
      → o + j + length ns < 4294967296
      → meaning σ (or_parts (search vh (map constant_of ns) j (constant m t) o) (constant m t))
        ≡ name_term (place ns m) (o + j) m
  unfolding search meaning
  search_constant σ [] j m t o h = refl
  search_constant σ (n ∷ ns) j m t o h = elim (Bool-cases (name_eq n m)) [
    | inl e ↦ rw (same_name n m t, e) (ap tvar (omega arith))
    | inr e ↦
        let next : o + suc j ≡ suc (o + j) = omega arith in
        rw (same_name n m t, e)
          (search_constant σ ns (suc j) m t o (omega arith)
            ∙ (ap (λ k. name_term (place ns m) k m) next ∙ name_term-suc (place ns m) (o + j) m))
  ]

pub length-reverse : (ns : List Name) → length (reverse ns) ≡ length ns
length-reverse [] = refl
length-reverse (n ∷ ns) =
    ap length (reverse-cons n ns)
    ∙ omega (arith, length-append (reverse ns) (n ∷ []), length-reverse ns)
