-- ===== src/Kernel/Conversion/Separate.antt =====
-- kernel/type_checker.cpp: conversion keeps universes apart. A universe converts only to those that
-- are at least as great, so no two of them are taken for one another.
use lean.Base.{refl, some, subst, sym, ◌≡◌, ◌∙◌}
use lean.Kernel.Conversion.{RoEnvironment, bool_type}
use lean.Kernel.Conversion.Relation.{
  Fits, Converts, same, universe, bool_below, range, fits, reduces, expands, through,
}
use lean.Kernel.Context.{Context}
use lean.Kernel.Expr.{Expr, type}
use lean.Kernel.ExprEq.Erasure.{erase}
use lean.Kernel.Level.{Level}
use lean.Kernel.UniverseConstraints.{Constraints}
use lean.Kernel.Universes.Bounds.{Below, Bounded}

-- The expression is a universe that is at least `l1`.
abbrev IsAbove : Constraints → Level → Expr → Type 0
IsAbove c l1 b = (l2 : Level) × (erase b ≡ type l2) × Below c l1 l2

module _ (c : Constraints) (l : Level) where
  Fits-IsAbove : {a b : Expr} → Fits c a b → IsAbove c l a → IsAbove c l b
  Fits-IsAbove (same e) (k, t, h) = (k, sym e ∙ t, h)
  Fits-IsAbove (universe {l1} {l2} g) (k, t, h) =
      let k1 : l1 ≡ k = cc t in
      (l2, refl, λ v x model b. h v x model (subst (λ z. Bounded v z x) k1 (g v x model b)))
  Fits-IsAbove (bool_below e) (l1, t, h) = let clash : bool_type ≡ type l1 = sym e ∙ t in absurd cc
  Fits-IsAbove (range e g) (k, t, h) = absurd cc

module _ (env : RoEnvironment) (ctx : Context) (l : Level)
    (keeps : (a b : Expr) → env.normalize a ctx ≡ some b → erase a ≡ erase b) where
  Converts-IsAbove :
      {a b : Expr}
      → Converts env ctx a b
      → IsAbove env.constraints l a
      → IsAbove env.constraints l b
  Converts-IsAbove (fits f) h = Fits-IsAbove env.constraints l f h
  Converts-IsAbove (reduces e) (l1, t, h) = (l1, sym (keeps _ _ e) ∙ t, h)
  Converts-IsAbove (expands e) (l1, t, h) = (l1, keeps _ _ e ∙ t, h)
  Converts-IsAbove (through f g) h = Converts-IsAbove g (Converts-IsAbove f h)

-- Where the normal form of an expression differs from it at most in the names of binders and the
-- types of constants, a universe converts to another only if that is at least as great.
pub Converts-Below :
    (env : RoEnvironment) (ctx : Context) (l1 l2 : Level)
    → ((a b : Expr) → env.normalize a ctx ≡ some b → erase a ≡ erase b)
    → Converts env ctx (type l1) (type l2)
    → Below env.constraints l1 l2
Converts-Below env ctx l1 l2 keeps h =
    let (k, e, g) = Converts-IsAbove env ctx l1 keeps h (l1, refl, λ v x model b. b) in
    let same : l2 ≡ k = cc e in subst (Below env.constraints l1) (sym same) g
