-- ===== src/Kernel/Meaning/Abstract.antt =====
-- kernel/abstract.cpp: `abstract` over constants, on terms.
use lean.Base.{
  List, Option, add32, ap, arith, false, none, refl, reverse, map, suc, sym, length, ℕ, ◌+◌, ◌<◌,
  ◌∙◌, ◌≡◌,
}
use lean.Kernel.Expr.{
  Expr, Exprs, OptExpr, var, constant, value, app, pair, proj, abstraction, type, let_in, heq,
  metavar, nil, cons, absent, present,
}
use lean.Kernel.Abstract.{search, abstract}
use lean.Kernel.Replace.{or_parts, replace, replace_args}
use lean.Kernel.Term.{Term, tapp}
use lean.Kernel.Term.Abstract.{place, name_term, abstract_term, Avoids, abstract_term-Avoids}
use lean.Kernel.Meaning.{Assignment, meaning, spine, meaning-mk_app}
use lean.Kernel.Meaning.Constants.{
  is_constant, constant_of, search_no_constant, search_constant, map-reverse, length-reverse,
}
use lean.Kernel.Meaning.Room.{Room, RoomArgs}
use lean.Util.Name.{Name}

-- A metavariable of the expression stands for a term without the names; metavariables stay.
abbrev mutual
  pub MetavarsAvoid : List Name → Assignment → Expr → Type 0
  MetavarsAvoid ns σ (app f xs) = MetavarsAvoid ns σ f × ArgsAvoid ns σ xs
  MetavarsAvoid ns σ (pair a b t) =
      MetavarsAvoid ns σ a × MetavarsAvoid ns σ b × MetavarsAvoid ns σ t
  MetavarsAvoid ns σ (proj i e) = MetavarsAvoid ns σ e
  MetavarsAvoid ns σ (abstraction k n t b) = MetavarsAvoid ns σ t × MetavarsAvoid ns σ b
  MetavarsAvoid ns σ (let_in n t v b) =
      TypeAvoids ns σ t × MetavarsAvoid ns σ v × MetavarsAvoid ns σ b
  MetavarsAvoid ns σ (heq a b) = MetavarsAvoid ns σ a × MetavarsAvoid ns σ b
  MetavarsAvoid ns σ (metavar n c) = Avoids ns (meaning σ (metavar n c))
  MetavarsAvoid ns σ _ = Unit

  pub ArgsAvoid : List Name → Assignment → Exprs → Type 0
  ArgsAvoid ns σ nil = Unit
  ArgsAvoid ns σ (cons x xs) = MetavarsAvoid ns σ x × ArgsAvoid ns σ xs

  pub TypeAvoids : List Name → Assignment → OptExpr → Type 0
  TypeAvoids ns σ absent = Unit
  TypeAvoids ns σ (present t) = MetavarsAvoid ns σ t

module _ (vh : ℕ → ℕ) (σ : Assignment) (ns : List Name) where
  abbrev step : Expr → ℕ → Option Expr
  step e o = search vh (map constant_of ns) 0 e o

  -- Where the search answers nothing, the parts are what counts.
  parts_only :
      (e parts : Expr) (o : ℕ) (t : Term)
      → is_constant e ≡ false
      → meaning σ parts ≡ t
      → meaning σ (or_parts (step e o) parts) ≡ t
  parts_only e parts o t h g = rw (search_no_constant vh ns 0 e o h) g

  mutual
    unfolding replace meaning abstract_term

    meaning-replace :
        (e : Expr) (o w : ℕ)
        → o + length ns ≡ w
        → Room none e w
        → w < 4294967296
        → MetavarsAvoid ns σ e
        → meaning σ (replace step e o) ≡ abstract_term ns o (meaning σ e)
    meaning-replace (var i) o w p r z h = parts_only (var i) (var i) o _ refl refl
    meaning-replace (constant m t) o w p r z h =
        search_constant vh σ ns 0 m t o (omega arith)
        ∙ ap (λ k. name_term (place ns m) k m) (omega arith)
    meaning-replace (value v) o w p r z h = parts_only (value v) (value v) o _ refl refl
    meaning-replace (type l) o w p r z h = parts_only (type l) (type l) o _ refl refl
    meaning-replace (metavar n c) o w p r z h =
        parts_only (metavar n c) (metavar n c) o _ refl
          (sym (abstract_term-Avoids ns o (meaning σ (metavar n c)) h))
    meaning-replace (app f xs) o w p r z h = parts_only (app f xs) _ o _ refl (
        meaning-mk_app σ (replace step f o) (replace_args step xs o)
        ∙ meaning-replace_args xs o w _ _ p r.1 z h.1 (meaning-replace f o w p r.0 z h.0))
    meaning-replace (pair a b t) o w p r z h =
        parts_only (pair a b t) (pair (replace step a o) (replace step b o) (replace step t o)) o _
          refl
          (cc (
            meaning-replace a o w p r.0 z h.0,
            meaning-replace b o w p r.1 z h.1,
            meaning-replace t o w p r.2 z h.2,
          ))
    meaning-replace (proj i e) o w p r z h =
        parts_only (proj i e) (proj i (replace step e o)) o _ refl
          (cc (meaning-replace e o w p r z h))
    meaning-replace (heq a b) o w p r z h =
        parts_only (heq a b) (heq (replace step a o) (replace step b o)) o _ refl
          (cc (meaning-replace a o w p r.0 z h.0, meaning-replace b o w p r.1 z h.1))
    meaning-replace (abstraction k n t b) o w p r z h =
        let next : add32 o 1 ≡ suc o = omega arith in
        parts_only (abstraction k n t b)
          (abstraction k n (replace step t o) (replace step b (add32 o 1))) o _ refl
          (rw next (
            cc (
              meaning-replace t o w p r.1 z h.0,
              meaning-replace b (suc o) (suc w) (omega arith) r.2 r.0 h.1,
            )))
    meaning-replace (let_in n absent v b) o w p r z h =
        let next : add32 o 1 ≡ suc o = omega arith in
        parts_only (let_in n absent v b)
          (let_in n absent (replace step v o) (replace step b (add32 o 1))) o _ refl
          (rw next (
            cc (
              meaning-replace v o w p r.2 z h.1,
              meaning-replace b (suc o) (suc w) (omega arith) r.3 r.0 h.2,
            )))
    meaning-replace (let_in n (present t) v b) o w p r z h =
        let next : add32 o 1 ≡ suc o = omega arith in
        parts_only (let_in n (present t) v b)
          (let_in n (present (replace step t o)) (replace step v o) (replace step b (add32 o 1))) o
          _ refl
          (rw next (
            cc (
              meaning-replace t o w p r.1 z h.0,
              meaning-replace v o w p r.2 z h.1,
              meaning-replace b (suc o) (suc w) (omega arith) r.3 r.0 h.2,
            )))

    meaning-replace_args :
        (xs : Exprs) (o w : ℕ) (t t' : Term)
        → o + length ns ≡ w
        → RoomArgs none xs w
        → w < 4294967296
        → ArgsAvoid ns σ xs
        → t' ≡ abstract_term ns o t
        → spine σ t' (replace_args step xs o) ≡ abstract_term ns o (spine σ t xs)
    meaning-replace_args nil o w t t' p r z h e = e
    meaning-replace_args (cons x xs) o w t t' p r z h e =
        meaning-replace_args xs o w (tapp t (meaning σ x)) (tapp t' (meaning σ (replace step x o)))
          p r.1 z h.1 (cc (e, meaning-replace x o w p r.0 z h.0))

-- `abstract` over a list of constants replaces, in the term of the expression, the constants of these
-- names, and nothing else, by variables: the last one by the variable 0 at the top and by `k` below
-- `k` binders, the one before it by the next variable, and so on, a name that is in the list twice
-- by its last place. This holds where the metavariables stand for terms without the names, and the
-- indices of the expression have room for as many more as there are constants.
pub meaning-abstract :
    (vh : ℕ → ℕ) (σ : Assignment) (ns : List Name) (e : Expr)
    → Room none e (length ns)
    → length ns < 4294967296
    → MetavarsAvoid (reverse ns) σ e
    → meaning σ (abstract vh (map constant_of ns) e) ≡ abstract_term (reverse ns) 0 (meaning σ e)
unfolding abstract
meaning-abstract vh σ ns e r z h =
    rw (map-reverse ns)
      (meaning-replace vh σ (reverse ns) e 0 (length ns) (omega (arith, length-reverse ns)) r z h)
