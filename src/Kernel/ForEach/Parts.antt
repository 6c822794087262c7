-- ===== src/Kernel/ForEach/Parts.antt =====
-- kernel/for_each_fn.h: the parts of an expression in the order of the visit, and their number.
use lean.Base.{
  Bool, List, Option, [], ap, arith, if◌then◌else◌, none, refl, some, suc, sym, true, ℕ, ◌+◌, ◌<◌,
  ◌∷◌, ◌≡◌,
}
use lean.Kernel.Expr.{
  Expr, Exprs, OptExpr, var, constant, value, app, pair, proj, abstraction, type, let_in, heq,
  metavar, nil, cons, absent, present,
}
use lean.Kernel.ForEach.{Item, item, is_plain, args_items, items_of}

-- The cells of an expression, the contexts of metavariables aside.
unfoldable mutual
  pub cells : Expr → ℕ
  cells (constant n t) = suc (cells_opt t)
  cells (heq a b) = suc (cells a + cells b)
  cells (pair a b t) = suc (cells a + cells b + cells t)
  cells (proj i e) = suc (cells e)
  cells (app g xs) = suc (cells g + cells_args xs)
  cells (abstraction k n t b) = suc (cells t + cells b)
  cells (let_in n t v b) = suc (cells_opt t + cells v + cells b)
  cells _ = 1

  pub cells_args : Exprs → ℕ
  cells_args nil = 0
  cells_args (cons e es) = cells e + cells_args es

  pub cells_opt : OptExpr → ℕ
  cells_opt absent = 0
  cells_opt (present e) = cells e

abbrev pub or_else {ℓ} : {A : Type ℓ} → Option A → Option A → Option A
or_else none r = r
or_else (some x) r = some x

abbrev pub test : (Expr → Bool) → Expr → Option Expr
test p e = if p e then some e else none

-- The first part that satisfies `p`: the expression itself, or one of its parts in their order.
unfoldable mutual
  pub first_part : (Expr → Bool) → Expr → Option Expr
  first_part p (constant n t) = or_else (test p (constant n t)) (first_opt p t)
  first_part p (heq a b) = or_else (test p (heq a b)) (or_else (first_part p b) (first_part p a))
  first_part p (pair a b t) =
      or_else (test p (pair a b t))
        (or_else (first_part p t) (or_else (first_part p b) (first_part p a)))
  first_part p (proj i e) = or_else (test p (proj i e)) (first_part p e)
  first_part p (app g xs) = or_else (test p (app g xs)) (or_else (first_part p g) (first_args p xs))
  first_part p (abstraction k n t b) =
      or_else (test p (abstraction k n t b)) (or_else (first_part p t) (first_part p b))
  first_part p (let_in n t v b) =
      or_else (test p (let_in n t v b))
        (or_else (first_opt p t) (or_else (first_part p v) (first_part p b)))
  first_part p e = test p e

  pub first_args : (Expr → Bool) → Exprs → Option Expr
  first_args p nil = none
  first_args p (cons e es) = or_else (first_part p e) (first_args p es)

  pub first_opt : (Expr → Bool) → OptExpr → Option Expr
  first_opt p absent = none
  first_opt p (present e) = first_part p e

abbrev pub first_items : (Expr → Bool) → List Item → Option Expr
first_items p [] = none
first_items p (item e o ∷ is) = or_else (first_part p e) (first_items p is)

abbrev pub weight : List Item → ℕ
weight [] = 0
weight (item e o ∷ is) = cells e + weight is

pub or_else-none {ℓ} : {A : Type ℓ} (x : Option A) → or_else x none ≡ x
or_else-none none = refl
or_else-none (some a) = refl

pub or_else-none_left {ℓ} : {A : Type ℓ} (x y : Option A) → or_else x y ≡ none → x ≡ none
or_else-none_left none y h = refl
or_else-none_left (some a) y h = h

pub or_else-none_right {ℓ} : {A : Type ℓ} (x y : Option A) → or_else x y ≡ none → y ≡ none
or_else-none_right none y h = h
or_else-none_right (some a) y h = cc

pub or_else_assoc {ℓ} :
    {A : Type ℓ} (x y z : Option A) → or_else (or_else x y) z ≡ or_else x (or_else y z)
or_else_assoc none y z = refl
or_else_assoc (some a) y z = refl

first_items-args :
    (p : Expr → Bool) (xs : Exprs) (o : ℕ) → first_items p (args_items xs o) ≡ first_args p xs
unfolding first_part
first_items-args p nil o = refl
first_items-args p (cons e es) o = ap (or_else (first_part p e)) (first_items-args p es o)

weight-args_items : (xs : Exprs) (o : ℕ) → weight (args_items xs o) ≡ cells_args xs
unfolding cells
weight-args_items nil o = refl
weight-args_items (cons e es) o = omega (arith, weight-args_items es o)

pub weight-items_of : (e : Expr) (o : ℕ) → weight (items_of e o) < cells e
unfolding cells
weight-items_of (constant n absent) o = omega arith
weight-items_of (constant n (present t)) o = omega arith
weight-items_of (app g xs) o = omega (arith, weight-args_items xs o)
weight-items_of (let_in n absent v b) o = omega arith
weight-items_of (let_in n (present t) v b) o = omega arith
weight-items_of _ o = omega arith

pub first_part-items_of :
    (p : Expr → Bool) (e : Expr) (o : ℕ)
    → first_part p e ≡ or_else (test p e) (first_items p (items_of e o))
unfolding first_part
first_part-items_of p (constant n absent) o = refl
first_part-items_of p (constant n (present t)) o = rw (or_else-none (first_part p t))
first_part-items_of p (app g xs) o = rw (first_items-args p xs o)
first_part-items_of p (heq a b) o = rw (or_else-none (first_part p a))
first_part-items_of p (pair a b t) o = rw (or_else-none (first_part p a))
first_part-items_of p (proj i e) o = rw (or_else-none (first_part p e))
first_part-items_of p (abstraction k n t b) o = rw (or_else-none (first_part p b))
first_part-items_of p (let_in n absent v b) o = rw (or_else-none (first_part p b))
first_part-items_of p (let_in n (present t) v b) o = rw (or_else-none (first_part p b))
first_part-items_of p e o = sym (or_else-none (test p e))

pub first_part_plain : (p : Expr → Bool) (e : Expr) → is_plain e ≡ true → first_part p e ≡ test p e
unfolding first_part
first_part_plain p (constant n absent) h = or_else-none (test p (constant n absent))
first_part_plain p (var i) h = refl
first_part_plain p (value v) h = refl
first_part_plain p (type l) h = refl
first_part_plain p (metavar n c) h = refl
first_part_plain p (constant n (present t)) h = cc
first_part_plain p (app g xs) h = cc
first_part_plain p (heq a b) h = cc
first_part_plain p (pair a b t) h = cc
first_part_plain p (proj i e) h = cc
first_part_plain p (abstraction k n t b) h = cc
first_part_plain p (let_in n t v b) h = cc
