-- ===== src/Kernel/ExprEq/Erasure.antt =====
-- kernel/expr_eq.h: expressions without the names of binders and the types of constants.
use lean.Base.{false, ◌&&◌, ◌==◌, ==_iff, Bool, and_true, ap, ap₂, arith, refl, true, ℕ, ◌∷◌, ◌≡◌}
use lean.Kernel.Expr.{
  Expr, Exprs, OptExpr, LocalContext, var, constant, value, app, pair, proj, abstraction, type,
  let_in, heq, metavar, nil, cons, absent, present, empty, lift_entry, inst_entry, Binder,
}
use lean.Kernel.ExprEq.{
  expr_hash, hash_args, parts_eq, args_eq, opt_eq, context_eq, bool_eq, binder_eq,
}
use lean.Kernel.Level.Equality.{level_eq_iff}
use lean.Util.Name.{anonymous}
use lean.Util.Name.Equality.{name_eq_iff}
use lean.Util.Hash.{hash, hash_values}
use lean.Kernel.ExprEq.{same_hash}
use lean.Kernel.Expr.{length_args}
use lean.Kernel.ExprEq.{name_eq}

-- The expression with no name at a binder and no type at a constant.
abbrev mutual
  pub erase : Expr → Expr
  erase (var i) = var i
  erase (constant n t) = constant n absent
  erase (value v) = value v
  erase (app f xs) = app (erase f) (erase_args xs)
  erase (pair a b t) = pair (erase a) (erase b) (erase t)
  erase (proj i e) = proj i (erase e)
  erase (abstraction k n t b) = abstraction k anonymous (erase t) (erase b)
  erase (type l) = type l
  erase (let_in n t v b) = let_in anonymous (erase_opt t) (erase v) (erase b)
  erase (heq a b) = heq (erase a) (erase b)
  erase (metavar n c) = metavar n (erase_context c)

  pub erase_args : Exprs → Exprs
  erase_args nil = nil
  erase_args (cons e es) = cons (erase e) (erase_args es)

  pub erase_opt : OptExpr → OptExpr
  erase_opt absent = absent
  erase_opt (present e) = present (erase e)

  pub erase_context : LocalContext → LocalContext
  erase_context empty = empty
  erase_context (lift_entry s n c) = lift_entry s n (erase_context c)
  erase_context (inst_entry s v c) = inst_entry s (erase v) (erase_context c)

true_ne : ¬ (false ≡ true)
true_ne h = cc

binder_eq_sound : (k l : Binder) → binder_eq k l ≡ true → k ≡ l
binder_eq_sound k l h = ground (arith, h)

bool_eq_sound : (i j : Bool) → bool_eq i j ≡ true → i ≡ j
bool_eq_sound i j h = ground (arith, h)

module _ (vh : ℕ → ℕ) where
  mutual
    unfolding expr_hash

    pub hash_kept : (e : Expr) → expr_hash vh (erase e) ≡ expr_hash vh e
    hash_kept (var i) = refl
    hash_kept (constant n t) = refl
    hash_kept (value v) = refl
    hash_kept (app f xs) = ap₂ (λ x y. hash_values (x ∷ y) 31) (hash_kept f) (hashes_kept xs)
    hash_kept (pair a b t) = ap₂ hash (hash_kept a) (hash_kept b)
    hash_kept (proj i e) = ap (hash 17) (hash_kept e)
    hash_kept (abstraction k n t b) = ap₂ hash (hash_kept t) (hash_kept b)
    hash_kept (type l) = refl
    hash_kept (let_in n t v b) = ap₂ hash (hash_kept v) (hash_kept b)
    hash_kept (heq a b) = ap₂ hash (hash_kept a) (hash_kept b)
    hash_kept (metavar n c) = refl

    hashes_kept : (xs : Exprs) → hash_args vh (erase_args xs) ≡ hash_args vh xs
    hashes_kept nil = refl
    hashes_kept (cons e es) = ap₂ ◌∷◌ (hash_kept e) (hashes_kept es)

  abbrev pub eq_at : Expr → Expr → Bool
  eq_at a b = same_hash vh a b && parts_eq vh a b

  pub parts_true : (a b : Expr) → eq_at a b ≡ true → parts_eq vh a b ≡ true
  parts_true a b h = (and_true (same_hash vh a b) (parts_eq vh a b) h).1

  three : (p q r : Bool) → (p && q && r) ≡ true → (p ≡ true) × (q ≡ true) × (r ≡ true)
  three p q r h = ground arith

  mutual
    unfolding parts_eq

    pub sound : (a b : Expr) → parts_eq vh a b ≡ true → erase a ≡ erase b
    sound (var i) (var j) h = ap var ((==_iff i j).0 h)
    sound (constant m s) (constant n t) h = ap (λ n. constant n absent) ((name_eq_iff m n).0 h)
    sound (value v) (value w) h = ap value ((==_iff v w).0 h)
    sound (app f xs) (app g ys) h =
        let r = three (length_args xs == length_args ys) (eq_at f g) (args_eq vh xs ys) h in
        ap₂ app (sound f g (parts_true f g r.1)) (sound_args xs ys r.2)
    sound (pair a b t) (pair a' b' t') h =
        let r = three (eq_at a a') (eq_at b b') (eq_at t t') h in
        let ea = sound a a' (parts_true a a' r.0) in
        let eb = sound b b' (parts_true b b' r.1) in
        let et = sound t t' (parts_true t t' r.2) in cc (ea, eb, et)
    sound (proj i e) (proj j e') h =
        let r = and_true (bool_eq i j) (eq_at e e') h in
        ap₂ proj (bool_eq_sound i j r.0) (sound e e' (parts_true e e' r.1))
    sound (abstraction k m t b) (abstraction l n t' b') h =
        let r = three (binder_eq k l) (eq_at t t') (eq_at b b') h in
        let ek = binder_eq_sound k l r.0 in
        let et = sound t t' (parts_true t t' r.1) in
        let eb = sound b b' (parts_true b b' r.2) in cc (ek, et, eb)
    sound (type l) (type l') h = ap type ((level_eq_iff l l').0 h)
    sound (let_in m t v b) (let_in n t' v' b') h =
        let r = three (opt_eq vh t t') (eq_at v v') (eq_at b b') h in
        let et = sound_opt t t' r.0 in
        let ev = sound v v' (parts_true v v' r.1) in
        let eb = sound b b' (parts_true b b' r.2) in cc (et, ev, eb)
    sound (heq a b) (heq a' b') h =
        let r = and_true (eq_at a a') (eq_at b b') h in
        ap₂ heq (sound a a' (parts_true a a' r.0)) (sound b b' (parts_true b b' r.1))
    sound (metavar m c) (metavar n d) h =
        let r = and_true (name_eq m n) (context_eq vh c d) h in
        ap₂ metavar ((name_eq_iff m n).0 r.0) (sound_context c d r.1)
    sound _ _ h = absurd (true_ne h)

    sound_args : (xs ys : Exprs) → args_eq vh xs ys ≡ true → erase_args xs ≡ erase_args ys
    sound_args nil nil h = refl
    sound_args (cons x xs) (cons y ys) h =
        let r = and_true (eq_at x y) (args_eq vh xs ys) h in
        ap₂ cons (sound x y (parts_true x y r.0)) (sound_args xs ys r.1)
    sound_args _ _ h = absurd (true_ne h)

    sound_opt : (s t : OptExpr) → opt_eq vh s t ≡ true → erase_opt s ≡ erase_opt t
    sound_opt absent absent h = refl
    sound_opt (present a) (present b) h = ap present (sound a b (parts_true a b h))
    sound_opt _ _ h = absurd (true_ne h)

    sound_context :
        (c d : LocalContext) → context_eq vh c d ≡ true → erase_context c ≡ erase_context d
    sound_context empty empty h = refl
    sound_context (lift_entry s m c) (lift_entry t n d) h =
        let r = three (s == t) (m == n) (context_eq vh c d) h in
        let es = (==_iff s t).0 r.0 in
        let em = (==_iff m n).0 r.1 in let ec = sound_context c d r.2 in cc (es, em, ec)
    sound_context (inst_entry s v c) (inst_entry t w d) h =
        let r = three (s == t) (eq_at v w) (context_eq vh c d) h in
        let es = (==_iff s t).0 r.0 in
        let ev = sound v w (parts_true v w r.1) in let ec = sound_context c d r.2 in cc (es, ev, ec)
    sound_context _ _ h = absurd (true_ne h)
