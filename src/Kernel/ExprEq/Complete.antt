-- ===== src/Kernel/ExprEq/Complete.antt =====
-- kernel/expr_eq.h: the expressions on which `operator==` answers true.
use lean.Base.{
  ==_iff, Bool, and_intro, ap, arith, refl, suc, sym, true, ℕ, ◌&&◌, ◌==◌, ◌↔◌, ◌∙◌, ◌≡◌,
}
use lean.Kernel.Expr.{
  Expr, Exprs, OptExpr, LocalContext, Binder, var, constant, value, app, pair, proj, abstraction,
  type, let_in, heq, metavar, nil, cons, absent, present, empty, lift_entry, inst_entry,
  length_args,
}
use lean.Kernel.ExprEq.{
  expr_hash, parts_eq, args_eq, opt_eq, context_eq, expr_eq, binder_eq, bool_eq,
}
use lean.Kernel.ExprEq.Erasure.{
  erase, erase_args, erase_opt, erase_context, hash_kept, sound, eq_at, parts_true,
}
use lean.Kernel.Level.Equality.{level_eq_iff}
use lean.Util.Name.Equality.{name_eq_iff}

binder_eq_self : (k l : Binder) → k ≡ l → binder_eq k l ≡ true
binder_eq_self k l h = ground (arith, h)

bool_eq_self : (i j : Bool) → i ≡ j → bool_eq i j ≡ true
bool_eq_self i j h = ground (arith, h)

length_args-erase_args : (xs : Exprs) → length_args (erase_args xs) ≡ length_args xs
length_args-erase_args nil = refl
length_args-erase_args (cons x xs) = ap suc (length_args-erase_args xs)

same_length :
    (xs ys : Exprs) → erase_args xs ≡ erase_args ys → (length_args xs == length_args ys) ≡ true
same_length xs ys h =
    (==_iff (length_args xs) (length_args ys)).1
      (sym (length_args-erase_args xs) ∙ ap length_args h ∙ length_args-erase_args ys)

all_three : (p q r : Bool) → p ≡ true → q ≡ true → r ≡ true → (p && q && r) ≡ true
all_three p q r hp hq hr = ground arith

module _ (vh : ℕ → ℕ) where
  test : (a b : Expr) → erase a ≡ erase b → parts_eq vh a b ≡ true → eq_at vh a b ≡ true
  test a b h p =
      and_intro
        ((==_iff (expr_hash vh a) (expr_hash vh b)).1
          (sym (hash_kept vh a) ∙ ap (expr_hash vh) h ∙ hash_kept vh b))
        p

  mutual
    unfolding parts_eq

    complete : (a b : Expr) → erase a ≡ erase b → parts_eq vh a b ≡ true
    complete (var i) (var j) h = (==_iff i j).1 cc
    complete (constant m s) (constant n t) h = (name_eq_iff m n).1 cc
    complete (value v) (value w) h = (==_iff v w).1 cc
    complete (app f xs) (app g ys) h =
        let ef : erase f ≡ erase g = cc in
        let ex : erase_args xs ≡ erase_args ys = cc in
        all_three _ _ _ (same_length xs ys ex) (test f g ef (complete f g ef))
          (complete_args xs ys ex)
    complete (pair a b t) (pair a' b' t') h =
        let ea : erase a ≡ erase a' = cc in
        let eb : erase b ≡ erase b' = cc in
        let et : erase t ≡ erase t' = cc in
        all_three _ _ _ (test a a' ea (complete a a' ea)) (test b b' eb (complete b b' eb))
          (test t t' et (complete t t' et))
    complete (proj i e) (proj j e') h =
        let ee : erase e ≡ erase e' = cc in
        and_intro (bool_eq_self i j cc) (test e e' ee (complete e e' ee))
    complete (abstraction k m t b) (abstraction l n t' b') h =
        let et : erase t ≡ erase t' = cc in
        let eb : erase b ≡ erase b' = cc in
        all_three _ _ _ (binder_eq_self k l cc) (test t t' et (complete t t' et))
          (test b b' eb (complete b b' eb))
    complete (type l) (type l') h = (level_eq_iff l l').1 cc
    complete (let_in m t v b) (let_in n t' v' b') h =
        let et : erase_opt t ≡ erase_opt t' = cc in
        let ev : erase v ≡ erase v' = cc in
        let eb : erase b ≡ erase b' = cc in
        all_three _ _ _ (complete_opt t t' et) (test v v' ev (complete v v' ev))
          (test b b' eb (complete b b' eb))
    complete (heq a b) (heq a' b') h =
        let ea : erase a ≡ erase a' = cc in
        let eb : erase b ≡ erase b' = cc in
        and_intro (test a a' ea (complete a a' ea)) (test b b' eb (complete b b' eb))
    complete (metavar m c) (metavar n d) h =
        let ec : erase_context c ≡ erase_context d = cc in
        and_intro ((name_eq_iff m n).1 cc) (complete_context c d ec)
    complete _ _ h = cc

    complete_args : (xs ys : Exprs) → erase_args xs ≡ erase_args ys → args_eq vh xs ys ≡ true
    complete_args nil nil h = refl
    complete_args (cons x xs) (cons y ys) h =
        let ex : erase x ≡ erase y = cc in
        and_intro (test x y ex (complete x y ex)) (complete_args xs ys cc)
    complete_args _ _ h = cc

    complete_opt : (s t : OptExpr) → erase_opt s ≡ erase_opt t → opt_eq vh s t ≡ true
    complete_opt absent absent h = refl
    complete_opt (present a) (present b) h =
        let e : erase a ≡ erase b = cc in test a b e (complete a b e)
    complete_opt _ _ h = cc

    complete_context :
        (c d : LocalContext) → erase_context c ≡ erase_context d → context_eq vh c d ≡ true
    complete_context empty empty h = refl
    complete_context (lift_entry s m c) (lift_entry t n d) h =
        all_three _ _ _ ((==_iff s t).1 cc) ((==_iff m n).1 cc) (complete_context c d cc)
    complete_context (inst_entry s v c) (inst_entry t w d) h =
        let e : erase v ≡ erase w = cc in
        all_three _ _ _ ((==_iff s t).1 cc) (test v w e (complete v w e)) (complete_context c d cc)
    complete_context _ _ h = cc

  -- `operator==` on expressions answers true exactly where they are the same up to the names of
  -- binders and the types of constants, whatever hash the semantic attachments have: the early exit
  -- on different hashes is sound.
  pub expr_eq_iff : (a b : Expr) → (expr_eq vh a b ≡ true) ↔ (erase a ≡ erase b)
  unfolding expr_eq
  expr_eq_iff a b = (λ h. sound vh a b (parts_true vh a b h), λ h. test a b h (complete a b h))
