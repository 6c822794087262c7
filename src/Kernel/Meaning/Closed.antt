-- ===== src/Kernel/Meaning/Closed.antt =====
-- kernel/free_vars.cpp: `has_free_vars`, on terms.
use lean.Base.{Bool-cases, add32, arith, false, inl, inr, leb_false→lt, or_false, suc, ℕ, ◌≡◌}
use lean.Kernel.Expr.{
  Expr, Exprs, OptExpr, var, constant, value, app, pair, proj, abstraction, type, let_in, heq,
  metavar, nil, cons, absent, present,
}
use lean.Kernel.FreeVars.{
  MenvSizes, apply, has_free_vars_core, has_free_vars_args, has_free_vars_opt, has_free_vars,
}
use lean.Kernel.Term.{Term, tapp, Below}
use lean.Kernel.Term.Scope.{Below-mono}
use lean.Kernel.Meaning.{Assignment, meaning, spine, meaning_let}
use lean.Kernel.Meaning.Room.{Room, RoomArgs, RoomOpt, Room-mono}

-- The extra test at offset 0 is harmless: an expression that is closed there is closed at any offset.
apply_sound :
    (menv : MenvSizes) (σ : Assignment) (e : Expr) (o : ℕ)
    → ((k : ℕ) → Room menv e k → has_free_vars_core e k ≡ false → Below k (meaning σ e))
    → Room menv e o
    → apply (has_free_vars_core e) o ≡ false
    → Below o (meaning σ e)
apply_sound menv σ e o sound r h = elim (Bool-cases (has_free_vars_core e 0)) [
  | inl open0 ↦ sound o r (ground arith)
  | inr closed0 ↦
      Below-mono 0 o (meaning σ e) (omega arith)
        (sound 0 (Room-mono menv e 0 o (omega arith) r) closed0)
]

mutual
  unfolding has_free_vars_core meaning

  no_vars :
      (menv : MenvSizes) (σ : Assignment) (e : Expr) (o : ℕ)
      → Room menv e o
      → has_free_vars_core e o ≡ false
      → Below o (meaning σ e)
  no_vars menv σ (var i) o r h = leb_false→lt o i h
  no_vars menv σ (constant n t) o r h = tt
  no_vars menv σ (value v) o r h = tt
  no_vars menv σ (app f xs) o r h =
      let (hf, hx) = or_false _ _ h in
      no_vars_args menv σ xs o (meaning σ f) (apply_sound menv σ f o (no_vars menv σ f) r.0 hf) r.1
        hx
  no_vars menv σ (pair a b t) o r h =
      let (hab, ht) = or_false _ _ h in
      let (ha, hb) = or_false _ _ hab in
      (
        apply_sound menv σ a o (no_vars menv σ a) r.0 ha,
        apply_sound menv σ b o (no_vars menv σ b) r.1 hb,
        apply_sound menv σ t o (no_vars menv σ t) r.2 ht,
      )
  no_vars menv σ (proj i e) o r h = apply_sound menv σ e o (no_vars menv σ e) r h
  no_vars menv σ (abstraction k n t b) o r h =
      let next : add32 o 1 ≡ suc o = omega arith in
      let (ht, hb) = or_false _ _ h in
      (
        apply_sound menv σ t o (no_vars menv σ t) r.1 ht,
        apply_sound menv σ b (suc o) (no_vars menv σ b) r.2 (rw (← next) hb),
      )
  no_vars menv σ (type l) o r h = tt
  no_vars menv σ (let_in n t v b) o r h =
      let next : add32 o 1 ≡ suc o = omega arith in
      let (htv, hb) = or_false _ _ h in
      let (ht, hv) = or_false _ _ htv in
      no_vars_let menv σ t o (meaning σ v) (meaning σ b) r.1 ht
        (apply_sound menv σ v o (no_vars menv σ v) r.2 hv)
        (apply_sound menv σ b (suc o) (no_vars menv σ b) r.3 (rw (← next) hb))
  no_vars menv σ (heq a b) o r h =
      let (ha, hb) = or_false _ _ h in
      (
        apply_sound menv σ a o (no_vars menv σ a) r.0 ha,
        apply_sound menv σ b o (no_vars menv σ b) r.1 hb,
      )
  no_vars menv σ (metavar n c) o r h = cc

  no_vars_args :
      (menv : MenvSizes) (σ : Assignment) (xs : Exprs) (o : ℕ) (f : Term)
      → Below o f
      → RoomArgs menv xs o
      → has_free_vars_args xs o ≡ false
      → Below o (spine σ f xs)
  no_vars_args menv σ nil o f b r h = b
  no_vars_args menv σ (cons e es) o f b r h =
      let (he, hs) = or_false _ _ h in
      no_vars_args menv σ es o (tapp f (meaning σ e))
        (b, apply_sound menv σ e o (no_vars menv σ e) r.0 he) r.1 hs

  no_vars_let :
      (menv : MenvSizes) (σ : Assignment) (t : OptExpr) (o : ℕ) (v b : Term)
      → RoomOpt menv t o
      → has_free_vars_opt t o ≡ false
      → Below o v
      → Below (suc o) b
      → Below o (meaning_let σ t v b)
  no_vars_let menv σ absent o v b r h hv hb = (hv, hb)
  no_vars_let menv σ (present e) o v b r h hv hb =
      (apply_sound menv σ e o (no_vars menv σ e) r h, hv, hb)

-- An expression whose indices are within 32 bits and for which `has_free_vars` answers false
-- stands for a term with no free variables, whatever its metavariables are replaced by.
pub closed-Below :
    (menv : MenvSizes) (σ : Assignment) (e : Expr)
    → Room menv e 0
    → has_free_vars e ≡ false
    → Below 0 (meaning σ e)
closed-Below menv σ e r h = no_vars menv σ e 0 r h
