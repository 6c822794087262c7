-- ===== src/Kernel/Meaning/Instantiate.antt =====
-- kernel/instantiate.cpp: `instantiate` with one expression, on terms.
use native.Mathlib.Nat.{zero-add}
use lean.Base.{
  subst, add32, ap, ◌∙◌, Bool, Bool-cases, List, [], add32_small, arith, false, inl, inr, leb,
  leb→le, none, refl, some, suc, sym, ℕ, ◌+◌, ◌<◌, ◌∷◌, ◌≡◌,
}
use lean.Kernel.Expr.{Expr, LocalContext, var, metavar}
use lean.Kernel.FreeVars.{MenvSizes, free_var_range}
use lean.Kernel.FreeVars.Lift.{lift_free_vars}
use lean.Kernel.Instantiate.{add_inst, inst_step, instantiate}
use lean.Kernel.Replace.{or_parts}
use lean.Kernel.Term.{Term, tvar, shift, subst_term}
use lean.Kernel.Term.Laws.{shift_zero, shift-shift}
use lean.Kernel.Term.Scope.{subst_term-Below, Below-mono}
use lean.Kernel.Meaning.{Assignment, meaning, meaning_context}
use lean.Kernel.Meaning.Context.{meaning_context-add_inst_entry}
use lean.Kernel.Meaning.Lift.{Knows, meaning-lift_free_vars}
use lean.Kernel.Meaning.Range.{free_var_range-Below}
use lean.Kernel.Meaning.Replace.{IsStructural, IsInner, meaning-replace}
use lean.Kernel.Meaning.Room.{Room, RoomContext, RoomContext-mono}
use lean.Util.Name.{Name}

-- `add_inst` on a metavariable, with its early exit where the range is low enough.
pub meaning-add_inst :
    (menv : MenvSizes) (σ : Assignment) (n : Name) (c : LocalContext) (s m : ℕ) (v : Expr)
    → Knows menv σ
    → 0 < m
    → m < 4294967296
    → RoomContext menv n c m
    → meaning σ (add_inst menv (metavar n c) s v)
      ≡ subst_term s (meaning σ v) (meaning_context σ c (σ n))
unfolding add_inst meaning
meaning-add_inst none σ n c s m v k z w r = meaning_context-add_inst_entry none n σ (σ n) c s v m r
meaning-add_inst (some size) σ n c s m v k z w r =
    elim (Bool-cases (leb (free_var_range (some size) (metavar n c)) s)) [
      | inl h ↦ rw h (
          sym (
            subst_term-Below s (meaning σ v) (meaning_context σ c (σ n)) (
              Below-mono (free_var_range (some size) (metavar n c)) s (meaning σ (metavar n c))
                (leb→le _ _ h)
                (free_var_range-Below size σ k (metavar n c)
                  (omega arith, RoomContext-mono (some size) n c 1 m (omega arith) r)))))
      | inr h ↦ rw h (meaning_context-add_inst_entry (some size) n σ (σ n) c s v m r)
    ]

-- Substituting `v` for `s`, below `o` binders.
abbrev pub subst_at : ℕ → Term → ℕ → Term → Term
subst_at s v o = subst_term (s + o) (shift 0 o v)

under :
    (s o : ℕ) (v b : Term)
    → subst_term (suc (s + o)) (shift 0 1 (shift 0 o v)) b ≡ subst_at s v (suc o) b
under s o v b = cc (
  shift-shift 0 o 0 1 v (omega arith) (omega arith),
  (let e : o + 1 ≡ suc o = omega arith in e),
  (let e : suc (s + o) ≡ s + suc o = omega arith in e),
)

pub subst_at-IsStructural : (s : ℕ) (v : Term) → IsStructural (subst_at s v)
unfolding subst_term
subst_at-IsStructural s v = record {
  at_const = λ o n. refl;
  at_value = λ o x. refl;
  at_app = λ o f a. refl;
  at_pair = λ o a b t. refl;
  at_proj = λ o i e. refl;
  at_abs = λ o k t b. cc (under s o v b);
  at_type = λ o l. refl;
  at_let = λ o t x b. cc (under s o v b);
  at_let_untyped = λ o x b. cc (under s o v b);
  at_heq = λ o a b. refl;
}

inst_step-inner :
    (c : Bool) (menv : MenvSizes) (s : ℕ) (vs : List Expr) (e : Expr) (o : ℕ)
    → IsInner e
    → inst_step c menv s vs e o ≡ none
unfolding inst_step
inst_step-inner c menv s vs (var i) o h = absurd h
inst_step-inner c menv s vs (metavar n k) o h = absurd h
inst_step-inner c menv s vs _ o h = refl

-- Below as many binders as the bounds allow, the expression `v` can be lifted past them.
abbrev pub CanLift : MenvSizes → Expr → ℕ → Type 0
CanLift menv v m = (o : ℕ) → m + o < 4294967296 → Room menv v o

module _ (menv : MenvSizes) (σ : Assignment) (s m : ℕ) (v : Expr) (k : Knows menv σ)
    (margin : s < m) (lifts : CanLift menv v m) where
  inst_var :
      (i o : ℕ)
      → i + (m + o) < 4294967296
      → meaning σ (or_parts (inst_step false menv s (v ∷ []) (var i) o) (var i))
        ≡ subst_at s (meaning σ v) o (tvar i)
  unfolding inst_step meaning subst_term
  inst_var i o r = ground (
    arith,
    add32_small o s (omega arith),
    add32_small (o + s) 1 (omega arith),
    meaning-lift_free_vars menv σ 0 o v k
        (subst (Room menv v) (sym (zero-add o)) (lifts o (omega arith))),
  )

  inst_metavar :
      (n : Name) (c : LocalContext) (o : ℕ)
      → RoomContext menv n c (m + o)
      → m + o < 4294967296
      → meaning σ (or_parts (inst_step false menv s (v ∷ []) (metavar n c) o) (metavar n c))
        ≡ subst_at s (meaning σ v) o (meaning_context σ c (σ n))
  unfolding inst_step
  inst_metavar n c o r w =
      rw (at_offset, at_zero)
        (meaning-add_inst menv σ n c (s + o) (m + o) (lift_free_vars menv 0 o v) k (omega arith) w r
          ∙ ap (λ x. subst_term (s + o) x (meaning_context σ c (σ n)))
              (meaning-lift_free_vars menv σ 0 o v k
                (subst (Room menv v) (sym (zero-add o)) (lifts o w))))
    where
      at_offset : add32 (add32 o s) 0 ≡ s + o
      at_offset = omega arith

      at_zero : add32 o 0 ≡ o
      at_zero = omega arith

  -- `instantiate(e, s, v, menv)` stands for the term of `e` with that of `v` for its free variable
  -- `s` and those above lowered by one, whatever the metavariables stand for within the sizes that
  -- `menv` knows; where the indices of `e` have the room `m`, greater than `s`, and `v` can be
  -- lifted past all binders that this leaves.
  pub meaning-instantiate :
      (e : Expr)
      → Room menv e m
      → meaning σ (instantiate menv s (v ∷ []) e) ≡ subst_term s (meaning σ v) (meaning σ e)
  unfolding instantiate
  meaning-instantiate e r =
      meaning-replace menv σ (inst_step false menv s (v ∷ [])) (subst_at s (meaning σ v)) m
        (subst_at-IsStructural s (meaning σ v))
        (record {
          at_var = inst_var;
          at_metavar = inst_metavar;
          at_inner = inst_step-inner false menv s (v ∷ []);
        })
        e r
      ∙ cc (shift_zero 0 (meaning σ v), (let z : s + 0 ≡ s = omega arith in z))
