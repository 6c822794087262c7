-- ===== src/Kernel/Meaning/Lift.antt =====
-- kernel/free_vars.cpp: `lift_free_vars`, on terms.
use lean.Base.{
  ==_iff, ◌==◌, ap, ◌∙◌, Bool-cases, add32_small, arith, inl, inr, leb, leb→le, none, refl, some,
  suc, sym, ℕ, ◌+◌, ◌<◌, ◌≡◌, ◌≤◌,
}
use lean.Kernel.Expr.{Expr, LocalContext, var, metavar}
use lean.Kernel.FreeVars.{MenvSizes, has_free_vars, free_var_range}
use lean.Kernel.FreeVars.Lift.{add_lift, lift_step, lift_free_vars}
use lean.Kernel.Term.{Term, shift, Below}
use lean.Kernel.Term.Laws.{shift_zero}
use lean.Kernel.Term.Scope.{shift-Below, Below-mono}
use lean.Kernel.Meaning.{Assignment, meaning, meaning_context}
use lean.Kernel.Meaning.Context.{meaning_context-add_lift_entry}
use lean.Kernel.Meaning.Closed.{closed-Below}
use lean.Kernel.Meaning.Range.{free_var_range-Below}
use lean.Kernel.Meaning.Replace.{IsStructural, IsStepFor, IsInner, meaning-replace}
use lean.Kernel.Meaning.Room.{Room, RoomContext, Room-mono, RoomContext-mono}
use lean.Util.Name.{Name}

-- The metavariable environment knows the contexts: it bounds the free variables of the terms that
-- the metavariables stand for.
abbrev pub Knows : MenvSizes → Assignment → Type 0
Knows none σ = Unit
Knows (some size) σ = (n : Name) → Below (size n) (σ n)

-- `add_lift` on a metavariable, with its early exit where the range is low enough.
pub meaning-add_lift :
    (menv : MenvSizes) (σ : Assignment) (n : Name) (c : LocalContext) (s d m : ℕ)
    → Knows menv σ
    → 0 < m
    → d ≤ m
    → m < 4294967296
    → RoomContext menv n c m
    → meaning σ (add_lift menv (metavar n c) s d) ≡ shift s d (meaning_context σ c (σ n))
unfolding add_lift meaning
meaning-add_lift none σ n c s d m k z p w r =
    meaning_context-add_lift_entry none n σ (σ n) c s d m p r
meaning-add_lift (some size) σ n c s d m k z p w r =
    elim (Bool-cases (leb (free_var_range (some size) (metavar n c)) s)) [
      | inl h ↦ rw h (
          sym (
            shift-Below s d (meaning_context σ c (σ n)) (
              Below-mono (free_var_range (some size) (metavar n c)) s (meaning σ (metavar n c))
                (leb→le _ _ h)
                (free_var_range-Below size σ k (metavar n c)
                  (omega arith, RoomContext-mono (some size) n c 1 m (omega arith) r)))))
      | inr h ↦ rw h (meaning_context-add_lift_entry (some size) n σ (σ n) c s d m p r)
    ]

-- Lifting from `s` on, below `o` binders.
abbrev pub shift_at : ℕ → ℕ → ℕ → Term → Term
shift_at s d o = shift (s + o) d

suc_at : (s o : ℕ) → suc (s + o) ≡ s + suc o
suc_at s o = omega arith

pub shift_at-IsStructural : (s d : ℕ) → IsStructural (shift_at s d)
unfolding shift
shift_at-IsStructural s d = record {
  at_const = λ o n. refl;
  at_value = λ o v. refl;
  at_app = λ o f a. refl;
  at_pair = λ o a b t. refl;
  at_proj = λ o i e. refl;
  at_abs = λ o k t b. rw (suc_at s o);
  at_type = λ o l. refl;
  at_let = λ o t v b. rw (suc_at s o);
  at_let_untyped = λ o v b. rw (suc_at s o);
  at_heq = λ o a b. refl;
}

lift_step-inner :
    (menv : MenvSizes) (s d : ℕ) (e : Expr) (o : ℕ) → IsInner e → lift_step menv s d e o ≡ none
unfolding lift_step
lift_step-inner menv s d (var i) o h = absurd h
lift_step-inner menv s d (metavar n c) o h = absurd h
lift_step-inner menv s d _ o h = refl

lift_step-IsStepFor :
    (menv : MenvSizes) (σ : Assignment) (s d : ℕ)
    → Knows menv σ
    → 0 < d
    → IsStepFor menv σ (lift_step menv s d) (shift_at s d) (s + d)
unfolding lift_step meaning shift
lift_step-IsStepFor menv σ s d k z = record {
  at_var = λ i o r. ground (arith, add32_small s o (omega arith), add32_small i d (omega arith));
  at_metavar = λ n c o r w.
      rw (add32_small s o (omega arith))
        (meaning-add_lift menv σ n c (s + o) d (s + d + o) k (omega arith) (omega arith) w r);
  at_inner = lift_step-inner menv s d;
}

-- `lift_free_vars(e, s, d, menv)` stands for the term of `e` with its free variables from `s` on
-- raised by `d`, whatever the metavariables stand for within the sizes that `menv` knows, where
-- the indices of `e` have room for `s + d`.
pub meaning-lift_free_vars :
    (menv : MenvSizes) (σ : Assignment) (s d : ℕ) (e : Expr)
    → Knows menv σ
    → Room menv e (s + d)
    → meaning σ (lift_free_vars menv s d e) ≡ shift s d (meaning σ e)
unfolding lift_free_vars
meaning-lift_free_vars menv σ s d e k r = elim (Bool-cases (d == 0)) [
  | inl z ↦
      rw z (sym (ap (λ i. shift s i (meaning σ e)) ((==_iff d 0).0 z) ∙ shift_zero s (meaning σ e)))
  | inr z ↦ elim (Bool-cases (has_free_vars e)) [
    | inl h ↦
        rw (z, h)
          (meaning-replace menv σ (lift_step menv s d) (shift_at s d) (s + d)
              (shift_at-IsStructural s d) (lift_step-IsStepFor menv σ s d k (ground arith)) e r
            ∙ ap (λ i. shift i d (meaning σ e)) (omega arith))
    | inr h ↦
        rw (z, h)
          (sym (
            shift-Below s d (meaning σ e) (
              Below-mono 0 s (meaning σ e) (omega arith)
                (closed-Below menv σ e (Room-mono menv e 0 (s + d) (omega arith) r) h))))
  ]
]
