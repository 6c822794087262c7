-- ===== src/Kernel/Meaning/ApplyContext.antt =====
-- kernel/metavar.cpp: `apply_local_context`, on terms.
use lean.Base.{ℕ, ◌<◌, ap, refl, sym, ◌+◌, ◌∙◌, ◌≡◌}
use lean.Kernel.Expr.{Expr, LocalContext, metavar, empty, lift_entry, inst_entry, append_context}
use lean.Kernel.FreeVars.{MenvSizes}
use lean.Kernel.Metavar.{apply_entries, apply_local_context}
use lean.Kernel.Meaning.{Assignment, meaning, meaning_context, Name}
use lean.Kernel.Meaning.Room.{Room}
use lean.Kernel.Meaning.Lift.{Knows, meaning-lift_free_vars}
use lean.Kernel.Meaning.Instantiate.{CanLift, meaning-instantiate}
use lean.Kernel.Term.{Term, shift, subst_term}

-- The expressions that the entries are applied to have room for them.
abbrev pub HasRoom : MenvSizes → Expr → LocalContext → Type 0
HasRoom menv a empty = Unit
HasRoom menv a (lift_entry s n c) = Room menv (apply_entries menv a c) (s + n) × HasRoom menv a c
HasRoom menv a (inst_entry s v c) =
    ((m : ℕ) × (s < m) × Room menv (apply_entries menv a c) m × CanLift menv v m) × HasRoom menv a c

meaning_context-append_context :
    (σ : Assignment) (c d : LocalContext) (t : Term)
    → meaning_context σ (append_context c d) t ≡ meaning_context σ c (meaning_context σ d t)
unfolding meaning
meaning_context-append_context σ empty d t = refl
meaning_context-append_context σ (lift_entry s n c) d t =
    ap (shift s n) (meaning_context-append_context σ c d t)
meaning_context-append_context σ (inst_entry s v c) d t =
    ap (subst_term s (meaning σ v)) (meaning_context-append_context σ c d t)

meaning-apply_entries :
    (menv : MenvSizes) (σ : Assignment) (a : Expr) (c : LocalContext)
    → Knows menv σ
    → HasRoom menv a c
    → meaning σ (apply_entries menv a c) ≡ meaning_context σ c (meaning σ a)
unfolding apply_entries meaning_context
meaning-apply_entries menv σ a empty k r = refl
meaning-apply_entries menv σ a (lift_entry s n c) k r =
    meaning-lift_free_vars menv σ s n (apply_entries menv a c) k r.0
    ∙ ap (shift s n) (meaning-apply_entries menv σ a c k r.1)
meaning-apply_entries menv σ a (inst_entry s v c) k ((m, lt, room, lifts), r) =
    meaning-instantiate menv σ s m v k lt lifts (apply_entries menv a c) room
    ∙ ap (subst_term s (meaning σ v)) (meaning-apply_entries menv σ a c k r)

-- Where `a` is assigned to a metavariable, `apply_local_context(a, lctx, menv)` stands for what the
-- metavariable with the local context `lctx` stands for: the entries of `lctx`, applied to the term
-- of `a`; whatever the metavariables stand for within the sizes that `menv` knows, where each
-- expression on the way has room for the entry that is applied to it.
pub meaning-apply_local_context :
    (menv : MenvSizes) (σ : Assignment) (n : Name) (a : Expr) (c : LocalContext)
    → Knows menv σ
    → HasRoom menv a c
    → σ n ≡ meaning σ a
    → meaning σ (apply_local_context menv a c) ≡ meaning σ (metavar n c)
unfolding apply_local_context meaning
meaning-apply_local_context menv σ n (metavar m d) c k r e =
    meaning_context-append_context σ c d (σ m) ∙ ap (meaning_context σ c) (sym e)
meaning-apply_local_context menv σ n a c k r e =
    meaning-apply_entries menv σ a c k r ∙ ap (meaning_context σ c) (sym e)
