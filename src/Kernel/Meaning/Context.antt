-- ===== src/Kernel/Meaning/Context.antt =====
-- kernel/metavar.cpp: `add_lift` and `add_inst` on local contexts, on terms.
use lean.Base.{
  Bool-cases, inl, inr, and_true, leb, ltb, refl, sub32, sub32_small, suc, sym, tests, true, zero,
  ◌&&◌, ◌-◌, ◌<◌, ◌∙◌, add32, add32_small, arith, ℕ, ◌+◌, ◌≡◌, ◌≤◌,
}
use lean.Kernel.FreeVars.{MenvSizes}
use lean.Util.Name.{Name}
use lean.Kernel.Expr.{LocalContext, empty, lift_entry, inst_entry, Expr, var}
use lean.Kernel.LocalContext.{add_lift_entry, add_inst_entry, is_shifted_var}
use lean.Kernel.Term.{Term, shift, subst_term}
use lean.Kernel.Term.Gaps.{subst_term-shift_var}
use lean.Kernel.Term.Laws.{shift_zero, shift-shift, subst_term-shift}
use lean.Kernel.Meaning.{Assignment, meaning, meaning_context, tvar}
use lean.Kernel.Meaning.Room.{RoomContext}

-- What the test of the second simplification of `add_inst` says.
shifted_var :
    (s0 n1 s i : ℕ)
    → suc s0 + n1 < 4294967296
    → is_shifted_var (suc s0) n1 s (var i) ≡ true
    → (s ≡ s0) × (suc i ≡ s0 + n1)
shifted_var s0 n1 s i r g = ground arith

module _ (menv : MenvSizes) (x : Name) (σ : Assignment) (t : Term) where
  -- `add_lift(lctx, s, n)` stands for lifting by `n` from `s` on after `lctx`, where the indices
  -- of `lctx` have room for `n`.
  pub meaning_context-add_lift_entry :
      (c : LocalContext) (s n m : ℕ)
      → n ≤ m
      → RoomContext menv x c m
      → meaning_context σ (add_lift_entry c s n) t ≡ shift s n (meaning_context σ c t)
  unfolding add_lift_entry meaning
  meaning_context-add_lift_entry empty s n m p h = ground (arith, shift_zero s t)
  meaning_context-add_lift_entry (inst_entry s1 v c) s n m p h =
      ground (arith, shift_zero s (subst_term s1 (meaning σ v) (meaning_context σ c t)))
  meaning_context-add_lift_entry (lift_entry s1 n1 c) s n m p h =
      let e : add32 n1 n ≡ n1 + n = add32_small n1 n (omega arith) in
      let e1 : add32 s1 n1 ≡ s1 + n1 = add32_small s1 n1 (omega arith) in
      let ih = meaning_context-add_lift_entry c s1 (n1 + n) (n1 + m) (omega arith) h.3 in
      rw (e, e1)
        (ground (
          arith,
          ih,
          shift_zero s (shift s1 n1 (meaning_context σ c t)),
          shift-shift s1 n1 s n (meaning_context σ c t),
        ))

  add_inst_lift :
      (s1 n1 : ℕ) (c : LocalContext) (s : ℕ) (v : Expr) (m : ℕ)
      → RoomContext menv x (lift_entry s1 n1 c) m
      → (leb s1 s && ltb s (add32 s1 n1)) ≡ true
      → meaning_context σ (add_lift_entry c s1 (sub32 n1 1)) t
        ≡ subst_term s (meaning σ v) (shift s1 n1 (meaning_context σ c t))
  add_inst_lift s1 n1 c s v m h g =
      let e : sub32 n1 1 ≡ n1 - 1 = sub32_small n1 1 (omega arith) (omega arith) in
      let e1 : add32 s1 n1 ≡ s1 + n1 = add32_small s1 n1 (omega arith) in
      let (low, high) = and_true (leb s1 s) (ltb s (add32 s1 n1)) g in
      rw e (
        meaning_context-add_lift_entry c s1 (n1 - 1) (n1 + m) (omega arith) h.3
        ∙ sym (
            subst_term-shift s1 n1 s (meaning σ v) (meaning_context σ c t) (omega tests)
              (omega (tests, e1, high))))

  add_inst_var :
      (s1 n1 : ℕ) (c : LocalContext) (s i m : ℕ)
      → RoomContext menv x (lift_entry s1 n1 c) m
      → is_shifted_var s1 n1 s (var i) ≡ true
      → meaning_context σ (add_lift_entry c (sub32 s1 1) (sub32 n1 1)) t
        ≡ subst_term s (tvar i) (shift s1 n1 (meaning_context σ c t))
  add_inst_var zero n1 c s i m h g = cc
  add_inst_var (suc s0) n1 c s i m h g =
      let e : sub32 n1 1 ≡ n1 - 1 = sub32_small n1 1 (omega arith) (omega arith) in
      let es : sub32 (suc s0) 1 ≡ s0 = omega arith in
      let e1 : add32 (suc s0) n1 ≡ suc s0 + n1 = add32_small (suc s0) n1 (omega arith) in
      let (at, last) = shifted_var s0 n1 s i (omega arith) g in
      rw (e, es, at)
        (meaning_context-add_lift_entry c s0 (n1 - 1) (n1 + m) (omega arith) h.3
          ∙ sym (subst_term-shift_var s0 n1 i (meaning_context σ c t) h.0 last))

  add_inst_shifted :
      (s1 n1 : ℕ) (c : LocalContext) (s : ℕ) (v : Expr) (m : ℕ)
      → RoomContext menv x (lift_entry s1 n1 c) m
      → is_shifted_var s1 n1 s v ≡ true
      → meaning_context σ (add_lift_entry c (sub32 s1 1) (sub32 n1 1)) t
        ≡ subst_term s (meaning σ v) (shift s1 n1 (meaning_context σ c t))
  unfolding meaning
  add_inst_shifted s1 n1 c s (var i) m h g = add_inst_var s1 n1 c s i m h g
  add_inst_shifted s1 n1 c s _ m h g = cc

  -- `add_inst(lctx, s, v)` stands for putting `v` for the variable `s` after `lctx`, with both
  -- simplifications, where the indices of `lctx` are within 32 bits.
  pub meaning_context-add_inst_entry :
      (c : LocalContext) (s : ℕ) (v : Expr) (m : ℕ)
      → RoomContext menv x c m
      → meaning_context σ (add_inst_entry c s v) t
        ≡ subst_term s (meaning σ v) (meaning_context σ c t)
  unfolding add_inst_entry meaning
  meaning_context-add_inst_entry empty s v m h = refl
  meaning_context-add_inst_entry (inst_entry s1 w c) s v m h = refl
  meaning_context-add_inst_entry (lift_entry s1 n1 c) s v m h =
      elim (Bool-cases (leb s1 s && ltb s (add32 s1 n1))) [
        | inl g ↦ rw g (add_inst_lift s1 n1 c s v m h g)
        | inr g ↦ rw g (elim (Bool-cases (is_shifted_var s1 n1 s v)) [
          | inl k ↦ rw k (add_inst_shifted s1 n1 c s v m h k)
          | inr k ↦ rw k
        ])
      ]
