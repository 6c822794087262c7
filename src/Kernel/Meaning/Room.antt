-- ===== src/Kernel/Meaning/Room.antt =====
-- The bounds under which 32-bit arithmetic on indices is exact.
use lean.Base.{arith, none, some, suc, ℕ, ◌+◌, ◌<◌, ◌≤◌}
use lean.Kernel.Expr.{
  Expr, Exprs, OptExpr, LocalContext, var, constant, value, app, pair, proj, abstraction, type,
  let_in, heq, metavar, nil, cons, absent, present, empty, lift_entry, inst_entry,
}
use lean.Kernel.FreeVars.{MenvSizes, range_context}
use lean.Util.Name.{Name}

-- With a metavariable environment, the range of a metavariable leaves room for a lift.
abbrev pub RangeFits : MenvSizes → Name → LocalContext → ℕ → Type 0
RangeFits none n c k = Unit
RangeFits (some size) n c k = range_context (some size) n c + k < 4294967296

-- `Room menv e m`: each index of `e`, with the binders above it and `m` added, is an `unsigned`, and
-- so are the sums of lift entries; a lift entry lifts by at least one.
abbrev mutual
  pub Room : MenvSizes → Expr → ℕ → Type 0
  Room menv (var i) m = i + m < 4294967296
  Room menv (constant n t) m = RoomOpt menv t m
  Room menv (value v) m = Unit
  Room menv (app f xs) m = Room menv f m × RoomArgs menv xs m
  Room menv (pair a b t) m = Room menv a m × Room menv b m × Room menv t m
  Room menv (proj i e) m = Room menv e m
  Room menv (abstraction k n t b) m = (suc m < 4294967296) × Room menv t m × Room menv b (suc m)
  Room menv (type l) m = Unit
  Room menv (let_in n t v b) m =
      (suc m < 4294967296) × RoomOpt menv t m × Room menv v m × Room menv b (suc m)
  Room menv (heq a b) m = Room menv a m × Room menv b m
  Room menv (metavar n c) m = (m < 4294967296) × RoomContext menv n c m

  pub RoomArgs : MenvSizes → Exprs → ℕ → Type 0
  RoomArgs menv nil m = Unit
  RoomArgs menv (cons e es) m = Room menv e m × RoomArgs menv es m

  pub RoomOpt : MenvSizes → OptExpr → ℕ → Type 0
  RoomOpt menv absent m = Unit
  RoomOpt menv (present e) m = Room menv e m

  pub RoomContext : MenvSizes → Name → LocalContext → ℕ → Type 0
  RoomContext menv h empty m = Unit
  RoomContext menv h (lift_entry s n c) m =
      (0 < n) × (s + n + m < 4294967296) × RangeFits menv h c n × RoomContext menv h c (n + m)
  RoomContext menv h (inst_entry s v c) m =
      (s + m < 4294967296) × Room menv v 1 × RoomContext menv h c m

module _ (menv : MenvSizes) where
  mutual
    mono : (e : Expr) (j k : ℕ) → j ≤ k → Room menv e k → Room menv e j
    mono (var i) j k p h = omega arith
    mono (constant n t) j k p h = mono_opt t j k p h
    mono (value v) j k p h = tt
    mono (app f xs) j k p h = (mono f j k p h.0, mono_args xs j k p h.1)
    mono (pair a b t) j k p h = (mono a j k p h.0, mono b j k p h.1, mono t j k p h.2)
    mono (proj i e) j k p h = mono e j k p h
    mono (abstraction l n t b) j k p h =
        (omega arith, mono t j k p h.1, mono b (suc j) (suc k) (omega arith) h.2)
    mono (type l) j k p h = tt
    mono (let_in n t v b) j k p h = (
      omega arith,
      mono_opt t j k p h.1,
      mono v j k p h.2,
      mono b (suc j) (suc k) (omega arith) h.3,
    )
    mono (heq a b) j k p h = (mono a j k p h.0, mono b j k p h.1)
    mono (metavar n c) j k p h = (omega arith, mono_context n c j k p h.1)

    mono_args : (xs : Exprs) (j k : ℕ) → j ≤ k → RoomArgs menv xs k → RoomArgs menv xs j
    mono_args nil j k p h = tt
    mono_args (cons e es) j k p h = (mono e j k p h.0, mono_args es j k p h.1)

    mono_opt : (t : OptExpr) (j k : ℕ) → j ≤ k → RoomOpt menv t k → RoomOpt menv t j
    mono_opt absent j k p h = tt
    mono_opt (present e) j k p h = mono e j k p h

    mono_context :
        (h : Name) (c : LocalContext) (j k : ℕ)
        → j ≤ k
        → RoomContext menv h c k
        → RoomContext menv h c j
    mono_context h empty j k p r = tt
    mono_context h (lift_entry s n c) j k p r =
        (r.0, omega arith, r.2, mono_context h c (n + j) (n + k) (omega arith) r.3)
    mono_context h (inst_entry s v c) j k p r = (omega arith, r.1, mono_context h c j k p r.2)

  pub Room-mono : (e : Expr) (j k : ℕ) → j ≤ k → Room menv e k → Room menv e j
  Room-mono e j k p h = mono e j k p h

  pub RoomContext-mono :
      (h : Name) (c : LocalContext) (j k : ℕ)
      → j ≤ k
      → RoomContext menv h c k
      → RoomContext menv h c j
  RoomContext-mono h c j k p r = mono_context h c j k p r
