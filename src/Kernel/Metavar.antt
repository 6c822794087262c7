-- ===== src/Kernel/Metavar.antt =====
-- kernel/metavar.cpp: the local context of a metavariable, applied to what is assigned to it.
use lean.Base.{[], ◌∷◌}
use lean.Kernel.Expr.{Expr, LocalContext, metavar, empty, lift_entry, inst_entry, append_context}
use lean.Kernel.FreeVars.{MenvSizes}
use lean.Kernel.FreeVars.Lift.{lift_free_vars}
use lean.Kernel.Instantiate.{instantiate}

-- The recursion of `apply_local_context`, which no metavariable enters.
unfoldable pub apply_entries : MenvSizes → Expr → LocalContext → Expr
unfolding lift_free_vars instantiate
apply_entries menv a empty = a
apply_entries menv a (lift_entry s n c) = lift_free_vars menv s n (apply_entries menv a c)
apply_entries menv a (inst_entry s v c) = instantiate menv s (v ∷ []) (apply_entries menv a c)

-- `apply_local_context(a, lctx, menv)`
unfoldable pub apply_local_context : MenvSizes → Expr → LocalContext → Expr
unfolding apply_entries
apply_local_context menv (metavar n d) c = metavar n (append_context c d)
apply_local_context menv a c = apply_entries menv a c
