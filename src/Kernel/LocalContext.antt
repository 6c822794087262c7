-- ===== src/Kernel/LocalContext.antt =====
-- kernel/metavar.cpp: the two functions that put an entry on the local context of a metavariable,
-- with their simplifications.
use lean.Base.{Bool, add32, false, if◌then◌else◌, leb, ltb, sub32, ℕ, ◌&&◌, ◌==◌}
use lean.Kernel.Expr.{Expr, LocalContext, var, empty, lift_entry, inst_entry}

-- `add_lift(lctx, s, n)`
unfoldable pub add_lift_entry : LocalContext → ℕ → ℕ → LocalContext
add_lift_entry empty s n = if n == 0 then empty else lift_entry s n empty
add_lift_entry (inst_entry t v c) s n =
    if n == 0 then inst_entry t v c else lift_entry s n (inst_entry t v c)
add_lift_entry (lift_entry s1 n1 c) s n =
    let merged = add_lift_entry c s1 (add32 n1 n) in
    if n == 0
    then lift_entry s1 n1 c
    else if leb s1 s && leb s (add32 s1 n1)
    then merged
    else lift_entry s n (lift_entry s1 n1 c)

-- The condition of the second simplification of `add_inst`: inst:(s1-1) #(s1+n1-2) over lift:s1:n1.
abbrev pub is_shifted_var : ℕ → ℕ → ℕ → Expr → Bool
is_shifted_var s1 n1 s (var i) =
    ltb 0 s1 && (s == sub32 s1 1) && ltb 2 (add32 s1 n1) && (i == sub32 (add32 s1 n1) 2)
is_shifted_var s1 n1 s v = false

-- `add_inst(lctx, s, v)`
unfoldable pub add_inst_entry : LocalContext → ℕ → Expr → LocalContext
unfolding add_lift_entry
add_inst_entry (lift_entry s1 n1 c) s v =
    if leb s1 s && ltb s (add32 s1 n1)
    then add_lift_entry c s1 (sub32 n1 1)
    else if is_shifted_var s1 n1 s v
    then add_lift_entry c (sub32 s1 1) (sub32 n1 1)
    else inst_entry s v (lift_entry s1 n1 c)
add_inst_entry c s v = inst_entry s v c
