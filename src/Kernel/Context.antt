-- ===== src/Kernel/Context.antt =====
-- kernel/context.h, kernel/context.cpp, and the functions of kernel/free_vars.cpp on the entries of
-- a context. `none` is the exception that `lookup` and `remove_core` throw, and what `truncate`
-- reads past the end of the list.
pub mod Lookup
pub mod Remove
use lean.Base.{
  Bool, List, Option, [], add32, false, if◌then◌else◌, leb, none, some, sub32, suc, zero, ℕ, ◌>>=◌,
  ◌||◌, ◌∷◌,
}
use lean.Kernel.Expr.{Expr, OptExpr, absent, present}
use lean.Kernel.FreeVars.{MenvSizes, has_free_var}
use lean.Kernel.FreeVars.Lift.{lift_free_vars, lower_free_vars}
use lean.Util.Name.{Name}

pub record ContextEntry : Type 0 where
  pub entry_name : Name
  pub domain : OptExpr
  pub body : OptExpr

abbrev pub Context : Type 0
Context = List ContextEntry

unfoldable pub lookup_ext : Context → ℕ → Option (ContextEntry × Context)
lookup_ext [] i = none
lookup_ext (e ∷ c) zero = some (e, c)
lookup_ext (e ∷ c) (suc i) = lookup_ext c i

unfoldable pub lookup : Context → ℕ → Option ContextEntry
lookup [] i = none
lookup (e ∷ c) zero = some e
lookup (e ∷ c) (suc i) = lookup c i

unfoldable pub truncate : Context → ℕ → Option Context
truncate c zero = some []
truncate [] (suc s) = none
truncate (e ∷ c) (suc s) = do rest ← truncate c s; some (e ∷ rest)

abbrev pub map_opt : (Expr → Expr) → OptExpr → OptExpr
map_opt f absent = absent
map_opt f (present e) = present (f e)

abbrev pub test_opt : (Expr → Bool) → OptExpr → Bool
test_opt f absent = false
test_opt f (present e) = f e

unfoldable pub entry_has_free_var : MenvSizes → ℕ → ℕ → ContextEntry → Bool
unfolding has_free_var
entry_has_free_var menv low high e =
    if leb high low
    then false
    else test_opt (has_free_var menv low high) e.domain
      || test_opt (has_free_var menv low high) e.body

unfoldable pub lower_entry : ℕ → ℕ → ContextEntry → ContextEntry
unfolding lower_free_vars
lower_entry s d e = record {
  entry_name = e.entry_name;
  domain = map_opt (lower_free_vars s d) e.domain;
  body = map_opt (lower_free_vars s d) e.body;
}

unfoldable pub lift_entry_vars : MenvSizes → ℕ → ℕ → ContextEntry → ContextEntry
unfolding lift_free_vars
lift_entry_vars menv s d e = record {
  entry_name = e.entry_name;
  domain = map_opt (lift_free_vars menv s d) e.domain;
  body = map_opt (lift_free_vars menv s d) e.body;
}

-- `remove_core` with `s` = 0: `n` entries are dropped.
unfoldable pub remove_front : Context → ℕ → Context
remove_front c zero = c
remove_front [] (suc n) = []
remove_front (e ∷ c) (suc n) = remove_front c n

-- `remove_core`
unfoldable pub remove : MenvSizes → Context → ℕ → ℕ → Option Context
unfolding remove_front lower_entry entry_has_free_var
remove menv [] s n = some []
remove menv (e ∷ c) zero n = some (remove_front (e ∷ c) n)
remove menv (e ∷ c) (suc s) n =
    let rest = remove menv c s n in
    if entry_has_free_var menv s (sub32 (add32 (suc s) n) 1) e
    then none
    else do d ← rest; some (lower_entry (sub32 (add32 (suc s) n) 1) n e ∷ d)
