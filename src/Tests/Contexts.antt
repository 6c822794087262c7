-- ===== src/Tests/Contexts.antt =====
-- A context of three entries at work.
use lean.Base.{[], arith, none, refl, some, ◌↔◌, ◌∷◌, ◌≡◌}
use lean.Kernel.Context.{Context, ContextEntry, lookup, remove, lower_entry}
use lean.Kernel.Context.Remove.{AreUnused, lookup-remove_below, remove_defined_iff}
use lean.Kernel.Expr.{var, type, absent, present}
use lean.Kernel.Level.{bottom}
use lean.Util.Name.{anonymous, num}
use mathlib.Core.Option.{map}

abbrev first : ContextEntry
first = record { entry_name = num anonymous 1; domain = present (var 1); body = absent }

abbrev second : ContextEntry
second = record { entry_name = num anonymous 2; domain = present (type bottom); body = absent }

abbrev third : ContextEntry
third = record { entry_name = num anonymous 3; domain = present (type bottom); body = absent }

abbrev three_entries : Context
three_entries = first ∷ second ∷ third ∷ []

abbrev without_second : Context
without_second = lower_entry 1 1 first ∷ third ∷ []

second_removed : remove none three_entries 1 1 ≡ some without_second
unfolding remove
second_removed = refl

lookup-remove_below_example :
    lookup without_second 0 ≡ map (lower_entry 1 1) (lookup three_entries 0)
lookup-remove_below_example =
    lookup-remove_below none 1 three_entries 1 0 without_second (omega arith) (omega arith)
      second_removed

remove_defined_iff_example :
    AreUnused none three_entries 1 1 ↔ ((d : Context) × (remove none three_entries 1 1 ≡ some d))
remove_defined_iff_example = remove_defined_iff none three_entries 1 1 (omega arith)
