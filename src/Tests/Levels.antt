-- ===== src/Tests/Levels.antt =====
-- Universe levels at work: u, v + 2 and their maximum.
use lean.Base.{[], max, refl, some, ℕ, ◌+◌, ◌∷◌, ◌≡◌}
use lean.Kernel.Level.{Level, Levels, uvar, lift, maximum, nil, cons, level_eq, level_max, plus}
use lean.Kernel.Level.Value.{value, value-level_max}
use lean.Kernel.Level.Plus.{value-plus}
use lean.Kernel.Level.Canonical.{IsCanonical, level_max-IsCanonical}
use lean.Util.Arith.{safe_add}
use lean.Util.Name.{Name, anonymous, str}

abbrev u : Level
u = uvar (str anonymous (117 ∷ []))

abbrev v : Level
v = lift (uvar (str anonymous (118 ∷ []))) 2

abbrev both : Level
both = maximum (cons u (cons v nil))

abbrev both_plus : Level
both_plus = maximum (cons (lift u 3) (cons (lift (uvar (str anonymous (118 ∷ []))) 5) nil))

abbrev ones : Name → ℕ
ones n = 1

value-level_max_example : value ones (level_max u both) ≡ max (value ones u) (value ones both)
value-level_max_example = value-level_max ones u both

raised : plus both 3 ≡ some both_plus
unfolding plus safe_add
raised = refl

value-plus_example : value ones both_plus ≡ value ones both + 3
value-plus_example = value-plus both 3 both_plus ones (tt, (tt, (tt, tt))) raised

joined : level_max u v ≡ both
unfolding level_max lean.Kernel.Level.finish lean.Kernel.Level.push_all lean.Kernel.Level.push_back
    lean.Kernel.Level.is_bottom lean.Kernel.Level.push_entry lean.Util.Name.name_eq
    lean.Util.Name.stored_hash lean.Util.Hash.hash_str level_eq
joined = refl

level_max-IsCanonical_example : IsCanonical (level_max u v)
level_max-IsCanonical_example = level_max-IsCanonical u v tt tt
