-- ===== src/Tests/Names.antt =====
-- Names at work: a.b, c.1 and their joins.
use lean.Base.{[], false, refl, true, ◌↔◌, ◌∷◌, ◌≡◌}
use lean.Util.Name.{Name, anonymous, str, num, name_eq}
use lean.Util.Name.Equality.{name_eq_iff}

abbrev pub name_ab : Name
name_ab = str (str anonymous (97 ∷ [])) (98 ∷ [])

abbrev pub name_c1 : Name
name_c1 = num (str anonymous (99 ∷ [])) 1

name_eq_iff_example : (name_eq name_ab name_c1 ≡ true) ↔ (name_ab ≡ name_c1)
name_eq_iff_example = name_eq_iff name_ab name_c1

-- The two names are different, as they should be.
different : name_eq name_ab name_c1 ≡ false
unfolding name_eq
different = refl
