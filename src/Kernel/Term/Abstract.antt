-- ===== src/Kernel/Term/Abstract.antt =====
-- Terms in which constants are replaced by variables: what `abstract` of kernel/abstract.cpp is for.
use lean.Base.{List, Option, [], none, refl, some, suc, ℕ, ◌+◌, ◌∷◌, ◌≡◌, if◌then◌else◌}
use lean.Kernel.Term.{
  Term, tvar, tconst, tvalue, tapp, tpair, tproj, tabs, ttype, tlet, tlet_untyped, theq,
}
use lean.Util.Name.{Name, name_eq}

abbrev pub next_place : Option ℕ → Option ℕ
next_place none = none
next_place (some j) = some (suc j)

-- The place of the first occurrence of a name.
abbrev pub place : List Name → Name → Option ℕ
place [] m = none
place (n ∷ ns) m = if name_eq n m then some 0 else next_place (place ns m)

abbrev pub name_term : Option ℕ → ℕ → Name → Term
name_term none k m = tconst m
name_term (some j) k m = tvar (k + j)

-- The term where the constants of the names are replaced by the variables from `k` on, in the order
-- of the list, which skip the binders of the term.
unfoldable pub abstract_term : List Name → ℕ → Term → Term
abstract_term ns k (tvar i) = tvar i
abstract_term ns k (tconst m) = name_term (place ns m) k m
abstract_term ns k (tvalue v) = tvalue v
abstract_term ns k (tapp f a) = tapp (abstract_term ns k f) (abstract_term ns k a)
abstract_term ns k (tpair a b t) =
    tpair (abstract_term ns k a) (abstract_term ns k b) (abstract_term ns k t)
abstract_term ns k (tproj i e) = tproj i (abstract_term ns k e)
abstract_term ns k (tabs b t e) = tabs b (abstract_term ns k t) (abstract_term ns (suc k) e)
abstract_term ns k (ttype l) = ttype l
abstract_term ns k (tlet t v b) =
    tlet (abstract_term ns k t) (abstract_term ns k v) (abstract_term ns (suc k) b)
abstract_term ns k (tlet_untyped v b) =
    tlet_untyped (abstract_term ns k v) (abstract_term ns (suc k) b)
abstract_term ns k (theq a b) = theq (abstract_term ns k a) (abstract_term ns k b)

-- The names do not occur in the term.
abbrev pub Avoids : List Name → Term → Type 0
Avoids ns (tvar i) = Unit
Avoids ns (tconst m) = place ns m ≡ none
Avoids ns (tvalue v) = Unit
Avoids ns (tapp f a) = Avoids ns f × Avoids ns a
Avoids ns (tpair a b t) = Avoids ns a × Avoids ns b × Avoids ns t
Avoids ns (tproj i e) = Avoids ns e
Avoids ns (tabs k t b) = Avoids ns t × Avoids ns b
Avoids ns (ttype l) = Unit
Avoids ns (tlet t v b) = Avoids ns t × Avoids ns v × Avoids ns b
Avoids ns (tlet_untyped v b) = Avoids ns v × Avoids ns b
Avoids ns (theq a b) = Avoids ns a × Avoids ns b

pub abstract_term-Avoids :
    (ns : List Name) (k : ℕ) (t : Term) → Avoids ns t → abstract_term ns k t ≡ t
unfolding abstract_term
abstract_term-Avoids ns k (tvar i) h = refl
abstract_term-Avoids ns k (tconst m) h = rw h refl
abstract_term-Avoids ns k (tvalue v) h = refl
abstract_term-Avoids ns k (tapp f a) h =
    cc (abstract_term-Avoids ns k f h.0, abstract_term-Avoids ns k a h.1)
abstract_term-Avoids ns k (tpair a b t) h = cc (
  abstract_term-Avoids ns k a h.0,
  abstract_term-Avoids ns k b h.1,
  abstract_term-Avoids ns k t h.2,
)
abstract_term-Avoids ns k (tproj i e) h = cc (abstract_term-Avoids ns k e h)
abstract_term-Avoids ns k (tabs b t e) h =
    cc (abstract_term-Avoids ns k t h.0, abstract_term-Avoids ns (suc k) e h.1)
abstract_term-Avoids ns k (ttype l) h = refl
abstract_term-Avoids ns k (tlet t v b) h = cc (
  abstract_term-Avoids ns k t h.0,
  abstract_term-Avoids ns k v h.1,
  abstract_term-Avoids ns (suc k) b h.2,
)
abstract_term-Avoids ns k (tlet_untyped v b) h =
    cc (abstract_term-Avoids ns k v h.0, abstract_term-Avoids ns (suc k) b h.1)
abstract_term-Avoids ns k (theq a b) h =
    cc (abstract_term-Avoids ns k a h.0, abstract_term-Avoids ns k b h.1)
