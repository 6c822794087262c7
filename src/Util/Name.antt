-- ===== src/Util/Name.antt =====
-- util/name.h and util/name.cpp: hierarchical names. A name is a chain of limbs, the last one
-- outermost, as `imp` and its `m_prefix`; the null pointer is `anonymous`. Strings are lists of
-- bytes. The cached `m_hash` is a function of the chain, and is computed.
pub mod Equality
pub mod Order
pub mod Append
use lean.Base.{
  ℕ, ◌+◌, Bool, true, false, ◌&&◌, not, List, [], ◌∷◌, ◌++◌, reverse, Ordering, compare, ltb, ◌==◌,
  length, if◌then◌else◌,
}
use lean.Util.Hash.{hash, hash_str}
use lean.Base.{lex}

pub data Name : Type 0 where
  anonymous : Name
  str : Name → List ℕ → Name
  num : Name → ℕ → Name

-- One link of the chain, without its prefix.
pub data Limb : Type 0 where
  text : List ℕ → Limb
  numeral : ℕ → Limb

-- The field `m_hash`, as the constructors fill it; 0 stands for the hash of a missing prefix.
unfoldable pub stored_hash : Name → ℕ
stored_hash anonymous = 0
stored_hash (str p s) = hash_str s (stored_hash p)
stored_hash (num anonymous k) = k
stored_hash (num p k) = hash (stored_hash p) k

unfoldable pub name_hash : Name → ℕ
unfolding stored_hash
name_hash anonymous = 11
name_hash n = stored_hash n

-- `strcmp`, on bytes.
unfoldable pub strcmp : List ℕ → List ℕ → Ordering
unfolding lex
strcmp = lex compare

abbrev pub is_eq : Ordering → Bool
is_eq Ordering.eq = true
is_eq _ = false

-- `operator==`: the two chains are walked together, and a difference of the hashes ends the walk.
unfoldable pub name_eq : Name → Name → Bool
unfolding strcmp
name_eq anonymous anonymous = true
name_eq (str p s) (str q t) =
    let rest = name_eq p q in
    (stored_hash (str p s) == stored_hash (str q t)) && (is_eq (strcmp s t) && rest)
name_eq (num p j) (num q k) =
    let rest = name_eq p q in (stored_hash (num p j) == stored_hash (num q k)) && ((j == k) && rest)
name_eq _ _ = false

-- `copy_limbs`: push the links from the last to the first, then reverse.
push_limbs : Name → List Limb
push_limbs anonymous = []
push_limbs (str p s) = text s ∷ push_limbs p
push_limbs (num p k) = numeral k ∷ push_limbs p

unfoldable pub copy_limbs : Name → List Limb
unfolding push_limbs
copy_limbs n = reverse (push_limbs n)

-- The body of the loop of `cmp`, and the loop.
unfoldable pub cmp_limb : Limb → Limb → Ordering
cmp_limb (text s) (text t) = strcmp s t
cmp_limb (text s) (numeral k) = Ordering.gt
cmp_limb (numeral k) (text t) = Ordering.lt
cmp_limb (numeral j) (numeral k) =
    if j == k then Ordering.eq else if ltb j k then Ordering.lt else Ordering.gt

unfoldable pub cmp_limbs : List Limb → List Limb → Ordering
unfolding lex cmp_limb strcmp
cmp_limbs = lex cmp_limb

unfoldable pub cmp : Name → Name → Ordering
unfolding copy_limbs cmp_limbs
cmp a b = cmp_limbs (copy_limbs a) (copy_limbs b)

-- `quick_cmp`, apart from its test for equal pointers.
unfoldable pub quick_cmp : Name → Name → Ordering
unfolding name_hash
quick_cmp a b =
    if name_hash a == name_hash b
    then cmp a b
    else if ltb (name_hash a) (name_hash b)
    then Ordering.lt
    else Ordering.gt

unfoldable pub limb_eq : Limb → Limb → Bool
limb_eq (text s) (text t) = is_eq (strcmp s t)
limb_eq (numeral j) (numeral k) = j == k
limb_eq _ _ = false

-- The loop of `is_prefix_of`, over the limbs of the first name.
unfoldable pub all_limbs_eq : List Limb → List Limb → Bool
unfolding limb_eq strcmp
all_limbs_eq [] ys = true
all_limbs_eq (x ∷ xs) [] = false
all_limbs_eq (x ∷ xs) (y ∷ ys) = limb_eq x y && all_limbs_eq xs ys

unfoldable pub is_prefix_of : Name → Name → Bool
unfolding copy_limbs all_limbs_eq name_hash
is_prefix_of n1 n2 =
    let limbs1 = copy_limbs n1 in
    let limbs2 = copy_limbs n2 in
    if ltb (length limbs2) (length limbs1)
    then false
    else if (length limbs1 == length limbs2) && not (name_hash n1 == name_hash n2)
    then false
    else all_limbs_eq limbs1 limbs2

-- `operator+`: the limbs of the second name are put after those of the first.
unfoldable pub append_name : Name → Name → Name
append_name n1 anonymous = n1
append_name anonymous n2 = n2
append_name n1 (str anonymous s) = str n1 s
append_name n1 (str p s) = str (append_name n1 p) s
append_name n1 (num anonymous k) = num n1 k
append_name n1 (num p k) = num (append_name n1 p) k
