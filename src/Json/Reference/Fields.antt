-- ===== src/Json/Reference/Fields.antt =====
-- The queries and changes of the reference library.
use so_pr2_synchronization.Base.{
  ◌≡◌, refl, ap, Bool, true, false, Option, none, some, List, [], ◌∷◌, ◌++◌, ℤ, pos, Text, text_eq,
  text_eq_iff, Lacks, ◌==◌, if◌then◌else◌, arith,
}
use so_pr2_synchronization.Json.Reference.Code.{Value, num, obj, arr, nil, entry}

unfoldable pub elements : Value → List Value
elements (entry k v r) = v ∷ elements r
elements _ = []

unfoldable pub of_list : List Value → Value
of_list [] = nil
of_list (v ∷ vs) = entry [] v (of_list vs)

pub elements-of_list : (vs : List Value) → elements (of_list vs) ≡ vs
unfolding elements of_list
elements-of_list [] = refl
elements-of_list (v ∷ vs) = ap (λ l. v ∷ l) (elements-of_list vs)

unfoldable pub get_array : Value → Option (List Value)
unfolding elements
get_array (arr is) = some (elements is)
get_array _ = none

unfoldable pub get_object : Value → Option Value
get_object (obj fs) = some fs
get_object _ = none

-- The value under a key of a chain of entries.
unfoldable pub find : Value → Text → Option Value
find (entry j v r) k = if text_eq j k then some v else find r k
find _ k = none

unfoldable pub put : Value → Text → Value → Value
put (entry j w r) k v = if text_eq j k then entry k v r else entry j w (put r k v)
put _ k v = entry k v nil

unfoldable pub remove : Value → Text → Value
remove (entry j w r) k = let rest = remove r k in if text_eq j k then rest else entry j w rest
remove v k = v

pub find-put :
    (o : Value) (k j : Text) (v : Value)
    → find (put o k v) j ≡ (if text_eq k j then some v else find o j)
unfolding find put
find-put (entry i w r) k j v =
    ground (arith, text_eq_iff k j, text_eq_iff i k, text_eq_iff i j, find-put r k j v)
find-put _ k j v = refl

pub find-remove :
    (o : Value) (k j : Text) → find (remove o k) j ≡ (if text_eq k j then none else find o j)
unfolding find remove
find-remove (entry i w r) k j =
    ground (arith, text_eq_iff k j, text_eq_iff i k, text_eq_iff i j, find-remove r k j)
find-remove _ k j = ground arith

abbrev pub to_bool : Option Value → Bool
to_bool none = false
to_bool (some v) = true

abbrev pub to_number : Option Value → ℤ
to_number (some (num z)) = z
to_number _ = pos 0

abbrev pub to_object : Option Value → Option Value
to_object (some (obj fs)) = some fs
to_object _ = none

-- The texts before and after the first dot.
split : Text → Option (Text × Text)
split [] = none
split (c ∷ s) =
    let rest = split s in
    if c == b'.' then some ([], s) else elim rest [ none ↦ none | some (a, b) ↦ some (c ∷ a, b) ]

split-append : (a b : Text) → Lacks b'.' a → split (a ++ (b'.' ∷ b)) ≡ some (a, b)
unfolding split
split-append [] b h = refl
split-append (c ∷ a) b h = rw (split-append a b h.1) (ground arith)

-- One dot is followed; the program writes no path with more.
unfoldable pub dotremove : Value → Text → Value
unfolding split find remove put
dotremove o path = elim (split path) [
  | none ↦ remove o path
  | some (a, b) ↦ elim (to_object (find o a)) [ none ↦ o | some c ↦ put o a (obj (remove c b)) ]
]

pub dotremove_split :
    (o c : Value) (a b : Text)
    → Lacks b'.' a
    → to_object (find o a) ≡ some c
    → dotremove o (a ++ (b'.' ∷ b)) ≡ put o a (obj (remove c b))
unfolding dotremove
dotremove_split o c a b h e = rw (dotremove, split-append a b h, e)
