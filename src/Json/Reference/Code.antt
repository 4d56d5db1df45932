-- ===== src/Json/Reference/Code.antt =====
-- The trees of the reference library, and the code in which they are written.
use so_pr2_synchronization.Base.{
  ℕ, zero, suc, ◌≡◌, refl, sym, ap, ◌∙◌, List, [], ◌∷◌, ◌++◌, Option, none, some, ℤ, pos, negsuc,
  Text, Lacks, Lacks-append, arith,
}
use mathlib.Core.List.{append-nil, append_assoc}

-- An array and an object are chains of entries; the keys of an array are empty.
pub data Value : Type 0 where
  null : Value
  num : ℤ → Value
  obj : Value → Value
  arr : Value → Value
  nil : Value
  entry : Text → Value → Value → Value

pub data Item : Type 0 where
  key : Text → Item
  val : Value → Item

-- Steps 1 to 8 build a value or begin a key; any other adds a character to the key.
step : ℕ → List Item → Option (List Item)
step zero st = none
step (suc zero) st = some (val null ∷ st)
step (suc (suc zero)) st = some (val nil ∷ st)
step (suc (suc (suc zero))) (key (n ∷ []) ∷ st) = some (val (num (pos n)) ∷ st)
step (suc (suc (suc (suc zero)))) (key (n ∷ []) ∷ st) = some (val (num (negsuc n)) ∷ st)
step (suc (suc (suc (suc (suc zero))))) (val v ∷ st) = some (val (obj v) ∷ st)
step (suc (suc (suc (suc (suc (suc zero)))))) (val v ∷ st) = some (val (arr v) ∷ st)
step (suc (suc (suc (suc (suc (suc (suc zero))))))) st = some (key [] ∷ st)
step (suc (suc (suc (suc (suc (suc (suc (suc zero)))))))) (key k ∷ val r ∷ val v ∷ st) =
    some (val (entry k v r) ∷ st)
step (suc (suc (suc (suc (suc (suc (suc (suc (suc c))))))))) (key k ∷ st) =
    some (key (k ++ (c ∷ [])) ∷ st)
step _ _ = none

run : Text → List Item → Option (List Item)
run [] st = some st
run (c ∷ s) st = elim (step c st) [ none ↦ none | some next ↦ run s next ]

abbrev character : ℕ → ℕ
character c = suc (suc (suc (suc (suc (suc (suc (suc (suc c))))))))

abbrev characters : Text → Text
characters [] = []
characters (c ∷ k) = character c ∷ characters k

unfoldable pub write : Value → Text
write null = 1 ∷ []
write nil = 2 ∷ []
write (num (pos n)) = 7 ∷ character n ∷ 3 ∷ []
write (num (negsuc n)) = 7 ∷ character n ∷ 4 ∷ []
write (obj v) = write v ++ (5 ∷ [])
write (arr v) = write v ++ (6 ∷ [])
write (entry k v r) = write v ++ (write r ++ (7 ∷ (characters k ++ (8 ∷ []))))

abbrev top : Option (List Item) → Option Value
top (some (val v ∷ [])) = some v
top _ = none

unfoldable pub read : Text → Option Value
unfolding run step
read s = top (run s [])

run-characters :
    (k t rest : Text) (st : List Item)
    → run (characters k ++ rest) (key t ∷ st) ≡ run rest (key (t ++ k) ∷ st)
unfolding run step
run-characters [] t rest st = rw append-nil
run-characters (c ∷ k) t rest st = run-characters k (t ++ (c ∷ [])) rest st ∙ rw append_assoc

run-write :
    (v : Value) (rest : Text) (st : List Item) → run (write v ++ rest) st ≡ run rest (val v ∷ st)
unfolding run step write
run-write null rest st = refl
run-write nil rest st = refl
run-write (num (pos n)) rest st = refl
run-write (num (negsuc n)) rest st = refl
run-write (obj v) rest st = rw append_assoc (run-write v (5 ∷ rest) st)
run-write (arr v) rest st = rw append_assoc (run-write v (6 ∷ rest) st)
run-write (entry k v r) rest st =
    let tail : Text = characters k ++ (8 ∷ []) in
    let split : (write v ++ (write r ++ (7 ∷ tail))) ++ rest
        ≡ write v ++ (write r ++ (7 ∷ (characters k ++ (8 ∷ rest)))) =
      simp append_assoc in
    ap (λ s. run s st) split
    ∙ run-write v (write r ++ (7 ∷ (characters k ++ (8 ∷ rest)))) st
    ∙ run-write r (7 ∷ (characters k ++ (8 ∷ rest))) (val v ∷ st)
    ∙ run-characters k [] (8 ∷ rest) (val r ∷ val v ∷ st)

pub read-write : (v : Value) → read (write v) ≡ some v
unfolding read
read-write v = ap top (ap (λ s. run s []) (sym (append-nil (write v))) ∙ run-write v [] [])

characters-Lacks : (k : Text) → Lacks 0 (characters k)
characters-Lacks [] = tt
characters-Lacks (c ∷ k) = (omega arith, characters-Lacks k)

pub write-Lacks : (v : Value) → Lacks 0 (write v)
unfolding write
write-Lacks null = omega arith
write-Lacks nil = omega arith
write-Lacks (num (pos n)) = omega arith
write-Lacks (num (negsuc n)) = omega arith
write-Lacks (obj v) = Lacks-append 0 (write v) _ (write-Lacks v) (omega arith)
write-Lacks (arr v) = Lacks-append 0 (write v) _ (write-Lacks v) (omega arith)
write-Lacks (entry k v r) = Lacks-append 0 (write v) _ (write-Lacks v) (
    Lacks-append 0 (write r) _ (write-Lacks r)
      (omega arith, Lacks-append 0 (characters k) _ (characters-Lacks k) (omega arith)))
