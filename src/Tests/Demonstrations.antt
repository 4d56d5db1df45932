-- ===== src/Tests/Demonstrations.antt =====
-- main.c and two samples of examples, at concrete inputs. The reference library writes a string as
-- the array of its characters.
use so_pr2_synchronization.Base.{
  ℕ, ◌*◌, ◌≡◌, ◌⊎◌, refl, ap, ◌∙◌, Option, none, some, List, [], ◌∷◌, pos, Text, text_eq_refl,
}
use so_pr2_synchronization.Json.Reference.{reference}
use so_pr2_synchronization.Json.Reference.Code.{Value, num, arr}
use so_pr2_synchronization.Json.Reference.Fields.{
  of_list, elements-of_list, get_array, find, put, find-put,
}
use so_pr2_synchronization.Json.Reference.Lawful.{reference-IsLawful}
use so_pr2_synchronization.Tests.Schema.{reference-CanWrite}
use so_pr2_synchronization.Demonstration.{
  StringCalls, IsLawfulString, faults, prints, parsed_text, array_get_count, serialization_example,
}
use so_pr2_synchronization.Demonstration.Laws.{IsDemo, serialization_example_lem}
use so_pr2_synchronization.Experiments.Clock.{Turn, clock_round, clock_at}

abbrev chars : Text → List Value
chars [] = []
chars (c ∷ s) = num (pos c) ∷ chars s

abbrev char : Value → ℕ
char (num (pos c)) = c
char _ = 0

abbrev string : List Value → Text
string [] = []
string (v ∷ vs) = char v ∷ string vs

abbrev to_array : Option Value → Option (List Value)
to_array none = none
to_array (some v) = get_array v

abbrev to_string : Option (List Value) → Option Text
to_string none = none
to_string (some vs) = some (string vs)

abbrev reference_strings : StringCalls reference
reference_strings = record {
  object_set_string = λ o k s. put o k (arr (of_list (chars s)));
  object_get_string = λ o k. to_string (to_array (find o k));
  object_get_array = λ o k. to_array (find o k);
}

string-chars : (s : Text) → string (chars s) ≡ s
string-chars [] = refl
string-chars (c ∷ s) = ap (λ t. c ∷ t) (string-chars s)

find-put_self : (o : Value) (k : Text) (v : Value) → find (put o k v) k ≡ some v
find-put_self o k v = rw (find-put o k k v, text_eq_refl k)

find-put_array :
    (o : Value) (k : Text) (vs : List Value)
    → to_array (find (put o k (arr (of_list vs))) k) ≡ some vs
unfolding get_array
find-put_array o k vs =
    ap to_array (find-put_self o k (arr (of_list vs))) ∙ ap some (elements-of_list vs)

reference-IsLawfulString : IsLawfulString reference reference_strings
reference-IsLawfulString = record {
  get_string-set_string =
      λ o k s. ap to_string (find-put_array o k (chars s)) ∙ ap some (string-chars s);
  get_string-set_number = λ o k j x e. rw (find-put o k j (num x), e);
  get_number-set_array = λ o k j vs e. rw (find-put o k j (arr (of_list vs)), e);
  get_array-set_array = find-put_array;
}

serialization_example_lem_example :
    (first : Text) × IsDemo reference reference_strings first
    × (((reference.parse_string parsed_text ≡ none)
          × (serialization_example reference reference_strings ≡ faults (first ∷ [])))
        ⊎ ((v : Value) × (reference.parse_string parsed_text ≡ some v)
            × (second : Text) × (reference.parse_string second ≡ some v)
            × (serialization_example reference reference_strings
                ≡ prints (first ∷ second ∷ []) (array_get_count reference (get_array v)))))
serialization_example_lem_example =
    serialization_example_lem reference reference-IsLawful reference-CanWrite reference_strings
      reference-IsLawfulString

abbrev turns : ℕ → Turn
turns i = record { rand = 5 * i; late_work = 0; late_sleep = 1 }

three_rounds : clock_at turns 100 3 ≡ 132
unfolding clock_at clock_round
three_rounds = refl
