-- ===== src/Demonstration.antt =====
-- main.c: a document is built and printed, and a fixed text is parsed and printed again.
pub mod Laws
use so_pr2_synchronization.Base.{
  ℕ, ◌≡◌, Option, none, some, List, [], ◌∷◌, ◌++◌, length, pos, Text, codes, text_eq, false,
}
use so_pr2_synchronization.Json.{Parson}

-- The calls of lib/parson.h that only this program makes.
pub record StringCalls (P : Parson) : Type 0 where
  pub object_set_string : P.Object → Text → Text → P.Object
  pub object_get_string : P.Object → Text → Option Text
  pub object_get_array : P.Object → Text → Option (List P.Value)

-- Their documented behaviour.
pub record IsLawfulString (P : Parson) (calls : StringCalls P) : Type 0 where
  pub get_string-set_string :
      (o : P.Object) (k s : Text)
      → calls.object_get_string (calls.object_set_string o k s) k ≡ some s
  pub get_string-set_number :
      (o : P.Object) (k j : Text) (x : P.Double)
      → text_eq k j ≡ false
      → calls.object_get_string (P.object_set_number o k x) j ≡ calls.object_get_string o j
  pub get_number-set_array :
      (o : P.Object) (k j : Text) (vs : List P.Value)
      → text_eq k j ≡ false
      → P.object_get_number (P.object_set_value o k (P.of_array vs)) j ≡ P.object_get_number o j
  pub get_array-set_array :
      (o : P.Object) (k : Text) (vs : List P.Value)
      → calls.object_get_array (P.object_set_value o k (P.of_array vs)) k ≡ some vs

module _ (P : Parson) (calls : StringCalls P) where
  open P use {
    Value, Object, init_object, object_set_number, object_set_value, of_object, of_array, of_int,
  }

  abbrev pub schema_process : Object
  schema_process =
      object_set_number
        (object_set_number (calls.object_set_string init_object (codes "nombre") (codes "P1"))
          (codes "utiliza") (of_int (pos 5)))
        (codes "duracion") (of_int (pos 30))

  -- json_array_append_value
  abbrev pub append_value : List Value → Value → List Value
  append_value arr v = arr ++ (v ∷ [])

  abbrev pub schema : Object
  schema =
      object_set_value
        (object_set_number (object_set_number init_object (codes "tamanio") (of_int (pos 10)))
          (codes "disponible") (of_int (pos 3)))
        (codes "procesos") (of_array (append_value [] (of_object schema_process)))

  abbrev pub root_value : Value
  root_value = of_array (append_value [] (of_object schema))

-- What is printed: a fault, a `puts` of NULL, is behind the texts that are printed by then.
pub data Printing : Type 0 where
  faults : (printed : List Text) → Printing
  prints : (printed : List Text) (count : ℕ) → Printing

abbrev pub parsed_text : Text
parsed_text =
    codes
      "[{\"tamanio\":10,\"disponible\":3,\"procesos\":[{\"name\":\"P1\",\"utiliza\":5,\"tiempo\":30}]},{\"tamanio\":5,\"disponible\":2,\"procesos\":[{\"name\":\"P2\",\"utiliza\":3,\"tiempo\":37}]}]"

module _ (P : Parson) where
  -- json_array_get_count, of a pointer that may be NULL
  abbrev pub array_get_count : Option (List P.Value) → ℕ
  array_get_count none = 0
  array_get_count (some arr) = length arr

  -- json_serialize_to_string_pretty, of a pointer that may be NULL
  abbrev pub serialized : Option P.Value → Option Text
  serialized none = none
  serialized (some v) = P.serialize_to_string_pretty v

  abbrev pub print_count : Text → Option P.Value → Option Text → Printing
  print_count first test_value none = faults (first ∷ [])
  print_count first none (some second) = prints (first ∷ second ∷ []) 0
  print_count first (some v) (some second) =
      prints (first ∷ second ∷ []) (array_get_count (P.value_get_array v))

  abbrev pub print_both : Option P.Value → Option Text → Printing
  print_both test_value none = faults []
  print_both test_value (some first) = print_count first test_value (serialized test_value)

  unfoldable pub serialization_example : StringCalls P → Printing
  serialization_example calls =
      print_both (P.parse_string parsed_text) (P.serialize_to_string_pretty (root_value P calls))
