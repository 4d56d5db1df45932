-- ===== src/Json.antt =====
-- lib/parson.h: the calls of the JSON library that the program makes, as an interface.
--
-- A `JSON_Value *`, `JSON_Object *` or `JSON_Array *` that is not NULL is a `Value`, an `Object` or
-- a list of values; NULL is `none`. A pointer into a document is the part that it points to, and
-- a write through it puts the changed part back in its place with `of_object` and `of_array`.
pub mod Reference
use so_pr2_synchronization.Base.{
  ℕ, ◌^◌, ◌<◌, ◌≡◌, Bool, true, false, Option, none, some, List, ℤ, pos, Text, text_eq, Lacks,
  get_elem?, ◌++◌, ◌∷◌, if◌then◌else◌,
}

pub record Parson : Type 1 where
  pub Value : Type 0
  pub Object : Type 0
  pub Double : Type 0
  -- the conversions between `int` and `double` that C makes
  pub to_int : Double → ℤ
  pub of_int : ℤ → Double
  pub parse_string : Text → Option Value
  pub serialize_to_string : Value → Option Text
  pub serialize_to_string_pretty : Value → Option Text
  pub value_get_array : Value → Option (List Value)
  pub value_get_object : Value → Option Object
  pub of_array : List Value → Value
  -- json_object_get_wrapping_value
  pub of_object : Object → Value
  pub init_object : Object
  pub value_equals : Value → Value → Bool
  pub object_has_value : Object → Text → Bool
  pub object_get_number : Object → Text → Double
  pub object_get_object : Object → Text → Option Object
  pub object_set_number : Object → Text → Double → Object
  pub object_set_null : Object → Text → Object
  pub object_set_value : Object → Text → Value → Object
  pub object_remove : Object → Text → Object
  pub object_dotremove : Object → Text → Object

module _ (P : Parson) where
  open P use {
    Value, Object, to_int, value_get_array, value_get_object, object_get_number, object_get_object,
    object_set_number, object_set_value, of_object, object_remove,
  }

  -- Calls on a pointer that may be NULL.
  abbrev pub get_array : Option Value → Option (List Value)
  get_array none = none
  get_array (some v) = value_get_array v

  abbrev pub get_object : Option Value → Option Object
  get_object none = none
  get_object (some v) = value_get_object v

  -- json_array_get_object
  abbrev pub array_get_object : List Value → ℕ → Option Object
  array_get_object arr i = get_object (get_elem? arr i)

  -- `int n = json_object_get_number(object, name);`
  abbrev pub get_int : Option Object → Text → ℤ
  get_int none name = pos 0
  get_int (some o) name = to_int (object_get_number o name)

  abbrev pub child : Option Object → Text → Option Object
  child none name = none
  child (some o) name = object_get_object o name

  -- What the program relies on: the documented behaviour of the library. A number that is not whole is
  -- written with six digits, so a `Value` stands for the documents that the programs make, whose
  -- numbers are whole.
  pub record IsLawful : Type 0 where
    -- a double holds every int
    pub to_int-of_int : (n : ℕ) → n < 2 ^ 31 → to_int (P.of_int (pos n)) ≡ pos n
    pub parse-serialize :
        (v : Value) (t : Text) → P.serialize_to_string v ≡ some t → P.parse_string t ≡ some v
    pub parse-pretty :
        (v : Value) (t : Text) → P.serialize_to_string_pretty v ≡ some t → P.parse_string t ≡ some v
    pub serialize-Lacks : (v : Value) (t : Text) → P.serialize_to_string v ≡ some t → Lacks 0 t
    pub get_array-of_array : (vs : List Value) → value_get_array (P.of_array vs) ≡ some vs
    pub get_object-of_object : (o : Object) → value_get_object (of_object o) ≡ some o
    pub get_number-set_number :
        (o : Object) (k j : Text) (x : P.Double)
        → object_get_number (object_set_number o k x) j
          ≡ (if text_eq k j then x else object_get_number o j)
    pub get_object-set_number :
        (o : Object) (k j : Text) (x : P.Double)
        → object_get_object (object_set_number o k x) j
          ≡ (if text_eq k j then none else object_get_object o j)
    -- a value that is an object is no number
    pub get_number-set_object :
        (o : Object) (k j : Text) (c : Object)
        → text_eq k j ≡ false
        → object_get_number (object_set_value o k (of_object c)) j ≡ object_get_number o j
    pub get_object-set_object :
        (o : Object) (k j : Text) (c : Object)
        → object_get_object (object_set_value o k (of_object c)) j
          ≡ (if text_eq k j then some c else object_get_object o j)
    pub get_object-remove :
        (o : Object) (k j : Text)
        → object_get_object (object_remove o k) j
          ≡ (if text_eq k j then none else object_get_object o j)
    -- the dot notation of lib/parson.h: `a.b` names `b` in the object `a`
    pub dotremove_lem :
        (o c : Object) (a b : Text)
        → Lacks b'.' a
        → Lacks b'.' b
        → object_get_object o a ≡ some c
        → P.object_dotremove o (a ++ (b'.' ∷ b))
          ≡ object_set_value o a (of_object (object_remove c b))
    pub has_value-set_null :
        (o : Object) (k j : Text)
        → P.object_has_value (P.object_set_null o k) j
          ≡ (if text_eq k j then true else P.object_has_value o j)
    pub has_value-remove :
        (o : Object) (k j : Text)
        → P.object_has_value (object_remove o k) j
          ≡ (if text_eq k j then false else P.object_has_value o j)
