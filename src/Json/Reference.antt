-- ===== src/Json/Reference.antt =====
-- A JSON library in which the assumptions of `Json` hold: documents are trees, and a text is the
-- list of the steps of a stack machine that builds its document. It stands in for lib/parson.c
-- where a theorem is run, and shows that the assumptions agree with one another.
pub mod Code
pub mod Fields
pub mod Lawful
use so_pr2_synchronization.Base.{Option, none, some, Text, codes, text_eq, ℤ, if◌then◌else◌}
use so_pr2_synchronization.Json.{Parson}
use so_pr2_synchronization.Json.Reference.Code.{Value, null, num, obj, arr, nil, write, read}
use so_pr2_synchronization.Json.Reference.Fields.{
  of_list, get_array, get_object, find, put, remove, dotremove, to_bool, to_number, to_object,
}

-- The text `{}` of the source is read as JSON has it; the library does not write it.
unfoldable pub parse_text : Text → Option Value
parse_text t = elim (read t) [
  | some v ↦ some v
  | none ↦ if text_eq t (codes "{}") then some (obj nil) else none
]

abbrev pub reference : Parson
reference = record {
  Value = Value;
  Object = Value;
  Double = ℤ;
  to_int = λ z. z;
  of_int = λ z. z;
  parse_string = parse_text;
  serialize_to_string = λ v. some (write v);
  serialize_to_string_pretty = λ v. some (write v);
  value_get_array = get_array;
  value_get_object = get_object;
  of_array = λ vs. arr (of_list vs);
  of_object = obj;
  init_object = nil;
  value_equals = λ v w. text_eq (write v) (write w);
  object_has_value = λ o k. to_bool (find o k);
  object_get_number = λ o k. to_number (find o k);
  object_get_object = λ o k. to_object (find o k);
  object_set_number = λ o k z. put o k (num z);
  object_set_null = λ o k. put o k null;
  object_set_value = put;
  object_remove = remove;
  object_dotremove = dotremove;
}
