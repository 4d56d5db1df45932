-- ===== src/Demonstration/Laws.antt =====
-- main.c: what the two texts say that it prints.
use so_pr2_synchronization.Base.{
  ◌≡◌, refl, ap, ◌∙◌, ◌⊎◌, inl, inr, ℕ, true, false, ◌<◌, ◌^◌, none, some, Option-cases, List, [],
  ◌∷◌, pos, Text, codes, text_eq, arith,
}
use so_pr2_synchronization.Json.{Parson, IsLawful, get_array, array_get_object, get_int}
use so_pr2_synchronization.System.Progress.{CanWrite}
use so_pr2_synchronization.Demonstration.{
  StringCalls, IsLawfulString, faults, prints, schema_process, schema, root_value, parsed_text,
  array_get_count, serialization_example,
}

module _ (P : Parson) (calls : StringCalls P) where
  -- The document that a text holds.
  pub record IsDemo (text : Text) : Type 0 where
    pub arr : List P.Value
    pub parses : get_array P (P.parse_string text) ≡ some arr
    pub part : P.Object
    pub is_part : array_get_object P arr 0 ≡ some part
    pub tamanio : get_int P (some part) (codes "tamanio") ≡ pos 10
    pub disponible : get_int P (some part) (codes "disponible") ≡ pos 3
    pub procesos : List P.Value
    pub has_procesos : calls.object_get_array part (codes "procesos") ≡ some procesos
    pub process : P.Object
    pub is_process : array_get_object P procesos 0 ≡ some process
    pub nombre : calls.object_get_string process (codes "nombre") ≡ some (codes "P1")
    pub utiliza : get_int P (some process) (codes "utiliza") ≡ pos 5
    pub duracion : get_int P (some process) (codes "duracion") ≡ pos 30

module _ (P : Parson) (L : IsLawful P) (can : CanWrite P) (calls : StringCalls P)
    (S : IsLawfulString P calls) where
  open P use {of_object}

  get_int-set_self :
      (o : P.Object) (k : Text) (n : ℕ)
      → text_eq k k ≡ true
      → n < 2 ^ 31
      → get_int P (some (P.object_set_number o k (P.of_int (pos n)))) k ≡ pos n
  get_int-set_self o k n same small =
      rw (get_int, L.get_number-set_number o k k (P.of_int (pos n)), same) (L.to_int-of_int n small)

  get_int-set_other :
      (o : P.Object) (k j : Text) (x : P.Double)
      → text_eq k j ≡ false
      → get_int P (some (P.object_set_number o k x)) j ≡ get_int P (some o) j
  get_int-set_other o k j x e = rw (get_int, L.get_number-set_number o k j x, e)

  get_int-set_array :
      (o : P.Object) (k j : Text) (vs : List P.Value)
      → text_eq k j ≡ false
      → get_int P (some (P.object_set_value o k (P.of_array vs))) j ≡ get_int P (some o) j
  get_int-set_array o k j vs e = ap P.to_int (S.get_number-set_array o k j vs e)

  root_value-IsDemo :
      (text : Text)
      → P.serialize_to_string_pretty (root_value P calls) ≡ some text
      → IsDemo P calls text
  unfolding text_eq
  root_value-IsDemo text e = record {
    arr = of_object (schema P calls) ∷ [];
    parses = ap (get_array P) (L.parse-pretty (root_value P calls) text e) ∙ L.get_array-of_array _;
    part = schema P calls;
    is_part = L.get_object-of_object _;
    tamanio =
        get_int-set_array _ (codes "procesos") (codes "tamanio") _ refl
        ∙ get_int-set_other _ (codes "disponible") (codes "tamanio") _ refl
        ∙ get_int-set_self _ (codes "tamanio") 10 refl (omega arith);
    disponible =
        get_int-set_array _ (codes "procesos") (codes "disponible") _ refl
        ∙ get_int-set_self _ (codes "disponible") 3 refl (omega arith);
    procesos = of_object (schema_process P calls) ∷ [];
    has_procesos = S.get_array-set_array _ _ _;
    process = schema_process P calls;
    is_process = L.get_object-of_object _;
    nombre =
        S.get_string-set_number _ (codes "duracion") (codes "nombre") _ refl
        ∙ S.get_string-set_number _ (codes "utiliza") (codes "nombre") _ refl
        ∙ S.get_string-set_string _ (codes "nombre") (codes "P1");
    utiliza =
        get_int-set_other _ (codes "duracion") (codes "utiliza") _ refl
        ∙ get_int-set_self _ (codes "utiliza") 5 refl (omega arith);
    duracion = get_int-set_self _ (codes "duracion") 30 refl (omega arith);
  }

  -- If the library can write every document, the first text that is printed holds the document with
  -- the partition, its process and their numbers. If the fixed text is none of JSON, the program then
  -- faults; otherwise the second text holds the document of the fixed text, and the number is that of
  -- the elements of its array, 0 if it is no array.
  pub serialization_example_lem :
      (first : Text) × IsDemo P calls first
      × (((P.parse_string parsed_text ≡ none)
            × (serialization_example P calls ≡ faults (first ∷ [])))
          ⊎ ((v : P.Value) × (P.parse_string parsed_text ≡ some v)
              × (second : Text) × (P.parse_string second ≡ some v)
              × (serialization_example P calls
                  ≡ prints (first ∷ second ∷ []) (array_get_count P (P.value_get_array v)))))
  unfolding serialization_example
  serialization_example_lem =
      let (first, written) = can.writes_pretty (root_value P calls) in
      (
        first,
        root_value-IsDemo first written,
        elim (Option-cases (P.parse_string parsed_text)) [
          | inl e ↦ inl (e, rw (serialization_example, written, e))
          | inr (v, e) ↦
              let (second, shown) = can.writes_pretty v in
              inr (
                v,
                e,
                second,
                L.parse-pretty v second shown,
                rw (serialization_example, written, e, shown),
              )
        ],
      )
