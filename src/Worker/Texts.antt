-- ===== src/Worker/Texts.antt =====
-- producer.c: the texts that `worker_thread` makes from what it reads.
use so_pr2_synchronization.Base.{ℕ, Option, none, some, List, [], Text}
use so_pr2_synchronization.Json.{Parson, get_array}
use so_pr2_synchronization.Memory.{allocate, give_back}
use so_pr2_synchronization.Worker.Points.{Process}

module _ (P : Parson) where
  open P use {Value, Object, of_array, of_object, value_get_object}

  -- `json_parse_string` and `json_serialize_to_string` of what may be NULL
  abbrev pub parse : Option Text → Option Value
  parse none = none
  parse (some t) = P.parse_string t

  abbrev pub serialize : Option Value → Option Text
  serialize none = none
  serialize (some v) = P.serialize_to_string v

  -- `json_value_get_array(json_parse_string(data))`; NULL is an array with no elements.
  unfoldable pub array_of : Option Text → List Value
  array_of contents = elim (get_array P (parse contents)) [ none ↦ [] | some arr ↦ arr ]

  -- A change of the object that a document is; any other document stays as it is.
  abbrev pub on_object : (Object → Object) → Option Value → Option Value
  on_object change none = none
  on_object change (some v) = elim (value_get_object v) [
    | none ↦ some v
    | some o ↦ some (of_object (change o))
  ]

  -- The waiting list with the name of the process, and without it.
  unfoldable pub enlist : Option Text → Text → Option Text
  enlist data_waiting name =
      serialize (on_object (λ o. P.object_set_null o name) (parse data_waiting))

  unfoldable pub delist : Option Text → Text → Option Text
  delist data_waiting name =
      serialize (on_object (λ o. P.object_remove o name) (parse data_waiting))

  -- A change of the array that a document is.
  abbrev pub on_array : (List Value → List Value) → Option Value → Option Value
  on_array change none = none
  on_array change (some v) = elim (P.value_get_array v) [
    | none ↦ some v
    | some arr ↦ some (of_array (change arr))
  ]

  -- The memory after an allocation.
  unfoldable pub take_text : Option Text → ℕ → Process → Text → Option Text
  take_text contents mem_index p name = serialize (
      on_array (λ arr. allocate P arr mem_index p.process_size p.process_delay name)
        (parse contents))

  -- The memory after the return of the space.
  unfoldable pub give_back_text : Option Text → ℕ → Process → Text → Option Text
  give_back_text contents mem_index p name =
      serialize (on_array (λ arr. give_back P arr mem_index p.process_size name) (parse contents))
