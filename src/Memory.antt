-- ===== src/Memory.antt =====
-- producer.c: what `worker_thread` does to the document of the memory, while it holds the semaphore.
pub mod Laws
pub mod Names
use so_pr2_synchronization.Base.{
  ℕ, Option, none, some, List, ℤ, ◌+ℤ◌, ◌-ℤ◌, Text, codes, print_decimal, set, ◌++◌,
}
use so_pr2_synchronization.Json.{Parson, array_get_object, get_int}

-- `str_process_id`
unfoldable pub process_name : ℕ → Text
process_name process_id = print_decimal process_id

-- `str`: the path of the process in the object of its partition
unfoldable pub process_path : Text → Text
process_path name = codes "processes." ++ name

module _ (P : Parson) where
  open P use {
    Value, Object, of_int, of_object, init_object, object_get_object, object_set_number,
    object_set_value, object_dotremove,
  }

  -- `sub_schema`
  unfoldable pub process_object : ℤ → ℤ → Object
  process_object process_size process_delay =
      object_set_number (object_set_number init_object (codes "size") (of_int process_size))
        (codes "delay") (of_int process_delay)

  -- The object of the partition that takes the process, from its `free_space` to the new entry of
  -- `processes`.
  unfoldable pub take_space : Object → ℤ → ℤ → Text → Object
  unfolding process_object
  take_space root_object process_size process_delay name =
      let free = get_int P (some root_object) (codes "free_space") in
      let spent =
        object_set_number root_object (codes "free_space") (of_int (free -ℤ process_size)) in
      elim (object_get_object spent (codes "processes")) [
        | none ↦ spent
        | some pro_obj ↦ object_set_value spent (codes "processes") (
            of_object (
              object_set_value pro_obj name
                (of_object (process_object process_size process_delay))))
      ]

  unfoldable pub give_back_space : Object → ℤ → Text → Object
  unfolding process_path
  give_back_space root_object process_size name =
      let free = get_int P (some root_object) (codes "free_space") in
      object_dotremove
        (object_set_number root_object (codes "free_space") (of_int (free +ℤ process_size)))
        (process_path name)

  -- A write to the object at an index of the array; a NULL object takes no write.
  abbrev pub at_index : (Object → Object) → List Value → ℕ → List Value
  at_index change mem_arr i = elim (array_get_object P mem_arr i) [
    | none ↦ mem_arr
    | some root_object ↦ set mem_arr i (of_object (change root_object))
  ]

  -- The new document after a partition has been found.
  unfoldable pub allocate : List Value → ℕ → ℤ → ℤ → Text → List Value
  unfolding take_space
  allocate mem_arr mem_index process_size process_delay name =
      at_index (λ root. take_space root process_size process_delay name) mem_arr mem_index

  -- The new document after the delay.
  unfoldable pub give_back : List Value → ℕ → ℤ → Text → List Value
  unfolding give_back_space
  give_back mem_arr mem_index process_size name =
      at_index (λ root. give_back_space root process_size name) mem_arr mem_index
