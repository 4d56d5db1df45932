-- ===== src/Experiments/Entries.antt =====
-- examples/producer_test.c: one allocation that is printed; examples/mmap/mapreadjson.c: the print of
-- the memory.
pub mod Laws
use so_pr2_synchronization.Base.{ℕ, true, Option, none, some, List, [], ℤ, Text, codes}
use so_pr2_synchronization.Json.{Parson}
use so_pr2_synchronization.Files.{File, Syscalls, ok, exit, read_file}
use so_pr2_synchronization.Algorithms.{Algorithm, search_index}
use so_pr2_synchronization.Memory.{process_name, process_path, process_object, take_space, at_index}
use so_pr2_synchronization.Worker.Texts.{parse, array_of, on_array}
use so_pr2_synchronization.Spy.{Report, exits, puts, spy_on_waiting}

module _ (P : Parson) where
  open P use {
    Value, Object, of_object, object_get_object, object_set_value, object_dotremove,
    serialize_to_string_pretty,
  }

  -- `puts(json_serialize_to_string_pretty(value))` of a value that may be NULL
  abbrev pub show : Option Value → Report
  show none = puts none
  show (some v) = puts (serialize_to_string_pretty v)

  -- `pro_obj` points into the partition, so the second entry goes where the first one was.
  unfoldable pub enter_second : Object → ℤ → ℤ → Object
  enter_second root_object size delay = elim (object_get_object root_object (codes "processes")) [
    | none ↦ root_object
    | some pro_obj ↦ object_set_value root_object (codes "processes") (
        of_object
          (object_set_value pro_obj (process_name 7000) (of_object (process_object P size delay))))
  ]

  -- The partition takes the size, gets process 1854, loses it again and gets process 7000.
  unfoldable pub enter_twice : Object → ℤ → ℤ → Object
  enter_twice root_object size delay =
      enter_second
        (object_dotremove (take_space P root_object size delay (process_name 1854))
          (process_path (process_name 1854)))
        size delay

  -- The document after the search; without a partition `root_object` is NULL, and the calls on it
  -- change nothing.
  unfoldable pub entered : Option Text → Algorithm → ℤ → ℤ → Option Value
  entered contents algorithm size delay =
      elim (search_index P (array_of P contents) size algorithm) [
        | none ↦ parse P contents
        | some mem_index ↦
            on_array P
              (λ mem_arr. at_index P (λ root. enter_twice root size delay) mem_arr mem_index)
              (parse P contents)
      ]

  -- What producer_test.c prints of the memory, with the numbers that it draws. The file is only
  -- read.
  unfoldable pub producer_test : Syscalls → File → Algorithm → (size delay : ℤ) → Report
  producer_test calls memory algorithm size delay = elim (read_file P calls memory) [
    | ok contents ↦ show (entered contents algorithm size delay)
    | exit status ↦ (exits status, [])
  ]

  -- mapreadjson.c makes the calls of `spy_on_waiting` on the file of the memory.
  unfoldable pub map_read_json : Syscalls → File → Report
  map_read_json calls memory = spy_on_waiting P calls memory
