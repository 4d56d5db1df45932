-- ===== src/Experiments/Entries/Laws.antt =====
-- examples/producer_test.c: which document it prints.
use so_pr2_synchronization.Base.{
  ℕ, ◌-◌, ◌^◌, ◌≤◌, ◌<◌, ◌≡◌, Option, some, List, ℤ, pos, Text, Lacks, codes, update, arith,
  print_decimal-Lacks,
}
use so_pr2_synchronization.Json.{Parson, IsLawful}
use so_pr2_synchronization.Files.{File, all_ok, pretty}
use so_pr2_synchronization.Files.Laws.{IsText, read_file-IsText_ok}
use so_pr2_synchronization.Algorithms.{Algorithm, search_index}
use so_pr2_synchronization.Memory.{process_name, process_path, process_object, at_index}
use so_pr2_synchronization.Memory.Laws.{
  IsPartition, Holds, take_space-IsPartition, entered-IsPartition, at_index-Holds,
}
use so_pr2_synchronization.System.Invariant.{Represents}
use so_pr2_synchronization.Worker.Texts.{parse, array_of, on_array}
use so_pr2_synchronization.Spy.{puts}
use so_pr2_synchronization.Experiments.Entries.{enter_second, enter_twice, entered, producer_test}

module _ (P : Parson) (L : IsLawful P) where
  open P use {Value, Object, of_object, of_array, object_set_value, object_remove}

  -- The processes of the partition that was found, in the printed document.
  abbrev pub only_second : Object → ℤ → ℤ → Object
  only_second processes size delay =
      let entry = of_object (process_object P size delay) in
      object_set_value
        (object_remove (object_set_value processes (process_name 1854) entry) (process_name 1854))
        (process_name 7000) entry

  name-Lacks : Lacks b'.' (process_name 1854)
  unfolding process_name
  name-Lacks = print_decimal-Lacks b'.' 1854 (omega arith)

  dotremove_name :
      (root : Object) {processes : Object}
      → P.object_get_object root (codes "processes") ≡ some processes
      → P.object_dotremove root (process_path (process_name 1854))
        ≡ object_set_value root
            (codes "processes")
            (of_object (object_remove processes (process_name 1854)))
  unfolding process_path
  dotremove_name root {processes} there =
      L.dotremove_lem root processes (codes "processes") (process_name 1854) (omega arith)
        name-Lacks there

  enter_second-IsPartition :
      {root : Object} {free : ℕ} {processes : Object} (size delay : ℤ)
      → IsPartition P root free processes
      → IsPartition P
          (enter_second P root size delay)
          free
          (object_set_value processes (process_name 7000) (of_object (process_object P size delay)))
  unfolding enter_second
  enter_second-IsPartition size delay p =
      rw (enter_second, p.processes_are) (entered-IsPartition P L p _)

  enter_twice-IsPartition :
      {root : Object} {free : ℕ} {processes : Object} (size : ℕ) (delay : ℤ)
      → free < 2 ^ 31
      → size ≤ free
      → IsPartition P root free processes
      → IsPartition P
          (enter_twice P root (pos size) delay)
          (free - size)
          (only_second processes (pos size) delay)
  unfolding enter_twice
  enter_twice-IsPartition {processes} size delay small fits p =
      let first = take_space-IsPartition P L size delay (process_name 1854) small fits p in
      let entry = of_object (process_object P (pos size) delay) in
      let changed = object_set_value processes (process_name 1854) entry in
      rw (enter_twice, dotremove_name _ first.processes_are)
        (enter_second-IsPartition (pos size) delay
          (entered-IsPartition P L first (object_remove changed (process_name 1854))))

  entered_lem :
      (contents : Option Text) (value : Value) (mem_arr : List Value) (algorithm : Algorithm)
      (size delay : ℤ) {k : ℕ}
      → parse P contents ≡ some value
      → P.value_get_array value ≡ some mem_arr
      → search_index P mem_arr size algorithm ≡ some k
      → entered P contents algorithm size delay
        ≡ some (of_array (at_index P (λ root. enter_twice P root size delay) mem_arr k))
  unfolding entered array_of
  entered_lem contents value mem_arr algorithm size delay parses is_array found =
      rw (entered, array_of, parses, is_array, found, parses, on_array, is_array)

  -- If the memory holds a text of partitions and the search finds one, the program prints the
  -- document in which that partition has the size less of free space and holds process 7000 but no
  -- longer process 1854, and the others are as they were.
  pub producer_test_lem :
      {t pretty_text : Text} {memory : File} {count : ℕ} {free : ℕ → ℕ} {processes : ℕ → Object}
      (algorithm : Algorithm) (size : ℕ) (delay : ℤ) {k : ℕ}
      → IsText t memory
      → (r : Represents P count t free processes)
      → P.serialize_to_string_pretty r.value ≡ some pretty_text
      → search_index P r.arr (pos size) algorithm ≡ some k
      → k < count
      → free k < 2 ^ 31
      → size ≤ free k
      → (arr : List Value) × (producer_test P all_ok memory algorithm (pos size) delay
          ≡ puts (P.serialize_to_string_pretty (of_array arr)))
        × Holds P arr count
            (update free k (free k - size))
            (update processes k (only_second (processes k) (pos size) delay))
  unfolding producer_test
  producer_test_lem {pretty_text} {count} algorithm size delay {k} is_text r e found within small
        fits =
      let reread = L.parse-pretty r.value pretty_text e in
      (
        at_index P (λ root. enter_twice P root (pos size) delay) r.arr k,
        rw (
          producer_test,
          read_file-IsText_ok P is_text,
          pretty,
          r.parses,
          e,
          entered_lem (some pretty_text) r.value r.arr algorithm (pos size) delay reread r.is_array
              found,
        ),
        at_index-Holds P L r.holds _ k _ _ within
            (λ root p. enter_twice-IsPartition size delay small fits p),
      )
