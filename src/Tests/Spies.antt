-- ===== src/Tests/Spies.antt =====
-- spy.c and examples/producer_test.c at a memory with a process in the first of two partitions.
use so_pr2_synchronization.Base.{
  ℕ, zero, suc, ◌<◌, ◌≡◌, update, List, refl, [], ◌∷◌, ◌++◌, some, none, pos, codes, text_eq, arith,
}
use so_pr2_synchronization.Json.{array_get_object}
use so_pr2_synchronization.Json.Reference.{reference, parse_text}
use so_pr2_synchronization.Json.Reference.Code.{
  Value, num, obj, arr, nil, entry, read, write, write-Lacks,
}
use so_pr2_synchronization.Json.Reference.Fields.{find, get_object, get_array, elements}
use so_pr2_synchronization.Json.Reference.Lawful.{reference-IsLawful}
use so_pr2_synchronization.Files.{File, all_ok, c_string, read_file}
use so_pr2_synchronization.Files.Laws.{IsText}
use so_pr2_synchronization.Memory.Laws.{Holds, IsPartition}
use so_pr2_synchronization.System.Invariant.{Represents}
use so_pr2_synchronization.Algorithms.{first_fit, free_space, search_index}
use so_pr2_synchronization.Experiments.Entries.{producer_test}
use so_pr2_synchronization.Experiments.Entries.Laws.{only_second, producer_test_lem}
use so_pr2_synchronization.Spy.{
  ended, exits, spy_on_waiting, puts, finished, View, spy_on_memory, command, spy, show_memory,
}
use so_pr2_synchronization.Spy.Laws.{
  listing, nothing, command_prints, spy_on_memory_lem, on_failure, spy-Stops,
}

abbrev processes : ℕ → Value
processes zero = entry (codes "42") (obj (entry (codes "size") (num (pos 8)) nil)) nil
processes (suc k) = nil

abbrev free : ℕ → ℕ
free zero = 2
free (suc k) = 5

abbrev partition : ℕ → Value
partition k = obj (
    entry (codes "free_space") (num (pos (free k)))
      (entry (codes "processes") (obj (processes k)) nil))

abbrev document : Value
document = arr (entry [] (partition 0) (entry [] (partition 1) nil))

abbrev memory : File
memory = some (write document ++ (0 ∷ []))

document-Holds : Holds reference (partition 0 ∷ partition 1 ∷ []) 2 free processes
unfolding get_object find text_eq
document-Holds = record { counted = refl; partition = holds }
  where
    holds :
        (k : ℕ)
        → k < 2
        → (root : Value) × (array_get_object reference (partition 0 ∷ partition 1 ∷ []) k
            ≡ some root)
          × IsPartition reference root (free k) (processes k)
    holds zero h = (_, refl, record { free_is = refl; processes_are = refl })
    holds (suc zero) h = (_, refl, record { free_is = refl; processes_are = refl })
    holds (suc (suc k)) h = absurd (omega arith)

document-Represents : Represents reference 2 (write document) free processes
unfolding parse_text read write get_array elements
document-Represents = record {
  no_nul = write-Lacks document;
  value = document;
  parses = refl;
  arr = partition 0 ∷ partition 1 ∷ [];
  is_array = refl;
  holds = document-Holds;
}

memory-IsText : IsText (write document) memory
unfolding c_string write
memory-IsText = record { bytes = _; is_there = refl; not_empty = λ e. cc; reads = refl }

spy_on_memory_lem_example :
    spy_on_memory reference all_ok memory
    ≡ (finished, listing reference processes (λ k. write (obj (processes k))) 2)
spy_on_memory_lem_example =
    spy_on_memory_lem reference reference-IsLawful (λ k. write (obj (processes k))) memory-IsText
      document-Represents refl (λ k h. refl)

abbrev view : View
view = record {
  memory_calls = all_ok;
  memory = some (2 ∷ 0 ∷ []);
  waiting_calls = all_ok;
  on_waiting = none;
}

-- The reference library writes the value of the text that it reads.
shown_memory : command reference (pos 1) view ≡ some (finished, (2 ∷ []) ∷ [])
unfolding command show_memory read_file parse_text read write
shown_memory = refl

spy-Stops_example :
    spy reference
      (((some (pos 1), view) ∷ []) ++ ((some (pos 2), view) ∷ (none, view) ∷ []))
      (pos 7)
    ≡ ended (exits 1) ((2 ∷ []) ∷ [])
unfolding command spy_on_waiting read_file
spy-Stops_example =
    spy-Stops reference (some (pos 2)) view ((none, view) ∷ [])
      (command_prints shown_memory nothing) (on_failure refl (λ e. cc))

-- The first partition is too small.
second_found : search_index reference (partition 0 ∷ partition 1 ∷ []) (pos 4) first_fit ≡ some 1
unfolding search_index free_space find get_object text_eq
second_found = refl

producer_test_lem_example :
    (arr : List Value) × (producer_test reference all_ok memory first_fit (pos 4) (pos 30)
      ≡ puts (reference.serialize_to_string_pretty (reference.of_array arr)))
    × Holds reference arr 2
        (update free 1 1)
        (update processes 1 (only_second reference reference-IsLawful nil (pos 4) (pos 30)))
unfolding document-Represents
producer_test_lem_example =
    producer_test_lem reference reference-IsLawful first_fit 4 (pos 30) memory-IsText
      document-Represents refl second_found (omega arith) (omega arith) (omega arith)
