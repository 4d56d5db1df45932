-- ===== src/Tests/Documents.antt =====
-- The documents of the memory and the files, at concrete inputs.
use so_pr2_synchronization.Base.{◌+◌, ◌≤◌, [], ◌∷◌, some, none, length, false, arith}
use so_pr2_synchronization.Files.{Syscalls, all_ok, write_file}
use so_pr2_synchronization.Files.Laws.{Outcome, write_file_outcome}
use so_pr2_synchronization.Memory.{process_name, process_path}
use so_pr2_synchronization.Memory.Names.{buffers_suffice}
use so_pr2_synchronization.Worker.{Shared}

abbrev unmappable : Syscalls
unmappable = record all_ok { mmap_ok = false }

write_file_outcome_example :
    Outcome unmappable
      (65 ∷ [])
      (some (7 ∷ 8 ∷ 9 ∷ []))
      (write_file unmappable (some (65 ∷ [])) (some (7 ∷ 8 ∷ 9 ∷ [])))
write_file_outcome_example = write_file_outcome unmappable (65 ∷ []) (some (7 ∷ 8 ∷ 9 ∷ []))

abbrev two_files : Shared
two_files = record { sem = 1; memory = none; on_waiting = some (7 ∷ 8 ∷ 9 ∷ []) }

buffers_suffice_example :
    (length (process_name 4194304) + 1 ≤ 40)
    × (length (process_path (process_name 4194304)) + 1 ≤ 80)
buffers_suffice_example = buffers_suffice 4194304 (omega arith)
