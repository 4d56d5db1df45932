-- ===== src/Tests/Endings.antt =====
-- producer.c: workers that end the process, at moments of a run with best fit.
use so_pr2_synchronization.Random.{random_number, remainder}
use so_pr2_synchronization.Worker.{choose, list_read, list_truncate}
use so_pr2_synchronization.Worker.Texts.{enlist}
use so_pr2_synchronization.Base.{
  ◌+ℤ◌, ◌-ℤ◌, sum_below, ℕ, ◌+◌, ◌≤◌, ◌<◌, ◌≡◌, ◌⊎◌, refl, [], ◌∷◌, replicate, text_eq, some, true,
  false, pos, Text, total, arith,
}
use so_pr2_synchronization.Json.Reference.{reference}
use so_pr2_synchronization.Json.Reference.Lawful.{reference-IsLawful}
use so_pr2_synchronization.Files.{
  c_string, stretch, File, Syscalls, ok, all_ok, exit_failure, read_file, write_file,
  open_truncated, fill,
}
use so_pr2_synchronization.Algorithms.{best_fit, free_space}
use so_pr2_synchronization.Worker.Points.{finished, filling}
use so_pr2_synchronization.Worker.Texts.{array_of}
use so_pr2_synchronization.System.{System, init, Reach, start, pick}
use so_pr2_synchronization.System.Invariant.{held}
use so_pr2_synchronization.System.Safety.{Starts}
use so_pr2_synchronization.System.Listed.{list_filling}
use so_pr2_synchronization.System.Exits.{
  Exits, list_read_exits, take_fill_exits, Ending, writer_exits, quits,
}
use so_pr2_synchronization.System.Exits.Memory.{Ending-adds_up}
use so_pr2_synchronization.System.Glimpse.{IsBroken, text_of, half}
use so_pr2_synchronization.Files.Torn.{at_open, later, stretch_file, copy_byte}
use so_pr2_synchronization.System.Exits.Races.{list_reading}
use so_pr2_synchronization.Spy
use so_pr2_synchronization.Spy.{show_memory}
use so_pr2_synchronization.Initializer.{initialize, init_memory, init_memory_processes_on_waiting}
use so_pr2_synchronization.System.Waiting.{Orderly, begin, next}
use so_pr2_synchronization.System.Orderly.{orderly-Exits}
use so_pr2_synchronization.System.Session.{initialize-show_memory}
use so_pr2_synchronization.Json.Reference.{parse_text}
use so_pr2_synchronization.Json.Reference.Code.{nil, read, write}
use so_pr2_synchronization.Json.Reference.Fields.{get_object, get_array, elements}
use so_pr2_synchronization.Tests.Schema.{
  reference-CanWrite, schema, partitions, partitions-Holds, capacity-small, memory, on_waiting,
  capacity, memory-Starts, on_waiting-IsDocument,
}
use so_pr2_synchronization.Tests.Runner.{Run, run}

abbrev initial : System
initial = init memory on_waiting

-- Thread 0 has truncated the waiting list, which thread 1 is about to read.
unfoldable caught : (s : System) × Orderly reference best_fit 2 initial s
unfolding random_number remainder ◌+ℤ◌ ◌-ℤ◌ read_file open_truncated on_waiting c_string enlist
    parse_text get_object read write sum_below
caught = (
  _,
  next
      (next
        (next (next begin (pick 1 (omega arith) (choose 7 3 refl refl)) (omega arith))
          (pick 0 (omega arith) (choose 7 3 refl refl)) (omega arith))
        (pick 0 (omega arith) (list_read all_ok _ refl)) (omega arith))
      (pick 0 (omega arith) (list_truncate all_ok refl)) (omega arith),
)

read-Exits : Exits reference all_ok caught.0.shared (caught.0.pc 1) 1 caught.0.shared
unfolding caught read_file
read-Exits = list_read_exits refl

orderly-Exits_example :
    (list_reading (caught.0.pc 1) ≡ 1)
    × (1 ≤ total list_filling 2 caught.0.pc)
    × (1 ≡ exit_failure)
    × (caught.0.shared ≡ caught.0.shared)
orderly-Exits_example =
    orderly-Exits reference reference-IsLawful reference-CanWrite best_fit memory-Starts
      on_waiting-IsDocument caught.1 1 (omega arith) read-Exits

-- Thread 1 has truncated the memory.
unfoldable halfway : Run best_fit 2 initial
unfolding run memory on_waiting
halfway = run best_fit 2 initial (replicate 10 (1, 7)) (initial, start)

abbrev no_mmap : Syscalls
no_mmap = record {
  open_ok = true;
  fstat_ok = true;
  lseek_ok = true;
  write_ok = true;
  mmap_ok = false;
  munmap_ok = true;
}

-- SIGQUIT is handled when the first character has been copied.
quit_halfway :
    (text : Text) × (f : File) × (text_of (halfway.0.pc 1) ≡ some text)
    × Ending reference 2 halfway.0 3 f
unfolding halfway stretch
quit_halfway = (
  _,
  _,
  refl,
  quits (half 1 (omega arith) refl (later (later at_open stretch_file) (copy_byte _ refl))),
)

-- The mapping fails, with zeros in the file.
unfoldable zeroed : (f : File) × Ending reference 2 halfway.0 1 f
unfolding halfway fill
zeroed = (_, writer_exits 1 no_mmap (omega arith) refl (take_fill_exits refl))

Ending-adds_up_example :
    ((total filling 2 halfway.0.pc ≡ 0)
      × (free : ℕ → ℕ) × Starts reference 2 free quit_halfway.1
      × ((k : ℕ) → k < 2 → free k + total (held k) 2 halfway.0.pc ≡ capacity k))
    ⊎ ((1 ≤ total filling 2 halfway.0.pc) × IsBroken 2 halfway.0.pc quit_halfway.1)
Ending-adds_up_example =
    Ending-adds_up reference reference-IsLawful best_fit memory-Starts halfway.1 quit_halfway.3

-- The files that the mapping that failed has left, and a new start from them.
abbrev left_memory : File
left_memory = zeroed.0

abbrev left_list : File
left_list = halfway.0.shared.on_waiting

returned_again : (initialize reference all_ok all_ok (some schema) left_memory left_list).0 ≡ ok tt
unfolding initialize init_memory init_memory_processes_on_waiting write_file open_truncated fill
    parse_text read text_eq
returned_again = refl

abbrev again : System
again =
    init (initialize reference all_ok all_ok (some schema) left_memory left_list).1
      (initialize reference all_ok all_ok (some schema) left_memory left_list).2

initialize-show_memory_example :
    (u : System) × Reach reference best_fit 2 again u
    × ((j : ℕ) → j < 2 → u.pc j ≡ finished)
    × (text : Text) × (show_memory reference all_ok u.shared.memory ≡ (Spy.finished, text ∷ []))
    × ((k : ℕ) → k < 2 → free_space reference (array_of reference (some text)) k ≡ pos (capacity k))
unfolding get_array elements
initialize-show_memory_example =
    initialize-show_memory reference reference-IsLawful reference-CanWrite best_fit all_ok all_ok
      schema left_memory left_list partitions 2 capacity (λ k. nil) refl partitions-Holds
      capacity-small returned_again begin
