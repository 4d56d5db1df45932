-- ===== src/Tests/Twins.antt =====
-- producer.c, started twice: a thread of each process searches the memory.
use so_pr2_synchronization.Base.{
  ℕ, zero, suc, ◌+◌, ◌≡◌, refl, none, some, pos, Text, text_eq, print_decimal, ◌+ℤ◌, ◌-ℤ◌, dec_lt,
  arith,
}
use so_pr2_synchronization.Json.Reference.{reference, parse_text}
use so_pr2_synchronization.Json.Reference.Code.{read, write}
use so_pr2_synchronization.Json.Reference.Fields.{
  find, get_object, get_array, elements, put, remove,
}
use so_pr2_synchronization.Json.Reference.Lawful.{reference-IsLawful}
use so_pr2_synchronization.Files.{
  read_file, map_and_parse, c_string, open_truncated, fill, stretch, copy,
}
use so_pr2_synchronization.Files.Laws.{IsText}
use so_pr2_synchronization.Random.{remainder, random_number}
use so_pr2_synchronization.Memory.{process_name}
use so_pr2_synchronization.Tests.Runner.{next}
use so_pr2_synchronization.Algorithms.{Algorithm, best_fit, free_space, search_index}
use so_pr2_synchronization.Worker.Points.{Process, created, taken}
use so_pr2_synchronization.Worker.Texts.{array_of, enlist, delist}
use so_pr2_synchronization.System.Twins.{Twins, seen, Reach, start, later, pick}
use so_pr2_synchronization.System.Twins.Lost.{space_lost}
use so_pr2_synchronization.Tests.Schema.{
  memory, on_waiting, capacity-small, schema_at_start, reference-CanWrite,
}

abbrev algorithm : ℕ → Algorithm
algorithm producer = best_fit

-- Each thread is in a process of its own.
abbrev owner : ℕ → ℕ
owner id = id

abbrev initial : Twins
initial = record {
  sems = λ producer. 1;
  memory = memory;
  on_waiting = on_waiting;
  pc = λ id. created;
}

abbrev Run : Type 0
Run = (s : Twins) × Reach reference algorithm owner initial s

-- The thread moves, if it can.
move : (id rand : ℕ) → Run → Run
unfolding next memory on_waiting dec_lt ◌-ℤ◌ ◌+ℤ◌ print_decimal text_eq remainder random_number
    read_file c_string copy map_and_parse stretch open_truncated fill process_name enlist delist
    parse_text read write find get_array get_object elements put remove
move id rand (s, reached) = elim (next best_fit id (seen owner s id) rand (s.pc id)) [
  | none ↦ (s, reached)
  | some (m, q, mv) ↦ (_, later reached (pick id mv))
]

times : ℕ → (Run → Run) → Run → Run
times zero f r = r
times (suc n) f r = times n f (f r)

-- Both have taken the semaphore of their process, and are about to search.
both : Run
unfolding move times
both = times 8 (move 1 3) (times 8 (move 0 2) (initial, start))

abbrev small : Process
small = record { process_size = pos 3; process_delay = pos 32 }

abbrev large : Process
large = record { process_size = pos 4; process_delay = pos 33 }

space_lost_example :
    (u : Twins) × Reach reference algorithm owner both.0 u
    × (u.pc 0 ≡ taken small 1)
    × (u.pc 1 ≡ taken large 1)
    × (text : Text) × IsText text u.memory
    × (x : ℕ) × (free_space reference (array_of reference (some text)) 1 ≡ pos x)
    × (x + 4 ≡ 5)
unfolding both schema_at_start search_index array_of get_array get_object find text_eq parse_text
    read write elements free_space
space_lost_example =
    space_lost reference reference-IsLawful reference-CanWrite algorithm owner both.0 0 1 1 small
      large (λ e. omega (arith, e)) refl refl (refl, omega arith, omega arith)
      (refl, omega arith, omega arith) capacity-small schema_at_start.stored refl refl
