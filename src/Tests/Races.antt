-- ===== src/Tests/Races.antt =====
-- producer.c: the waiting list while two workers write it.
use so_pr2_synchronization.Base.{
  ℕ, List, some, none, Text, print_decimal, ◌≡◌, refl, [], ◌∷◌, pos, true, false, arith,
}
use so_pr2_synchronization.Json.Reference.{reference, parse_text}
use so_pr2_synchronization.Json.Reference.Code.{
  Value, null, obj, entry, nil, read, write, write-Lacks,
}
use so_pr2_synchronization.Json.Reference.Fields.{find, put, get_object}
use so_pr2_synchronization.Json.Reference.Lawful.{reference-IsLawful}
use so_pr2_synchronization.Files.{all_ok, Syscalls, c_string}
use so_pr2_synchronization.Algorithms.{best_fit}
use so_pr2_synchronization.Memory.{process_name}
use so_pr2_synchronization.Worker.Points.{waiting, list_fill}
use so_pr2_synchronization.System.{System, init, Reach, start}
use so_pr2_synchronization.System.Races.{Lists, entry_lost}
use so_pr2_synchronization.Files.Torn.{Moment, copying}
use so_pr2_synchronization.System.Torn.{with_list, torn_list-Exits}
use so_pr2_synchronization.System.Exits.{Exits}
use so_pr2_synchronization.Spy.{faults, spy_on_waiting}
use so_pr2_synchronization.Tests.Schema.{memory, on_waiting}
use so_pr2_synchronization.Tests.Runner.{Run, run}

abbrev initial : System
initial = init memory on_waiting

-- Both threads are about to read the waiting list.
unfoldable both : Run best_fit 2 initial
unfolding run memory on_waiting
both = run best_fit 2 initial ((0, 3) ∷ (1, 7) ∷ []) (initial, start)

listed : Lists reference both.0.shared.on_waiting nil
unfolding both parse_text read c_string get_object
listed = record {
  text = _;
  is_text = record { bytes = _; is_there = refl; not_empty = λ e. cc; reads = refl };
  value = _;
  parses = refl;
  is_object = refl;
}

entry_lost_example :
    (u : System) × Reach reference best_fit 2 both.0 u
    × (u.pc 0 ≡ waiting (record { process_size = pos 4; process_delay = pos 33 }))
    × (u.pc 1 ≡ waiting (record { process_size = pos 8; process_delay = pos 37 }))
    × (list : Value) × Lists reference u.shared.on_waiting list
    × (reference.object_has_value list (process_name 0) ≡ false)
    × (reference.object_has_value list (process_name 1) ≡ true)
unfolding both find put write
entry_lost_example =
    entry_lost reference reference-IsLawful best_fit both.0 0 1 _ _ _ (omega arith) (omega arith)
      (λ e. omega (arith, e)) refl refl listed refl refl refl refl

-- `{"P1": null}`
abbrev waiting_text : Text
waiting_text = write (obj (entry (process_name 1) null nil))

torn_list-Exits_example :
    (bytes : List ℕ) × Moment waiting_text (copying 3) bytes
    × (spy_on_waiting reference all_ok (some bytes) ≡ (faults, []))
    × (u : System) × Reach reference best_fit 2 (with_list both.0 bytes) u
    × (u.pc 1 ≡ list_fill (record { process_size = pos 8; process_delay = pos 37 }) none)
    × (u.shared.on_waiting ≡ some [])
    × ((calls : Syscalls) → Exits reference calls u.shared (u.pc 1) 1 u.shared)
unfolding both write process_name parse_text read print_decimal
torn_list-Exits_example =
    torn_list-Exits reference best_fit both.0 1 3 waiting_text (omega arith) refl
      (write-Lacks (obj (entry (process_name 1) null nil))) (omega arith) refl
