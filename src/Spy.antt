-- ===== src/Spy.antt =====
-- spy.c: what the menu prints of the memory and of the waiting list.
pub mod Laws
use so_pr2_synchronization.Base.{
  ℕ, zero, suc, Bool, true, false, Option, none, some, List, [], ◌∷◌, ◌++◌, ℤ, pos, Text, codes,
  if◌then◌else◌,
}
use so_pr2_synchronization.Json.{Parson, child, get_object}
use so_pr2_synchronization.Files.{File, Syscalls, ok, exit, exit_failure, read_file}
use so_pr2_synchronization.Algorithms.{scan}
use so_pr2_synchronization.Worker.Texts.{array_of}

-- How a part of the program ends: it goes on, it ends the process, or it follows a null pointer.
pub data Ending : Type 0 where
  finished : Ending
  exits : ℕ → Ending
  faults : Ending

-- The end with the documents printed before it. The menu and the messages are left out.
abbrev pub Report : Type 0
Report = Ending × List Text

unfoldable pub and_then : Report → Report → Report
and_then (finished, lines) (ending, lines') = (ending, lines ++ lines')
and_then (exits status, lines) second = (exits status, lines)
and_then (faults, lines) second = (faults, lines)

-- `puts`
abbrev pub puts : Option Text → Report
puts none = (faults, [])
puts (some text) = (finished, text ∷ [])

-- What the menu finds when it is at a command: the files and the answers of the system calls.
pub record View : Type 0 where
  pub memory_calls : Syscalls
  pub memory : File
  pub waiting_calls : Syscalls
  pub on_waiting : File

-- How the program stands: it waits for the next code, it has returned from `main`, or it has ended
-- in another way.
pub data Session : Type 0 where
  prompting : List Text → Session
  left : List Text → Session
  ended : Ending → List Text → Session

-- A session with more text printed before it.
abbrev pub after : List Text → Session → Session
after lines (prompting more) = prompting (lines ++ more)
after lines (left more) = left (lines ++ more)
after lines (ended ending more) = ended ending (lines ++ more)

module _ (P : Parson) where
  -- Case 1 of the menu: `puts(spy_memory())`
  unfoldable pub show_memory : Syscalls → File → Report
  show_memory calls memory = elim (read_file P calls memory) [
    | ok serialized_string ↦ puts serialized_string
    | exit status ↦ (exits status, [])
  ]

  -- The document is printed before `munmap` is called.
  unfoldable pub spy_on_waiting : Syscalls → File → Report
  unfolding and_then
  spy_on_waiting calls on_waiting =
      elim (read_file P (record calls { munmap_ok = true }) on_waiting) [
        | ok serialized_string ↦
            and_then (puts serialized_string)
              (if calls.munmap_ok then (finished, []) else (exits exit_failure, []))
        | exit status ↦ (exits status, [])
      ]

  -- The body of the loop of `spy_on_memory`. `json_object_get_wrapping_value` follows its pointer.
  unfoldable pub show_partition : P.Value → Report
  show_partition v = elim (child P (get_object P (some v)) (codes "processes")) [
    | none ↦ (faults, [])
    | some processes ↦
        if P.value_equals (P.of_object processes) (P.of_object P.init_object)
        then (finished, [])
        else puts (P.serialize_to_string_pretty (P.of_object processes))
  ]

  unfoldable pub show_partitions : List P.Value → Report
  unfolding and_then show_partition
  show_partitions [] = (finished, [])
  show_partitions (v ∷ mem_arr) = and_then (show_partition v) (show_partitions mem_arr)

  unfoldable pub spy_on_memory : Syscalls → File → Report
  unfolding show_partitions array_of
  spy_on_memory calls memory = elim (read_file P calls memory) [
    | ok serialized_string ↦ show_partitions (array_of P serialized_string)
    | exit status ↦ (exits status, [])
  ]

  -- The cases of the menu; `none` leaves it.
  unfoldable pub command : ℤ → View → Option Report
  unfolding show_memory spy_on_waiting spy_on_memory and_then
  command (pos zero) view = none
  command (pos (suc zero)) view = some (show_memory view.memory_calls view.memory)
  command (pos (suc (suc zero))) view = some (
      and_then (spy_on_waiting view.waiting_calls view.on_waiting)
        (spy_on_memory view.memory_calls view.memory))
  command _ view = some (finished, [])

  -- The loop over what the calls of `scanf` find, from the value that `code` has.
  unfoldable pub spy : List (Option ℤ × View) → ℤ → Session
  unfolding command
  spy [] code = prompting []
  spy ((entry, view) ∷ input) code =
      let rest = spy input (scan entry code) in
      elim (command (scan entry code) view) [
        | none ↦ left []
        | some (finished, lines) ↦ after lines rest
        | some (exits status, lines) ↦ ended (exits status) lines
        | some (faults, lines) ↦ ended faults lines
      ]
