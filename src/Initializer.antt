-- ===== src/Initializer.antt =====
-- initializer.c: the two files at the start of a run.
pub mod Laws
use so_pr2_synchronization.Base.{Option, some, codes}
use so_pr2_synchronization.Json.{Parson}
use so_pr2_synchronization.Files.{File, Syscalls, Result, ok, exit, write_file}
use so_pr2_synchronization.Worker.Texts.{serialize}

module _ (P : Parson) where
  -- `schema` is what `json_parse_file("schema.json")` returns.
  unfoldable pub init_memory : Syscalls → Option P.Value → File → Result (Unit {0}) × File
  init_memory calls schema file = write_file calls (serialize P schema) file

  unfoldable pub init_memory_processes_on_waiting : Syscalls → File → Result (Unit {0}) × File
  init_memory_processes_on_waiting calls file =
      write_file calls (serialize P (P.parse_string (codes "{}"))) file

  -- `main`: the result, the memory and the waiting list. The second function is not called if the
  -- first ends the process.
  unfoldable pub initialize :
      Syscalls → Syscalls → Option P.Value → File → File → Result (Unit {0}) × File × File
  initialize calls calls' schema memory on_waiting =
      let (first, memory') = init_memory calls schema memory in
      let (second, on_waiting') = init_memory_processes_on_waiting calls' on_waiting in
      elim first [
        | ok done ↦ (second, memory', on_waiting')
        | exit status ↦ (exit status, memory', on_waiting)
      ]
