-- ===== src/System/Exits.antt =====
-- producer.c: how the process can end while its workers run. The calls that end it are those whose
-- result `Worker.Move` takes to be `ok`.
pub mod Memory
pub mod Races
use so_pr2_synchronization.Base.{ℕ, ◌<◌, ◌≡◌, ◌⊎◌, Option, Text}
use so_pr2_synchronization.Json.{Parson}
use so_pr2_synchronization.Files.{File, Syscalls, exit, open_truncated, fill}
use so_pr2_synchronization.Worker.{Shared, read_memory, read_memory_processes_on_waiting}
use so_pr2_synchronization.Worker.Points.{
  filling, Process, Pc, listing, list_open, list_fill, unlisting, unlist_open, unlist_fill,
  searching, take_open, take_fill, returning, return_open, return_fill,
}
use so_pr2_synchronization.System.{System}
use so_pr2_synchronization.System.Glimpse.{Glimpse}

-- A worker at this place ends the process with a status, and leaves the files so; `calls` are the
-- answers of the operating system to the call that it makes.
pub data Exits (P : Parson) (calls : Syscalls) (s : Shared) : Pc → ℕ → Shared → Type 0 where
  list_read_exits :
      {p : Process} {status : ℕ}
      → read_memory_processes_on_waiting P calls s ≡ exit status
      → Exits P calls s (listing p) status s
  list_open_exits :
      {p : Process} {t : Option Text} {status : ℕ} {f : File}
      → open_truncated calls s.on_waiting ≡ (exit status, f)
      → Exits P calls s (list_open p t) status (record s { on_waiting = f })
  list_fill_exits :
      {p : Process} {t : Option Text} {status : ℕ} {f : File}
      → fill calls t s.on_waiting ≡ (exit status, f)
      → Exits P calls s (list_fill p t) status (record s { on_waiting = f })
  unlist_read_exits :
      {p : Process} {status : ℕ}
      → read_memory_processes_on_waiting P calls s ≡ exit status
      → Exits P calls s (unlisting p) status s
  unlist_open_exits :
      {p : Process} {t : Option Text} {status : ℕ} {f : File}
      → open_truncated calls s.on_waiting ≡ (exit status, f)
      → Exits P calls s (unlist_open p t) status (record s { on_waiting = f })
  unlist_fill_exits :
      {p : Process} {t : Option Text} {status : ℕ} {f : File}
      → fill calls t s.on_waiting ≡ (exit status, f)
      → Exits P calls s (unlist_fill p t) status (record s { on_waiting = f })
  search_exits :
      {p : Process} {status : ℕ}
      → read_memory P calls s ≡ exit status
      → Exits P calls s (searching p) status s
  take_open_exits :
      {p : Process} {k : ℕ} {t : Option Text} {status : ℕ} {f : File}
      → open_truncated calls s.memory ≡ (exit status, f)
      → Exits P calls s (take_open p k t) status (record s { memory = f })
  take_fill_exits :
      {p : Process} {k : ℕ} {t : Option Text} {status : ℕ} {f : File}
      → fill calls t s.memory ≡ (exit status, f)
      → Exits P calls s (take_fill p k t) status (record s { memory = f })
  return_read_exits :
      {p : Process} {k : ℕ} {status : ℕ}
      → read_memory P calls s ≡ exit status
      → Exits P calls s (returning p k) status s
  return_open_exits :
      {p : Process} {k : ℕ} {t : Option Text} {status : ℕ} {f : File}
      → open_truncated calls s.memory ≡ (exit status, f)
      → Exits P calls s (return_open p k t) status (record s { memory = f })
  return_fill_exits :
      {p : Process} {k : ℕ} {t : Option Text} {status : ℕ} {f : File}
      → fill calls t s.memory ≡ (exit status, f)
      → Exits P calls s (return_fill p k t) status (record s { memory = f })

-- Every end of the process, with its status and the memory that it leaves: a worker that writes the
-- memory, or another one; a worker that has read half of the waiting list, and finds a null pointer
-- where it writes it; a failure of `pthread_create` in `main`, or `SIGQUIT_handler`, which both can
-- come at any moment. All but the first can come in the middle of a write of the memory.
pub data Ending (P : Parson) (n : ℕ) (s : System) : ℕ → File → Type 0 where
  writer_exits :
      (i : ℕ) (calls : Syscalls) {status : ℕ} {t : Shared}
      → i < n
      → filling (s.pc i) ≡ 1
      → Exits P calls s.shared (s.pc i) status t
      → Ending P n s status t.memory
  other_exits :
      (i : ℕ) (calls : Syscalls) {status : ℕ} {t : Shared} {f : File}
      → i < n
      → filling (s.pc i) ≡ 0
      → Exits P calls s.shared (s.pc i) status t
      → Glimpse n s f
      → Ending P n s status f
  half_list_exits :
      (i : ℕ) {p : Process} {f : File}
      → i < n
      → (s.pc i ≡ listing p) ⊎ (s.pc i ≡ unlisting p)
      → Glimpse n s f
      → Ending P n s 1 f
  create_fails : {f : File} → Glimpse n s f → Ending P n s 1 f
  quits : {f : File} → Glimpse n s f → Ending P n s 3 f
