-- ===== src/System.antt =====
-- producer.c: `main` and its threads, interleaved in any order.
pub mod Invariant
pub mod Table
pub mod Abstract
mod Effects
mod Prepared
mod Entries
pub mod Progress
pub mod Ends
pub mod Listed
mod Live
mod Moves
pub mod Completes
pub mod Refines
pub mod Glimpse
pub mod Watch
pub mod Shutdown
pub mod Exits
pub mod Session
pub mod Torn
pub mod Twins
pub mod Orderly
mod Keeps
pub mod Safety
pub mod Races
pub mod Naming
pub mod Waiting
use so_pr2_synchronization.Base.{ℕ, zero, suc, ◌<◌, ◌≡◌, refl, update, Text, Option, none, some}
use so_pr2_synchronization.Json.{Parson}
use so_pr2_synchronization.Algorithms.{Algorithm}
use so_pr2_synchronization.Worker.{Shared, Move}
use so_pr2_synchronization.Worker.Points.{Pc, created}
use so_pr2_synchronization.Files.{File}

-- The threads are numbered, and the number of a thread is its `gettid()`: the ids of threads that
-- run are different. A thread that `main` has not made yet, or that the scheduler passes over, is
-- one that makes no step.
pub record System : Type 0 where
  pub shared : Shared
  pub pc : ℕ → Pc

-- The first `n` threads of `main`, in any order.
pub data Step (P : Parson) (algorithm : Algorithm) (n : ℕ) (s : System) : System → Type 0 where
  pick :
      (i : ℕ) {m : Shared} {p : Pc}
      → i < n
      → Move P algorithm i s.shared (s.pc i) m p
      → Step P algorithm n s (record { shared = m; pc = update s.pc i p })

-- The semaphore starts at 1, and the files as the initializer has left them.
abbrev pub init : File → File → System
init memory on_waiting = record {
  shared = record { sem = 1; memory = memory; on_waiting = on_waiting };
  pc = λ _. created;
}

pub data Reach (P : Parson) (algorithm : Algorithm) (n : ℕ) (s : System) : System → Type 0 where
  start : Reach P algorithm n s s
  later :
      {t u : System} → Reach P algorithm n s t → Step P algorithm n t u → Reach P algorithm n s u
