-- ===== src/System/Twins.antt =====
-- producer.c, started more than once: each process has a semaphore of its own, and all have the same
-- files.
pub mod Lost
use so_pr2_synchronization.Base.{ℕ, update}
use so_pr2_synchronization.Json.{Parson}
use so_pr2_synchronization.Files.{File}
use so_pr2_synchronization.Algorithms.{Algorithm}
use so_pr2_synchronization.Worker.{Shared, Move}
use so_pr2_synchronization.Worker.Points.{Pc}

-- The semaphore of each process, the two files, and the threads of all processes.
pub record Twins : Type 0 where
  pub sems : ℕ → ℕ
  pub memory : File
  pub on_waiting : File
  pub pc : ℕ → Pc

module _ (owner : ℕ → ℕ) where
  -- What a thread of the process `owner i` shares.
  abbrev pub seen : Twins → ℕ → Shared
  seen s i = record { sem = s.sems (owner i); memory = s.memory; on_waiting = s.on_waiting }

  abbrev pub moved_on : Twins → ℕ → Shared → Pc → Twins
  moved_on s i m q = record {
    sems = update s.sems (owner i) m.sem;
    memory = m.memory;
    on_waiting = m.on_waiting;
    pc = update s.pc i q;
  }

-- Each process has the algorithm that was chosen when it was started. The number of a thread is its
-- `gettid()`, which is different also in other processes.
pub data Step (P : Parson) (algorithm : ℕ → Algorithm) (owner : ℕ → ℕ) (s : Twins)
    : Twins → Type 0 where
  pick :
      (i : ℕ) {m : Shared} {q : Pc}
      → Move P (algorithm (owner i)) i (seen owner s i) (s.pc i) m q
      → Step P algorithm owner s (moved_on owner s i m q)

pub data Reach (P : Parson) (algorithm : ℕ → Algorithm) (owner : ℕ → ℕ) (s : Twins)
    : Twins → Type 0 where
  start : Reach P algorithm owner s s
  later :
      {t u : Twins}
      → Reach P algorithm owner s t
      → Step P algorithm owner t u
      → Reach P algorithm owner s u
