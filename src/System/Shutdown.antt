-- ===== src/System/Shutdown.antt =====
-- producer.c and killer.c: the end of the producer. The signal that the killer sends is handled at some
-- later moment, and until the handler exits the workers go on.
pub mod Survival
pub mod Removed
use so_pr2_synchronization.Base.{
  ℕ, ◌<◌, ◌≡◌, refl, sym, ◌∙◌, subst, update, if◌then◌else◌, Bool, true, false, ◌&&◌, ◌||◌, [],
  Option, none, some, Text,
}
use so_pr2_synchronization.Json.{Parson}
use so_pr2_synchronization.Files.{File, all_ok, open_truncated}
use so_pr2_synchronization.Algorithms.{Algorithm}
use so_pr2_synchronization.Killer.{delete_memory, delete_processes_on_waiting, remove_file}
use so_pr2_synchronization.Worker.{Shared, Move, take_truncate, return_truncate}
use so_pr2_synchronization.Worker.Points.{
  Process, Pc, list_fill, unlist_fill, take_open, take_fill, return_open, return_fill,
}
use so_pr2_synchronization.System.{System}

-- Where `kill_producer` stands: before `kill`, before `delete_memory`, before
-- `delete_processes_on_waiting`, or behind it.
pub data Stage : Type 0 where
  killing deleting_memory deleting_list over : Stage

-- The producer with its threads, whether its process still exists, whether the signal has been sent,
-- and the killer. A thread is stale if the file that it has open for a write has been removed.
pub record Closing : Type 0 where
  pub system : System
  pub alive : Bool
  pub signalled : Bool
  pub stage : Stage
  pub stale : ℕ → Bool

abbrev pub fills_memory : Pc → Bool
fills_memory (take_fill _ _ _) = true
fills_memory (return_fill _ _ _) = true
fills_memory _ = false

abbrev pub fills_list : Pc → Bool
fills_list (list_fill _ _) = true
fills_list (unlist_fill _ _) = true
fills_list _ = false

-- What a stale thread sees of the files: nothing that it writes is at a path.
abbrev pub apart : Pc → Shared → Shared
apart p s = record s {
  memory = if fills_memory p then none else s.memory;
  on_waiting = if fills_list p then none else s.on_waiting;
}

pub data Close (P : Parson) (algorithm : Algorithm) (n : ℕ) (removable : Bool) (c : Closing)
    : Closing → Type 0 where
  work :
      (i : ℕ) {m : Shared} {q : Pc}
      → i < n
      → c.alive ≡ true
      → c.stale i ≡ false
      → Move P algorithm i c.system.shared (c.system.pc i) m q
      → Close P algorithm n removable c
          (record c { system = record { shared = m; pc = update c.system.pc i q } })
  -- The files at the paths stay what they are.
  work_stale :
      (i : ℕ) {m : Shared} {q : Pc}
      → i < n
      → c.alive ≡ true
      → c.stale i ≡ true
      → Move P algorithm i (apart (c.system.pc i) c.system.shared) (c.system.pc i) m q
      → Close P algorithm n removable c (record c {
        system = record c.system { pc = update c.system.pc i q };
        stale = update c.stale i false;
      })
  send_signal :
      c.stage ≡ killing
      → Close P algorithm n removable c (record c { signalled = true; stage = deleting_memory })
  handler_exits :
      c.signalled ≡ true
      → c.alive ≡ true
      → Close P algorithm n removable c (record c { alive = false })
  memory_deleted :
      c.stage ≡ deleting_memory
      → Close P algorithm n removable c (record c {
        system = record c.system {
          shared = record c.system.shared {
            memory = delete_memory removable c.system.shared.memory;
          };
        };
        stage = deleting_list;
        stale = λ i. c.stale i || (removable && fills_memory (c.system.pc i));
      })
  list_deleted :
      c.stage ≡ deleting_list
      → Close P algorithm n removable c (record c {
        system = record c.system {
          shared = record c.system.shared {
            on_waiting = delete_processes_on_waiting removable c.system.shared.on_waiting;
          };
        };
        stage = over;
        stale = λ i. c.stale i || (removable && fills_list (c.system.pc i));
      })

pub data Closes (P : Parson) (algorithm : Algorithm) (n : ℕ) (removable : Bool) (c : Closing)
    : Closing → Type 0 where
  stay : Closes P algorithm n removable c c
  then_close :
      {d e : Closing}
      → Closes P algorithm n removable c d
      → Close P algorithm n removable d e
      → Closes P algorithm n removable c e

-- A killer that has its k, beside a producer.
abbrev pub asked : System → Closing
asked s = record {
  system = s;
  alive = true;
  signalled = false;
  stage = killing;
  stale = λ i. false;
}

-- A worker is about to truncate the memory.
pub data Opens : Pc → Type 0 where
  to_take : (p : Process) (k : ℕ) (t : Option Text) → Opens (take_open p k t)
  to_return : (p : Process) (k : ℕ) (t : Option Text) → Opens (return_open p k t)
