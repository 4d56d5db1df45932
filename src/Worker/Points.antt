-- ===== src/Worker/Points.antt =====
-- producer.c: where a worker stands in `worker_thread`, with the local variables that are live there.
use so_pr2_synchronization.Base.{ℕ, Option, ℤ, Text}

-- `process_size` and `process_delay`
pub record Process : Type 0 where
  pub process_size : ℤ
  pub process_delay : ℤ

-- `t` is the text that the worker is about to write, `k` its `mem_index`.
pub data Pc : Type 0 where
  -- before the random numbers
  created : Pc
  -- before the first read of the waiting list
  listing : (p : Process) → Pc
  -- before `open` in the write of the waiting list, and behind it
  list_open : (p : Process) (t : Option Text) → Pc
  list_fill : (p : Process) (t : Option Text) → Pc
  -- before the first `sem_wait`
  waiting : (p : Process) → Pc
  -- before the second read of the waiting list
  unlisting : (p : Process) → Pc
  unlist_open : (p : Process) (t : Option Text) → Pc
  unlist_fill : (p : Process) (t : Option Text) → Pc
  -- before the first read of the memory
  searching : (p : Process) → Pc
  -- no partition was found: before `sem_post`
  refused : (p : Process) → Pc
  take_open : (p : Process) (k : ℕ) (t : Option Text) → Pc
  take_fill : (p : Process) (k : ℕ) (t : Option Text) → Pc
  -- the space is taken: before `sem_post`
  taken : (p : Process) (k : ℕ) → Pc
  -- in `sleep`, or before the second `sem_wait`
  sleeping : (p : Process) (k : ℕ) → Pc
  -- before the second read of the memory
  returning : (p : Process) (k : ℕ) → Pc
  return_open : (p : Process) (k : ℕ) (t : Option Text) → Pc
  return_fill : (p : Process) (k : ℕ) (t : Option Text) → Pc
  -- the space is given back: before the last `sem_post`
  returned : (p : Process) (k : ℕ) → Pc
  finished : Pc

-- Between `sem_wait` and `sem_post`.
abbrev pub inside : Pc → ℕ
inside (unlisting _) = 1
inside (unlist_open _ _) = 1
inside (unlist_fill _ _) = 1
inside (searching _) = 1
inside (refused _) = 1
inside (take_open _ _ _) = 1
inside (take_fill _ _ _) = 1
inside (taken _ _) = 1
inside (returning _ _) = 1
inside (return_open _ _ _) = 1
inside (return_fill _ _ _) = 1
inside (returned _ _) = 1
inside _ = 0

-- Between the two halves of a write of the memory.
abbrev pub filling : Pc → ℕ
filling (take_fill _ _ _) = 1
filling (return_fill _ _ _) = 1
filling _ = 0

-- About to read the memory.
abbrev pub reading : Pc → ℕ
reading (searching _) = 1
reading (returning _ _) = 1
reading _ = 0
