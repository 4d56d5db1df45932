-- ===== src/Experiments/Pair.antt =====
-- examples/sem/psem.c and examples/sem/psem2.c: a writer and a reader of shared memory, with a
-- semaphore between them.
pub mod Order
use so_pr2_synchronization.Base.{
  ℕ, zero, suc, ◌-◌, ◌≤◌, ◌<◌, ◌≡◌, Bool, true, false, Option, none, some, update, if◌then◌else◌,
}

-- Which calls of the preparations succeed. `shmat` answers -1 where it fails, and the programs
-- test for NULL.
pub record Calls : Type 0 where
  pub ftok_ok : Bool
  pub shmget_ok : Bool
  pub shmat_ok : Bool
  pub sem_ftok_ok : Bool
  pub semget_ok : Bool

-- How the preparations end. With `bad_pointer` the first access to the memory faults.
pub data Prepared : Type 0 where
  exits : (status : ℕ) → Prepared
  ready : Prepared
  bad_pointer : Prepared

-- psem.c
unfoldable pub prepare_writer : Calls → Prepared
prepare_writer calls =
    if calls.ftok_ok
    then if calls.shmget_ok
      then if calls.sem_ftok_ok
        then if calls.semget_ok then if calls.shmat_ok then ready else bad_pointer else exits 0
        else exits 0
      else exits 0
    else exits 0

-- psem2.c: `shmget` does not make the memory, so it fails where the writer has not made it.
unfoldable pub prepare_reader : (made : Bool) → Calls → Prepared
unfolding prepare_writer
prepare_reader made calls = if made then prepare_writer calls else exits 0

-- Semaphore 0 and the shared array.
pub record Shared : Type 0 where
  pub sem : ℕ
  pub cells : ℕ → ℕ

abbrev pub lines : ℕ
lines = 5

-- Where the writer stands in `crearProceso(5, 3)`: before `semop`, before the store, or behind the
-- loop.
pub data Writer : Type 0 where
  raising : (i : ℕ) → Writer
  storing : (i : ℕ) → Writer
  gone : Writer

-- Where the reader stands in `main`: before `semctl`, before `semop`, before the read, or behind the
-- loop. Its `i` has no first value in the source.
pub data Reader : Type 0 where
  resetting : (i : ℕ) → Reader
  waiting : (i : ℕ) → Reader
  reading : (i : ℕ) → Reader
  passed : Reader

pub record Pair : Type 0 where
  pub shared : Shared
  pub writer : Writer
  pub reader : Reader
  -- how many of the two are attached to the segment, and whether it has been removed: it goes with
  -- the last of them
  pub attached : ℕ
  pub doomed : Bool
  -- what the reader has printed for each index
  pub seen : ℕ → Option ℕ

-- `semctl` is given a pointer where it takes a number: it sets whatever it makes of that, or fails.
abbrev pub reset : Option ℕ → ℕ → ℕ
reset none sem = sem
reset (some value) sem = value

pub data Step (s : Pair) : Pair → Type 0 where
  raise :
      {i : ℕ}
      → s.writer ≡ raising i
      → i < lines
      → Step s
          (record s { shared = record s.shared { sem = suc s.shared.sem }; writer = storing i })
  put :
      {i : ℕ}
      → s.writer ≡ storing i
      → Step s (record s {
        shared = record s.shared { cells = update s.shared.cells i i };
        writer = raising (suc i);
      })
  -- `shmdt` and `shmctl` with IPC_RMID
  leave :
      {i : ℕ}
      → s.writer ≡ raising i
      → lines ≤ i
      → Step s (record s { writer = gone; attached = s.attached - 1; doomed = true })
  set :
      (value : Option ℕ) {i : ℕ}
      → s.reader ≡ resetting i
      → Step s (record s {
        shared = record s.shared { sem = reset value s.shared.sem };
        reader = waiting i;
      })
  pass :
      {i n : ℕ}
      → s.reader ≡ waiting i
      → i < lines
      → s.shared.sem ≡ suc n
      → Step s (record s { shared = record s.shared { sem = n }; reader = reading i })
  get :
      {i : ℕ}
      → s.reader ≡ reading i
      → Step s
          (record s { reader = waiting (suc i); seen = update s.seen i (some (s.shared.cells i)) })
  end :
      {i : ℕ}
      → s.reader ≡ waiting i
      → lines ≤ i
      → Step s (record s { reader = passed; attached = s.attached - 1 })

pub data Reach (s : Pair) : Pair → Type 0 where
  start : Reach s s
  later : {t u : Pair} → Reach s t → Step t u → Reach s u
