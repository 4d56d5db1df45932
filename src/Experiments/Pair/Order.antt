-- ===== src/Experiments/Pair/Order.antt =====
-- examples/sem: in which order the two programs write and read a cell.
use so_pr2_synchronization.Base.{ℕ, suc, ◌<◌, ◌≡◌, refl, ap, some, update_same}
use so_pr2_synchronization.Experiments.Pair.{
  raising, storing, waiting, Pair, raise, pass, get, Reach, start, later, lines,
}

-- When the writer is about to raise the semaphore for cell `i` and the reader waits for that cell at
-- a semaphore of 0, there is an order of steps in which the reader prints what the cell held before
-- the writer stores to it.
pub reads_too_early :
    {i : ℕ} {s : Pair}
    → s.writer ≡ raising i
    → s.reader ≡ waiting i
    → s.shared.sem ≡ 0
    → i < lines
    → (t : Pair) × Reach s t × t.seen i ≡ some (s.shared.cells i) × t.writer ≡ storing i
reads_too_early {i} {s} writer reader red less = (
  _,
  later (later (later start (raise writer less)) (pass reader less (ap suc red))) (get refl),
  update_same s.seen i (some (s.shared.cells i)),
  refl,
)
