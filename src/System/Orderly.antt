-- ===== src/System/Orderly.antt =====
-- producer.c: runs in which at most one worker at a time is between its read of the waiting list and the
-- end of its write of it. In such a run no worker reads the list in the middle of a write.
use so_pr2_synchronization.Base.{
  ℕ, zero, suc, ◌≤◌, ◌<◌, ◌≡◌, refl, sym, subst, dec_lt, some, pos, Text, total, total-update,
  sum_below-pos, sum_below-eq_zero, arith,
}
use so_pr2_synchronization.Json.{Parson, IsLawful}
use so_pr2_synchronization.Files.{File, all_ok, exit_failure, fill, open_truncated}
use so_pr2_synchronization.Files.Laws.{IsText}
use so_pr2_synchronization.Algorithms.{Algorithm, free_space}
use so_pr2_synchronization.Worker.{
  Shared, Move, list_truncate, list_write, unlist_truncate, unlist_write,
}
use so_pr2_synchronization.Worker.Points.{
  Pc, finished, list_open, list_fill, unlist_open, unlist_fill,
}
use so_pr2_synchronization.Worker.Texts.{array_of}
use so_pr2_synchronization.System.{System, Step, pick, init, Reach, start, later}
use so_pr2_synchronization.System.Safety.{Starts, Reach-Kept}
use so_pr2_synchronization.System.Progress.{CanWrite}
use so_pr2_synchronization.System.Listed.{IsDocument, IsWriting, list_filling}
use so_pr2_synchronization.System.Naming.{list_changing}
use so_pr2_synchronization.System.Moves.{someone_moves}
use so_pr2_synchronization.System.Ends.{left, Reach-left}
use so_pr2_synchronization.System.Waiting.{Orderly, begin, next}
use so_pr2_synchronization.System.Completes.{Reach-Live, none_left, IsOver, onward}
use so_pr2_synchronization.System.Exits.{Exits}
use so_pr2_synchronization.System.Exits.Races.{list_reading, Exits-only_on_race}

list_changing_le : (p : Pc) → list_changing p ≤ 1
list_changing_le (list_open p t) = omega arith
list_changing_le (list_fill p t) = omega arith
list_changing_le (unlist_open p t) = omega arith
list_changing_le (unlist_fill p t) = omega arith
list_changing_le p = omega arith

module _ (P : Parson) (algorithm : Algorithm) {n : ℕ} where
  pub Orderly-Reach : {s t : System} → Orderly P algorithm n s t → Reach P algorithm n s t
  Orderly-Reach begin = start
  Orderly-Reach (next before step alone) = later (Orderly-Reach before) step

  Orderly-alone :
      {memory on_waiting : File} {t : System}
      → Orderly P algorithm n (init memory on_waiting) t
      → total list_changing n t.pc ≤ 1
  Orderly-alone begin = omega (arith, sum_below-eq_zero n {f = λ _. 0} (λ j h. refl))
  Orderly-alone (next before step alone) = alone

module _ (P : Parson) (algorithm : Algorithm) where
  -- A worker that changes the list can go on with it.
  changes_on :
      (i : ℕ) (s : Shared) (p : Pc)
      → IsWriting P p
      → 1 ≤ list_changing p
      → (t : Shared) × (q : Pc) × Move P algorithm i s p t q
  unfolding open_truncated fill
  changes_on i s (list_open p t) ready h = (_, _, list_truncate all_ok refl)
  changes_on i s (list_fill p t) ready h =
      subst (λ x. (m : Shared) × (q : Pc) × Move P algorithm i s (list_fill p x) m q)
        (sym ready.is_some) (_, _, list_write all_ok refl)
  changes_on i s (unlist_open p t) ready h = (_, _, unlist_truncate all_ok refl)
  changes_on i s (unlist_fill p t) ready h =
      subst (λ x. (m : Shared) × (q : Pc) × Move P algorithm i s (unlist_fill p x) m q)
        (sym ready.is_some) (_, _, unlist_write all_ok refl)
  changes_on i s p ready h = absurd (omega arith)

module _ (P : Parson) (L : IsLawful P) (can : CanWrite P) (algorithm : Algorithm) {count n : ℕ}
    {capacity : ℕ → ℕ} {memory on_waiting : File} (starts : Starts P count capacity memory)
    (listed : IsDocument P on_waiting) where
  -- While not all have finished, some worker can make a step after which the run is still orderly.
  orderly_step :
      {s : System}
      → Orderly P algorithm n (init memory on_waiting) s
      → 1 ≤ total left n s.pc
      → (u : System) × Step P algorithm n s u × (total list_changing n u.pc ≤ 1)
  orderly_step {s} orderly some_left =
      let reached = Orderly-Reach P algorithm orderly in
      let live = Reach-Live P L can algorithm starts listed reached in
      elim (dec_lt 0 (total list_changing n s.pc)) [
        | yes changing ↦
            let (j, lt, one) = sum_below-pos n (λ x. list_changing (s.pc x)) changing in
            let (t, q, mv) = changes_on P algorithm j s.shared (s.pc j) (live.writing j lt) one in
            (
              _,
              pick j lt mv,
              omega (
                arith,
                Orderly-alone P algorithm orderly,
                total-update list_changing n s.pc j q lt,
                list_changing_le q,
                one,
              ),
            )
        | no nobody ↦
            let (j, lt, t, q, mv) =
              someone_moves P L algorithm (Reach-Kept P L algorithm starts reached).inv live
                some_left in
            (
              _,
              pick j lt mv,
              omega (arith, nobody, total-update list_changing n s.pc j q lt, list_changing_le q),
            )
      ]

  finishes_within :
      (m : ℕ) {s : System}
      → Orderly P algorithm n (init memory on_waiting) s
      → total left n s.pc ≤ m
      → (u : System) × Reach P algorithm n s u
        × Orderly P algorithm n (init memory on_waiting) u
        × IsOver P count n capacity u
  finishes_within zero {s} orderly h = (
    s,
    start,
    orderly,
    none_left P L can algorithm starts listed (Orderly-Reach P algorithm orderly) (omega arith),
  )
  finishes_within (suc m) {s} orderly h = elim (dec_lt 0 (total left n s.pc)) [
    | no nobody ↦ (
      s,
      start,
      orderly,
      none_left P L can algorithm starts listed (Orderly-Reach P algorithm orderly) (omega arith),
    )
    | yes some_left ↦
        let (t, step, alone) = orderly_step orderly some_left in
        let (u, rest, last, over) =
          finishes_within m (next orderly step alone)
            (omega (arith, h, Reach-left P algorithm (later start step))) in
        (u, onward P algorithm (later start step) rest, last, over)
  ]

  -- If the library can write every document, and the waiting list holds one at the start: from every
  -- state of a run in which at most one worker at a time is between its read of the waiting list and
  -- the end of its write, some order of further steps, with which the run stays of this kind, brings
  -- all workers to their end, with the semaphore free and all of the space given back.
  pub orderly_can_finish :
      {s : System}
      → Orderly P algorithm n (init memory on_waiting) s
      → (u : System) × Reach P algorithm n s u
        × Orderly P algorithm n (init memory on_waiting) u
        × IsOver P count n capacity u
  orderly_can_finish {s} orderly = finishes_within (total left n s.pc) orderly (omega arith)

  -- If the library can write every document, and the waiting list holds one at the start: a run in
  -- which the process has not ended, and in which at most one worker at a time is between its read of
  -- the waiting list and the end of its write, and which no step of a worker continues in this way,
  -- whatever the operating system may answer, has all workers at their end, the semaphore free and
  -- all of the space of every partition given back.
  pub stuck_finished :
      {s : System}
      → Orderly P algorithm n (init memory on_waiting) s
      → ((u : System) → Step P algorithm n s u → total list_changing n u.pc ≤ 1 → ⊥)
      → ((j : ℕ) → j < n → s.pc j ≡ finished)
        × (s.shared.sem ≡ 1)
        × ((k : ℕ)
            → k < count
            → (text : Text) × IsText text s.shared.memory
              × (free_space P (array_of P (some text)) k ≡ pos (capacity k)))
  stuck_finished {s} orderly stuck = elim (dec_lt 0 (total left n s.pc)) [
    | no nobody ↦
        none_left P L can algorithm starts listed (Orderly-Reach P algorithm orderly) (omega arith)
    | yes some_left ↦
        let (u, step, alone) = orderly_step orderly some_left in absurd (stuck u step alone)
  ]

  -- If the library can write every document, and the waiting list holds one at the start: in a run in
  -- which at most one worker at a time is between its read of the waiting list and the end of its
  -- write, a worker can end the process with system calls that succeed only by a read of the waiting
  -- list while another is in the middle of a write of it; the status is then 1, and the files are left
  -- as they are.
  pub orderly-Exits :
      {s : System} {status : ℕ} {t : Shared}
      → Orderly P algorithm n (init memory on_waiting) s
      → (i : ℕ) → i < n
      → Exits P all_ok s.shared (s.pc i) status t
      → (list_reading (s.pc i) ≡ 1)
        × (1 ≤ total list_filling n s.pc)
        × (status ≡ exit_failure)
        × (t ≡ s.shared)
  orderly-Exits orderly i lt exits =
      Exits-only_on_race P L can algorithm starts listed (Orderly-Reach P algorithm orderly) i lt
        exits
