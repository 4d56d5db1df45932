-- ===== src/System/Completes.antt =====
-- producer.c: runs up to the end of all workers.
use so_pr2_synchronization.Base.{
  ℕ, zero, suc, ◌≤◌, ◌<◌, ◌≡◌, refl, ap, dec_lt, some, inr, pos, Text, total, le-sum_below,
  sum_below-eq_zero, arith,
}
use so_pr2_synchronization.Json.{Parson, IsLawful}
use so_pr2_synchronization.Files.{File}
use so_pr2_synchronization.Files.Laws.{IsText}
use so_pr2_synchronization.Algorithms.{Algorithm, free_space}
use so_pr2_synchronization.Worker.Points.{finished, inside, filling}
use so_pr2_synchronization.Worker.Texts.{array_of}
use so_pr2_synchronization.System.{System, pick, init, Reach, start, later}
use so_pr2_synchronization.System.Invariant.{held}
use so_pr2_synchronization.System.Safety.{Starts, Reach-Kept, all_returned}
use so_pr2_synchronization.System.Progress.{CanWrite}
use so_pr2_synchronization.System.Listed.{IsDocument, Live}
use so_pr2_synchronization.System.Live.{Move-Live}
use so_pr2_synchronization.System.Moves.{left-finished, someone_moves}
use so_pr2_synchronization.System.Ends.{left, Reach-left}

module _ (P : Parson) (algorithm : Algorithm) {n : ℕ} where
  -- One run after the other.
  pub onward :
      {s t u : System} → Reach P algorithm n s t → Reach P algorithm n t u → Reach P algorithm n s u
  onward first start = first
  onward first (later reached step) = later (onward first reached) step

-- All workers are at their end, with all of the space given back.
abbrev pub IsOver : (P : Parson) → (count n : ℕ) → (ℕ → ℕ) → System → Type 0
IsOver P count n capacity u =
    ((j : ℕ) → j < n → u.pc j ≡ finished)
    × (u.shared.sem ≡ 1)
    × ((k : ℕ)
        → k < count
        → (text : Text) × IsText text u.shared.memory
          × (free_space P (array_of P (some text)) k ≡ pos (capacity k)))

-- A state from which every worker can come to its end.
abbrev Completed : (P : Parson) → Algorithm → (count n : ℕ) → (ℕ → ℕ) → System → Type 0
Completed P algorithm count n capacity s =
    (u : System) × Reach P algorithm n s u × IsOver P count n capacity u

module _ (P : Parson) (L : IsLawful P) (can : CanWrite P) (algorithm : Algorithm) {count n : ℕ}
    {capacity : ℕ → ℕ} {memory on_waiting : File} (starts : Starts P count capacity memory)
    (listed : IsDocument P on_waiting) where
  pub Reach-Live :
      {s : System} → Reach P algorithm n (init memory on_waiting) s → Live P n s.shared s.pc
  Reach-Live start = record { listed = inr listed; full = λ nobody. listed; writing = λ i h. tt }
  Reach-Live (later reached (pick i lt mv)) =
      Move-Live P L can algorithm (Reach-Kept P L algorithm starts reached).inv (Reach-Live reached)
        i lt refl mv

  pub none_left :
      {s : System}
      → Reach P algorithm n (init memory on_waiting) s
      → total left n s.pc ≡ 0
      → IsOver P count n capacity s
  none_left {s} reached none_is =
      let finished_all : (j : ℕ) → j < n → s.pc j ≡ finished = λ j h.
        left-finished (s.pc j) (omega (arith, le-sum_below n (λ x. left (s.pc x)) j h, none_is)) in
      let inv = (Reach-Kept P L algorithm starts reached).inv in
      (
        finished_all,
        omega (
          arith,
          inv.one_inside,
          sum_below-eq_zero n {f = λ x. inside (s.pc x)} (λ j h. ap inside (finished_all j h)),
        ),
        λ k within.
            all_returned P L algorithm starts reached k within
              (λ j h. ap (held k) (finished_all j h))
              (sum_below-eq_zero n {f = λ x. filling (s.pc x)}
                (λ j h. ap filling (finished_all j h))),
      )

  completes_within :
      (m : ℕ) {s : System}
      → Reach P algorithm n (init memory on_waiting) s
      → total left n s.pc ≤ m
      → Completed P algorithm count n capacity s
  completes_within zero reached h = (_, start, none_left reached (omega arith))
  completes_within (suc m) {s} reached h = elim (dec_lt 0 (total left n s.pc)) [
    | no nobody ↦ (_, start, none_left reached (omega arith))
    | yes some_left ↦
        let (j, lt, t, p, mv) =
          someone_moves P L algorithm (Reach-Kept P L algorithm starts reached).inv
            (Reach-Live reached) some_left in
        let step = pick j lt mv in
        let (u, rest, over) =
          completes_within m (later reached step)
            (omega (arith, h, Reach-left P algorithm (later start step))) in
        (u, onward P algorithm (later start step) rest, over)
  ]

  -- If the library can write every document, and the waiting list holds one at the start, then from
  -- every reachable state some order of further steps brings all workers to their end, with the
  -- semaphore free and all of the space of every partition given back: no state of a run is a dead
  -- end.
  pub all_can_finish :
      {s : System}
      → Reach P algorithm n (init memory on_waiting) s
      → (u : System) × Reach P algorithm n s u
        × ((j : ℕ) → j < n → u.pc j ≡ finished)
        × (u.shared.sem ≡ 1)
        × ((k : ℕ)
            → k < count
            → (text : Text) × IsText text u.shared.memory
              × (free_space P (array_of P (some text)) k ≡ pos (capacity k)))
  all_can_finish {s} reached =
      let (u, rest, (all_finished, posted, returned_all)) =
        completes_within (total left n s.pc) reached (omega arith) in
      (u, rest, all_finished, posted, returned_all)
