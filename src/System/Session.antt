-- ===== src/System/Session.antt =====
-- initializer.c, producer.c and spy.c one after the other: a session that starts from any files, also
-- from those that an earlier producer has left when it ended.
use so_pr2_synchronization.Base.{
  ℕ, ◌^◌, ◌<◌, ◌≡◌, ap, ◌∙◌, List, [], ◌∷◌, some, pos, Text, sum_below-eq_zero, arith,
}
use so_pr2_synchronization.Json.{Parson, IsLawful}
use so_pr2_synchronization.Files.{File, Syscalls, all_ok, ok}
use so_pr2_synchronization.Algorithms.{Algorithm, free_space}
use so_pr2_synchronization.Memory.Laws.{Holds}
use so_pr2_synchronization.Worker.Points.{filling}
use so_pr2_synchronization.Worker.Points
use so_pr2_synchronization.Worker.Texts.{array_of}
use so_pr2_synchronization.System.{System, init, Reach}
use so_pr2_synchronization.System.Invariant.{held}
use so_pr2_synchronization.System.Safety.{Starts}
use so_pr2_synchronization.System.Progress.{CanWrite}
use so_pr2_synchronization.System.Listed.{IsDocument}
use so_pr2_synchronization.System.Waiting.{Orderly}
use so_pr2_synchronization.System.Orderly.{Orderly-Reach, orderly_can_finish}
use so_pr2_synchronization.System.Watch.{quiet_shows}
use so_pr2_synchronization.Initializer.{initialize}
use so_pr2_synchronization.Initializer.Laws.{initialize-Starts}
use so_pr2_synchronization.Spy.{finished, show_memory}

module _ (P : Parson) (L : IsLawful P) (can : CanWrite P) (algorithm : Algorithm) {count n : ℕ}
    {capacity : ℕ → ℕ} {memory on_waiting : File} (starts : Starts P count capacity memory) where
  -- The end of a run, as the spy sees it.
  finished_shows :
      {u : System}
      → Reach P algorithm n (init memory on_waiting) u
      → ((j : ℕ) → j < n → u.pc j ≡ Points.finished)
      → (text : Text) × (show_memory P all_ok u.shared.memory ≡ (finished, text ∷ []))
        × ((k : ℕ) → k < count → free_space P (array_of P (some text)) k ≡ pos (capacity k))
  finished_shows {u} reached over =
      let nobody = sum_below-eq_zero n {f = λ x. filling (u.pc x)} (λ j h. ap filling (over j h)) in
      let (text, shown, sums) = quiet_shows P L can algorithm starts reached nobody in
      (
        text,
        shown,
        λ k h.
            let (x, free, sum) = sums k h in
            free
            ∙ ap pos (
                omega (
                  arith,
                  sum,
                  sum_below-eq_zero n {f = λ x. held k (u.pc x)} (λ j h'. ap (held k) (over j h')),
                )),
      )

module _ (P : Parson) (L : IsLawful P) (can : CanWrite P) (algorithm : Algorithm) {n : ℕ} where
  -- Whatever the files hold, if the initializer returns for a schema of partitions and the library can
  -- write every document: from every state of a run of the producer on the files that it has left, in
  -- which at most one worker at a time is between its read of the waiting list and the end of its
  -- write, some order of further steps brings all workers to their end, and command 1 of the spy, with
  -- system calls that succeed, then prints a text whose document gives each partition the free space
  -- that it has in the schema.
  pub initialize-show_memory :
      (calls calls' : Syscalls) (schema : P.Value) (memory on_waiting : File) (arr : List P.Value)
      (count : ℕ) (capacity : ℕ → ℕ) (processes : ℕ → P.Object)
      → P.value_get_array schema ≡ some arr
      → Holds P arr count capacity processes
      → ((k : ℕ) → k < count → capacity k < 2 ^ 31)
      → (initialize P calls calls' (some schema) memory on_waiting).0 ≡ ok tt
      → {s : System}
      → Orderly P algorithm n
          (init
            (initialize P calls calls' (some schema) memory on_waiting).1
            (initialize P calls calls' (some schema) memory on_waiting).2)
          s
      → (u : System) × Reach P algorithm n s u
        × ((j : ℕ) → j < n → u.pc j ≡ Points.finished)
        × (text : Text) × (show_memory P all_ok u.shared.memory ≡ (finished, text ∷ []))
        × ((k : ℕ) → k < count → free_space P (array_of P (some text)) k ≡ pos (capacity k))
  initialize-show_memory calls calls' schema memory on_waiting arr count capacity processes a h
        small e orderly =
      let (starts, (value, text, braces, parses, is_text)) =
        initialize-Starts P L calls calls' schema memory on_waiting arr count capacity processes a h
          small e in
      let listed : IsDocument P (initialize P calls calls' (some schema) memory on_waiting).2 =
        record { text = text; is_text = is_text; value = value; parses = parses } in
      let (u, rest, last, (over, _, _)) =
        orderly_can_finish P L can algorithm starts listed orderly in
      let (text, shown, frees) =
        finished_shows P L can algorithm starts (Orderly-Reach P algorithm last) over in
      (u, rest, over, text, shown, frees)
