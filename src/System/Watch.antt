-- ===== src/System/Watch.antt =====
-- producer.c and spy.c: what the spy shows of the memory while the producer runs.
use so_pr2_synchronization.Base.{
  suc, length, false, ap, ◌∙◌, ℕ, ◌+◌, ◌≤◌, ◌<◌, ◌≡◌, ◌⊎◌, inl, inr, [], ◌∷◌, some, pos, Text,
  total, dec_lt, arith,
}
use so_pr2_synchronization.Json.{Parson, IsLawful, get_object}
use so_pr2_synchronization.Files.{File, Syscalls, all_ok, exit, exit_failure, read_file, pretty}
use so_pr2_synchronization.Files.Laws.{read_file-IsText_ok}
use so_pr2_synchronization.Algorithms.{Algorithm, free_space}
use so_pr2_synchronization.Memory.Laws.{free_space-Holds}
use so_pr2_synchronization.Worker.Points.{filling}
use so_pr2_synchronization.Worker.Texts.{array_of}
use so_pr2_synchronization.System.{System, init, Reach}
use so_pr2_synchronization.System.Invariant.{held}
use so_pr2_synchronization.System.Progress.{CanWrite}
use so_pr2_synchronization.System.Safety.{Starts, Reach-Kept}
use so_pr2_synchronization.Files.Torn.{opened, copying}
use so_pr2_synchronization.Files.Torn.Reads.{take, Moment-read, Moment-Left}
use so_pr2_synchronization.System.Glimpse.{
  Glimpse, whole, half, text_of, text_of-Lacks, quiet-Glimpse,
}
use so_pr2_synchronization.Spy.{puts, finished, exits, show_memory, spy_on_waiting, spy_on_memory}
use so_pr2_synchronization.Memory.{process_name}
use so_pr2_synchronization.System.Listed.{list_filling}
use so_pr2_synchronization.System.Naming.{is_listed, HoldsList}
use so_pr2_synchronization.System.Waiting.{Orderly, waiting_list_exact}

module _ (P : Parson) where
  -- Neither of the two commands finds anything in a file that has been truncated.
  truncated_exits :
      (calls : Syscalls) {file : File} → file ≡ some [] → read_file P calls file ≡ exit exit_failure
  unfolding read_file
  truncated_exits calls e = rw e (ground arith)

  shows_nothing :
      (calls : Syscalls) {file : File}
      → file ≡ some []
      → (show_memory P calls file ≡ (exits exit_failure, []))
        × (spy_on_memory P calls file ≡ (exits exit_failure, []))
  unfolding show_memory spy_on_memory
  shows_nothing calls e =
      (rw (show_memory, truncated_exits calls e), rw (spy_on_memory, truncated_exits calls e))

module _ (P : Parson) (L : IsLawful P) (can : CanWrite P) (algorithm : Algorithm) {count n : ℕ}
    {capacity : ℕ → ℕ} {memory on_waiting : File} (starts : Starts P count capacity memory) where
  pub quiet_shows :
      {s : System}
      → Reach P algorithm n (init memory on_waiting) s
      → total filling n s.pc ≡ 0
      → (text : Text) × (show_memory P all_ok s.shared.memory ≡ (finished, text ∷ []))
        × ((k : ℕ)
            → k < count
            → (x : ℕ) × (free_space P (array_of P (some text)) k ≡ pos x)
              × (x + total (held k) n s.pc ≡ capacity k))
  unfolding show_memory array_of
  quiet_shows {s} reached nobody =
      let kept = Reach-Kept P L algorithm starts reached in
      let st = kept.inv.stored nobody in
      let r = st.represents in
      let (u, shown) = can.writes_pretty r.value in
      let there : array_of P (some u) ≡ r.arr =
        rw (array_of, L.parse-pretty r.value u shown, r.is_array) in
      (
        u,
        rw (show_memory, read_file-IsText_ok P st.is_text, pretty, r.parses, shown),
        λ k h. (kept.free k, rw there (free_space-Holds P L r.holds k h), kept.inv.adds_up k h),
      )

  -- If the library can write every document, then in whatever state of a run of the producer, and at
  -- whatever moment of the write of a worker, the spy looks at the memory: if no worker is in the
  -- middle of a write, its command 1 prints, with system calls that succeed, one text, and in the
  -- document of this text the free space of each partition and what the workers have there add up to
  -- the capacity. Otherwise either the file is empty, and command 1 and command 2 end the spy with
  -- status 1, whatever its system calls do; or command 1 does, with system calls that succeed, what
  -- `puts` does with the pretty form of the first characters of a text that a worker is writing, as
  -- many as are copied by then, or with the null pointer if they are no JSON.
  pub show_memory_at_run :
      {s : System} {f : File}
      → Reach P algorithm n (init memory on_waiting) s
      → Glimpse n s f
      → ((total filling n s.pc ≡ 0)
          × (text : Text) × (show_memory P all_ok f ≡ (finished, text ∷ []))
          × ((k : ℕ)
              → k < count
              → (x : ℕ) × (free_space P (array_of P (some text)) k ≡ pos x)
                × (x + total (held k) n s.pc ≡ capacity k)))
        ⊎ ((1 ≤ total filling n s.pc)
            × (f ≡ some [])
            × ((calls : Syscalls)
                → (show_memory P calls f ≡ (exits exit_failure, []))
                  × (spy_on_memory P calls f ≡ (exits exit_failure, []))))
        ⊎ ((i : ℕ) × (i < n)
            × (text : Text) × (text_of (s.pc i) ≡ some text)
            × (m : ℕ) × (m ≤ suc (length text))
            × (show_memory P all_ok f ≡ puts (pretty P (take m text))))
  unfolding show_memory
  show_memory_at_run {s} {f} reached glimpse = elim (dec_lt 0 (total filling n s.pc)) [
    | no quiet ↦
        let nobody : total filling n s.pc ≡ 0 = omega arith in
        let same = quiet-Glimpse nobody glimpse in
        let (text, shown, sums) = quiet_shows reached nobody in
        inl (nobody, text, ap (show_memory P all_ok) same ∙ shown, sums)
    | yes writing ↦ inr (writing_shows reached writing glimpse)
  ]
    where
      writing_shows :
          {s : System} {f : File}
          → Reach P algorithm n (init memory on_waiting) s
          → 1 ≤ total filling n s.pc
          → Glimpse n s f
          → ((1 ≤ total filling n s.pc)
              × (f ≡ some [])
              × ((calls : Syscalls)
                  → (show_memory P calls f ≡ (exits exit_failure, []))
                    × (spy_on_memory P calls f ≡ (exits exit_failure, []))))
            ⊎ ((i : ℕ) × (i < n)
                × (text : Text) × (text_of (s.pc i) ≡ some text)
                × (m : ℕ) × (m ≤ suc (length text))
                × (show_memory P all_ok f ≡ puts (pretty P (take m text))))
      writing_shows reached writing whole =
          let empty = (Reach-Kept P L algorithm starts reached).inv.emptied writing in
          inl (writing, empty, λ calls. shows_nothing P calls empty)
      writing_shows reached writing (half i {p = opened} lt e m) =
          let empty = ap some (Moment-Left m) in
          inl (writing, empty, λ calls. shows_nothing P calls empty)
      writing_shows {s} reached writing (half i {p = copying k} lt e m) =
          let kept = Reach-Kept P L algorithm starts reached in
          let no_nul =
            text_of-Lacks P count i kept.free kept.processes (s.pc i) e (kept.inv.pending i lt) in
          inr (i, lt, _, e, k, (Moment-Left m).0, rw (show_memory, Moment-read P k no_nul m))

module _ (P : Parson) (L : IsLawful P) (can : CanWrite P) (algorithm : Algorithm) {n : ℕ}
    {memory on_waiting : File} {first : P.Object} (list : HoldsList P on_waiting first)
    (nobody : (i : ℕ) → i < n → P.object_has_value first (process_name i) ≡ false) where
  -- If the library can write every document, the waiting list is an object without the names of the
  -- workers at the start, and at most one worker at a time is between its read of the list and the
  -- end of its write, then, while nobody writes the list, the spy's command for it prints, with
  -- system calls that succeed, one text, and the object of this text names exactly the workers that
  -- have entered themselves and have not yet taken themselves off.
  pub spy_on_waiting_at_run :
      {s : System}
      → Orderly P algorithm n (init memory on_waiting) s
      → total list_filling n s.pc ≡ 0
      → (text : Text) × (o : P.Object) × (spy_on_waiting P all_ok s.shared.on_waiting
          ≡ (finished, text ∷ []))
        × (get_object P (P.parse_string text) ≡ some o)
        × ((i : ℕ) → i < n → P.object_has_value o (process_name i) ≡ is_listed (s.pc i))
  unfolding spy_on_waiting
  spy_on_waiting_at_run {s} orderly none_writes =
      let (o, holds, names) = waiting_list_exact P L algorithm list nobody orderly none_writes in
      let (u, shown) = can.writes_pretty holds.value in
      (
        u,
        o,
        rw (spy_on_waiting, read_file-IsText_ok P holds.is_text, pretty, holds.parses, shown),
        ap (get_object P) (L.parse-pretty holds.value u shown) ∙ holds.is_object,
        names,
      )
