-- ===== src/System/Safety.antt =====
-- producer.c: what every run of the producer keeps to, from the files that the initializer leaves.
use so_pr2_synchronization.Base.{
  ℕ, ◌+◌, ◌^◌, ◌≤◌, ◌<◌, ◌≡◌, ◌≢◌, refl, ap, ◌∙◌, none, some, inr, pos, Text, codes, subst, total,
  sum_below-eq_zero, sum_below-pos, arith,
}
use so_pr2_synchronization.Json.{Parson, IsLawful, child, array_get_object}
use so_pr2_synchronization.Files.{File, all_ok, ok, read_file, pretty}
use so_pr2_synchronization.Files.Laws.{IsText, read_file-IsText_ok}
use so_pr2_synchronization.Algorithms.{Algorithm, free_space}
use so_pr2_synchronization.Memory.{process_name, process_object}
use so_pr2_synchronization.Memory.Laws.{free_space-Holds}
use so_pr2_synchronization.Worker.Points.{Process, Pc, created, sleeping, inside, filling, reading}
use so_pr2_synchronization.Worker.Texts.{array_of}
use so_pr2_synchronization.System.{System, pick, init, Reach, start, later}
use so_pr2_synchronization.System.Invariant.{held, IsPlaced, IsEntered, entry_of, Stored, Inv}
use so_pr2_synchronization.System.Effects.{others_outside, nobody_fills}
use so_pr2_synchronization.System.Entries.{IsEntered-entry_of}
use so_pr2_synchronization.System.Keeps.{Kept, Move-Inv}

-- The memory at the start: so many partitions, each with all of its capacity free.
pub record Starts (P : Parson) (count : ℕ) (capacity : ℕ → ℕ) (memory : File) : Type 0 where
  pub small : (k : ℕ) → k < count → capacity k < 2 ^ 31
  pub processes : ℕ → P.Object
  pub stored : Stored P count memory capacity processes

pub reading-inside : (p : Pc) → reading p ≡ 1 → (inside p ≡ 1) × (filling p ≡ 0)
reading-inside created h = absurd (omega arith)
reading-inside p h = omega arith

inside-le-one : (p : Pc) → inside p ≤ 1
inside-le-one created = omega arith
inside-le-one p = omega arith

module _ (P : Parson) (L : IsLawful P) (algorithm : Algorithm) {count n : ℕ} {capacity : ℕ → ℕ}
    {memory on_waiting : File} (starts : Starts P count capacity memory) where
  pub init-Inv :
      Inv P count n capacity starts.processes
        (init memory on_waiting).shared
        (λ _. created)
        capacity
        starts.processes
  init-Inv = record {
    small = starts.small;
    one_inside = omega (arith, sum_below-eq_zero n {f = λ _. 0} (λ j h. refl));
    adds_up = λ k h. omega (arith, sum_below-eq_zero n {f = λ _. 0} (λ j h. refl));
    placed = λ i h. tt;
    entered = λ i h k. inr refl;
    pending = λ i h. tt;
    present = (starts.stored.is_text.bytes, starts.stored.is_text.is_there);
    stored = λ _. starts.stored;
    emptied =
        λ writing. absurd (omega (arith, writing, sum_below-eq_zero n {f = λ _. 0} (λ j h. refl)));
  }

  pub Reach-Kept :
      {s : System}
      → Reach P algorithm n (init memory on_waiting) s
      → Kept P count n capacity starts.processes s.shared s.pc
  Reach-Kept start = record { free = capacity; processes = starts.processes; inv = init-Inv }
  Reach-Kept (later r (pick i lt mv)) = (Move-Inv P L algorithm (Reach-Kept r).inv i lt mv).after

  module _ {s : System} (reached : Reach P algorithm n (init memory on_waiting) s) where
    -- While a worker is between its `sem_wait` and its `sem_post`, no other one is.
    pub mutual_exclusion :
        (i j : ℕ) → i < n → j < n → i ≢ j → inside (s.pc i) ≡ 1 → inside (s.pc j) ≡ 0
    mutual_exclusion i j hi hj ne within =
        others_outside (Reach-Kept reached).inv i hi within j hj ne

    -- The workers never have more space in a partition than its capacity.
    pub never_overcommitted : (k : ℕ) → k < count → total (held k) n s.pc ≤ capacity k
    never_overcommitted k h = omega (arith, (Reach-Kept reached).inv.adds_up k h)

    -- Unless a worker is in the middle of a write, the file of the memory holds a text, and the
    -- free space that its document gives for a partition is the capacity less the space that the
    -- workers have there.
    pub memory_adds_up :
        (k : ℕ)
        → k < count
        → total filling n s.pc ≡ 0
        → (text : Text) × (x : ℕ) × IsText text s.shared.memory
          × (free_space P (array_of P (some text)) k ≡ pos x)
          × (x + total (held k) n s.pc ≡ capacity k)
    unfolding array_of
    memory_adds_up k h quiet =
        let kept = Reach-Kept reached in
        let st = kept.inv.stored quiet in
        let r = st.represents in
        let there : array_of P (some st.text) ≡ r.arr = rw (array_of, r.parses, r.is_array) in
        (
          st.text,
          kept.free k,
          st.is_text,
          rw there (free_space-Holds P L r.holds k h),
          kept.inv.adds_up k h,
        )

    -- If the document has no entry of a worker in a partition at the start, it has one, with the size
    -- and the delay, exactly while the worker has space there, unless a worker is in the middle of a
    -- write.
    pub entries_exact :
        (i k : ℕ)
        → i < n
        → k < count
        → P.object_get_object (starts.processes k) (process_name i) ≡ none
        → total filling n s.pc ≡ 0
        → (text : Text) × IsText text s.shared.memory
          × (child P
                (child P (array_get_object P (array_of P (some text)) k) (codes "processes"))
                (process_name i)
              ≡ entry_of P (s.pc i) k)
    unfolding array_of
    entries_exact i k h within at_start quiet =
        let kept = Reach-Kept reached in
        let st = kept.inv.stored quiet in
        let r = st.represents in
        let there : array_of P (some st.text) ≡ r.arr = rw (array_of, r.parses, r.is_array) in
        let (root, found, part) = r.holds.partition k within in
        (
          st.text,
          st.is_text,
          rw (there, found, part.processes_are)
              (IsEntered-entry_of P L i starts.processes kept.processes k (s.pc i) at_start
                (kept.inv.entered i h)),
        )

    -- While a worker sleeps, the document has its entry in the partition that it has space in, with
    -- its size and its delay, unless a worker is in the middle of a write.
    pub sleeper_listed :
        (i : ℕ) {p : Process} {k : ℕ}
        → i < n
        → s.pc i ≡ sleeping p k
        → total filling n s.pc ≡ 0
        → (text : Text) × IsText text s.shared.memory
          × (child P
                (child P (array_get_object P (array_of P (some text)) k) (codes "processes"))
                (process_name i)
              ≡ some (process_object P p.process_size p.process_delay))
    unfolding array_of
    sleeper_listed i {p} {k} h here quiet =
        let kept = Reach-Kept reached in
        let st = kept.inv.stored quiet in
        let r = st.represents in
        let there : array_of P (some st.text) ≡ r.arr = rw (array_of, r.parses, r.is_array) in
        let placed = subst (IsPlaced count) here (kept.inv.placed i h) in
        let entry =
          subst (IsEntered P i starts.processes kept.processes) here (kept.inv.entered i h) in
        let (root, found, part) = r.holds.partition k placed.1 in
        (st.text, st.is_text, rw (there, found, part.processes_are) entry.0)

    -- A worker that is about to read the memory finds a text: unless a system call fails, its
    -- read returns, and never meets a file that is missing or empty.
    pub reads_return :
        (i : ℕ)
        → i < n
        → reading (s.pc i) ≡ 1
        → (text : Text) × (read_file P all_ok s.shared.memory ≡ ok (pretty P text))
    reads_return i h at =
        let inv = (Reach-Kept reached).inv in
        let (within, quiet) = reading-inside (s.pc i) at in
        let st = inv.stored (nobody_fills inv i h within quiet) in
        (st.text, read_file-IsText_ok P st.is_text)

    -- While the semaphore is taken, some worker is inside and will post it.
    pub no_deadlock : s.shared.sem ≡ 0 → (i : ℕ) × (i < n) × (inside (s.pc i) ≡ 1)
    no_deadlock taken =
        let inv = (Reach-Kept reached).inv in
        let (i, h, at) =
          sum_below-pos n (λ x. inside (s.pc x)) (omega (arith, inv.one_inside, taken)) in
        (i, h, omega (arith, at, inside-le-one (s.pc i)))

    -- When no worker has space in a partition any more, and none is in the middle of a write, all of
    -- the partition is free again.
    pub all_returned :
        (k : ℕ)
        → k < count
        → ((i : ℕ) → i < n → held k (s.pc i) ≡ 0)
        → total filling n s.pc ≡ 0
        → (text : Text) × IsText text s.shared.memory
          × (free_space P (array_of P (some text)) k ≡ pos (capacity k))
    all_returned k h nothing quiet =
        let (text, x, is_text, e, sum) = memory_adds_up k h quiet in
        (text, is_text, e ∙ ap pos (omega (arith, sum, sum_below-eq_zero n nothing)))
