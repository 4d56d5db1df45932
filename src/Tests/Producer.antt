-- ===== src/Tests/Producer.antt =====
-- producer.c: two workers over two partitions, at moments of a run with best fit.
use so_pr2_synchronization.Base.{
  length, Bool, true, false, Option, none, dec_lt, zero, suc, subst, ℕ, ◌+◌, ◌⊎◌, ◌≤◌, ◌<◌, ◌≡◌,
  refl, List, [], ◌∷◌, ◌++◌, replicate, some, pos, Text, codes, total, sum_below, arith,
}
use so_pr2_synchronization.Json.{child, array_get_object}
use so_pr2_synchronization.Memory.{process_name}
use so_pr2_synchronization.Json.Reference.{reference}
use so_pr2_synchronization.Json.Reference.Fields.{find}
use so_pr2_synchronization.Json.Reference.Lawful.{reference-IsLawful}
use so_pr2_synchronization.Files.{pretty, Syscalls, exit_failure, all_ok}
use so_pr2_synchronization.Files.Laws.{IsText}
use so_pr2_synchronization.Algorithms.{best_fit, free_space}
use so_pr2_synchronization.Worker.Points.{Pc, finished, inside, reading, filling}
use so_pr2_synchronization.Worker.{Shared, Move}
use so_pr2_synchronization.Worker.Texts.{array_of}
use so_pr2_synchronization.System.{System, Step, pick, init, Reach, start, later}
use so_pr2_synchronization.System.Table.{Table, Acts, all_free}
use so_pr2_synchronization.System.Abstract.{holding_of}
use so_pr2_synchronization.System.Refines.{Reach-refines}
use so_pr2_synchronization.System.Naming.{list_changing}
use so_pr2_synchronization.System.Waiting.{Orderly, begin, next}
use so_pr2_synchronization.System.Orderly.{stuck_finished}
use so_pr2_synchronization.System.Invariant.{held, entry_of, Stored}
use so_pr2_synchronization.System.Watch.{show_memory_at_run}
use so_pr2_synchronization.System.Glimpse.{text_of, whole}
use so_pr2_synchronization.Files.Torn.Reads.{take}
use so_pr2_synchronization.Spy.{Ending, puts, exits, show_memory, spy_on_memory}
use so_pr2_synchronization.System.Safety.{memory_adds_up, mutual_exclusion, entries_exact}
use so_pr2_synchronization.Tests.Schema.{
  reference-CanWrite, memory, on_waiting, capacity, memory-Starts, schema_at_start,
  on_waiting-IsDocument,
}
use so_pr2_synchronization.Tests.Runner.{Run, run}

abbrev initial : System
initial = init memory on_waiting

-- So many moves of a thread.
abbrev turns : ℕ → ℕ → ℕ → List (ℕ × ℕ)
turns count id rand = replicate count (id, rand)

-- Thread 1 has space for 8 in the first partition and sleeps; thread 0 has the semaphore and is
-- about to read the memory.
unfoldable busy : Run best_fit 2 initial
unfolding run memory on_waiting
busy = run best_fit 2 initial (turns 12 1 7 ++ turns 8 0 3) (initial, start)

-- Both have had space in the first partition, and have finished.
unfoldable done : Run best_fit 2 initial
unfolding run memory on_waiting
done = run best_fit 2 initial (turns 12 1 7 ++ (turns 17 0 0 ++ turns 5 1 7)) (initial, start)

-- Thread 1 sleeps, so its entry of the memory is there.
busy_moments : (reading (busy.0.pc 0) ≡ 1) × (inside (busy.0.pc 0) ≡ 1) × (held 0 (busy.0.pc 1) ≡ 8)
unfolding busy
busy_moments = (refl, refl, refl)

finished_both : (done.0.pc 0 ≡ finished) × (done.0.pc 1 ≡ finished) × (done.0.shared.sem ≡ 1)
unfolding done
finished_both = (refl, refl, refl)

memory_adds_up_example :
    (text : Text) × (x : ℕ) × IsText text busy.0.shared.memory
    × (free_space reference (array_of reference (some text)) 0 ≡ pos x)
    × (x + total (held 0) 2 busy.0.pc ≡ capacity 0)
unfolding busy sum_below
memory_adds_up_example =
    memory_adds_up reference reference-IsLawful best_fit memory-Starts busy.1 0 (omega arith) refl

mutual_exclusion_example : inside (busy.0.pc 1) ≡ 0
unfolding busy
mutual_exclusion_example =
    mutual_exclusion reference reference-IsLawful best_fit memory-Starts busy.1 0 1 (omega arith)
      (omega arith) (λ e. omega (arith, e)) refl

entries_exact_example :
    (text : Text) × IsText text busy.0.shared.memory
    × (child reference
          (child reference
            (array_get_object reference (array_of reference (some text)) 0)
            (codes "processes"))
          (process_name 1)
        ≡ entry_of reference (busy.0.pc 1) 0)
unfolding busy sum_below schema_at_start find
entries_exact_example =
    entries_exact reference reference-IsLawful best_fit schema_at_start busy.1 1 0 (omega arith)
      (omega arith) refl refl

Reach-refines_example :
    (t : Table) × Acts best_fit 2 2 (all_free capacity) t
    × (t.holding ≡ (λ i. holding_of (busy.0.pc i)))
    × ((1 ≤ total filling 2 busy.0.pc)
        ⊎ ((processes : ℕ → reference.Object) × Stored reference 2 busy.0.shared.memory t.free
              processes))
Reach-refines_example = Reach-refines reference reference-IsLawful best_fit memory-Starts busy.1

show_memory_at_run_example :
    ((total filling 2 busy.0.pc ≡ 0)
      × (text : Text) × (show_memory reference all_ok busy.0.shared.memory
          ≡ (Ending.finished, text ∷ []))
      × ((k : ℕ)
          → k < 2
          → (x : ℕ) × (free_space reference (array_of reference (some text)) k ≡ pos x)
            × (x + total (held k) 2 busy.0.pc ≡ capacity k)))
    ⊎ ((1 ≤ total filling 2 busy.0.pc)
        × (busy.0.shared.memory ≡ some [])
        × ((calls : Syscalls)
            → (show_memory reference calls busy.0.shared.memory ≡ (exits exit_failure, []))
              × (spy_on_memory reference calls busy.0.shared.memory ≡ (exits exit_failure, []))))
    ⊎ ((i : ℕ) × (i < 2)
        × (text : Text) × (text_of (busy.0.pc i) ≡ some text)
        × (m : ℕ) × (m ≤ suc (length text))
        × (show_memory reference all_ok busy.0.shared.memory
            ≡ puts (pretty reference (take m text))))
show_memory_at_run_example =
    show_memory_at_run reference reference-IsLawful reference-CanWrite best_fit memory-Starts busy.1
      whole

finished-Move :
    {id : ℕ} {s t : Shared} {p q : Pc} → p ≡ finished → Move reference best_fit id s p t q → ⊥
finished-Move {id} {s} {t} {q = q} e mv =
    elim (subst (λ x. Move reference best_fit id s x t q) e mv) [ ]

both_over : (i : ℕ) → i < 2 → done.0.pc i ≡ finished
unfolding done
both_over zero h = refl
both_over (suc zero) h = refl
both_over (suc (suc i)) h = absurd (omega arith)

done-Step : (u : System) → Step reference best_fit 2 done.0 u → ⊥
done-Step u (pick i lt mv) = finished-Move (both_over i lt) mv

-- The run with the proof that at most one thread at a time changes the waiting list, if that is so.
orderly :
    {t : System}
    → Reach reference best_fit 2 initial t
    → Option (Orderly reference best_fit 2 initial t)
unfolding dec_lt sum_below
orderly start = some begin
orderly (later {u = u} r step) = elim (orderly r) [
  | none ↦ none
  | some before ↦ elim (dec_lt (total list_changing 2 u.pc) 2) [
    | no many ↦ none
    | yes one ↦ some (next before step (omega (arith, one)))
  ]
]

abbrev is_some : {A : Type 0} → Option A → Bool
is_some none = false
is_some (some a) = true

found : {A : Type 0} (o : Option A) → is_some o ≡ true → A
found none h = absurd cc
found (some a) h = a

done-Orderly : Orderly reference best_fit 2 initial done.0
unfolding done orderly dec_lt sum_below
done-Orderly = found (orderly done.1) refl

stuck_finished_example :
    ((j : ℕ) → j < 2 → done.0.pc j ≡ finished)
    × (done.0.shared.sem ≡ 1)
    × ((k : ℕ)
        → k < 2
        → (text : Text) × IsText text done.0.shared.memory
          × (free_space reference (array_of reference (some text)) k ≡ pos (capacity k)))
stuck_finished_example =
    stuck_finished reference reference-IsLawful reference-CanWrite best_fit memory-Starts
      on_waiting-IsDocument done-Orderly (λ u step alone. done-Step u step)
