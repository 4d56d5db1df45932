-- ===== src/System/Refines.antt =====
-- producer.c: the threads, the files and the semaphore keep the promise of System/Table.
use so_pr2_synchronization.Base.{
  ℕ, ◌+◌, ◌-◌, ◌≤◌, ◌<◌, ◌≡◌, ◌≢◌, ◌⊎◌, inl, inr, refl, sym, ap, ◌∙◌, subst, Bool-cases, Option,
  pos_part, update, ◌==◌, ==_iff, total, dec_lt, arith,
}
use mathlib.Core.Path.{fun_ext}
use so_pr2_synchronization.Json.{Parson, IsLawful}
use so_pr2_synchronization.Files.{File}
use so_pr2_synchronization.Algorithms.{Algorithm}
use so_pr2_synchronization.Worker.{Shared}
use so_pr2_synchronization.Worker.Points.{Pc, inside, filling}
use so_pr2_synchronization.System.{System, pick, init, Reach, start, later}
use so_pr2_synchronization.System.Table.{Table, all_free, Acts, idle, act, take, release}
use so_pr2_synchronization.System.Abstract.{
  holding_of, HasChosen, outside-HasChosen, Effect, quiet, takes, releases,
}
use so_pr2_synchronization.System.Invariant.{Stored}
use so_pr2_synchronization.System.Effects.{at_update, others_outside}
use so_pr2_synchronization.System.Keeps.{Kept, Move-Inv}
use so_pr2_synchronization.System.Safety.{Starts, init-Inv}

-- The table that the workers stand for.
abbrev pub table : (ℕ → ℕ) → (ℕ → Pc) → Table
table free pc = record { free = free; holding = λ i. holding_of (pc i) }

holding-update :
    (pc : ℕ → Pc) (i : ℕ) (p : Pc)
    → update (λ j. holding_of (pc j)) i (holding_of p) ≡ (λ j. holding_of (update pc i p j))
holding-update pc i p = fun_ext (λ j. at j)
  where
    at : (j : ℕ) → update (λ j. holding_of (pc j)) i (holding_of p) j ≡ holding_of (update pc i p j)
    at j = elim (Bool-cases (i == j)) [ inl same ↦ rw same refl | inr other ↦ rw other refl ]

holding-same :
    (pc : ℕ → Pc) (i : ℕ) (p : Pc)
    → holding_of p ≡ holding_of (pc i)
    → ◌≡◌ {A = ℕ → Option (ℕ × ℕ)} (λ j. holding_of (pc j)) (λ j. holding_of (update pc i p j))
holding-same pc i p e = fun_ext (λ j. at j)
  where
    at : (j : ℕ) → holding_of (pc j) ≡ holding_of (update pc i p j)
    at j = elim (Bool-cases (i == j)) [
      | inl same ↦ rw (same, ← (==_iff i j).0 same) (sym e)
      | inr other ↦ rw other refl
    ]

module _ (algorithm : Algorithm) (count n : ℕ) (pc : ℕ → Pc) (i : ℕ) (lt : i < n) where
  -- A step of a worker is an act on the table, or none.
  Effect-Acts :
      {capacity free free' : ℕ → ℕ} {from p : Pc}
      → pc i ≡ from
      → Effect algorithm count free from free' p
      → HasChosen algorithm count free (pc i)
      → Acts algorithm count n (all_free capacity) (table free pc)
      → Acts algorithm count n (all_free capacity) (table free' (update pc i p))
  Effect-Acts {capacity} {free} {p = p} here (quiet same keeps) chosen acts =
      subst (λ h. Acts algorithm count n (all_free capacity) (record { free = free; holding = h }))
        (holding-same pc i p (same ∙ ap holding_of (sym here))) acts
  Effect-Acts {capacity} {free} {p = q} here (takes {p} {k} {t} fits) chosen acts =
      subst
        (λ h.
          Acts algorithm count n (all_free capacity)
            (record { free = update free k (free k - pos_part p.process_size); holding = h }))
        (holding-update pc i q)
        (act acts (
          take i k (pos_part p.process_size) lt (ap holding_of here)
            (subst (HasChosen algorithm count free) here chosen) fits))
  Effect-Acts {capacity} {free} {p = q} here (releases {p} {k} {t}) chosen acts =
      subst
        (λ h.
          Acts algorithm count n (all_free capacity)
            (record { free = update free k (free k + pos_part p.process_size); holding = h }))
        (holding-update pc i q)
        (act acts (release i k (pos_part p.process_size) lt (ap holding_of here)))

  Effect-HasChosen :
      {free free' : ℕ → ℕ} {from p : Pc}
      → pc i ≡ from
      → Effect algorithm count free from free' p
      → (inside from ≡ 1 → (j : ℕ) → j < n → i ≢ j → inside (pc j) ≡ 0)
      → ((j : ℕ) → j < n → HasChosen algorithm count free (pc j))
      → (j : ℕ) → j < n
      → HasChosen algorithm count free' (update pc i p j)
  Effect-HasChosen {free} {p = p} here (quiet same keeps) outside chosen =
      at_update (λ j q. HasChosen algorithm count free q) i p
        (keeps (subst (HasChosen algorithm count free) here (chosen i lt))) (λ j h ne. chosen j h)
  Effect-HasChosen {free' = free'} {p = p} here (takes fits) outside chosen =
      at_update (λ j q. HasChosen algorithm count free' q) i p tt
        (λ j h ne. outside-HasChosen algorithm count (pc j) free' (outside refl j h ne))
  Effect-HasChosen {free' = free'} {p = p} here releases outside chosen =
      at_update (λ j q. HasChosen algorithm count free' q) i p tt
        (λ j h ne. outside-HasChosen algorithm count (pc j) free' (outside refl j h ne))

-- What holds of a state and the table that it stands for.
record Refined (P : Parson) (algorithm : Algorithm) (count n : ℕ) (capacity : ℕ → ℕ)
    (old : ℕ → P.Object) (s : Shared) (pc : ℕ → Pc) : Type 0 where
  kept : Kept P count n capacity old s pc
  acts : Acts algorithm count n (all_free capacity) (table kept.free pc)
  chosen : (i : ℕ) → i < n → HasChosen algorithm count kept.free (pc i)

module _ (P : Parson) (L : IsLawful P) (algorithm : Algorithm) {count n : ℕ} {capacity : ℕ → ℕ}
    {memory on_waiting : File} (starts : Starts P count capacity memory) where
  Reach-Refined :
      {s : System}
      → Reach P algorithm n (init memory on_waiting) s
      → Refined P algorithm count n capacity starts.processes s.shared s.pc
  Reach-Refined start = record {
    kept = record {
      free = capacity;
      processes = starts.processes;
      inv = init-Inv P L algorithm starts;
    };
    acts = idle;
    chosen = λ i h. tt;
  }
  Reach-Refined (later {t = t} r (pick i lt mv)) =
      let before = Reach-Refined r in
      let moved = Move-Inv P L algorithm before.kept.inv i lt mv in
      record {
        kept = moved.after;
        acts =
            Effect-Acts algorithm count n t.pc i lt refl moved.effect (before.chosen i lt)
              before.acts;
        chosen =
            Effect-HasChosen algorithm count n t.pc i lt refl moved.effect
              (others_outside before.kept.inv i lt) before.chosen;
      }

  -- Every run of the producer is a run of the table: what the workers have is what the table says,
  -- each took the partition that the algorithm chooses from the free space at the moment of its
  -- allocation, and the file holds the free space of the table, unless a worker is in the middle of
  -- a write.
  pub Reach-refines :
      {s : System}
      → Reach P algorithm n (init memory on_waiting) s
      → (t : Table) × Acts algorithm count n (all_free capacity) t
        × (t.holding ≡ (λ i. holding_of (s.pc i)))
        × ((1 ≤ total filling n s.pc)
            ⊎ ((processes : ℕ → P.Object) × Stored P count s.shared.memory t.free processes))
  Reach-refines {s} reached =
      let r = Reach-Refined reached in
      (
        table r.kept.free s.pc,
        r.acts,
        refl,
        elim (dec_lt 0 (total filling n s.pc)) [
          | yes writing ↦ inl writing
          | no quiet_now ↦ inr (r.kept.processes, r.kept.inv.stored (omega arith))
        ],
      )
