-- ===== src/System/Exits/Memory.antt =====
-- producer.c: what the memory holds after the process has ended.
use so_pr2_synchronization.Base.{
  ap, ℕ, suc, ◌∷◌, ◌++◌, length, replicate, none, ◌+◌, ◌≤◌, ◌<◌, ◌≡◌, ◌⊎◌, refl, sym, ◌∙◌, inl, inr,
  [], Option, some, Text, subst, total, le-sum_below, dec_lt, arith,
}
use so_pr2_synchronization.Json.{Parson, IsLawful}
use so_pr2_synchronization.Files.{File, Syscalls, exit, open_truncated, fill}
use so_pr2_synchronization.Files.Laws.{stretch-nil, copy-replicate}
use so_pr2_synchronization.Algorithms.{Algorithm}
use so_pr2_synchronization.Worker.{Shared}
use so_pr2_synchronization.Worker.Points.{Pc, filling}
use so_pr2_synchronization.System.{System, init, Reach}
use so_pr2_synchronization.System.Invariant.{held, Stored}
use so_pr2_synchronization.System.Safety.{Starts, Reach-Kept}
use so_pr2_synchronization.Files.Torn.Reads.{torn_none, torn_all}
use so_pr2_synchronization.System.Glimpse.{text_of, IsBroken, Glimpse-IsBroken, quiet-Glimpse}
use so_pr2_synchronization.System.Exits.{
  Exits, list_read_exits, list_open_exits, list_fill_exits, unlist_read_exits, unlist_open_exits,
  unlist_fill_exits, search_exits, take_open_exits, take_fill_exits, return_read_exits,
  return_open_exits, return_fill_exits, Ending, writer_exits, other_exits, half_list_exits,
  create_fails, quits,
}

not_opened_same :
    (calls : Syscalls) (file : File) {status : ℕ} {f : File}
    → open_truncated calls file ≡ (exit status, f)
    → f ≡ file
unfolding open_truncated
not_opened_same calls file e = ground arith

-- The second half of a write that ends the process leaves an empty file, zeros, or the whole text.
fill-some_leaves :
    (calls : Syscalls) (text : Text) {status : ℕ} {f : File}
    → fill calls (some text) (some []) ≡ (exit status, f)
    → (f ≡ some []) ⊎ (f ≡ some (replicate (suc (length text)) 0)) ⊎ (f ≡ some (text ++ (0 ∷ [])))
unfolding fill
fill-some_leaves calls text {status} {f} e =
    let e' = rw (fill, stretch-nil (suc (length text)), copy-replicate text) at e in
    ground (arith, e')

fill_leaves :
    (calls : Syscalls) (t : Option Text) {status : ℕ} {f : File}
    → fill calls t (some []) ≡ (exit status, f)
    → (f ≡ some [])
      ⊎ ((text : Text) × (t ≡ some text)
          × ((f ≡ some (replicate (suc (length text)) 0)) ⊎ (f ≡ some (text ++ (0 ∷ [])))))
unfolding fill
fill_leaves calls none e = inl (ground arith)
fill_leaves calls (some text) e = elim (fill-some_leaves calls text e) [
  | inl empty ↦ inl empty
  | inr left ↦ inr (text, refl, left)
]

-- Only the second half of a write of the memory can end the process with another memory.
Exits-memory :
    (P : Parson) {calls : Syscalls} {s t : Shared} {p : Pc} {status : ℕ}
    → Exits P calls s p status t
    → ((filling p ≡ 1) × (fill calls (text_of p) s.memory ≡ (exit status, t.memory)))
      ⊎ (t.memory ≡ s.memory)
Exits-memory P (list_read_exits e) = inr refl
Exits-memory P (list_open_exits e) = inr refl
Exits-memory P (list_fill_exits e) = inr refl
Exits-memory P (unlist_read_exits e) = inr refl
Exits-memory P (unlist_open_exits e) = inr refl
Exits-memory P (unlist_fill_exits e) = inr refl
Exits-memory P (search_exits e) = inr refl
Exits-memory P {calls} {s} (take_open_exits e) = inr (not_opened_same calls s.memory e)
Exits-memory P (take_fill_exits e) = inl (refl, e)
Exits-memory P (return_read_exits e) = inr refl
Exits-memory P {calls} {s} (return_open_exits e) = inr (not_opened_same calls s.memory e)
Exits-memory P (return_fill_exits e) = inl (refl, e)

-- A write that ends the process leaves a beginning of its text, with zeros in place of the rest.
writer-IsBroken :
    (calls : Syscalls) (n i : ℕ) (pc : ℕ → Pc) {status : ℕ} {f : File}
    → i < n
    → fill calls (text_of (pc i)) (some []) ≡ (exit status, f)
    → IsBroken n pc f
writer-IsBroken calls n i pc lt e = elim (fill_leaves calls (text_of (pc i)) e) [
  | inl emptied ↦ inl emptied
  | inr (text, is_text, inl zeros) ↦
      inr (i, lt, text, is_text, 0, omega arith, zeros ∙ ap some (sym (torn_none text)))
  | inr (text, is_text, inr all) ↦
      inr
        (i, lt, text, is_text, suc (length text), omega arith, all ∙ ap some (sym (torn_all text)))
]

-- What the end of the process leaves of a memory that is empty while it is written.
Ending-IsBroken :
    (P : Parson) {n : ℕ} {s : System} {status : ℕ} {f : File}
    → s.shared.memory ≡ some []
    → Ending P n s status f
    → IsBroken n s.pc f
Ending-IsBroken P {n} {s} empty (writer_exits i calls lt writes exits) =
    elim (Exits-memory P exits) [
      | inr same ↦ inl (same ∙ empty)
      | inl (_, left) ↦ writer-IsBroken calls n i s.pc lt (rw empty at left)
    ]
Ending-IsBroken P empty (other_exits i calls lt other exits glimpse) =
    Glimpse-IsBroken empty glimpse
Ending-IsBroken P empty (half_list_exits i lt reads glimpse) = Glimpse-IsBroken empty glimpse
Ending-IsBroken P empty (create_fails glimpse) = Glimpse-IsBroken empty glimpse
Ending-IsBroken P empty (quits glimpse) = Glimpse-IsBroken empty glimpse

Ending-same :
    (P : Parson) {n : ℕ} {s : System} {status : ℕ} {f : File}
    → total filling n s.pc ≡ 0
    → Ending P n s status f
    → f ≡ s.shared.memory
Ending-same P {n} {s} quiet (writer_exits i calls lt writes exits) =
    absurd (omega (arith, le-sum_below n (λ x. filling (s.pc x)) i lt, writes, quiet))
Ending-same P quiet (other_exits i calls lt other exits glimpse) = quiet-Glimpse quiet glimpse
Ending-same P quiet (half_list_exits i lt reads glimpse) = quiet-Glimpse quiet glimpse
Ending-same P quiet (create_fails glimpse) = quiet-Glimpse quiet glimpse
Ending-same P quiet (quits glimpse) = quiet-Glimpse quiet glimpse

module _ (P : Parson) (L : IsLawful P) (algorithm : Algorithm) {count n : ℕ} {capacity : ℕ → ℕ}
    {memory on_waiting : File} (starts : Starts P count capacity memory) where
  -- However the process ends, by a call that fails, a thread that cannot be made or a signal, also in
  -- the middle of a write: if no worker is writing the memory, the memory is left ready for another
  -- producer, with partitions whose free space is the capacity less what the workers had there: that
  -- space is not given back. Otherwise the memory is left empty, or with as many of the first
  -- characters of the text that was being written as had been copied, and zeros in place of the rest.
  pub Ending-adds_up :
      {s : System} {status : ℕ} {f : File}
      → Reach P algorithm n (init memory on_waiting) s
      → Ending P n s status f
      → ((total filling n s.pc ≡ 0)
          × (free : ℕ → ℕ) × Starts P count free f
          × ((k : ℕ) → k < count → free k + total (held k) n s.pc ≡ capacity k))
        ⊎ ((1 ≤ total filling n s.pc) × IsBroken n s.pc f)
  Ending-adds_up {s} reached ends =
      let kept = Reach-Kept P L algorithm starts reached in
      elim (dec_lt 0 (total filling n s.pc)) [
        | yes writing ↦ inr (writing, Ending-IsBroken P (kept.inv.emptied writing) ends)
        | no busy ↦
            let quiet : total filling n s.pc ≡ 0 = omega arith in
            inl (
              quiet,
              kept.free,
              record {
                small = λ k h. omega (arith, kept.inv.small k h, kept.inv.adds_up k h);
                processes = kept.processes;
                stored =
                    subst (λ x. Stored P count x kept.free kept.processes)
                      (sym (Ending-same P quiet ends)) (kept.inv.stored quiet);
              },
              kept.inv.adds_up,
            )
      ]
