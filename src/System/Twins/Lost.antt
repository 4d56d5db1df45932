-- ===== src/System/Twins/Lost.antt =====
-- producer.c, started twice: an allocation that is lost.
use so_pr2_synchronization.Base.{
  ℕ, ◌+◌, ◌-◌, ◌^◌, ◌<◌, ◌≡◌, ◌≢◌, refl, sym, ap, subst, ◌∙◌, [], Lacks, Option, some, pos,
  pos_part, Text, update, update_same, update_other, arith,
}
use so_pr2_synchronization.Json.{Parson, IsLawful}
use so_pr2_synchronization.Files.{File, ok, all_ok, pretty, read_file, open_truncated, fill}
use so_pr2_synchronization.Files.Laws.{IsText, read_file-IsText_ok, fill-IsText}
use so_pr2_synchronization.Algorithms.{Algorithm, search_index, free_space}
use so_pr2_synchronization.Memory.{process_name}
use so_pr2_synchronization.Memory.Laws.{free_space-Holds}
use so_pr2_synchronization.Worker.{Shared, Move, search_finds, take_truncate, take_write}
use so_pr2_synchronization.Worker.Points.{Process, Pc, searching, take_open, take_fill, taken}
use so_pr2_synchronization.Worker.Texts.{parse, array_of, take_text}
use so_pr2_synchronization.System.Invariant.{IsSized, Stored}
use so_pr2_synchronization.System.Prepared.{Read, Read-Read, take_text-Prepared}
use so_pr2_synchronization.System.Progress.{CanWrite, take_text-some}
use so_pr2_synchronization.System.Twins.{Twins, seen, moved_on, Step, pick, Reach, start, later}

module _ (P : Parson) (algorithm : ℕ → Algorithm) (owner : ℕ → ℕ) where
  Step-at :
      (s : Twins) (i : ℕ) {p q : Pc} {m : Shared}
      → s.pc i ≡ p
      → Move P (algorithm (owner i)) i (seen owner s i) p m q
      → Step P algorithm owner s (moved_on owner s i m q)
  Step-at s i {q = q} {m = m} e mv =
      pick i (subst (λ x. Move P (algorithm (owner i)) i (seen owner s i) x m q) (sym e) mv)

  -- The text that a write leaves.
  abbrev filled : Text → File
  filled t = (fill all_ok (some t) (some [])).1

  filled-IsText : (t : Text) → Lacks 0 t → IsText t (filled t)
  unfolding fill
  filled-IsText t no_nul = fill-IsText all_ok t [] no_nul refl

  -- The memory is in place of the one that was there.
  abbrev with_memory : Shared → File → Shared
  with_memory m file = record m { memory = file }

  -- A thread that has chosen a partition writes the memory.
  abbrev written : Twins → ℕ → Process → ℕ → Text → Twins
  written s i p k t =
      let opened =
        moved_on owner s i (with_memory (seen owner s i) (some [])) (take_fill p k (some t)) in
      moved_on owner opened i (with_memory (seen owner opened i) (filled t)) (taken p k)

  written_same :
      (s : Twins) (i : ℕ) (p : Process) (k : ℕ) (t : Text) → (written s i p k t).pc i ≡ taken p k
  written_same s i p k t = update_same (update s.pc i (take_fill p k (some t))) i (taken p k)

  written_other :
      (s : Twins) (i j : ℕ) (p : Process) (k : ℕ) (t : Text)
      → i ≢ j
      → (written s i p k t).pc j ≡ s.pc j
  written_other s i j p k t ne =
      update_other (update s.pc i (take_fill p k (some t))) i j (taken p k) ne
      ∙ update_other s.pc i j (take_fill p k (some t)) ne

  writing :
      (r s : Twins) (i : ℕ) (p : Process) (k : ℕ) (t : Text)
      → s.pc i ≡ take_open p k (some t)
      → Reach P algorithm owner r s
      → Reach P algorithm owner r (written s i p k t)
  unfolding open_truncated fill
  writing r s i p k t e reached =
      later (later reached (Step-at s i e (take_truncate all_ok refl)))
        (Step-at _ i (update_same s.pc i _) (take_write all_ok refl))

  -- A thread that searches finds a partition.
  finding :
      (s : Twins) (i : ℕ) (p : Process) (k : ℕ) (contents : Option Text) (t : Text)
      → s.pc i ≡ searching p
      → read_file P all_ok s.memory ≡ ok contents
      → search_index P (array_of P contents) p.process_size (algorithm (owner i)) ≡ some k
      → take_text P contents k p (process_name i) ≡ some t
      → Step P algorithm owner s (moved_on owner s i (seen owner s i) (take_open p k (some t)))
  finding s i p k contents t at read found prepared = Step-at s i at (
      subst
        (λ x.
          Move P (algorithm (owner i)) i (seen owner s i) (searching p) (seen owner s i)
            (take_open p k x))
        prepared (search_finds all_ok contents read found))

module _ (P : Parson) (L : IsLawful P) (can : CanWrite P) (algorithm : ℕ → Algorithm)
    (owner : ℕ → ℕ) {count : ℕ} {free : ℕ → ℕ} {processes : ℕ → P.Object} where
  parse-pretty :
      {file : File} (stored : Stored P count file free processes)
      → parse P (pretty P stored.text) ≡ some stored.represents.value
  parse-pretty stored =
      let r = stored.represents in
      let (u, shown) = can.writes_pretty r.value in
      rw (pretty, r.parses) (rw shown (L.parse-pretty r.value u shown))

  -- If the memory holds partitions and the JSON library can write every document: when two threads,
  -- which may be in different processes, search the memory and find the same partition, some order of
  -- their steps brings both to where they have space there, while the free space of the partition is
  -- only less by the size of the second.
  pub space_lost :
      (s : Twins) (i j k : ℕ) (p p' : Process)
      → i ≢ j
      → s.pc i ≡ searching p
      → s.pc j ≡ searching p'
      → IsSized p
      → IsSized p'
      → ((l : ℕ) → l < count → free l < 2 ^ 31)
      → (stored : Stored P count s.memory free processes)
      → search_index P (array_of P (pretty P stored.text)) p.process_size (algorithm (owner i))
        ≡ some k
      → search_index P (array_of P (pretty P stored.text)) p'.process_size (algorithm (owner j))
        ≡ some k
      → (u : Twins) × Reach P algorithm owner s u
        × (u.pc i ≡ taken p k)
        × (u.pc j ≡ taken p' k)
        × (text : Text) × IsText text u.memory
        × (x : ℕ) × (free_space P (array_of P (some text)) k ≡ pos x)
        × (x + pos_part p'.process_size ≡ free k)
  unfolding array_of
  space_lost s i j k p p' ne at at' sized sized' small stored found found' =
      let back : j ≢ i = λ e. ne (sym e) in
      let contents = pretty P stored.text in
      let read = read_file-IsText_ok P stored.is_text in
      let document : Read P count contents free processes = Read-Read P L all_ok stored read in
      let (t, prepared) =
        take_text-some P (algorithm (owner i)) i can contents (parse-pretty stored)
          stored.represents.is_array k p in
      let (t', prepared') =
        take_text-some P (algorithm (owner j)) j can contents (parse-pretty stored)
          stored.represents.is_array k p' in
      let (within, enough, pending) =
        take_text-Prepared P L contents j k p' sized' (algorithm (owner j)) small document found' in
      let r = pending t' prepared' in
      let s1 = moved_on owner s i (seen owner s i) (take_open p k (some t)) in
      let s2 = moved_on owner s1 j (seen owner s1 j) (take_open p' k (some t')) in
      let s4 = written P algorithm owner s2 i p k t in
      let here : s2.pc i ≡ take_open p k (some t) =
        update_other s1.pc j i _ back ∙ update_same s.pc i _ in
      let there : s4.pc j ≡ take_open p' k (some t') =
        written_other P algorithm owner s2 i j p k t ne ∙ update_same s1.pc j _ in
      let both =
        later (later start (finding P algorithm owner s i p k contents t at read found prepared)) (
          finding P algorithm owner s1 j p' k contents t' (update_other s.pc i j _ ne ∙ at') read
            found' prepared') in
      (
        written P algorithm owner s4 j p' k t',
        writing P algorithm owner s s4 j p' k t' there
            (writing P algorithm owner s s2 i p k t here both),
        written_other P algorithm owner s4 j i p' k t' back
            ∙ written_same P algorithm owner s2 i p k t,
        written_same P algorithm owner s4 j p' k t',
        t',
        filled-IsText P algorithm owner t' r.no_nul,
        free k - pos_part p'.process_size,
        rw (array_of, r.parses, r.is_array) (free_space-Holds P L r.holds k within)
            ∙ ap pos (update_same free k _),
        omega (arith, enough),
      )
