-- ===== src/System/Torn.antt =====
-- producer.c and spy.c: reads of the waiting list in the middle of a write of it.
use so_pr2_synchronization.Base.{
  ℕ, suc, ◌≤◌, ◌<◌, ◌≡◌, refl, subst, List, sym, ap, ◌∙◌, [], none, some, Text, Lacks, length,
  update_same,
}
use so_pr2_synchronization.Json.{Parson}
use so_pr2_synchronization.Files.{Syscalls, all_ok, ok, read_file, pretty, open_truncated, fill}
use so_pr2_synchronization.Files.Torn.{Moment, copying}
use so_pr2_synchronization.Files.Torn.Reads.{take, Moment-copying, Moment-read}
use so_pr2_synchronization.Algorithms.{Algorithm}
use so_pr2_synchronization.Worker.{list_read, list_truncate}
use so_pr2_synchronization.Worker.Points.{Process, listing, list_fill, list_open}
use so_pr2_synchronization.Worker.Texts.{enlist}
use so_pr2_synchronization.System.{System, Reach, start, later}
use so_pr2_synchronization.System.Races.{moved, Step-at}
use so_pr2_synchronization.System.Exits.{Exits, list_fill_exits}
use so_pr2_synchronization.Spy.{faults, spy_on_waiting}

-- The system with other bytes in the file of the waiting list.
abbrev pub with_list : System → List ℕ → System
with_list s bytes = record s { shared = record s.shared { on_waiting = some bytes } }

module _ (P : Parson) (algorithm : Algorithm) {n : ℕ} where
  -- A text without NUL is written to the waiting list, and another worker is about to read the list.
  -- If some of the first characters of the text are no JSON, there is a moment of the write at which
  -- the spy, with system calls that succeed, prints a null pointer, and from which the worker can go
  -- on to where it has emptied the list, and can only end the process with status 1.
  pub torn_list-Exits :
      (s : System) (j m : ℕ) {q : Process} (text : Text)
      → j < n
      → s.pc j ≡ listing q
      → Lacks 0 text
      → m ≤ suc (length text)
      → P.parse_string (take m text) ≡ none
      → (bytes : List ℕ) × Moment text (copying m) bytes
        × (spy_on_waiting P all_ok (some bytes) ≡ (faults, []))
        × (u : System) × Reach P algorithm n (with_list s bytes) u
        × (u.pc j ≡ list_fill q none)
        × (u.shared.on_waiting ≡ some [])
        × ((calls : Syscalls) → Exits P calls u.shared (u.pc j) 1 u.shared)
  unfolding open_truncated fill enlist spy_on_waiting
  torn_list-Exits s j m {q} text lt at no_nul bound broken =
      let (bytes, moment) = Moment-copying text m bound in
      let nothing : pretty P (take m text) ≡ none = rw (pretty, broken) in
      let reads : read_file P all_ok (some bytes) ≡ ok none =
        Moment-read P m no_nul moment ∙ ap ok nothing in
      let torn = with_list s bytes in
      let reader = moved P algorithm n torn j torn.shared (list_open q none) in
      let truncated =
        moved P algorithm n reader j (record reader.shared { on_waiting = some [] })
          (list_fill q none) in
      let here = update_same reader.pc j (list_fill q none) in
      (
        bytes,
        moment,
        rw (spy_on_waiting, reads),
        truncated,
        later (later start (Step-at P algorithm n torn j lt at (list_read all_ok none reads))) (
            Step-at P algorithm n reader j lt (update_same torn.pc j (list_open q none))
              (list_truncate all_ok refl)),
        here,
        refl,
        λ calls.
            subst (λ p. Exits P calls truncated.shared p 1 truncated.shared) (sym here)
              (list_fill_exits refl),
      )
