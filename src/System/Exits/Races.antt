-- ===== src/System/Exits/Races.antt =====
-- producer.c: what ends the process when the operating system refuses nothing.
use so_pr2_synchronization.Base.{
  ℕ, ◌≤◌, ◌<◌, ◌≡◌, refl, [], ◌∷◌, none, Option, some, Text, total, dec_lt, arith,
}
use so_pr2_synchronization.Json.{Parson, IsLawful}
use so_pr2_synchronization.Files.{File, all_ok, exit, exit_failure, read_file, open_truncated, fill}
use so_pr2_synchronization.Files.Laws.{read_file-IsText_ok}
use so_pr2_synchronization.Algorithms.{Algorithm}
use so_pr2_synchronization.Worker.{Shared}
use so_pr2_synchronization.Worker.Points.{Pc, listing, unlisting, reading}
use so_pr2_synchronization.System.{System, init, Reach}
use so_pr2_synchronization.System.Invariant.{Inv}
use so_pr2_synchronization.System.Safety.{Starts, Reach-Kept}
use so_pr2_synchronization.System.Progress.{CanWrite}
use so_pr2_synchronization.System.Listed.{list_filling, IsDocument, IsReady, Live}
use so_pr2_synchronization.System.Moves.{memory-reads, here-IsWriting}
use so_pr2_synchronization.System.Completes.{Reach-Live}
use so_pr2_synchronization.System.Exits.{
  Exits, list_read_exits, list_open_exits, list_fill_exits, unlist_read_exits, unlist_open_exits,
  unlist_fill_exits, search_exits, take_open_exits, take_fill_exits, return_read_exits,
  return_open_exits, return_fill_exits,
}

-- About to read the waiting list.
abbrev pub list_reading : Pc → ℕ
list_reading (listing _) = 1
list_reading (unlisting _) = 1
list_reading _ = 0

read_status :
    (P : Parson) (file : File) {status : ℕ}
    → read_file P all_ok file ≡ exit status
    → status ≡ exit_failure
unfolding read_file
read_status P none e = ground arith
read_status P (some []) e = ground arith
read_status P (some (b ∷ bytes)) e = cc

opens : (file f : File) {status : ℕ} → open_truncated all_ok file ≡ (exit status, f) → ⊥
unfolding open_truncated
opens file f e = cc

fills :
    (text : Text) (file f : File) {status : ℕ} → fill all_ok (some text) file ≡ (exit status, f) → ⊥
unfolding fill
fills text file f e = cc

module _ (P : Parson) (L : IsLawful P) (algorithm : Algorithm) {count n : ℕ} {capacity : ℕ → ℕ}
    {s : Shared} {pc : ℕ → Pc} {free : ℕ → ℕ} {old processes : ℕ → P.Object}
    (inv : Inv P count n capacity old s pc free processes) (live : Live P n s pc) (i : ℕ)
    (lt : i < n) where
  list_read-race :
      {status : ℕ} → read_file P all_ok s.on_waiting ≡ exit status → 1 ≤ total list_filling n pc
  list_read-race e = elim (dec_lt 0 (total list_filling n pc)) [
    | yes writing ↦ writing
    | no nobody ↦ let returns = read_file-IsText_ok P (live.full (omega arith)).is_text in absurd cc
  ]

  ready_some : {t : Option Text} → IsReady P t → (text : Text) × (t ≡ some text)
  ready_some ready = (ready.text, ready.is_some)

  reads_on :
      {from : Pc} {status : ℕ}
      → pc i ≡ from
      → reading from ≡ 1
      → read_file P all_ok s.memory ≡ exit status
      → ⊥
  reads_on here at e =
      let (contents, returns) = memory-reads P L algorithm inv live i lt here at in cc

  fills_on :
      {status : ℕ} {t : Option Text} (file f : File)
      → ((text : Text) × (t ≡ some text))
      → fill all_ok t file ≡ (exit status, f)
      → ⊥
  fills_on file f (text, is_some) e = fills text file f (rw is_some at e)

  abbrev OnlyReads : Pc → ℕ → Shared → Type 0
  OnlyReads from status t =
      (list_reading from ≡ 1) × (1 ≤ total list_filling n pc) × (status ≡ exit_failure) × (t ≡ s)

  Exits-race :
      {from : Pc} {status : ℕ} {t : Shared}
      → pc i ≡ from
      → Exits P all_ok s from status t
      → OnlyReads from status t
  Exits-race here (list_read_exits e) = (refl, list_read-race e, read_status P s.on_waiting e, refl)
  Exits-race here (list_open_exits e) = absurd (opens _ _ e)
  Exits-race here (list_fill_exits e) =
      absurd (fills_on _ _ (ready_some (here-IsWriting P L algorithm inv live i lt here)) e)
  Exits-race here (unlist_read_exits e) =
      (refl, list_read-race e, read_status P s.on_waiting e, refl)
  Exits-race here (unlist_open_exits e) = absurd (opens _ _ e)
  Exits-race here (unlist_fill_exits e) =
      absurd (fills_on _ _ (ready_some (here-IsWriting P L algorithm inv live i lt here)) e)
  Exits-race here (search_exits e) = absurd (reads_on here refl e)
  Exits-race here (take_open_exits e) = absurd (opens _ _ e)
  Exits-race here (take_fill_exits e) =
      absurd (fills_on _ _ (here-IsWriting P L algorithm inv live i lt here) e)
  Exits-race here (return_read_exits e) = absurd (reads_on here refl e)
  Exits-race here (return_open_exits e) = absurd (opens _ _ e)
  Exits-race here (return_fill_exits e) =
      absurd (fills_on _ _ (here-IsWriting P L algorithm inv live i lt here) e)

module _ (P : Parson) (L : IsLawful P) (can : CanWrite P) (algorithm : Algorithm) {count n : ℕ}
    {capacity : ℕ → ℕ} {memory on_waiting : File} (starts : Starts P count capacity memory)
    (listed : IsDocument P on_waiting) where
  -- If the library can write every document, and the waiting list holds one at the start, then a
  -- worker of a reachable state, between two steps of `Move`, can end the process with system calls
  -- that succeed only where it is about to read the waiting list while another is in the middle of a
  -- write of it; the status is then 1, and the files are left as they are. The second half of a write
  -- is one step of `Move`: System/Torn is about a read in the middle of that.
  pub Exits-only_on_race :
      {s : System} {status : ℕ} {t : Shared}
      → Reach P algorithm n (init memory on_waiting) s
      → (i : ℕ) → i < n
      → Exits P all_ok s.shared (s.pc i) status t
      → (list_reading (s.pc i) ≡ 1)
        × (1 ≤ total list_filling n s.pc)
        × (status ≡ exit_failure)
        × (t ≡ s.shared)
  Exits-only_on_race reached i lt exits =
      Exits-race P L algorithm (Reach-Kept P L algorithm starts reached).inv
        (Reach-Live P L can algorithm starts listed reached) i lt refl exits
