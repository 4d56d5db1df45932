-- ===== src/Experiments/Laws.antt =====
-- examples/mmap: what one program writes, the other prints.
use so_pr2_synchronization.Base.{◌≡◌, refl, Option, none, some, [], ◌∷◌, ◌++◌, Text}
use so_pr2_synchronization.Files.{File, Syscalls, all_ok, Result, ok}
use so_pr2_synchronization.Files.Laws.{
  Outcome, written, not_opened, emptied, zeroed, not_unmapped, write_file_outcome,
}
use so_pr2_synchronization.Experiments.{map_write, map_read}

reads_written :
    (text : Text) → map_read all_ok (some (text ++ (0 ∷ []))) ≡ (ok tt, text ++ (0 ∷ []))
unfolding map_read
reads_written [] = refl
reads_written (c ∷ text) = refl

written_reads :
    (calls : Syscalls) (text : Text) (file : File) {r : Result (Unit {0}) × File}
    → Outcome calls text file r
    → r.0 ≡ ok tt
    → map_read all_ok r.1 ≡ (ok tt, text ++ (0 ∷ []))
written_reads calls text file (written a b c) e = reads_written text
written_reads calls text file (not_opened a) e = cc
written_reads calls text file (emptied a b) e = cc
written_reads calls text file (zeroed a b c) e = cc
written_reads calls text file (not_unmapped a b c) e = cc

-- If a write returns, it had an argument, and a read whose system calls succeed prints all of its
-- characters with the NUL behind them, whatever characters it has.
pub map_read-map_write :
    (calls : Syscalls) (argument : Option Text) (file : File)
    → (map_write calls argument file).0 ≡ ok tt
    → (text : Text) × (argument ≡ some text)
      × (map_read all_ok (map_write calls argument file).1 ≡ (ok tt, text ++ (0 ∷ [])))
unfolding map_write
map_read-map_write calls none file e = cc
map_read-map_write calls (some text) file e =
    (text, refl, written_reads calls text file (write_file_outcome calls text file) e)
