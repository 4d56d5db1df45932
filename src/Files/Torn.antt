-- ===== src/Files/Torn.antt =====
-- `write_memory` and its copies, byte by byte: what another program, or another thread, can read
-- while a text is written.
pub mod Reads
use so_pr2_synchronization.Base.{
  ℕ, zero, suc, ◌≡◌, Option, some, List, [], ◌∷◌, ◌++◌, Text, length, get_elem?, set,
}
use so_pr2_synchronization.Files.{stretch}

-- Where a write of a text stands: behind `open`, or in `strcpy`, which has copied so many of its
-- bytes. They are copied in order, the NUL last.
pub data Place : Type 0 where
  opened : Place
  copying : (i : ℕ) → Place

-- `lseek` and `write`, and then one byte after the other. The mapping is shared, so that each byte
-- is in the file at once.
pub data Byte (text : Text) : Place → List ℕ → Place → List ℕ → Type 0 where
  stretch_file :
      {bytes : List ℕ} → Byte text opened bytes (copying 0) (stretch (suc (length text)) bytes)
  copy_byte :
      {i : ℕ} {bytes : List ℕ} (c : ℕ)
      → get_elem? (text ++ (0 ∷ [])) i ≡ some c
      → Byte text (copying i) bytes (copying (suc i)) (set bytes i c)

-- The moments of a write of a text, from the truncated file on.
pub data Moment (text : Text) : Place → List ℕ → Type 0 where
  at_open : Moment text opened []
  later :
      {p q : Place} {bytes bytes' : List ℕ}
      → Moment text p bytes
      → Byte text p bytes q bytes'
      → Moment text q bytes'
