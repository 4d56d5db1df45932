-- ===== src/Tests/Torn.antt =====
-- A write of a text of two characters, byte by byte.
use so_pr2_synchronization.Base.{ℕ, ◌≤◌, ◌≡◌, ◌⊎◌, refl, [], ◌∷◌, some, Text, arith}
use so_pr2_synchronization.Json.Reference.{reference}
use so_pr2_synchronization.Files.{all_ok, ok, exit, exit_failure, pretty, read_file, stretch}
use so_pr2_synchronization.Files.Torn.{
  opened, copying, Moment, at_open, later, stretch_file, copy_byte,
}
use so_pr2_synchronization.Files.Torn.Reads.{take, torn_read}

abbrev text : Text
text = 2 ∷ 5 ∷ []

one_byte : Moment text (copying 1) (2 ∷ 0 ∷ 0 ∷ [])
unfolding stretch
one_byte = later (later at_open stretch_file) (copy_byte 2 refl)

torn_read_example :
    ((copying 1 ≡ opened)
      × (read_file reference all_ok (some (2 ∷ 0 ∷ 0 ∷ [])) ≡ exit exit_failure))
    ⊎ ((i : ℕ) × (copying 1 ≡ copying i)
        × (i ≤ 3)
        × (read_file reference all_ok (some (2 ∷ 0 ∷ 0 ∷ []))
            ≡ ok (pretty reference (take i text))))
torn_read_example = torn_read reference (omega arith, (omega arith, tt)) one_byte
