-- ===== src/Files.antt =====
-- The files that the programs share by mapping them into memory: `read_memory`, `write_memory` and
-- their copies in producer.c, initializer.c and spy.c.
pub mod Laws
pub mod Torn
use so_pr2_synchronization.Base.{
  ℕ, zero, suc, Bool, true, false, Option, none, some, List, [], ◌∷◌, ◌++◌, Text, if◌then◌else◌,
  length, ◌≡◌, refl, ◌⊎◌, inl, inr,
}
use so_pr2_synchronization.Json.{Parson}

-- What is at a path: no file, or the bytes of one.
abbrev pub File : Type 0
File = Option (List ℕ)

-- Which system calls succeed during one call of a function below. The operating system decides.
pub record Syscalls : Type 0 where
  pub open_ok : Bool
  pub fstat_ok : Bool
  pub lseek_ok : Bool
  pub write_ok : Bool
  pub mmap_ok : Bool
  pub munmap_ok : Bool

abbrev pub all_ok : Syscalls
all_ok = record {
  open_ok = true;
  fstat_ok = true;
  lseek_ok = true;
  write_ok = true;
  mmap_ok = true;
  munmap_ok = true;
}

-- A function returns, or ends the process with a status.
pub data Result (A : Type 0) : Type 0 where
  ok : A → Result A
  exit : ℕ → Result A

-- To split on a computed result.
pub Result-cases : (r : Result (Unit {0})) → (r ≡ ok tt) ⊎ ((status : ℕ) × (r ≡ exit status))
Result-cases (ok done) = inl refl
Result-cases (exit status) = inr (status, refl)

abbrev pub exit_failure : ℕ
exit_failure = 1

-- The C string at the start of a mapping. A mapping with no NUL ends in the zero bytes of its last
-- page; a file that fills its last page and has no NUL is not modelled.
unfoldable pub c_string : List ℕ → Text
c_string [] = []
c_string (zero ∷ bytes) = []
c_string (suc c ∷ bytes) = suc c ∷ c_string bytes

-- `lseek(fd, size - 1, SEEK_SET)` and `write(fd, "", 1)`: byte `size - 1` becomes zero, and a file
-- that is shorter is filled up with zeros.
unfoldable pub stretch : ℕ → List ℕ → List ℕ
stretch zero bytes = bytes
stretch (suc zero) [] = 0 ∷ []
stretch (suc zero) (b ∷ bytes) = 0 ∷ bytes
stretch (suc (suc n)) [] = 0 ∷ stretch (suc n) []
stretch (suc (suc n)) (b ∷ bytes) = b ∷ stretch (suc n) bytes

-- A copy of bytes to the start of the mapping.
unfoldable pub copy : List ℕ → List ℕ → List ℕ
copy [] bytes = bytes
copy (c ∷ cs) [] = c ∷ copy cs []
copy (c ∷ cs) (b ∷ bytes) = c ∷ copy cs bytes

module _ (P : Parson) where
  -- `json_serialize_to_string_pretty(json_parse_string(map))`, where NULL stays NULL.
  abbrev pub pretty : Text → Option Text
  pretty text = elim (P.parse_string text) [ none ↦ none | some v ↦ P.serialize_to_string_pretty v ]

  -- The bytes of an open file, from `fstat` to `close`.
  unfoldable pub map_and_parse : Syscalls → List ℕ → Result (Option Text)
  unfolding c_string
  map_and_parse calls [] = exit exit_failure
  map_and_parse calls (b ∷ bytes) =
      if calls.fstat_ok
      then if calls.mmap_ok
        then if calls.munmap_ok then ok (pretty (c_string (b ∷ bytes))) else exit exit_failure
        else exit exit_failure
      else exit exit_failure

  unfoldable pub read_file : Syscalls → File → Result (Option Text)
  unfolding map_and_parse
  read_file calls none = exit exit_failure
  read_file calls (some bytes) =
      if calls.open_ok then map_and_parse calls bytes else exit exit_failure

-- `open(filepath, O_RDWR | O_CREAT | O_TRUNC)`
unfoldable pub open_truncated : Syscalls → File → Result (Unit {0}) × File
open_truncated calls file = if calls.open_ok then (ok tt, some []) else (exit exit_failure, file)

-- What is written through the descriptor, if the path still leads to the open file.
abbrev pub through : (List ℕ → List ℕ) → File → File
through change none = none
through change (some bytes) = some (change bytes)

-- From the test of `serialized_string` to the end of the function. A failure of `msync` is only
-- reported, so nothing depends on it. This is the file at the end of the function; Files/Torn has
-- what it is in the middle of it.
unfoldable pub fill : Syscalls → Option Text → File → Result (Unit {0}) × File
unfolding stretch copy
fill calls none file = (exit 1, file)
fill calls (some text) file =
    let size = suc (length text) in
    let stretched = through (stretch size) file in
    let copied = through (copy (text ++ (0 ∷ []))) stretched in
    if calls.lseek_ok
    then if calls.write_ok
      then if calls.mmap_ok
        then if calls.munmap_ok then (ok tt, copied) else (exit exit_failure, copied)
        else (exit exit_failure, stretched)
      else (exit exit_failure, file)
    else (exit exit_failure, file)

-- Both steps are made with one set of answers of the operating system.
unfoldable pub write_file : Syscalls → Option Text → File → Result (Unit {0}) × File
write_file calls text file =
    let (opened, truncated) = open_truncated calls file in
    elim opened [ ok done ↦ fill calls text truncated | exit status ↦ (exit status, truncated) ]
