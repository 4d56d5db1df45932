-- ===== src/Experiments.antt =====
-- examples: the trial programs. Here those of examples/mmap that write and read the memory file.
pub mod Laws
pub mod Blocks
pub mod Entries
pub mod Segments
pub mod Greeting
pub mod Pair
pub mod Draws
pub mod Documents
pub mod Clock
pub mod Threads
use so_pr2_synchronization.Base.{
  ℕ, Bool, true, false, Option, none, some, List, [], ◌∷◌, Text, if◌then◌else◌,
}
use so_pr2_synchronization.Files.{File, Syscalls, Result, ok, exit, exit_failure, write_file}

-- mapwrite.c: `argument` is `argv[1]`, if there is one.
unfoldable pub map_write : Syscalls → Option Text → File → Result (Unit {0}) × File
map_write calls none file = (exit exit_failure, file)
map_write calls (some text) file = write_file calls (some text) file

-- mapread.c: the result, and the characters that it has printed by then.
unfoldable pub map_read : Syscalls → File → Result (Unit {0}) × List ℕ
map_read calls none = (exit exit_failure, [])
map_read calls (some []) = (exit exit_failure, [])
map_read calls (some (b ∷ bytes)) =
    if calls.open_ok
    then if calls.fstat_ok
      then if calls.mmap_ok
        then if calls.munmap_ok then (ok tt, b ∷ bytes) else (exit exit_failure, b ∷ bytes)
        else (exit exit_failure, [])
      else (exit exit_failure, [])
    else (exit exit_failure, [])
