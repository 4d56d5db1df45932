-- ===== src/Killer.antt =====
-- killer.c: the prompt that stops the producer and removes the files.
pub mod Laws
use so_pr2_synchronization.Base.{
  ℕ, Bool, true, false, ◌&&◌, ◌||◌, Option, none, some, List, [], ◌∷◌, Text, leb, ◌==◌,
  if◌then◌else◌,
}
use so_pr2_synchronization.Files.{File}

-- `isalpha` in the C locale
unfoldable pub isalpha : ℕ → Bool
isalpha c = (leb b'A' c && leb c b'Z') || (leb b'a' c && leb c b'z')

-- `for (i = 0; !(isalpha(line[i])); i++);` and `c = line[i]`. The loop does not stop at the end of the
-- line: without a letter it reads past it, which is `none`.
unfoldable pub first_letter : Text → Option ℕ
unfolding isalpha
first_letter [] = none
first_letter (c ∷ line) = let rest = first_letter line in if isalpha c then some c else rest

-- `remove(filepath)`: it fails if there is no file, or if the operating system refuses.
unfoldable pub remove_file : Bool → File → File × Bool
remove_file allowed none = (none, false)
remove_file allowed (some bytes) = if allowed then (none, true) else (some bytes, false)

-- The text that is printed is left out.
unfoldable pub delete_memory : Bool → File → File
unfolding remove_file
delete_memory allowed memory = (remove_file allowed memory).0

unfoldable pub delete_processes_on_waiting : Bool → File → File
unfolding remove_file
delete_processes_on_waiting allowed on_waiting = (remove_file allowed on_waiting).0

-- What the program has done: it still waits for a line, it has read past the end of one, or it has
-- sent SIGQUIT to a process and tried to remove the files.
pub data Outcome : Type 0 where
  prompting : Outcome
  past_the_end : Outcome
  killed : (pid : ℕ) (memory on_waiting : File) → Outcome

-- The loop over the lines that `gets` reads. A line of 100 characters or more overruns the buffer,
-- and is not modelled. `pid` is what the producer has left in the shared memory segment, and the
-- two tests say whether the files may be removed.
unfoldable pub kill_producer : ℕ → Bool → Bool → File → File → List Text → Outcome
unfolding first_letter delete_memory delete_processes_on_waiting
kill_producer pid allowed allowed' memory on_waiting [] = prompting
kill_producer pid allowed allowed' memory on_waiting (line ∷ lines) =
    let again = kill_producer pid allowed allowed' memory on_waiting lines in
    elim (first_letter line) [
      | none ↦ past_the_end
      | some c ↦
          if c == b'k' || c == b'K'
          then killed pid (delete_memory allowed memory)
              (delete_processes_on_waiting allowed' on_waiting)
          else again
    ]
