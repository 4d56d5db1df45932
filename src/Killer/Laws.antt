-- ===== src/Killer/Laws.antt =====
-- killer.c: which lines stop the producer.
use so_pr2_synchronization.Base.{
  ℕ, ◌≡◌, ◌≢◌, refl, ◌∙◌, ◌⊎◌, inl, inr, Bool, true, false, none, some, List, [], ◌∷◌, ◌++◌, Text,
  arith,
}
use so_pr2_synchronization.Files.{File}
use so_pr2_synchronization.Killer.{
  isalpha, first_letter, remove_file, delete_memory, delete_processes_on_waiting, past_the_end,
  killed, kill_producer,
}

-- The first letter of the line is a k.
abbrev pub IsKill : Text → Type 0
IsKill line = (first_letter line ≡ some b'k') ⊎ (first_letter line ≡ some b'K')

-- The line has a letter, and the first one is no k.
abbrev pub IsOther : Text → Type 0
IsOther line = (c : ℕ) × (first_letter line ≡ some c) × (c ≢ b'k') × (c ≢ b'K')

abbrev pub AllOther : List Text → Type 0
AllOther [] = Unit
AllOther (line ∷ lines) = IsOther line × AllOther lines

-- No character of the line is a letter.
abbrev pub AllNonLetters : Text → Type 0
AllNonLetters [] = Unit
AllNonLetters (c ∷ line) = (isalpha c ≡ false) × AllNonLetters line

first_letter-eq_none : (line : Text) → AllNonLetters line → first_letter line ≡ none
unfolding first_letter
first_letter-eq_none [] h = refl
first_letter-eq_none (c ∷ line) h = rw (first_letter-eq_none line h.1) (ground arith)

removed : (memory : File) → (remove_file true memory).0 ≡ none
unfolding remove_file
removed none = refl
removed (some bytes) = refl

skip_other :
    (pid : ℕ) (a b : Bool) (memory on_waiting : File) (line : Text) (lines : List Text)
    → IsOther line
    → kill_producer pid a b memory on_waiting (line ∷ lines)
      ≡ kill_producer pid a b memory on_waiting lines
unfolding kill_producer
skip_other pid a b memory on_waiting line lines (c, e, no_k, no_K) =
    rw (kill_producer, e) (ground arith)

stops_kill :
    (pid : ℕ) (a b : Bool) (memory on_waiting : File) (line : Text) (lines : List Text)
    → IsKill line
    → kill_producer pid a b memory on_waiting (line ∷ lines)
      ≡ killed pid (delete_memory a memory) (delete_processes_on_waiting b on_waiting)
unfolding kill_producer
stops_kill pid a b memory on_waiting line lines (inl e) = rw (kill_producer, e)
stops_kill pid a b memory on_waiting line lines (inr e) = rw (kill_producer, e)

-- Lines whose first letter is no k are passed over, the first line with a k sends the signal to the
-- process id in the shared memory and removes both files if that is allowed, and no later line is
-- read.
pub kill_producer_kills :
    (pid : ℕ) (memory on_waiting : File) (others : List Text) (line : Text) (rest : List Text)
    → AllOther others
    → IsKill line
    → kill_producer pid true true memory on_waiting (others ++ (line ∷ rest)) ≡ killed pid none none
unfolding delete_memory delete_processes_on_waiting
kill_producer_kills pid memory on_waiting [] line rest h kill =
    stops_kill pid true true memory on_waiting line rest kill
    ∙ rw (removed memory, removed on_waiting)
kill_producer_kills pid memory on_waiting (other ∷ others) line rest h kill =
    skip_other pid true true memory on_waiting other (others ++ (line ∷ rest)) h.0
    ∙ kill_producer_kills pid memory on_waiting others line rest h.1 kill

-- After a line without a letter, with only other lines before it, the program reads past the end
-- of its buffer, whatever is typed behind it.
pub kill_producer_overruns :
    (pid : ℕ) (a b : Bool) (memory on_waiting : File) (others : List Text) (line : Text)
    (rest : List Text)
    → AllOther others
    → AllNonLetters line
    → kill_producer pid a b memory on_waiting (others ++ (line ∷ rest)) ≡ past_the_end
unfolding kill_producer
kill_producer_overruns pid a b memory on_waiting [] line rest h blank =
    rw (kill_producer, first_letter-eq_none line blank)
kill_producer_overruns pid a b memory on_waiting (other ∷ others) line rest h blank =
    skip_other pid a b memory on_waiting other (others ++ (line ∷ rest)) h.0
    ∙ kill_producer_overruns pid a b memory on_waiting others line rest h.1 blank
