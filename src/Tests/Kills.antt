-- ===== src/Tests/Kills.antt =====
-- killer.c at some lines.
use so_pr2_synchronization.Base.{◌≡◌, refl, [], ◌∷◌, some, none, true, false, codes}
use so_pr2_synchronization.Killer.{isalpha, past_the_end, kill_producer}

no_letter :
    kill_producer 42 true false (some (7 ∷ [])) none (codes "12" ∷ codes "k" ∷ []) ≡ past_the_end
unfolding isalpha kill_producer
no_letter = refl
