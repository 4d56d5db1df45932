-- ===== src/System/Shutdown/Removed.antt =====
-- producer.c and killer.c: when a file that the killer has removed stays away.
use so_pr2_synchronization.Base.{ℕ, ◌<◌, ◌≡◌, none}
use so_pr2_synchronization.Json.{Parson}
use so_pr2_synchronization.Algorithms.{Algorithm}
use so_pr2_synchronization.System.Shutdown.{Closing, Opens}

module _ (P : Parson) (algorithm : Algorithm) (n : ℕ) where
  record Gone (c : Closing) : Type 0 where
    gone : c.system.shared.memory ≡ none
    nobody : (i : ℕ) → i < n → Opens (c.system.pc i) → ⊥
