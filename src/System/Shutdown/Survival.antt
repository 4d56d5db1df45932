-- ===== src/System/Shutdown/Survival.antt =====
-- producer.c and killer.c: which files are left when both programs have ended.
use so_pr2_synchronization.Base.{ℕ, ◌<◌, ◌≡◌, refl, Bool, true, false, ◌&&◌, ◌||◌, [], some}
use so_pr2_synchronization.Json.{Parson}
use so_pr2_synchronization.Files.{all_ok, open_truncated}
use so_pr2_synchronization.Algorithms.{Algorithm}
use so_pr2_synchronization.Worker.{Shared, Move, take_truncate, return_truncate}
use so_pr2_synchronization.Worker.Points.{Pc, take_fill, return_fill}
use so_pr2_synchronization.System.{System}
use so_pr2_synchronization.System.Shutdown.{
  over, Closing, Closes, work, send_signal, handler_exits, memory_deleted, list_deleted, stay,
  then_close, asked, fills_memory, fills_list, Opens, to_take, to_return,
}

module _ (P : Parson) (algorithm : Algorithm) (n : ℕ) where
  truncates :
      (i : ℕ) (s : Shared) {p : Pc}
      → Opens p
      → (q : Pc) × Move P algorithm i s p (record s { memory = some [] }) q
  unfolding open_truncated
  truncates i s (to_take p k t) = (take_fill p k t, take_truncate all_ok refl)
  truncates i s (to_return p k t) = (return_fill p k t, return_truncate all_ok refl)

  Opens-fresh :
      (removable : Bool) {p : Pc}
      → Opens p
      → ((false || (removable && fills_memory p)) || (removable && fills_list p)) ≡ false
  Opens-fresh true (to_take p k t) = refl
  Opens-fresh true (to_return p k t) = refl
  Opens-fresh false (to_take p k t) = refl
  Opens-fresh false (to_return p k t) = refl

  -- Whether or not the files may be removed: while a worker is about to truncate the memory, the
  -- killer can remove both files before the handler of the producer exits, and the worker can then
  -- make the memory again. It stays, empty, after both programs have ended.
  pub memory_survives :
      (removable : Bool) {s : System} (i : ℕ)
      → i < n
      → Opens (s.pc i)
      → (d : Closing) × Closes P algorithm n removable (asked s) d
        × (d.alive ≡ false)
        × (d.stage ≡ over)
        × (d.system.shared.memory ≡ some [])
  memory_survives removable {s} i lt opens =
      let (q, mv) = truncates i _ opens in
      let fresh = Opens-fresh removable opens in
      (
        _,
        then_close
            (then_close
              (then_close (then_close (then_close stay (send_signal refl)) (memory_deleted refl))
                (list_deleted refl))
              (work i lt refl fresh mv))
            (handler_exits refl refl),
        refl,
        refl,
        refl,
      )
