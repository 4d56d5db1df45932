-- ===== src/System/Ends.antt =====
-- producer.c: the number of steps of a run.
use so_pr2_synchronization.Base.{ℕ, ◌+◌, ◌≤◌, total, total-update, arith}
use so_pr2_synchronization.Json.{Parson}
use so_pr2_synchronization.Algorithms.{Algorithm}
use so_pr2_synchronization.Worker.{
  Shared, Move, choose, list_read, list_truncate, list_write, enter, unlist_read, unlist_truncate,
  unlist_write, search_fails, search_finds, refuse_post, take_truncate, take_write, take_post, wake,
  return_read, return_truncate, return_write, return_post,
}
use so_pr2_synchronization.Worker.Points.{
  Pc, created, listing, list_open, list_fill, waiting, unlisting, unlist_open, unlist_fill,
  searching, refused, take_open, take_fill, taken, sleeping, returning, return_open, return_fill,
  returned, finished,
}
use so_pr2_synchronization.System.{System, pick, Reach, start, later}

-- The accesses that a worker has yet to make, if it finds a partition.
abbrev pub left : Pc → ℕ
left created = 17
left (listing _) = 16
left (list_open _ _) = 15
left (list_fill _ _) = 14
left (waiting _) = 13
left (unlisting _) = 12
left (unlist_open _ _) = 11
left (unlist_fill _ _) = 10
left (searching _) = 9
left (refused _) = 1
left (take_open _ _ _) = 8
left (take_fill _ _ _) = 7
left (taken _ _) = 6
left (sleeping _ _) = 5
left (returning _ _) = 4
left (return_open _ _ _) = 3
left (return_fill _ _ _) = 2
left (returned _ _) = 1
left finished = 0

module _ (P : Parson) (algorithm : Algorithm) where
  Move-left : {id : ℕ} {s t : Shared} {p q : Pc} → Move P algorithm id s p t q → left q + 1 ≤ left p
  Move-left (choose a b ea eb) = omega arith
  Move-left (list_read calls contents e) = omega arith
  Move-left (list_truncate calls e) = omega arith
  Move-left (list_write calls e) = omega arith
  Move-left (enter e) = omega arith
  Move-left (unlist_read calls contents e) = omega arith
  Move-left (unlist_truncate calls e) = omega arith
  Move-left (unlist_write calls e) = omega arith
  Move-left (search_fails calls contents e absent) = omega arith
  Move-left (search_finds calls contents e found) = omega arith
  Move-left refuse_post = omega arith
  Move-left (take_truncate calls e) = omega arith
  Move-left (take_write calls e) = omega arith
  Move-left take_post = omega arith
  Move-left (wake e) = omega arith
  Move-left (return_read calls contents e) = omega arith
  Move-left (return_truncate calls e) = omega arith
  Move-left (return_write calls e) = omega arith
  Move-left return_post = omega arith

  -- The number of the steps of a run.
  abbrev pub steps : {n : ℕ} {s t : System} → Reach P algorithm n s t → ℕ
  steps start = 0
  steps (later r st) = steps r + 1

  pub Reach-left :
      {n : ℕ} {s t : System} (r : Reach P algorithm n s t)
      → steps r + total left n t.pc ≤ total left n s.pc
  Reach-left start = omega arith
  Reach-left {n} (later {t = t} r (pick i {p = p} lt mv)) =
      omega (arith, Reach-left r, total-update left n t.pc i p lt, Move-left mv)
