-- ===== src/System/Moves.antt =====
-- producer.c: which worker can move.
use so_pr2_synchronization.Base.{
  ℕ, suc, ◌≤◌, ◌<◌, ◌≡◌, refl, sym, subst, dec_lt, inl, inr, Option, pos, Text, total,
  sum_below-pos, Option-cases, arith, int_laws,
}
use so_pr2_synchronization.Json.{Parson, IsLawful}
use so_pr2_synchronization.Files.{all_ok, ok, read_file, open_truncated, fill, pretty}
use so_pr2_synchronization.Files.Laws.{read_file-IsText_ok}
use so_pr2_synchronization.Random.Range.{random_number_bounds}
use so_pr2_synchronization.Algorithms.{Algorithm, search_index}
use so_pr2_synchronization.Worker.{
  Shared, Move, choose, list_read, list_truncate, list_write, enter, unlist_read, unlist_truncate,
  unlist_write, search_fails, search_finds, refuse_post, take_truncate, take_write, take_post, wake,
  return_read, return_truncate, return_write, return_post,
}
use so_pr2_synchronization.Worker.Points.{
  Pc, created, listing, list_open, list_fill, waiting, unlisting, unlist_open, unlist_fill,
  searching, refused, take_open, take_fill, taken, sleeping, returning, return_open, return_fill,
  returned, finished, inside, reading,
}
use so_pr2_synchronization.Worker.Texts.{array_of}
use so_pr2_synchronization.System.Invariant.{Inv}
use so_pr2_synchronization.System.Effects.{nobody_fills}
use so_pr2_synchronization.System.Safety.{reading-inside}
use so_pr2_synchronization.System.Listed.{list_filling, IsDocument, IsWriting, Live}
use so_pr2_synchronization.System.Ends.{left}

module _ (P : Parson) (L : IsLawful P) (algorithm : Algorithm) {count n : ℕ} {capacity : ℕ → ℕ}
    {s : Shared} {pc : ℕ → Pc} {free : ℕ → ℕ} {old processes : ℕ → P.Object}
    (inv : Inv P count n capacity old s pc free processes) (live : Live P n s pc) (i : ℕ)
    (lt : i < n) where
  abbrev Next : Pc → Type 0
  Next from = (t : Shared) × (p : Pc) × Move P algorithm i s from t p

  pub memory-reads :
      {from : Pc}
      → pc i ≡ from
      → reading from ≡ 1
      → (contents : Option Text) × (read_file P all_ok s.memory ≡ ok contents)
  memory-reads here at =
      let (within, quiet) = reading-inside (pc i) (rw here at) in
      let st = inv.stored (nobody_fills inv i lt within quiet) in
      (pretty P st.text, read_file-IsText_ok P st.is_text)

  pub here-IsWriting : {from : Pc} → pc i ≡ from → IsWriting P from
  here-IsWriting here = subst (IsWriting P) here (live.writing i lt)

  -- A worker in the middle of a write can go on with it.
  fills_on : (from : Pc) → pc i ≡ from → 1 ≤ list_filling from → Next from
  unfolding fill
  fills_on (list_fill p t) here h =
      let ready = here-IsWriting here in
      subst (λ x. Next (list_fill p x)) (sym ready.is_some) (_, _, list_write all_ok refl)
  fills_on (unlist_fill p t) here h =
      let ready = here-IsWriting here in
      subst (λ x. Next (unlist_fill p x)) (sym ready.is_some) (_, _, unlist_write all_ok refl)
  fills_on created here h = absurd (omega arith)
  fills_on p here h = absurd (omega arith)

  -- A worker that has not finished can move, if the waiting list is no truncated file and the
  -- semaphore is free for a worker outside.
  can_move :
      (from : Pc)
      → pc i ≡ from
      → 1 ≤ left from
      → IsDocument P s.on_waiting
      → (inside from ≡ 0 → (m : ℕ) × (s.sem ≡ suc m))
      → Next from
  unfolding open_truncated fill
  can_move created here h document free_sem =
      let (size, size_is, _, _) = random_number_bounds 0 (pos 1) (pos 10) (omega int_laws) in
      let (delay, delay_is, _, _) = random_number_bounds 0 (pos 30) (pos 40) (omega int_laws) in
      (_, _, choose 0 0 size_is delay_is)
  can_move (listing p) here h document free_sem =
      (_, _, list_read all_ok _ (read_file-IsText_ok P document.is_text))
  can_move (list_open p t) here h document free_sem = (_, _, list_truncate all_ok refl)
  can_move (list_fill p t) here h document free_sem = fills_on _ here (omega arith)
  can_move (waiting p) here h document free_sem = (_, _, enter (free_sem refl).1)
  can_move (unlisting p) here h document free_sem =
      (_, _, unlist_read all_ok _ (read_file-IsText_ok P document.is_text))
  can_move (unlist_open p t) here h document free_sem = (_, _, unlist_truncate all_ok refl)
  can_move (unlist_fill p t) here h document free_sem = fills_on _ here (omega arith)
  can_move (searching p) here h document free_sem =
      let (contents, e) = memory-reads here refl in
      elim (Option-cases (search_index P (array_of P contents) p.process_size algorithm)) [
        | inl absent ↦ (_, _, search_fails all_ok contents e absent)
        | inr (k, found) ↦ (_, _, search_finds all_ok contents e found)
      ]
  can_move (refused p) here h document free_sem = (_, _, refuse_post)
  can_move (take_open p k t) here h document free_sem = (_, _, take_truncate all_ok refl)
  can_move (take_fill p k t) here h document free_sem =
      let (text, is_some) = here-IsWriting here in
      subst (λ x. Next (take_fill p k x)) (sym is_some) (_, _, take_write all_ok refl)
  can_move (taken p k) here h document free_sem = (_, _, take_post)
  can_move (sleeping p k) here h document free_sem = (_, _, wake (free_sem refl).1)
  can_move (returning p k) here h document free_sem =
      let (contents, e) = memory-reads here refl in (_, _, return_read all_ok contents e)
  can_move (return_open p k t) here h document free_sem = (_, _, return_truncate all_ok refl)
  can_move (return_fill p k t) here h document free_sem =
      let (text, is_some) = here-IsWriting here in
      subst (λ x. Next (return_fill p k x)) (sym is_some) (_, _, return_write all_ok refl)
  can_move (returned p k) here h document free_sem = (_, _, return_post)
  can_move finished here h document free_sem = absurd (omega arith)

inside-left : (p : Pc) → 1 ≤ inside p → 1 ≤ left p
inside-left created h = absurd (omega arith)
inside-left p h = omega arith

pub left-finished : (p : Pc) → left p ≡ 0 → p ≡ finished
left-finished finished h = refl
left-finished created h = absurd (omega arith)
left-finished p h = absurd (omega arith)

module _ (P : Parson) (L : IsLawful P) (algorithm : Algorithm) {count n : ℕ} {capacity : ℕ → ℕ}
    {s : Shared} {pc : ℕ → Pc} {free : ℕ → ℕ} {old processes : ℕ → P.Object}
    (inv : Inv P count n capacity old s pc free processes) (live : Live P n s pc) where
  -- Some worker can move while not all have finished: one that writes the waiting list, else one
  -- that has the semaphore, else any.
  pub someone_moves :
      1 ≤ total left n pc
      → (j : ℕ) × (j < n) × (t : Shared) × (p : Pc) × Move P algorithm j s (pc j) t p
  someone_moves some_left = elim (dec_lt 0 (total list_filling n pc)) [
    | yes writing ↦
        let (j, h, one) = sum_below-pos n (λ x. list_filling (pc x)) writing in
        let (t, p, mv) = fills_on P L algorithm inv live j h (pc j) refl one in (j, h, t, p, mv)
    | no nobody_writes ↦
        let document = live.full (omega arith) in
        elim (dec_lt 0 (total inside n pc)) [
          | yes within ↦
              let (j, h, one) = sum_below-pos n (λ x. inside (pc x)) within in
              let (t, p, mv) =
                can_move P L algorithm inv live j h (pc j) refl (inside-left (pc j) one) document
                  (λ outside. absurd (omega (arith, outside, one))) in
              (j, h, t, p, mv)
          | no nobody_within ↦
              let (j, h, one) = sum_below-pos n (λ x. left (pc x)) some_left in
              let (t, p, mv) =
                can_move P L algorithm inv live j h (pc j) refl one document
                  (λ outside. (0, omega (arith, inv.one_inside, nobody_within))) in
              (j, h, t, p, mv)
        ]
  ]
