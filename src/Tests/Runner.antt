-- ===== src/Tests/Runner.antt =====
-- producer.c run with the reference library: the threads move in the order of a list of their
-- numbers, and every system call succeeds.
use so_pr2_synchronization.Base.{
  ℕ, zero, suc, ◌≡◌, refl, List, [], ◌∷◌, Option, none, some, pos, Text, text_eq, print_decimal,
  ◌+ℤ◌, ◌-ℤ◌, dec_lt, ◌⊎◌, inl, inr,
}
use so_pr2_synchronization.Json.Reference.{reference, parse_text}
use so_pr2_synchronization.Json.Reference.Code.{read, write}
use so_pr2_synchronization.Json.Reference.Fields.{
  get_array, get_object, elements, of_list, find, put, remove, dotremove,
}
use so_pr2_synchronization.Files.{
  File, Result, ok, exit, all_ok, read_file, map_and_parse, c_string, open_truncated, fill, stretch,
  copy,
}
use so_pr2_synchronization.Random.{remainder, random_number}
use so_pr2_synchronization.Algorithms.{Algorithm, free_space, search_index, search_loop, visit}
use so_pr2_synchronization.Memory.{
  process_name, process_path, process_object, allocate, give_back, take_space, give_back_space,
}
use so_pr2_synchronization.Worker.{
  Shared, Move, choose, list_read, list_truncate, list_write, enter, unlist_read, unlist_truncate,
  unlist_write, search_fails, search_finds, refuse_post, take_truncate, take_write, take_post, wake,
  return_read, return_truncate, return_write, return_post,
}
use so_pr2_synchronization.Worker.Texts.{array_of, enlist, delist, take_text, give_back_text}
use so_pr2_synchronization.Worker.Points.{
  Process, Pc, created, listing, list_open, list_fill, waiting, unlisting, unlist_open, unlist_fill,
  searching, refused, take_open, take_fill, taken, sleeping, returning, return_open, return_fill,
  returned, finished,
}
use so_pr2_synchronization.System.{System, pick, Reach, later}

-- A computed result, with the equation that says so.
result : {A : Type 0} (r : Result A) → Option ((a : A) × (r ≡ ok a))
result (ok a) = some (a, refl)
result (exit status) = none

written : (r : Result (Unit {0}) × File) → Option ((f : File) × (r ≡ (ok tt, f)))
written (ok done, f) = some (f, refl)
written (exit status, f) = none

option : {A : Type 0} (o : Option A) → (o ≡ none) ⊎ ((a : A) × (o ≡ some a))
option none = inl refl
option (some a) = inr (a, refl)

positive : (n : ℕ) → Option ((k : ℕ) × (n ≡ suc k))
positive zero = none
positive (suc k) = some (k, refl)

module _ (algorithm : Algorithm) (id : ℕ) (s : Shared) where
  -- What the worker does next.
  abbrev Next : Pc → Type 0
  Next p = (m : Shared) × (q : Pc) × Move reference algorithm id s p m q

  map_next : {A : Type 0} {p : Pc} → Option A → (A → Next p) → Option (Next p)
  map_next none f = none
  map_next (some a) f = some (f a)

  searched :
      (p : Process) (contents : Option Text)
      → read_file reference all_ok s.memory ≡ ok contents
      → Next (searching p)
  unfolding option
  searched p contents e =
      elim (option
        (search_index reference (array_of reference contents) p.process_size algorithm)) [
          | inr (k, found) ↦ (_, _, search_finds all_ok contents e found)
          | inl absent ↦ (_, _, search_fails all_ok contents e absent)
        ]

  -- `rand` is the value of both calls of `rand()`.
  chosen : ℕ → Option (Next created)
  unfolding option
  chosen rand = elim (option (random_number rand (pos 1) (pos 10))) [
    | inl fault ↦ none
    | inr (size, e) ↦ elim (option (random_number rand (pos 30) (pos 40))) [
      | inl fault ↦ none
      | inr (delay, e') ↦ some (_, _, choose rand rand e e')
    ]
  ]

  unfoldable pub next : ℕ → (p : Pc) → Option (Next p)
  unfolding map_next result written positive searched chosen
  next rand created = chosen rand
  next rand (listing p) =
      map_next (result (read_file reference all_ok s.on_waiting))
        (λ (t, e). (_, _, list_read all_ok t e))
  next rand (list_open p t) =
      map_next (written (open_truncated all_ok s.on_waiting))
        (λ (f, e). (_, _, list_truncate all_ok e))
  next rand (list_fill p t) =
      map_next (written (fill all_ok t s.on_waiting)) (λ (f, e). (_, _, list_write all_ok e))
  next rand (waiting p) = map_next (positive s.sem) (λ (n, e). (_, _, enter e))
  next rand (unlisting p) =
      map_next (result (read_file reference all_ok s.on_waiting))
        (λ (t, e). (_, _, unlist_read all_ok t e))
  next rand (unlist_open p t) =
      map_next (written (open_truncated all_ok s.on_waiting))
        (λ (f, e). (_, _, unlist_truncate all_ok e))
  next rand (unlist_fill p t) =
      map_next (written (fill all_ok t s.on_waiting)) (λ (f, e). (_, _, unlist_write all_ok e))
  next rand (searching p) =
      map_next (result (read_file reference all_ok s.memory)) (λ (t, e). searched p t e)
  next rand (refused p) = some (_, _, refuse_post)
  next rand (take_open p k t) =
      map_next (written (open_truncated all_ok s.memory)) (λ (f, e). (_, _, take_truncate all_ok e))
  next rand (take_fill p k t) =
      map_next (written (fill all_ok t s.memory)) (λ (f, e). (_, _, take_write all_ok e))
  next rand (taken p k) = some (_, _, take_post)
  next rand (sleeping p k) = map_next (positive s.sem) (λ (n, e). (_, _, wake e))
  next rand (returning p k) =
      map_next (result (read_file reference all_ok s.memory))
        (λ (t, e). (_, _, return_read all_ok t e))
  next rand (return_open p k t) =
      map_next (written (open_truncated all_ok s.memory))
        (λ (f, e). (_, _, return_truncate all_ok e))
  next rand (return_fill p k t) =
      map_next (written (fill all_ok t s.memory)) (λ (f, e). (_, _, return_write all_ok e))
  next rand (returned p k) = some (_, _, return_post)
  next rand finished = none

module _ (algorithm : Algorithm) (n : ℕ) (s : System) where
  abbrev pub Run : Type 0
  Run = (t : System) × Reach reference algorithm n s t

  -- The thread `id` moves, if there is such a thread and it can.
  move : (id rand : ℕ) → Run → Run
  unfolding next dec_lt ◌-ℤ◌ ◌+ℤ◌ print_decimal text_eq remainder random_number read_file c_string
      copy map_and_parse stretch open_truncated fill free_space search_index search_loop visit
      process_name process_object process_path take_space give_back_space allocate give_back enlist
      delist array_of take_text give_back_text parse_text read write find get_array get_object
      elements of_list put remove dotremove
  move id rand (t, reached) = elim (dec_lt id n) [
    | no out ↦ (t, reached)
    | yes h ↦ elim (next algorithm id t.shared rand (t.pc id)) [
      | none ↦ (t, reached)
      | some (m, q, mv) ↦ (_, later reached (pick id h mv))
    ]
  ]

  -- The threads that move, first to last, each with its value of `rand()`.
  unfoldable pub run : List (ℕ × ℕ) → Run → Run
  unfolding move
  run [] r = r
  run ((id, rand) ∷ turns) r = run turns (move id rand r)
