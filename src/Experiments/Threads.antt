-- ===== src/Experiments/Threads.antt =====
-- examples/thread_test.c: four threads that print twelve lines each, and the `main` that makes them.
pub mod Lines
use so_pr2_synchronization.Base.{
  ℕ, zero, suc, ◌<◌, ◌≤◌, ◌≡◌, Bool, true, false, List, [], ◌∷◌, ◌++◌, update,
}

-- The threads that `main` has still to make, which are the lowest numbers; whether it has come
-- behind its sleep; whether the process lives; the line that each thread prints next; and what has
-- been printed: the number of the thread with that of the line.
pub record Sample : Type 0 where
  pub to_make : ℕ
  pub main_over : Bool
  pub alive : Bool
  pub iteration : ℕ → ℕ
  pub printed : List (ℕ × ℕ)

abbrev pub thread_count : ℕ
thread_count = 4

abbrev pub iterations : ℕ
iterations = 12

abbrev pub at_start : Sample
at_start = record {
  to_make = thread_count;
  main_over = false;
  alive = true;
  iteration = λ id. 0;
  printed = [];
}

-- `use_pthread_exit` is the option of the build. Without it `main` returns and ends the process. A
-- thread may wake at any moment; `malloc` and `pthread_create` are taken to succeed.
pub data Step (use_pthread_exit : Bool) (s : Sample) : Sample → Type 0 where
  make :
      {i : ℕ}
      → s.alive ≡ true
      → s.to_make ≡ suc i
      → Step use_pthread_exit s (record s { to_make = i })
  print_line :
      (id : ℕ)
      → s.alive ≡ true
      → s.to_make < id
      → id ≤ thread_count
      → s.iteration id < iterations
      → Step use_pthread_exit s (record s {
        iteration = update s.iteration id (suc (s.iteration id));
        printed = s.printed ++ ((id, s.iteration id) ∷ []);
      })
  end_main :
      s.alive ≡ true
      → s.to_make ≡ 0
      → s.main_over ≡ false
      → Step use_pthread_exit s (record s { main_over = true; alive = use_pthread_exit })

pub data Reach (use_pthread_exit : Bool) (s : Sample) : Sample → Type 0 where
  start : Reach use_pthread_exit s s
  later :
      {t u : Sample}
      → Reach use_pthread_exit s t
      → Step use_pthread_exit t u
      → Reach use_pthread_exit s u
