-- ===== src/Tests/Controls.antt =====
-- killer.c at two producers of one directory.
use so_pr2_synchronization.Base.{
  ℕ, ◌≡◌, ◌⊎◌, true, false, refl, inl, [], ◌∷◌, ◌++◌, some, none, codes, update, arith,
}
use so_pr2_synchronization.Killer.{first_letter}
use so_pr2_synchronization.Ipc.{Ipc}
use so_pr2_synchronization.Control.{World, launch_producer, find_producer, done, run_killer}
use so_pr2_synchronization.Control.Signals.{
  Handling, Reach, start, going, exited, installed, quit_comes, quit_ignores, quit_prints,
  quit_detaches, quit_removes, quit_exits, later,
}
use so_pr2_synchronization.Control.Signals.Laws.{IsForgotten, signals_end}
use so_pr2_synchronization.Control.Laws.{all_succeed, empty_world, History, at_first, producer}
use so_pr2_synchronization.Control.Last.{
  Meanwhile, nothing_yet, then_elsewhere, other_producer, interrupted, other_ends,
  killer_stops_last,
}

-- Producer 10, from the directory of key 5, then producer 20.
abbrev one_producer : World
one_producer = launch_producer all_succeed 10 5 empty_world

one_producer-History : History one_producer
one_producer-History = History.later at_first (producer all_succeed 10 5)

-- Then producer 20 in the same directory, and after it producer 30 in another one, SIGINT to 20, and
-- the end of 10.
abbrev started : World
started = launch_producer all_succeed 20 5 one_producer

busy_world : (v : World) × Meanwhile 5 20 started v
busy_world = (
  _,
  then_elsewhere
      (then_elsewhere
        (then_elsewhere nothing_yet
          (other_producer all_succeed 30 6 (λ e. omega (arith, e)) (λ e. omega (arith, e))))
        (interrupted 20))
      (other_ends 1 10 (λ e. omega (arith, e))),
)

killer_stops_last_example :
    (u : World) × (run_killer 5 true true
        (some (7 ∷ []))
        none
        ((codes "quit" ∷ []) ++ (codes "k" ∷ []))
        busy_world.0
      ≡ done u none none)
    × ((j : ℕ) → u.running j ≡ update busy_world.0.running 20 none j)
    × (u.exit_status 20 ≡ some 3)
    × (find_producer 5 u.ipc ≡ none)
unfolding first_letter
killer_stops_last_example =
    killer_stops_last one_producer-History 20 5 busy_world.1 (some (7 ∷ [])) none
      (codes "quit" ∷ []) (codes "k") []
      ((b'q', refl, (λ e. omega (arith, e)), λ e. omega (arith, e)), tt) (inl refl)

-- A second SIGQUIT comes before the handler of the first has done anything.
abbrev producer_ipc : Ipc
producer_ipc = one_producer.ipc

two_signals : (s : Handling) × Reach false 0 3 (installed producer_ipc) s × (s.fate ≡ exited 3)
two_signals = (
  _,
  later
      (later
        (later
          (later
            (later (later (later start (quit_comes 0 refl refl refl)) (quit_comes 1 refl refl refl))
              (quit_ignores 1 refl refl))
            (quit_prints 1 refl refl))
          (quit_detaches 1 refl refl))
        (quit_removes 1 refl refl))
      (quit_exits 1 refl refl),
  refl,
)

signals_end_example :
    (two_signals.0.fate ≡ going)
    ⊎ ((two_signals.0.fate ≡ exited 3) × IsForgotten 0 two_signals.0.ipc)
signals_end_example = signals_end 0 3 producer_ipc two_signals.1
