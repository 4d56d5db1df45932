-- ===== src/Tests/Pairs.antt =====
-- examples/sem, examples/shmdemo.c and examples/inicializador.c at concrete states.
use so_pr2_synchronization.Base.{◌≡◌, refl, [], ◌∷◌, some, none, false, codes, arith}
use so_pr2_synchronization.Experiments.Pair.{Pair, raising, storing, waiting, Reach}
use so_pr2_synchronization.Experiments.Pair.Order.{reads_too_early}
use so_pr2_synchronization.Control.Laws.{empty_world}
use so_pr2_synchronization.Ipc.Laws.{IsSound}
use so_pr2_synchronization.Experiments.Segments.{Zone, segment_size, shm_demo, strncpy}
use so_pr2_synchronization.Experiments.Segments.Laws.{calls_ok, shm_demo-shm_demo, take}

-- Both programs stand before the first cell, which holds a 7.
abbrev first_cell : Pair
first_cell = record {
  shared = record { sem = 0; cells = λ j. 7 };
  writer = raising 0;
  reader = waiting 0;
  attached = 2;
  doomed = false;
  seen = λ i. none;
}

reads_too_early_example :
    (t : Pair) × Reach first_cell t × (t.seen 0 ≡ some 7) × (t.writer ≡ storing 0)
reads_too_early_example = reads_too_early refl refl refl (omega arith)

shown_again :
    shm_demo calls_ok []
      (shm_demo (record calls_ok { shmdt_ok = false }) (codes "hi" ∷ []) none).segment
    ≡ record {
      status = 0;
      printed = some (take segment_size (codes "hi"));
      segment = some (strncpy segment_size (codes "hi"));
    }
shown_again =
    shm_demo-shm_demo false (codes "hi") none
      ((λ e. omega (arith, e)), ((λ e. omega (arith, e)), tt))

abbrev no_zone : Zone
no_zone = record { ipc = empty_world.ipc; writing = some 3; reading = none }

empty-IsSound : IsSound no_zone.ipc
empty-IsSound = record {
  found = λ key id e. cc;
  apart = λ key key' id e e'. cc;
  below = λ key id e. cc;
}
