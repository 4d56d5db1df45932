-- ===== src/Tests/Shutdowns.antt =====
-- killer.c beside a producer with one worker that is about to write the memory.
use so_pr2_synchronization.Base.{◌≡◌, refl, true, false, [], ◌∷◌, none, some, pos, arith}
use so_pr2_synchronization.Json.Reference.{reference}
use so_pr2_synchronization.Algorithms.{best_fit}
use so_pr2_synchronization.Killer.{delete_memory, remove_file}
use so_pr2_synchronization.Worker.Points.{Process, take_open, take_fill}
use so_pr2_synchronization.System.{System}
use so_pr2_synchronization.System.Shutdown.{
  Closing, Closes, stay, then_close, memory_deleted, asked, over, deleting_list, send_signal,
  to_take,
}
use so_pr2_synchronization.System.Shutdown.Survival.{memory_survives}

abbrev about_to_write : System
about_to_write = record {
  shared = record { sem = 0; memory = some (7 ∷ []); on_waiting = some (8 ∷ []) };
  pc = λ _. take_open (record { process_size = pos 3; process_delay = pos 20 }) 0 none;
}

memory_survives_example :
    (d : Closing) × Closes reference best_fit 1 true (asked about_to_write) d
    × (d.alive ≡ false)
    × (d.stage ≡ over)
    × (d.system.shared.memory ≡ some [])
memory_survives_example =
    memory_survives reference best_fit 1 true 0 (omega arith)
      (to_take (record { process_size = pos 3; process_delay = pos 20 }) 0 none)

abbrev process : Process
process = record { process_size = pos 3; process_delay = pos 20 }

-- The memory has been truncated.
abbrev writing : System
writing = record {
  shared = record { sem = 0; memory = some []; on_waiting = some (8 ∷ []) };
  pc = λ _. take_fill process 0 (some (5 ∷ []));
}

-- The killer has removed the memory under the worker.
abbrev removed : Closing
removed = record {
  system = record {
    shared = record { sem = 0; memory = none; on_waiting = some (8 ∷ []) };
    pc = writing.pc;
  };
  alive = true;
  signalled = true;
  stage = deleting_list;
  stale = λ i. true;
}

removing : Closes reference best_fit 1 true (asked writing) removed
unfolding delete_memory remove_file
removing = then_close (then_close stay (send_signal refl)) (memory_deleted refl)
