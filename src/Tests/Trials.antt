-- ===== src/Tests/Trials.antt =====
-- examples/algorithms.c: its `main`.
use so_pr2_synchronization.Base.{◌≡◌, refl, some, [], ◌∷◌, pos, ◌+ℤ◌, ◌-ℤ◌}
use so_pr2_synchronization.Experiments.Blocks.{
  worst_fit_blocks, Placed, worst_fit_blocks-Placed, driver_blocks, driver_processes, driver,
}

driver_prints :
    driver
    ≡ record { process_no = 1; process_size = pos 212; block_no = some 4 }
      ∷ record { process_no = 2; process_size = pos 417; block_no = some 2 }
      ∷ record { process_no = 3; process_size = pos 112; block_no = some 3 }
      ∷ record { process_no = 4; process_size = pos 426; block_no = some 5 }
      ∷ []
unfolding driver worst_fit_blocks ◌-ℤ◌ ◌+ℤ◌
driver_prints = refl

worst_fit_blocks-Placed_example :
    Placed 5
      (worst_fit_blocks 5 driver_blocks driver_processes).1
      driver_blocks
      driver_processes
      (worst_fit_blocks 5 driver_blocks driver_processes).0
worst_fit_blocks-Placed_example = worst_fit_blocks-Placed 5 driver_blocks driver_processes
