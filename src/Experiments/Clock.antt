-- ===== src/Experiments/Clock.antt =====
-- examples/clock-example.c: work of a random length, started every ten seconds.
use so_pr2_synchronization.Base.{ℕ, zero, suc, ◌+◌, ◌-◌, ◌*◌, ◌%◌, ◌≤◌, arith, ltb, if◌then◌else◌}

-- What `rand()` returns, and by how many seconds the clock is past the end of the two sleeps when
-- they return: a sleep is never too short, but the process may go on late, and the clock counts
-- whole seconds.
pub record Turn : Type 0 where
  pub rand : ℕ
  pub late_work : ℕ
  pub late_sleep : ℕ

abbrev pub interval : ℕ
interval = 10

abbrev pub duration : Turn → ℕ
duration t = t.rand % 13

-- `sleep(duration)`: the clock at the end of the work.
abbrev pub work : Turn → ℕ → ℕ
work t start = start + duration t + t.late_work

-- The body of the loop: the clock behind it. The remaining seconds are at most 0 where the
-- subtraction stops at 0.
unfoldable pub clock_round : Turn → ℕ → ℕ
clock_round t start =
    let elapsed = work t start - start in
    let seconds_to_sleep = interval - elapsed in
    if ltb 0 seconds_to_sleep then work t start + seconds_to_sleep + t.late_sleep else work t start

-- The clock at the start of round `i`.
unfoldable pub clock_at : (ℕ → Turn) → ℕ → ℕ → ℕ
clock_at turns start zero = start
clock_at turns start (suc i) = clock_round (turns i) (clock_at turns start i)

abbrev pub late_by : Turn → ℕ
late_by t = t.late_work + t.late_sleep

clock_round_bounds :
    (t : Turn) (start : ℕ)
    → (start + interval ≤ clock_round t start) × (clock_round t start ≤ start + 12 + late_by t)
unfolding clock_round
clock_round_bounds t start = ground arith

-- If the system is late by at most `late` seconds in each round, `n` rounds take at least 10 seconds
-- each and at most 12 and `late` more: no round begins early, and what a round is late is not caught
-- up in the later ones.
clock_at_bounds :
    (turns : ℕ → Turn) (late start n : ℕ)
    → ((i : ℕ) → late_by (turns i) ≤ late)
    → (start + interval * n ≤ clock_at turns start n)
      × (clock_at turns start n ≤ start + (12 + late) * n)
unfolding clock_at
clock_at_bounds turns late start zero h = (omega arith, omega arith)
clock_at_bounds turns late start (suc n) h =
    let (least, most) = clock_at_bounds turns late start n h in
    let (longer, shorter) = clock_round_bounds (turns n) (clock_at turns start n) in
    let bound = h n in (omega arith, grind arith)
