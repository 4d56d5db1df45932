-- ===== src/System/Abstract.antt =====
-- producer.c: what a worker is in the table of System/Table, and what its steps do there.
use so_pr2_synchronization.Base.{
  ℕ, ◌+◌, ◌-◌, ◌≤◌, ◌≡◌, Option, none, some, Text, pos_part, update, arith,
}
use so_pr2_synchronization.Algorithms.{Algorithm}
use so_pr2_synchronization.Worker.Points.{
  Process, Pc, created, take_open, take_fill, taken, sleeping, returning, return_open, return_fill,
  returned, inside,
}
use so_pr2_synchronization.System.Table.{Chooses}

-- What a worker has.
abbrev pub holding_of : Pc → Option (ℕ × ℕ)
holding_of (taken p k) = some (k, pos_part p.process_size)
holding_of (sleeping p k) = some (k, pos_part p.process_size)
holding_of (returning p k) = some (k, pos_part p.process_size)
holding_of (return_open p k _) = some (k, pos_part p.process_size)
holding_of (return_fill p k _) = some (k, pos_part p.process_size)
holding_of _ = none

module _ (algorithm : Algorithm) (count : ℕ) where
  -- A worker that is about to write an allocation has made the choice of the algorithm.
  abbrev pub HasChosen : (ℕ → ℕ) → Pc → Type 0
  HasChosen free (take_open p k _) = Chooses algorithm count free (pos_part p.process_size) k
  HasChosen free (take_fill p k _) = Chooses algorithm count free (pos_part p.process_size) k
  HasChosen free _ = Unit

  pub outside-HasChosen : (p : Pc) (free : ℕ → ℕ) → inside p ≡ 0 → HasChosen free p
  outside-HasChosen created free h = tt
  outside-HasChosen (take_open p k t) free h = absurd (omega arith)
  outside-HasChosen (take_fill p k t) free h = absurd (omega arith)
  outside-HasChosen p free h = tt

  -- What a step of a worker does to the free space.
  pub data Effect (free : ℕ → ℕ) : Pc → (ℕ → ℕ) → Pc → Type 0 where
    quiet :
        {p q : Pc}
        → holding_of q ≡ holding_of p
        → (HasChosen free p → HasChosen free q)
        → Effect free p free q
    takes :
        {p : Process} {k : ℕ} {t : Option Text}
        → pos_part p.process_size ≤ free k
        → Effect free
            (take_fill p k t)
            (update free k (free k - pos_part p.process_size))
            (taken p k)
    releases :
        {p : Process} {k : ℕ} {t : Option Text}
        → Effect free
            (return_fill p k t)
            (update free k (free k + pos_part p.process_size))
            (returned p k)
