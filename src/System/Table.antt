-- ===== src/System/Table.antt =====
-- What the producer promises: a table of partitions, in which workers take and give back space one
-- at a time. There are no files, no documents and no semaphore here.
use so_pr2_synchronization.Base.{ℕ, ◌+◌, ◌-◌, ◌≤◌, ◌<◌, ◌≡◌, Option, none, some, pos, update}
use so_pr2_synchronization.Algorithms.{Algorithm, search_loop}

-- The free space of each partition, and what each worker has: the partition and how much of it.
pub record Table : Type 0 where
  pub free : ℕ → ℕ
  pub holding : ℕ → Option (ℕ × ℕ)

abbrev pub all_free : (ℕ → ℕ) → Table
all_free capacity = record { free = capacity; holding = λ i. none }

-- The partition that the algorithm chooses for a size, among the first `count`.
abbrev pub Chooses : Algorithm → ℕ → (ℕ → ℕ) → ℕ → ℕ → Type 0
Chooses algorithm count free size k =
    search_loop (λ j. pos (free j)) (pos size) algorithm count 0 none ≡ some k

-- A worker that has nothing takes space in the partition that the algorithm chooses from the free
-- space of this moment, where it fits; a worker gives back what it has.
pub data Act (algorithm : Algorithm) (count n : ℕ) (t : Table) : Table → Type 0 where
  take :
      (i k size : ℕ)
      → i < n
      → t.holding i ≡ none
      → Chooses algorithm count t.free size k
      → size ≤ t.free k
      → Act algorithm count n t (record {
        free = update t.free k (t.free k - size);
        holding = update t.holding i (some (k, size));
      })
  release :
      (i k size : ℕ)
      → i < n
      → t.holding i ≡ some (k, size)
      → Act algorithm count n t
          (record { free = update t.free k (t.free k + size); holding = update t.holding i none })

pub data Acts (algorithm : Algorithm) (count n : ℕ) (t : Table) : Table → Type 0 where
  idle : Acts algorithm count n t t
  act :
      {u v : Table}
      → Acts algorithm count n t u
      → Act algorithm count n u v
      → Acts algorithm count n t v
