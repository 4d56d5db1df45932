-- ===== src/Algorithms/Fit.antt =====
-- include/algorithms.c: what `search_index` finds with each algorithm.
use so_pr2_synchronization.Base.{ℕ, ◌<◌, ◌≡◌, ℤ, ◌≤ℤ◌, none, some, arith, List, length}
use so_pr2_synchronization.Json.{Parson}
use so_pr2_synchronization.Algorithms.{
  Algorithm, best_fit, first_fit, worst_fit, other, search_index, free_space,
}
use so_pr2_synchronization.Algorithms.Loop.{
  Finds, IsBest, IsWorst, IsFirst, NoneFits, search_loop-IsBest, search_loop-IsWorst,
  search_loop-first, search_loop-other,
}

module _ (P : Parson) (mem_arr : List P.Value) (process_size : ℤ) where
  -- Best fit finds the leftmost of the smallest partitions that are large enough, and -1 only if
  -- none is large enough.
  pub search_index-IsBest :
      Finds
        (IsBest (free_space P mem_arr) process_size (length mem_arr))
        (NoneFits (free_space P mem_arr) process_size (length mem_arr))
        (search_index P mem_arr process_size best_fit)
  unfolding search_index
  search_index-IsBest = search_loop-IsBest (free_space P mem_arr) process_size (length mem_arr)

  -- Worst fit finds the leftmost of the largest partitions, if those are large enough, and -1 only
  -- if no partition is.
  pub search_index-IsWorst :
      Finds
        (IsWorst (free_space P mem_arr) process_size (length mem_arr))
        (NoneFits (free_space P mem_arr) process_size (length mem_arr))
        (search_index P mem_arr process_size worst_fit)
  unfolding search_index
  search_index-IsWorst = search_loop-IsWorst (free_space P mem_arr) process_size (length mem_arr)

  -- First fit finds the first partition that is large enough, and -1 only if none is.
  pub search_index-IsFirst :
      Finds
        (IsFirst (free_space P mem_arr) process_size (length mem_arr))
        (NoneFits (free_space P mem_arr) process_size (length mem_arr))
        (search_index P mem_arr process_size first_fit)
  unfolding search_index
  search_index-IsFirst =
      search_loop-first (free_space P mem_arr) process_size (length mem_arr) 0 (length mem_arr)
        (omega arith) (λ j p. absurd (omega arith))

  -- Whatever the algorithm, an index that the search returns is one of a partition that is large
  -- enough.
  pub search_index_fits :
      (algorithm : Algorithm) {k : ℕ}
      → search_index P mem_arr process_size algorithm ≡ some k
      → (k < length mem_arr) × (process_size ≤ℤ free_space P mem_arr k)
  unfolding search_index
  search_index_fits best_fit e =
      let found = rw e at search_index-IsBest in (found.within, found.fits)
  search_index_fits first_fit e =
      let found = rw e at search_index-IsFirst in (found.within, found.fits)
  search_index_fits worst_fit e =
      let found = rw e at search_index-IsWorst in (found.within, found.fits)
  search_index_fits (other n) e =
      cc (search_loop-other (free_space P mem_arr) process_size n (length mem_arr) 0)

  -- Best fit finds the leftmost of the smallest partitions that are large enough, worst fit the
  -- leftmost of the largest, if those are large enough, and first fit the first that is large enough;
  -- each of them finds nothing only if no partition is large enough. With a number that stands for no
  -- algorithm the search finds nothing.
  pub search_index_lem :
      Finds
        (IsBest (free_space P mem_arr) process_size (length mem_arr))
        (NoneFits (free_space P mem_arr) process_size (length mem_arr))
        (search_index P mem_arr process_size best_fit)
      × Finds
          (IsWorst (free_space P mem_arr) process_size (length mem_arr))
          (NoneFits (free_space P mem_arr) process_size (length mem_arr))
          (search_index P mem_arr process_size worst_fit)
      × Finds
          (IsFirst (free_space P mem_arr) process_size (length mem_arr))
          (NoneFits (free_space P mem_arr) process_size (length mem_arr))
          (search_index P mem_arr process_size first_fit)
      × ((n : ℤ) → search_index P mem_arr process_size (other n) ≡ none)
  unfolding search_index
  search_index_lem = (
    search_index-IsBest,
    search_index-IsWorst,
    search_index-IsFirst,
    λ n. search_loop-other (free_space P mem_arr) process_size n (length mem_arr) 0,
  )
