-- ===== src/Algorithms.antt =====
-- include/algorithms.h and include/algorithms.c: the choice of an algorithm and the search for a
-- partition.
pub mod Select
pub mod Loop
pub mod Agree
pub mod Fit
use so_pr2_synchronization.Base.{
  ℕ, zero, suc, ℤ, pos, ltb_ℤ, leb_ℤ, Bool, true, false, Option, none, some, List, [], ◌∷◌, codes,
  length, if◌then◌else◌,
}
use so_pr2_synchronization.Json.{Parson, array_get_object, get_int}

-- `algorithm_t`; a C enum can hold ints that name none of its constants.
pub data Algorithm : Type 0 where
  best_fit first_fit worst_fit : Algorithm
  other : ℤ → Algorithm

-- The `switch` of `select_algorithm`: `none` is the default case.
unfoldable pub algorithm_of : ℤ → Option Algorithm
algorithm_of (pos (suc zero)) = some best_fit
algorithm_of (pos (suc (suc zero))) = some first_fit
algorithm_of (pos (suc (suc (suc zero)))) = some worst_fit
algorithm_of _ = none

-- `scanf("%d", &code)`: `none` is a call that converts nothing and leaves `code` as it was.
abbrev pub scan : Option ℤ → ℤ → ℤ
scan none code = code
scan (some n) code = n

-- The loop over what the calls of `scanf` find, from the value that `code` has. The result is the
-- algorithm with the input left; `none` means that the loop still waits for input.
unfoldable pub select_algorithm : List (Option ℤ) → ℤ → Option (Algorithm × List (Option ℤ))
unfolding algorithm_of
select_algorithm [] code = none
select_algorithm (entry ∷ input) code =
    let rest = select_algorithm input (scan entry code) in
    elim (algorithm_of (scan entry code)) [ none ↦ rest | some algorithm ↦ some (algorithm, input) ]

-- The body of the loop of `search_index` for a partition that is large enough: the new `index` and
-- `shouldBreak`. An `index` of -1 is `none`; `free` gives the free space of each partition.
unfoldable pub visit : (ℕ → ℤ) → Algorithm → ℕ → Option ℕ → Option ℕ × Bool
visit free best_fit i none = (some i, false)
visit free best_fit i (some k) = (if ltb_ℤ (free i) (free k) then some i else some k, false)
visit free worst_fit i none = (some i, false)
visit free worst_fit i (some k) = (if ltb_ℤ (free k) (free i) then some i else some k, false)
visit free first_fit i index = (some i, true)
visit free (other n) i index = (index, false)

-- The loop, with the rounds that are left.
unfoldable pub search_loop : (ℕ → ℤ) → ℤ → Algorithm → ℕ → ℕ → Option ℕ → Option ℕ
unfolding visit
search_loop free process_size algorithm zero i index = index
search_loop free process_size algorithm (suc rounds) i index =
    let (chosen, should_break) = visit free algorithm i index in
    let found = search_loop free process_size algorithm rounds (suc i) chosen in
    let passed = search_loop free process_size algorithm rounds (suc i) index in
    if leb_ℤ process_size (free i) then (if should_break then chosen else found) else passed

module _ (P : Parson) where
  -- The free space that the document gives for partition `i`.
  unfoldable pub free_space : List P.Value → ℕ → ℤ
  free_space mem_arr i = get_int P (array_get_object P mem_arr i) (codes "free_space")

  unfoldable pub search_index : List P.Value → ℤ → Algorithm → Option ℕ
  unfolding search_loop free_space
  search_index mem_arr process_size algorithm =
      search_loop (free_space mem_arr) process_size algorithm (length mem_arr) 0 none
