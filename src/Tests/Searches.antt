-- ===== src/Tests/Searches.antt =====
-- include/algorithms.c at a document with four partitions, and the menu at some inputs.
use so_pr2_synchronization.Base.{
  ℤ, ◌↔◌, ◌<◌, ◌≡◌, refl, List, [], ◌∷◌, some, none, pos, ◌≤ℤ◌, length, text_eq,
}
use so_pr2_synchronization.Json.Reference.{reference}
use so_pr2_synchronization.Json.Reference.Code.{Value}
use so_pr2_synchronization.Json.Reference.Fields.{find, get_object}
use so_pr2_synchronization.Algorithms.{
  best_fit, first_fit, worst_fit, other, free_space, search_index, algorithm_of, select_algorithm,
}
use so_pr2_synchronization.Algorithms.Loop.{Finds, IsBest, IsWorst, IsFirst, NoneFits}
use so_pr2_synchronization.Algorithms.Fit.{search_index_lem, search_index_fits}
use so_pr2_synchronization.Algorithms.Select.{Accepted, select_algorithm_iff}
use so_pr2_synchronization.Tests.Schema.{partition}

abbrev four : List Value
four = partition 10 ∷ partition 4 ∷ partition 20 ∷ partition 4 ∷ []

found :
    (search_index reference four (pos 3) best_fit ≡ some 1)
    × (search_index reference four (pos 3) first_fit ≡ some 0)
    × (search_index reference four (pos 3) worst_fit ≡ some 2)
unfolding search_index get_object find text_eq
found = (refl, refl, refl)

search_index_lem_example :
    Finds
      (IsBest (free_space reference four) (pos 3) (length four))
      (NoneFits (free_space reference four) (pos 3) (length four))
      (search_index reference four (pos 3) best_fit)
    × Finds
        (IsWorst (free_space reference four) (pos 3) (length four))
        (NoneFits (free_space reference four) (pos 3) (length four))
        (search_index reference four (pos 3) worst_fit)
    × Finds
        (IsFirst (free_space reference four) (pos 3) (length four))
        (NoneFits (free_space reference four) (pos 3) (length four))
        (search_index reference four (pos 3) first_fit)
    × ((n : ℤ) → search_index reference four (pos 3) (other n) ≡ none)
search_index_lem_example = search_index_lem reference four (pos 3)

search_index_fits_example : (1 < length four) × (pos 3 ≤ℤ free_space reference four 1)
unfolding search_index get_object find text_eq
search_index_fits_example = search_index_fits reference four (pos 3) best_fit refl

select_algorithm_iff_example :
    (select_algorithm (some (pos 0) ∷ some (pos 2) ∷ none ∷ []) (pos 0)
      ≡ some (first_fit, none ∷ []))
    ↔ Accepted (some (pos 0) ∷ some (pos 2) ∷ none ∷ []) (pos 0) first_fit (none ∷ [])
select_algorithm_iff_example =
    select_algorithm_iff (some (pos 0) ∷ some (pos 2) ∷ none ∷ []) (pos 0) first_fit (none ∷ [])

-- The third entry is the first that names an algorithm.
chosen :
    select_algorithm (some (pos 7) ∷ none ∷ some (pos 3) ∷ some (pos 1) ∷ []) (pos 0)
    ≡ some (worst_fit, some (pos 1) ∷ [])
unfolding algorithm_of select_algorithm
chosen = refl
