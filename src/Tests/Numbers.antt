-- ===== src/Tests/Numbers.antt =====
-- include/random.c: runs, and the theorems at concrete bounds.
use so_pr2_synchronization.Base.{
  ◌≡◌, refl, ◌⊎◌, some, int_laws, ℤ, pos, ◌+ℤ◌, ◌-ℤ◌, ◌≤ℤ◌, ◌<ℤ◌, arith,
}
use so_pr2_synchronization.Random.{remainder, random_number}
use so_pr2_synchronization.Random.Ints.{random_number_int_bounds, random_number_int_reversed}
use so_pr2_synchronization.Random.Machine.{
  int_max, overflows, divides_by_zero, returns, draw, random_number_int, span, outcome_of,
  random_number_int_lem,
}

process_size : random_number 17 (pos 1) (pos 10) ≡ some (pos 8)
unfolding random_number ◌+ℤ◌ ◌-ℤ◌ remainder
process_size = refl

drawn_int : random_number_int 17 (pos 1) (pos 10) ≡ returns (pos 8)
unfolding random_number_int draw ◌+ℤ◌ ◌-ℤ◌ remainder
drawn_int = refl

random_number_int_lem_example :
    (((pos 10 ≡ int_max) ⊎ (int_max <ℤ span (pos 1) (pos 10)))
      × (random_number_int 17 (pos 1) (pos 10) ≡ overflows))
    ⊎ ((pos 10 <ℤ int_max)
        × (span (pos 1) (pos 10) ≤ℤ int_max)
        × (random_number_int 17 (pos 1) (pos 10) ≡ outcome_of (random_number 17 (pos 1) (pos 10))))
random_number_int_lem_example =
    random_number_int_lem 17 (pos 1) (pos 10) (omega arith, omega arith) (omega arith, omega arith)

random_number_int_bounds_example :
    (x : ℤ) × (random_number_int 17 (pos 30) (pos 40) ≡ returns x) × (pos 30 ≤ℤ x) × (x ≤ℤ pos 40)
random_number_int_bounds_example =
    random_number_int_bounds 17 (pos 30) (pos 40) (omega arith, omega arith)
      (omega arith, omega arith) (omega arith) (omega int_laws) (omega arith)

random_number_int_reversed_example :
    ((pos 10 ≡ pos 1) × (random_number_int 17 (pos 10) (pos 1) ≡ returns (pos 1 +ℤ pos 1)))
    ⊎ ((pos 10 ≡ pos 1 +ℤ pos 1) × (random_number_int 17 (pos 10) (pos 1) ≡ divides_by_zero))
    ⊎ ((x : ℤ) × (random_number_int 17 (pos 10) (pos 1) ≡ returns x) × (pos 1 <ℤ x) × (x <ℤ pos 10))
random_number_int_reversed_example =
    random_number_int_reversed 17 (pos 10) (pos 1) (omega arith, omega arith)
      (omega arith, omega arith) (omega arith) (omega int_laws) (omega arith)
