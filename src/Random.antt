-- ===== src/Random.antt =====
-- include/random.c: `random_number`, with the value of `rand()` as an argument.
pub mod Range
pub mod Machine
pub mod Ints
use so_pr2_synchronization.Base.{
  ℕ, zero, suc, ◌%◌, Option, none, some, ℤ, pos, negsuc, ◌+ℤ◌, ◌-ℤ◌, ltb_ℤ, if◌then◌else◌,
}

-- `a % b` on ints for a dividend that is not negative: the sign of the divisor does not
-- matter, and a divisor 0 is a fault, `none`.
unfoldable pub remainder : ℕ → ℤ → Option ℤ
remainder a (pos zero) = none
remainder a (pos (suc n)) = some (pos (a % suc n))
remainder a (negsuc n) = some (pos (a % suc n))

abbrev pub add_low : ℤ → Option ℤ → Option ℤ
add_low low none = none
add_low low (some r) = some (r +ℤ low)

-- `rand` is what `rand()` returned. The ints are unbounded, so that this is the function of the
-- source only where no operation overflows; Random/Machine and Random/Ints say where: `max_num + 1` and the difference of
-- the bounds are taken not to overflow; Random/Machine has the ints of 32 bits.
unfoldable pub random_number : ℕ → ℤ → ℤ → Option ℤ
random_number rand min_num max_num =
    if ltb_ℤ min_num max_num
    then add_low min_num (remainder rand (max_num +ℤ pos 1 -ℤ min_num))
    else add_low (max_num +ℤ pos 1) (remainder rand (min_num -ℤ (max_num +ℤ pos 1)))
