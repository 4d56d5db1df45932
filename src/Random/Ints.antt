-- ===== src/Random/Ints.antt =====
-- include/random.c: the values that `random_number` can return for ints of 32 bits.
use so_pr2_synchronization.Base.{
  ℕ, ◌≡◌, ◌⊎◌, inl, inr, ap, ◌∙◌, ℤ, pos, ◌+ℤ◌, ◌≤ℤ◌, ◌<ℤ◌, arith, pos_part, neg_part,
}
use so_pr2_synchronization.Random.{random_number}
use so_pr2_synchronization.Random.Range.{random_number_bounds, random_number_reversed}
use so_pr2_synchronization.Random.Machine.{
  int_max, IsInt, divides_by_zero, returns, outcome_of, span, random_number_int,
  random_number_int_lem,
}

-- Without an overflow the call does what it does on unbounded ints.
no_overflow :
    (rand : ℕ) (min_num max_num : ℤ)
    → IsInt min_num
    → IsInt max_num
    → max_num <ℤ int_max
    → span min_num max_num ≤ℤ int_max
    → random_number_int rand min_num max_num ≡ outcome_of (random_number rand min_num max_num)
no_overflow rand lo hi l h below small = elim (random_number_int_lem rand lo hi l h) [
  | inr (_, _, agree) ↦ agree
  | inl (inl same, _) ↦ absurd (omega (arith, ap pos_part same, ap neg_part same))
  | inl (inr large, _) ↦ absurd (omega (arith, large, small))
]

-- For ints with the smaller bound first, where the larger one is not the largest int and the divisor
-- is an int, the call returns, and the number lies between the bounds, both included.
pub random_number_int_bounds :
    (rand : ℕ) (min_num max_num : ℤ)
    → IsInt min_num
    → IsInt max_num
    → max_num <ℤ int_max
    → span min_num max_num ≤ℤ int_max
    → min_num <ℤ max_num
    → (x : ℤ) × (random_number_int rand min_num max_num ≡ returns x)
      × (min_num ≤ℤ x)
      × (x ≤ℤ max_num)
random_number_int_bounds rand lo hi l h below small lt =
    let (x, e, above, under) = random_number_bounds rand lo hi lt in
    (x, no_overflow rand lo hi l h below small ∙ ap outcome_of e, above, under)

-- For ints with the bounds equal or in the other order, where the second one is not the largest int
-- and the divisor is an int: equal bounds give the number above them, with the first bound one above
-- the second the function divides by zero, and any others give a number strictly between them.
pub random_number_int_reversed :
    (rand : ℕ) (min_num max_num : ℤ)
    → IsInt min_num
    → IsInt max_num
    → max_num <ℤ int_max
    → span min_num max_num ≤ℤ int_max
    → max_num ≤ℤ min_num
    → ((min_num ≡ max_num) × (random_number_int rand min_num max_num ≡ returns (max_num +ℤ pos 1)))
      ⊎ ((min_num ≡ max_num +ℤ pos 1) × (random_number_int rand min_num max_num ≡ divides_by_zero))
      ⊎ ((x : ℤ) × (random_number_int rand min_num max_num ≡ returns x)
          × (max_num <ℤ x)
          × (x <ℤ min_num))
random_number_int_reversed rand lo hi l h below small le =
    let agree = no_overflow rand lo hi l h below small in
    elim (random_number_reversed rand lo hi le) [
      | inl (same, e) ↦ inl (same, agree ∙ ap outcome_of e)
      | inr (inl (next, e)) ↦ inr (inl (next, agree ∙ ap outcome_of e))
      | inr (inr (x, e, above, under)) ↦ inr (inr (x, agree ∙ ap outcome_of e, above, under))
    ]
