-- ===== src/Random/Range.antt =====
-- include/random.c: the values that `random_number` can return.
use so_pr2_synchronization.Base.{
  ℕ, zero, suc, ◌%◌, ◌≡◌, refl, ◌⊎◌, inl, inr, none, some, ℤ, pos, negsuc, ◌+ℤ◌, ◌-ℤ◌, ◌≤ℤ◌, ◌<ℤ◌,
  int_laws, arith, pos_part, ℤ-cases, sym, ap, pos-pos_part, -ℤ_self, +ℤ-ℤ_cancel, neg_part-eq_zero,
}
use so_pr2_synchronization.Random.{remainder, random_number}
use native.Mathlib.Nat.{mod-eq_of_lt}

-- A positive divisor gives a remainder below it.
remainder-pos :
    (a : ℕ) (d : ℤ) → pos 0 <ℤ d → (r : ℕ) × (remainder a d ≡ some (pos r)) × (pos r <ℤ d)
unfolding remainder
remainder-pos a (pos zero) h = absurd (omega arith)
remainder-pos a (pos (suc n)) h = (a % suc n, refl, omega arith)
remainder-pos a (negsuc n) h = absurd (omega arith)

remainder-eq_of_lt : (a : ℕ) (d : ℤ) → pos a <ℤ d → remainder a d ≡ some (pos a)
unfolding remainder
remainder-eq_of_lt a (pos zero) h = absurd (omega arith)
remainder-eq_of_lt a (pos (suc n)) h = rw (mod-eq_of_lt {n = a} {m = suc n} (omega arith))
remainder-eq_of_lt a (negsuc n) h = absurd (omega arith)

remainder-zero : (a : ℕ) (d : ℤ) → d ≡ pos 0 → remainder a d ≡ none
unfolding remainder
remainder-zero a d e = rw e

remainder-neg_one : (a : ℕ) (d : ℤ) → d ≡ negsuc 0 → remainder a d ≡ some (pos 0)
unfolding remainder
remainder-neg_one a d e = rw e (ap (λ n. some (pos n)) (omega arith))

-- With the smaller bound first there is always a result, and it lies between the bounds, both
-- included.
pub random_number_bounds :
    (rand : ℕ) (min_num max_num : ℤ)
    → min_num <ℤ max_num
    → (x : ℤ) × (random_number rand min_num max_num ≡ some x) × (min_num ≤ℤ x) × (x ≤ℤ max_num)
unfolding random_number
random_number_bounds rand lo hi h =
    let (r, e, below) = remainder-pos rand (hi +ℤ pos 1 -ℤ lo) (omega int_laws) in
    (pos r +ℤ lo, ground (arith, e), omega int_laws, omega int_laws)

-- With the smaller bound first every number between the bounds, both included, is the result for
-- some value of `rand()`.
pub random_number_onto :
    (min_num max_num x : ℤ)
    → min_num <ℤ max_num
    → min_num ≤ℤ x
    → x ≤ℤ max_num
    → (rand : ℕ) × (random_number rand min_num max_num ≡ some x)
unfolding random_number
random_number_onto lo hi x h above below =
    let e : pos (pos_part (x -ℤ lo)) ≡ x -ℤ lo = pos-pos_part (x -ℤ lo) (omega int_laws) in
    let back : x -ℤ lo +ℤ lo ≡ x = +ℤ-ℤ_cancel x lo in
    let small : pos (pos_part (x -ℤ lo)) <ℤ hi +ℤ pos 1 -ℤ lo =
      omega (int_laws, neg_part-eq_zero (x -ℤ lo) (omega int_laws)) in
    (
      pos_part (x -ℤ lo),
      ground (arith, remainder-eq_of_lt (pos_part (x -ℤ lo)) (hi +ℤ pos 1 -ℤ lo) small),
    )

-- With the bounds in the other order, or equal, the upper bound is never included: equal bounds
-- give the number above them, bounds that differ by one divide by zero, and any others give a
-- number strictly between them.
pub random_number_reversed :
    (rand : ℕ) (min_num max_num : ℤ)
    → max_num ≤ℤ min_num
    → ((min_num ≡ max_num) × (random_number rand min_num max_num ≡ some (max_num +ℤ pos 1)))
      ⊎ ((min_num ≡ max_num +ℤ pos 1) × (random_number rand min_num max_num ≡ none))
      ⊎ ((x : ℤ) × (random_number rand min_num max_num ≡ some x) × (max_num <ℤ x) × (x <ℤ min_num))
unfolding random_number
random_number_reversed rand lo hi h = elim (ℤ-cases (hi +ℤ pos 1) lo) [
  | inl below ↦
      let (r, e, small) = remainder-pos rand (lo -ℤ (hi +ℤ pos 1)) (omega int_laws) in
      inr (inr (pos r +ℤ (hi +ℤ pos 1), ground (arith, e), omega int_laws, omega int_laws))
  | inr (inl same) ↦ inr (
      inl (
        sym same,
        ground (arith, remainder-zero rand (lo -ℤ (hi +ℤ pos 1)) (rw same (-ℤ_self lo))),
      ))
  | inr (inr above) ↦
      let same : lo ≡ hi = omega int_laws in
      let minus_one : lo -ℤ (hi +ℤ pos 1) ≡ negsuc 0 = omega int_laws in
      let plus : pos 0 +ℤ (hi +ℤ pos 1) ≡ hi +ℤ pos 1 = omega int_laws in
      inl (same, ground (arith, remainder-neg_one rand (lo -ℤ (hi +ℤ pos 1)) minus_one))
]
