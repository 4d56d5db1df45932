-- ===== src/Random/Machine.antt =====
-- include/random.c with ints of 32 bits, whose overflow has no defined result.
use so_pr2_synchronization.Base.{
  ℕ, zero, suc, ◌-◌, ◌^◌, ◌≡◌, refl, ◌⊎◌, inl, inr, Bool, true, false, Bool-cases, ◌&&◌, Option,
  none, some, ℤ, pos, negsuc, ◌+ℤ◌, ◌-ℤ◌, ◌≤ℤ◌, ◌<ℤ◌, ltb_ℤ, leb_ℤ, int_laws, arith, ℤ-cases, ap,
  pos_part, neg_part, ◌%◌, if◌then◌else◌,
}
use so_pr2_synchronization.Random.{remainder, add_low, random_number}

abbrev pub int_max : ℤ
int_max = pos (2 ^ 31 - 1)

abbrev pub int_min : ℤ
int_min = negsuc (2 ^ 31 - 1)

abbrev pub fits : ℤ → Bool
fits x = leb_ℤ int_min x && leb_ℤ x int_max

-- A call has no defined behaviour, divides by zero, or returns.
pub data Outcome : Type 0 where
  overflows : Outcome
  divides_by_zero : Outcome
  returns : (result : ℤ) → Outcome

-- A sum or difference with what is done with it.
abbrev pub checked : ℤ → (ℤ → Outcome) → Outcome
checked x next = if fits x then next x else overflows

-- `(rand() % (hi_num - low_num)) + low_num`
unfoldable pub draw : ℕ → (low_num hi_num : ℤ) → Outcome
draw rand low_num hi_num = checked (hi_num -ℤ low_num) (λ range. elim (remainder rand range) [
  | none ↦ divides_by_zero
  | some r ↦ checked (r +ℤ low_num) returns
])

unfoldable pub random_number_int : ℕ → (min_num max_num : ℤ) → Outcome
unfolding draw
random_number_int rand min_num max_num = checked (max_num +ℤ pos 1) (λ after_max.
    if ltb_ℤ min_num max_num then draw rand min_num after_max else draw rand after_max min_num)

-- The divisor.
abbrev pub span : ℤ → ℤ → ℤ
span min_num max_num =
    if ltb_ℤ min_num max_num then max_num +ℤ pos 1 -ℤ min_num else min_num -ℤ (max_num +ℤ pos 1)

abbrev pub outcome_of : Option ℤ → Outcome
outcome_of none = divides_by_zero
outcome_of (some x) = returns x

-- Which side of a bound.
dec_lt_ℤ : (a b : ℤ) → (a <ℤ b) ⊎ (b ≤ℤ a)
dec_lt_ℤ a b = ground arith

abbrev pub IsInt : ℤ → Type 0
IsInt x = (int_min ≤ℤ x) × (x ≤ℤ int_max)

fits-IsInt : (x : ℤ) → IsInt x → fits x ≡ true
fits-IsInt x h = ground arith

fits_above : (x : ℤ) → int_max <ℤ x → fits x ≡ false
fits_above x h = ground arith

remainder_cases :
    (a : ℕ) (d : ℤ)
    → negsuc 0 ≤ℤ d
    → (remainder a d ≡ none) ⊎ ((r : ℕ) × (remainder a d ≡ some (pos r)) × ((r ≡ 0) ⊎ (pos r <ℤ d)))
unfolding remainder
remainder_cases a (pos zero) h = inl refl
remainder_cases a (pos (suc n)) h = inr (a % suc n, refl, inr (omega arith))
remainder_cases a (negsuc zero) h = inr (a % 1, refl, inl (omega arith))
remainder_cases a (negsuc (suc n)) h = absurd (omega arith)

draw_fits :
    (rand : ℕ) (low_num hi_num : ℤ)
    → IsInt low_num
    → IsInt hi_num
    → low_num ≤ℤ hi_num +ℤ pos 1
    → hi_num -ℤ low_num ≤ℤ int_max
    → draw rand low_num hi_num ≡ outcome_of (add_low low_num (remainder rand (hi_num -ℤ low_num)))
unfolding draw
draw_fits rand low hi l h order small =
    let range_fits : fits (hi -ℤ low) ≡ true = fits-IsInt (hi -ℤ low) (omega int_laws, small) in
    elim (remainder_cases rand (hi -ℤ low) (omega int_laws)) [
      | inl zero_range ↦ rw (draw, range_fits, zero_range)
      | inr (r, e, bound) ↦
          let sum_fits : fits (pos r +ℤ low) ≡ true = fits-IsInt (pos r +ℤ low) (elim bound [
            | inl none_left ↦ (omega int_laws, omega int_laws)
            | inr below ↦ (omega int_laws, omega int_laws)
          ]) in
          rw (draw, range_fits, e, sum_fits)
    ]

draw_overflows :
    (rand : ℕ) (low_num hi_num : ℤ)
    → int_max <ℤ hi_num -ℤ low_num
    → draw rand low_num hi_num ≡ overflows
unfolding draw
draw_overflows rand low hi big = rw (draw, fits_above (hi -ℤ low) big)

-- For ints `min_num` and `max_num`: the call has no defined behaviour exactly if `max_num` is the
-- largest int or the divisor is larger than it; otherwise no other operation overflows, and the call
-- does what it does on unbounded ints.
pub random_number_int_lem :
    (rand : ℕ) (min_num max_num : ℤ)
    → IsInt min_num
    → IsInt max_num
    → (((max_num ≡ int_max) ⊎ (int_max <ℤ span min_num max_num))
        × (random_number_int rand min_num max_num ≡ overflows))
      ⊎ ((max_num <ℤ int_max)
          × (span min_num max_num ≤ℤ int_max)
          × (random_number_int rand min_num max_num
              ≡ outcome_of (random_number rand min_num max_num)))
unfolding random_number_int random_number
random_number_int_lem rand lo hi l h = elim (ℤ-cases hi int_max) [
  | inr (inl same) ↦ inl (
    inl same,
    rw (
      random_number_int,
      fits_above (hi +ℤ pos 1) (omega (int_laws, ap pos_part same, ap neg_part same)),
    ),
  )
  | inr (inr above) ↦ absurd (omega arith)
  | inl below ↦
      let next_fits : fits (hi +ℤ pos 1) ≡ true =
        fits-IsInt (hi +ℤ pos 1) (omega int_laws, omega int_laws) in
      let next_IsInt : IsInt (hi +ℤ pos 1) = (omega int_laws, omega int_laws) in
      elim (Bool-cases (ltb_ℤ lo hi)) [
        | inl forward ↦
            let lt : lo <ℤ hi = ground arith in
            rw forward (elim (dec_lt_ℤ int_max (hi +ℤ pos 1 -ℤ lo)) [
              | inl big ↦ inl (inr big, rw next_fits (draw_overflows rand lo (hi +ℤ pos 1) big))
              | inr small ↦ inr (
                below,
                small,
                rw next_fits (draw_fits rand lo (hi +ℤ pos 1) l next_IsInt (omega int_laws) small),
              )
            ])
        | inr backward ↦
            let le : hi ≤ℤ lo = ground arith in
            rw backward (elim (dec_lt_ℤ int_max (lo -ℤ (hi +ℤ pos 1))) [
              | inl big ↦ inl (inr big, rw next_fits (draw_overflows rand (hi +ℤ pos 1) lo big))
              | inr small ↦ inr (
                below,
                small,
                rw next_fits (draw_fits rand (hi +ℤ pos 1) lo next_IsInt l (omega int_laws) small),
              )
            ])
      ]
]
