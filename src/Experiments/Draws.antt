-- ===== src/Experiments/Draws.antt =====
-- examples/random.c: thirty rounds of two numbers, with the copy of `random_number` there.
use so_pr2_synchronization.Base.{
  ℕ, zero, suc, ◌+◌, ◌*◌, ◌<◌, ◌≤◌, ◌≡◌, refl, ap, Option, none, some, List, [], ◌∷◌, length, ℤ,
  pos, ◌≤ℤ◌, true, false, arith, ◌==◌, if◌then◌else◌,
}
use so_pr2_synchronization.Random.{random_number}
use so_pr2_synchronization.Random.Range.{random_number_bounds}

-- The function is repeated there word for word.
abbrev pub random_number_copy : ℕ → ℤ → ℤ → Option ℤ
random_number_copy rand min_num max_num = random_number rand min_num max_num

abbrev pub Round : Type 0
Round = ℤ × ℤ

-- The body: the numbers of a round, or `none` at a division by zero. `rand` is what `rand()` returns
-- at its first, second, ... call.
unfoldable pub draw_round : (ℕ → ℕ) → ℕ → Option Round
draw_round rand i = elim (random_number_copy (rand (2 * i)) (pos 1) (pos 30)) [
  | none ↦ none
  | some a ↦ elim (random_number_copy (rand (2 * i + 1)) (pos 100) (pos 1000)) [
    | none ↦ none
    | some b ↦ some (a, b)
  ]
]

abbrev pub before_rest : Option Round → Option (List Round) → Option (List Round)
before_rest (some r) (some rest) = some (r ∷ rest)
before_rest (some r) none = none
before_rest none rest = none

-- do ... while (i != 30), with `fuel` for the rounds; `none` also if it runs out.
unfoldable pub draw_rounds : (fuel : ℕ) → (ℕ → ℕ) → ℕ → Option (List Round)
draw_rounds zero rand i = none
draw_rounds (suc fuel) rand i =
    let rest = draw_rounds fuel rand (suc i) in
    before_rest (draw_round rand i) (if suc i == 30 then some [] else rest)

unfoldable pub draw_numbers : (fuel : ℕ) → (ℕ → ℕ) → Option (List Round)
draw_numbers fuel rand = draw_rounds fuel rand 0

abbrev pub InBounds : List Round → Type 0
InBounds [] = Unit
InBounds ((a, b) ∷ rounds) =
    (pos 1 ≤ℤ a) × (a ≤ℤ pos 30) × (pos 100 ≤ℤ b) × (b ≤ℤ pos 1000) × InBounds rounds

draw_round-InBounds :
    (rand : ℕ → ℕ) (i : ℕ)
    → (a b : ℤ) × (draw_round rand i ≡ some (a, b))
      × (pos 1 ≤ℤ a)
      × (a ≤ℤ pos 30)
      × (pos 100 ≤ℤ b)
      × (b ≤ℤ pos 1000)
unfolding draw_round
draw_round-InBounds rand i =
    let (a, ea, la, ha) = random_number_bounds (rand (2 * i)) (pos 1) (pos 30) (omega arith) in
    let (b, eb, lb, hb) =
      random_number_bounds (rand (2 * i + 1)) (pos 100) (pos 1000) (omega arith) in
    (a, b, rw (draw_round, ea, eb), la, ha, lb, hb)

is_last : (i : ℕ) → suc i ≡ 30 → (suc i == 30) ≡ true
is_last i e = ground arith

not_last : (i : ℕ) → suc i < 30 → (suc i == 30) ≡ false
not_last i lt = ground arith

-- With `left` rounds to go behind this one.
draw_rounds-InBounds :
    (fuel left : ℕ) (rand : ℕ → ℕ) (i : ℕ)
    → left < fuel
    → suc (i + left) ≡ 30
    → (rounds : List Round) × (draw_rounds fuel rand i ≡ some rounds)
      × (length rounds ≡ suc left)
      × InBounds rounds
unfolding draw_rounds
draw_rounds-InBounds zero left rand i lt h = absurd (omega arith)
draw_rounds-InBounds (suc fuel) zero rand i lt h =
    let (a, b, e, la, ha, lb, hb) = draw_round-InBounds rand i in
    ((a, b) ∷ [], rw (e, is_last i (omega arith)), refl, (la, ha, lb, hb, tt))
draw_rounds-InBounds (suc fuel) (suc left) rand i lt h =
    let (a, b, e, la, ha, lb, hb) = draw_round-InBounds rand i in
    let (rounds, drawn, size, rest) =
      draw_rounds-InBounds fuel left rand (suc i) (omega arith) (omega arith) in
    ((a, b) ∷ rounds, rw (e, not_last i (omega arith), drawn), ap suc size, (la, ha, lb, hb, rest))

-- With fuel for 30 rounds or more, and whatever `rand()` returns, the loop ends after exactly 30
-- rounds: no call divides by zero, and each round has a number from 1 to 30 and one from 100 to 1000.
pub draw_numbers_lem :
    (fuel : ℕ) (rand : ℕ → ℕ)
    → 30 ≤ fuel
    → (rounds : List Round) × (draw_numbers fuel rand ≡ some rounds)
      × (length rounds ≡ 30)
      × InBounds rounds
unfolding draw_numbers
draw_numbers_lem fuel rand enough = draw_rounds-InBounds fuel 29 rand 0 (omega arith) (omega arith)
