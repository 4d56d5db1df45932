-- ===== src/Base/Family.antt =====
-- Families indexed by numbers: a change at one index, and the sum of a weight below a bound.
use Prim.Native.Nat.{ℕ, zero, suc, ◌+◌, ◌≤◌, ◌<◌}
use mathlib.Core.Path.{◌≡◌, refl}
use mathlib.Core.Logic.{◌≢◌}
use native.Mathlib.Decide.{dec_lt}
use native.Mathlib.Omega.{arith}
use so_pr2_synchronization.Base.Tests.{◌==◌, ==_iff, if◌then◌else◌}

-- The family with another member at one index.
abbrev pub update {ℓ} : {A : Type ℓ} → (ℕ → A) → ℕ → A → ℕ → A
update f i a j = if i == j then a else f j

pub update_same {ℓ} : {A : Type ℓ} (f : ℕ → A) (i : ℕ) (a : A) → update f i a i ≡ a
update_same f i a = rw ((==_iff i i).1 refl)

pub update_other {ℓ} : {A : Type ℓ} (f : ℕ → A) (i j : ℕ) (a : A) → i ≢ j → update f i a j ≡ f j
update_other f i j a ne = ground arith

-- f 0 + ... + f (n - 1)
unfoldable pub sum_below : (ℕ → ℕ) → ℕ → ℕ
sum_below f zero = 0
sum_below f (suc n) = f n + sum_below f n

-- What the first `n` members of a family weigh together.
abbrev pub total {ℓ} : {A : Type ℓ} → (A → ℕ) → ℕ → (ℕ → A) → ℕ
total w n family = sum_below (λ i. w (family i)) n

sum_below-congr :
    (n : ℕ) {f g : ℕ → ℕ} → ((j : ℕ) → j < n → f j ≡ g j) → sum_below f n ≡ sum_below g n
unfolding sum_below
sum_below-congr zero same = refl
sum_below-congr (suc n) same =
    omega (arith, same n (omega arith), sum_below-congr n (λ j h. same j (omega arith)))

-- Sums that differ in one summand differ as much as the summand.
sum_below-exchange :
    (n i : ℕ) {f g : ℕ → ℕ}
    → ((j : ℕ) → i ≢ j → f j ≡ g j)
    → i < n
    → sum_below f n + g i ≡ sum_below g n + f i
unfolding sum_below
sum_below-exchange zero i same h = absurd (omega arith)
sum_below-exchange (suc n) i {f} {g} same h = elim (dec_lt i n) [
  | yes inner ↦
      omega (arith, sum_below-exchange n i same inner, same n (λ e. omega (arith, e, inner)))
  | no outer ↦
      let below : sum_below f n ≡ sum_below g n =
        sum_below-congr n (λ j p. same j (λ e. omega (arith, e, p, outer))) in
      let here : i ≡ n = omega arith in ground (arith, below, here)
]

pub total-update {ℓ} :
    {A : Type ℓ} (w : A → ℕ) (n : ℕ) (family : ℕ → A) (i : ℕ) (a : A)
    → i < n
    → total w n (update family i a) + w (family i) ≡ total w n family + w a
total-update w n family i a h =
    let exchanged =
      sum_below-exchange n i {f = λ j. w (update family i a j)} {g = λ j. w (family j)}
        (λ j ne. ground arith) h in
    ground (arith, exchanged)

-- A sum is at least each of its summands, and at least two of them together.
pub le-sum_below : (n : ℕ) (f : ℕ → ℕ) (i : ℕ) → i < n → f i ≤ sum_below f n
unfolding sum_below
le-sum_below zero f i h = absurd (omega arith)
le-sum_below (suc n) f i h = elim (dec_lt i n) [
  | no outer ↦ ground arith
  | yes inner ↦ omega (arith, le-sum_below n f i inner)
]

pub pair-le-sum_below : (n : ℕ) (f : ℕ → ℕ) (i j : ℕ) → i < j → j < n → f i + f j ≤ sum_below f n
unfolding sum_below
pair-le-sum_below zero f i j before h = absurd (omega arith)
pair-le-sum_below (suc n) f i j before h = elim (dec_lt j n) [
  | no outer ↦ ground (arith, le-sum_below n f i (omega arith))
  | yes inner ↦ omega (arith, pair-le-sum_below n f i j before inner)
]

-- A sum is 0 when its summands are, and otherwise it has one that is not.
pub sum_below-eq_zero : (n : ℕ) {f : ℕ → ℕ} → ((j : ℕ) → j < n → f j ≡ 0) → sum_below f n ≡ 0
unfolding sum_below
sum_below-eq_zero zero nothing = refl
sum_below-eq_zero (suc n) nothing =
    omega (arith, nothing n (omega arith), sum_below-eq_zero n (λ j h. nothing j (omega arith)))

pub sum_below-pos : (n : ℕ) (f : ℕ → ℕ) → 1 ≤ sum_below f n → (j : ℕ) × (j < n) × (1 ≤ f j)
unfolding sum_below
sum_below-pos zero f h = absurd (omega arith)
sum_below-pos (suc n) f h = elim (dec_lt 0 (f n)) [
  | yes here ↦ (n, omega arith, here)
  | no empty ↦
      let (j, inner, some_weight) = sum_below-pos n f (omega arith) in (j, omega arith, some_weight)
]
