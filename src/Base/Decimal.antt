-- ===== src/Base/Decimal.antt =====
-- `sprintf(str, "%lu", n)`: the decimal digits of a number.
use Prim.Native.Nat.{ℕ, zero, suc, ◌+◌, ◌-◌, ◌*◌, ◌/◌, ◌%◌, ◌^◌, ◌≤◌, ◌<◌}
use mathlib.Core.Path.{◌≡◌, refl, sym, ap, ◌∙◌}
use mathlib.Core.Logic.{inl, inr}
use mathlib.Core.List.{[], ◌∷◌, ◌++◌}
use native.Mathlib.Nat.{pow-suc}
use native.Mathlib.Omega.{arith}
use so_pr2_synchronization.Base.Tests.{ltb, if◌then◌else◌, Bool-cases}
use so_pr2_synchronization.Base.Lists.{length, length-append}
use so_pr2_synchronization.Base.Strings.{Text, Lacks, Lacks-append}

-- The fuel is the number plus one, and a digit less is left in each round.
digits : ℕ → ℕ → Text
digits zero n = []
digits (suc fuel) n =
    let front = digits fuel (n / 10) in
    if ltb n 10 then (48 + n) ∷ [] else front ++ ((48 + n % 10) ∷ [])

unfoldable pub print_decimal : ℕ → Text
unfolding digits
print_decimal n = digits (suc n) n

value_from : ℕ → Text → ℕ
value_from acc [] = acc
value_from acc (c ∷ s) = value_from (acc * 10 + (c - 48)) s

value_from-append :
    (acc : ℕ) (s : Text) (c : ℕ) → value_from acc (s ++ (c ∷ [])) ≡ value_from acc s * 10 + (c - 48)
unfolding value_from
value_from-append acc [] c = refl
value_from-append acc (d ∷ s) c = value_from-append (acc * 10 + (d - 48)) s c

value_from-digits : (fuel n : ℕ) → n < fuel → value_from 0 (digits fuel n) ≡ n
unfolding digits value_from
value_from-digits zero n h = absurd (omega arith)
value_from-digits (suc fuel) n h = elim (Bool-cases (ltb n 10)) [
  | inl small ↦ rw small (omega arith)
  | inr large ↦
      rw (large, value_from-append)
        (rw (value_from-digits fuel (n / 10) (ground arith)) (omega arith))
]

-- Different numbers print differently.
pub print_decimal-injective : (m n : ℕ) → print_decimal m ≡ print_decimal n → m ≡ n
unfolding print_decimal
print_decimal-injective m n e =
    sym (value_from-digits (suc m) m (omega arith))
    ∙ ap (value_from 0) e
    ∙ value_from-digits (suc n) n (omega arith)

digits-Lacks : (b fuel n : ℕ) → b < 48 → Lacks b (digits fuel n)
unfolding digits
digits-Lacks b zero n h = tt
digits-Lacks b (suc fuel) n h = elim (Bool-cases (ltb n 10)) [
  | inl small ↦ rw small (omega arith)
  | inr large ↦ rw large (Lacks-append b _ _ (digits-Lacks b fuel (n / 10) h) (omega arith))
]

-- The digits are bytes from 48 on: no NUL and no dot is among them.
pub print_decimal-Lacks : (b n : ℕ) → b < 48 → Lacks b (print_decimal n)
unfolding print_decimal
print_decimal-Lacks b n h = digits-Lacks b (suc n) n h

length-digits : (fuel k n : ℕ) → n < 10 ^ suc k → length (digits fuel n) ≤ suc k
unfolding digits
length-digits zero k n h = omega arith
length-digits (suc fuel) zero n h = ground arith
length-digits (suc fuel) (suc k) n h =
    let whole : n < 10 ^ suc k * 10 = rw (pow-suc 10 (suc k)) at h in
    let rest = length-digits fuel k (n / 10) (omega arith) in
    ground (arith, rest, length-append (digits fuel (n / 10)) ((48 + n % 10) ∷ []))

-- A number below a power of ten has at most that many digits.
pub length-print_decimal : (k n : ℕ) → n < 10 ^ suc k → length (print_decimal n) ≤ suc k
unfolding print_decimal
length-print_decimal k n h = length-digits (suc n) k n h
