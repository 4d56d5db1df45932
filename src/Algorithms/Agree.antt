-- ===== src/Algorithms/Agree.antt =====
-- include/algorithms.c: the search looks at no partition beyond the last.
use so_pr2_synchronization.Base.{
  ℕ, zero, suc, ◌+◌, ◌<◌, ◌≡◌, refl, ℤ, ltb_ℤ, Bool, true, false, Option, none, some, if◌then◌else◌,
  arith,
}
use so_pr2_synchronization.Algorithms.{
  Algorithm, best_fit, first_fit, worst_fit, other, visit, search_loop,
}

module _ (f g : ℕ → ℤ) (n : ℕ) (agree : (j : ℕ) → j < n → f j ≡ g j) where
  abbrev Below : Option ℕ → Type 0
  Below none = Unit
  Below (some k) = k < n

  Below-if : (test : Bool) (x y : Option ℕ) → Below x → Below y → Below (if test then x else y)
  Below-if true x y hx hy = hx
  Below-if false x y hx hy = hy

  visit-agree :
      (algorithm : Algorithm) (i : ℕ) (index : Option ℕ)
      → i < n
      → Below index
      → (visit f algorithm i index ≡ visit g algorithm i index)
        × Below (visit f algorithm i index).0
  unfolding visit
  visit-agree best_fit i none h b = (refl, h)
  visit-agree best_fit i (some k) h b =
      rw (agree i h, agree k b) (refl, Below-if (ltb_ℤ (g i) (g k)) (some i) (some k) h b)
  visit-agree worst_fit i none h b = (refl, h)
  visit-agree worst_fit i (some k) h b =
      rw (agree i h, agree k b) (refl, Below-if (ltb_ℤ (g k) (g i)) (some i) (some k) h b)
  visit-agree first_fit i index h b = (refl, h)
  visit-agree (other m) i index h b = (refl, b)

  pub search_loop-agree :
      (size : ℤ) (algorithm : Algorithm) (rounds i : ℕ) (index : Option ℕ)
      → i + rounds ≡ n
      → Below index
      → search_loop f size algorithm rounds i index ≡ search_loop g size algorithm rounds i index
  unfolding search_loop
  search_loop-agree size algorithm zero i index e b = refl
  search_loop-agree size algorithm (suc rounds) i index e b =
      let h : i < n = omega arith in
      let (same, below) = visit-agree algorithm i index h b in
      rw
        (
          ← same,
          ← agree i h,
          search_loop-agree size algorithm rounds (suc i) index (omega arith) b,
          search_loop-agree size algorithm rounds (suc i) (visit f algorithm i index).0
              (omega arith) below,
        )
        refl
