-- ===== src/Tests/Threads.antt =====
-- examples/thread_test.c: a run in which the threads print one after the other.
use so_pr2_synchronization.Base.{
  ℕ, zero, suc, ◌≤◌, ◌≡◌, ◌⊎◌, refl, inl, inr, dec_lt, Bool, true, false, arith,
}
use so_pr2_synchronization.Experiments.Threads.{
  Sample, at_start, Step, make, print_line, end_main, Reach, start, later,
}
use so_pr2_synchronization.Experiments.Threads.Lines.{lines_of, below, steps, stuck_printed}

abbrev Run : Type 0
Run = (s : Sample) × Reach true at_start s

either : (b : Bool) → (b ≡ true) ⊎ (b ≡ false)
either true = inl refl
either false = inr refl

predecessor : (n : ℕ) → (n ≡ 0) ⊎ ((i : ℕ) × (n ≡ suc i))
predecessor zero = inl refl
predecessor (suc i) = inr (i, refl)

-- The thread prints its next line, if it can.
print : ℕ → Run → Run
unfolding either dec_lt
print id (s, r) = elim (either s.alive) [
  | inr dead ↦ (s, r)
  | inl alive ↦ elim (dec_lt s.to_make id) [
    | no not_made ↦ (s, r)
    | yes made ↦ elim (dec_lt id 5) [
      | no no_thread ↦ (s, r)
      | yes thread ↦ elim (dec_lt (s.iteration id) 12) [
        | no over ↦ (s, r)
        | yes more ↦ (_, later r (print_line id alive made (omega (arith, thread)) more))
      ]
    ]
  ]
]

-- `main` makes the next thread, or ends.
main_moves : Run → Run
unfolding either predecessor
main_moves (s, r) = elim (either s.alive) [
  | inr dead ↦ (s, r)
  | inl alive ↦ elim (predecessor s.to_make) [
    | inr (i, e) ↦ (_, later r (make alive e))
    | inl e ↦ elim (either s.main_over) [
      | inl over ↦ (s, r)
      | inr more ↦ (_, later r (end_main alive e more))
    ]
  ]
]

times : ℕ → (Run → Run) → Run → Run
times zero f r = r
times (suc n) f r = times n f (f r)

abbrev done : Run
unfolding times print main_moves
done = times 12 (print 1) (
    times 12 (print 2)
      (times 12 (print 3) (times 12 (print 4) (times 5 main_moves (at_start, start)))))

all_twelve : (id : ℕ) → 1 ≤ id → id ≤ 4 → done.0.iteration id ≡ 12
unfolding times print main_moves either predecessor dec_lt
all_twelve zero p q = absurd (omega arith)
all_twelve (suc zero) p q = refl
all_twelve (suc (suc zero)) p q = refl
all_twelve (suc (suc (suc zero))) p q = refl
all_twelve (suc (suc (suc (suc zero)))) p q = refl
all_twelve (suc (suc (suc (suc (suc id))))) p q = absurd (omega arith)

done-Step : (u : Sample) → Step true done.0 u → ⊥
unfolding times print main_moves either predecessor dec_lt
done-Step u (make a e) = cc
done-Step u (print_line id a m b w) = omega (arith, all_twelve id (omega (arith, m)) b, w)
done-Step u (end_main a m e) = cc

stuck_printed_example :
    (steps true done.1 ≡ 53)
    × (done.0.main_over ≡ true)
    × ((id : ℕ) → 1 ≤ id → id ≤ 4 → lines_of id done.0.printed ≡ below 12)
stuck_printed_example = stuck_printed done.1 done-Step
