-- ===== src/Experiments/Threads/Lines.antt =====
-- examples/thread_test.c: what a run prints.
use so_pr2_synchronization.Base.{
  ℕ, zero, suc, ◌+◌, ◌≤◌, ◌≡◌, refl, ap, subst, ◌∙◌, inl, inr, dec_lt, Bool, true, false,
  Bool-cases, List, [], ◌∷◌, ◌++◌, update, update_same, update_other, total, total-update,
  sum_below, if◌then◌else◌, ◌==◌, ==_iff, arith,
}
use so_pr2_synchronization.Experiments.Threads.{
  Sample, thread_count, iterations, at_start, Step, make, print_line, end_main, Reach, start, later,
}

-- The lines of one thread, in order.
abbrev pub lines_of : ℕ → List (ℕ × ℕ) → List ℕ
lines_of id [] = []
lines_of id ((j, i) ∷ printed) =
    let rest = lines_of id printed in if j == id then i ∷ rest else rest

-- 0, 1, ..., n - 1
abbrev pub below : ℕ → List ℕ
below zero = []
below (suc n) = below n ++ (n ∷ [])

lines_of-print_same :
    (id i : ℕ) (printed : List (ℕ × ℕ))
    → lines_of id (printed ++ ((id, i) ∷ [])) ≡ lines_of id printed ++ (i ∷ [])
lines_of-print_same id i [] = rw ((==_iff id id).1 refl) refl
lines_of-print_same id i ((j, k) ∷ printed) = elim (Bool-cases (j == id)) [
  | inl same ↦ rw (same) (ap (λ l. k ∷ l) (lines_of-print_same id i printed))
  | inr other ↦ rw (other) (lines_of-print_same id i printed)
]

lines_of-print_other :
    (id other i : ℕ) (printed : List (ℕ × ℕ))
    → (other == id) ≡ false
    → lines_of id (printed ++ ((other, i) ∷ [])) ≡ lines_of id printed
lines_of-print_other id other i [] ne = rw ne refl
lines_of-print_other id other i ((j, k) ∷ printed) ne = elim (Bool-cases (j == id)) [
  | inl same ↦ rw (same) (ap (λ l. k ∷ l) (lines_of-print_other id other i printed ne))
  | inr differs ↦ rw (differs) (lines_of-print_other id other i printed ne)
]

lines_of-print :
    (iteration : ℕ → ℕ) (printed : List (ℕ × ℕ)) (id : ℕ)
    → ((j : ℕ) → lines_of j printed ≡ below (iteration j))
    → (j : ℕ)
    → lines_of j (printed ++ ((id, iteration id) ∷ []))
      ≡ below (update iteration id (suc (iteration id)) j)
lines_of-print iteration printed id h j = elim (Bool-cases (id == j)) [
  | inr differs ↦ rw (differs) (lines_of-print_other j id (iteration id) printed differs ∙ h j)
  | inl same ↦
      subst
        (λ x.
          lines_of x (printed ++ ((id, iteration id) ∷ []))
          ≡ below (update iteration id (suc (iteration id)) x))
        ((==_iff id j).0 same)
        (rw (update_same iteration id (suc (iteration id))) (
          lines_of-print_same id (iteration id) printed
          ∙ ap (λ l. l ++ (iteration id ∷ [])) (h id)))
]

over : Bool → ℕ
over true = 1
over false = 0

over-le : (b : Bool) → over b ≤ 1
unfolding over
over-le true = omega arith
over-le false = omega arith

module _ (use_pthread_exit : Bool) where
  -- The number of the steps of a run.
  abbrev pub steps : {s t : Sample} → Reach use_pthread_exit s t → ℕ
  steps start = 0
  steps (later before step) = steps before + 1

  record Kept (count : ℕ) (s : Sample) : Type 0 where
    printed_are : (id : ℕ) → lines_of id s.printed ≡ below (s.iteration id)
    at_most : (id : ℕ) → s.iteration id ≤ iterations
    nobody : s.iteration 0 ≡ 0
    made : s.to_make ≤ thread_count
    lives : use_pthread_exit ≡ true → s.alive ≡ true
    counted :
        count + s.to_make
        ≡ thread_count + total (λ i. i) (suc thread_count) s.iteration + over s.main_over

  at_start-Kept : Kept 0 at_start
  unfolding sum_below over
  at_start-Kept = record {
    printed_are = λ id. refl;
    at_most = λ id. omega arith;
    nobody = refl;
    made = omega arith;
    lives = λ e. refl;
    counted = refl;
  }

  Step-Kept :
      {count : ℕ} {s t : Sample} → Step use_pthread_exit s t → Kept count s → Kept (count + 1) t
  unfolding over
  Step-Kept (make a e) h = record {
    printed_are = h.printed_are;
    at_most = h.at_most;
    nobody = h.nobody;
    made = omega (arith, e, h.made);
    lives = h.lives;
    counted = omega (arith, e, h.counted);
  }
  Step-Kept {s = s} (print_line id a m b w) h = record {
    printed_are = lines_of-print s.iteration s.printed id h.printed_are;
    at_most = λ other. ground (arith, w, h.at_most other);
    nobody = update_other s.iteration id 0 _ (λ e. omega (arith, e, m)) ∙ h.nobody;
    made = h.made;
    lives = h.lives;
    counted = omega (
      arith,
      h.counted,
      total-update (λ i. i) (suc thread_count) s.iteration id (suc (s.iteration id)) (omega arith),
    );
  }
  Step-Kept {s = s} (end_main a m e) h = record {
    printed_are = h.printed_are;
    at_most = h.at_most;
    nobody = h.nobody;
    made = h.made;
    lives = λ x. x;
    counted = omega (arith, h.counted, ap over e);
  }

  Reach-Kept : {s : Sample} (r : Reach use_pthread_exit at_start s) → Kept (steps r) s
  Reach-Kept start = at_start-Kept
  Reach-Kept (later before step) = Step-Kept step (Reach-Kept before)

  -- Every run ends: it has at most 53 steps.
  run_bound : {s : Sample} (r : Reach use_pthread_exit at_start s) → steps r ≤ 53
  unfolding sum_below over
  run_bound {s} r =
      let h = Reach-Kept r in
      omega (
        arith,
        h.counted,
        h.at_most 1,
        h.at_most 2,
        h.at_most 3,
        h.at_most 4,
        h.nobody,
        over-le s.main_over,
      )

-- With the option of the build, a run that cannot be continued, whatever its order was, has 53 steps,
-- `main` has come behind its sleep, and each of the four threads has printed its twelve lines, each
-- once and in order.
pub stuck_printed :
    {s : Sample} (r : Reach true at_start s)
    → ((u : Sample) → Step true s u → ⊥)
    → (steps true r ≡ 53)
      × (s.main_over ≡ true)
      × ((id : ℕ) → 1 ≤ id → id ≤ 4 → lines_of id s.printed ≡ below 12)
unfolding sum_below over
stuck_printed {s} r stuck =
    let h = Reach-Kept true r in
    let made : s.to_make ≡ 0 = all_made s.to_make refl in
    let through : s.main_over ≡ true = elim (Bool-cases s.main_over) [
      | inl e ↦ e
      | inr e ↦ absurd (stuck _ (end_main (h.lives refl) made e))
    ] in
    let ended : (id : ℕ) → 1 ≤ id → id ≤ 4 → s.iteration id ≡ 12 =
      λ id p q. all_ended id p q made in
    (
      omega (
        arith,
        h.counted,
        made,
        ended 1 (omega arith) (omega arith),
        ended 2 (omega arith) (omega arith),
        ended 3 (omega arith) (omega arith),
        ended 4 (omega arith) (omega arith),
        h.nobody,
        ap over through,
      ),
      through,
      λ id p q. h.printed_are id ∙ ap below (ended id p q),
    )
  where
    all_made : (i : ℕ) → s.to_make ≡ i → s.to_make ≡ 0
    all_made zero e = e
    all_made (suc i) e = absurd (stuck _ (make ((Reach-Kept true r).lives refl) e))

    all_ended : (id : ℕ) → 1 ≤ id → id ≤ 4 → s.to_make ≡ 0 → s.iteration id ≡ 12
    all_ended id p q e = elim (dec_lt (s.iteration id) 12) [
      | yes before ↦
          absurd (
            stuck _ (print_line id ((Reach-Kept true r).lives refl) (omega (arith, e, p)) q before))
      | no after ↦ omega (arith, after, (Reach-Kept true r).at_most id)
    ]
