-- ===== src/System/Effects.antt =====
-- producer.c: the three ways in which a step of a worker changes what the invariant speaks of.
use so_pr2_synchronization.Base.{
  [], ℕ, zero, suc, ◌+◌, ◌≤◌, ◌<◌, ◌≡◌, ◌≢◌, sym, ap, ◌∙◌, subst, inl, inr, some, update, total,
  total-update, pair-le-sum_below, le-sum_below, sum_below, ◌==◌, ==_iff, Bool-cases, arith, dec_lt,
}
use so_pr2_synchronization.Json.{Parson}
use so_pr2_synchronization.Worker.{Shared}
use so_pr2_synchronization.Worker.Points.{
  Pc, created, take_open, take_fill, return_open, return_fill, inside, filling,
}
use so_pr2_synchronization.System.Invariant.{held, IsPlaced, IsPending, IsEntered, Stored, Inv}

-- What holds of every thread holds of every thread after one has moved.
pub at_update {ℓ} :
    {n : ℕ} {pc : ℕ → Pc} (Q : ℕ → Pc → Type ℓ) (i : ℕ) (p : Pc)
    → Q i p
    → ((j : ℕ) → j < n → i ≢ j → Q j (pc j))
    → (j : ℕ) → j < n
    → Q j (update pc i p j)
at_update Q i p own others j lt = elim (Bool-cases (i == j)) [
  | inl same ↦ rw same (subst (λ x. Q x p) ((==_iff i j).0 same) own)
  | inr other ↦ rw other (others j lt (λ e. ground arith))
]

-- The sum of a weight that the move leaves alone stays.
total-update_same :
    (w : Pc → ℕ) (n : ℕ) (pc : ℕ → Pc) (i : ℕ) (p : Pc)
    → i < n
    → w p ≡ w (pc i)
    → total w n (update pc i p) ≡ total w n pc
total-update_same w n pc i p lt e = omega (arith, total-update w n pc i p lt)

filling-le-inside : (p : Pc) → filling p ≤ inside p
filling-le-inside created = omega arith
filling-le-inside p = omega arith

total-filling-le : (n : ℕ) (pc : ℕ → Pc) → total filling n pc ≤ total inside n pc
unfolding sum_below
total-filling-le zero pc = omega arith
total-filling-le (suc n) pc = omega (arith, total-filling-le n pc, filling-le-inside (pc n))

-- A sum of a smaller weight leaves the room of one thread.
total-gap :
    (n : ℕ) (pc : ℕ → Pc) (i : ℕ)
    → i < n
    → total filling n pc + inside (pc i) ≤ total inside n pc + filling (pc i)
unfolding sum_below
total-gap zero pc i lt = absurd (omega arith)
total-gap (suc n) pc i lt = elim (dec_lt i n) [
  | yes below ↦ omega (arith, total-gap n pc i below, filling-le-inside (pc n))
  | no last ↦
      let e : n ≡ i = omega arith in
      subst
        (λ x.
          filling (pc n) + total filling n pc + inside (pc x)
          ≤ inside (pc n) + total inside n pc + filling (pc x))
        e (omega (arith, total-filling-le n pc))
]

update_self : (pc : ℕ → Pc) (i : ℕ) (p : Pc) → filling (update pc i p i) ≡ filling p
update_self pc i p = ground arith

-- A worker outside has nothing prepared.
outside-IsPending :
    (P : Parson) (count : ℕ) (id : ℕ) (p : Pc) (free : ℕ → ℕ) (processes : ℕ → P.Object)
    → inside p ≡ 0
    → IsPending P count id free processes p
outside-IsPending P count id created free processes h = tt
outside-IsPending P count id (take_open p k t) free processes h = absurd (omega arith)
outside-IsPending P count id (take_fill p k t) free processes h = absurd (omega arith)
outside-IsPending P count id (return_open p k t) free processes h = absurd (omega arith)
outside-IsPending P count id (return_fill p k t) free processes h = absurd (omega arith)
outside-IsPending P count id p free processes h = tt

module _ {P : Parson} {count n : ℕ} {capacity : ℕ → ℕ} {s : Shared} {pc : ℕ → Pc} {free : ℕ → ℕ}
    {old processes : ℕ → P.Object} (inv : Inv P count n capacity old s pc free processes) (i : ℕ)
    (lt : i < n) where
  -- Where a worker is inside, the others are not.
  pub others_outside : inside (pc i) ≡ 1 → (j : ℕ) → j < n → i ≢ j → inside (pc j) ≡ 0
  others_outside one j p ne = elim (dec_lt i j) [
    | yes before ↦
        omega (arith, pair-le-sum_below n (λ x. inside (pc x)) i j before p, inv.one_inside)
    | no after ↦
        omega (arith, pair-le-sum_below n (λ x. inside (pc x)) j i (omega arith) lt, inv.one_inside)
  ]

  pub nobody_fills : inside (pc i) ≡ 1 → filling (pc i) ≡ 0 → total filling n pc ≡ 0
  nobody_fills one quiet = omega (arith, total-gap n pc i lt, inv.one_inside)

  still-IsEntered :
      {from : Pc} (p : Pc)
      → pc i ≡ from
      → (IsEntered P i old processes from → IsEntered P i old processes p)
      → (j : ℕ) → j < n
      → IsEntered P j old processes (update pc i p j)
  still-IsEntered p here stays_in =
      at_update (λ j q. IsEntered P j old processes q) i p
        (stays_in (subst (IsEntered P i old processes) here (inv.entered i lt)))
        (λ j h ne. inv.entered j h)

  -- A step that leaves the memory and the space of the workers alone.
  pub quiet-Inv :
      (t : Shared) {from : Pc} (p : Pc)
      → pc i ≡ from
      → (IsEntered P i old processes from → IsEntered P i old processes p)
      → t.memory ≡ s.memory
      → ((k : ℕ) → held k p ≡ held k from)
      → filling p ≡ filling from
      → inside p + t.sem ≡ inside from + s.sem
      → IsPlaced count p
      → IsPending P count i free processes p
      → Inv P count n capacity old t (update pc i p) free processes
  quiet-Inv t p here stays_in memory space fills sem placed pending = record {
    small = inv.small;
    one_inside = omega (arith, inv.one_inside, total-update inside n pc i p lt, ap inside here);
    adds_up = λ k h.
        rw (total-update_same (held k) n pc i p lt (space k ∙ ap (held k) (sym here)))
          (inv.adds_up k h);
    placed = at_update (λ j q. IsPlaced count q) i p placed (λ j h ne. inv.placed j h);
    pending =
        at_update (λ j q. IsPending P count j free processes q) i p pending
          (λ j h ne. inv.pending j h);
    entered = still-IsEntered p here stays_in;
    present = (inv.present.0, memory ∙ inv.present.1);
    stored = λ none_fills.
        subst (λ f. Stored P count f free processes) (sym memory)
          (inv.stored (
            omega (
              arith,
              none_fills,
              total-update_same filling n pc i p lt (fills ∙ ap filling (sym here)),
            )));
    emptied = λ writing.
        memory
        ∙ inv.emptied (
            omega (
              arith,
              writing,
              total-update_same filling n pc i p lt (fills ∙ ap filling (sym here)),
            ));
  }

  -- The first half of a write of the memory: from here on the file is not read.
  pub open-Inv :
      (t : Shared) {from : Pc} (p : Pc)
      → pc i ≡ from
      → (IsEntered P i old processes from → IsEntered P i old processes p)
      → t.sem ≡ s.sem
      → ((k : ℕ) → held k p ≡ held k from)
      → filling p ≡ 1
      → inside p ≡ inside from
      → IsPlaced count p
      → IsPending P count i free processes p
      → t.memory ≡ some []
      → Inv P count n capacity old t (update pc i p) free processes
  open-Inv t p here stays_in sem space fills stays placed pending empty = record {
    small = inv.small;
    one_inside = omega (arith, inv.one_inside, total-update inside n pc i p lt, ap inside here);
    adds_up = λ k h.
        rw (total-update_same (held k) n pc i p lt (space k ∙ ap (held k) (sym here)))
          (inv.adds_up k h);
    placed = at_update (λ j q. IsPlaced count q) i p placed (λ j h ne. inv.placed j h);
    pending =
        at_update (λ j q. IsPending P count j free processes q) i p pending
          (λ j h ne. inv.pending j h);
    entered = still-IsEntered p here stays_in;
    present = ([], empty);
    emptied = λ writing. empty;
    stored = λ none_fills. absurd (
        omega (
          arith,
          none_fills,
          le-sum_below n (λ x. filling (update pc i p x)) i lt,
          update_self pc i p,
        ));
  }

  -- The second half of a write of the memory: the file holds the new document.
  pub commit-Inv :
      (t : Shared) {from : Pc} (p : Pc) (free' : ℕ → ℕ) (processes' : ℕ → P.Object)
      → pc i ≡ from
      → IsEntered P i old processes' p
      → ((j : ℕ) (q : Pc) → i ≢ j → IsEntered P j old processes q → IsEntered P j old processes' q)
      → t.sem ≡ s.sem
      → ((k : ℕ) → k < count → free' k + held k p ≡ free k + held k from)
      → inside p ≡ 1
      → filling p ≡ 0
      → inside from ≡ 1
      → IsPlaced count p
      → IsPending P count i free' processes' p
      → Stored P count t.memory free' processes'
      → Inv P count n capacity old t (update pc i p) free' processes'
  commit-Inv t p free' processes' here now others sem space stays quiet one placed pending stored =
      record {
        small = inv.small;
        one_inside = omega (arith, inv.one_inside, total-update inside n pc i p lt, ap inside here);
        adds_up = λ k h. omega (
          arith,
          inv.adds_up k h,
          space k h,
          total-update (held k) n pc i p lt,
          ap (held k) here,
        );
        placed = at_update (λ j q. IsPlaced count q) i p placed (λ j h ne. inv.placed j h);
        pending =
            at_update (λ j q. IsPending P count j free' processes' q) i p pending
              (λ j h ne.
                outside-IsPending P count j (pc j) free' processes'
                  (others_outside (ap inside here ∙ one) j h ne));
        entered =
            at_update (λ j q. IsEntered P j old processes' q) i p now
              (λ j h ne. others j (pc j) ne (inv.entered j h));
        present = (stored.is_text.bytes, stored.is_text.is_there);
        stored = λ none_fills. stored;
        emptied = λ writing. absurd (
            omega (
              arith,
              writing,
              total-gap n pc i lt,
              total-update filling n pc i p lt,
              inv.one_inside,
              ap inside here,
              one,
              quiet,
            ));
      }
