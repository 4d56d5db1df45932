-- ===== src/System/Keeps.antt =====
-- producer.c: every step of a worker keeps the invariant.
use so_pr2_synchronization.Base.{
  ℕ, ◌+◌, ◌-◌, ◌^◌, ◌≤◌, ◌<◌, ◌≡◌, refl, ap, ◌∙◌, Option, none, some, ℤ, pos, pos_part, update,
  le-sum_below, arith, Text, List, subst, ◌≤ℤ◌,
}
use so_pr2_synchronization.Json.{Parson, IsLawful}
use so_pr2_synchronization.Files.{File, Syscalls, ok, read_file, fill}
use so_pr2_synchronization.Files.Laws.{IsText, open_truncated_empties, fill-IsText}
use so_pr2_synchronization.Random.{random_number}
use so_pr2_synchronization.Random.Range.{random_number_bounds}
use so_pr2_synchronization.Algorithms.{Algorithm}
use so_pr2_synchronization.Worker.{
  Shared, Move, choose, list_read, list_truncate, list_write, enter, unlist_read, unlist_truncate,
  unlist_write, search_fails, search_finds, refuse_post, take_truncate, take_write, take_post, wake,
  return_read, return_truncate, return_write, return_post,
}
use so_pr2_synchronization.Worker.Points.{Process, Pc, returning, inside, filling}
use so_pr2_synchronization.System.Invariant.{
  space, held, IsSized, IsPlaced, IsPending, IsEntered, Prepared, Stored, Inv,
}
use so_pr2_synchronization.System.Effects.{nobody_fills, quiet-Inv, open-Inv, commit-Inv}
use so_pr2_synchronization.System.Entries.{
  taken-IsEntered, taken_others, returned-IsEntered, returned_others,
}
use so_pr2_synchronization.System.Abstract.{holding_of, HasChosen, Effect, quiet, takes, releases}
use so_pr2_synchronization.System.Prepared.{
  found-Chooses, Read, Read-Read, take_text-Prepared, give_back_text-Prepared,
}

IsSized-of_bounds :
    (size delay : ℤ)
    → pos 1 ≤ℤ size
    → size ≤ℤ pos 10
    → IsSized (record { process_size = size; process_delay = delay })
IsSized-of_bounds size delay above below = (ground arith, ground arith, ground arith)

-- The size that a worker draws is in range.
drawn-IsSized :
    (a : ℕ) (size delay : ℤ)
    → random_number a (pos 1) (pos 10) ≡ some size
    → IsSized (record { process_size = size; process_delay = delay })
drawn-IsSized a size delay e =
    let (x, found, above, below) = random_number_bounds a (pos 1) (pos 10) (omega arith) in
    let same : x ≡ size = ground arith in
    subst (λ z. IsSized (record { process_size = z; process_delay = delay })) same
      (IsSized-of_bounds x delay above below)

-- A write that returns had a text, and what it leaves is that text.
fill-Stored :
    (P : Parson) (count : ℕ) (calls : Syscalls) (t : Option Text) (bytes : List ℕ) (f : File)
    {free : ℕ → ℕ} {processes : ℕ → P.Object}
    → fill calls t (some bytes) ≡ (ok tt, f)
    → Prepared P count t free processes
    → Stored P count f free processes
unfolding fill
fill-Stored P count calls none bytes f e prepared = cc
fill-Stored P count calls (some t) bytes f e prepared =
    let r = prepared t refl in
    let returned : (fill calls (some t) (some bytes)).0 ≡ ok tt = ap (λ o. o.0) e in
    let left : (fill calls (some t) (some bytes)).1 ≡ f = ap (λ o. o.1) e in
    record {
      text = t;
      is_text = subst (IsText t) left (fill-IsText calls t bytes r.no_nul returned);
      represents = r;
    }

space_self : (p : Process) (k : ℕ) → space p k k ≡ pos_part p.process_size
space_self p k = ground arith

taken_adds :
    (p : Process) (k j : ℕ) (free : ℕ → ℕ)
    → pos_part p.process_size ≤ free k
    → update free k (free k - pos_part p.process_size) j + space p k j ≡ free j + 0
taken_adds p k j free h = ground arith

returned_adds :
    (p : Process) (k j : ℕ) (free : ℕ → ℕ)
    → update free k (free k + pos_part p.process_size) j + 0 ≡ free j + space p k j
returned_adds p k j free = ground arith

-- An invariant with some free space and some processes.
pub record Kept (P : Parson) (count n : ℕ) (capacity : ℕ → ℕ) (old : ℕ → P.Object) (s : Shared)
    (pc : ℕ → Pc) : Type 0 where
  pub free : ℕ → ℕ
  pub processes : ℕ → P.Object
  pub inv : Inv P count n capacity old s pc free processes

module _ (P : Parson) (L : IsLawful P) (algorithm : Algorithm) {count n : ℕ} {capacity : ℕ → ℕ}
    {s : Shared} {pc : ℕ → Pc} {free : ℕ → ℕ} {old processes : ℕ → P.Object}
    (inv : Inv P count n capacity old s pc free processes) (i : ℕ) (lt : i < n) where
  -- What a move of this worker leaves.
  pub record Moved (t : Shared) (p p' : Pc) : Type 0 where
    pub after : Kept P count n capacity old t (update pc i p')
    pub effect : Effect algorithm count free p after.free p'

  kept :
      {t : Shared} {p p' : Pc}
      → Inv P count n capacity old t (update pc i p') free processes
      → holding_of p' ≡ holding_of p
      → (HasChosen algorithm count free p → HasChosen algorithm count free p')
      → Moved t p p'
  kept j same chosen = record {
    after = record { free = free; processes = processes; inv = j };
    effect = quiet same chosen;
  }

  free_small : (k : ℕ) → k < count → free k < 2 ^ 31
  free_small k h = omega (arith, inv.adds_up k h, inv.small k h)

  room :
      {p : Process} {k : ℕ}
      → pc i ≡ returning p k
      → k < count
      → free k + pos_part p.process_size < 2 ^ 31
  room {p} {k} here h = omega (
    arith,
    inv.adds_up k h,
    inv.small k h,
    le-sum_below n (λ x. held k (pc x)) i lt,
    ap (held k) here,
    space_self p k,
  )

  -- A worker that is inside and does not write reads the document.
  reads :
      {p : Pc} (calls : Syscalls) {contents : Option Text}
      → pc i ≡ p
      → inside p ≡ 1
      → filling p ≡ 0
      → read_file P calls s.memory ≡ ok contents
      → Read P count contents free processes
  reads calls here one no_fill e =
      Read-Read P L calls
        (inv.stored (nobody_fills inv i lt (ap inside here ∙ one) (ap filling here ∙ no_fill))) e

  here-IsEntered : {p : Pc} → pc i ≡ p → IsEntered P i old processes p
  here-IsEntered here = subst (IsEntered P i old processes) here (inv.entered i lt)

  Move-Kept :
      {p p' : Pc} {t : Shared}
      → Move P algorithm i s p t p'
      → pc i ≡ p
      → IsPlaced count p
      → IsPending P count i free processes p
      → Moved t p p'
  Move-Kept (choose a b {process_size} {process_delay} ea eb) here placed pending =
      kept
        (quiet-Inv inv i lt _ _ here (λ h. h) refl (λ k. refl) refl refl
          (drawn-IsSized a process_size process_delay ea) tt)
        refl (λ h. h)
  Move-Kept (list_read calls contents e) here placed pending =
      kept (quiet-Inv inv i lt _ _ here (λ h. h) refl (λ k. refl) refl refl placed tt) refl (λ h. h)
  Move-Kept (list_truncate calls e) here placed pending =
      kept (quiet-Inv inv i lt _ _ here (λ h. h) refl (λ k. refl) refl refl placed tt) refl (λ h. h)
  Move-Kept (list_write calls e) here placed pending =
      kept (quiet-Inv inv i lt _ _ here (λ h. h) refl (λ k. refl) refl refl placed tt) refl (λ h. h)
  Move-Kept (enter e) here placed pending =
      kept (quiet-Inv inv i lt _ _ here (λ h. h) refl (λ k. refl) refl (omega arith) placed tt) refl
        (λ h. h)
  Move-Kept (unlist_read calls contents e) here placed pending =
      kept (quiet-Inv inv i lt _ _ here (λ h. h) refl (λ k. refl) refl refl placed tt) refl (λ h. h)
  Move-Kept (unlist_truncate calls e) here placed pending =
      kept (quiet-Inv inv i lt _ _ here (λ h. h) refl (λ k. refl) refl refl placed tt) refl (λ h. h)
  Move-Kept (unlist_write calls e) here placed pending =
      kept (quiet-Inv inv i lt _ _ here (λ h. h) refl (λ k. refl) refl refl placed tt) refl (λ h. h)
  Move-Kept (search_fails calls contents e none_found) here placed pending =
      kept (quiet-Inv inv i lt _ _ here (λ h. h) refl (λ k. refl) refl refl placed tt) refl (λ h. h)
  Move-Kept (search_finds calls {p} contents {mem_index} e found) here placed pending =
      let (within, enough, prepared) =
        take_text-Prepared P L contents i mem_index p placed algorithm free_small
          (reads calls here refl refl e) found in
      let chosen =
        found-Chooses P L contents i mem_index p placed algorithm (reads calls here refl refl e)
          found in
      kept
        (quiet-Inv inv i lt _ _ here (λ h. h) refl (λ k. refl) refl refl (placed, within)
          (enough, prepared))
        refl (λ h. chosen)
  Move-Kept refuse_post here placed pending =
      kept (quiet-Inv inv i lt _ _ here (λ h. h) refl (λ k. refl) refl (omega arith) tt tt) refl
        (λ h. h)
  Move-Kept (take_truncate calls {f = f} e) here placed pending =
      kept
        (open-Inv inv i lt _ _ here (λ h. h) refl (λ k. refl) refl refl placed pending
          (open_truncated_empties calls s.memory e))
        refl (λ h. h)
  Move-Kept (take_write calls {p} {k} {t} {f} e) here placed pending = record {
    after = record {
      free = update free k (free k - pos_part p.process_size);
      processes = _;
      inv =
          commit-Inv inv i lt _ _ _ _ here
            (taken-IsEntered P L i p k old processes (here-IsEntered here))
            (taken_others P L i p k old processes) refl (λ j h. taken_adds p k j free pending.0)
            refl refl refl placed tt
            (fill-Stored P count calls t inv.present.0 f (rw inv.present.1 at e) pending.1);
    };
    effect = takes pending.0;
  }
  Move-Kept take_post here placed pending =
      kept (quiet-Inv inv i lt _ _ here (λ h. h) refl (λ k. refl) refl (omega arith) placed tt) refl
        (λ h. h)
  Move-Kept (wake e) here placed pending =
      kept (quiet-Inv inv i lt _ _ here (λ h. h) refl (λ k. refl) refl (omega arith) placed tt) refl
        (λ h. h)
  Move-Kept (return_read calls {p} {k} contents e) here placed pending =
      kept
        (quiet-Inv inv i lt _ _ here (λ h. h) refl (λ j. refl) refl refl placed
          (give_back_text-Prepared P L contents i k p placed.0 placed.1 (room here placed.1)
            (reads calls here refl refl e)))
        refl (λ h. h)
  Move-Kept (return_truncate calls {f = f} e) here placed pending =
      kept
        (open-Inv inv i lt _ _ here (λ h. h) refl (λ k. refl) refl refl placed pending
          (open_truncated_empties calls s.memory e))
        refl (λ h. h)
  Move-Kept (return_write calls {p} {k} {t} {f} e) here placed pending = record {
    after = record {
      free = update free k (free k + pos_part p.process_size);
      processes = _;
      inv =
          commit-Inv inv i lt _ _ _ _ here
            (returned-IsEntered P L i p k old processes (here-IsEntered here).1)
            (returned_others P L i k old processes) refl (λ j h. returned_adds p k j free) refl refl
            refl placed tt
            (fill-Stored P count calls t inv.present.0 f (rw inv.present.1 at e) pending);
    };
    effect = releases;
  }
  Move-Kept return_post here placed pending =
      kept (quiet-Inv inv i lt _ _ here (λ h. h) refl (λ k. refl) refl (omega arith) tt tt) refl
        (λ h. h)

  pub Move-Inv : {p' : Pc} {t : Shared} → Move P algorithm i s (pc i) t p' → Moved t (pc i) p'
  Move-Inv mv = Move-Kept mv refl (inv.placed i lt) (inv.pending i lt)
