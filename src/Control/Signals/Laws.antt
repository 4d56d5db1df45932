-- ===== src/Control/Signals/Laws.antt =====
-- producer.c and examples/test_killer.c: how signals end the process.
use so_pr2_synchronization.Base.{
  ℕ, ◌≡◌, ◌≢◌, ◌⊎◌, inl, inr, refl, sym, ap, subst, false, some, update, ◌==◌, Bool-cases, arith,
}
use so_pr2_synchronization.Ipc.{Ipc, shmdt, shmctl_rmid}
use so_pr2_synchronization.Ipc.Laws.{forget-eq-some}
use so_pr2_synchronization.Control.Signals.{
  Action, default_action, Place, quit_removing, quit_exiting, Fate, going, exited, terminated,
  Handling, Step, int_comes, int_terminates, int_ignores, int_prints, int_restores, int_returns,
  quit_comes, quit_terminates, quit_ignores, quit_prints, quit_detaches, quit_removes, quit_exits,
  Reach, start, later, installed,
}

-- No key leads to the segment.
abbrev pub IsForgotten : ℕ → Ipc → Type 0
IsForgotten id ipc = (key : ℕ) → ipc.by_key key ≢ some id

forgotten_now : (id : ℕ) (ipc : Ipc) → IsForgotten id (shmctl_rmid id ipc)
unfolding shmctl_rmid
forgotten_now id ipc key e = (forget-eq-some id id (ipc.by_key key) e).1 refl

still_forgotten : (id : ℕ) (ipc : Ipc) → IsForgotten id ipc → IsForgotten id (shmdt id ipc)
unfolding shmdt
still_forgotten id ipc h key e = h key e

-- How a process may end.
abbrev IsEnd : (id quit_status : ℕ) → Fate → Ipc → Type 0
IsEnd id quit_status going ipc = Unit
IsEnd id quit_status (exited status) ipc = (status ≡ quit_status) × IsForgotten id ipc
IsEnd id quit_status terminated ipc = ⊥

record Safe (id quit_status : ℕ) (s : Handling) : Type 0 where
  int_kept : s.int_action ≢ default_action
  quit_kept : s.quit_action ≢ default_action
  removed : (i : ℕ) → s.calls i ≡ quit_exiting → IsForgotten id s.ipc
  ended : IsEnd id quit_status s.fate s.ipc

-- After a call of a handler has gone on to another place.
moved :
    {X : Type 0} (calls : ℕ → Place) (i : ℕ) (p : Place)
    → (p ≡ quit_exiting → X)
    → ((j : ℕ) → calls j ≡ quit_exiting → X)
    → (j : ℕ) → update calls i p j ≡ quit_exiting
    → X
moved calls i p here there j e = elim (Bool-cases (i == j)) [
  | inl same ↦ here (ground (arith, e, same))
  | inr other ↦ there j (ground (arith, e, other))
]

module _ (id quit_status : ℕ) where
  placed-Safe :
      {s : Handling} (i : ℕ) (p : Place) (int_action quit_action : Action)
      → Safe id quit_status s
      → p ≢ quit_exiting
      → int_action ≢ default_action
      → quit_action ≢ default_action
      → Safe id quit_status (record s {
        int_action = int_action;
        quit_action = quit_action;
        calls = update s.calls i p;
      })
  placed-Safe {s} i p a b h other int_kept quit_kept = record {
    int_kept = int_kept;
    quit_kept = quit_kept;
    removed = moved s.calls i p (λ e. absurd (other e)) h.removed;
    ended = h.ended;
  }

  Step-Safe :
      {s t : Handling}
      → Step false id quit_status s t
      → Safe id quit_status s
      → Safe id quit_status t
  Step-Safe (int_comes i g a c) h = placed-Safe i _ _ _ h (λ e. cc) (λ e. cc) h.quit_kept
  Step-Safe (int_terminates g a) h = absurd (h.int_kept a)
  Step-Safe (int_ignores i g c) h = placed-Safe i _ _ _ h (λ e. cc) (λ e. cc) h.quit_kept
  Step-Safe (int_prints i g c) h = placed-Safe i _ _ _ h (λ e. cc) h.int_kept h.quit_kept
  Step-Safe (int_restores i g c) h = placed-Safe i _ _ _ h (λ e. cc) (λ e. cc) h.quit_kept
  Step-Safe (int_returns i g c) h = placed-Safe i _ _ _ h (λ e. cc) h.int_kept h.quit_kept
  Step-Safe (quit_comes i g a c) h = placed-Safe i _ _ _ h (λ e. cc) h.int_kept (λ e. cc)
  Step-Safe (quit_terminates g a) h = absurd (h.quit_kept a)
  Step-Safe (quit_ignores i g c) h = placed-Safe i _ _ _ h (λ e. cc) h.int_kept (λ e. cc)
  Step-Safe (quit_prints i g c) h = placed-Safe i _ _ _ h (λ e. cc) h.int_kept h.quit_kept
  Step-Safe {s} (quit_detaches i g c) h = record {
    int_kept = h.int_kept;
    quit_kept = h.quit_kept;
    removed =
        moved s.calls i quit_removing (λ e. absurd cc)
          (λ j e. still_forgotten id s.ipc (h.removed j e));
    ended = subst (λ f. IsEnd id quit_status f (shmdt id s.ipc)) (sym g) tt;
  }
  Step-Safe {s} (quit_removes i g c) h = record {
    int_kept = h.int_kept;
    quit_kept = h.quit_kept;
    removed = λ j e. forgotten_now id s.ipc;
    ended = subst (λ f. IsEnd id quit_status f (shmctl_rmid id s.ipc)) (sym g) tt;
  }
  Step-Safe (quit_exits i g c) h = record {
    int_kept = h.int_kept;
    quit_kept = h.quit_kept;
    removed = h.removed;
    ended = (refl, h.removed i c);
  }

  Reach-Safe :
      {s t : Handling}
      → Safe id quit_status s
      → Reach false id quit_status s t
      → Safe id quit_status t
  Reach-Safe h start = h
  Reach-Safe h (later before step) = Step-Safe step (Reach-Safe h before)

  end_cases :
      (fate : Fate) (ipc : Ipc)
      → IsEnd id quit_status fate ipc
      → (fate ≡ going) ⊎ ((fate ≡ exited quit_status) × IsForgotten id ipc)
  end_cases going ipc h = inl refl
  end_cases (exited status) ipc h = inr (ap exited h.0, h.1)
  end_cases terminated ipc h = elim h [ ]

  -- If the action stays when a handler is called, then however many signals of the two kinds come,
  -- and however the calls of the handlers overlap, the process goes on, or it has exited with the
  -- status of `SIGQUIT_handler`, and then no key leads to its segment any more.
  pub signals_end :
      (ipc : Ipc) {s : Handling}
      → Reach false id quit_status (installed ipc) s
      → (s.fate ≡ going) ⊎ ((s.fate ≡ exited quit_status) × IsForgotten id s.ipc)
  signals_end ipc {s} reached =
      let safe : Safe id quit_status (installed ipc) = record {
        int_kept = λ e. cc;
        quit_kept = λ e. cc;
        removed = λ i e. absurd cc;
        ended = tt;
      } in
      end_cases s.fate s.ipc (Reach-Safe safe reached).ended
