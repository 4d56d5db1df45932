-- ===== src/Control/Signals.antt =====
-- producer.c and examples/test_killer.c: `SIGINT_handler` and `SIGQUIT_handler` call by call, while
-- further signals come.
pub mod Laws
use so_pr2_synchronization.Base.{ℕ, Bool, true, false, ◌≡◌, update}
use so_pr2_synchronization.Ipc.{Ipc, shmdt, shmctl_rmid}

pub data Action : Type 0 where
  default_action ignored handled : Action

-- Where a call of a handler stands: before `signal(sig, SIG_IGN)`, `printf`, and so on. `idle` is a
-- call that has not been made, or that has returned.
pub data Place : Type 0 where
  idle : Place
  int_ignoring int_printing int_restoring int_returning : Place
  quit_ignoring quit_printing quit_detaching quit_removing quit_exiting : Place

pub data Fate : Type 0 where
  going : Fate
  exited : (status : ℕ) → Fate
  -- by the default action of a signal
  terminated : Fate

-- The calls are numbered. The kernel makes them in any thread, also while another one runs.
pub record Handling : Type 0 where
  pub int_action : Action
  pub quit_action : Action
  pub calls : ℕ → Place
  pub ipc : Ipc
  pub fate : Fate

-- What `signal` documents of the action when its handler is called: with the semantics of System V,
-- `one_shot`, it becomes the default action, with those of BSD it stays.
abbrev pub action_on_entry : (one_shot : Bool) → Action
action_on_entry true = default_action
action_on_entry false = handled

-- A step of a process with this segment and this exit status of `SIGQUIT_handler`. A signal that is
-- ignored is no step, nor is one whose delivery is put off.
pub data Step (one_shot : Bool) (shm_id quit_status : ℕ) (s : Handling) : Handling → Type 0 where
  int_comes :
      (i : ℕ)
      → s.fate ≡ going
      → s.int_action ≡ handled
      → s.calls i ≡ idle
      → Step one_shot shm_id quit_status s (record s {
        int_action = action_on_entry one_shot;
        calls = update s.calls i int_ignoring;
      })
  int_terminates :
      s.fate ≡ going
      → s.int_action ≡ default_action
      → Step one_shot shm_id quit_status s (record s { fate = terminated })
  int_ignores :
      (i : ℕ)
      → s.fate ≡ going
      → s.calls i ≡ int_ignoring
      → Step one_shot shm_id quit_status s
          (record s { int_action = ignored; calls = update s.calls i int_printing })
  int_prints :
      (i : ℕ)
      → s.fate ≡ going
      → s.calls i ≡ int_printing
      → Step one_shot shm_id quit_status s (record s { calls = update s.calls i int_restoring })
  int_restores :
      (i : ℕ)
      → s.fate ≡ going
      → s.calls i ≡ int_restoring
      → Step one_shot shm_id quit_status s
          (record s { int_action = handled; calls = update s.calls i int_returning })
  int_returns :
      (i : ℕ)
      → s.fate ≡ going
      → s.calls i ≡ int_returning
      → Step one_shot shm_id quit_status s (record s { calls = update s.calls i idle })
  quit_comes :
      (i : ℕ)
      → s.fate ≡ going
      → s.quit_action ≡ handled
      → s.calls i ≡ idle
      → Step one_shot shm_id quit_status s (record s {
        quit_action = action_on_entry one_shot;
        calls = update s.calls i quit_ignoring;
      })
  quit_terminates :
      s.fate ≡ going
      → s.quit_action ≡ default_action
      → Step one_shot shm_id quit_status s (record s { fate = terminated })
  quit_ignores :
      (i : ℕ)
      → s.fate ≡ going
      → s.calls i ≡ quit_ignoring
      → Step one_shot shm_id quit_status s
          (record s { quit_action = ignored; calls = update s.calls i quit_printing })
  quit_prints :
      (i : ℕ)
      → s.fate ≡ going
      → s.calls i ≡ quit_printing
      → Step one_shot shm_id quit_status s (record s { calls = update s.calls i quit_detaching })
  quit_detaches :
      (i : ℕ)
      → s.fate ≡ going
      → s.calls i ≡ quit_detaching
      → Step one_shot shm_id quit_status s
          (record s { ipc = shmdt shm_id s.ipc; calls = update s.calls i quit_removing })
  quit_removes :
      (i : ℕ)
      → s.fate ≡ going
      → s.calls i ≡ quit_removing
      → Step one_shot shm_id quit_status s
          (record s { ipc = shmctl_rmid shm_id s.ipc; calls = update s.calls i quit_exiting })
  quit_exits :
      (i : ℕ)
      → s.fate ≡ going
      → s.calls i ≡ quit_exiting
      → Step one_shot shm_id quit_status s (record s { fate = exited quit_status })

pub data Reach (one_shot : Bool) (shm_id quit_status : ℕ) (s : Handling) : Handling → Type 0 where
  start : Reach one_shot shm_id quit_status s s
  later :
      {t u : Handling}
      → Reach one_shot shm_id quit_status s t
      → Step one_shot shm_id quit_status t u
      → Reach one_shot shm_id quit_status s u

-- Behind the two calls of `signal` in `main`.
abbrev pub installed : Ipc → Handling
installed ipc = record {
  int_action = handled;
  quit_action = handled;
  calls = λ _. idle;
  ipc = ipc;
  fate = going;
}
