-- ===== src/Control/Laws.antt =====
-- producer.c, examples/test_killer.c and killer.c: which process the killer stops.
use so_pr2_synchronization.Base.{
  ℕ, suc, ◌≡◌, refl, sym, ◌∙◌, subst, Bool, true, false, Option-cases, inl, inr, none, some, ==_iff,
  arith,
}
use so_pr2_synchronization.Ipc.{Segment, Ipc, shmat, store, shmdt}
use so_pr2_synchronization.Ipc.Laws.{
  IsSound, shmat-IsSound, store-IsSound, shmdt-IsSound, shmctl_rmid-IsSound, shmget_create-IsSound,
}
use so_pr2_synchronization.Control.{
  Answers, Start, looping, exits, faults, prepare, World, launch, launch_producer,
  launch_test_killer, quit, Signal, sigint, sigquit, deliver, end_process, find_producer,
}

abbrev pub all_succeed : Answers
all_succeed = record { sigint_ok = true; sigquit_ok = true; shmget_ok = true; shmat_ok = true }

abbrev pub empty_world : World
empty_world = record {
  ipc = record { by_key = λ key. none; segment = λ id. none; fresh = 0 };
  running = λ pid. none;
  exit_status = λ pid. none;
}

-- What can happen: a program starts, well or badly, a signal arrives, a process ends in another way,
-- or a killer looks for a segment.
pub data Event (w : World) : World → Type 0 where
  producer : (answers : Answers) (pid key : ℕ) → Event w (launch_producer answers pid key w)
  test_killer : (answers : Answers) (pid key : ℕ) → Event w (launch_test_killer answers pid key w)
  signal : (signal : Signal) (pid : ℕ) → Event w (deliver signal pid w)
  ends : (status pid : ℕ) → Event w (end_process status pid w)
  look :
      (key : ℕ) {pid : ℕ} {ipc : Ipc}
      → find_producer key w.ipc ≡ some (pid, ipc)
      → Event w (record w { ipc = ipc })

pub data History : World → Type 0 where
  at_first : History empty_world
  later : {w u : World} → History w → Event w u → History u

abbrev pub ipc_of : Start → Ipc
ipc_of (looping shm_id ipc) = ipc
ipc_of (exits status ipc) = ipc
ipc_of (faults ipc) = ipc

launch-IsSound :
    (quit_status pid : ℕ) (start : Start) (w : World)
    → IsSound (ipc_of start)
    → IsSound (launch quit_status pid start w).ipc
unfolding launch
launch-IsSound quit_status pid (looping shm_id ipc) w h = h
launch-IsSound quit_status pid (exits status ipc) w h = h
launch-IsSound quit_status pid (faults ipc) w h = h

prepare-IsSound :
    (a b c d : Bool) (status status' pid key : ℕ) {ipc : Ipc}
    → IsSound ipc
    → IsSound (
        ipc_of (
          prepare status status'
            (record { sigint_ok = a; sigquit_ok = b; shmget_ok = c; shmat_ok = d })
            pid
            key
            ipc))
unfolding prepare
prepare-IsSound false b c d status status' pid key h = h
prepare-IsSound true false c d status status' pid key h = h
prepare-IsSound true true false d status status' pid key h = h
prepare-IsSound true true true false status status' pid key h = shmget_create-IsSound key h
prepare-IsSound true true true true status status' pid key h =
    store-IsSound _ pid (shmat-IsSound _ (shmget_create-IsSound key h))

deliver-IsSound : (s : Signal) (pid : ℕ) (w : World) → IsSound w.ipc → IsSound (deliver s pid w).ipc
unfolding deliver quit
deliver-IsSound s pid w h = elim (Option-cases (w.running pid)) [
  | inl absent ↦ rw (deliver, absent) h
  | inr (process, there) ↦ elim s as (λ x. IsSound (deliver x pid w).ipc) [
    | sigint ↦ rw (deliver, there) h
    | sigquit ↦
        rw (deliver, there) (shmctl_rmid-IsSound process.shm_id (shmdt-IsSound process.shm_id h))
  ]
]

end_process-IsSound :
    (status pid : ℕ) (w : World) → IsSound w.ipc → IsSound (end_process status pid w).ipc
unfolding end_process
end_process-IsSound status pid w h = elim (Option-cases (w.running pid)) [
  | inl absent ↦ rw (end_process, absent) h
  | inr (process, there) ↦ rw (end_process, there) (shmdt-IsSound process.shm_id h)
]

pub shmat_at :
    (id : ℕ) (ipc : Ipc) {s : Segment}
    → ipc.segment id ≡ some s
    → (shmat id ipc).segment id ≡ some (record s { attached = suc s.attached })
unfolding shmat
shmat_at id ipc there = rw ((==_iff id id).1 refl, there)

pub store_at :
    (id value : ℕ) (ipc : Ipc) {s : Segment}
    → ipc.segment id ≡ some s
    → (store id value ipc).segment id ≡ some (record s { value = value })
unfolding store
store_at id value ipc there = rw ((==_iff id id).1 refl, there)

pub found_at :
    (key id : ℕ) (ipc : Ipc) {s : Segment}
    → ipc.by_key key ≡ some id
    → ipc.segment id ≡ some s
    → find_producer key ipc ≡ some (s.value, shmdt id (shmat id ipc))
unfolding find_producer
found_at key id ipc e there = rw (find_producer, e, shmat_at id ipc there)

pub not_found : (key : ℕ) (ipc : Ipc) → ipc.by_key key ≡ none → find_producer key ipc ≡ none
unfolding find_producer
not_found key ipc e = rw (find_producer, e)

look-IsSound :
    (key : ℕ) {pid : ℕ} {ipc ipc' : Ipc}
    → IsSound ipc
    → find_producer key ipc ≡ some (pid, ipc')
    → IsSound ipc'
look-IsSound key {pid} {ipc} {ipc'} h e = elim (Option-cases (ipc.by_key key)) [
  | inl absent ↦ cc (sym e ∙ not_found key ipc absent)
  | inr (id, there) ↦
      let (s, at_id, live) = h.found key id there in
      let same : shmdt id (shmat id ipc) ≡ ipc' = ground (arith, found_at key id ipc there at_id) in
      subst IsSound same (shmdt-IsSound id (shmat-IsSound id h))
]

empty_world-IsSound : IsSound empty_world.ipc
empty_world-IsSound = record {
  found = λ key id e. cc;
  apart = λ key key' id e e'. cc;
  below = λ key id e. cc;
}

pub Event-IsSound : {w u : World} → Event w u → IsSound w.ipc → IsSound u.ipc
unfolding launch_producer launch_test_killer
Event-IsSound {w} (producer answers pid key) h =
    launch-IsSound 3 pid (prepare 1 2 answers pid key w.ipc) w (
      prepare-IsSound answers.sigint_ok answers.sigquit_ok answers.shmget_ok answers.shmat_ok 1 2
        pid key h)
Event-IsSound {w} (test_killer answers pid key) h =
    launch-IsSound 0 pid (prepare 0 0 answers pid key w.ipc) w (
      prepare-IsSound answers.sigint_ok answers.sigquit_ok answers.shmget_ok answers.shmat_ok 0 0
        pid key h)
Event-IsSound {w} (signal s pid) h = deliver-IsSound s pid w h
Event-IsSound {w} (ends status pid) h = end_process-IsSound status pid w h
Event-IsSound (look key e) h = look-IsSound key h e

pub History-IsSound : {w : World} → History w → IsSound w.ipc
History-IsSound at_first = empty_world-IsSound
History-IsSound (later history event) = Event-IsSound event (History-IsSound history)
