-- ===== src/Control/Last.antt =====
-- killer.c: which process it stops, when other things have happened since that was started.
use so_pr2_synchronization.Base.{
  ℕ, ◌≡◌, ◌≢◌, ap, update_other, refl, sym, ◌∙◌, true, Option-cases, inl, inr, none, some, List,
  ◌∷◌, ◌++◌, Text, update, update_same,
}
use so_pr2_synchronization.Files.{File}
use so_pr2_synchronization.Ipc.{Segment, Ipc, shmget_create, shmat, store, shmdt, shmctl_rmid}
use so_pr2_synchronization.Ipc.Laws.{IsSound, shmget_create-IsSound, shmget_create-found, forgotten}
use so_pr2_synchronization.Killer.Laws.{AllOther, IsKill, kill_producer_kills}
use so_pr2_synchronization.Control.{
  Answers, Start, looping, exits, faults, prepare, Running, World, launch, launch_producer,
  launch_test_killer, quit, sigint, sigquit, deliver, end_process, find_producer, done, run_killer,
}
use so_pr2_synchronization.Control.Laws.{
  all_succeed, History, ipc_of, Event-IsSound, History-IsSound, producer, test_killer, signal, ends,
  look, shmat_at, store_at, found_at, not_found,
}
use so_pr2_synchronization.Control.Kept.{Has, shmdt-Has, shmctl_rmid-Has, prepare-Has, looked-Has}

-- What the killer does in a world where it finds the id of a running process.
stops :
    (key id : ℕ) (process : Running) (w : World) (s : Segment) (memory on_waiting : File)
    (others : List Text) (line : Text) (rest : List Text)
    → w.ipc.by_key key ≡ some id
    → w.ipc.segment id ≡ some s
    → w.running s.value ≡ some process
    → AllOther others
    → IsKill line
    → run_killer key true true memory on_waiting (others ++ (line ∷ rest)) w
      ≡ done (quit s.value process (record w { ipc = shmdt id (shmat id w.ipc) })) none none
unfolding run_killer
stops key id process w s memory on_waiting others line rest there at_id running h kill = rw (
  run_killer,
  found_at key id w.ipc there at_id,
  kill_producer_kills s.value memory on_waiting others line rest h kill,
  deliver,
  running,
)

-- The producer is found, and it runs.
record Leads (key pid id : ℕ) (w : World) : Type 0 where
  sound : IsSound w.ipc
  has : Has key pid id w.ipc
  running : w.running pid ≡ some (record { shm_id = id; quit_status = 3 })

-- What happens elsewhere: no producer and no test_killer starts in the directory of the key, or with
-- the process id; no other process that has the segment gets SIGQUIT; and the process itself gets
-- no SIGQUIT and does not end. All else may happen, in any order.
pub data Elsewhere (key pid : ℕ) (w : World) : World → Type 0 where
  other_producer :
      (answers : Answers) (pid' key' : ℕ)
      → key' ≢ key
      → pid' ≢ pid
      → Elsewhere key pid w (launch_producer answers pid' key' w)
  other_test_killer :
      (answers : Answers) (pid' key' : ℕ)
      → key' ≢ key
      → pid' ≢ pid
      → Elsewhere key pid w (launch_test_killer answers pid' key' w)
  interrupted : (pid' : ℕ) → Elsewhere key pid w (deliver sigint pid' w)
  other_quits :
      (pid' : ℕ) (process : Running)
      → pid' ≢ pid
      → w.running pid' ≡ some process
      → w.ipc.by_key key ≢ some process.shm_id
      → Elsewhere key pid w (deliver sigquit pid' w)
  other_ends : (status pid' : ℕ) → pid' ≢ pid → Elsewhere key pid w (end_process status pid' w)
  looked :
      (key' : ℕ) {found : ℕ} {ipc : Ipc}
      → find_producer key' w.ipc ≡ some (found, ipc)
      → Elsewhere key pid w (record w { ipc = ipc })

pub data Meanwhile (key pid : ℕ) (w : World) : World → Type 0 where
  nothing_yet : Meanwhile key pid w w
  then_elsewhere :
      {u v : World} → Meanwhile key pid w u → Elsewhere key pid u v → Meanwhile key pid w v

launch_running :
    (quit_status pid' : ℕ) (begun : Start) (w : World) (pid : ℕ)
    → pid' ≢ pid
    → (launch quit_status pid' begun w).running pid ≡ w.running pid
unfolding launch
launch_running quit_status pid' (looping shm_id ipc) w pid ne = update_other w.running pid' pid _ ne
launch_running quit_status pid' (exits status ipc) w pid ne = refl
launch_running quit_status pid' (faults ipc) w pid ne = refl

launch-Has :
    (quit_status pid' : ℕ) (begun : Start) (w : World) (key pid id : ℕ)
    → Has key pid id (ipc_of begun)
    → Has key pid id (launch quit_status pid' begun w).ipc
unfolding launch
launch-Has quit_status pid' (looping shm_id ipc) w key pid id h = h
launch-Has quit_status pid' (exits status ipc) w key pid id h = h
launch-Has quit_status pid' (faults ipc) w key pid id h = h

Elsewhere-Leads :
    {key pid id : ℕ} {w u : World} → Elsewhere key pid w u → Leads key pid id w → Leads key pid id u
unfolding launch_producer launch_test_killer deliver quit end_process
Elsewhere-Leads {key} {pid} {id} {w} (other_producer answers pid' key' ne ne') h = record {
  sound = Event-IsSound {w = w} (producer answers pid' key') h.sound;
  has = launch-Has 3 pid' (prepare 1 2 answers pid' key' w.ipc) w key pid id (
      prepare-Has answers.sigint_ok answers.sigquit_ok answers.shmget_ok answers.shmat_ok 1 2 pid'
        key' key pid id ne h.sound h.has);
  running = launch_running 3 pid' (prepare 1 2 answers pid' key' w.ipc) w pid ne' ∙ h.running;
}
Elsewhere-Leads {key} {pid} {id} {w} (other_test_killer answers pid' key' ne ne') h = record {
  sound = Event-IsSound {w = w} (test_killer answers pid' key') h.sound;
  has = launch-Has 0 pid' (prepare 0 0 answers pid' key' w.ipc) w key pid id (
      prepare-Has answers.sigint_ok answers.sigquit_ok answers.shmget_ok answers.shmat_ok 0 0 pid'
        key' key pid id ne h.sound h.has);
  running = launch_running 0 pid' (prepare 0 0 answers pid' key' w.ipc) w pid ne' ∙ h.running;
}
Elsewhere-Leads {key} {pid} {id} {w} (interrupted pid') h = elim (Option-cases (w.running pid')) [
  | inl absent ↦ rw (deliver, absent) h
  | inr (process, there) ↦ rw (deliver, there) h
]
Elsewhere-Leads {key} {pid} {id} {w} (other_quits pid' process ne there other) h =
    let away : process.shm_id ≢ id = λ e. other (h.has.0 ∙ ap some (sym e)) in
    record {
      sound = Event-IsSound {w = w} (signal sigquit pid') h.sound;
      has =
          rw (deliver, there)
            (shmctl_rmid-Has key pid id process.shm_id (shmdt process.shm_id w.ipc) away
              (shmdt-Has key pid id process.shm_id h.sound h.has));
      running = rw (deliver, there) (update_other w.running pid' pid _ ne ∙ h.running);
    }
Elsewhere-Leads {key} {pid} {id} {w} (other_ends status pid' ne) h =
    elim (Option-cases (w.running pid')) [
      | inl absent ↦ rw (end_process, absent) h
      | inr (process, there) ↦ record {
        sound = Event-IsSound {w = w} (ends status pid') h.sound;
        has = rw (end_process, there) (shmdt-Has key pid id process.shm_id h.sound h.has);
        running = rw (end_process, there) (update_other w.running pid' pid _ ne ∙ h.running);
      }
    ]
Elsewhere-Leads {key} {pid} {id} {w} (looked key' e) h = record {
  sound = Event-IsSound {w = w} (look key' e) h.sound;
  has = looked-Has key' key pid id h.sound e h.has;
  running = h.running;
}

Meanwhile-Leads :
    {key pid id : ℕ} {w u : World} → Meanwhile key pid w u → Leads key pid id w → Leads key pid id u
Meanwhile-Leads nothing_yet h = h
Meanwhile-Leads (then_elsewhere before event) h = Elsewhere-Leads event (Meanwhile-Leads before h)

launched-Leads :
    {w : World} (history : History w) (key pid : ℕ)
    → Leads key pid (shmget_create key w.ipc).0 (launch_producer all_succeed pid key w)
unfolding launch_producer shmat store
launched-Leads {w} history key pid =
    let id = (shmget_create key w.ipc).0 in
    let created = (shmget_create key w.ipc).1 in
    let there = shmget_create-found key w.ipc in
    let (s, at_id, live) =
      (shmget_create-IsSound key (History-IsSound history)).found key id there in
    record {
      sound = Event-IsSound {w = w} (producer all_succeed pid key) (History-IsSound history);
      has = (there, _, store_at id pid (shmat id created) (shmat_at id created at_id), refl);
      running = update_same w.running pid (some (record { shm_id = id; quit_status = 3 }));
    }

-- In every history of the programs: if, after a producer has been started in a directory, neither a
-- producer nor a test_killer starts there or with its process id, no other process that has its
-- segment gets SIGQUIT, and it neither gets SIGQUIT nor ends, then, whatever else happens in any order,
-- the killer stops this producer, and no other process: the first line whose first letter is a k, after
-- lines with another first letter, ends it with status 3 and removes both files. The segment is gone
-- then, so that a killer started again faults, also while earlier producers are running.
pub killer_stops_last :
    {w v : World} (history : History w) (pid key : ℕ)
    → Meanwhile key pid (launch_producer all_succeed pid key w) v
    → (memory on_waiting : File) (others : List Text) (line : Text) (rest : List Text)
    → AllOther others
    → IsKill line
    → (u : World) × (run_killer key true true memory on_waiting (others ++ (line ∷ rest)) v
        ≡ done u none none)
      × ((j : ℕ) → u.running j ≡ update v.running pid none j)
      × (u.exit_status pid ≡ some 3)
      × (find_producer key u.ipc ≡ none)
unfolding quit shmat store shmdt shmctl_rmid
killer_stops_last {w} {v} history pid key meanwhile memory on_waiting others line rest h kill =
    let id = (shmget_create key w.ipc).0 in
    let leads = Meanwhile-Leads meanwhile (launched-Leads history key pid) in
    let process : Running = record { shm_id = id; quit_status = 3 } in
    let (there, s, at_id, value) = leads.has in
    let done_so =
      stops key id process v s memory on_waiting others line rest there at_id
        (ap v.running value ∙ leads.running) h kill in
    (
      _,
      done_so,
      (λ j. ap (λ i. update v.running i none j) value),
      ap (λ i. update v.exit_status i (some 3) pid) value ∙ update_same v.exit_status pid (some 3),
      not_found key _ (forgotten id _ there),
    )
