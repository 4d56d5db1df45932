-- ===== src/Control.antt =====
-- producer.c and examples/test_killer.c: the signals, and the shared memory segment that holds the
-- process id; killer.c: how it finds that id and what its signal does.
pub mod Laws
mod Kept
pub mod Last
pub mod Signals
use so_pr2_synchronization.Base.{
  ℕ, Bool, true, false, Option, none, some, List, Text, update, if◌then◌else◌,
}
use so_pr2_synchronization.Files.{File}
use so_pr2_synchronization.Ipc.{Segment, Ipc, shmget_create, shmat, store, shmdt, shmctl_rmid}
use so_pr2_synchronization.Killer.{prompting, past_the_end, killed, kill_producer}

-- Which of the calls of `main` succeed.
pub record Answers : Type 0 where
  pub sigint_ok : Bool
  pub sigquit_ok : Bool
  pub shmget_ok : Bool
  pub shmat_ok : Bool

-- How `main` comes through its preparations: to its loop, with the id of the segment; or it ends,
-- or writes through the pointer -1.
pub data Start : Type 0 where
  looping : (shm_id : ℕ) → Ipc → Start
  exits : (status : ℕ) → Ipc → Start
  faults : Ipc → Start

-- The preparations with the statuses of the two failures: `signal`, `signal`, `shmget`, `shmat`
-- and `*ShmPTR = pid`. Neither `shmget` nor `shmat` is tested.
unfoldable pub prepare : (status status' : ℕ) → Answers → (pid key : ℕ) → Ipc → Start
unfolding shmget_create shmat store
prepare status status' answers pid key ipc =
    let (shm_id, ipc') = shmget_create key ipc in
    if answers.sigint_ok
    then if answers.sigquit_ok
      then if answers.shmget_ok
        then if answers.shmat_ok
          then looping shm_id (store shm_id pid (shmat shm_id ipc'))
          else faults ipc'
        else faults ipc
      else exits status' ipc
    else exits status ipc

-- `key` is `ftok(".", 's')`.
abbrev pub prepare_producer : Answers → (pid key : ℕ) → Ipc → Start
prepare_producer = prepare 1 2

-- `key` is `ftok("killer.c", 's')`.
abbrev pub prepare_test_killer : Answers → (pid key : ℕ) → Ipc → Start
prepare_test_killer = prepare 0 0

-- A process in its loop: the segment, and the status with which its handler of SIGQUIT exits.
pub record Running : Type 0 where
  pub shm_id : ℕ
  pub quit_status : ℕ

pub record World : Type 0 where
  pub ipc : Ipc
  pub running : ℕ → Option Running
  pub exit_status : ℕ → Option ℕ

-- The start of a process in the world.
unfoldable pub launch : (quit_status pid : ℕ) → Start → World → World
launch quit_status pid (looping shm_id ipc) w = record w {
  ipc = ipc;
  running = update w.running pid (some (record { shm_id = shm_id; quit_status = quit_status }));
}
launch quit_status pid (exits status ipc) w = record w {
  ipc = ipc;
  exit_status = update w.exit_status pid (some status);
}
launch quit_status pid (faults ipc) w = record w { ipc = ipc }

unfoldable pub launch_producer : Answers → (pid key : ℕ) → World → World
unfolding prepare launch
launch_producer answers pid key w = launch 3 pid (prepare_producer answers pid key w.ipc) w

unfoldable pub launch_test_killer : Answers → (pid key : ℕ) → World → World
unfolding prepare launch
launch_test_killer answers pid key w = launch 0 pid (prepare_test_killer answers pid key w.ipc) w

-- `SIGQUIT_handler`: the segment is left and removed, and the process exits.
unfoldable pub quit : ℕ → Running → World → World
unfolding shmdt shmctl_rmid
quit pid process w = record {
  ipc = shmctl_rmid process.shm_id (shmdt process.shm_id w.ipc);
  running = update w.running pid none;
  exit_status = update w.exit_status pid (some process.quit_status);
}

-- A process that ends by `exit` in another way, as when a call of a worker fails or when it reads an
-- empty file: it leaves the segment, which stays, with the process id in it.
unfoldable pub end_process : (status pid : ℕ) → World → World
unfolding shmdt
end_process status pid w = elim (w.running pid) [
  | none ↦ w
  | some process ↦ record {
    ipc = shmdt process.shm_id w.ipc;
    running = update w.running pid none;
    exit_status = update w.exit_status pid (some status);
  }
]

pub data Signal : Type 0 where
  sigint sigquit : Signal

-- A signal to a process of the two programs. `SIGINT_handler` prints and installs itself again. A
-- process of another program is not modelled, and takes no notice. The handler is taken to run at
-- once; System/Shutdown has it at any later moment.
unfoldable pub deliver : Signal → ℕ → World → World
unfolding quit
deliver signal pid w = elim (w.running pid) [
  | none ↦ w
  | some process ↦ elim signal [ sigint ↦ w | sigquit ↦ quit pid process w ]
]

-- The start of `kill_producer` in killer.c: `shmget` without IPC_CREAT, `shmat`, the read and
-- `shmdt`. Without a segment the read goes through the pointer -1, which is `none`.
unfoldable pub find_producer : ℕ → Ipc → Option (ℕ × Ipc)
find_producer key ipc = elim (ipc.by_key key) [
  | none ↦ none
  | some shm_id ↦ elim ((shmat shm_id ipc).segment shm_id) [
    | none ↦ none
    | some segment ↦ some (segment.value, shmdt shm_id (shmat shm_id ipc))
  ]
]

-- What a run of killer.c does: it faults, waits for a line, reads past a line, or has sent the
-- signal and tried to remove the files.
pub data Killing : Type 0 where
  no_segment : Killing
  waits : World → Killing
  overruns : World → Killing
  done : World → (memory on_waiting : File) → Killing

unfoldable pub run_killer : ℕ → Bool → Bool → File → File → List Text → World → Killing
unfolding find_producer deliver
run_killer key allowed allowed' memory on_waiting lines w = elim (find_producer key w.ipc) [
  | none ↦ no_segment
  | some (pid, ipc) ↦ elim (kill_producer pid allowed allowed' memory on_waiting lines) [
    | prompting ↦ waits (record w { ipc = ipc })
    | past_the_end ↦ overruns (record w { ipc = ipc })
    | killed target memory' on_waiting' ↦
        done (deliver sigquit target (record w { ipc = ipc })) memory' on_waiting'
  ]
]
