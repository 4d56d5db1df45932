-- ===== src/Ipc.antt =====
-- The shared memory segments of System V, as far as the programs use them: `shmget`, `shmat`,
-- `shmdt` and `shmctl(IPC_RMID)` on a segment that holds one number.
pub mod Laws
use so_pr2_synchronization.Base.{
  ℕ, zero, suc, ◌-◌, Bool, true, false, Option, none, some, update, ◌==◌, if◌then◌else◌,
}

-- `doomed` is a segment that has been removed while processes were attached to it.
pub record Segment : Type 0 where
  pub value : ℕ
  pub attached : ℕ
  pub doomed : Bool

-- The segments by their keys and by their ids, and the id of the next one.
pub record Ipc : Type 0 where
  pub by_key : ℕ → Option ℕ
  pub segment : ℕ → Option Segment
  pub fresh : ℕ

-- With IPC_CREAT: the segment of the key, or a new one that is filled with zeros.
unfoldable pub shmget_create : ℕ → Ipc → ℕ × Ipc
shmget_create key ipc = elim (ipc.by_key key) [
  | some id ↦ (id, ipc)
  | none ↦ (
    ipc.fresh,
    record {
      by_key = update ipc.by_key key (some ipc.fresh);
      segment =
          update ipc.segment ipc.fresh (some (record { value = 0; attached = 0; doomed = false }));
      fresh = suc ipc.fresh;
    },
  )
]

-- A change of the segment of an id, if there is one.
abbrev pub change : (Segment → Option Segment) → Option Segment → Option Segment
change f none = none
change f (some s) = f s

unfoldable pub shmat : ℕ → Ipc → Ipc
shmat id ipc = record ipc {
  segment =
      update ipc.segment id
        (change (λ s. some (record s { attached = suc s.attached })) (ipc.segment id));
}

-- `*pointer = value`
unfoldable pub store : ℕ → ℕ → Ipc → Ipc
store id value ipc = record ipc {
  segment =
      update ipc.segment id (change (λ s. some (record s { value = value })) (ipc.segment id));
}

-- A segment that has been removed goes when the last process leaves it.
abbrev pub detached : Segment → Option Segment
detached s =
    let kept : Option Segment = some (record s { attached = s.attached - 1 }) in
    if s.doomed then (if s.attached - 1 == 0 then none else kept) else kept

unfoldable pub shmdt : ℕ → Ipc → Ipc
shmdt id ipc = record ipc { segment = update ipc.segment id (change detached (ipc.segment id)) }

abbrev pub removed : Segment → Option Segment
removed s = if s.attached == 0 then none else some (record s { doomed = true })

-- Without its key: nobody can find the segment any more.
abbrev pub forget : ℕ → Option ℕ → Option ℕ
forget id none = none
forget id (some j) = if j == id then none else some j

unfoldable pub shmctl_rmid : ℕ → Ipc → Ipc
shmctl_rmid id ipc = record ipc {
  by_key = λ key. forget id (ipc.by_key key);
  segment = update ipc.segment id (change removed (ipc.segment id));
}
