-- ===== src/Control/Kept.antt =====
-- The segments of producer.c and killer.c: what a call on one of them leaves of another.
use so_pr2_synchronization.Base.{
  Option, ℕ, ◌-◌, ◌≡◌, ◌≢◌, ap, ◌==◌, Bool-cases, update_other, refl, sym, ◌∙◌, subst, Bool, true,
  false, Option-cases, inl, inr, none, some, update, ==_iff, arith,
}
use so_pr2_synchronization.Ipc.{
  Segment, Ipc, change, detached, forget, shmget_create, shmat, store, shmdt, shmctl_rmid,
}
use so_pr2_synchronization.Ipc.Laws.{
  IsSound, shmat-IsSound, shmget_create-IsSound, shmget_create-found,
}
use so_pr2_synchronization.Control.{prepare, find_producer}
use so_pr2_synchronization.Control.Laws.{ipc_of, found_at, not_found}

-- The key leads to a segment with this process id.
abbrev pub Has : (key pid id : ℕ) → Ipc → Type 0
Has key pid id ipc =
    (ipc.by_key key ≡ some id) × (s : Segment) × (ipc.segment id ≡ some s) × (s.value ≡ pid)

value_in : Option Segment → ℕ
value_in none = 0
value_in (some s) = s.value

-- A change that leaves the value of a segment that has not been removed.
changed-Has :
    (f : Segment → Option Segment) (key pid id id' : ℕ) {ipc : Ipc}
    → ((s : Segment) → s.doomed ≡ false → (s' : Segment) × (f s ≡ some s') × (s'.value ≡ s.value))
    → IsSound ipc
    → Has key pid id ipc
    → Has key pid id (record ipc { segment = update ipc.segment id' (change f (ipc.segment id')) })
unfolding value_in
changed-Has f key pid id id' {ipc} keeps h (leads, s, at_id, value) =
    elim (Bool-cases (id' == id)) [
      | inr other ↦ (leads, s, rw other at_id, value)
      | inl same ↦
          let (found, there, live) = h.found key id leads in
          let (s', e, kept) = keeps found live in
          let same_id : id' ≡ id = (==_iff id' id).0 same in
          (
            leads,
            s',
            rw same (ap (change f) (ap ipc.segment same_id ∙ there) ∙ e),
            kept ∙ ap value_in (sym there ∙ at_id) ∙ value,
          )
    ]

pub shmat-Has :
    (key pid id id' : ℕ) {ipc : Ipc}
    → IsSound ipc
    → Has key pid id ipc
    → Has key pid id (shmat id' ipc)
unfolding shmat
shmat-Has key pid id id' = changed-Has _ key pid id id' (λ s live. (_, refl, refl))

pub shmdt-Has :
    (key pid id id' : ℕ) {ipc : Ipc}
    → IsSound ipc
    → Has key pid id ipc
    → Has key pid id (shmdt id' ipc)
unfolding shmdt
shmdt-Has key pid id id' =
    changed-Has detached key pid id id'
      (λ s live. (record s { attached = s.attached - 1 }, rw live refl, refl))

-- A store to another segment, and the removal of another one.
store-Has :
    (key pid id id' value : ℕ) (ipc : Ipc)
    → id' ≢ id
    → Has key pid id ipc
    → Has key pid id (store id' value ipc)
unfolding store
store-Has key pid id id' value ipc ne (leads, s, at_id, v) =
    (leads, s, update_other ipc.segment id' id _ ne ∙ at_id, v)

pub shmctl_rmid-Has :
    (key pid id id' : ℕ) (ipc : Ipc)
    → id' ≢ id
    → Has key pid id ipc
    → Has key pid id (shmctl_rmid id' ipc)
unfolding shmctl_rmid
shmctl_rmid-Has key pid id id' ipc ne (leads, s, at_id, v) =
    (ap (forget id') leads ∙ ground (arith, ne), s, update_other ipc.segment id' id _ ne ∙ at_id, v)

shmget_create-Has :
    (key pid id key' : ℕ) {ipc : Ipc}
    → key' ≢ key
    → IsSound ipc
    → Has key pid id ipc
    → Has key pid id (shmget_create key' ipc).1
unfolding shmget_create
shmget_create-Has key pid id key' {ipc} ne h (leads, s, at_id, v) =
    elim (Option-cases (ipc.by_key key')) [
      | inr (id', there) ↦ rw (shmget_create, there) (leads, s, at_id, v)
      | inl absent ↦
          rw (shmget_create, absent)
            (
              update_other ipc.by_key key' key _ ne ∙ leads,
              s,
              update_other ipc.segment ipc.fresh id _ (λ e. omega (arith, e, h.below key id leads))
                  ∙ at_id,
              v,
            )
    ]

pub prepare-Has :
    (a b c d : Bool) (status status' pid' key' key pid id : ℕ) {ipc : Ipc}
    → key' ≢ key
    → IsSound ipc
    → Has key pid id ipc
    → Has key pid id (
        ipc_of (
          prepare status status'
            (record { sigint_ok = a; sigquit_ok = b; shmget_ok = c; shmat_ok = d })
            pid'
            key'
            ipc))
unfolding prepare
prepare-Has false b c d status status' pid' key' key pid id ne h has = has
prepare-Has true false c d status status' pid' key' key pid id ne h has = has
prepare-Has true true false d status status' pid' key' key pid id ne h has = has
prepare-Has true true true false status status' pid' key' key pid id ne h has =
    shmget_create-Has key pid id key' ne h has
prepare-Has true true true true status status' pid' key' key pid id {ipc} ne h has =
    let sound = shmget_create-IsSound key' h in
    let created = shmget_create-Has key pid id key' ne h has in
    store-Has key pid id (shmget_create key' ipc).0 pid'
      (shmat (shmget_create key' ipc).0 (shmget_create key' ipc).1)
      (λ e. ne (sound.apart key' key id (shmget_create-found key' ipc ∙ ap some e) created.0))
      (shmat-Has key pid id (shmget_create key' ipc).0 sound created)

pub looked-Has :
    (key' key pid id : ℕ) {found : ℕ} {ipc ipc' : Ipc}
    → IsSound ipc
    → find_producer key' ipc ≡ some (found, ipc')
    → Has key pid id ipc
    → Has key pid id ipc'
looked-Has key' key pid id {ipc = ipc} {ipc' = ipc'} h e has =
    elim (Option-cases (ipc.by_key key')) [
      | inl absent ↦ cc (sym e ∙ not_found key' ipc absent)
      | inr (id', there) ↦
          let (s, at_id, live) = h.found key' id' there in
          let same : shmdt id' (shmat id' ipc) ≡ ipc' =
            ground (arith, found_at key' id' ipc there at_id) in
          subst (Has key pid id) same
            (shmdt-Has key pid id id' (shmat-IsSound id' h) (shmat-Has key pid id id' h has))
    ]
