-- ===== src/Ipc/Laws.antt =====
-- Shared memory segments: what can be found by a key is there.
use so_pr2_synchronization.Base.{
  ℕ, suc, ◌-◌, ◌<◌, ◌≡◌, ◌≢◌, ◌⊎◌, refl, sym, ◌∙◌, false, Bool-cases, Option-cases, inl, inr,
  Option, none, some, update, ◌==◌, ==_iff, arith,
}
use so_pr2_synchronization.Ipc.{
  Segment, Ipc, change, detached, forget, shmget_create, shmat, store, shmdt, shmctl_rmid,
}

pub record IsSound (ipc : Ipc) : Type 0 where
  pub found :
      (key id : ℕ)
      → ipc.by_key key ≡ some id
      → (s : Segment) × (ipc.segment id ≡ some s) × (s.doomed ≡ false)
  pub apart : (key key' id : ℕ) → ipc.by_key key ≡ some id → ipc.by_key key' ≡ some id → key ≡ key'
  pub below : (key id : ℕ) → ipc.by_key key ≡ some id → id < ipc.fresh

-- A change that keeps every segment that has not been removed.
abbrev Keeps : (Segment → Option Segment) → Type 0
Keeps f = (s : Segment) → s.doomed ≡ false → (s' : Segment) × (f s ≡ some s') × (s'.doomed ≡ false)

change-IsSound :
    (f : Segment → Option Segment)
    → Keeps f
    → (id : ℕ) {ipc : Ipc} → IsSound ipc
    → IsSound (record ipc { segment = update ipc.segment id (change f (ipc.segment id)) })
change-IsSound f keeps id {ipc} h = record {
  found = λ key j e.
      let (s, there, live) = h.found key j e in
      elim (Bool-cases (id == j)) [
        | inl same ↦ rw (same, (==_iff id j).0 same, there) (keeps s live)
        | inr other ↦ rw other (s, there, live)
      ];
  apart = h.apart;
  below = h.below;
}

pub shmat-IsSound : (id : ℕ) {ipc : Ipc} → IsSound ipc → IsSound (shmat id ipc)
unfolding shmat
shmat-IsSound id h = change-IsSound _ (λ s live. (_, refl, live)) id h

pub store-IsSound : (id value : ℕ) {ipc : Ipc} → IsSound ipc → IsSound (store id value ipc)
unfolding store
store-IsSound id value h = change-IsSound _ (λ s live. (_, refl, live)) id h

pub shmdt-IsSound : (id : ℕ) {ipc : Ipc} → IsSound ipc → IsSound (shmdt id ipc)
unfolding shmdt
shmdt-IsSound id h =
    change-IsSound detached (λ s live. (record s { attached = s.attached - 1 }, rw live refl, live))
      id h

pub forget-eq-some : (id j : ℕ) (o : Option ℕ) → forget id o ≡ some j → (o ≡ some j) × (id ≢ j)
forget-eq-some id j none e = cc
forget-eq-some id j (some k) e = ground arith

pub shmctl_rmid-IsSound : (id : ℕ) {ipc : Ipc} → IsSound ipc → IsSound (shmctl_rmid id ipc)
unfolding shmctl_rmid
shmctl_rmid-IsSound id {ipc} h = record {
  found = λ key j e.
      let (old, ne) = forget-eq-some id j (ipc.by_key key) e in
      let (s, there, live) = h.found key j old in (s, ground arith, live);
  apart = λ key key' j e e'.
      h.apart key key' j (forget-eq-some id j (ipc.by_key key) e).0
        (forget-eq-some id j (ipc.by_key key') e').0;
  below = λ key j e. h.below key j (forget-eq-some id j (ipc.by_key key) e).0;
}

pub forgotten : (id : ℕ) (o : Option ℕ) → o ≡ some id → forget id o ≡ none
forgotten id o e = rw e (ground arith)

-- What `shmget` makes can be found by its key.
pub shmget_create-found :
    (key : ℕ) (ipc : Ipc) → (shmget_create key ipc).1.by_key key ≡ some (shmget_create key ipc).0
unfolding shmget_create
shmget_create-found key ipc = elim (Option-cases (ipc.by_key key)) [
  | inl new ↦ rw (shmget_create, new) (ground arith)
  | inr (id, old) ↦ rw (shmget_create, old) old
]

key_or_old :
    (ipc : Ipc) (key k id : ℕ)
    → update ipc.by_key key (some ipc.fresh) k ≡ some id
    → ((key ≡ k) × (ipc.fresh ≡ id)) ⊎ (ipc.by_key k ≡ some id)
key_or_old ipc key k id e = elim (Bool-cases (key == k)) [
  | inl same ↦ inl ((==_iff key k).0 same, ground (arith, rw same at e))
  | inr other ↦ inr (rw other at e)
]

created-IsSound :
    (key : ℕ) (made : Segment) {ipc : Ipc}
    → made.doomed ≡ false
    → IsSound ipc
    → IsSound (record {
      by_key = update ipc.by_key key (some ipc.fresh);
      segment = update ipc.segment ipc.fresh (some made);
      fresh = suc ipc.fresh;
    })
created-IsSound key made {ipc} live h = record {
  found = λ k id e. elim (key_or_old ipc key k id e) [
    | inl (same, new) ↦ rw ((==_iff ipc.fresh id).1 new) (made, refl, live)
    | inr old ↦
        let (s, there, alive) = h.found k id old in
        let lt = h.below k id old in (s, ground arith, alive)
  ];
  apart = λ k k' id e e'. elim (key_or_old ipc key k id e) [
    | inl (same, new) ↦ elim (key_or_old ipc key k' id e') [
      | inl (same', new') ↦ sym same ∙ same'
      | inr old' ↦ absurd (omega (arith, h.below k' id old', new))
    ]
    | inr old ↦ elim (key_or_old ipc key k' id e') [
      | inl (same', new') ↦ absurd (omega (arith, h.below k id old, new'))
      | inr old' ↦ h.apart k k' id old old'
    ]
  ];
  below = λ k id e. elim (key_or_old ipc key k id e) [
    | inl (same, new) ↦ omega arith
    | inr old ↦ omega (arith, h.below k id old)
  ];
}

pub shmget_create-IsSound : (key : ℕ) {ipc : Ipc} → IsSound ipc → IsSound (shmget_create key ipc).1
unfolding shmget_create
shmget_create-IsSound key {ipc} h = elim (Option-cases (ipc.by_key key)) [
  | inr (id, old) ↦ rw (shmget_create, old) h
  | inl new ↦ rw (shmget_create, new) (created-IsSound key _ refl h)
]
