-- ===== src/Experiments/Segments/Laws.antt =====
-- examples/inicializador.c and examples/shmdemo.c: what one run leaves for the next.
use so_pr2_synchronization.Base.{
  ℕ, zero, suc, ◌≡◌, refl, ap, subst, ◌-◌, ==_iff, Bool, true, false, Option, none, some, List, [],
  ◌∷◌, Text, Lacks, arith,
}
use so_pr2_synchronization.Files.{c_string}
use so_pr2_synchronization.Ipc.{Segment, Ipc, shmget_create, shmat, store, shmdt}
use so_pr2_synchronization.Ipc.Laws.{
  IsSound, shmat-IsSound, store-IsSound, shmdt-IsSound, shmget_create-found, shmget_create-IsSound,
}
use so_pr2_synchronization.Experiments.Segments.{
  Zone, Answers, open_semaphore, create_zone, point_at_zone, line_key, prepare_lines, strncpy,
  Calls, segment_size, shm_demo,
}

-- The first characters of a text.
abbrev pub take : ℕ → Text → Text
take zero text = []
take (suc n) [] = []
take (suc n) (c ∷ text) = c ∷ take n text

c_string-strncpy : (n : ℕ) (text : Text) → Lacks 0 text → c_string (strncpy n text) ≡ take n text
unfolding c_string strncpy
c_string-strncpy zero text h = refl
c_string-strncpy (suc n) [] h = refl
c_string-strncpy (suc n) (zero ∷ text) h = absurd (h.0 refl)
c_string-strncpy (suc n) (suc c ∷ text) h = rw (c_string-strncpy n text h.1)

abbrev pub calls_ok : Calls
calls_ok = record { ftok_ok = true; shmget_ok = true; shmat_ok = true; shmdt_ok = true }

-- After a run with one argument that has no NUL, a run without one prints the first 1024 characters
-- of the argument and leaves the segment as it is, if the calls succeed up to the write and in the
-- second run, whether or not the segment was there.
pub shm_demo-shm_demo :
    (leaves : Bool) (text : Text) (segment : Option (List ℕ))
    → Lacks 0 text
    → shm_demo calls_ok []
        (shm_demo (record calls_ok { shmdt_ok = leaves }) (text ∷ []) segment).segment
      ≡ record {
        status = 0;
        printed = some (take segment_size text);
        segment = some (strncpy segment_size text);
      }
unfolding shm_demo
shm_demo-shm_demo leaves text segment h =
    ap (λ p. record { status = 0; printed = some p; segment = some (strncpy segment_size text) })
      (c_string-strncpy segment_size text h)

abbrev pub answers_ok : Answers
answers_ok = record { writing_ok = true; reading_ok = true; shmget_ok = true; shmat_ok = true }

-- What a run whose calls succeed leaves of the segments.
abbrev lines_stored : ℕ → Ipc → Ipc
lines_stored lines ipc =
    let (id, ipc') = shmget_create line_key ipc in shmdt id (store id lines (shmat id ipc'))

again :
    (id : ℕ) (ipc : Ipc) → ipc.by_key line_key ≡ some id → shmget_create line_key ipc ≡ (id, ipc)
unfolding shmget_create
again id ipc there = rw (shmget_create, there)

opened_again :
    (semaphore : Option ℕ)
    → open_semaphore true (open_semaphore true semaphore) ≡ open_semaphore true semaphore
unfolding open_semaphore
opened_again none = refl
opened_again (some value) = refl

prepare_lines_ok :
    (lines : ℕ) (zone : Zone)
    → prepare_lines answers_ok lines zone ≡ record {
      ipc = lines_stored lines zone.ipc;
      writing = open_semaphore true zone.writing;
      reading = open_semaphore true zone.reading;
    }
unfolding prepare_lines point_at_zone create_zone
prepare_lines_ok lines zone = refl

lines_stored-IsSound : (lines : ℕ) {ipc : Ipc} → IsSound ipc → IsSound (lines_stored lines ipc)
lines_stored-IsSound lines h =
    shmdt-IsSound _ (store-IsSound _ lines (shmat-IsSound _ (shmget_create-IsSound line_key h)))

-- A segment with a process that writes it and leaves it.
visited_at :
    (id lines : ℕ) (ipc : Ipc) {s : Segment}
    → ipc.segment id ≡ some s
    → s.doomed ≡ false
    → (shmdt id (store id lines (shmat id ipc))).segment id ≡ some (record s { value = lines })
unfolding shmdt store shmat
visited_at id lines ipc {s} there live =
    rw ((==_iff id id).1 refl, there, live)
      (ap (λ n. some (record { value = lines; attached = n; doomed = false })) left_again)
  where
    left_again : suc s.attached - 1 ≡ s.attached
    left_again = omega arith

-- What can be found by the key after a run, and with which number.
pub record Found (lines id : ℕ) (ipc : Ipc) : Type 0 where
  pub by_line_key : ipc.by_key line_key ≡ some id
  pub at_id : (s : Segment) × (ipc.segment id ≡ some s) × (s.value ≡ lines)

lines_stored-Found :
    (lines : ℕ) {ipc : Ipc}
    → IsSound ipc
    → Found lines (shmget_create line_key ipc).0 (lines_stored lines ipc)
unfolding shmdt store shmat
lines_stored-Found lines {ipc} h =
    let there = shmget_create-found line_key ipc in
    let (s, at_id, live) =
      (shmget_create-IsSound line_key h).found line_key (shmget_create line_key ipc).0 there in
    record {
      by_line_key = there;
      at_id = (
        _,
        visited_at (shmget_create line_key ipc).0 lines (shmget_create line_key ipc).1 at_id live,
        refl,
      );
    }

-- When the calls succeed, a second run finds the segment of the first one, replaces the number in it
-- and leaves both semaphores as they were after the first.
pub prepare_lines_twice :
    (first second : ℕ) (zone : Zone)
    → IsSound zone.ipc
    → (id : ℕ) × Found first id (prepare_lines answers_ok first zone).ipc
      × Found second id (prepare_lines answers_ok second (prepare_lines answers_ok first zone)).ipc
      × ((prepare_lines answers_ok second (prepare_lines answers_ok first zone)).writing
          ≡ (prepare_lines answers_ok first zone).writing)
      × ((prepare_lines answers_ok second (prepare_lines answers_ok first zone)).reading
          ≡ (prepare_lines answers_ok first zone).reading)
prepare_lines_twice first second zone h =
    let once = lines_stored-Found first h in
    let same =
      again (shmget_create line_key zone.ipc).0 (lines_stored first zone.ipc) once.by_line_key in
    let twice = lines_stored-Found second (lines_stored-IsSound first h) in
    (
      (shmget_create line_key zone.ipc).0,
      rw (prepare_lines_ok first zone) once,
      rw (prepare_lines_ok first zone, prepare_lines_ok second _)
          (subst (λ id. Found second id (lines_stored second (lines_stored first zone.ipc)))
            (ap (λ p. p.0) same) twice),
      rw (prepare_lines_ok first zone, prepare_lines_ok second _) (opened_again zone.writing),
      rw (prepare_lines_ok first zone, prepare_lines_ok second _) (opened_again zone.reading),
    )
