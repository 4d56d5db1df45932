-- ===== src/Experiments/Segments.antt =====
-- examples/inicializador.c and examples/shmdemo.c: the trial programs on System V segments.
pub mod Laws
use so_pr2_synchronization.Base.{
  ℕ, zero, suc, ◌<◌, Bool, true, false, Option, none, some, List, [], ◌∷◌, Text, if◌then◌else◌,
}
use so_pr2_synchronization.Ipc.{Ipc, shmget_create, shmat, store, shmdt}
use so_pr2_synchronization.Files.{c_string}

-- What inicializador.c shares with later programs: the segments, and the values of the semaphores
-- "/semaforoEscritura" and "/semaforoLectura", where they exist.
pub record Zone : Type 0 where
  pub ipc : Ipc
  pub writing : Option ℕ
  pub reading : Option ℕ

-- Which calls succeed.
pub record Answers : Type 0 where
  pub writing_ok : Bool
  pub reading_ok : Bool
  pub shmget_ok : Bool
  pub shmat_ok : Bool

-- `sem_open(name, O_CREAT, 0644, 1)`: a semaphore that exists keeps its value.
unfoldable pub open_semaphore : Bool → Option ℕ → Option ℕ
open_semaphore false semaphore = semaphore
open_semaphore true none = some 1
open_semaphore true (some value) = some value

-- `crearZonaMemoriaCompartida`: `none` is -1.
unfoldable pub create_zone : Answers → ℕ → Ipc → Option ℕ × Ipc
create_zone answers key ipc =
    let (id, ipc') = shmget_create key ipc in
    if answers.shmget_ok then (some id, ipc') else (none, ipc)

-- `apuntarZonaMemoriaCompartida`: `none` is NULL, and a pointer is the id that it leads to.
unfoldable pub point_at_zone : Answers → ℕ → Ipc → Option ℕ × Ipc
point_at_zone answers key ipc =
    let (zone, ipc') = create_zone answers key ipc in
    elim zone [
      | none ↦ (none, ipc')
      | some id ↦ if answers.shmat_ok then (some id, shmat id ipc') else (none, ipc')
    ]

abbrev pub line_key : ℕ
line_key = 5678

-- `main`, which has the status 0 in every case: `lines` is what the variable `lineas` happens to
-- hold, which is never set. The end of the process leaves the segment.
unfoldable pub prepare_lines : Answers → (lines : ℕ) → Zone → Zone
prepare_lines answers lines zone =
    let (pointer, ipc') = point_at_zone answers line_key zone.ipc in
    let writing' = open_semaphore answers.writing_ok zone.writing in
    let reading' = open_semaphore answers.reading_ok zone.reading in
    elim pointer [
      | none ↦ record { ipc = ipc'; writing = writing'; reading = reading' }
      | some id ↦ record {
        ipc = shmdt id (store id lines ipc');
        writing = writing';
        reading = reading';
      }
    ]

-- `strncpy` of so many bytes
unfoldable pub strncpy : ℕ → Text → List ℕ
strncpy zero text = []
strncpy (suc n) [] = 0 ∷ strncpy n []
strncpy (suc n) (c ∷ text) = c ∷ strncpy n text

-- Which calls of shmdemo.c succeed.
pub record Calls : Type 0 where
  pub ftok_ok : Bool
  pub shmget_ok : Bool
  pub shmat_ok : Bool
  pub shmdt_ok : Bool

-- The end of shmdemo.c: its status, what it prints of the segment or of its argument, and the bytes
-- of the segment, if it exists.
pub record Demo : Type 0 where
  pub status : ℕ
  pub printed : Option Text
  pub segment : Option (List ℕ)

abbrev pub segment_size : ℕ
segment_size = 1024

-- A new segment is filled with zeros.
abbrev pub created : Option (List ℕ) → List ℕ
created none = strncpy segment_size []
created (some bytes) = bytes

-- `main` with its arguments after the name of the program. The page of a segment ends in zeros, so
-- that a text that fills the segment is printed up to its end.
unfoldable pub shm_demo : Calls → List Text → Option (List ℕ) → Demo
shm_demo calls (first ∷ second ∷ more) segment = record {
  status = 1;
  printed = none;
  segment = segment;
}
shm_demo calls (text ∷ []) segment =
    let failed : Option (List ℕ) → Demo = λ s. record { status = 1; printed = none; segment = s } in
    if calls.ftok_ok
    then if calls.shmget_ok
      then if calls.shmat_ok
        then record {
          status = if calls.shmdt_ok then 0 else 1;
          printed = some text;
          segment = some (strncpy segment_size text);
        }
        else failed (some (created segment))
      else failed segment
    else failed segment
shm_demo calls [] segment =
    let failed : Option (List ℕ) → Demo = λ s. record { status = 1; printed = none; segment = s } in
    if calls.ftok_ok
    then if calls.shmget_ok
      then if calls.shmat_ok
        then record {
          status = if calls.shmdt_ok then 0 else 1;
          printed = some (c_string (created segment));
          segment = some (created segment);
        }
        else failed (some (created segment))
      else failed segment
    else failed segment
