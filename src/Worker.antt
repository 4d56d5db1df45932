-- ===== src/Worker.antt =====
-- producer.c: `worker_thread`, one access to shared state at a time, and the texts that it writes.
pub mod Texts
pub mod Points
pub mod Writes
use so_pr2_synchronization.Base.{ℕ, suc, ◌≡◌, Option, none, some, ℤ, pos, Text}
use so_pr2_synchronization.Json.{Parson}
use so_pr2_synchronization.Files.{
  File, Syscalls, Result, ok, read_file, open_truncated, fill, write_file,
}
use so_pr2_synchronization.Random.{random_number}
use so_pr2_synchronization.Algorithms.{Algorithm, search_index}
use so_pr2_synchronization.Memory.{process_name}
use so_pr2_synchronization.Worker.Texts.{array_of, enlist, delist, take_text, give_back_text}
use so_pr2_synchronization.Worker.Points.{
  Process, Pc, created, listing, list_open, list_fill, waiting, unlisting, unlist_open, unlist_fill,
  searching, refused, take_open, take_fill, taken, sleeping, returning, return_open, return_fill,
  returned, finished,
}

-- The semaphore `sem_find_space`, /tmp/mmapped.bin and /tmp/mmapped_pro_on_waiting.bin.
pub record Shared : Type 0 where
  pub sem : ℕ
  pub memory : File
  pub on_waiting : File

-- The functions of producer.c that read and write the files as a whole.
abbrev pub read_memory : (P : Parson) → Syscalls → Shared → Result (Option Text)
read_memory P calls s = read_file P calls s.memory

abbrev pub read_memory_processes_on_waiting :
    (P : Parson) → Syscalls → Shared → Result (Option Text)
read_memory_processes_on_waiting P calls s = read_file P calls s.on_waiting

unfoldable pub write_memory : Syscalls → Option Text → Shared → Result (Unit {0}) × Shared
write_memory calls serialized_string s =
    let (result, file) = write_file calls serialized_string s.memory in
    (result, record s { memory = file })

unfoldable pub write_memory_processes_on_waiting :
    Syscalls → Option Text → Shared → Result (Unit {0}) × Shared
write_memory_processes_on_waiting calls serialized_string s =
    let (result, file) = write_file calls serialized_string s.on_waiting in
    (result, record s { on_waiting = file })

-- One step of the worker whose thread id is `id`. A call that ends the process ends every thread
-- with it, so only calls that return make a step; System/Exits has the others. A write is two
-- steps, since another program or thread can read the file between them; the second is one step here,
-- and byte by byte in Files/Torn and System/Glimpse. `sem_wait` waits while the
-- semaphore is 0.
pub data Move (P : Parson) (algorithm : Algorithm) (id : ℕ) (s : Shared)
    : Pc → Shared → Pc → Type 0 where
  choose :
      (a b : ℕ) {process_size process_delay : ℤ}
      → random_number a (pos 1) (pos 10) ≡ some process_size
      → random_number b (pos 30) (pos 40) ≡ some process_delay
      → Move P algorithm id s created s
          (listing (record { process_size = process_size; process_delay = process_delay }))
  list_read :
      (calls : Syscalls) {p : Process} (data_waiting : Option Text)
      → read_memory_processes_on_waiting P calls s ≡ ok data_waiting
      → Move P algorithm id s (listing p) s (list_open p (enlist P data_waiting (process_name id)))
  list_truncate :
      (calls : Syscalls) {p : Process} {t : Option Text} {f : File}
      → open_truncated calls s.on_waiting ≡ (ok tt, f)
      → Move P algorithm id s (list_open p t) (record s { on_waiting = f }) (list_fill p t)
  list_write :
      (calls : Syscalls) {p : Process} {t : Option Text} {f : File}
      → fill calls t s.on_waiting ≡ (ok tt, f)
      → Move P algorithm id s (list_fill p t) (record s { on_waiting = f }) (waiting p)
  enter :
      {p : Process} {n : ℕ}
      → s.sem ≡ suc n
      → Move P algorithm id s (waiting p) (record s { sem = n }) (unlisting p)
  unlist_read :
      (calls : Syscalls) {p : Process} (data_waiting : Option Text)
      → read_memory_processes_on_waiting P calls s ≡ ok data_waiting
      → Move P algorithm id s
          (unlisting p)
          s
          (unlist_open p (delist P data_waiting (process_name id)))
  unlist_truncate :
      (calls : Syscalls) {p : Process} {t : Option Text} {f : File}
      → open_truncated calls s.on_waiting ≡ (ok tt, f)
      → Move P algorithm id s (unlist_open p t) (record s { on_waiting = f }) (unlist_fill p t)
  unlist_write :
      (calls : Syscalls) {p : Process} {t : Option Text} {f : File}
      → fill calls t s.on_waiting ≡ (ok tt, f)
      → Move P algorithm id s (unlist_fill p t) (record s { on_waiting = f }) (searching p)
  search_fails :
      (calls : Syscalls) {p : Process} (contents : Option Text)
      → read_memory P calls s ≡ ok contents
      → search_index P (array_of P contents) p.process_size algorithm ≡ none
      → Move P algorithm id s (searching p) s (refused p)
  search_finds :
      (calls : Syscalls) {p : Process} (contents : Option Text) {mem_index : ℕ}
      → read_memory P calls s ≡ ok contents
      → search_index P (array_of P contents) p.process_size algorithm ≡ some mem_index
      → Move P algorithm id s
          (searching p)
          s
          (take_open p mem_index (take_text P contents mem_index p (process_name id)))
  refuse_post :
      {p : Process} → Move P algorithm id s (refused p) (record s { sem = suc s.sem }) finished
  take_truncate :
      (calls : Syscalls) {p : Process} {k : ℕ} {t : Option Text} {f : File}
      → open_truncated calls s.memory ≡ (ok tt, f)
      → Move P algorithm id s (take_open p k t) (record s { memory = f }) (take_fill p k t)
  take_write :
      (calls : Syscalls) {p : Process} {k : ℕ} {t : Option Text} {f : File}
      → fill calls t s.memory ≡ (ok tt, f)
      → Move P algorithm id s (take_fill p k t) (record s { memory = f }) (taken p k)
  take_post :
      {p : Process} {k : ℕ}
      → Move P algorithm id s (taken p k) (record s { sem = suc s.sem }) (sleeping p k)
  wake :
      {p : Process} {k n : ℕ}
      → s.sem ≡ suc n
      → Move P algorithm id s (sleeping p k) (record s { sem = n }) (returning p k)
  return_read :
      (calls : Syscalls) {p : Process} {k : ℕ} (contents : Option Text)
      → read_memory P calls s ≡ ok contents
      → Move P algorithm id s
          (returning p k)
          s
          (return_open p k (give_back_text P contents k p (process_name id)))
  return_truncate :
      (calls : Syscalls) {p : Process} {k : ℕ} {t : Option Text} {f : File}
      → open_truncated calls s.memory ≡ (ok tt, f)
      → Move P algorithm id s (return_open p k t) (record s { memory = f }) (return_fill p k t)
  return_write :
      (calls : Syscalls) {p : Process} {k : ℕ} {t : Option Text} {f : File}
      → fill calls t s.memory ≡ (ok tt, f)
      → Move P algorithm id s (return_fill p k t) (record s { memory = f }) (returned p k)
  return_post :
      {p : Process} {k : ℕ}
      → Move P algorithm id s (returned p k) (record s { sem = suc s.sem }) finished
