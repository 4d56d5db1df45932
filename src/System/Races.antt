-- ===== src/System/Races.antt =====
-- producer.c: the waiting list, which a worker changes before it has the semaphore.
use so_pr2_synchronization.Base.{
  ℕ, ◌<◌, ◌≡◌, ◌≢◌, refl, sym, ◌∙◌, subst, [], Option, some, true, false, Text, update, update_same,
  update_other, text_eq_refl, arith, ◌⊎◌,
}
use so_pr2_synchronization.Json.{Parson, IsLawful}
use so_pr2_synchronization.Files.{
  File, Syscalls, all_ok, exit, exit_failure, read_file, open_truncated, fill, pretty,
}
use so_pr2_synchronization.Files.Laws.{IsText, fill-IsText, read_file-IsText_ok}
use so_pr2_synchronization.Algorithms.{Algorithm}
use so_pr2_synchronization.Memory.{process_name}
use so_pr2_synchronization.Memory.Names.{names_differ}
use so_pr2_synchronization.Worker.{Shared, Move, list_read, list_truncate, list_write}
use so_pr2_synchronization.Worker.Points.{
  Process, Pc, listing, list_open, list_fill, waiting, unlisting,
}
use so_pr2_synchronization.Worker.Texts.{on_object, enlist}
use so_pr2_synchronization.System.{System, Step, pick, Reach, start, later}

module _ (P : Parson) (algorithm : Algorithm) (n : ℕ) where
  -- The system after a worker has moved.
  abbrev pub moved : System → ℕ → Shared → Pc → System
  moved s i m p = record { shared = m; pc = update s.pc i p }

  pub Step-at :
      (s : System) (i : ℕ) {p p' : Pc} {m : Shared}
      → i < n
      → s.pc i ≡ p
      → Move P algorithm i s.shared p m p'
      → Step P algorithm n s (moved s i m p')
  Step-at s i {p' = p'} {m = m} lt e mv =
      pick i lt (subst (λ q. Move P algorithm i s.shared q m p') (sym e) mv)

  read_empty : (calls : Syscalls) → read_file P calls (some []) ≡ exit exit_failure
  unfolding read_file
  read_empty calls = ground arith

  -- Whenever a worker is about to rewrite the waiting list while another one, inside or outside
  -- the semaphore, is about to read it, the scheduler can let the first one truncate the file, and
  -- then the read of the other ends the whole producer, whatever the operating system answers.
  pub list_race_exits :
      (s : System) (i j : ℕ) {p q : Process} {t : Option Text}
      → i < n
      → i ≢ j
      → s.pc i ≡ list_open p t
      → (s.pc j ≡ listing q) ⊎ (s.pc j ≡ unlisting q)
      → (u : System) × Step P algorithm n s u
        × (u.pc j ≡ s.pc j)
        × ((calls : Syscalls) → read_file P calls u.shared.on_waiting ≡ exit exit_failure)
  unfolding open_truncated
  list_race_exits s i j {p} {t = t} lt ne e at = (
    moved s i (record s.shared { on_waiting = some [] }) (list_fill p t),
    Step-at s i lt e (list_truncate all_ok refl),
    update_other s.pc i j _ ne,
    read_empty,
  )

-- The file holds a text of a document that is this object.
pub record Lists (P : Parson) (file : File) (o : P.Object) : Type 0 where
  pub text : Text
  pub is_text : IsText text file
  pub value : P.Value
  pub parses : P.parse_string text ≡ some value
  pub is_object : P.value_get_object value ≡ some o

module _ (P : Parson) (L : IsLawful P) (algorithm : Algorithm) where
  -- What a worker prepares from a list that it has read.
  enlist_lem :
      {file : File} {o : P.Object} (l : Lists P file o) (name shown : Text)
      → P.serialize_to_string_pretty l.value ≡ some shown
      → enlist P (pretty P l.text) name
        ≡ P.serialize_to_string (P.of_object (P.object_set_null o name))
  unfolding enlist
  enlist_lem l name shown e =
      rw (pretty, l.parses)
        (rw e (rw (L.parse-pretty l.value shown e) (rw (on_object, l.is_object))))

  -- A text of the list as one worker has prepared it.
  prepared-Lists :
      (o : P.Object) (t : Text)
      → P.serialize_to_string (P.of_object o) ≡ some t
      → Lists P (fill all_ok (some t) (some [])).1 o
  unfolding fill
  prepared-Lists o t e = record {
    text = t;
    is_text = fill-IsText all_ok t [] (L.serialize-Lacks (P.of_object o) t e) refl;
    value = P.of_object o;
    parses = L.parse-serialize (P.of_object o) t e;
    is_object = L.get_object-of_object o;
  }

  -- The steps of one worker on the list, the text that it prepares being known.
  reading-Step :
      {n : ℕ} (s : System) (i : ℕ) {p : Process} {o : P.Object} (shown t : Text)
      → i < n
      → s.pc i ≡ listing p
      → (l : Lists P s.shared.on_waiting o) → P.serialize_to_string_pretty l.value ≡ some shown
      → P.serialize_to_string (P.of_object (P.object_set_null o (process_name i))) ≡ some t
      → Step P algorithm n s (moved P algorithm n s i s.shared (list_open p (some t)))
  reading-Step {n} s i {p} shown t lt e l es et = Step-at P algorithm n s i lt e (
      subst (λ x. Move P algorithm i s.shared (listing p) s.shared (list_open p x))
        (enlist_lem l (process_name i) shown es ∙ et)
        (list_read all_ok (pretty P l.text) (read_file-IsText_ok P l.is_text)))

  abbrev emptied : Shared → Shared
  emptied m = record m { on_waiting = some [] }

  abbrev rewritten : Shared → Text → Shared
  rewritten m t = record m { on_waiting = (fill all_ok (some t) (some [])).1 }

  writing_steps :
      {n : ℕ} (r s : System) (i : ℕ) {p : Process} (t : Text)
      → i < n
      → s.pc i ≡ list_open p (some t)
      → Reach P algorithm n r s
      → Reach P algorithm n r (
          moved P algorithm n
            (moved P algorithm n s i (emptied s.shared) (list_fill p (some t)))
            i
            (rewritten s.shared t)
            (waiting p))
  unfolding open_truncated fill
  writing_steps {n} r s i {p} t lt e reached =
      later (later reached (Step-at P algorithm n s i lt e (list_truncate all_ok refl))) (
        Step-at P algorithm n _ i lt (update_same s.pc i (list_fill p (some t)))
          (list_write all_ok refl))

  -- The entry of a worker can be lost: if two workers are about to read the waiting list, it holds an
  -- object without the name of the first, and the library can write it and what either makes of it,
  -- then some order of their steps brings both to their `sem_wait` so that the list has the entry of
  -- the second and not of the first, which waits all the same.
  pub entry_lost :
      {n : ℕ} (s : System) (i j : ℕ) {p q : Process} {o : P.Object} (shown text_i text_j : Text)
      → i < n
      → j < n
      → i ≢ j
      → s.pc i ≡ listing p
      → s.pc j ≡ listing q
      → (l : Lists P s.shared.on_waiting o) → P.serialize_to_string_pretty l.value ≡ some shown
      → P.serialize_to_string (P.of_object (P.object_set_null o (process_name i))) ≡ some text_i
      → P.serialize_to_string (P.of_object (P.object_set_null o (process_name j))) ≡ some text_j
      → P.object_has_value o (process_name i) ≡ false
      → (u : System) × Reach P algorithm n s u
        × (u.pc i ≡ waiting p)
        × (u.pc j ≡ waiting q)
        × (list : P.Object) × Lists P u.shared.on_waiting list
        × (P.object_has_value list (process_name i) ≡ false)
        × (P.object_has_value list (process_name j) ≡ true)
  entry_lost {n} s i j {p} {q} {o} shown text_i text_j hi hj ne ei ej l es eti etj fresh =
      let s1 = moved P algorithm n s j s.shared (list_open q (some text_j)) in
      let s2 = moved P algorithm n s1 i s.shared (list_open p (some text_i)) in
      let s3 = moved P algorithm n s2 i (emptied s.shared) (list_fill p (some text_i)) in
      let s4 = moved P algorithm n s3 i (rewritten s.shared text_i) (waiting p) in
      let e1 : s1.pc i ≡ listing p = ground arith in
      let e2 : s2.pc i ≡ list_open p (some text_i) = ground arith in
      let e4 : s4.pc j ≡ list_open q (some text_j) = ground arith in
      let read_both =
        later (later start (reading-Step s j shown text_j hj ej l es etj))
          (reading-Step s1 i shown text_i hi e1 l es eti) in
      let first_written = writing_steps s s2 i text_i hi e2 read_both in
      let both_written = writing_steps s s4 j text_j hj e4 first_written in
      (
        _,
        both_written,
        ground arith,
        ground arith,
        P.object_set_null o (process_name j),
        prepared-Lists (P.object_set_null o (process_name j)) text_j etj,
        rw (L.has_value-set_null, names_differ j i (λ e. ne (sym e))) fresh,
        rw (L.has_value-set_null, text_eq_refl),
      )
