-- ===== src/System/Progress.antt =====
-- producer.c: a worker that has the semaphore and is about to read the memory gets to its `sem_post`.
use so_pr2_synchronization.Base.{
  ℕ, suc, ◌<◌, ◌≡◌, refl, sym, ap, ◌∙◌, subst, inl, inr, List, Option, some, Text, le-sum_below,
  Option-cases, arith,
}
use so_pr2_synchronization.Json.{Parson, IsLawful}
use so_pr2_synchronization.Files.{File, all_ok, ok, read_file, open_truncated, fill, pretty}
use so_pr2_synchronization.Files.Laws.{read_file-IsText_ok}
use so_pr2_synchronization.Algorithms.{Algorithm, search_index}
use so_pr2_synchronization.Memory.{process_name}
use so_pr2_synchronization.Worker.{
  Shared, Move, search_fails, search_finds, refuse_post, take_truncate, take_write, take_post,
  return_read, return_truncate, return_write, return_post,
}
use so_pr2_synchronization.Worker.Points.{
  Process, Pc, created, searching, take_open, returning, return_open, inside, reading,
}
use so_pr2_synchronization.Worker.Texts.{parse, array_of, on_array, take_text, give_back_text}
use so_pr2_synchronization.System.{System, pick, init, Reach, start, later}
use so_pr2_synchronization.System.Effects.{nobody_fills}
use so_pr2_synchronization.System.Safety.{Starts, Reach-Kept, reading-inside}

-- The library has the memory that it needs to write a document.
pub record CanWrite (P : Parson) : Type 0 where
  pub writes : (v : P.Value) → (t : Text) × (P.serialize_to_string v ≡ some t)
  pub writes_pretty : (v : P.Value) → (t : Text) × (P.serialize_to_string_pretty v ≡ some t)

module _ (P : Parson) (algorithm : Algorithm) (i : ℕ) where
  -- Moves of one worker while the others stand still.
  data Alone (last : Shared) (to : Pc) : Shared → Pc → Type 0 where
    stop : Alone last to last to
    go :
        {s t : Shared} {p q : Pc}
        → Move P algorithm i s p t q
        → Alone last to t q
        → Alone last to s p

  Alone-Reach :
      {n : ℕ} {r : System} {m : Shared} {q : Pc} {s : System} {p : Pc}
      → i < n
      → Reach P algorithm n r s
      → s.pc i ≡ p
      → Alone m q s.shared p
      → (u : System) × Reach P algorithm n r u × (u.shared ≡ m) × (u.pc i ≡ q)
  Alone-Reach {s = s} lt reached here stop = (s, reached, refl, here)
  Alone-Reach {s = s} lt reached here (go {t = t} {q = next} mv rest) =
      Alone-Reach lt
        (later reached
          (pick i lt (subst (λ x. Move P algorithm i s.shared x t next) (sym here) mv)))
        (ground arith) rest

  -- What is left of the critical section, and that it ends with the semaphore free.
  record Ends (s : Shared) (p : Pc) : Type 0 where
    shared : Shared
    pc : Pc
    moves : Alone shared pc s p
    outside : inside pc ≡ 0
    posted : shared.sem ≡ suc s.sem

  take-Ends : (s : Shared) (p : Process) (k : ℕ) (t : Text) → Ends s (take_open p k (some t))
  unfolding open_truncated fill
  take-Ends s p k t = record {
    shared = _;
    pc = _;
    moves = go (take_truncate all_ok refl) (go (take_write all_ok refl) (go take_post stop));
    outside = refl;
    posted = refl;
  }

  return-Ends : (s : Shared) (p : Process) (k : ℕ) (t : Text) → Ends s (return_open p k (some t))
  unfolding open_truncated fill
  return-Ends s p k t = record {
    shared = _;
    pc = _;
    moves = go (return_truncate all_ok refl) (go (return_write all_ok refl) (go return_post stop));
    outside = refl;
    posted = refl;
  }

  go-Ends : {s : Shared} {p q : Pc} → Move P algorithm i s p s q → Ends s q → Ends s p
  go-Ends mv rest = record {
    shared = rest.shared;
    pc = rest.pc;
    moves = go mv rest.moves;
    outside = rest.outside;
    posted = rest.posted;
  }

  module _ (can : CanWrite P) (contents : Option Text) {v : P.Value} {arr : List P.Value}
      (parsed : parse P contents ≡ some v) (is_array : P.value_get_array v ≡ some arr) where
    pub take_text-some :
        (k : ℕ) (p : Process) → (t : Text) × (take_text P contents k p (process_name i) ≡ some t)
    unfolding take_text
    take_text-some k p = rw (take_text, parsed, on_array, is_array) (can.writes _)

    pub give_back_text-some :
        (k : ℕ) (p : Process)
        → (t : Text) × (give_back_text P contents k p (process_name i) ≡ some t)
    unfolding give_back_text
    give_back_text-some k p = rw (give_back_text, parsed, on_array, is_array) (can.writes _)

    reading-Ends :
        (s : Shared) (p : Pc) → read_file P all_ok s.memory ≡ ok contents → reading p ≡ 1 → Ends s p
    reading-Ends s (searching p) e at =
        elim (Option-cases (search_index P (array_of P contents) p.process_size algorithm)) [
          | inl absent ↦ record {
            shared = _;
            pc = _;
            moves = go (search_fails all_ok contents e absent) (go refuse_post stop);
            outside = refl;
            posted = refl;
          }
          | inr (k, found) ↦
              let (t, text) = take_text-some k p in
              go-Ends (search_finds all_ok contents e found)
                (subst (λ x. Ends s (take_open p k x)) (sym text) (take-Ends s p k t))
        ]
    reading-Ends s (returning p k) e at =
        let (t, text) = give_back_text-some k p in
        go-Ends (return_read all_ok contents e)
          (subst (λ x. Ends s (return_open p k x)) (sym text) (return-Ends s p k t))
    reading-Ends s created e at = absurd (omega arith)
    reading-Ends s p e at = absurd (omega arith)

module _ (P : Parson) (L : IsLawful P) (can : CanWrite P) (algorithm : Algorithm) {count n : ℕ}
    {capacity : ℕ → ℕ} {memory on_waiting : File} (starts : Starts P count capacity memory) where
  -- If the library can write every document, a worker of a reachable state that is about to read the
  -- memory can move on alone, with system calls that succeed, to a state in which it has posted the
  -- semaphore.
  pub section_ends :
      {s : System}
      → Reach P algorithm n (init memory on_waiting) s
      → (i : ℕ) → i < n
      → reading (s.pc i) ≡ 1
      → (u : System) × Reach P algorithm n s u × (inside (u.pc i) ≡ 0) × (u.shared.sem ≡ 1)
  section_ends {s} reached i lt at =
      let inv = (Reach-Kept P L algorithm starts reached).inv in
      let (within, quiet) = reading-inside (s.pc i) at in
      let st = inv.stored (nobody_fills inv i lt within quiet) in
      let r = st.represents in
      let (u, shown) = can.writes_pretty r.value in
      let parsed : parse P (pretty P st.text) ≡ some r.value =
        rw (pretty, r.parses) (rw shown (L.parse-pretty r.value u shown)) in
      let ends =
        reading-Ends P algorithm i can (pretty P st.text) parsed r.is_array s.shared (s.pc i)
          (read_file-IsText_ok P st.is_text) at in
      let (last, moved, shared_is, pc_is) = Alone-Reach P algorithm i lt start refl ends.moves in
      (
        last,
        moved,
        ap inside pc_is ∙ ends.outside,
        ap (λ (m : Shared). m.sem) shared_is
            ∙ ends.posted
            ∙ omega (arith, inv.one_inside, le-sum_below n (λ x. inside (s.pc x)) i lt, within),
      )
