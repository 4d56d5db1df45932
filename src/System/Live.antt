-- ===== src/System/Live.antt =====
-- producer.c: the waiting list and the texts of the workers, after each step.
use so_pr2_synchronization.Base.{
  ℕ, ◌<◌, ◌≡◌, ◌⊎◌, refl, sym, ap, ◌∙◌, subst, inl, inr, List, [], Option, some, Text, update,
  total-update, arith,
}
use so_pr2_synchronization.Json.{Parson, IsLawful}
use so_pr2_synchronization.Files.{File, Syscalls, ok, read_file, pretty}
use so_pr2_synchronization.Files.Laws.{open_truncated_empties, read_file-IsText}
use so_pr2_synchronization.Algorithms.{Algorithm}
use so_pr2_synchronization.Worker.{
  Shared, Move, choose, list_read, list_truncate, list_write, enter, unlist_read, unlist_truncate,
  unlist_write, search_fails, search_finds, refuse_post, take_truncate, take_write, take_post, wake,
  return_read, return_truncate, return_write, return_post,
}
use so_pr2_synchronization.Worker.Points.{Pc, inside, filling, reading}
use so_pr2_synchronization.Worker.Texts.{parse}
use so_pr2_synchronization.System.Invariant.{Inv}
use so_pr2_synchronization.System.Effects.{at_update, nobody_fills}
use so_pr2_synchronization.System.Safety.{reading-inside}
use so_pr2_synchronization.System.Listed.{
  list_filling, IsDocument, IsWriting, Live, read-parses, enlist-IsReady, delist-IsReady,
  fill-IsDocument,
}
use so_pr2_synchronization.System.Progress.{CanWrite, take_text-some, give_back_text-some}

module _ (P : Parson) {n : ℕ} {s : Shared} {pc : ℕ → Pc} (live : Live P n s pc) (i : ℕ)
    (lt : i < n) where
  -- A step that leaves the waiting list alone.
  quiet-Live :
      (t : Shared) {from : Pc} (p : Pc)
      → pc i ≡ from
      → list_filling from ≡ list_filling p
      → t.on_waiting ≡ s.on_waiting
      → IsWriting P p
      → Live P n t (update pc i p)
  quiet-Live t p here fills same ready = record {
    listed = subst (λ f. (f ≡ some []) ⊎ IsDocument P f) (sym same) live.listed;
    full = λ nobody. subst (IsDocument P) (sym same) (
        live.full (
          omega
            (arith, total-update list_filling n pc i p lt, ap list_filling here, fills, nobody)));
    writing = at_update (λ j q. IsWriting P q) i p ready (λ j h ne. live.writing j h);
  }

  truncated-Live :
      (f : File) {from : Pc} (p : Pc)
      → pc i ≡ from
      → list_filling from ≡ 0
      → list_filling p ≡ 1
      → f ≡ some []
      → IsWriting P p
      → Live P n (record s { on_waiting = f }) (update pc i p)
  truncated-Live f p here before after empty ready = record {
    listed = inl empty;
    full = λ nobody. absurd (
        omega (
          arith,
          total-update list_filling n pc i p lt,
          ap list_filling here,
          before,
          after,
          nobody,
        ));
    writing = at_update (λ j q. IsWriting P q) i p ready (λ j h ne. live.writing j h);
  }

  written-Live :
      (f : File) (p : Pc)
      → IsDocument P f
      → IsWriting P p
      → Live P n (record s { on_waiting = f }) (update pc i p)
  written-Live f p document ready = record {
    listed = inr document;
    full = λ nobody. document;
    writing = at_update (λ j q. IsWriting P q) i p ready (λ j h ne. live.writing j h);
  }

module _ (P : Parson) (L : IsLawful P) (can : CanWrite P) (algorithm : Algorithm) {count n : ℕ}
    {capacity : ℕ → ℕ} {s : Shared} {pc : ℕ → Pc} {free : ℕ → ℕ} {old processes : ℕ → P.Object}
    (inv : Inv P count n capacity old s pc free processes) (live : Live P n s pc) (i : ℕ)
    (lt : i < n) where
  -- What a worker reads from the memory.
  memory-parses :
      (calls : Syscalls) {from : Pc} {contents : Option Text}
      → pc i ≡ from
      → reading from ≡ 1
      → read_file P calls s.memory ≡ ok contents
      → (v : P.Value) × (arr : List P.Value) × (parse P contents ≡ some v)
        × (P.value_get_array v ≡ some arr)
  memory-parses calls {from} {contents} here at e =
      let (within, quiet) = reading-inside from at in
      let st =
        inv.stored (nobody_fills inv i lt (ap inside here ∙ within) (ap filling here ∙ quiet)) in
      let r = st.represents in
      let (u, shown) = can.writes_pretty r.value in
      let what : contents ≡ some u =
        read_file-IsText P calls st.is_text e ∙ rw (pretty, r.parses) shown in
      (r.value, r.arr, rw what (L.parse-pretty r.value u shown), r.is_array)

  here-IsWriting : {from : Pc} → pc i ≡ from → IsWriting P from
  here-IsWriting here = subst (IsWriting P) here (live.writing i lt)

  pub Move-Live :
      {t : Shared} {from p : Pc}
      → pc i ≡ from
      → Move P algorithm i s from t p
      → Live P n t (update pc i p)
  Move-Live here (choose a b ea eb) = quiet-Live P live i lt _ _ here refl refl tt
  Move-Live here (list_read calls contents e) =
      let (v, parsed) = read-parses P L can calls live.listed e in
      quiet-Live P live i lt _ _ here refl refl (enlist-IsReady P L can contents _ parsed)
  Move-Live here (list_truncate calls e) =
      truncated-Live P live i lt _ _ here refl refl (open_truncated_empties calls _ e)
        (here-IsWriting here)
  Move-Live here (list_write calls {t = t} e) =
      written-Live P live i lt _ _
        (fill-IsDocument P L can calls t (here-IsWriting here) live.listed e) tt
  Move-Live here (enter e) = quiet-Live P live i lt _ _ here refl refl tt
  Move-Live here (unlist_read calls contents e) =
      let (v, parsed) = read-parses P L can calls live.listed e in
      quiet-Live P live i lt _ _ here refl refl (delist-IsReady P L can contents _ parsed)
  Move-Live here (unlist_truncate calls e) =
      truncated-Live P live i lt _ _ here refl refl (open_truncated_empties calls _ e)
        (here-IsWriting here)
  Move-Live here (unlist_write calls {t = t} e) =
      written-Live P live i lt _ _
        (fill-IsDocument P L can calls t (here-IsWriting here) live.listed e) tt
  Move-Live here (search_fails calls contents e absent) =
      quiet-Live P live i lt _ _ here refl refl tt
  Move-Live here (search_finds calls {p = p} contents {mem_index = k} e found) =
      let (v, arr, parsed, is_array) = memory-parses calls here refl e in
      quiet-Live P live i lt _ _ here refl refl
        (take_text-some P algorithm i can contents parsed is_array k p)
  Move-Live here refuse_post = quiet-Live P live i lt _ _ here refl refl tt
  Move-Live here (take_truncate calls e) =
      quiet-Live P live i lt _ _ here refl refl (here-IsWriting here)
  Move-Live here (take_write calls e) = quiet-Live P live i lt _ _ here refl refl tt
  Move-Live here take_post = quiet-Live P live i lt _ _ here refl refl tt
  Move-Live here (wake e) = quiet-Live P live i lt _ _ here refl refl tt
  Move-Live here (return_read calls {p = p} {k = k} contents e) =
      let (v, arr, parsed, is_array) = memory-parses calls here refl e in
      quiet-Live P live i lt _ _ here refl refl
        (give_back_text-some P algorithm i can contents parsed is_array k p)
  Move-Live here (return_truncate calls e) =
      quiet-Live P live i lt _ _ here refl refl (here-IsWriting here)
  Move-Live here (return_write calls e) = quiet-Live P live i lt _ _ here refl refl tt
  Move-Live here return_post = quiet-Live P live i lt _ _ here refl refl tt
