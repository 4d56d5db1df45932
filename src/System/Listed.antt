-- ===== src/System/Listed.antt =====
-- producer.c: the documents that are written to the waiting list.
use so_pr2_synchronization.Base.{
  ℕ, ◌<◌, ◌≡◌, ◌⊎◌, sym, ap, ◌∙◌, subst, inl, inr, List, [], Option, some, Text, Lacks, total,
  Option-cases, arith,
}
use so_pr2_synchronization.Json.{Parson, IsLawful}
use so_pr2_synchronization.Files.{File, Syscalls, ok, read_file, fill, pretty}
use so_pr2_synchronization.Files.Laws.{IsText, fill-IsText, read_file-IsText}
use so_pr2_synchronization.Worker.{Shared}
use so_pr2_synchronization.Worker.Points.{
  Pc, list_open, list_fill, unlist_open, unlist_fill, take_open, take_fill, return_open,
  return_fill,
}
use so_pr2_synchronization.Worker.Texts.{parse, on_object, enlist, delist}
use so_pr2_synchronization.System.Progress.{CanWrite}

-- Between the two halves of a write of the waiting list.
abbrev pub list_filling : Pc → ℕ
list_filling (list_fill _ _) = 1
list_filling (unlist_fill _ _) = 1
list_filling _ = 0

module _ (P : Parson) where
  -- The file holds a text of some document.
  pub record IsDocument (file : File) : Type 0 where
    pub text : Text
    pub is_text : IsText text file
    pub value : P.Value
    pub parses : P.parse_string text ≡ some value

  -- A text that can be written and read again.
  pub record IsReady (t : Option Text) : Type 0 where
    pub text : Text
    pub is_some : t ≡ some text
    pub no_nul : Lacks 0 text
    pub value : P.Value
    pub parses : P.parse_string text ≡ some value

  -- What a worker is about to write is no NULL.
  abbrev pub IsWriting : Pc → Type 0
  IsWriting (list_open p t) = IsReady t
  IsWriting (list_fill p t) = IsReady t
  IsWriting (unlist_open p t) = IsReady t
  IsWriting (unlist_fill p t) = IsReady t
  IsWriting (take_open p k t) = (text : Text) × (t ≡ some text)
  IsWriting (take_fill p k t) = (text : Text) × (t ≡ some text)
  IsWriting (return_open p k t) = (text : Text) × (t ≡ some text)
  IsWriting (return_fill p k t) = (text : Text) × (t ≡ some text)
  IsWriting _ = Unit

  pub record Live (n : ℕ) (s : Shared) (pc : ℕ → Pc) : Type 0 where
    pub listed : (s.on_waiting ≡ some []) ⊎ IsDocument s.on_waiting
    pub full : total list_filling n pc ≡ 0 → IsDocument s.on_waiting
    pub writing : (i : ℕ) → i < n → IsWriting (pc i)

module _ (P : Parson) (L : IsLawful P) (can : CanWrite P) where
  value-IsReady : (v : P.Value) → IsReady P (P.serialize_to_string v)
  value-IsReady v =
      let (text, e) = can.writes v in
      record {
        text = text;
        is_some = e;
        no_nul = L.serialize-Lacks v text e;
        value = v;
        parses = L.parse-serialize v text e;
      }

  changed-IsReady :
      (change : P.Object → P.Object) (v : P.Value)
      → (w : P.Value) × (on_object P change (some v) ≡ some w)
  changed-IsReady change v = elim (Option-cases (P.value_get_object v)) [
    | inl other ↦ (v, rw (on_object, other))
    | inr (o, there) ↦ (P.of_object (change o), rw (on_object, there))
  ]

  empty_exits :
      (calls : Syscalls) {contents : Option Text} → read_file P calls (some []) ≡ ok contents → ⊥
  unfolding read_file
  empty_exits calls e = ground arith

  -- What is read from the waiting list, and the two texts that are made of it.
  pub read-parses :
      (calls : Syscalls) {file : File} {contents : Option Text}
      → (file ≡ some []) ⊎ IsDocument P file
      → read_file P calls file ≡ ok contents
      → (v : P.Value) × (parse P contents ≡ some v)
  unfolding read_file
  read-parses calls (inl empty) e = absurd (empty_exits calls (rw empty at e))
  read-parses calls {contents = contents} (inr d) e =
      let (u, shown) = can.writes_pretty d.value in
      let what : contents ≡ some u =
        read_file-IsText P calls d.is_text e ∙ rw (pretty, d.parses) shown in
      (d.value, rw what (L.parse-pretty d.value u shown))

  pub enlist-IsReady :
      (contents : Option Text) (name : Text) {v : P.Value}
      → parse P contents ≡ some v
      → IsReady P (enlist P contents name)
  unfolding enlist
  enlist-IsReady contents name {v} e =
      let (w, made) = changed-IsReady (λ o. P.object_set_null o name) v in
      rw (enlist, e, made) (value-IsReady w)

  pub delist-IsReady :
      (contents : Option Text) (name : Text) {v : P.Value}
      → parse P contents ≡ some v
      → IsReady P (delist P contents name)
  unfolding delist
  delist-IsReady contents name {v} e =
      let (w, made) = changed-IsReady (λ o. P.object_remove o name) v in
      rw (delist, e, made) (value-IsReady w)

  some_bytes :
      {file : File} → (file ≡ some []) ⊎ IsDocument P file → (bytes : List ℕ) × (file ≡ some bytes)
  some_bytes (inl empty) = ([], empty)
  some_bytes (inr d) = (d.is_text.bytes, d.is_text.is_there)

  pub fill-IsDocument :
      (calls : Syscalls) (t : Option Text) {file f : File}
      → IsReady P t
      → (file ≡ some []) ⊎ IsDocument P file
      → fill calls t file ≡ (ok tt, f)
      → IsDocument P f
  fill-IsDocument calls t {f = f} ready old e =
      let (bytes, there) = some_bytes old in
      let filled : fill calls (some ready.text) (some bytes) ≡ (ok tt, f) =
        ap (λ x. fill calls x (some bytes)) (sym ready.is_some)
        ∙ ap (λ y. fill calls t y) (sym there)
        ∙ e in
      record {
        text = ready.text;
        is_text =
            subst (IsText ready.text) (ap (λ r. r.1) filled)
              (fill-IsText calls ready.text bytes ready.no_nul (ap (λ r. r.0) filled));
        value = ready.value;
        parses = ready.parses;
      }
