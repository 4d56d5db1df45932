-- ===== src/System/Naming.antt =====
-- producer.c: the waiting list and the names in it, before and after a step of a worker.
use so_pr2_synchronization.Base.{
  ℕ, zero, suc, ◌≤◌, ◌<◌, ◌≡◌, ◌≢◌, refl, sym, ap, ◌∙◌, subst, inl, inr, Bool, true, false, List,
  Option, none, some, Text, Lacks, update, total, total-update, pair-le-sum_below, sum_below,
  dec_lt, Option-cases, arith,
}
use so_pr2_synchronization.Json.{Parson, IsLawful}
use so_pr2_synchronization.Files.{File, Syscalls, ok, read_file, fill, pretty}
use so_pr2_synchronization.Files.Laws.{IsText, fill-IsText, read_file-IsText}
use so_pr2_synchronization.Memory.{process_name}
use so_pr2_synchronization.Worker.{Shared}
use so_pr2_synchronization.Worker.Points.{
  Pc, created, list_open, list_fill, waiting, unlisting, unlist_open, unlist_fill,
}
use so_pr2_synchronization.Worker.Texts.{parse, serialize, on_object}
use so_pr2_synchronization.System.Effects.{at_update}
use so_pr2_synchronization.System.Listed.{list_filling}

-- Between the read of the waiting list and the end of its write.
abbrev pub list_changing : Pc → ℕ
list_changing (list_open _ _) = 1
list_changing (list_fill _ _) = 1
list_changing (unlist_open _ _) = 1
list_changing (unlist_fill _ _) = 1
list_changing _ = 0

-- From the end of its own write of the list to the end of the write that takes it off.
abbrev pub is_listed : Pc → Bool
is_listed (waiting _) = true
is_listed (unlisting _) = true
is_listed (unlist_open _ _) = true
is_listed (unlist_fill _ _) = true
is_listed _ = false

module _ (P : Parson) where
  open P use {Value, Object, value_get_object, object_has_value, object_set_null, object_remove}

  -- A text that, if it is one, is that of an object.
  abbrev pub Writes : Option Text → Object → Type 0
  Writes t o =
      (text : Text)
      → t ≡ some text
      → Lacks 0 text × (v : Value) × (P.parse_string text ≡ some v) × (value_get_object v ≡ some o)

  -- What a worker is about to write is the present list with its change.
  abbrev pub IsChange : ℕ → Object → Pc → Type 0
  IsChange id o (list_open p t) = Writes t (object_set_null o (process_name id))
  IsChange id o (list_fill p t) = Writes t (object_set_null o (process_name id))
  IsChange id o (unlist_open p t) = Writes t (object_remove o (process_name id))
  IsChange id o (unlist_fill p t) = Writes t (object_remove o (process_name id))
  IsChange id o _ = Unit

  -- The file holds the text of an object.
  pub record HoldsList (file : File) (o : Object) : Type 0 where
    pub text : Text
    pub is_text : IsText text file
    pub value : Value
    pub parses : P.parse_string text ≡ some value
    pub is_object : value_get_object value ≡ some o

  pub record Naming (n : ℕ) (s : Shared) (pc : ℕ → Pc) (o : Object) : Type 0 where
    pub names : (i : ℕ) → i < n → object_has_value o (process_name i) ≡ is_listed (pc i)
    pub alone : total list_changing n pc ≤ 1
    pub present : (bytes : List ℕ) × (s.on_waiting ≡ some bytes)
    pub held : total list_filling n pc ≡ 0 → HoldsList s.on_waiting o
    pub changes : (i : ℕ) → i < n → IsChange i o (pc i)

unchanging-IsChange :
    (P : Parson) (id : ℕ) (o o' : P.Object) (p : Pc)
    → list_changing p ≡ 0
    → IsChange P id o p
    → IsChange P id o' p
unchanging-IsChange P id o o' created e h = tt
unchanging-IsChange P id o o' (list_open p t) e h = absurd (omega arith)
unchanging-IsChange P id o o' (list_fill p t) e h = absurd (omega arith)
unchanging-IsChange P id o o' (unlist_open p t) e h = absurd (omega arith)
unchanging-IsChange P id o o' (unlist_fill p t) e h = absurd (omega arith)
unchanging-IsChange P id o o' p e h = tt

filling-le-changing : (p : Pc) → list_filling p ≤ list_changing p
filling-le-changing created = omega arith
filling-le-changing p = omega arith

pub total-filling_le : (n : ℕ) (pc : ℕ → Pc) → total list_filling n pc ≤ total list_changing n pc
unfolding sum_below
total-filling_le zero pc = omega arith
total-filling_le (suc n) pc = omega (arith, total-filling_le n pc, filling-le-changing (pc n))

module _ (P : Parson) (L : IsLawful P) where
  open P use {Value, Object, value_get_object, object_has_value, object_set_null, object_remove}

  serialize-Writes :
      (v : Value) (o : Object) → value_get_object v ≡ some o → Writes P (P.serialize_to_string v) o
  serialize-Writes v o e text shown =
      (L.serialize-Lacks v text shown, v, L.parse-serialize v text shown, e)

  -- A text made from what is read of the list.
  pub change-Writes :
      (calls : Syscalls) {file : File} {o : Object} {contents : Option Text}
      (change : Object → Object)
      → HoldsList P file o
      → read_file P calls file ≡ ok contents
      → Writes P (serialize P (on_object P change (parse P contents))) (change o)
  change-Writes calls {contents = contents} change h e =
      let read = read_file-IsText P calls h.is_text e in
      elim (Option-cases (P.serialize_to_string_pretty h.value)) [
        | inl null ↦
            let what : contents ≡ none = read ∙ rw (pretty, h.parses) null in
            rw what (λ text shown. cc)
        | inr (u, shown) ↦
            let what : contents ≡ some u = read ∙ rw (pretty, h.parses) shown in
            rw (what, parse, L.parse-pretty h.value u shown, on_object, h.is_object)
              (serialize-Writes _ _ (L.get_object-of_object _))
      ]

  pub fill-HoldsList :
      (calls : Syscalls) (t : Option Text) (bytes : List ℕ) {f : File} {o : Object}
      → fill calls t (some bytes) ≡ (ok tt, f)
      → Writes P t o
      → HoldsList P f o
  unfolding fill
  fill-HoldsList calls none bytes e writes = cc
  fill-HoldsList calls (some t) bytes e writes =
      let (no_nul, v, parses, is_object) = writes t refl in
      record {
        text = t;
        is_text =
            subst (IsText t) (ap (λ r. r.1) e) (fill-IsText calls t bytes no_nul (ap (λ r. r.0) e));
        value = v;
        parses = parses;
        is_object = is_object;
      }

module _ (P : Parson) {n : ℕ} {s : Shared} {pc : ℕ → Pc} {o : P.Object} (naming : Naming P n s pc o)
    (i : ℕ) (lt : i < n) where
  -- A step after which the list is still that of `o`.
  same-Naming :
      (m : Shared) {from : Pc} (p : Pc)
      → pc i ≡ from
      → is_listed from ≡ is_listed p
      → total list_changing n (update pc i p) ≤ 1
      → (bytes : List ℕ) × (m.on_waiting ≡ some bytes)
      → (total list_filling n (update pc i p) ≡ 0 → HoldsList P m.on_waiting o)
      → IsChange P i o p
      → Naming P n m (update pc i p) o
  same-Naming m p here listed alone present held change = record {
    names =
        at_update (λ j q. P.object_has_value o (process_name j) ≡ is_listed q) i p
          (naming.names i lt ∙ ap is_listed here ∙ listed) (λ j h ne. naming.names j h);
    alone = alone;
    present = present;
    held = held;
    changes = at_update (λ j q. IsChange P j o q) i p change (λ j h ne. naming.changes j h);
  }

  -- A step that leaves the file of the list alone.
  pub quiet-Naming :
      (m : Shared) {from : Pc} (p : Pc)
      → pc i ≡ from
      → is_listed from ≡ is_listed p
      → list_filling from ≡ list_filling p
      → m.on_waiting ≡ s.on_waiting
      → total list_changing n (update pc i p) ≤ 1
      → IsChange P i o p
      → Naming P n m (update pc i p) o
  quiet-Naming m p here listed fills same alone change =
      same-Naming m p here listed alone (naming.present.0, same ∙ naming.present.1)
        (λ nobody.
          subst (λ f. HoldsList P f o) (sym same)
            (naming.held (
              omega (
                arith,
                total-update list_filling n pc i p lt,
                ap list_filling here,
                fills,
                nobody,
              ))))
        change

  pub truncated-Naming :
      (f : File) {from : Pc} (p : Pc)
      → pc i ≡ from
      → is_listed from ≡ is_listed p
      → list_filling from ≡ 0
      → list_filling p ≡ 1
      → (bytes : List ℕ) × (f ≡ some bytes)
      → total list_changing n (update pc i p) ≤ 1
      → IsChange P i o p
      → Naming P n (record s { on_waiting = f }) (update pc i p) o
  truncated-Naming f p here listed before after present alone change =
      same-Naming _ p here listed alone present
        (λ nobody. absurd (
          omega (
            arith,
            total-update list_filling n pc i p lt,
            ap list_filling here,
            before,
            after,
            nobody,
          )))
        change

  -- The step that completes a change of the list.
  pub written-Naming :
      (f : File) {from : Pc} (p : Pc) (o' : P.Object)
      → pc i ≡ from
      → list_changing from ≡ 1
      → total list_changing n (update pc i p) ≤ 1
      → HoldsList P f o'
      → P.object_has_value o' (process_name i) ≡ is_listed p
      → ((j : ℕ)
          → i ≢ j
          → P.object_has_value o' (process_name j) ≡ P.object_has_value o (process_name j))
      → IsChange P i o' p
      → Naming P n (record s { on_waiting = f }) (update pc i p) o'
  written-Naming f p o' here changing alone list own others change = record {
    names =
        at_update (λ j q. P.object_has_value o' (process_name j) ≡ is_listed q) i p own
          (λ j h ne. others j ne ∙ naming.names j h);
    alone = alone;
    present = (list.is_text.bytes, list.is_text.is_there);
    held = λ nobody. list;
    changes =
        at_update (λ j q. IsChange P j o' q) i p change
          (λ j h ne. unchanging-IsChange P j o o' (pc j) (only_one j h ne) (naming.changes j h));
  }
    where
      only_one : (j : ℕ) → j < n → i ≢ j → list_changing (pc j) ≡ 0
      only_one j h ne = elim (dec_lt i j) [
        | yes before ↦ omega (
          arith,
          pair-le-sum_below n (λ x. list_changing (pc x)) i j before h,
          naming.alone,
          ap list_changing here,
          changing,
        )
        | no after ↦ omega (
          arith,
          pair-le-sum_below n (λ x. list_changing (pc x)) j i (omega arith) lt,
          naming.alone,
          ap list_changing here,
          changing,
        )
      ]
