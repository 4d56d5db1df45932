-- ===== src/System/Waiting.antt =====
-- producer.c: whom the waiting list names, when no two workers change it at the same time.
use so_pr2_synchronization.Base.{
  [], ℕ, ◌≤◌, ◌<◌, ◌≡◌, refl, ap, ◌∙◌, subst, true, false, text_eq, Option, Text, update, total,
  total-update, sum_below-eq_zero, text_eq_refl, arith,
}
use so_pr2_synchronization.Json.{Parson, IsLawful}
use so_pr2_synchronization.Files.{File, Syscalls, ok, read_file}
use so_pr2_synchronization.Algorithms.{Algorithm}
use so_pr2_synchronization.Memory.{process_name}
use so_pr2_synchronization.Memory.Names.{names_differ}
use so_pr2_synchronization.Worker.{
  Shared, Move, choose, list_read, list_truncate, list_write, enter, unlist_read, unlist_truncate,
  unlist_write, search_fails, search_finds, refuse_post, take_truncate, take_write, take_post, wake,
  return_read, return_truncate, return_write, return_post,
}
use so_pr2_synchronization.Worker.Points.{Pc}
use so_pr2_synchronization.Worker.Texts.{parse, serialize, on_object, enlist, delist}
use so_pr2_synchronization.System.{System, Step, pick, init}
use so_pr2_synchronization.System.Naming.{
  list_changing, is_listed, Writes, IsChange, HoldsList, Naming, total-filling_le, change-Writes,
  fill-HoldsList, quiet-Naming, truncated-Naming, written-Naming,
}
use so_pr2_synchronization.Files.Laws.{open_truncated_empties}
use so_pr2_synchronization.System.Listed.{list_filling}

-- What a step of a worker makes of the object that the list is.
data Renames (P : Parson) (id : ℕ) (o : P.Object) : P.Object → Type 0 where
  unchanged : Renames P id o o
  enters : Renames P id o (P.object_set_null o (process_name id))
  leaves : Renames P id o (P.object_remove o (process_name id))

-- A text that is the name of none of the workers.
abbrev pub IsStranger : ℕ → Text → Type 0
IsStranger n k = (i : ℕ) → i < n → text_eq (process_name i) k ≡ false

-- The other names in the list are those at the start.
abbrev pub KeepsStrangers : (P : Parson) → ℕ → (first o : P.Object) → Type 0
KeepsStrangers P n first o =
    (k : Text) → IsStranger n k → P.object_has_value o k ≡ P.object_has_value first k

Renames-KeepsStrangers :
    (P : Parson) (L : IsLawful P) {n id : ℕ} {first o o' : P.Object}
    → id < n
    → Renames P id o o'
    → KeepsStrangers P n first o
    → KeepsStrangers P n first o'
Renames-KeepsStrangers P L lt unchanged h k other = h k other
Renames-KeepsStrangers P L {id = id} {o = o} lt enters h k other =
    L.has_value-set_null o (process_name id) k ∙ rw (other id lt) (h k other)
Renames-KeepsStrangers P L {id = id} {o = o} lt leaves h k other =
    L.has_value-remove o (process_name id) k ∙ rw (other id lt) (h k other)

-- Runs in which at most one worker at a time changes the list.
pub data Orderly (P : Parson) (algorithm : Algorithm) (n : ℕ) (s : System) : System → Type 0 where
  begin : Orderly P algorithm n s s
  next :
      {t u : System}
      → Orderly P algorithm n s t
      → Step P algorithm n t u
      → total list_changing n u.pc ≤ 1
      → Orderly P algorithm n s u

module _ (P : Parson) (L : IsLawful P) (algorithm : Algorithm) {n : ℕ} {s : Shared} {pc : ℕ → Pc}
    {o : P.Object} (naming : Naming P n s pc o) (i : ℕ) (lt : i < n) where
  open P use {Object, object_has_value, object_set_null, object_remove}

  -- A worker that is to read the list, when nobody changes it.
  read-Writes :
      (calls : Syscalls) {contents : Option Text} (change : Object → Object) {from : Pc} (p : Pc)
      → pc i ≡ from
      → list_changing from ≡ 0
      → list_changing p ≡ 1
      → total list_changing n (update pc i p) ≤ 1
      → read_file P calls s.on_waiting ≡ ok contents
      → Writes P (serialize P (on_object P change (parse P contents))) (change o)
  read-Writes calls change p here before after alone e =
      change-Writes P L calls change
        (naming.held (
          omega (
            arith,
            total-filling_le n pc,
            total-update list_changing n pc i p lt,
            ap list_changing here,
            before,
            after,
            alone,
          )))
        e

  here-IsChange : {from : Pc} → pc i ≡ from → IsChange P i o from
  here-IsChange here = subst (IsChange P i o) here (naming.changes i lt)

  name_entered : object_has_value (object_set_null o (process_name i)) (process_name i) ≡ true
  name_entered =
      L.has_value-set_null o (process_name i) (process_name i) ∙ rw (text_eq_refl (process_name i))

  name_removed : object_has_value (object_remove o (process_name i)) (process_name i) ≡ false
  name_removed =
      L.has_value-remove o (process_name i) (process_name i) ∙ rw (text_eq_refl (process_name i))

  -- What a step makes of the list.
  abbrev Renamed : Shared → Pc → Type 0
  Renamed t p = (o' : Object) × Renames P i o o' × Naming P n t (update pc i p) o'

  Move-Naming :
      {t : Shared} {from p : Pc}
      → pc i ≡ from
      → Move P algorithm i s from t p
      → total list_changing n (update pc i p) ≤ 1
      → Renamed t p
  unfolding enlist delist
  Move-Naming here (choose a b ea eb) alone =
      (o, unchanged, quiet-Naming P naming i lt _ _ here refl refl refl alone tt)
  Move-Naming here (list_read calls contents e) alone = (
    o,
    unchanged,
    quiet-Naming P naming i lt _ _ here refl refl refl alone
        (read-Writes calls (λ x. object_set_null x (process_name i)) _ here refl refl alone e),
  )
  Move-Naming here (list_truncate calls e) alone = (
    o,
    unchanged,
    truncated-Naming P naming i lt _ _ here refl refl refl ([], open_truncated_empties calls _ e)
        alone (here-IsChange here),
  )
  Move-Naming here (list_write calls {t = t} {f = f} e) alone = (
    object_set_null o (process_name i),
    enters,
    written-Naming P naming i lt f _ _ here refl alone
        (fill-HoldsList P L calls t naming.present.0 (rw naming.present.1 at e)
          (here-IsChange here))
        name_entered
        (λ j ne.
          L.has_value-set_null o (process_name i) (process_name j) ∙ rw (names_differ i j ne))
        tt,
  )
  Move-Naming here (enter e) alone =
      (o, unchanged, quiet-Naming P naming i lt _ _ here refl refl refl alone tt)
  Move-Naming here (unlist_read calls contents e) alone = (
    o,
    unchanged,
    quiet-Naming P naming i lt _ _ here refl refl refl alone
        (read-Writes calls (λ x. object_remove x (process_name i)) _ here refl refl alone e),
  )
  Move-Naming here (unlist_truncate calls e) alone = (
    o,
    unchanged,
    truncated-Naming P naming i lt _ _ here refl refl refl ([], open_truncated_empties calls _ e)
        alone (here-IsChange here),
  )
  Move-Naming here (unlist_write calls {t = t} {f = f} e) alone = (
    object_remove o (process_name i),
    leaves,
    written-Naming P naming i lt f _ _ here refl alone
        (fill-HoldsList P L calls t naming.present.0 (rw naming.present.1 at e)
          (here-IsChange here))
        name_removed
        (λ j ne. L.has_value-remove o (process_name i) (process_name j) ∙ rw (names_differ i j ne))
        tt,
  )
  Move-Naming here (search_fails calls contents e absent) alone =
      (o, unchanged, quiet-Naming P naming i lt _ _ here refl refl refl alone tt)
  Move-Naming here (search_finds calls contents e found) alone =
      (o, unchanged, quiet-Naming P naming i lt _ _ here refl refl refl alone tt)
  Move-Naming here refuse_post alone =
      (o, unchanged, quiet-Naming P naming i lt _ _ here refl refl refl alone tt)
  Move-Naming here (take_truncate calls e) alone =
      (o, unchanged, quiet-Naming P naming i lt _ _ here refl refl refl alone tt)
  Move-Naming here (take_write calls e) alone =
      (o, unchanged, quiet-Naming P naming i lt _ _ here refl refl refl alone tt)
  Move-Naming here take_post alone =
      (o, unchanged, quiet-Naming P naming i lt _ _ here refl refl refl alone tt)
  Move-Naming here (wake e) alone =
      (o, unchanged, quiet-Naming P naming i lt _ _ here refl refl refl alone tt)
  Move-Naming here (return_read calls contents e) alone =
      (o, unchanged, quiet-Naming P naming i lt _ _ here refl refl refl alone tt)
  Move-Naming here (return_truncate calls e) alone =
      (o, unchanged, quiet-Naming P naming i lt _ _ here refl refl refl alone tt)
  Move-Naming here (return_write calls e) alone =
      (o, unchanged, quiet-Naming P naming i lt _ _ here refl refl refl alone tt)
  Move-Naming here return_post alone =
      (o, unchanged, quiet-Naming P naming i lt _ _ here refl refl refl alone tt)

module _ (P : Parson) (L : IsLawful P) (algorithm : Algorithm) {n : ℕ} {memory on_waiting : File}
    {first : P.Object} (list : HoldsList P on_waiting first)
    (nobody : (i : ℕ) → i < n → P.object_has_value first (process_name i) ≡ false) where
  pub Orderly-Naming :
      {s : System}
      → Orderly P algorithm n (init memory on_waiting) s
      → (o : P.Object) × KeepsStrangers P n first o × Naming P n s.shared s.pc o
  Orderly-Naming begin = (
    first,
    λ k other. refl,
    record {
      names = nobody;
      alone = omega (arith, sum_below-eq_zero n {f = λ _. 0} (λ j h. refl));
      present = (list.is_text.bytes, list.is_text.is_there);
      held = λ none_writes. list;
      changes = λ i h. tt;
    },
  )
  Orderly-Naming (next orderly (pick i lt mv) alone) =
      let (o, kept, naming) = Orderly-Naming orderly in
      let (o', renames, after) = Move-Naming P L algorithm naming i lt refl mv alone in
      (o', Renames-KeepsStrangers P L lt renames kept, after)

  -- If the waiting list is an object without the names of the workers at the start, and at most one
  -- worker at a time is between its read of the list and the end of its write, then the list, while
  -- nobody writes it, names exactly the workers that have entered themselves and have not yet taken
  -- themselves off.
  pub waiting_list_exact :
      {s : System}
      → Orderly P algorithm n (init memory on_waiting) s
      → total list_filling n s.pc ≡ 0
      → (o : P.Object) × HoldsList P s.shared.on_waiting o
        × ((i : ℕ) → i < n → P.object_has_value o (process_name i) ≡ is_listed (s.pc i))
  waiting_list_exact orderly none_writes =
      let (o, kept, naming) = Orderly-Naming orderly in (o, naming.held none_writes, naming.names)
