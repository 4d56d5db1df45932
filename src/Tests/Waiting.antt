-- ===== src/Tests/Waiting.antt =====
-- producer.c: one of two workers that enters itself in the waiting list.
use so_pr2_synchronization.Base.{
  some, [], ◌∷◌, Text, ℕ, ◌<◌, ◌≡◌, refl, false, arith, sum_below, ◌+ℤ◌, ◌-ℤ◌,
}
use so_pr2_synchronization.Json.Reference.{reference, parse_text}
use so_pr2_synchronization.Json.Reference.Code.{Value, obj, nil, write, read}
use so_pr2_synchronization.Json.Reference.Fields.{get_object, find}
use so_pr2_synchronization.Json.Reference.Lawful.{reference-IsLawful}
use so_pr2_synchronization.Files.{all_ok, c_string, read_file, open_truncated, fill}
use so_pr2_synchronization.Random.{random_number, remainder}
use so_pr2_synchronization.Algorithms.{best_fit}
use so_pr2_synchronization.Memory.{process_name}
use so_pr2_synchronization.Worker.Texts.{enlist}
use so_pr2_synchronization.Worker.{choose, list_read, list_truncate, list_write}
use so_pr2_synchronization.System.{System, pick, init}
use so_pr2_synchronization.System.Naming.{HoldsList, is_listed}
use so_pr2_synchronization.System.Waiting.{Orderly, begin, next}
use so_pr2_synchronization.System.Watch.{spy_on_waiting_at_run}
use so_pr2_synchronization.Spy.{finished, spy_on_waiting}
use so_pr2_synchronization.Json
use so_pr2_synchronization.Tests.Schema.{reference-CanWrite, memory, on_waiting}

on_waiting-HoldsList : HoldsList reference on_waiting nil
unfolding on_waiting c_string get_object
on_waiting-HoldsList = record {
  text = write (obj nil);
  is_text = record { bytes = _; is_there = refl; not_empty = λ e. cc; reads = refl };
  value = obj nil;
  parses = refl;
  is_object = refl;
}

-- Thread 0 up to its first `sem_wait`.
unfoldable entered : (s : System) × Orderly reference best_fit 2 (init memory on_waiting) s
unfolding random_number remainder ◌+ℤ◌ ◌-ℤ◌ read_file open_truncated fill on_waiting c_string enlist
    parse_text get_object read write sum_below
entered = (
  _,
  next
      (next
        (next (next begin (pick 0 (omega arith) (choose 7 3 refl refl)) (omega arith))
          (pick 0 (omega arith) (list_read all_ok _ refl)) (omega arith))
        (pick 0 (omega arith) (list_truncate all_ok refl)) (omega arith))
      (pick 0 (omega arith) (list_write all_ok refl)) (omega arith),
)

no_names : (i : ℕ) → i < 2 → reference.object_has_value nil (process_name i) ≡ false
unfolding find
no_names i h = refl

spy_on_waiting_at_run_example :
    (text : Text) × (o : Value) × (spy_on_waiting reference all_ok entered.0.shared.on_waiting
      ≡ (finished, text ∷ []))
    × (Json.get_object reference (reference.parse_string text) ≡ some o)
    × ((i : ℕ) → i < 2 → reference.object_has_value o (process_name i) ≡ is_listed (entered.0.pc i))
unfolding entered sum_below
spy_on_waiting_at_run_example =
    spy_on_waiting_at_run reference reference-IsLawful reference-CanWrite best_fit
      on_waiting-HoldsList no_names entered.1 refl
