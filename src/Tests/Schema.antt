-- ===== src/Tests/Schema.antt =====
-- schema.json with two partitions, and the files that the initializer leaves for it.
use so_pr2_synchronization.Base.{
  ℕ, zero, suc, ◌≡◌, ◌<◌, ◌^◌, arith, text_eq, refl, List, [], ◌∷◌, none, some, pos, codes,
}
use so_pr2_synchronization.Json.Reference.{reference, parse_text}
use so_pr2_synchronization.Json.Reference.Code.{
  Value, num, obj, arr, nil, entry, write, read, write-Lacks,
}
use so_pr2_synchronization.Json.Reference.Lawful.{reference-IsLawful}
use so_pr2_synchronization.Json.{array_get_object}
use so_pr2_synchronization.Json.Reference.Fields.{get_array, get_object, elements, find}
use so_pr2_synchronization.Files.{
  File, c_string, all_ok, ok, write_file, open_truncated, fill, stretch, copy,
}
use so_pr2_synchronization.Memory.Laws.{Holds, IsPartition}
use so_pr2_synchronization.Initializer.{initialize, init_memory, init_memory_processes_on_waiting}
use so_pr2_synchronization.Initializer.Laws.{initialize-Starts}
use so_pr2_synchronization.System.Listed.{IsDocument}
use so_pr2_synchronization.System.Safety.{Starts}
use so_pr2_synchronization.System.Progress.{CanWrite}

abbrev pub partition : ℕ → Value
partition size =
    obj (entry (codes "free_space") (num (pos size)) (entry (codes "processes") (obj nil) nil))

abbrev pub partitions : List Value
partitions = partition 10 ∷ partition 5 ∷ []

abbrev pub schema : Value
schema = arr (entry [] (partition 10) (entry [] (partition 5) nil))

abbrev pub capacity : ℕ → ℕ
capacity zero = 10
capacity (suc k) = 5

pub partitions-Holds : Holds reference partitions 2 capacity (λ k. nil)
unfolding get_object find text_eq
partitions-Holds = record { counted = refl; partition = λ k h. holds k h }
  where
    holds :
        (k : ℕ)
        → k < 2
        → (root : Value) × (array_get_object reference partitions k ≡ some root)
          × IsPartition reference root (capacity k) nil
    holds zero h = (_, refl, record { free_is = refl; processes_are = refl })
    holds (suc zero) h = (_, refl, record { free_is = refl; processes_are = refl })
    holds (suc (suc k)) h = absurd (omega arith)

pub returned : (initialize reference all_ok all_ok (some schema) none none).0 ≡ ok tt
unfolding initialize init_memory init_memory_processes_on_waiting write_file open_truncated fill
    stretch copy write parse_text read text_eq
returned = refl

unfoldable pub memory : File
unfolding initialize init_memory init_memory_processes_on_waiting write_file open_truncated fill
    stretch copy write parse_text read text_eq
memory = (initialize reference all_ok all_ok (some schema) none none).1

unfoldable pub on_waiting : File
unfolding initialize init_memory init_memory_processes_on_waiting write_file open_truncated fill
    stretch copy write parse_text read text_eq
on_waiting = (initialize reference all_ok all_ok (some schema) none none).2

pub capacity-small : (k : ℕ) → k < 2 → capacity k < 2 ^ 31
capacity-small zero h = omega arith
capacity-small (suc k) h = omega arith

pub memory-Starts : Starts reference 2 capacity memory
unfolding memory get_array elements
memory-Starts =
    (initialize-Starts reference reference-IsLawful all_ok all_ok schema none none partitions 2
      capacity (λ k. nil) refl partitions-Holds capacity-small returned).0

pub on_waiting-IsDocument : IsDocument reference on_waiting
unfolding on_waiting get_array
on_waiting-IsDocument =
    let (value, text, braces, parses, is_text) =
      (initialize-Starts reference reference-IsLawful all_ok all_ok schema none none partitions 2
        capacity (λ k. nil) refl partitions-Holds capacity-small returned).1 in
    record { text = text; is_text = is_text; value = value; parses = parses }

-- The memory, with the processes of each partition.
unfoldable pub schema_at_start : Starts reference 2 capacity memory
unfolding memory c_string get_array elements
schema_at_start = record {
  small = capacity-small;
  processes = λ k. nil;
  stored = record {
    text = write schema;
    is_text = record { bytes = _; is_there = refl; not_empty = λ e. cc; reads = refl };
    represents = record {
      no_nul = write-Lacks schema;
      value = schema;
      parses = refl;
      arr = partitions;
      is_array = refl;
      holds = partitions-Holds;
    };
  };
}

-- The reference library writes every document.
pub reference-CanWrite : CanWrite reference
reference-CanWrite = record { writes = λ v. (_, refl); writes_pretty = λ v. (_, refl) }
