-- ===== src/Initializer/Laws.antt =====
-- initializer.c: the files that it leaves are those from which the producer starts.
use so_pr2_synchronization.Base.{
  ℕ, ◌^◌, ◌<◌, ◌≡◌, refl, sym, ap, ◌∙◌, Option, none, some, List, Text, codes, Option-cases, inl,
  inr, arith,
}
use so_pr2_synchronization.Json.{Parson, IsLawful, get_array}
use so_pr2_synchronization.Files.{File, Syscalls, ok, Result-cases, write_file}
use so_pr2_synchronization.Files.Laws.{IsText, write_file-IsText, write_file_null_exits}
use so_pr2_synchronization.Memory.Laws.{Holds}
use so_pr2_synchronization.Worker.Texts.{serialize}
use so_pr2_synchronization.Initializer.{init_memory, init_memory_processes_on_waiting, initialize}
use so_pr2_synchronization.System.Safety.{Starts}

-- A write that returns leaves a text of its document.
pub written :
    (P : Parson) (L : IsLawful P) (calls : Syscalls) (v : Option P.Value) (file : File)
    → (write_file calls (serialize P v) file).0 ≡ ok tt
    → (value : P.Value) × (text : Text) × (v ≡ some value)
      × (P.serialize_to_string value ≡ some text)
      × IsText text (write_file calls (serialize P v) file).1
written P L calls none file e = absurd (write_file_null_exits calls file e)
written P L calls (some value) file e = elim (Option-cases (P.serialize_to_string value)) [
  | inl null ↦ absurd (write_file_null_exits calls file (rw null at e))
  | inr (text, shown) ↦ (
    value,
    text,
    refl,
    shown,
    rw shown
        (write_file-IsText calls text file (L.serialize-Lacks value text shown) (rw shown at e)),
  )
]

-- A run that returns has made both writes.
initialize_returned :
    (P : Parson) (calls calls' : Syscalls) (schema : Option P.Value) (memory on_waiting : File)
    → (initialize P calls calls' schema memory on_waiting).0 ≡ ok tt
    → ((init_memory P calls schema memory).0 ≡ ok tt)
      × ((init_memory_processes_on_waiting P calls' on_waiting).0 ≡ ok tt)
      × ((initialize P calls calls' schema memory on_waiting).1
          ≡ (init_memory P calls schema memory).1)
      × ((initialize P calls calls' schema memory on_waiting).2
          ≡ (init_memory_processes_on_waiting P calls' on_waiting).1)
unfolding initialize
initialize_returned P calls calls' schema memory on_waiting e =
    elim (Result-cases (init_memory P calls schema memory).0) [
      | inl returned ↦ ground arith
      | inr (status, ended) ↦ ground arith
    ]

-- If the initializer returns, the schema is a document, and the memory is ready for the producer:
-- it holds the partitions of the schema with all of their free space. The waiting list is a text
-- of the document `{}`.
pub initialize-Starts :
    (P : Parson) (L : IsLawful P) (calls calls' : Syscalls) (schema : P.Value)
    (memory on_waiting : File) (arr : List P.Value) (count : ℕ) (capacity : ℕ → ℕ)
    (processes : ℕ → P.Object)
    → P.value_get_array schema ≡ some arr
    → Holds P arr count capacity processes
    → ((k : ℕ) → k < count → capacity k < 2 ^ 31)
    → (initialize P calls calls' (some schema) memory on_waiting).0 ≡ ok tt
    → Starts P count capacity (initialize P calls calls' (some schema) memory on_waiting).1
      × ((value : P.Value) × (text : Text) × (P.parse_string (codes "{}") ≡ some value)
          × (P.parse_string text ≡ some value)
          × IsText text (initialize P calls calls' (some schema) memory on_waiting).2)
unfolding init_memory init_memory_processes_on_waiting
initialize-Starts P L calls calls' schema memory on_waiting arr count capacity processes a h small
      e =
    let (first, second, memory_is, waiting_is) =
      initialize_returned P calls calls' (some schema) memory on_waiting e in
    let (value, text, same, shown, is_text) = written P L calls (some schema) memory first in
    let (braces, text', parsed, shown', is_text') =
      written P L calls' (P.parse_string (codes "{}")) on_waiting second in
    let there : P.value_get_array value ≡ some arr = ap (get_array P) (sym same) ∙ a in
    (
      record {
        small = small;
        processes = processes;
        stored = record {
          text = text;
          is_text = rw memory_is is_text;
          represents = record {
            no_nul = L.serialize-Lacks value text shown;
            value = value;
            parses = L.parse-serialize value text shown;
            arr = arr;
            is_array = there;
            holds = h;
          };
        };
      },
      (braces, text', parsed, L.parse-serialize braces text' shown', rw waiting_is is_text'),
    )
