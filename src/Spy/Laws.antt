-- ===== src/Spy/Laws.antt =====
-- spy.c: what it prints of the memory that the producer keeps, and how its menu ends.
use mathlib.Core.List.{append_assoc}
use so_pr2_synchronization.Base.{
  ℕ, zero, suc, ◌<◌, ◌≡◌, ◌≢◌, refl, sym, ap, Option, some, List, [], ◌∷◌, ◌++◌, ℤ, pos, Text,
  codes, length, if◌then◌else◌, arith,
}
use so_pr2_synchronization.Json.{Parson, IsLawful, array_get_object}
use so_pr2_synchronization.Files.{File, all_ok, pretty}
use so_pr2_synchronization.Files.Laws.{IsText, read_file-IsText_ok}
use so_pr2_synchronization.Algorithms.{scan}
use so_pr2_synchronization.Worker.Texts.{array_of}
use so_pr2_synchronization.System.Invariant.{Represents}
use so_pr2_synchronization.Spy.{
  Session, Ending, finished, exits, faults, ended, and_then, View, left, show_partition,
  show_partitions, spy_on_memory, command, spy,
}

module _ (P : Parson) where
  open P use {Value, Object, of_object, init_object, value_equals, object_get_object}

  -- The texts of the objects among the first `count` that are not empty, in order.
  abbrev pub listing : (ℕ → Object) → (ℕ → Text) → ℕ → List Text
  listing processes shown zero = []
  listing processes shown (suc count) =
      let rest = listing (λ k. processes (suc k)) (λ k. shown (suc k)) count in
      if value_equals (of_object (processes 0)) (of_object init_object)
      then rest
      else shown 0 ∷ rest

  show_partition_lem :
      (v : Value) {root processes : Object} {shown : Text}
      → P.value_get_object v ≡ some root
      → object_get_object root (codes "processes") ≡ some processes
      → P.serialize_to_string_pretty (of_object processes) ≡ some shown
      → show_partition P v ≡ (
        finished,
        if value_equals (of_object processes) (of_object init_object) then [] else (shown ∷ []),
      )
  unfolding show_partition
  show_partition_lem v is_object there e = rw (show_partition, is_object, there, e) (ground arith)

  show_partitions_lem :
      (arr : List Value) (count : ℕ) (processes : ℕ → Object) (shown : ℕ → Text)
      → length arr ≡ count
      → ((k : ℕ)
          → k < count
          → (root : Object) × (array_get_object P arr k ≡ some root)
            × (object_get_object root (codes "processes") ≡ some (processes k)))
      → ((k : ℕ)
          → k < count
          → P.serialize_to_string_pretty (of_object (processes k)) ≡ some (shown k))
      → show_partitions P arr ≡ (finished, listing processes shown count)
  unfolding show_partitions and_then
  show_partitions_lem [] zero processes shown e there texts = refl
  show_partitions_lem [] (suc count) processes shown e there texts = absurd (omega (arith, e))
  show_partitions_lem (v ∷ arr) zero processes shown e there texts = absurd (omega (arith, e))
  show_partitions_lem (v ∷ arr) (suc count) processes shown e there texts =
      let (root, is_object, found) = there 0 (omega arith) in
      let rest =
        show_partitions_lem arr count (λ k. processes (suc k)) (λ k. shown (suc k))
          (omega (arith, e)) (λ k h. there (suc k) (omega (arith, h)))
          (λ k h. texts (suc k) (omega (arith, h))) in
      rw (show_partition_lem v is_object found (texts 0 (omega arith)), rest) (ground arith)

module _ (P : Parson) (L : IsLawful P) where
  open P use {Object, of_object}

  -- If the memory holds a text of partitions with these processes, and the library can write what
  -- is asked of it, the spy reads it without an error and prints the processes of each partition
  -- that has some, in the order of the partitions.
  pub spy_on_memory_lem :
      {t pretty_text : Text} {memory : File} {count : ℕ} {free : ℕ → ℕ} {processes : ℕ → Object}
      (shown : ℕ → Text)
      → IsText t memory
      → (r : Represents P count t free processes)
      → P.serialize_to_string_pretty r.value ≡ some pretty_text
      → ((k : ℕ)
          → k < count
          → P.serialize_to_string_pretty (of_object (processes k)) ≡ some (shown k))
      → spy_on_memory P all_ok memory ≡ (finished, listing P processes shown count)
  unfolding spy_on_memory array_of
  spy_on_memory_lem {pretty_text} {count} {processes} shown is_text r e texts =
      let printed =
        show_partitions_lem P r.arr count processes shown r.holds.counted
          (λ k h. let (root, there, p) = r.holds.partition k h in (root, there, p.processes_are))
          texts in
      rw
        (
          spy_on_memory,
          read_file-IsText_ok P is_text,
          pretty,
          r.parses,
          e,
          array_of,
          L.parse-pretty r.value pretty_text e,
          r.is_array,
        )
        printed

module _ (P : Parson) where
  -- The texts that the commands print, if the menu is not left and no command fails, from the value
  -- that `code` has.
  pub data Prints : List (Option ℤ × View) → ℤ → List Text → ℤ → Type 0 where
    nothing : {code : ℤ} → Prints [] code [] code
    command_prints :
        {entry : Option ℤ} {view : View} {input : List (Option ℤ × View)} {code last : ℤ}
        {lines more : List Text}
        → command P (scan entry code) view ≡ some (finished, lines)
        → Prints input (scan entry code) more last
        → Prints ((entry, view) ∷ input) code (lines ++ more) last

  -- After commands that fail nowhere, the first 0 ends the program normally, with all that the
  -- commands have printed, in order; the input behind it is not read.
  spy_leaves :
      {input : List (Option ℤ × View)} {code last : ℤ} {lines : List Text} (entry : Option ℤ)
      (view : View) (rest : List (Option ℤ × View))
      → Prints input code lines last
      → scan entry last ≡ pos 0
      → spy P (input ++ ((entry, view) ∷ rest)) code ≡ left lines
  unfolding spy command
  spy_leaves entry view rest nothing zero_code = rw (spy, zero_code)
  spy_leaves entry view rest (command_prints e more) zero_code =
      rw (spy, e, spy_leaves entry view rest more zero_code)

  -- After commands that fail nowhere, a command that ends the process or follows a null pointer
  -- ends the program, with what was printed up to then.
  spy_fails :
      {input : List (Option ℤ × View)} {code last : ℤ} {lines more : List Text} {ending : Ending}
      (entry : Option ℤ) (view : View) (rest : List (Option ℤ × View))
      → Prints input code lines last
      → command P (scan entry last) view ≡ some (ending, more)
      → ending ≢ finished
      → spy P (input ++ ((entry, view) ∷ rest)) code ≡ ended ending (lines ++ more)
  unfolding spy
  spy_fails {ending = finished} entry view rest nothing e ne = absurd (ne refl)
  spy_fails {ending = exits status} entry view rest nothing e ne = rw (spy, e)
  spy_fails {ending = faults} entry view rest nothing e ne = rw (spy, e)
  spy_fails {ending} entry view rest (command_prints {lines = first} {more = second} e' prints) e
        ne =
      rw (spy, e', spy_fails entry view rest prints e ne)
        (ap (ended ending) (sym (append_assoc first _ _)))

  -- How the program ends at a value of `code`, behind the texts that are printed by then: it is left,
  -- or a command ends the process or follows a null pointer.
  pub data Stops (code : ℤ) (view : View) (lines : List Text) : Session → Type 0 where
    on_zero : code ≡ pos 0 → Stops code view lines (left lines)
    on_failure :
        {ending : Ending} {more : List Text}
        → command P code view ≡ some (ending, more)
        → ending ≢ finished
        → Stops code view lines (ended ending (lines ++ more))

  -- After commands that fail nowhere the first entry that leaves the menu, or that fails, ends the
  -- program, with all that was printed up to then, in order; the input behind it is not read.
  pub spy-Stops :
      {input : List (Option ℤ × View)} {code last : ℤ} {lines : List Text} {session : Session}
      (entry : Option ℤ) (view : View) (rest : List (Option ℤ × View))
      → Prints input code lines last
      → Stops (scan entry last) view lines session
      → spy P (input ++ ((entry, view) ∷ rest)) code ≡ session
  spy-Stops entry view rest prints (on_zero e) = spy_leaves entry view rest prints e
  spy-Stops entry view rest prints (on_failure e ne) = spy_fails entry view rest prints e ne
