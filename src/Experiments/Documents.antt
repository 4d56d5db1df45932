-- ===== src/Experiments/Documents.antt =====
-- examples/mmap/mapwritejson.c: a document that is written to the memory, and
-- examples/mmap/mapreadjson.c, which prints it. The first of them frees a variable that it does not
-- declare; it is read here with the variable that it does declare, the document.
use so_pr2_synchronization.Base.{◌&&◌, Option, none, some, List, [], ◌∷◌, Text, if◌then◌else◌}
use so_pr2_synchronization.Json.{Parson}
use so_pr2_synchronization.Files.{File, Syscalls, Result, ok, exit, open_truncated, fill}
use so_pr2_synchronization.Worker.Texts.{serialize}

module _ (P : Parson) where
  -- `value` is what `json_parse_file("schema.json")` returns: the result, the file, and what is
  -- printed of the document by then. The file is truncated before the document is looked at, and the
  -- text is printed from the mapping.
  unfoldable pub map_write_json :
      Syscalls → Option P.Value → File → (Result (Unit {0}) × File) × List Text
  unfolding open_truncated fill
  map_write_json calls value file =
      let (opened, truncated) = open_truncated calls file in
      elim opened [
        | exit status ↦ ((exit status, truncated), [])
        | ok done ↦ elim (serialize P value) [
          | none ↦ ((exit 1, truncated), [])
          | some text ↦ (
            fill calls (some text) truncated,
            if calls.lseek_ok && (calls.write_ok && calls.mmap_ok) then text ∷ [] else [],
          )
        ]
      ]
