-- ===== src/System/Prepared.antt =====
-- producer.c: what a worker prepares from the memory that it has read.
use so_pr2_synchronization.Base.{
  ℕ, ◌+◌, ◌-◌, ◌^◌, ◌≤◌, ◌<◌, ◌≡◌, sym, ap, subst, ◌∙◌, inl, inr, List, Option, none, some, pos,
  pos_part, neg_part, Text, Lacks, update, arith, Option-cases, print_decimal-Lacks,
}
use so_pr2_synchronization.Json.{Parson, IsLawful}
use so_pr2_synchronization.Files.{File, Syscalls, ok, read_file, pretty}
use so_pr2_synchronization.Files.Laws.{read_file-IsText}
use so_pr2_synchronization.Algorithms.{Algorithm, search_index, search_loop, free_space}
use so_pr2_synchronization.Algorithms.Agree.{search_loop-agree}
use so_pr2_synchronization.System.Table.{Chooses}
use so_pr2_synchronization.Algorithms.Fit.{search_index_fits}
use so_pr2_synchronization.Memory.{process_name, process_object, allocate, give_back}
use so_pr2_synchronization.Memory.Laws.{Holds, allocate-Holds, give_back-Holds, free_space-Holds}
use so_pr2_synchronization.Worker.Points.{Process}
use so_pr2_synchronization.Worker.Texts.{parse, array_of, on_array, take_text, give_back_text}
use so_pr2_synchronization.System.Invariant.{IsSized, Represents, Prepared, Stored}

-- What a read of the memory gives: NULL, if the document could not be written in pretty form, or a
-- text of the document.
pub data Read (P : Parson) (count : ℕ) (contents : Option Text) (free : ℕ → ℕ)
    (processes : ℕ → P.Object) : Type 0 where
  is_null : contents ≡ none → Read P count contents free processes
  is_document :
      (v : P.Value) (arr : List P.Value)
      → parse P contents ≡ some v
      → P.value_get_array v ≡ some arr
      → Holds P arr count free processes
      → Read P count contents free processes

process_name-Lacks : (id : ℕ) → Lacks b'.' (process_name id)
unfolding process_name
process_name-Lacks id = print_decimal-Lacks b'.' id (omega arith)

module _ (P : Parson) (L : IsLawful P) {count : ℕ} {free : ℕ → ℕ} {processes : ℕ → P.Object} where
  pretty-Read :
      (t : Text) → Represents P count t free processes → Read P count (pretty P t) free processes
  pretty-Read t r = elim (Option-cases (P.serialize_to_string_pretty r.value)) [
    | inl null ↦ is_null (rw (pretty, r.parses) null)
    | inr (u, shown) ↦
        is_document r.value r.arr
          (rw (pretty, r.parses) (rw shown (L.parse-pretty r.value u shown))) r.is_array r.holds
  ]

  pub Read-Read :
      (calls : Syscalls) {file : File} {contents : Option Text}
      → Stored P count file free processes
      → read_file P calls file ≡ ok contents
      → Read P count contents free processes
  Read-Read calls st e =
      subst (λ c. Read P count c free processes) (sym (read_file-IsText P calls st.is_text e))
        (pretty-Read st.text st.represents)

  -- A text made of an array represents what the array holds.
  serialize-Prepared :
      (arr : List P.Value) {t : Option Text}
      → Holds P arr count free processes
      → t ≡ P.serialize_to_string (P.of_array arr)
      → Prepared P count t free processes
  serialize-Prepared arr h e text shown =
      let written = sym e ∙ shown in
      record {
        no_nul = L.serialize-Lacks (P.of_array arr) text written;
        value = P.of_array arr;
        parses = L.parse-serialize (P.of_array arr) text written;
        arr = arr;
        is_array = L.get_array-of_array arr;
        holds = h;
      }

module _ (P : Parson) (L : IsLawful P) {count : ℕ} {free : ℕ → ℕ} {processes : ℕ → P.Object}
    (contents : Option Text) (id k : ℕ) (p : Process) (sized : IsSized p) where
  pub take_text-Prepared :
      (algorithm : Algorithm)
      → ((j : ℕ) → j < count → free j < 2 ^ 31)
      → Read P count contents free processes
      → search_index P (array_of P contents) p.process_size algorithm ≡ some k
      → (k < count)
        × (pos_part p.process_size ≤ free k)
        × Prepared P count
            (take_text P contents k p (process_name id))
            (update free k (free k - pos_part p.process_size))
            (update processes k (
              P.object_set_value
                (processes k)
                (process_name id)
                (P.of_object (process_object P p.process_size p.process_delay))))
  unfolding take_text array_of search_index
  take_text-Prepared algorithm small (is_null null) found =
      cc (sym found ∙ ap (λ c. search_index P (array_of P c) p.process_size algorithm) null)
  take_text-Prepared algorithm small (is_document v arr parsed is_array h) found =
      let there : array_of P contents ≡ arr = rw (array_of, parsed, is_array) in
      let (inside, fits) = search_index_fits P arr p.process_size algorithm (rw there at found) in
      let within : k < count = omega (arith, inside, h.counted) in
      let enough : pos_part p.process_size ≤ free k =
        omega (arith, rw (free_space-Holds P L h k within) at fits, ap neg_part sized.0) in
      (
        within,
        enough,
        serialize-Prepared P L (allocate P arr k p.process_size p.process_delay (process_name id))
            (subst
              (λ z.
                Holds P (allocate P arr k z p.process_delay (process_name id)) count
                  (update free k (free k - pos_part p.process_size))
                  (update processes k (
                    P.object_set_value (processes k) (process_name id)
                      (P.of_object (process_object P z p.process_delay)))))
              (sym sized.0)
              (allocate-Holds P L h k (pos_part p.process_size) p.process_delay (process_name id)
                within (small k within) enough))
            (rw (take_text, parsed, on_array, is_array)),
      )

  -- The index that a worker finds is the choice of the algorithm from the present free space.
  pub found-Chooses :
      (algorithm : Algorithm)
      → Read P count contents free processes
      → search_index P (array_of P contents) p.process_size algorithm ≡ some k
      → Chooses algorithm count free (pos_part p.process_size) k
  unfolding array_of search_index
  found-Chooses algorithm (is_null null) found =
      cc (sym found ∙ ap (λ c. search_index P (array_of P c) p.process_size algorithm) null)
  found-Chooses algorithm (is_document v arr parsed is_array h) found =
      let there : array_of P contents ≡ arr = rw (array_of, parsed, is_array) in
      let found' : search_loop (free_space P arr) p.process_size algorithm count 0 none ≡ some k =
        rw (there, h.counted) at found in
      let agree =
        search_loop-agree (free_space P arr) (λ j. pos (free j)) count
          (λ j q. free_space-Holds P L h j q) p.process_size algorithm count 0 none (omega arith)
          tt in
      subst (λ z. search_loop (λ j. pos (free j)) z algorithm count 0 none ≡ some k) sized.0
        (sym agree ∙ found')

  pub give_back_text-Prepared :
      k < count
      → free k + pos_part p.process_size < 2 ^ 31
      → Read P count contents free processes
      → Prepared P count
          (give_back_text P contents k p (process_name id))
          (update free k (free k + pos_part p.process_size))
          (update processes k (P.object_remove (processes k) (process_name id)))
  unfolding give_back_text
  give_back_text-Prepared within small (is_null null) =
      λ text e. cc (sym e ∙ ap (λ c. give_back_text P c k p (process_name id)) null)
  give_back_text-Prepared within small (is_document v arr parsed is_array h) =
      serialize-Prepared P L (give_back P arr k p.process_size (process_name id))
        (subst
          (λ z.
            Holds P (give_back P arr k z (process_name id)) count
              (update free k (free k + pos_part p.process_size))
              (update processes k (P.object_remove (processes k) (process_name id))))
          (sym sized.0)
          (give_back-Holds P L h k (pos_part p.process_size) (process_name id) within small
            (process_name-Lacks id)))
        (rw (give_back_text, parsed, on_array, is_array))
