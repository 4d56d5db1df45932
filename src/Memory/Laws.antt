-- ===== src/Memory/Laws.antt =====
-- producer.c: the documents before and after an allocation and a return of space.
use so_pr2_synchronization.Base.{
  ℕ, ◌+◌, ◌-◌, ◌^◌, ◌≤◌, ◌<◌, ◌≡◌, refl, ap, ◌∙◌, Option, none, some, List, ℤ, pos, ◌+ℤ◌, ◌-ℤ◌,
  int_laws, Text, Lacks, codes, text_eq, set, length, get_elem?, get_elem?-set_self,
  get_elem?-set_ne, length-set, ◌==◌, ==_iff, update, if◌then◌else◌, arith, Bool-cases,
  Option-cases, inl, inr, lt-length,
}
use so_pr2_synchronization.Json.{Parson, IsLawful, array_get_object, get_int}
use so_pr2_synchronization.Algorithms.{free_space}
use so_pr2_synchronization.Memory.{
  process_path, process_object, take_space, give_back_space, at_index, allocate, give_back,
}

-ℤ_pos : (a b : ℕ) → b ≤ a → pos a -ℤ pos b ≡ pos (a - b)
-ℤ_pos a b h = omega int_laws

+ℤ_pos : (a b : ℕ) → pos a +ℤ pos b ≡ pos (a + b)
+ℤ_pos a b = omega int_laws

module _ (P : Parson) where
  open P use {Value, Object, of_object, object_get_object, object_set_value, object_remove}

  -- The object of a partition with so much free space and these processes.
  pub record IsPartition (root : Object) (free : ℕ) (processes : Object) : Type 0 where
    pub free_is : get_int P (some root) (codes "free_space") ≡ pos free
    pub processes_are : object_get_object root (codes "processes") ≡ some processes

module _ (P : Parson) (L : IsLawful P) where
  open P use {Value, Object, of_object, object_get_object, object_set_value, object_remove}

  spent-IsPartition :
      {root : Object} {free : ℕ} {processes : Object}
      → IsPartition P root free processes
      → (rest : ℕ) → rest < 2 ^ 31
      → IsPartition P
          (P.object_set_number root (codes "free_space") (P.of_int (pos rest)))
          rest
          processes
  unfolding text_eq
  spent-IsPartition {root} p rest small = record {
    free_is =
        ap P.to_int (L.get_number-set_number root (codes "free_space") (codes "free_space") _)
        ∙ L.to_int-of_int rest small;
    processes_are =
        L.get_object-set_number root (codes "free_space") (codes "processes") _ ∙ p.processes_are;
  }

  pub entered-IsPartition :
      {root : Object} {free : ℕ} {processes : Object}
      → IsPartition P root free processes
      → (changed : Object)
      → IsPartition P (object_set_value root (codes "processes") (of_object changed)) free changed
  unfolding text_eq
  entered-IsPartition {root} p changed = record {
    free_is =
        ap P.to_int
          (L.get_number-set_object root (codes "processes") (codes "free_space") changed refl)
        ∙ p.free_is;
    processes_are = L.get_object-set_object root (codes "processes") (codes "processes") changed;
  }

  -- The partition that takes a process has its size less of free space, and the process is entered
  -- under its name.
  pub take_space-IsPartition :
      {root : Object} {free : ℕ} {processes : Object} (size : ℕ) (delay : ℤ) (name : Text)
      → free < 2 ^ 31
      → size ≤ free
      → IsPartition P root free processes
      → IsPartition P
          (take_space P root (pos size) delay name)
          (free - size)
          (object_set_value processes name (of_object (process_object P (pos size) delay)))
  unfolding take_space
  take_space-IsPartition {free} size delay name small fits p =
      let spent = spent-IsPartition p (free - size) (omega arith) in
      let left = -ℤ_pos free size fits in
      rw (take_space, p.free_is, left, spent.processes_are, p.free_is, left)
        (entered-IsPartition spent _)

  -- The partition that gets space back has its size more of free space, and no process under its
  -- name.
  pub give_back_space-IsPartition :
      {root : Object} {free : ℕ} {processes : Object} (size : ℕ) (name : Text)
      → free + size < 2 ^ 31
      → Lacks b'.' name
      → IsPartition P root free processes
      → IsPartition P
          (give_back_space P root (pos size) name)
          (free + size)
          (object_remove processes name)
  unfolding give_back_space
  give_back_space-IsPartition {free} {processes} size name small no_dot p =
      let spent = spent-IsPartition p (free + size) small in
      rw (give_back_space, p.free_is, +ℤ_pos free size)
        (rw
          (
            process_path,
            L.dotremove_lem _ processes (codes "processes") name (omega arith) no_dot
                spent.processes_are,
          )
          (entered-IsPartition spent (object_remove processes name)))

  array_get_object-set :
      (arr : List Value) (i j : ℕ) (root : Object)
      → i < length arr
      → array_get_object P (set arr i (of_object root)) j
        ≡ (if i == j then some root else array_get_object P arr j)
  array_get_object-set arr i j root h = elim (Bool-cases (i == j)) [
    | inl same ↦
        rw (same, ← (==_iff i j).0 same, get_elem?-set_self arr i (of_object root) h)
          (L.get_object-of_object root)
    | inr other ↦
        rw (other, get_elem?-set_ne arr {i = i} {j = j} (of_object root) (λ e. ground arith))
  ]

  lt_of_object :
      (arr : List Value) (i : ℕ) {root : Object}
      → array_get_object P arr i ≡ some root
      → i < length arr
  lt_of_object arr i {root} e = elim (Option-cases (get_elem? arr i)) [
    | inl out ↦ absurd (not_there (rw out at e))
    | inr (v, there) ↦ lt-length arr i there
  ]
    where
      not_there : ◌≡◌ {A = Option Object} none (some root) → ⊥
      not_there e = cc

  array_get_object-at_index :
      (change : Object → Object) (arr : List Value) (i j : ℕ) {root : Object}
      → array_get_object P arr i ≡ some root
      → array_get_object P (at_index P change arr i) j
        ≡ (if i == j then some (change root) else array_get_object P arr j)
  array_get_object-at_index change arr i j {root} e =
      rw (at_index, e) (array_get_object-set arr i j (change root) (lt_of_object arr i e))

  length-at_index :
      (change : Object → Object) (arr : List Value) (i : ℕ)
      → length (at_index P change arr i) ≡ length arr
  length-at_index change arr i = elim (Option-cases (array_get_object P arr i)) [
    | inl out ↦ rw (at_index, out)
    | inr (root, e) ↦ rw (at_index, e) (length-set arr i (of_object (change root)))
  ]

-- An array of so many partitions, with the free space and the processes of each.
pub record Holds (P : Parson) (arr : List P.Value) (count : ℕ) (free : ℕ → ℕ)
    (processes : ℕ → P.Object) : Type 0 where
  pub counted : length arr ≡ count
  pub partition :
      (k : ℕ)
      → k < count
      → (root : P.Object) × (array_get_object P arr k ≡ some root)
        × IsPartition P root (free k) (processes k)

module _ (P : Parson) (L : IsLawful P) {arr : List P.Value} {count : ℕ} {free : ℕ → ℕ}
    {processes : ℕ → P.Object} (held : Holds P arr count free processes) where
  open P use {Object, of_object, object_set_value, object_remove}

  -- A change of one object is a change of one partition.
  pub at_index-Holds :
      (change : Object → Object) (k rest : ℕ) (changed : Object)
      → k < count
      → ((root : Object)
          → IsPartition P root (free k) (processes k)
          → IsPartition P (change root) rest changed)
      → Holds P (at_index P change arr k) count (update free k rest) (update processes k changed)
  at_index-Holds change k rest changed h keep = record {
    counted = length-at_index P L change arr k ∙ held.counted;
    partition = λ j q.
        let (root, there, p) = held.partition k h in
        let view = array_get_object-at_index P L change arr k j there in
        elim (Bool-cases (k == j)) [
          | inl same ↦ rw same (change root, rw same at view, keep root p)
          | inr other ↦
              let (root_j, there_j, p_j) = held.partition j q in
              rw other (root_j, (rw other at view) ∙ there_j, p_j)
        ];
  }

  -- An allocation takes the size of the process from the free space of its partition, enters the
  -- process there, and leaves the other partitions alone.
  pub allocate-Holds :
      (k size : ℕ) (delay : ℤ) (name : Text)
      → k < count
      → free k < 2 ^ 31
      → size ≤ free k
      → Holds P (allocate P arr k (pos size) delay name) count (update free k (free k - size)) (
          update processes k
            (object_set_value (processes k) name (of_object (process_object P (pos size) delay))))
  unfolding allocate
  allocate-Holds k size delay name h small fits =
      at_index-Holds _ k _ _ h (λ root p. take_space-IsPartition P L size delay name small fits p)

  -- A return of space gives the size of the process back to its partition, removes the process
  -- there, and leaves the other partitions alone.
  pub give_back-Holds :
      (k size : ℕ) (name : Text)
      → k < count
      → free k + size < 2 ^ 31
      → Lacks b'.' name
      → Holds P
          (give_back P arr k (pos size) name)
          count
          (update free k (free k + size))
          (update processes k (object_remove (processes k) name))
  unfolding give_back
  give_back-Holds k size name h small no_dot =
      at_index-Holds _ k _ _ h (λ root p. give_back_space-IsPartition P L size name small no_dot p)

  pub free_space-Holds : (k : ℕ) → k < count → free_space P arr k ≡ pos (free k)
  unfolding free_space
  free_space-Holds k h = let (root, there, p) = held.partition k h in rw there p.free_is
