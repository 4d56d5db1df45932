-- ===== src/System/Invariant.antt =====
-- producer.c: what holds at every moment of a run of the producer.
use so_pr2_synchronization.Base.{
  ℕ, ◌+◌, ◌-◌, ◌^◌, ◌≤◌, ◌<◌, ◌≡◌, ◌≢◌, ◌⊎◌, List, [], Option, none, some, pos, pos_part, Text,
  Lacks, update, total, ◌==◌, if◌then◌else◌,
}
use so_pr2_synchronization.Json.{Parson}
use so_pr2_synchronization.Files.{File}
use so_pr2_synchronization.Files.Laws.{IsText}
use so_pr2_synchronization.Memory.Laws.{Holds}
use so_pr2_synchronization.Memory.{process_name, process_object}
use so_pr2_synchronization.Worker.{Shared}
use so_pr2_synchronization.Worker.Points.{
  Process, Pc, created, listing, list_open, list_fill, waiting, unlisting, unlist_open, unlist_fill,
  searching, refused, take_open, take_fill, taken, sleeping, returning, return_open, return_fill,
  returned, finished, inside, filling,
}

-- The space that a worker has in partition `k`: from the write that takes it to the one that gives
-- it back.
abbrev pub space : Process → ℕ → ℕ → ℕ
space p k j = if j == k then pos_part p.process_size else 0

abbrev pub held : ℕ → Pc → ℕ
held k (taken p j) = space p j k
held k (sleeping p j) = space p j k
held k (returning p j) = space p j k
held k (return_open p j _) = space p j k
held k (return_fill p j _) = space p j k
held k _ = 0

-- The size is one that `random_number(1, 10)` gives.
abbrev pub IsSized : Process → Type 0
IsSized p =
    (p.process_size ≡ pos (pos_part p.process_size))
    × (pos_part p.process_size ≤ 10)
    × (1 ≤ pos_part p.process_size)

-- What the locals of a worker say of themselves: the size is in range, and so is the index.
abbrev pub IsPlaced : ℕ → Pc → Type 0
IsPlaced count created = Unit
IsPlaced count finished = Unit
IsPlaced count (listing p) = IsSized p
IsPlaced count (list_open p _) = IsSized p
IsPlaced count (list_fill p _) = IsSized p
IsPlaced count (waiting p) = IsSized p
IsPlaced count (unlisting p) = IsSized p
IsPlaced count (unlist_open p _) = IsSized p
IsPlaced count (unlist_fill p _) = IsSized p
IsPlaced count (searching p) = IsSized p
IsPlaced count (refused p) = IsSized p
IsPlaced count (take_open p k _) = IsSized p × (k < count)
IsPlaced count (take_fill p k _) = IsSized p × (k < count)
IsPlaced count (taken p k) = IsSized p × (k < count)
IsPlaced count (sleeping p k) = IsSized p × (k < count)
IsPlaced count (returning p k) = IsSized p × (k < count)
IsPlaced count (return_open p k _) = IsSized p × (k < count)
IsPlaced count (return_fill p k _) = IsSized p × (k < count)
IsPlaced count (returned p k) = IsSized p × (k < count)

module _ (P : Parson) where
  open P use {Object}

  -- The entry of a worker with its size and its delay.
  abbrev pub HasEntry : ℕ → (ℕ → Object) → Process → ℕ → Type 0
  HasEntry id processes p k =
      P.object_get_object (processes k) (process_name id)
      ≡ some (process_object P p.process_size p.process_delay)

  -- A partition has no entry of the worker, or the one that it had at the start.
  abbrev pub IsOld : ℕ → (ℕ → Object) → (ℕ → Object) → ℕ → Type 0
  IsOld id old processes k =
      (P.object_get_object (processes k) (process_name id) ≡ none)
      ⊎ (P.object_get_object (processes k) (process_name id)
          ≡ P.object_get_object (old k) (process_name id))

  -- The same of every partition but one.
  abbrev pub IsOldBeside : ℕ → (ℕ → Object) → (ℕ → Object) → ℕ → Type 0
  IsOldBeside id old processes k = (m : ℕ) → k ≢ m → IsOld id old processes m

  -- A worker that has space in a partition has its entry there, and nowhere else.
  abbrev pub IsEntered : ℕ → (ℕ → Object) → (ℕ → Object) → Pc → Type 0
  IsEntered id old processes (taken p k) =
      HasEntry id processes p k × IsOldBeside id old processes k
  IsEntered id old processes (sleeping p k) =
      HasEntry id processes p k × IsOldBeside id old processes k
  IsEntered id old processes (returning p k) =
      HasEntry id processes p k × IsOldBeside id old processes k
  IsEntered id old processes (return_open p k _) =
      HasEntry id processes p k × IsOldBeside id old processes k
  IsEntered id old processes (return_fill p k _) =
      HasEntry id processes p k × IsOldBeside id old processes k
  IsEntered id old processes _ = (k : ℕ) → IsOld id old processes k

  -- The entry that the document has of a worker in partition `k`.
  abbrev pub listed_at : Process → ℕ → ℕ → Option Object
  listed_at p m k = if m == k then some (process_object P p.process_size p.process_delay) else none

  abbrev pub entry_of : Pc → ℕ → Option Object
  entry_of (taken p m) k = listed_at p m k
  entry_of (sleeping p m) k = listed_at p m k
  entry_of (returning p m) k = listed_at p m k
  entry_of (return_open p m _) k = listed_at p m k
  entry_of (return_fill p m _) k = listed_at p m k
  entry_of _ k = none

module _ (P : Parson) (count : ℕ) where
  open P use {Value, Object, of_object, object_set_value, object_remove}

  -- A text of a document with so much free space and these processes in its partitions.
  pub record Represents (t : Text) (free : ℕ → ℕ) (processes : ℕ → Object) : Type 0 where
    pub no_nul : Lacks 0 t
    pub value : Value
    pub parses : P.parse_string t ≡ some value
    pub arr : List Value
    pub is_array : P.value_get_array value ≡ some arr
    pub holds : Holds P arr count free processes

  -- The same of a text that may be NULL.
  abbrev pub Prepared : Option Text → (ℕ → ℕ) → (ℕ → Object) → Type 0
  Prepared t free processes = (text : Text) → t ≡ some text → Represents text free processes

  -- What a worker that is about to write the memory has prepared: the present document with its
  -- change.
  abbrev pub IsPending : ℕ → (ℕ → ℕ) → (ℕ → Object) → Pc → Type 0
  IsPending id free processes (take_open p k t) =
      (pos_part p.process_size ≤ free k)
      × Prepared t (update free k (free k - pos_part p.process_size)) (
          update processes k (
            object_set_value (processes k) (process_name id)
              (of_object (process_object P p.process_size p.process_delay))))
  IsPending id free processes (take_fill p k t) =
      (pos_part p.process_size ≤ free k)
      × Prepared t (update free k (free k - pos_part p.process_size)) (
          update processes k (
            object_set_value (processes k) (process_name id)
              (of_object (process_object P p.process_size p.process_delay))))
  IsPending id free processes (return_open p k t) =
      Prepared t (update free k (free k + pos_part p.process_size))
        (update processes k (object_remove (processes k) (process_name id)))
  IsPending id free processes (return_fill p k t) =
      Prepared t (update free k (free k + pos_part p.process_size))
        (update processes k (object_remove (processes k) (process_name id)))
  IsPending id free processes _ = Unit

  -- The file holds such a document.
  pub record Stored (file : File) (free : ℕ → ℕ) (processes : ℕ → Object) : Type 0 where
    pub text : Text
    pub is_text : IsText text file
    pub represents : Represents text free processes

  -- The invariant of `n` workers over partitions of these capacities: at most one of them is
  -- between its `sem_wait` and its `sem_post`, the free space of a partition and the space that
  -- the workers have there add up to its capacity, and the file says so unless it is being written,
  -- and then it is empty;
  -- each worker has its entry where it has space, and no new one elsewhere. `old`
  -- gives the processes at the start.
  pub record Inv (n : ℕ) (capacity : ℕ → ℕ) (old : ℕ → Object) (s : Shared) (pc : ℕ → Pc)
      (free : ℕ → ℕ) (processes : ℕ → Object) : Type 0 where
    pub small : (k : ℕ) → k < count → capacity k < 2 ^ 31
    pub one_inside : s.sem + total inside n pc ≡ 1
    pub adds_up : (k : ℕ) → k < count → free k + total (held k) n pc ≡ capacity k
    pub placed : (i : ℕ) → i < n → IsPlaced count (pc i)
    pub pending : (i : ℕ) → i < n → IsPending i free processes (pc i)
    pub entered : (i : ℕ) → i < n → IsEntered P i old processes (pc i)
    pub present : (bytes : List ℕ) × (s.memory ≡ some bytes)
    pub stored : total filling n pc ≡ 0 → Stored s.memory free processes
    pub emptied : 1 ≤ total filling n pc → s.memory ≡ some []
