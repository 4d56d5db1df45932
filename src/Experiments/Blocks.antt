-- ===== src/Experiments/Blocks.antt =====
-- examples/algorithms.c: `worstFit`, which places processes in blocks.
use so_pr2_synchronization.Base.{
  ℕ, zero, suc, ◌≡◌, ◌≢◌, refl, update_same, update_other, ap, ◌∙◌, Bool-cases, inl, inr, Option,
  none, some, List, [], ◌∷◌, ℤ, pos, ◌+ℤ◌, ◌-ℤ◌, int_laws, pos_part, neg_part, +ℤ_parts, -ℤ_parts,
  update, if◌then◌else◌, ◌==◌, ==_iff,
}
use so_pr2_synchronization.Algorithms.{best_fit, search_loop}
use so_pr2_synchronization.Algorithms.Loop.{Finds, IsBest, NoneFits, search_loop-IsBest}

-- The search for one process; the variable `algorithm` is BEST_FIT all the time.
unfoldable pub find_block : ℕ → (ℕ → ℤ) → ℤ → Option ℕ
unfolding search_loop
find_block m block_size size = search_loop block_size size best_fit m 0 none

unfoldable pub reduce : (ℕ → ℤ) → Option ℕ → ℤ → ℕ → ℤ
reduce block_size none size = block_size
reduce block_size (some k) size = update block_size k (block_size k -ℤ size)

-- The block of each process, where -1 is `none`, and the sizes of the blocks at the end.
unfoldable pub worst_fit_blocks : ℕ → (ℕ → ℤ) → List ℤ → List (Option ℕ) × (ℕ → ℤ)
unfolding find_block reduce
worst_fit_blocks m block_size [] = ([], block_size)
worst_fit_blocks m block_size (size ∷ process_size) =
    let index = find_block m block_size size in
    let (allocation, left) = worst_fit_blocks m (reduce block_size index size) process_size in
    (index ∷ allocation, left)

-- A line of the table that is printed: the number of the process from 1 on, its size, and the number
-- of its block from 1 on, where `none` is "Not Allocated".
pub record Row : Type 0 where
  pub process_no : ℕ
  pub process_size : ℤ
  pub block_no : Option ℕ

abbrev pub printed_block : Option ℕ → Option ℕ
printed_block none = none
printed_block (some k) = some (suc k)

-- The lines from index `i` on.
abbrev pub print_rows : ℕ → List ℤ → List (Option ℕ) → List Row
print_rows i (size ∷ process_size) (index ∷ allocation) =
    record { process_no = suc i; process_size = size; block_no = printed_block index }
    ∷ print_rows (suc i) process_size allocation
print_rows i _ _ = []

-- `main`, with the sizes that it has.
abbrev pub driver_blocks : ℕ → ℤ
driver_blocks zero = pos 100
driver_blocks (suc zero) = pos 500
driver_blocks (suc (suc zero)) = pos 200
driver_blocks (suc (suc (suc zero))) = pos 300
driver_blocks _ = pos 600

abbrev pub driver_processes : List ℤ
driver_processes = pos 212 ∷ pos 417 ∷ pos 112 ∷ pos 426 ∷ []

unfoldable pub driver : List Row
unfolding worst_fit_blocks
driver = print_rows 0 driver_processes (worst_fit_blocks 5 driver_blocks driver_processes).0

-- What a process leaves of the blocks: its own has so much less, and the others are the same.
abbrev pub Leaves : (ℕ → ℤ) → Option ℕ → ℤ → (ℕ → ℤ) → Type 0
Leaves block_size none size left = (j : ℕ) → left j ≡ block_size j
Leaves block_size (some k) size left =
    (left k ≡ block_size k -ℤ size) × ((j : ℕ) → k ≢ j → left j ≡ block_size j)

-- Processes that are placed one after the other, each in the leftmost of the smallest blocks that
-- are large enough when its turn comes, and in none only if none is large enough.
pub data Placed (m : ℕ) (last : ℕ → ℤ) : (ℕ → ℤ) → List ℤ → List (Option ℕ) → Type 0 where
  all_placed : Placed m last last [] []
  next :
      {block_size left : ℕ → ℤ} {size : ℤ} {process_size : List ℤ} {allocation : List (Option ℕ)}
      (index : Option ℕ)
      → Finds (IsBest block_size size m) (NoneFits block_size size m) index
      → Leaves block_size index size left
      → Placed m last left process_size allocation
      → Placed m last block_size (size ∷ process_size) (index ∷ allocation)

reduce-Leaves :
    (block_size : ℕ → ℤ) (index : Option ℕ) (size : ℤ)
    → Leaves block_size index size (reduce block_size index size)
unfolding reduce
reduce-Leaves block_size none size = λ j. refl
reduce-Leaves block_size (some k) size =
    (update_same block_size k _, λ j ne. update_other block_size k j _ ne)

-- In spite of its name the function places every process, one after the other, in the leftmost of the
-- smallest blocks that are large enough when its turn comes, and in none only if none is large enough;
-- the block that it takes has its size less from then on, and the others are the same.
pub worst_fit_blocks-Placed :
    (m : ℕ) (block_size : ℕ → ℤ) (process_size : List ℤ)
    → Placed m
        (worst_fit_blocks m block_size process_size).1
        block_size
        process_size
        (worst_fit_blocks m block_size process_size).0
unfolding worst_fit_blocks
worst_fit_blocks-Placed m block_size [] = all_placed
worst_fit_blocks-Placed m block_size (size ∷ process_size) =
    let index = find_block m block_size size in
    next index (search_loop-IsBest block_size size m) (reduce-Leaves block_size index size)
      (worst_fit_blocks-Placed m (reduce block_size index size) process_size)

-- The sizes of the processes in block `k` together.
abbrev pub spent : ℕ → List (Option ℕ) → List ℤ → ℤ
spent k (some j ∷ allocation) (size ∷ process_size) =
    (if j == k then size else pos 0) +ℤ spent k allocation process_size
spent k (none ∷ allocation) (size ∷ process_size) = spent k allocation process_size
spent k _ _ = pos 0

+ℤ_zero : (a : ℤ) → a +ℤ pos 0 ≡ a
+ℤ_zero a = omega int_laws

taken_adds :
    (left size rest block : ℤ) → left +ℤ rest ≡ block -ℤ size → left +ℤ (size +ℤ rest) ≡ block
taken_adds left size rest block e = omega (
  int_laws,
  ap pos_part e,
  ap neg_part e,
  +ℤ_parts left rest,
  -ℤ_parts block size,
  +ℤ_parts size rest,
  +ℤ_parts left (size +ℤ rest),
)

passed_adds : (left rest block : ℤ) → left +ℤ rest ≡ block → left +ℤ (pos 0 +ℤ rest) ≡ block
passed_adds left rest block e = omega (
  int_laws,
  ap pos_part e,
  ap neg_part e,
  +ℤ_parts left rest,
  +ℤ_parts (pos 0) rest,
  +ℤ_parts left (pos 0 +ℤ rest),
)

reduce_adds :
    (block_size : ℕ → ℤ) (index : Option ℕ) (k : ℕ) (size left : ℤ) (allocation : List (Option ℕ))
    (process_size : List ℤ)
    → left +ℤ spent k allocation process_size ≡ reduce block_size index size k
    → left +ℤ spent k (index ∷ allocation) (size ∷ process_size) ≡ block_size k
unfolding reduce
reduce_adds block_size none k size left allocation process_size e = e
reduce_adds block_size (some j) k size left allocation process_size e = elim (Bool-cases (j == k)) [
  | inl same ↦
      let at_k : block_size j ≡ block_size k = ap block_size ((==_iff j k).0 same) in
      rw same (taken_adds left size _ (block_size k) ((rw same at e) ∙ ap (λ b. b -ℤ size) at_k))
  | inr other ↦ rw other (passed_adds left _ (block_size k) (rw other at e))
]

-- What is left of a block and the sizes of the processes in it are the size that it had.
pub worst_fit_blocks_adds_up :
    (m : ℕ) (block_size : ℕ → ℤ) (process_size : List ℤ) (k : ℕ)
    → (worst_fit_blocks m block_size process_size).1 k
        +ℤ spent k (worst_fit_blocks m block_size process_size).0 process_size
      ≡ block_size k
unfolding worst_fit_blocks
worst_fit_blocks_adds_up m block_size [] k = +ℤ_zero (block_size k)
worst_fit_blocks_adds_up m block_size (size ∷ process_size) k =
    reduce_adds block_size (find_block m block_size size) k size _ _ process_size (
      worst_fit_blocks_adds_up m (reduce block_size (find_block m block_size size) size)
        process_size k)
