-- ===== src/Memory/Names.antt =====
-- producer.c: the names of the processes and the buffers that hold them.
use so_pr2_synchronization.Base.{
  ℕ, ◌+◌, ◌^◌, ◌≤◌, ◌<◌, ◌≡◌, ◌≢◌, false, inl, inr, Bool-cases, text_eq, text_eq_iff, codes, length,
  length-append, print_decimal, print_decimal-injective, length-print_decimal, arith,
}
use so_pr2_synchronization.Memory.{process_name, process_path}

-- Different threads have different names.
pub process_name-injective : (i j : ℕ) → process_name i ≡ process_name j → i ≡ j
unfolding process_name
process_name-injective i j e = print_decimal-injective i j e

pub names_differ : (i j : ℕ) → i ≢ j → text_eq (process_name i) (process_name j) ≡ false
names_differ i j ne = elim (Bool-cases (text_eq (process_name i) (process_name j))) [
  | inl same ↦ absurd (ne (process_name-injective i j ((text_eq_iff _ _).0 same)))
  | inr other ↦ other
]

-- With its NUL the name of any 64-bit id fits into `str_process_id[40]`, and the path made of it
-- into `str[80]`.
pub buffers_suffice :
    (process_id : ℕ)
    → process_id < 2 ^ 64
    → (length (process_name process_id) + 1 ≤ 40)
      × (length (process_path (process_name process_id)) + 1 ≤ 80)
unfolding process_name process_path
buffers_suffice process_id h =
    let short = length-print_decimal 19 process_id (omega arith) in
    (
      omega (arith, short),
      omega (arith, short, length-append (codes "processes.") (print_decimal process_id)),
    )
