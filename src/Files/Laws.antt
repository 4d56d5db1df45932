-- ===== src/Files/Laws.antt =====
-- `read_memory`, `write_memory` and their copies: what a write leaves and what a read finds.
use so_pr2_synchronization.Base.{
  ◌&&◌, ℕ, zero, suc, ◌≡◌, ◌≢◌, refl, ap, ◌∙◌, Bool, true, false, Option, none, some, List, [], ◌∷◌,
  ◌++◌, Text, Lacks, length, replicate, arith,
}
use so_pr2_synchronization.Json.{Parson}
use so_pr2_synchronization.Files.{
  File, Syscalls, all_ok, Result, ok, exit, exit_failure, c_string, stretch, copy, pretty,
  read_file, open_truncated, fill, write_file,
}

pub stretch-nil : (n : ℕ) → stretch n [] ≡ replicate n 0
unfolding stretch
stretch-nil zero = refl
stretch-nil (suc zero) = refl
stretch-nil (suc (suc n)) = ap (λ l. 0 ∷ l) (stretch-nil (suc n))

pub copy-replicate :
    (t : Text) → copy (t ++ (0 ∷ [])) (replicate (suc (length t)) 0) ≡ t ++ (0 ∷ [])
unfolding copy
copy-replicate [] = refl
copy-replicate (c ∷ t) = ap (λ l. c ∷ l) (copy-replicate t)

-- A mapping that starts with a text and its NUL reads as that text.
pub c_string-copy :
    (t : Text) (bytes : List ℕ) → Lacks 0 t → c_string (copy (t ++ (0 ∷ [])) bytes) ≡ t
unfolding c_string copy
c_string-copy [] [] h = refl
c_string-copy [] (b ∷ bytes) h = refl
c_string-copy (zero ∷ t) bytes h = absurd (h.0 refl)
c_string-copy (suc c ∷ t) [] h = ap (λ l. suc c ∷ l) (c_string-copy t [] h.1)
c_string-copy (suc c ∷ t) (b ∷ bytes) h = ap (λ l. suc c ∷ l) (c_string-copy t bytes h.1)

copy-ne-nil : (t : Text) (bytes : List ℕ) → copy (t ++ (0 ∷ [])) bytes ≢ []
unfolding copy
copy-ne-nil [] [] e = cc
copy-ne-nil [] (b ∷ bytes) e = cc
copy-ne-nil (c ∷ t) [] e = cc
copy-ne-nil (c ∷ t) (b ∷ bytes) e = cc

-- A file in which a mapping reads as the text `t`.
pub record IsText (t : Text) (file : File) : Type 0 where
  pub bytes : List ℕ
  pub is_there : file ≡ some bytes
  pub not_empty : bytes ≢ []
  pub reads : c_string bytes ≡ t

pub fill-IsText :
    (calls : Syscalls) (t : Text) (bytes : List ℕ)
    → Lacks 0 t
    → (fill calls (some t) (some bytes)).0 ≡ ok tt
    → IsText t (fill calls (some t) (some bytes)).1
unfolding fill
fill-IsText calls t bytes h e = record {
  bytes = copy (t ++ (0 ∷ [])) (stretch (suc (length t)) bytes);
  is_there = ground arith;
  not_empty = copy-ne-nil t _;
  reads = c_string-copy t _ h;
}

-- A file that has been opened for writing is empty.
pub open_truncated_empties :
    (calls : Syscalls) (file : File) {f : File}
    → open_truncated calls file ≡ (ok tt, f)
    → f ≡ some []
unfolding open_truncated
open_truncated_empties calls file e = ground arith

module _ (P : Parson) where
  read_some :
      (calls : Syscalls) (bytes : List ℕ) {s : Option Text}
      → bytes ≢ []
      → read_file P calls (some bytes) ≡ ok s
      → s ≡ pretty P (c_string bytes)
  unfolding read_file
  read_some calls [] h e = absurd (h refl)
  read_some calls (b ∷ bytes) h e = ground arith

  -- A read of a file that holds a text returns that text in pretty form, or ends the process.
  pub read_file-IsText :
      (calls : Syscalls) {t : Text} {file : File} {s : Option Text}
      → IsText t file
      → read_file P calls file ≡ ok s
      → s ≡ pretty P t
  read_file-IsText calls w e =
      read_some calls w.bytes w.not_empty (rw w.is_there at e) ∙ ap (pretty P) w.reads

  -- If the system calls succeed, the read does return.
  pub read_file-IsText_ok :
      {t : Text} {file : File} → IsText t file → read_file P all_ok file ≡ ok (pretty P t)
  unfolding read_file
  read_file-IsText_ok w = rw (w.is_there, ← w.reads) (returns w.bytes w.not_empty)
    where
      returns :
          (bytes : List ℕ)
          → bytes ≢ []
          → read_file P all_ok (some bytes) ≡ ok (pretty P (c_string bytes))
      returns [] h = absurd (h refl)
      returns (b ∷ bytes) h = refl

-- How a call of `write_file` ends, by the first call of the operating system that fails: the result,
-- and what is then at the path.
pub data Outcome (calls : Syscalls) (text : Text) (file : File)
    : Result (Unit {0}) × File → Type 0 where
  not_opened : calls.open_ok ≡ false → Outcome calls text file (exit exit_failure, file)
  emptied :
      calls.open_ok ≡ true
      → (calls.lseek_ok && calls.write_ok) ≡ false
      → Outcome calls text file (exit exit_failure, some [])
  zeroed :
      calls.open_ok ≡ true
      → (calls.lseek_ok && calls.write_ok) ≡ true
      → calls.mmap_ok ≡ false
      → Outcome calls text file (exit exit_failure, some (replicate (suc (length text)) 0))
  not_unmapped :
      calls.open_ok ≡ true
      → (calls.lseek_ok && (calls.write_ok && calls.mmap_ok)) ≡ true
      → calls.munmap_ok ≡ false
      → Outcome calls text file (exit exit_failure, some (text ++ (0 ∷ [])))
  written :
      calls.open_ok ≡ true
      → (calls.lseek_ok && (calls.write_ok && calls.mmap_ok)) ≡ true
      → calls.munmap_ok ≡ true
      → Outcome calls text file (ok tt, some (text ++ (0 ∷ [])))

module _ (fstat_ok : Bool) (text : Text) (file : File) where
  outcome :
      (open_ok lseek_ok write_ok mmap_ok munmap_ok : Bool)
      → Outcome
          (record {
            open_ok = open_ok;
            fstat_ok = fstat_ok;
            lseek_ok = lseek_ok;
            write_ok = write_ok;
            mmap_ok = mmap_ok;
            munmap_ok = munmap_ok;
          })
          text
          file
          (write_file
            (record {
              open_ok = open_ok;
              fstat_ok = fstat_ok;
              lseek_ok = lseek_ok;
              write_ok = write_ok;
              mmap_ok = mmap_ok;
              munmap_ok = munmap_ok;
            })
            (some text)
            file)
  unfolding write_file open_truncated fill
  outcome false l w m u = not_opened refl
  outcome true false w m u = emptied refl refl
  outcome true true false m u = emptied refl refl
  outcome true true true false u = rw (stretch-nil (suc (length text))) (zeroed refl refl refl)
  outcome true true true true false =
      rw (stretch-nil (suc (length text)), copy-replicate text) (not_unmapped refl refl refl)
  outcome true true true true true =
      rw (stretch-nil (suc (length text)), copy-replicate text) (written refl refl refl)

-- A write of a text, by the first call of the operating system that fails: if `open` does, it ends
-- with status 1 and the file as it was; if `lseek` or `write`, with status 1 and an empty file; if
-- `mmap`, with status 1 and as many zeros as the text with its NUL has characters; if `munmap`, with
-- status 1 and the text with its NUL; if none does, it returns, with the text and its NUL.
pub write_file_outcome :
    (calls : Syscalls) (text : Text) (file : File)
    → Outcome calls text file (write_file calls (some text) file)
write_file_outcome calls text file =
    outcome calls.fstat_ok text file calls.open_ok calls.lseek_ok calls.write_ok calls.mmap_ok
      calls.munmap_ok

-- A write that is given NULL empties the file before it looks at the pointer, and ends the process.
pub write_file_null :
    (calls : Syscalls) (file : File)
    → calls.open_ok ≡ true
    → write_file calls none file ≡ (exit 1, some [])
unfolding write_file open_truncated fill
write_file_null calls file h = rw h

-- So it never returns.
pub write_file_null_exits :
    (calls : Syscalls) (file : File) → (write_file calls none file).0 ≡ ok tt → ⊥
unfolding write_file open_truncated fill
write_file_null_exits calls file e = ground arith

write_file_opened :
    (calls : Syscalls) (text : Option Text) (file : File)
    → (write_file calls text file).0 ≡ ok tt
    → write_file calls text file ≡ fill calls text (some [])
unfolding write_file open_truncated fill
write_file_opened calls text file h = ground arith

pub write_file-IsText :
    (calls : Syscalls) (text : Text) (file : File)
    → Lacks 0 text
    → (write_file calls (some text) file).0 ≡ ok tt
    → IsText text (write_file calls (some text) file).1
write_file-IsText calls text file h returned =
    let opened = write_file_opened calls (some text) file returned in
    rw opened (fill-IsText calls text [] h (rw opened at returned))

-- What a write that returns has written, a read in any other program finds: the pretty form of the
-- same document.
pub read_file-write_file :
    (P : Parson) (calls : Syscalls) (text : Text) (file : File)
    → Lacks 0 text
    → (write_file calls (some text) file).0 ≡ ok tt
    → read_file P all_ok (write_file calls (some text) file).1 ≡ ok (pretty P text)
read_file-write_file P calls text file h returned =
    read_file-IsText_ok P (write_file-IsText calls text file h returned)
