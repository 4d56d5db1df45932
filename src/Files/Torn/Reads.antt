-- ===== src/Files/Torn/Reads.antt =====
-- What is read in the middle of a write.
use so_pr2_synchronization.Base.{
  ℕ, zero, suc, ◌≤◌, ◌<◌, ◌≡◌, ◌≢◌, ◌⊎◌, inl, inr, refl, sym, ap, ◌∙◌, some, List, [], ◌∷◌, ◌++◌,
  Text, Lacks, length, replicate, get_elem?, set, length-append, lt-length, arith,
}
use so_pr2_synchronization.Json.{Parson}
use so_pr2_synchronization.Files.{
  all_ok, ok, exit, exit_failure, c_string, stretch, copy, pretty, read_file, fill,
}
use so_pr2_synchronization.Files.Laws.{IsText, read_file-IsText_ok, stretch-nil, copy-replicate}
use so_pr2_synchronization.Files.Torn.{
  Place, opened, copying, stretch_file, copy_byte, Moment, at_open, later,
}

-- The first bytes of a text.
abbrev pub take : ℕ → Text → Text
take zero t = []
take (suc i) [] = []
take (suc i) (c ∷ t) = c ∷ take i t

-- The first `i` bytes of `t`, and zeros in place of the others.
pub torn : ℕ → List ℕ → List ℕ
torn zero t = replicate (length t) 0
torn (suc i) [] = []
torn (suc i) (c ∷ t) = c ∷ torn i t

set-torn :
    (i : ℕ) (t : List ℕ) (c : ℕ) → get_elem? t i ≡ some c → set (torn i t) i c ≡ torn (suc i) t
unfolding torn
set-torn i [] c e = cc
set-torn zero (d ∷ t) c e = cc
set-torn (suc i) (d ∷ t) c e = ap (λ l. d ∷ l) (set-torn i t c e)

torn_whole : (t : List ℕ) → torn (length t) t ≡ t
unfolding torn
torn_whole [] = refl
torn_whole (c ∷ t) = ap (λ l. c ∷ l) (torn_whole t)

c_string-torn : (i : ℕ) (t : Text) → Lacks 0 t → c_string (torn i (t ++ (0 ∷ []))) ≡ take i t
unfolding c_string torn
c_string-torn zero [] h = refl
c_string-torn zero (c ∷ t) h = refl
c_string-torn (suc i) [] h = refl
c_string-torn (suc i) (zero ∷ t) h = absurd (h.0 refl)
c_string-torn (suc i) (suc c ∷ t) h = ap (λ l. suc c ∷ l) (c_string-torn i t h.1)

torn-ne-nil : (i : ℕ) (t : Text) → torn i (t ++ (0 ∷ [])) ≢ []
unfolding torn
torn-ne-nil zero [] e = cc
torn-ne-nil zero (c ∷ t) e = cc
torn-ne-nil (suc i) [] e = cc
torn-ne-nil (suc i) (c ∷ t) e = cc

-- How far a write can have come, and what it has left by then.
abbrev pub Left : Text → Place → List ℕ → Type 0
Left text opened bytes = bytes ≡ []
Left text (copying i) bytes = (i ≤ suc (length text)) × (bytes ≡ torn i (text ++ (0 ∷ [])))

length-nul : (text : Text) → length (text ++ (0 ∷ [])) ≡ suc (length text)
length-nul text = omega (arith, length-append text (0 ∷ []))

pub Moment-Left :
    {text : Text} {p : Place} {bytes : List ℕ} → Moment text p bytes → Left text p bytes
unfolding torn
Moment-Left at_open = refl
Moment-Left {text} (later before stretch_file) =
    let empty : stretch (suc (length text)) _ ≡ replicate (suc (length text)) 0 =
      ap (stretch (suc (length text))) (Moment-Left before) ∙ stretch-nil (suc (length text)) in
    (omega arith, empty ∙ ap (λ n. replicate n 0) (sym (length-nul text)))
Moment-Left {text} (later before (copy_byte {i} c e)) =
    let (bound, what) = Moment-Left before in
    (
      omega (arith, lt-length (text ++ (0 ∷ [])) i e, length-nul text),
      ap (λ l. set l i c) what ∙ set-torn i (text ++ (0 ∷ [])) c e,
    )

get_elem?-lt : (t : List ℕ) (i : ℕ) → i < length t → (c : ℕ) × (get_elem? t i ≡ some c)
get_elem?-lt [] i h = absurd (omega arith)
get_elem?-lt (c ∷ t) zero h = (c, refl)
get_elem?-lt (c ∷ t) (suc i) h = get_elem?-lt t i (omega arith)

-- Every place is come to.
pub Moment-copying :
    (text : Text) (i : ℕ) → i ≤ suc (length text) → (bytes : List ℕ) × Moment text (copying i) bytes
Moment-copying text zero h = (_, later at_open stretch_file)
Moment-copying text (suc i) h =
    let (bytes, before) = Moment-copying text i (omega arith) in
    let (c, e) = get_elem?-lt (text ++ (0 ∷ [])) i (omega (arith, length-nul text)) in
    (_, later before (copy_byte c e))

pub torn_none : (text : Text) → torn 0 (text ++ (0 ∷ [])) ≡ replicate (suc (length text)) 0
unfolding torn
torn_none text = ap (λ n. replicate n 0) (length-nul text)

pub torn_all : (text : Text) → torn (suc (length text)) (text ++ (0 ∷ [])) ≡ text ++ (0 ∷ [])
torn_all text =
    ap (λ n. torn n (text ++ (0 ∷ []))) (sym (length-nul text)) ∙ torn_whole (text ++ (0 ∷ []))

-- The last moment leaves what `fill` leaves.
Moment-fill :
    (text : Text) (bytes : List ℕ)
    → Moment text (copying (suc (length text))) bytes
    → fill all_ok (some text) (some []) ≡ (ok tt, some bytes)
unfolding fill
Moment-fill text bytes m =
    let filled : copy (text ++ (0 ∷ [])) (stretch (suc (length text)) []) ≡ text ++ (0 ∷ []) =
      rw (stretch-nil (suc (length text))) (copy-replicate text) in
    ap (λ l. (ok tt, some l)) (filled ∙ sym (torn_all text) ∙ sym (Moment-Left m).1)

-- The C string of a file that has been stretched.
Moment-IsText :
    {text : Text} (i : ℕ) {bytes : List ℕ}
    → Lacks 0 text
    → Moment text (copying i) bytes
    → IsText (take i text) (some bytes)
Moment-IsText {text} i {bytes} no_nul m =
    let (bound, what) = Moment-Left m in
    record {
      bytes = bytes;
      is_there = refl;
      not_empty = λ e. torn-ne-nil i text (sym what ∙ e);
      reads = ap c_string what ∙ c_string-torn i text no_nul;
    }

pub Moment-read :
    (P : Parson) {text : Text} (i : ℕ) {bytes : List ℕ}
    → Lacks 0 text
    → Moment text (copying i) bytes
    → read_file P all_ok (some bytes) ≡ ok (pretty P (take i text))
Moment-read P i no_nul m = read_file-IsText_ok P (Moment-IsText i no_nul m)

-- A read, with system calls that succeed, at any moment of a write of a text without NUL: either the
-- file has only been opened, and the read ends the process with status 1, or it returns what is made
-- of the first characters of the text, as many as have been copied by then, in place of the text.
pub torn_read :
    (P : Parson) {text : Text} {p : Place} {bytes : List ℕ}
    → Lacks 0 text
    → Moment text p bytes
    → ((p ≡ opened) × (read_file P all_ok (some bytes) ≡ exit exit_failure))
      ⊎ ((i : ℕ) × (p ≡ copying i)
          × (i ≤ suc (length text))
          × (read_file P all_ok (some bytes) ≡ ok (pretty P (take i text))))
unfolding read_file
torn_read P {p = opened} no_nul m = inl (refl, rw (Moment-Left m))
torn_read P {p = copying i} no_nul m = inr (i, refl, (Moment-Left m).0, Moment-read P i no_nul m)
