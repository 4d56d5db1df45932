-- ===== src/System/Glimpse.antt =====
-- producer.c: what another program can find in the memory, byte by byte, while the workers run.
use so_pr2_synchronization.Base.{
  ℕ, suc, ◌≤◌, ◌<◌, ◌≡◌, ◌⊎◌, refl, inl, inr, List, [], ◌∷◌, ◌++◌, Option, none, some, Text, Lacks,
  length, total, le-sum_below, ap, arith,
}
use so_pr2_synchronization.Json.{Parson}
use so_pr2_synchronization.Files.{File}
use so_pr2_synchronization.Files.Torn.{Place, opened, copying, Moment}
use so_pr2_synchronization.Files.Torn.Reads.{torn, Moment-Left}
use so_pr2_synchronization.Worker.Points.{Pc, filling, take_fill, return_fill}
use so_pr2_synchronization.System.{System}
use so_pr2_synchronization.System.Invariant.{IsPending}

-- The text of a worker in the middle of a write of the memory.
abbrev pub text_of : Pc → Option Text
text_of (take_fill p k t) = t
text_of (return_fill p k t) = t
text_of _ = none

-- In a state of the workers the memory is what it is between two of their steps, or what it is at a
-- moment of the write of one that is in the middle of a write of it.
pub data Glimpse (n : ℕ) (s : System) : File → Type 0 where
  whole : Glimpse n s s.shared.memory
  half :
      (i : ℕ) {text : Text} {p : Place} {bytes : List ℕ}
      → i < n
      → text_of (s.pc i) ≡ some text
      → Moment text p bytes
      → Glimpse n s (some bytes)

pub text_of-filling : (p : Pc) {text : Text} → text_of p ≡ some text → filling p ≡ 1
text_of-filling (take_fill p k t) e = refl
text_of-filling (return_fill p k t) e = refl
text_of-filling p e = absurd cc

pub quiet-Glimpse :
    {n : ℕ} {s : System} {f : File} → total filling n s.pc ≡ 0 → Glimpse n s f → f ≡ s.shared.memory
quiet-Glimpse quiet whole = refl
quiet-Glimpse {n} {s} quiet (half i lt e m) =
    absurd (
      omega (arith, le-sum_below n (λ x. filling (s.pc x)) i lt, text_of-filling (s.pc i) e, quiet))

-- While a worker writes it, the memory is empty, or a beginning of a text that is written, with zeros
-- in place of the rest.
abbrev pub IsBroken : (n : ℕ) → (ℕ → Pc) → File → Type 0
IsBroken n pc f =
    (f ≡ some [])
    ⊎ ((i : ℕ) × (i < n)
        × (text : Text) × (text_of (pc i) ≡ some text)
        × (m : ℕ) × (m ≤ suc (length text))
        × (f ≡ some (torn m (text ++ (0 ∷ [])))))

pub Glimpse-IsBroken :
    {n : ℕ} {s : System} {f : File} → s.shared.memory ≡ some [] → Glimpse n s f → IsBroken n s.pc f
Glimpse-IsBroken empty whole = inl empty
Glimpse-IsBroken empty (half i {p = opened} lt e m) = inl (ap some (Moment-Left m))
Glimpse-IsBroken empty (half i {p = copying k} lt e m) =
    let (bound, what) = Moment-Left m in inr (i, lt, _, e, k, bound, ap some what)

-- A text that a worker writes to the memory has no NUL.
pub text_of-Lacks :
    (P : Parson) (count id : ℕ) (free : ℕ → ℕ) (processes : ℕ → P.Object) (p : Pc) {text : Text}
    → text_of p ≡ some text
    → IsPending P count id free processes p
    → Lacks 0 text
text_of-Lacks P count id free processes (take_fill p k t) {text} e pending =
    (pending.1 text e).no_nul
text_of-Lacks P count id free processes (return_fill p k t) {text} e pending =
    (pending text e).no_nul
text_of-Lacks P count id free processes p e pending = absurd cc
