-- ===== src/Experiments/Greeting/Order.antt =====
-- examples/server.c and examples/client.c: what the client can print.
use so_pr2_synchronization.Base.{
  ℕ, zero, suc, ◌≤◌, ◌<◌, ◌≡◌, ◌⊎◌, refl, sym, ◌∙◌, subst, inl, inr, ◌==◌, ==_iff, Bool-cases, some,
  [], ◌∷◌, ◌++◌, Text, length, length-append, get_elem?, update, dec_lt, arith,
}
use so_pr2_synchronization.Experiments.Greeting.{
  changing, Client, posting, printing, done, Sharing, char_at, test_text, Step, initiate, copy_byte,
  copy_nul, wait, change, destroy, post, print_byte, print_end, made, Reach, start, later,
}

-- What a byte of the buffer, or a character that is printed, can be.
abbrev pub IsShown : (k c : ℕ) → Type 0
IsShown k c = (c ≡ char_at test_text k) ⊎ ((1 ≤ k) × (k < 8) × (c ≡ b'a'))

char_behind : (text : Text) (k : ℕ) → length text ≤ k → char_at text k ≡ 0
char_behind [] k h = refl
char_behind (c ∷ text) zero h = absurd (omega arith)
char_behind (c ∷ text) (suc k) h = char_behind text k (omega arith)

get_elem?-snoc :
    (text : Text) (c k d : ℕ)
    → get_elem? (text ++ (c ∷ [])) k ≡ some d
    → (get_elem? text k ≡ some d) ⊎ ((k ≡ length text) × (d ≡ c))
get_elem?-snoc [] c zero d e = inr (refl, ground (arith, e))
get_elem?-snoc [] c (suc k) d e = cc
get_elem?-snoc (b ∷ text) c zero d e = inl e
get_elem?-snoc (b ∷ text) c (suc k) d e = elim (get_elem?-snoc text c k d e) [
  | inl inside ↦ inl inside
  | inr (at, same) ↦ inr (omega (arith, at), same)
]

-- Where the client stands, after so many characters.
abbrev IsAt : ℕ → Client → Type 0
IsAt n posting = n ≡ 0
IsAt n (printing j) = n ≡ j
IsAt n done = Unit

record Kept (s : Sharing) : Type 0 where
  cells : (k : ℕ) → (s.mapped.buffer k ≡ 0) ⊎ IsShown k (s.mapped.buffer k)
  at : IsAt (length s.printed) s.client
  shown : (k c : ℕ) → get_elem? s.printed k ≡ some c → (k < 14) × IsShown k c
  changes : (i : ℕ) → s.server ≡ changing i → 1 ≤ i

updated :
    (buffer : ℕ → ℕ) (j c : ℕ)
    → ((c ≡ 0) ⊎ IsShown j c)
    → ((k : ℕ) → (buffer k ≡ 0) ⊎ IsShown k (buffer k))
    → (k : ℕ) → (update buffer j c k ≡ 0) ⊎ IsShown k (update buffer j c k)
updated buffer j c here h k = elim (Bool-cases (j == k)) [
  | inl same ↦ rw same (subst (λ x. (c ≡ 0) ⊎ IsShown x c) ((==_iff j k).0 same) here)
  | inr other ↦ rw other (h k)
]

-- A byte that is printed is no NUL, so it is one of the first 14.
test_text-length : length test_text ≡ 14
test_text-length = refl

printed-IsShown : (k c : ℕ) → ((suc c ≡ 0) ⊎ IsShown k (suc c)) → (k < 14) × IsShown k (suc c)
printed-IsShown k c (inl e) = absurd (omega (arith, e))
printed-IsShown k c (inr (inr (a, b, e))) = (omega (arith, b), inr (a, b, e))
printed-IsShown k c (inr (inl e)) = (
  elim (dec_lt k 14) [
    | yes below ↦ below
    | no h ↦ absurd (omega (arith, e ∙ char_behind test_text k (omega (arith, h))))
  ],
  inl e,
)

Step-Kept : {s t : Sharing} → Step s t → Kept s → Kept t
Step-Kept (initiate e) h = record {
  cells = h.cells;
  at = h.at;
  shown = h.shown;
  changes = λ i e. cc;
}
Step-Kept {s} (copy_byte {j} e lt) h = record {
  cells = updated s.mapped.buffer j _ (inr (inl refl)) h.cells;
  at = h.at;
  shown = h.shown;
  changes = λ i e. cc;
}
Step-Kept {s} (copy_nul e) h = record {
  cells = updated s.mapped.buffer 14 0 (inl refl) h.cells;
  at = h.at;
  shown = h.shown;
  changes = λ i e. cc;
}
Step-Kept (wait e red) h = record {
  cells = h.cells;
  at = h.at;
  shown = h.shown;
  changes = λ i e. ground (arith, e);
}
Step-Kept {s} (change {i} e lt) h = record {
  cells = updated s.mapped.buffer i b'a' (inr (inr (h.changes i e, lt, refl))) h.cells;
  at = h.at;
  shown = h.shown;
  changes = λ k e'. ground (arith, e');
}
Step-Kept (destroy e) h = record {
  cells = h.cells;
  at = h.at;
  shown = h.shown;
  changes = λ i e. cc;
}
Step-Kept {s} (post e) h = record {
  cells = h.cells;
  at = subst (IsAt (length s.printed)) e h.at;
  shown = h.shown;
  changes = h.changes;
}
Step-Kept {s} (print_byte {j} {c} e byte) h =
    let here : length s.printed ≡ j = subst (IsAt (length s.printed)) e h.at in
    record {
      cells = h.cells;
      at = omega (arith, here, length-append s.printed (suc c ∷ []));
      shown = λ k d e'. elim (get_elem?-snoc s.printed (suc c) k d e') [
        | inl before ↦ h.shown k d before
        | inr (at, same) ↦
            subst (λ x. (k < 14) × IsShown k x) (sym same)
              (subst (λ x. (x < 14) × IsShown x (suc c)) (sym (at ∙ here))
                (printed-IsShown j c (subst (λ x. (x ≡ 0) ⊎ IsShown j x) byte (h.cells j))))
      ];
      changes = h.changes;
    }
Step-Kept (print_end e byte) h = record {
  cells = h.cells;
  at = tt;
  shown = h.shown;
  changes = h.changes;
}

Reach-Kept : {t : Sharing} → Reach made t → Kept t
Reach-Kept start = record {
  cells = λ k. inl refl;
  at = refl;
  shown = λ k c e. cc;
  changes = λ i e. cc;
}
Reach-Kept (later before step) = Step-Kept step (Reach-Kept before)

-- From the file as server.c makes it, and in whatever order the two programs go on, with the bytes
-- that strcpy writes and printf reads one by one: a character that the client has printed is one of
-- the first 14, and it is that of the greeting at its place, or an a in the places 1 to 7.
pub client_prints :
    {t : Sharing}
    → Reach made t
    → (k c : ℕ) → get_elem? t.printed k ≡ some c
    → (k < 14) × ((c ≡ char_at test_text k) ⊎ ((1 ≤ k) × (k < 8) × (c ≡ b'a')))
client_prints reached k c e = (Reach-Kept reached).shown k c e
