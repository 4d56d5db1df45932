-- ===== src/Experiments/Greeting.antt =====
-- examples/server.c and examples/client.c: a text in a mapped file, with a semaphore beside it.
pub mod Order
use so_pr2_synchronization.Base.{
  ℕ, zero, suc, ◌+◌, ◌≤◌, ◌<◌, ◌≡◌, Bool, true, false, Option, none, some, List, [], ◌∷◌, ◌++◌,
  Text, codes, update, leb, if◌then◌else◌,
}

-- `struct shared`: the semaphore and the buffer of 100 bytes.
pub record Mapped : Type 0 where
  pub mutex : ℕ
  pub buffer : ℕ → ℕ

-- Where `main` of server.c stands: before `sem_init`, in `strcpy` before the byte `j`, before
-- `sem_wait`, before the store to `buffer[i]`, or behind these.
pub data Server : Type 0 where
  initiating : Server
  greeting : (j : ℕ) → Server
  waiting : Server
  changing : (i : ℕ) → Server
  over : Server

-- Where `main` of client.c stands: before `sem_post`, in `printf` before its read of the byte `j`, or
-- behind it.
pub data Client : Type 0 where
  posting : Client
  printing : (j : ℕ) → Client
  done : Client

pub record Sharing : Type 0 where
  pub mapped : Mapped
  pub server : Server
  pub client : Client
  pub printed : Text

abbrev pub char_at : Text → ℕ → ℕ
char_at [] j = 0
char_at (c ∷ text) zero = c
char_at (c ∷ text) (suc j) = char_at text j

abbrev pub test_text : Text
test_text = codes "This is a test"

-- `sem_init` sets the semaphore to 0 whatever it was. `strcpy` writes, and `printf` reads, one byte
-- after the other, and the two programs go on in any order.
pub data Step (s : Sharing) : Sharing → Type 0 where
  initiate :
      s.server ≡ initiating
      → Step s (record s { mapped = record s.mapped { mutex = 0 }; server = greeting 0 })
  copy_byte :
      {j : ℕ}
      → s.server ≡ greeting j
      → j < 14
      → Step s (record s {
        mapped = record s.mapped { buffer = update s.mapped.buffer j (char_at test_text j) };
        server = greeting (suc j);
      })
  copy_nul :
      s.server ≡ greeting 14
      → Step s (record s {
        mapped = record s.mapped { buffer = update s.mapped.buffer 14 0 };
        server = waiting;
      })
  wait :
      {n : ℕ}
      → s.server ≡ waiting
      → s.mapped.mutex ≡ suc n
      → Step s (record s { mapped = record s.mapped { mutex = n }; server = changing 1 })
  change :
      {i : ℕ}
      → s.server ≡ changing i
      → i < 8
      → Step s (record s {
        mapped = record s.mapped { buffer = update s.mapped.buffer i b'a' };
        server = changing (suc i);
      })
  destroy : s.server ≡ changing 8 → Step s (record s { server = over })
  post :
      s.client ≡ posting
      → Step s (record s {
        mapped = record s.mapped { mutex = suc s.mapped.mutex };
        client = printing 0;
      })
  print_byte :
      {j c : ℕ}
      → s.client ≡ printing j
      → s.mapped.buffer j ≡ suc c
      → Step s (record s { client = printing (suc j); printed = s.printed ++ (suc c ∷ []) })
  print_end :
      {j : ℕ} → s.client ≡ printing j → s.mapped.buffer j ≡ 0 → Step s (record s { client = done })

-- The file as the server has made it: all of it zeros. Both programs have mapped it.
abbrev pub made : Sharing
made = record {
  mapped = record { mutex = 0; buffer = λ j. 0 };
  server = initiating;
  client = posting;
  printed = [];
}

pub data Reach (s : Sharing) : Sharing → Type 0 where
  start : Reach s s
  later : {t u : Sharing} → Reach s t → Step t u → Reach s u
