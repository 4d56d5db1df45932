-- ===== src/Tests/Greetings.antt =====
-- examples/server.c and examples/client.c: a client that prints while the server copies the text.
use so_pr2_synchronization.Base.{ℕ, ◌≤◌, ◌<◌, ◌≡◌, ◌⊎◌, refl, codes, arith}
use so_pr2_synchronization.Experiments.Greeting.{
  Sharing, made, char_at, test_text, initiate, copy_byte, post, print_byte, print_end, Reach, start,
  later,
}
use so_pr2_synchronization.Experiments.Greeting.Order.{client_prints}

-- The client prints the two characters that strcpy has copied by then.
abbrev early_print : (t : Sharing) × Reach made t
early_print = (
  _,
  later
      (later
        (later
          (later
            (later (later (later start (initiate refl)) (copy_byte {j = 0} refl (omega arith)))
              (copy_byte {j = 1} refl (omega arith)))
            (post refl))
          (print_byte {j = 0} {c = 83} refl refl))
        (print_byte {j = 1} {c = 103} refl refl))
      (print_end {j = 2} refl refl),
)

early_text : early_print.0.printed ≡ codes "Th"
early_text = refl

abbrev second : ℕ
second = 104

client_prints_example :
    (1 < 14) × ((second ≡ char_at test_text 1) ⊎ ((1 ≤ 1) × (1 < 8) × (second ≡ b'a')))
client_prints_example = client_prints early_print.1 1 second refl
