-- ===== src/Algorithms/Select.antt =====
-- include/algorithms.c: what `select_algorithm` makes of its input.
use so_pr2_synchronization.Base.{
  ◌≡◌, ap, ◌⊎◌, ◌↔◌, inl, inr, ℤ, Option, none, some, List, [], ◌∷◌, ◌++◌, arith, Option-cases,
}
use so_pr2_synchronization.Algorithms.{
  Algorithm, best_fit, first_fit, worst_fit, algorithm_of, scan, select_algorithm,
}

-- The value of `code` after some calls of `scanf`.
abbrev pub last_code : List (Option ℤ) → ℤ → ℤ
last_code [] code = code
last_code (entry ∷ input) code = last_code input (scan entry code)

-- After each of these calls `code` names no algorithm.
abbrev pub Rejected : List (Option ℤ) → ℤ → Type 0
Rejected [] code = Unit
Rejected (entry ∷ input) code =
    (algorithm_of (scan entry code) ≡ none) × Rejected input (scan entry code)

-- The menu is shown again after every entry that names no algorithm, and the first one that does
-- ends the loop with the input behind it unread.
select_algorithm_accepts :
    (bad : List (Option ℤ)) (entry : Option ℤ) (rest : List (Option ℤ)) (code : ℤ)
    {algorithm : Algorithm}
    → Rejected bad code
    → algorithm_of (scan entry (last_code bad code)) ≡ some algorithm
    → select_algorithm (bad ++ (entry ∷ rest)) code ≡ some (algorithm, rest)
unfolding select_algorithm
select_algorithm_accepts [] entry rest code h e = rw (e, select_algorithm)
select_algorithm_accepts (b ∷ bad) entry rest code h e =
    rw (h.0, select_algorithm) (select_algorithm_accepts bad entry rest (scan b code) h.1 e)

-- The parts of the input around the entry that ended the loop.
pub record Accepted (input : List (Option ℤ)) (code : ℤ) (algorithm : Algorithm)
    (rest : List (Option ℤ)) : Type 0 where
  pub bad : List (Option ℤ)
  pub entry : Option ℤ
  pub split : input ≡ bad ++ (entry ∷ rest)
  pub rejected : Rejected bad code
  pub accepted : algorithm_of (scan entry (last_code bad code)) ≡ some algorithm

-- One of the constants of `algorithm_t`.
abbrev pub IsNamed : Algorithm → Type 0
IsNamed algorithm = (algorithm ≡ best_fit) ⊎ (algorithm ≡ first_fit) ⊎ (algorithm ≡ worst_fit)

algorithm_of-IsNamed :
    (code : ℤ) {algorithm : Algorithm} → algorithm_of code ≡ some algorithm → IsNamed algorithm
unfolding algorithm_of
algorithm_of-IsNamed code e = ground arith

-- A result comes from the first entry that names an algorithm, and it is one of the three.
select_algorithm_sound :
    (input : List (Option ℤ)) (code : ℤ) {algorithm : Algorithm} {rest : List (Option ℤ)}
    → select_algorithm input code ≡ some (algorithm, rest)
    → Accepted input code algorithm rest × IsNamed algorithm
unfolding select_algorithm
select_algorithm_sound [] code e = cc
select_algorithm_sound (entry ∷ input) code {algorithm} {rest} e =
    elim (Option-cases (algorithm_of (scan entry code))) [
      | inl no_name ↦
          prepend no_name
            (select_algorithm_sound input (scan entry code) (rw (no_name, select_algorithm) at e))
      | inr (a, named) ↦ stop named (rw (named, select_algorithm) at e)
    ]
  where
    prepend :
        algorithm_of (scan entry code) ≡ none
        → Accepted input (scan entry code) algorithm rest × IsNamed algorithm
        → Accepted (entry ∷ input) code algorithm rest × IsNamed algorithm
    prepend no_name (w, named) = (
      record {
        bad = entry ∷ w.bad;
        entry = w.entry;
        split = ap (λ l. entry ∷ l) w.split;
        rejected = (no_name, w.rejected);
        accepted = w.accepted;
      },
      named,
    )

    stop :
        {a : Algorithm}
        → algorithm_of (scan entry code) ≡ some a
        → ◌≡◌ {A = Option (Algorithm × List (Option ℤ))} (some (a, input)) (some (algorithm, rest))
        → Accepted (entry ∷ input) code algorithm rest × IsNamed algorithm
    stop named e = (
      record {
        bad = [];
        entry = entry;
        split = ground arith;
        rejected = tt;
        accepted = ground arith;
      },
      algorithm_of-IsNamed (scan entry code) (ground arith),
    )

-- The menu returns an algorithm with some input unread exactly if the input consists of entries that
-- name no algorithm, then one that names this algorithm, then the unread ones.
pub select_algorithm_iff :
    (input : List (Option ℤ)) (code : ℤ) (algorithm : Algorithm) (rest : List (Option ℤ))
    → (select_algorithm input code ≡ some (algorithm, rest)) ↔ Accepted input code algorithm rest
select_algorithm_iff input code algorithm rest = (
  λ e. (select_algorithm_sound input code e).0,
  λ w. rw w.split (select_algorithm_accepts w.bad w.entry rest code w.rejected w.accepted),
)
