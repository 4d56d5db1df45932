-- ===== src/Algorithms/Loop.antt =====
-- include/algorithms.c: the loop of `search_index` over a family of free spaces.
use so_pr2_synchronization.Base.{
  ℕ, zero, suc, ◌+◌, ◌<◌, ◌≡◌, refl, ◌⊎◌, inl, inr, ℤ, ◌≤ℤ◌, ◌<ℤ◌, ltb_ℤ, leb_ℤ, Bool, true, false,
  Option, none, some, arith, if◌then◌else◌, Bool-cases, sym, ap, subst,
}
use so_pr2_synchronization.Algorithms.{
  Algorithm, best_fit, first_fit, worst_fit, other, visit, search_loop,
}

-- Among the first `n` partitions, `k` is the leftmost of those that are large enough and come first
-- in the order `better`.
pub record IsLeftmost (free : ℕ → ℤ) (size : ℤ) (better : ℤ → ℤ → Type 0) (n k : ℕ) : Type 0 where
  pub within : k < n
  pub fits : size ≤ℤ free k
  pub minimal : (j : ℕ) → j < n → size ≤ℤ free j → ¬ better (free j) (free k)
  pub leftmost : (j : ℕ) → j < k → size ≤ℤ free j → better (free k) (free j)

-- The smallest partition that is large enough.
abbrev pub IsBest : (ℕ → ℤ) → ℤ → ℕ → ℕ → Type 0
IsBest free size = IsLeftmost free size (λ a b. a <ℤ b)

-- The largest partition.
abbrev pub IsWorst : (ℕ → ℤ) → ℤ → ℕ → ℕ → Type 0
IsWorst free size = IsLeftmost free size (λ a b. b <ℤ a)

-- The first partition that is large enough: any one is as good as another.
pub record IsFirst (free : ℕ → ℤ) (size : ℤ) (n k : ℕ) : Type 0 where
  pub within : k < n
  pub fits : size ≤ℤ free k
  pub leftmost : (j : ℕ) → j < k → ¬ (size ≤ℤ free j)

-- No partition is large enough.
abbrev pub NoneFits : (ℕ → ℤ) → ℤ → ℕ → Type 0
NoneFits free size n = (j : ℕ) → j < n → ¬ (size ≤ℤ free j)

-- What a search may say of its result.
abbrev pub Finds : (ℕ → Type 0) → Type 0 → Option ℕ → Type 0
Finds Found Nothing none = Nothing
Finds Found Nothing (some k) = Found k

-- An order on sizes with its test, in the direction that an algorithm prefers.
record Preference (algorithm : Algorithm) (better : ℤ → ℤ → Type 0) : Type 0 where
  test : ℤ → ℤ → Bool
  sound : (a b : ℤ) → test a b ≡ true → better a b
  complete : (a b : ℤ) → test a b ≡ false → ¬ better a b
  irrefl : (a : ℤ) → ¬ better a a
  trans : (a b c : ℤ) → better a b → better b c → better a c
  cotrans : (a b c : ℤ) → better a c → ¬ better b c → better a b
  visits_first : (free : ℕ → ℤ) (i : ℕ) → visit free algorithm i none ≡ (some i, false)
  visits_next :
      (free : ℕ → ℤ) (i k : ℕ)
      → visit free algorithm i (some k) ≡ (if test (free i) (free k) then some i else some k, false)

best_Preference : Preference best_fit (λ a b. a <ℤ b)
unfolding visit
best_Preference = record {
  test = ltb_ℤ;
  sound = λ a b h. ground arith;
  complete = λ a b h. ground arith;
  irrefl = λ a. omega arith;
  trans = λ a b c p q. omega arith;
  cotrans = λ a b c p q. omega arith;
  visits_first = λ free i. refl;
  visits_next = λ free i k. refl;
}

worst_Preference : Preference worst_fit (λ a b. b <ℤ a)
unfolding visit
worst_Preference = record {
  test = λ a b. ltb_ℤ b a;
  sound = λ a b h. ground arith;
  complete = λ a b h. ground arith;
  irrefl = λ a. omega arith;
  trans = λ a b c p q. omega arith;
  cotrans = λ a b c p q. omega arith;
  visits_first = λ free i. refl;
  visits_next = λ free i k. refl;
}

lt_suc : {j i : ℕ} → j < suc i → (j < i) ⊎ (j ≡ i)
lt_suc h = omega arith

module _ {algorithm : Algorithm} {better : ℤ → ℤ → Type 0} (pref : Preference algorithm better)
    (free : ℕ → ℤ) (size : ℤ) where
  abbrev SoFar : ℕ → Option ℕ → Type 0
  SoFar n = Finds (IsLeftmost free size better n) (NoneFits free size n)

  SoFar-skip : (i : ℕ) (index : Option ℕ) → ¬ (size ≤ℤ free i) → SoFar i index → SoFar (suc i) index
  SoFar-skip i none small h = λ j p. grind (arith, h)
  SoFar-skip i (some k) small h = record {
    within = omega (arith, h.within);
    fits = h.fits;
    minimal = λ j p. grind (arith, h.minimal);
    leftmost = h.leftmost;
  }

  SoFar-replace :
      (i k : ℕ)
      → size ≤ℤ free i
      → better (free i) (free k)
      → SoFar i (some k)
      → SoFar (suc i) (some i)
  SoFar-replace i k fits wins h = record {
    within = omega arith;
    fits = fits;
    minimal = λ j p q r. elim (lt_suc p) [
      | inl old ↦ h.minimal j old q (pref.trans (free j) (free i) (free k) r wins)
      | inr new ↦ pref.irrefl (free i) (subst (λ x. better (free x) (free i)) new r)
    ];
    leftmost = λ j p q. pref.cotrans (free i) (free j) (free k) wins (h.minimal j p q);
  }

  SoFar-keep : (i k : ℕ) → ¬ better (free i) (free k) → SoFar i (some k) → SoFar (suc i) (some k)
  SoFar-keep i k loses h = record {
    within = omega (arith, h.within);
    fits = h.fits;
    minimal = λ j p q. elim (lt_suc p) [
      | inl old ↦ h.minimal j old q
      | inr new ↦ subst (λ x. ¬ better (free x) (free k)) (sym new) loses
    ];
    leftmost = h.leftmost;
  }

  SoFar-visit :
      (i : ℕ) (index : Option ℕ)
      → size ≤ℤ free i
      → SoFar i index
      → SoFar (suc i) (visit free algorithm i index).0
  SoFar-visit i none fits h = rw (pref.visits_first free i) (record {
    within = omega arith;
    fits = fits;
    minimal = λ j p q r. elim (lt_suc p) [
      | inl old ↦ h j old q
      | inr new ↦ pref.irrefl (free i) (subst (λ x. better (free x) (free i)) new r)
    ];
    leftmost = λ j p q. absurd (h j p q);
  })
  SoFar-visit i (some k) fits h = elim (Bool-cases (pref.test (free i) (free k))) [
    | inl wins ↦
        rw (pref.visits_next free i k, wins)
          (SoFar-replace i k fits (pref.sound (free i) (free k) wins) h)
    | inr loses ↦
        rw (pref.visits_next free i k, loses)
          (SoFar-keep i k (pref.complete (free i) (free k) loses) h)
  ]

  goes_on : (i : ℕ) (index : Option ℕ) → (visit free algorithm i index).1 ≡ false
  goes_on i none = ap (λ (r : Option ℕ × Bool). r.1) (pref.visits_first free i)
  goes_on i (some k) = ap (λ (r : Option ℕ × Bool). r.1) (pref.visits_next free i k)

  SoFar-search :
      (rounds i n : ℕ) (index : Option ℕ)
      → i + rounds ≡ n
      → SoFar i index
      → SoFar n (search_loop free size algorithm rounds i index)
  unfolding search_loop
  SoFar-search zero i n index e h = subst (λ m. SoFar m index) (omega arith) h
  SoFar-search (suc rounds) i n index e h = elim (Bool-cases (leb_ℤ size (free i))) [
    | inl fits ↦
        rw (fits, goes_on i index)
          (SoFar-search rounds (suc i) n _ (omega arith) (SoFar-visit i index (ground arith) h))
    | inr small ↦
        rw small
          (SoFar-search rounds (suc i) n index (omega arith) (SoFar-skip i index (ground arith) h))
  ]

module _ (free : ℕ → ℤ) (size : ℤ) where
  abbrev FirstSoFar : ℕ → Option ℕ → Type 0
  FirstSoFar n = Finds (IsFirst free size n) (NoneFits free size n)

  pub search_loop-first :
      (rounds i n : ℕ)
      → i + rounds ≡ n
      → NoneFits free size i
      → FirstSoFar n (search_loop free size first_fit rounds i none)
  unfolding search_loop
  search_loop-first zero i n e h = subst (λ m. NoneFits free size m) (omega arith) h
  search_loop-first (suc rounds) i n e h = elim (Bool-cases (leb_ℤ size (free i))) [
    | inl fits ↦ rw fits (record { within = omega arith; fits = ground arith; leftmost = h })
    | inr small ↦ rw small (
        search_loop-first rounds (suc i) n (omega arith) (λ j p q. elim (lt_suc p) [
          | inl old ↦ h j old q
          | inr new ↦ absurd (unfit (subst (λ x. size ≤ℤ free x) new q) small)
        ]))
  ]
    where
      unfit : size ≤ℤ free i → leb_ℤ size (free i) ≡ false → ⊥
      unfit p q = ground arith

  pub search_loop-other :
      (n : ℤ) (rounds i : ℕ) → search_loop free size (other n) rounds i none ≡ none
  unfolding search_loop
  search_loop-other n zero i = refl
  search_loop-other n (suc rounds) i = rw (search_loop-other n rounds (suc i)) (ground arith)

-- The loop with best fit, over any family of free spaces.
pub search_loop-IsBest :
    (free : ℕ → ℤ) (size : ℤ) (n : ℕ)
    → Finds (IsBest free size n) (NoneFits free size n) (search_loop free size best_fit n 0 none)
search_loop-IsBest free size n =
    SoFar-search best_Preference free size n 0 n none (omega arith) (λ j p. absurd (omega arith))

-- The same with worst fit.
pub search_loop-IsWorst :
    (free : ℕ → ℤ) (size : ℤ) (n : ℕ)
    → Finds (IsWorst free size n) (NoneFits free size n) (search_loop free size worst_fit n 0 none)
search_loop-IsWorst free size n =
    SoFar-search worst_Preference free size n 0 n none (omega arith) (λ j p. absurd (omega arith))
