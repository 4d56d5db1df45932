-- ===== src/System/Entries.antt =====
-- producer.c: the entries of the workers in the partitions, before and after a change of one.
use so_pr2_synchronization.Base.{
  arith, ℕ, ◌≡◌, ◌≢◌, refl, ap, sym, none, ◌∙◌, Bool-cases, inl, inr, ◌==◌, ==_iff, text_eq_refl,
  update,
}
use so_pr2_synchronization.Json.{Parson, IsLawful}
use so_pr2_synchronization.Memory.{process_name, process_object}
use so_pr2_synchronization.Memory.Names.{names_differ}
use so_pr2_synchronization.Worker.Points.{
  Process, Pc, created, taken, sleeping, returning, return_open, return_fill, returned,
}
use so_pr2_synchronization.System.Invariant.{
  HasEntry, IsOld, IsOldBeside, IsEntered, listed_at, entry_of,
}

module _ (P : Parson) (L : IsLawful P) where
  open P use {Object, of_object, object_get_object, object_set_value, object_remove}

  -- A change of one object that leaves an entry alone, leaves it in the whole document.
  changed-HasEntry :
      (processes : ℕ → Object) (k j : ℕ) (changed : Object) (p : Process) (m : ℕ)
      → object_get_object changed (process_name j)
        ≡ object_get_object (processes k) (process_name j)
      → HasEntry P j processes p m
      → HasEntry P j (update processes k changed) p m
  changed-HasEntry processes k j changed p m same entry = elim (Bool-cases (k == m)) [
    | inr other ↦ rw other entry
    | inl here ↦ rw here (
        same
        ∙ ap (λ x. object_get_object (processes x) (process_name j)) ((==_iff k m).0 here)
        ∙ entry)
  ]

  changed-IsOld :
      (old processes : ℕ → Object) (k j : ℕ) (changed : Object) (m : ℕ)
      → object_get_object changed (process_name j)
        ≡ object_get_object (processes k) (process_name j)
      → IsOld P j old processes m
      → IsOld P j old (update processes k changed) m
  changed-IsOld old processes k j changed m same h = elim (Bool-cases (k == m)) [
    | inr other ↦ rw other h
    | inl here ↦
        let e =
          same ∙ ap (λ x. object_get_object (processes x) (process_name j)) ((==_iff k m).0 here) in
        rw here (elim h [ inl gone ↦ inl (e ∙ gone) | inr first ↦ inr (e ∙ first) ])
  ]

  changed-IsEntered :
      (old processes : ℕ → Object) (k j : ℕ) (changed : Object) (q : Pc)
      → object_get_object changed (process_name j)
        ≡ object_get_object (processes k) (process_name j)
      → IsEntered P j old processes q
      → IsEntered P j old (update processes k changed) q
  changed-IsEntered old processes k j changed created same h =
      λ m. changed-IsOld old processes k j changed m same (h m)
  changed-IsEntered old processes k j changed (taken p m) same h = (
    changed-HasEntry processes k j changed p m same h.0,
    λ x ne. changed-IsOld old processes k j changed x same (h.1 x ne),
  )
  changed-IsEntered old processes k j changed (sleeping p m) same h = (
    changed-HasEntry processes k j changed p m same h.0,
    λ x ne. changed-IsOld old processes k j changed x same (h.1 x ne),
  )
  changed-IsEntered old processes k j changed (returning p m) same h = (
    changed-HasEntry processes k j changed p m same h.0,
    λ x ne. changed-IsOld old processes k j changed x same (h.1 x ne),
  )
  changed-IsEntered old processes k j changed (return_open p m t) same h = (
    changed-HasEntry processes k j changed p m same h.0,
    λ x ne. changed-IsOld old processes k j changed x same (h.1 x ne),
  )
  changed-IsEntered old processes k j changed (return_fill p m t) same h = (
    changed-HasEntry processes k j changed p m same h.0,
    λ x ne. changed-IsOld old processes k j changed x same (h.1 x ne),
  )
  changed-IsEntered old processes k j changed q same h =
      λ m. changed-IsOld old processes k j changed m same (h m)

  -- A change of one partition leaves what is old in the others.
  beside-IsOld :
      (old processes : ℕ → Object) (k i : ℕ) (changed : Object)
      → ((m : ℕ) → IsOld P i old processes m)
      → IsOldBeside P i old (update processes k changed) k
  beside-IsOld old processes k i changed h m ne = elim (Bool-cases (k == m)) [
    | inl same ↦ absurd (ne ((==_iff k m).0 same))
    | inr other ↦ rw other (h m)
  ]

  -- What a worker enters is its own entry, and leaves those of the others alone.
  taken_entry :
      (i : ℕ) (p : Process) (k : ℕ) (processes : ℕ → Object)
      → HasEntry P i
          (update processes k (
            object_set_value
              (processes k)
              (process_name i)
              (of_object (process_object P p.process_size p.process_delay))))
          p
          k
  taken_entry i p k processes = rw ((==_iff k k).1 refl) (
      L.get_object-set_object (processes k) (process_name i) (process_name i) _
      ∙ rw (text_eq_refl (process_name i)))

  pub taken-IsEntered :
      (i : ℕ) (p : Process) (k : ℕ) (old processes : ℕ → Object)
      → ((m : ℕ) → IsOld P i old processes m)
      → IsEntered P i old
          (update processes k (
            object_set_value
              (processes k)
              (process_name i)
              (of_object (process_object P p.process_size p.process_delay))))
          (taken p k)
  taken-IsEntered i p k old processes h =
      (taken_entry i p k processes, beside-IsOld old processes k i _ h)

  pub taken_others :
      (i : ℕ) (p : Process) (k : ℕ) (old processes : ℕ → Object) (j : ℕ) (q : Pc)
      → i ≢ j
      → IsEntered P j old processes q
      → IsEntered P j old
          (update processes k (
            object_set_value
              (processes k)
              (process_name i)
              (of_object (process_object P p.process_size p.process_delay))))
          q
  taken_others i p k old processes j q ne = changed-IsEntered old processes k j _ q (
      L.get_object-set_object (processes k) (process_name i) (process_name j) _
      ∙ rw (names_differ i j ne))

  -- What a worker removes is not the entry of another.
  pub returned_others :
      (i k : ℕ) (old processes : ℕ → Object) (j : ℕ) (q : Pc)
      → i ≢ j
      → IsEntered P j old processes q
      → IsEntered P j old (update processes k (object_remove (processes k) (process_name i))) q
  returned_others i k old processes j q ne = changed-IsEntered old processes k j _ q (
      L.get_object-remove (processes k) (process_name i) (process_name j)
      ∙ rw (names_differ i j ne))

  -- A worker that has removed its entry has none left.
  pub returned-IsEntered :
      (i : ℕ) (p : Process) (k : ℕ) (old processes : ℕ → Object)
      → IsOldBeside P i old processes k
      → IsEntered P i old
          (update processes k (object_remove (processes k) (process_name i)))
          (returned p k)
  returned-IsEntered i p k old processes h m = elim (Bool-cases (k == m)) [
    | inl here ↦ rw here (
        inl (
          L.get_object-remove (processes k) (process_name i) (process_name i)
          ∙ rw (text_eq_refl (process_name i))))
    | inr other ↦ rw other (h m (λ e. ground (arith, e)))
  ]

  IsOld-none :
      (id : ℕ) (old processes : ℕ → Object) (k : ℕ)
      → object_get_object (old k) (process_name id) ≡ none
      → IsOld P id old processes k
      → object_get_object (processes k) (process_name id) ≡ none
  IsOld-none id old processes k at_start h = elim h [
    | inl gone ↦ gone
    | inr first ↦ first ∙ at_start
  ]

  listed_lem :
      (id : ℕ) (old processes : ℕ → Object) (k : ℕ) (p : Process) (m : ℕ)
      → object_get_object (old k) (process_name id) ≡ none
      → HasEntry P id processes p m
      → IsOldBeside P id old processes m
      → object_get_object (processes k) (process_name id) ≡ listed_at P p m k
  listed_lem id old processes k p m at_start entry beside = elim (Bool-cases (m == k)) [
    | inl here ↦ rw here (
        ap (λ x. object_get_object (processes x) (process_name id)) (sym ((==_iff m k).0 here))
        ∙ entry)
    | inr other ↦
        rw other (IsOld-none id old processes k at_start (beside k (λ e. ground (arith, e))))
  ]

  -- Without an entry at the start, a worker has the entry of where it has space, and no other.
  pub IsEntered-entry_of :
      (id : ℕ) (old processes : ℕ → Object) (k : ℕ) (q : Pc)
      → object_get_object (old k) (process_name id) ≡ none
      → IsEntered P id old processes q
      → object_get_object (processes k) (process_name id) ≡ entry_of P q k
  IsEntered-entry_of id old processes k created at_start h =
      IsOld-none id old processes k at_start (h k)
  IsEntered-entry_of id old processes k (taken p m) at_start h =
      listed_lem id old processes k p m at_start h.0 h.1
  IsEntered-entry_of id old processes k (sleeping p m) at_start h =
      listed_lem id old processes k p m at_start h.0 h.1
  IsEntered-entry_of id old processes k (returning p m) at_start h =
      listed_lem id old processes k p m at_start h.0 h.1
  IsEntered-entry_of id old processes k (return_open p m t) at_start h =
      listed_lem id old processes k p m at_start h.0 h.1
  IsEntered-entry_of id old processes k (return_fill p m t) at_start h =
      listed_lem id old processes k p m at_start h.0 h.1
  IsEntered-entry_of id old processes k q at_start h = IsOld-none id old processes k at_start (h k)
