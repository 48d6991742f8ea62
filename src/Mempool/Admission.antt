-- ===== src/Mempool/Admission.antt =====
-- `insert_all`: which fragments the pool takes, and that it stays within `max_entries`.
use jormungandr.Prelude.{
  ℕ, zero, suc, ◌+◌, ◌-◌, ◌≤◌, ◌≡◌, refl, ◌∙◌, true, false, some, List, [], ◌∷◌, arith, is_some,
  find, length, Bool-cases, inl, inr, ◌⊎◌,
}
use jormungandr.Chain.{Chain, Fragment}
use jormungandr.Deque.Refinement.{push_front-Represents, contains-Represents, len-Represents}
use jormungandr.Mempool.{Pool, timeout_queue_insert, insert_one, len, insert_from, insert_all}
use jormungandr.Mempool.Invariant.{
  Holds, Entries, checked_sub-le, timeouts-insert, timeouts-insert-IsSorted,
}

module _ (chain : Chain) where
  open chain use {Tx, Raw, Date, position, serialized_size}

  -- What becomes of a batch, over the list that the pool holds: the list after it, the fragments
  -- taken, and those that were not looked at because the pool was full. One whose id the pool holds
  -- is passed over.
  pub record Admitted : Type 0 where
    pub held : Entries chain
    pub taken : List (Fragment Tx Raw × ℕ)
    pub left : List (Fragment Tx Raw × ℕ)

  abbrev pub also_taken : Fragment Tx Raw × ℕ → Admitted → Admitted
  also_taken e a = record a { taken = e ∷ a.taken }

  abbrev pub admit : ℕ → List (Fragment Tx Raw × ℕ) → Entries chain → Admitted
  admit zero fs l = record { held = l; taken = []; left = fs }
  admit (suc n) [] l = record { held = l; taken = []; left = [] }
  admit (suc n) ((f, id) ∷ fs) l = elim (is_some (find id l)) [
    | true ↦ admit (suc n) fs l
    | false ↦ also_taken (f, id) (admit n fs ((id, f) ∷ l))
  ]

  insert_one-Holds :
      (p : Pool chain) (l : Entries chain) (f : Fragment Tx Raw) (id : ℕ)
      → Holds chain p l
      → is_some (find id l) ≡ false
      → (p' : Pool chain) × (insert_one chain f id p ≡ some p')
        × Holds chain p' ((id, f) ∷ l)
        × (p'.max_entries ≡ p.max_entries)
  unfolding insert_one
  insert_one-Holds p l f id h fresh =
      let (d, pushed, r) = push_front-Represents p.entries l id f h.entries fresh in
      (
        record p {
          entries = d;
          timeout_queue = timeout_queue_insert chain f id p.timeout_queue;
          total_size_bytes = p.total_size_bytes + serialized_size f;
        },
        rw pushed,
        record {
          entries = r;
          size = rw h.size (omega arith);
          sorted = timeouts-insert-IsSorted chain f id p.timeout_queue h.sorted;
          timeouts =
              timeouts-insert chain f id l ((id, f) ∷ l) p.timeout_queue h.sorted h.timeouts fresh
                (λ k. refl);
        },
        refl,
      )

  pub insert_from-admit :
      (n : ℕ) (fs : List (Fragment Tx Raw × ℕ)) (p : Pool chain) (l : Entries chain)
      → Holds chain p l
      → (p' : Pool chain) × (insert_from chain n fs p
          ≡ some (p', (admit n fs l).taken, (admit n fs l).left))
        × Holds chain p' (admit n fs l).held
        × (p'.max_entries ≡ p.max_entries)
  unfolding insert_from
  insert_from-admit zero fs p l h = (p, refl, h, refl)
  insert_from-admit (suc n) [] p l h = (p, refl, h, refl)
  insert_from-admit (suc n) ((f, id) ∷ fs) p l h = elim (Bool-cases (is_some (find id l))) [
    | inl used ↦
        let (p', e, h', m) = insert_from-admit (suc n) fs p l h in
        (
          p',
          rw (insert_from, contains-Represents p.entries l id h.entries, used) (rw (admit, used) e),
          rw (admit, used) h',
          m,
        )
    | inr fresh ↦
        let (p1, e1, h1, m1) = insert_one-Holds p l f id h fresh in
        let (p', e, h', m) = insert_from-admit n fs p1 ((id, f) ∷ l) h1 in
        (
          p',
          rw (insert_from, contains-Represents p.entries l id h.entries, fresh)
              (rw (e1, admit, fresh) (rw e)),
          rw (admit, fresh) h',
          m ∙ m1,
        )
  ]

  -- `insert_all` on a pool within its limit does not panic, does what `admit` says with the room that
  -- is left, and keeps the pool in order.
  pub insert_all-admit :
      (fs : List (Fragment Tx Raw × ℕ)) (p : Pool chain) (l : Entries chain)
      → Holds chain p l
      → length l ≤ p.max_entries
      → (p' : Pool chain) × (insert_all chain fs p
          ≡ some (
            p',
            (admit (p.max_entries - length l) fs l).taken,
            (admit (p.max_entries - length l) fs l).left,
          ))
        × Holds chain p' (admit (p.max_entries - length l) fs l).held
        × (p'.max_entries ≡ p.max_entries)
  unfolding insert_all
  insert_all-admit fs p l h room =
      let (p', e, h', m) = insert_from-admit (p.max_entries - length l) fs p l h in
      (
        p',
        rw
            (
              len-Represents p.entries l h.entries,
              checked_sub-le chain p.max_entries (length l) room,
            )
            e,
        h',
        m,
      )

  -- The pool takes no more than it has room for.
  pub admit_within :
      (n : ℕ) (fs : List (Fragment Tx Raw × ℕ)) (l : Entries chain)
      → (length (admit n fs l).held ≡ length (admit n fs l).taken + length l)
        × (length (admit n fs l).taken ≤ n)
  admit_within zero fs l = (omega arith, omega arith)
  admit_within (suc n) [] l = (omega arith, omega arith)
  admit_within (suc n) ((f, id) ∷ fs) l =
      ground (arith, admit_within (suc n) fs l, admit_within n fs ((id, f) ∷ l))

  -- It leaves fragments unread only when it is full.
  pub admit_left :
      (n : ℕ) (fs : List (Fragment Tx Raw × ℕ)) (l : Entries chain)
      → ((admit n fs l).left ≡ []) ⊎ (length (admit n fs l).taken ≡ n)
  admit_left zero fs l = inr refl
  admit_left (suc n) [] l = inl refl
  admit_left (suc n) ((f, id) ∷ fs) l =
      ground (arith, admit_left (suc n) fs l, admit_left n fs ((id, f) ∷ l))

  abbrev pub enqueued : List (Fragment Tx Raw × ℕ) → Entries chain → Entries chain
  enqueued [] l = l
  enqueued ((f, id) ∷ fs) l = enqueued fs ((id, f) ∷ l)

  -- The fragments taken stand in front of the others, the last one first.
  pub admit_held :
      (n : ℕ) (fs : List (Fragment Tx Raw × ℕ)) (l : Entries chain)
      → (admit n fs l).held ≡ enqueued (admit n fs l).taken l
  admit_held zero fs l = refl
  admit_held (suc n) [] l = refl
  admit_held (suc n) ((f, id) ∷ fs) l =
      ground (arith, admit_held (suc n) fs l, admit_held n fs ((id, f) ∷ l))

  -- On a pool within its limit `insert_all` takes no more than there is room for, counts what it
  -- takes, and leaves fragments unread only when the pool is full.
  pub insert_all_within :
      (fs : List (Fragment Tx Raw × ℕ)) (p : Pool chain) (l : Entries chain)
      → Holds chain p l
      → length l ≤ p.max_entries
      → (p' : Pool chain) × (taken left : List (Fragment Tx Raw × ℕ)) × (insert_all chain fs p
          ≡ some (p', taken, left))
        × (len chain p' ≡ length taken + len chain p)
        × (len chain p' ≤ p'.max_entries)
        × ((left ≡ []) ⊎ (len chain p' ≡ p'.max_entries))
  unfolding len
  insert_all_within fs p l h room =
      let n = p.max_entries - length l in
      let (p', e, h', m) = insert_all-admit fs p l h room in
      let (count, bound) = admit_within n fs l in
      let before = len-Represents p.entries l h.entries in
      let after = len-Represents p'.entries (admit n fs l).held h'.entries in
      (
        p',
        (admit n fs l).taken,
        (admit n fs l).left,
        e,
        omega (arith, count, before, after),
        omega (arith, count, bound, after, m, room),
        elim (admit_left n fs l) [
          | inl none_left ↦ inl none_left
          | inr full ↦ inr (omega (arith, count, full, after, m, room))
        ],
      )
