-- ===== src/Mempool/Removal.antt =====
-- Removal from the pool: by id, of the oldest fragment, and the way back.
use jormungandr.Prelude.{
  ℕ, ◌+◌, ◌≡◌, refl, ◌∙◌, Option, none, some, List, [], ◌∷◌, ◌++◌, arith, find, without, Distinct,
  sum_by, Option-cases, inl, inr, last_of, drop_last, Distinct-middle, find-snoc, without-snoc,
  find-snoc_lem, sum_by-append, snoc-cases, last_of-append, drop_last-append, without_absent,
}
use mathlib.Core.List.{append-nil, append_assoc}
use jormungandr.Chain.{Chain, Fragment}
use jormungandr.Deque.{Deque}
use jormungandr.Deque.Refinement.{
  Represents, pop_back-Represents, push_back-Represents, remove-Represents,
}
use jormungandr.Mempool.{
  Pool, timeout_queue_insert, timeout_queue_remove, checked_sub, remove_one, remove_all,
  remove_oldest, return_to_pool,
}
use jormungandr.Mempool.Invariant.{
  Holds, Entries, size_of, timeouts-insert, timeouts-remove, timeouts-insert-IsSorted,
  timeouts-remove-IsSorted, sum-without, find-without_lem, checked_sub-add,
}

module _ (chain : Chain) where
  open chain use {Tx, Raw, Date, position, serialized_size}

  -- A pool whose queue forgot a fragment and whose deque is that of the list without it.
  forget-Holds :
      (p : Pool chain) (l : Entries chain) (d : Deque (Fragment Tx Raw)) (id : ℕ)
      (f : Fragment Tx Raw)
      → Holds chain p l
      → find id l ≡ some f
      → Represents d (without id l)
      → Holds chain
          (record p {
            entries = d;
            timeout_queue = timeout_queue_remove chain f id p.timeout_queue;
            total_size_bytes = sum_by (size_of chain) (without id l);
          })
          (without id l)
  forget-Holds p l d id f h e r = record {
    entries = r;
    size = refl;
    sorted = timeouts-remove-IsSorted chain f id p.timeout_queue h.sorted;
    timeouts =
        timeouts-remove chain f id l (without id l) p.timeout_queue h.sorted h.timeouts e
          (λ k. find-without_lem chain id k l h.entries.distinct);
  }

  size-after :
      (p : Pool chain) (l : Entries chain) (id : ℕ) (f : Fragment Tx Raw)
      → Holds chain p l
      → find id l ≡ some f
      → checked_sub p.total_size_bytes (serialized_size f)
        ≡ some (sum_by (size_of chain) (without id l))
  size-after p l id f h e =
      rw (h.size, sum-without chain id f l e) (checked_sub-add chain (serialized_size f) _)

  absent-Holds :
      (p : Pool chain) (l : Entries chain) (d : Deque (Fragment Tx Raw)) (id : ℕ)
      → Holds chain p l
      → find id l ≡ none
      → Represents d (without id l)
      → Holds chain (record p { entries = d }) (without id l)
  absent-Holds p l d id h e r =
      let same = without_absent id l e in
      rw same
        (record { entries = rw same at r; size = h.size; sorted = h.sorted; timeouts = h.timeouts })

  -- `remove_all` of one id takes its fragment out of the list, if it is there, and never panics.
  pub remove_one-Holds :
      (p : Pool chain) (l : Entries chain) (id : ℕ)
      → Holds chain p l
      → (p' : Pool chain) × (remove_one chain id p ≡ some p')
        × Holds chain p' (without id l)
        × (p'.max_entries ≡ p.max_entries)
  unfolding remove_one
  remove_one-Holds p l id h =
      let (d, removed, r) = remove-Represents p.entries l id h.entries in
      elim (Option-cases (find id l)) [
        | inl e ↦ (record p { entries = d }, rw (removed, e), absent-Holds p l d id h e r, refl)
        | inr (f, e) ↦
            (_, rw (removed, e) (rw (size-after p l id f h e)), forget-Holds p l d id f h e r, refl)
      ]

  abbrev pub without_ids : List ℕ → Entries chain → Entries chain
  without_ids [] l = l
  without_ids (id ∷ ids) l = without_ids ids (without id l)

  -- `remove_all` takes exactly the fragments with the given ids out of the pool, keeps the order of
  -- the others, and never panics.
  pub remove_all-Holds :
      (ids : List ℕ) (p : Pool chain) (l : Entries chain)
      → Holds chain p l
      → (p' : Pool chain) × (remove_all chain ids p ≡ some p')
        × Holds chain p' (without_ids ids l)
        × (p'.max_entries ≡ p.max_entries)
  unfolding remove_all
  remove_all-Holds [] p l h = (p, refl, h, refl)
  remove_all-Holds (id ∷ ids) p l h =
      let (p1, e1, h1, m1) = remove_one-Holds p l id h in
      let (p2, e2, h2, m2) = remove_all-Holds ids p1 (without id l) h1 in
      (p2, rw e1 e2, h2, m2 ∙ m1)

  empty-Holds :
      (p : Pool chain) (d : Deque (Fragment Tx Raw))
      → Holds chain p []
      → Represents d []
      → Holds chain (record p { entries = d }) []
  empty-Holds p d h r = record {
    entries = r;
    size = h.size;
    sorted = h.sorted;
    timeouts = h.timeouts;
  }

  -- The fragment of the last element, the way round that the pool gives it out.
  abbrev pub oldest : Entries chain → Option (Fragment Tx Raw × ℕ)
  oldest l = elim (last_of l) [ none ↦ none | some (id, f) ↦ some (f, id) ]

  pub remove_oldest-Holds_snoc :
      (p : Pool chain) (a : Entries chain) (id : ℕ) (f : Fragment Tx Raw)
      → Holds chain p (a ++ (id, f) ∷ [])
      → (p' : Pool chain) × (remove_oldest chain p ≡ some (some (f, id), p'))
        × Holds chain p' a
        × (p'.max_entries ≡ p.max_entries)
  unfolding remove_oldest
  remove_oldest-Holds_snoc p a id f h =
      let l = a ++ (id, f) ∷ [] in
      let (_, _, _, fresh, _) = Distinct-middle a [] id f h.entries.distinct in
      let (d, popped, r) = pop_back-Represents p.entries l h.entries in
      let found = find-snoc id f a fresh in
      let left = without-snoc id f a fresh in
      let r' : Represents d (without id l) = rw left (rw (drop_last-append a (id, f)) at r) in
      (
        _,
        rw (popped, last_of-append a (id, f)) (rw (size-after p l id f h found, left)),
        rw left at (forget-Holds p l d id f h found r'),
        refl,
      )

  -- `remove_oldest` gives the fragment that is longest in the pool, and leaves the others in order.
  pub remove_oldest-Holds :
      (p : Pool chain) (l : Entries chain)
      → Holds chain p l
      → (p' : Pool chain) × (remove_oldest chain p ≡ some (oldest l, p'))
        × Holds chain p' (drop_last l)
        × (p'.max_entries ≡ p.max_entries)
  unfolding remove_oldest
  remove_oldest-Holds p l h = elim (snoc-cases l) [
    | inl e ↦
        let (d, popped, r) = pop_back-Represents p.entries [] (rw e at h).entries in
        (record p { entries = d }, rw popped (rw e), rw e (empty-Holds p d (rw e at h) r), refl)
    | inr (a, (id, f), e) ↦
        let (p', popped, h', m) = remove_oldest-Holds_snoc p a id f (rw e at h) in
        (
          p',
          rw (e, oldest, last_of-append a (id, f)) popped,
          rw (e, drop_last-append a (id, f)) h',
          m,
        )
  ]

  -- Fragments as the pool's list has them.
  abbrev pub returned : List (Fragment Tx Raw × ℕ) → Entries chain
  returned [] = []
  returned ((f, id) ∷ fs) = (id, f) ∷ returned fs

  -- `return_to_pool` puts fragments back behind those that the pool holds, each behind the one before,
  -- where their ids are distinct and not in use; it does not panic.
  pub return_to_pool-Holds :
      (fs : List (Fragment Tx Raw × ℕ)) (p : Pool chain) (l : Entries chain)
      → Holds chain p l
      → Distinct (l ++ returned fs)
      → (p' : Pool chain) × (return_to_pool chain fs p ≡ some p')
        × Holds chain p' (l ++ returned fs)
        × (p'.max_entries ≡ p.max_entries)
  unfolding return_to_pool
  return_to_pool-Holds [] p l h d = (p, refl, rw append-nil h, refl)
  return_to_pool-Holds ((f, id) ∷ fs) p l h d =
      let (_, _, _, fresh, _) = Distinct-middle l (returned fs) id f d in
      let (dq, pushed, r) = push_back-Represents p.entries l id f h.entries fresh in
      let p1 : Pool chain = record p {
        entries = dq;
        timeout_queue = timeout_queue_insert chain f id p.timeout_queue;
        total_size_bytes = p.total_size_bytes + serialized_size f;
      } in
      let (p', e, h', m) =
        return_to_pool-Holds fs p1 (l ++ (id, f) ∷ [])
          (record {
            entries = r;
            size = rw (h.size, sum_by-append (size_of chain) l ((id, f) ∷ [])) (omega arith);
            sorted = timeouts-insert-IsSorted chain f id p.timeout_queue h.sorted;
            timeouts =
                timeouts-insert chain f id l (l ++ (id, f) ∷ []) p.timeout_queue h.sorted h.timeouts
                  fresh (λ k. find-snoc_lem id k f l fresh);
          })
          (rw append_assoc d) in
      (p', rw pushed e, rw append_assoc at h', m)
