-- ===== src/Mempool/Expiry.antt =====
-- `remove_expired_txs`: exactly the fragments whose expiry date has passed leave the pool.
use jormungandr.Prelude.{
  ℕ, ◌≡◌, refl, sym, ap, ◌∙◌, subst, Bool, true, false, not, ◌&&◌, Option, none, some, List, [],
  ◌∷◌, All, map, if◌then◌else◌, arith, find, without, Distinct, sum_by, Bool-cases, Option-cases,
  inl, inr, ◌==◌, ltb, ==_refl, ==→≡,
}
use jormungandr.Chain.{Chain, Fragment}
use jormungandr.Deque.Refinement.{remove-Represents}
use jormungandr.Mempool.Timeouts.{TimeoutQueueItem, IsSorted}
use jormungandr.Mempool.Timeouts
use jormungandr.Mempool.{
  Pool, get_transaction_expiry_date, checked_sub, expire_one, expire_all, remove_expired_txs,
}
use jormungandr.Mempool.Invariant.{
  Holds, Entries, size_of, expected, sum-without, find-without_lem, checked_sub-add,
}

module _ (chain : Chain) where
  open chain use {Tx, Raw, Date, position, serialized_size}

  abbrev pub due_at : Date → Option Date → Bool
  due_at date none = false
  due_at date (some d) = ltb (position d) (position date)

  -- Whether a fragment has expired at a date.
  abbrev pub is_due : Date → Fragment Tx Raw → Bool
  is_due date f = due_at date (get_transaction_expiry_date chain f)

  -- The list without the fragments that have expired.
  abbrev pub unexpired : Date → Entries chain → Entries chain
  unexpired date [] = []
  unexpired date ((id, f) ∷ l) =
      if is_due date f then unexpired date l else (id, f) ∷ unexpired date l

  unexpired-without :
      (date : Date) (id : ℕ) (f : Fragment Tx Raw) (l : Entries chain)
      → find id l ≡ some f
      → is_due date f ≡ true
      → unexpired date (without id l) ≡ unexpired date l
  unexpired-without date id f [] e h = refl
  unexpired-without date id f ((j, g) ∷ l) e h = ground (arith, unexpired-without date id f l)

  unexpired-All :
      (date : Date) (l : Entries chain)
      → All (λ e. is_due date e.1 ≡ false) l
      → unexpired date l ≡ l
  unexpired-All date [] h = refl
  unexpired-All date ((id, f) ∷ l) h = rw h.0 (ap (◌∷◌ (id, f)) (unexpired-All date l h.1))

  All-of_find :
      (P : ℕ × Fragment Tx Raw → Type 0) (l : Entries chain)
      → Distinct l
      → ((id : ℕ) (f : Fragment Tx Raw) → find id l ≡ some f → P (id, f))
      → All P l
  All-of_find P [] d h = tt
  All-of_find P ((id, f) ∷ l) d h =
      (h id f (ground arith), All-of_find P l d.1 (λ j g e. h j g (ground arith)))

  -- A fragment that the queue has at an item expires at the date of the item.
  expected-find :
      (date : Date) (item : TimeoutQueueItem Date) (l : Entries chain)
      → expected chain item (find item.id l) ≡ true
      → Timeouts.is_expired position date item ≡ true
      → (f : Fragment Tx Raw) × (find item.id l ≡ some f)
        × (is_due date f ≡ true)
        × (expected chain item (some f) ≡ true)
  unfolding Timeouts.is_expired
  expected-find date item l h e = elim (Option-cases (find item.id l)) [
    | inl n ↦ absurd (ground arith)
    | inr (f, n) ↦ (f, n, ground (arith, e, h), rw n at h)
  ]

  -- A fragment has one expiry date.
  only-one : (a b c : ℕ) → (c == a) ≡ true → (not (a == b && true) && c == b) ≡ false
  only-one a b c e = ground arith

  expired-timeouts :
      (p : Pool chain) (l : Entries chain) (item : TimeoutQueueItem Date) (f : Fragment Tx Raw)
      → Holds chain p l
      → find item.id l ≡ some f
      → expected chain item (some f) ≡ true
      → (z : TimeoutQueueItem Date)
      → Timeouts.contains position z (Timeouts.remove position item p.timeout_queue)
        ≡ expected chain z (find z.id (without item.id l))
  unfolding Timeouts.same
  expired-timeouts p l item f h found at z =
      rw
        (
          Timeouts.contains-remove position z item p.timeout_queue h.sorted,
          h.timeouts z,
          find-without_lem chain item.id z.id l h.entries.distinct,
        )
        (elim (Bool-cases (item.id == z.id)) [
          | inr other ↦ rw other (ground arith)
          | inl hit ↦ elim (Option-cases (get_transaction_expiry_date chain f)) [
            | inl n ↦ absurd (ground (arith, n, at))
            | inr (d, n) ↦
                let fz : find z.id l ≡ some f =
                  subst (λ k. find k l ≡ some f) (==→≡ item.id z.id hit) found in
                rw (hit, fz, n)
                  (only-one (position item.valid_until) (position z.valid_until) (position d)
                    (rw n at at))
          ]
        ])

  expire_one-Holds :
      (date : Date) (p : Pool chain) (l : Entries chain) (item : TimeoutQueueItem Date)
      → Holds chain p l
      → Timeouts.contains position item p.timeout_queue ≡ true
      → Timeouts.is_expired position date item ≡ true
      → (p' : Pool chain) × (expire_one chain item p ≡ some p')
        × Holds chain p' (without item.id l)
        × (p'.timeout_queue ≡ Timeouts.remove position item p.timeout_queue)
        × (p'.max_entries ≡ p.max_entries)
        × (unexpired date (without item.id l) ≡ unexpired date l)
  unfolding expire_one
  expire_one-Holds date p l item h c e =
      let (f, found, due, at) = expected-find date item l (sym (h.timeouts item) ∙ c) e in
      let (d, removed, r) = remove-Represents p.entries l item.id h.entries in
      let size : checked_sub p.total_size_bytes (serialized_size f)
          ≡ some (sum_by (size_of chain) (without item.id l)) =
        rw (h.size, sum-without chain item.id f l found)
          (checked_sub-add chain (serialized_size f) _) in
      (
        record p {
          entries = d;
          timeout_queue = Timeouts.remove position item p.timeout_queue;
          total_size_bytes = sum_by (size_of chain) (without item.id l);
        },
        rw (removed, found) (rw size),
        record {
          entries = r;
          size = refl;
          sorted = Timeouts.remove-IsSorted position item p.timeout_queue h.sorted;
          timeouts = expired-timeouts p l item f h found at;
        },
        refl,
        refl,
        unexpired-without date item.id f l found due,
      )

  expire_all-Holds :
      (date : Date) (q : List (TimeoutQueueItem Date)) (p : Pool chain) (l : Entries chain)
      → p.timeout_queue ≡ q
      → Holds chain p l
      → (p' : Pool chain) × (l' : Entries chain) × (expire_all chain
            (Timeouts.take_expired position date q)
            p
          ≡ some p')
        × Holds chain p' l'
        × (p'.timeout_queue ≡ Timeouts.drop_expired position date q)
        × (p'.max_entries ≡ p.max_entries)
        × (unexpired date l' ≡ unexpired date l)
  unfolding expire_all Timeouts.take_expired Timeouts.drop_expired
  expire_all-Holds date [] p l s h = (p, l, refl, h, s, refl, refl)
  expire_all-Holds date (x ∷ q) p l s h = elim (Bool-cases (Timeouts.is_expired position date x)) [
    | inr e ↦ (p, l, rw e, h, rw e s, refl, refl)
    | inl e ↦
        let (p1, e1, h1, q1, m1, u1) =
          expire_one-Holds date p l x h (rw s (Timeouts.contains_head position x q)) e in
        let (p2, l2, e2, h2, q2, m2, u2) =
          expire_all-Holds date q p1 (without x.id l)
            (q1 ∙ rw s (Timeouts.remove_head position x q)) h1 in
        (p2, l2, rw e (rw e1 e2), h2, rw e q2, m2 ∙ m1, u2 ∙ u1)
  ]

  not-due :
      (date : Date) (p : Pool chain) (l : Entries chain) (q : List (TimeoutQueueItem Date))
      → Holds chain p l
      → IsSorted position q
      → p.timeout_queue ≡ Timeouts.drop_expired position date q
      → (id : ℕ) (f : Fragment Tx Raw) → find id l ≡ some f
      → is_due date f ≡ false
  unfolding Timeouts.is_expired
  not-due date p l q h s e id f found = elim (Option-cases (get_transaction_expiry_date chain f)) [
    | inl n ↦ rw n
    | inr (d, n) ↦
        let item : TimeoutQueueItem Date = record { valid_until = d; id = id } in
        let held : Timeouts.contains position item p.timeout_queue ≡ true =
          h.timeouts item ∙ rw (found, n) (==_refl (position d)) in
        rw n (Timeouts.drop_expired_lem position date q item s (rw e at held))
  ]

  -- The ids it gives are those of the items taken from the queue.
  pub remove_expired_txs-ids :
      (date : Date) (p : Pool chain) (l : Entries chain)
      → Holds chain p l
      → (p' : Pool chain) × (remove_expired_txs chain date p
          ≡ some (p', map (λ item. item.id) (Timeouts.take_expired position date p.timeout_queue)))
        × Holds chain p' (unexpired date l)
        × (p'.max_entries ≡ p.max_entries)
  unfolding remove_expired_txs
  remove_expired_txs-ids date p l h =
      let (p', l', e, h', q, m, u) = expire_all-Holds date p.timeout_queue p l refl h in
      let kept =
        All-of_find (λ x. is_due date x.1 ≡ false) l' h'.entries.distinct
          (not-due date p' l' p.timeout_queue h' h.sorted q) in
      (p', rw e, rw (← u, unexpired-All date l' kept) h', m)

  -- `remove_expired_txs` does not panic; it leaves exactly the fragments that have not expired, in
  -- their order.
  pub remove_expired_txs-unexpired :
      (date : Date) (p : Pool chain) (l : Entries chain)
      → Holds chain p l
      → (p' : Pool chain) × (ids : List ℕ) × (remove_expired_txs chain date p ≡ some (p', ids))
        × Holds chain p' (unexpired date l)
        × (p'.max_entries ≡ p.max_entries)
  remove_expired_txs-unexpired date p l h =
      let (p', e, h', m) = remove_expired_txs-ids date p l h in (p', _, e, h', m)
