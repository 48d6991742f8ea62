-- ===== src/Mempool/Invariant.antt =====
-- What a pool holds: the abstract list of its fragments, the newest first, and how the expiry queue
-- and the byte count follow it.
use jormungandr.Prelude.{
  ℕ, ◌+◌, ◌-◌, ◌≤◌, ◌≡◌, refl, Bool, false, Option, none, some, List, [], ◌∷◌, ◌==◌, if◌then◌else◌,
  arith, is_some, find, without, Distinct, sum_by, Option-cases, inl, inr, find-without_ne,
  find-without_self,
}
use jormungandr.Chain.{Chain, Fragment}
use jormungandr.Deque.Refinement.{Represents, new-Represents}
use jormungandr.Mempool.Timeouts.{TimeoutQueueItem, IsSorted}
use jormungandr.Mempool.Timeouts
use jormungandr.Mempool.{
  Pool, new, get_transaction_expiry_date, timeout_queue_insert, timeout_queue_remove, checked_sub,
}

module _ (chain : Chain) where
  open chain use {Tx, Raw, Date, position, serialized_size}

  abbrev pub Entries : Type 0
  Entries = List (ℕ × Fragment Tx Raw)

  -- Whether a fragment expires at the date of an item.
  abbrev pub expires_at : TimeoutQueueItem Date → Option Date → Bool
  expires_at item none = false
  expires_at item (some d) = position d == position item.valid_until

  -- Whether the expiry queue is to hold an item.
  abbrev pub expected : TimeoutQueueItem Date → Option (Fragment Tx Raw) → Bool
  expected item none = false
  expected item (some f) = expires_at item (get_transaction_expiry_date chain f)

  abbrev pub size_of : ℕ × Fragment Tx Raw → ℕ
  size_of e = serialized_size e.1

  -- The pool holds the fragments of a list in its order; it counts their bytes, and its queue holds
  -- exactly the expiry dates of those that have one, in their order.
  pub record Holds (p : Pool chain) (l : Entries) : Type 0 where
    pub entries : Represents p.entries l
    pub size : p.total_size_bytes ≡ sum_by size_of l
    pub sorted : IsSorted position p.timeout_queue
    pub timeouts :
        (item : TimeoutQueueItem Date)
        → Timeouts.contains position item p.timeout_queue ≡ expected item (find item.id l)

  pub new-Holds : (n : ℕ) → Holds (new chain n) []
  unfolding new Timeouts.contains
  new-Holds n = record {
    entries = new-Represents;
    size = refl;
    sorted = tt;
    timeouts = λ item. refl;
  }

  -- The queue after the fragment of a new key came, and after that of a used key went.
  pub timeouts-insert :
      (f : Fragment Tx Raw) (id : ℕ) (l l' : Entries) (q : List (TimeoutQueueItem Date))
      → IsSorted position q
      → ((item : TimeoutQueueItem Date)
          → Timeouts.contains position item q ≡ expected item (find item.id l))
      → is_some (find id l) ≡ false
      → ((k : ℕ) → find k l' ≡ (if id == k then some f else find k l))
      → (item : TimeoutQueueItem Date)
      → Timeouts.contains position item (timeout_queue_insert chain f id q)
        ≡ expected item (find item.id l')
  unfolding timeout_queue_insert Timeouts.same
  timeouts-insert f id l l' q s t a e item =
      elim (Option-cases (get_transaction_expiry_date chain f)) [
        | inl n ↦ rw (n, timeout_queue_insert) (ground (arith, t item, e item.id, n))
        | inr (d, n) ↦
            rw (n, timeout_queue_insert)
              (ground (
                arith,
                n,
                t item,
                e item.id,
                Timeouts.contains-insert position item (record { valid_until = d; id = id }) q,
              ))
      ]

  pub timeouts-remove :
      (f : Fragment Tx Raw) (id : ℕ) (l l' : Entries) (q : List (TimeoutQueueItem Date))
      → IsSorted position q
      → ((item : TimeoutQueueItem Date)
          → Timeouts.contains position item q ≡ expected item (find item.id l))
      → find id l ≡ some f
      → ((k : ℕ) → find k l' ≡ (if id == k then none else find k l))
      → (item : TimeoutQueueItem Date)
      → Timeouts.contains position item (timeout_queue_remove chain f id q)
        ≡ expected item (find item.id l')
  unfolding timeout_queue_remove Timeouts.same
  timeouts-remove f id l l' q s t a e item =
      elim (Option-cases (get_transaction_expiry_date chain f)) [
        | inl n ↦ rw (n, timeout_queue_remove) (ground (arith, t item, e item.id, n))
        | inr (d, n) ↦
            rw (n, timeout_queue_remove)
              (ground (
                arith,
                n,
                t item,
                e item.id,
                Timeouts.contains-remove position item (record { valid_until = d; id = id }) q s,
              ))
      ]

  pub timeouts-insert-IsSorted :
      (f : Fragment Tx Raw) (id : ℕ) (q : List (TimeoutQueueItem Date))
      → IsSorted position q
      → IsSorted position (timeout_queue_insert chain f id q)
  unfolding timeout_queue_insert
  timeouts-insert-IsSorted f id q s = elim (Option-cases (get_transaction_expiry_date chain f)) [
    | inl n ↦ rw (n, timeout_queue_insert) s
    | inr (d, n) ↦ rw (n, timeout_queue_insert) (Timeouts.insert-IsSorted position _ q s)
  ]

  pub timeouts-remove-IsSorted :
      (f : Fragment Tx Raw) (id : ℕ) (q : List (TimeoutQueueItem Date))
      → IsSorted position q
      → IsSorted position (timeout_queue_remove chain f id q)
  unfolding timeout_queue_remove
  timeouts-remove-IsSorted f id q s = elim (Option-cases (get_transaction_expiry_date chain f)) [
    | inl n ↦ rw (n, timeout_queue_remove) s
    | inr (d, n) ↦ rw (n, timeout_queue_remove) (Timeouts.remove-IsSorted position _ q s)
  ]

  -- Every size is part of the sum, so the count never falls below 0.
  pub sum-without :
      (k : ℕ) (f : Fragment Tx Raw) (l : Entries)
      → find k l ≡ some f
      → sum_by size_of l ≡ serialized_size f + sum_by size_of (without k l)
  sum-without k f [] h = absurd (cc)
  sum-without k f ((j, g) ∷ l) h = ground (arith, sum-without k f l)

  pub find-without_lem :
      (k j : ℕ) (l : Entries)
      → Distinct l
      → find j (without k l) ≡ (if k == j then none else find j l)
  find-without_lem k j l d = ground (arith, find-without_ne k j l, find-without_self k l d)

  pub checked_sub-add : (a b : ℕ) → checked_sub (a + b) a ≡ some b
  checked_sub-add a b = ground arith

  pub checked_sub-le : (a b : ℕ) → b ≤ a → checked_sub a b ≡ some (a - b)
  checked_sub-le a b h = ground arith
