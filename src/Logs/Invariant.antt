-- ===== src/Logs/Invariant.antt =====
-- The logs stay well formed: keys are the ids of their entries and distinct, the capacity is kept,
-- and every entry that is not pending has a date.
use jormungandr.Prelude.{
  ℕ, ◌≤◌, ◌≡◌, refl, subst, false, true, none, some, List, [], ◌∷◌, arith, is_some, length, without,
  Distinct, All, without-Distinct, find-without_self, Option-cases, Bool-cases, inl, inr, ◌⊎◌, Bool,
}
use jormungandr.FragmentLog.{
  FragmentLog, FragmentStatus, pending, rejected, in_a_block, is_pending, is_in_a_block,
}
use jormungandr.FragmentLog
use jormungandr.Lru.{LruCache}
use jormungandr.Logs.{LogEntry, refresh, first_seen, insert_pending, modify, modify_all, pop_all}
use jormungandr.Logs.Entries.{
  take-Distinct, length-take-le, length-without-le, touch-Distinct, length-touch, take-All,
  without-All, touch-All,
}

module _ {Date Text : Type 0} where
  -- An entry stands at the id of its fragment, and has a date unless it is pending.
  pub record IsDated (e : ℕ × LogEntry Date Text) : Type 0 where
    pub id : e.1.0.fragment_id ≡ e.0
    pub dated : (is_pending e.1.0.status ≡ true) ⊎ (is_some e.1.1 ≡ true)

  pub refresh-IsDated :
      (now : ℕ) (s : FragmentStatus Date Text) (date : Date) (k : ℕ) (e : LogEntry Date Text)
      → IsDated (k, e)
      → IsDated (k, refresh now s date e)
  unfolding refresh FragmentLog.modify
  refresh-IsDated now s date k (log, old) h = ground arith

  first_seen-IsDated :
      (now id : ℕ) (s : FragmentStatus Date Text) (date : Date)
      → IsDated (id, first_seen now id s date)
  unfolding first_seen FragmentLog.modify FragmentLog.new
  first_seen-IsDated now id s date = record { id = ground arith; dated = inr refl }

module _ {Date Text : Type 0} (lru : LruCache (LogEntry Date Text)) where
  open lru use {
    Cache, peek, iter, cap, put, get_mut, pop, peek-iter, iter-put, cap-put, iter-get_mut,
    cap-get_mut, iter-pop, cap-pop,
  }

  pub record IsValid (c : Cache) : Type 0 where
    pub distinct : Distinct (iter c)
    pub bounded : length (iter c) ≤ cap c
    pub entries : All IsDated (iter c)

  put-IsValid :
      (c : Cache) (k : ℕ) (e : LogEntry Date Text)
      → IsValid c
      → IsDated (k, e)
      → IsValid (put c k e)
  put-IsValid c k e v h = record {
    distinct = rw (iter-put c k e) (
        take-Distinct (cap c) ((k, e) ∷ without k (iter c))
          (find-without_self k (iter c) v.distinct, without-Distinct k (iter c) v.distinct));
    bounded = rw (iter-put c k e, cap-put c k e) (length-take-le (cap c) _);
    entries = rw (iter-put c k e) (
        take-All IsDated (cap c) ((k, e) ∷ without k (iter c))
          (h, without-All IsDated k (iter c) v.entries));
  }

  get_mut-IsValid :
      (c : Cache) (k : ℕ) (f : LogEntry Date Text → LogEntry Date Text)
      → IsValid c
      → ((e : LogEntry Date Text) → IsDated (k, e) → IsDated (k, f e))
      → IsValid (get_mut c k f)
  get_mut-IsValid c k f v h = record {
    distinct = rw (iter-get_mut c k f) (touch-Distinct k f (iter c) v.distinct);
    bounded = rw (iter-get_mut c k f, cap-get_mut c k f, length-touch k f (iter c)) v.bounded;
    entries = rw (iter-get_mut c k f) (touch-All IsDated k f (iter c) h v.entries);
  }

  pop-IsValid : (c : Cache) (k : ℕ) → IsValid c → IsValid (pop c k)
  pop-IsValid c k v = record {
    distinct = rw (iter-pop c k) (without-Distinct k (iter c) v.distinct);
    bounded =
        rw (iter-pop c k, cap-pop c k) (omega (arith, length-without-le k (iter c), v.bounded));
    entries = rw (iter-pop c k) (without-All IsDated k (iter c) v.entries);
  }

  insert_pending-cases :
      (log : FragmentLog Date Text) (c : Cache)
      → (insert_pending lru log c ≡ none)
        ⊎ (insert_pending lru log c ≡ some (c, false))
        ⊎ ((is_pending log.status ≡ true)
            × (insert_pending lru log c ≡ some (put c log.fragment_id (log, none), true)))
  unfolding insert_pending
  insert_pending-cases log c = ground arith

  -- Whatever log is given, a registration that does not panic keeps the logs well formed: their keys
  -- are distinct and the ids of their entries, the capacity is kept, and every entry that is not
  -- pending has a date.
  pub insert_pending-IsValid :
      (log : FragmentLog Date Text) (c c' : Cache) (b : Bool)
      → IsValid c
      → insert_pending lru log c ≡ some (c', b)
      → IsValid c'
  insert_pending-IsValid log c c' b v h = elim (insert_pending-cases log c) [
    | inl e ↦ absurd (cc)
    | inr (inl e) ↦ subst IsValid (ground arith) v
    | inr (inr (p, e)) ↦
        subst IsValid (ground arith)
          (put-IsValid c log.fragment_id (log, none) v (record { id = refl; dated = inl p }))
  ]

  -- A pending log is always taken or found registered, never refused.
  pub insert_pending_pending :
      (log : FragmentLog Date Text) (c : Cache)
      → is_pending log.status ≡ true
      → (c' : Cache) × (b : Bool) × (insert_pending lru log c ≡ some (c', b))
  unfolding insert_pending
  insert_pending_pending log c p = elim (Bool-cases (is_some (peek c log.fragment_id))) [
    | inl e ↦ (c, false, rw (p, e))
    | inr e ↦ (put c log.fragment_id (log, none), true, rw (p, e))
  ]

  pub modify-IsValid :
      (now id : ℕ) (s : FragmentStatus Date Text) (date : Date) (c : Cache)
      → IsValid c
      → IsValid (modify lru now id s date c)
  unfolding modify
  modify-IsValid now id s date c v = elim (Option-cases (peek c id)) [
    | inl e ↦ rw (e, modify) (put-IsValid c id _ v (first_seen-IsDated now id s date))
    | inr (_, e) ↦ rw (e, modify) (get_mut-IsValid c id _ v (λ x. refresh-IsDated now s date id x))
  ]

  -- Updates of any fragments keep the logs well formed in the same way.
  pub modify_all-IsValid :
      (now : ℕ) (ids : List ℕ) (s : FragmentStatus Date Text) (date : Date) (c : Cache)
      → IsValid c
      → IsValid (modify_all lru now ids s date c)
  unfolding modify_all
  modify_all-IsValid now [] s date c v = v
  modify_all-IsValid now (id ∷ ids) s date c v =
      modify_all-IsValid now ids s date _ (modify-IsValid now id s date c v)

  pub pop_all-IsValid : (ids : List ℕ) (c : Cache) → IsValid c → IsValid (pop_all lru ids c)
  unfolding pop_all
  pop_all-IsValid [] c v = v
  pop_all-IsValid (id ∷ ids) c v = pop_all-IsValid ids (pop c id) (pop-IsValid c id v)
