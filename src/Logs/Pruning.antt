-- ===== src/Logs/Pruning.antt =====
-- `remove_logs_after_date`: which entries go when a branch is given up.
use jormungandr.Prelude.{
  ℕ, ◌≤◌, ◌≡◌, refl, sym, ap, ◌∙◌, false, true, Option, none, some, List, [], ◌∷◌, arith, is_some,
  find, without, Distinct, All, Option-cases, Bool-cases, inl, inr, ◌⊎◌, Bool, not, ◌&&◌,
  if◌then◌else◌, ltb, ◌==◌,
}
use jormungandr.FragmentLog.{
  FragmentLog, FragmentStatus, pending, rejected, in_a_block, is_pending, is_in_a_block,
}
use jormungandr.FragmentLog
use jormungandr.Lru.{LruCache, touch}
use jormungandr.Logs.{LogEntry, refresh, to_remove, modify, pop_all, remove_logs_after_date}
use jormungandr.Logs.Invariant.{IsDated, IsValid, pop_all-IsValid}

-- What a prune does to the value of a key.
abbrev pub dropped_if {ℓ} : {A : Type ℓ} → (A → Bool) → Option A → Option A
dropped_if p none = none
dropped_if p (some a) = if p a then none else some a

-- A key that is none of a list.
abbrev pub Absent : ℕ → List ℕ → Type 0
Absent k = All (λ j. (k == j) ≡ false)

module _ {Date Text : Type 0} where
  -- The removal of a list of keys.
  abbrev without_all : List ℕ → List (ℕ × LogEntry Date Text) → List (ℕ × LogEntry Date Text)
  without_all [] l = l
  without_all (id ∷ ids) l = without_all ids (without id l)

  without_all-cons :
      (k : ℕ) (e : LogEntry Date Text) (ids : List ℕ) (l : List (ℕ × LogEntry Date Text))
      → Absent k ids
      → without_all ids ((k, e) ∷ l) ≡ (k, e) ∷ without_all ids l
  without_all-cons k e [] l h = refl
  without_all-cons k e (id ∷ ids) l h = rw h.0 (without_all-cons k e ids (without id l) h.1)

module _ {Date Text : Type 0} (position : Date → ℕ) (target : Date) where
  -- Whether an entry is committed or rejected at a date after the target.
  abbrev pub is_after : LogEntry Date Text → Bool
  is_after (log, none) = false
  is_after (log, some d) = not (is_pending log.status) && ltb (position target) (position d)

  -- The list that the loop leaves: it stops at the first entry that is not pending and not after the
  -- target.
  abbrev pub prune : List (ℕ × LogEntry Date Text) → List (ℕ × LogEntry Date Text)
  prune [] = []
  prune ((k, e) ∷ l) =
      let rest = prune l in
      if is_pending e.0.status then (k, e) ∷ rest else if is_after e then rest else (k, e) ∷ l

  to_remove_stops :
      (k : ℕ) (log : FragmentLog Date Text) (d : Date) (l : List (ℕ × LogEntry Date Text))
      → is_in_a_block log.status ≡ true
      → position d ≤ position target
      → to_remove position target ((k, (log, some d)) ∷ l) ≡ some []
  unfolding to_remove is_in_a_block
  to_remove_stops k log d l h le = ground arith

  -- On well-formed entries the loop does not panic, collects keys of the list, and their removal is
  -- `prune`.
  pub to_remove-prune :
      (l : List (ℕ × LogEntry Date Text))
      → Distinct l
      → All IsDated l
      → (ids : List ℕ) × (to_remove position target l ≡ some ids)
        × (without_all ids l ≡ prune l)
        × ((k : ℕ) → is_some (find k l) ≡ false → Absent k ids)
  unfolding to_remove is_pending
  to_remove-prune [] d h = ([], refl, refl, λ k _. tt)
  to_remove-prune ((k, (log, date)) ∷ l) d h =
      let (ids, found, left, absent) = to_remove-prune l d.1 h.1 in
      elim (Bool-cases (is_pending log.status)) [
        | inl p ↦ (
          ids,
          ground (arith, found),
          without_all-cons k (log, date) ids l (absent k d.0)
              ∙ rw p (ap (◌∷◌ (k, (log, date))) left),
          λ j g. absent j (ground arith),
        )
        | inr p ↦ elim (Bool-cases (is_after (log, date))) [
          | inl after ↦ (
            log.fragment_id ∷ ids,
            ground (arith, found),
            ground (arith, left, h.0.id),
            λ j g. (ground (arith, h.0.id), absent j (ground arith)),
          )
          | inr before ↦ ([], ground (arith, h.0.dated), ground (arith), λ j _. tt)
        ]
      ]

  -- The entries that are not pending stand by date, the latest first.
  abbrev pub IsAtMost : ℕ → ℕ × LogEntry Date Text → Type 0
  IsAtMost bound (k, (log, none)) = Unit
  IsAtMost bound (k, (log, some d)) = (is_pending log.status ≡ true) ⊎ (position d ≤ bound)

  abbrev pub IsOrdered : List (ℕ × LogEntry Date Text) → Type 0
  IsOrdered [] = Unit
  IsOrdered ((k, (log, none)) ∷ l) = (is_pending log.status ≡ true) × IsOrdered l
  IsOrdered ((k, (log, some d)) ∷ l) =
      ((is_pending log.status ≡ true) ⊎ All (IsAtMost (position d)) l) × IsOrdered l

  find-prune_before :
      (k b : ℕ) (e : LogEntry Date Text) (l : List (ℕ × LogEntry Date Text))
      → All (IsAtMost b) l
      → b ≤ position target
      → find k l ≡ some e
      → is_after e ≡ false
  find-prune_before k b e [] h le f = cc
  find-prune_before k b e ((j, (log, none)) ∷ l) h le f = elim (Bool-cases (j == k)) [
    | inl hit ↦ ground arith
    | inr miss ↦ find-prune_before k b e l h.1 le (rw miss at f)
  ]
  find-prune_before k b e ((j, (log, some d)) ∷ l) h le f = elim (Bool-cases (j == k)) [
    | inl hit ↦ ground (arith, h.0)
    | inr miss ↦ find-prune_before k b e l h.1 le (rw miss at f)
  ]

  find-prune_absent :
      (k : ℕ) (l : List (ℕ × LogEntry Date Text)) → find k l ≡ none → find k (prune l) ≡ none
  find-prune_absent k [] h = refl
  find-prune_absent k ((j, x) ∷ l) h = ground (arith, find-prune_absent k l)

  -- What is not after the target stays.
  pub prune_keeps :
      (k : ℕ) (e : LogEntry Date Text) (l : List (ℕ × LogEntry Date Text))
      → is_after e ≡ false
      → find k l ≡ some e
      → find k (prune l) ≡ some e
  prune_keeps k e [] n f = f
  prune_keeps k e ((j, x) ∷ l) n f = ground (arith, prune_keeps k e l)

  -- Where the entries stand by date, nothing after the target stays.
  pub prune_removes :
      (k : ℕ) (e : LogEntry Date Text) (l : List (ℕ × LogEntry Date Text))
      → IsOrdered l
      → Distinct l
      → find k l ≡ some e
      → is_after e ≡ true
      → find k (prune l) ≡ none
  prune_removes k e [] o d f a = absurd (cc)
  prune_removes k e ((j, (log, none)) ∷ l) o d f a =
      ground (arith, o.0, prune_removes k e l o.1 d.1)
  prune_removes k e ((j, (log, some t)) ∷ l) o d f a = ground (
    arith,
    o.0,
    prune_removes k e l o.1 d.1,
    find-prune_absent k l,
    find-prune_before k (position t) e l,
  )

  find-prune_lem :
      (k : ℕ) (l : List (ℕ × LogEntry Date Text))
      → IsOrdered l
      → Distinct l
      → find k (prune l) ≡ dropped_if is_after (find k l)
  find-prune_lem k l o d = elim (Option-cases (find k l)) [
    | inl e ↦ rw e (find-prune_absent k l e)
    | inr (x, e) ↦ elim (Bool-cases (is_after x)) [
      | inl a ↦ rw (e, a) (prune_removes k x l o d e a)
      | inr n ↦ rw (e, n) (prune_keeps k x l n e)
    ]
  ]

module _ {Date Text : Type 0} (lru : LruCache (LogEntry Date Text)) (position : Date → ℕ) where
  open lru use {Cache, peek, iter, pop, get_mut, peek-iter, iter-pop, iter-get_mut}

  iter-pop_all : (ids : List ℕ) (c : Cache) → iter (pop_all lru ids c) ≡ without_all ids (iter c)
  unfolding pop_all
  iter-pop_all [] c = refl
  iter-pop_all (id ∷ ids) c = rw (← iter-pop c id) (iter-pop_all ids (pop c id))

  -- On well-formed logs `remove_logs_after_date` does not panic, keeps them well formed, and leaves
  -- what the loop leaves.
  pub remove_logs_after_date-prune :
      (target : Date) (c : Cache)
      → IsValid lru c
      → (c' : Cache) × (remove_logs_after_date lru position target c ≡ some c')
        × IsValid lru c'
        × (iter c' ≡ prune position target (iter c))
  unfolding remove_logs_after_date
  remove_logs_after_date-prune target c v =
      let (ids, found, left, _) = to_remove-prune position target (iter c) v.distinct v.entries in
      (pop_all lru ids c, rw found, pop_all-IsValid lru ids c v, iter-pop_all ids c ∙ left)

  -- On well-formed logs whose entries that are not pending stand by date, the latest first, exactly
  -- those go that
  -- are committed or rejected after the target, and all others stay as they are.
  pub remove_logs_after_date-peek :
      (target : Date) (c : Cache)
      → IsValid lru c
      → IsOrdered position target (iter c)
      → (c' : Cache) × (remove_logs_after_date lru position target c ≡ some c')
        × ((k : ℕ) → peek c' k ≡ dropped_if (is_after position target) (peek c k))
  remove_logs_after_date-peek target c v o =
      let (c', removed, _, left) = remove_logs_after_date-prune target c v in
      (
        c',
        removed,
        λ k.
            rw (peek-iter c' k, peek-iter c k, left)
              (find-prune_lem position target k (iter c) o v.distinct),
      )

  iter-refused :
      (now id : ℕ) (s : FragmentStatus Date Text) (date d : Date) (c : Cache)
      (log : FragmentLog Date Text)
      → find id (iter c) ≡ some (log, some d)
      → is_in_a_block log.status ≡ true
      → is_in_a_block s ≡ false
      → iter (get_mut c id (refresh now s date)) ≡ (id, (log, some d)) ∷ without id (iter c)
  unfolding refresh FragmentLog.modify
  iter-refused now id s date d c log h hb hs =
      rw (iter-get_mut c id (refresh now s date), h, touch) (rw (hb, hs))

  -- A refused update moves its entry to the front of the cache; when that entry is not after the
  -- target, `remove_logs_after_date` then removes nothing, whatever stands behind it.
  pub refused-modify_stops_pruning :
      (now id : ℕ) (s : FragmentStatus Date Text) (date d target : Date) (c : Cache)
      (log : FragmentLog Date Text)
      → peek c id ≡ some (log, some d)
      → is_in_a_block log.status ≡ true
      → is_in_a_block s ≡ false
      → position d ≤ position target
      → remove_logs_after_date lru position target (modify lru now id s date c)
        ≡ some (modify lru now id s date c)
  unfolding modify remove_logs_after_date pop_all
  refused-modify_stops_pruning now id s date d target c log h hb hs le =
      let moved = iter-refused now id s date d c log (sym (peek-iter c id) ∙ h) hb hs in
      rw (h, modify)
        (rw (moved, to_remove_stops position target id log d (without id (iter c)) hb le))
