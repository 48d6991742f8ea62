-- ===== src/Leadership/Lifecycle.antt =====
-- The life of a leader event in the logs: logged, awaken, given its status, finished.
use jormungandr.Prelude.{
  ℕ, ◌≡◌, ◌<◌, refl, sym, ◌∙◌, true, Option, none, some, ◌>>=◌, List, [], ◌∷◌, is_some, arith,
  if◌then◌else◌, ◌==◌, ==_refl, Option-cases, Bool-cases, inl, inr, ◌⊎◌, subst,
}
use jormungandr.Lru.{LruCache}
use jormungandr.Lru.Keyed.{IsKeyed, put-IsKeyed, get_mut-IsKeyed, peek-get_mut, peek-put}
use jormungandr.Logs.Entries.{find-All}
use jormungandr.Leadership
use jormungandr.Leadership.{
  LeadershipLog, LeadershipLogStatus, awaken, finish, with_status, leadership_log_id, insert,
  mark_wake, set_status, mark_finished,
}

module _ {Date Text : Type 0} (position : Date → ℕ) where
  -- A log stands at the id that its date gives.
  abbrev pub IsFiled : ℕ × LeadershipLog Date Text → Type 0
  IsFiled (id, log) = position log.scheduled_at_date ≡ id

module _ {Date Text : Type 0} (position : Date → ℕ) (lru : LruCache (LeadershipLog Date Text)) where
  open lru use {Cache, peek, iter, cap, get_mut}

  abbrev pub IsValid : Cache → Type 0
  IsValid = IsKeyed lru (IsFiled position)

  -- The operations on the logs, as their callers make them.
  pub data Event : Type 0 where
    logged : LeadershipLog Date Text → Event
    wakes ends : ℕ → ℕ → Event
    settles : LeadershipLogStatus Text → ℕ → Event

  unfoldable pub happen : Event → Cache → Option Cache
  happen (logged log) c = some (insert position lru log c).0
  happen (wakes now id) c = mark_wake position lru now id c
  happen (ends now id) c = mark_finished position lru now id c
  happen (settles status id) c = some (set_status position lru status id c)

  unfoldable pub happen_all : List Event → Cache → Option Cache
  happen_all [] c = some c
  happen_all (e ∷ es) c = do c' ← happen e c; happen_all es c'

  -- An awakening of a log that has none is made, and changes no other log; one that was made before
  -- is a panic.
  pub mark_wake-peek :
      (now id : ℕ) (c : Cache) (log : LeadershipLog Date Text)
      → peek c id ≡ some log
      → ((is_some log.wake_at_time ≡ true) × (mark_wake position lru now id c ≡ none))
        ⊎ ((c' : Cache) × (mark_wake position lru now id c ≡ some c')
            × ((j : ℕ)
                → peek c' j
                  ≡ (if id == j then some (record log { wake_at_time = some now }) else peek c j)))
  unfolding mark_wake awaken
  mark_wake-peek now id c log h = elim (Bool-cases (is_some log.wake_at_time)) [
    | inl woken ↦ inl (woken, rw (h, mark_wake) (rw woken))
    | inr asleep ↦ inr (
      get_mut c id (λ _. record log { wake_at_time = some now }),
      rw (h, mark_wake) (rw asleep),
      λ j. peek-get_mut lru c id j (λ _. record log { wake_at_time = some now }) log h,
    )
  ]

  pub mark_finished-peek :
      (now id : ℕ) (c : Cache) (log : LeadershipLog Date Text)
      → peek c id ≡ some log
      → ((is_some log.finished_at_time ≡ true) × (mark_finished position lru now id c ≡ none))
        ⊎ ((c' : Cache) × (mark_finished position lru now id c ≡ some c')
            × ((j : ℕ)
                → peek c' j ≡ (
                    if id == j
                    then some (record log { finished_at_time = some now })
                    else peek c j)))
  unfolding mark_finished finish
  mark_finished-peek now id c log h = elim (Bool-cases (is_some log.finished_at_time)) [
    | inl ended ↦ inl (ended, rw (h, mark_finished) (rw ended))
    | inr open_end ↦ inr (
      get_mut c id (λ _. record log { finished_at_time = some now }),
      rw (h, mark_finished) (rw open_end),
      λ j. peek-get_mut lru c id j (λ _. record log { finished_at_time = some now }) log h,
    )
  ]

  -- A log that is found stands at its id.
  found-IsFiled :
      (id : ℕ) (c : Cache) (log : LeadershipLog Date Text)
      → IsValid c
      → peek c id ≡ some log
      → IsFiled position (id, log)
  found-IsFiled id c log v h =
      find-All (IsFiled position) id log (iter c) v.entries (sym (lru.peek-iter c id) ∙ h)

  replaced-IsValid :
      (id : ℕ) (c c' : Cache) (log log' : LeadershipLog Date Text)
      → IsValid c
      → peek c id ≡ some log
      → position log'.scheduled_at_date ≡ position log.scheduled_at_date
      → some (get_mut c id (λ _. log')) ≡ some c'
      → IsValid c'
  replaced-IsValid id c c' log log' v h same e =
      let filed = found-IsFiled id c log v h in
      let kept = get_mut-IsKeyed lru (IsFiled position) c id (λ _. log') v (λ _ _. same ∙ filed) in
      subst IsValid (ground arith) kept

  mark_wake-IsValid :
      (now id : ℕ) (c c' : Cache)
      → IsValid c
      → mark_wake position lru now id c ≡ some c'
      → IsValid c'
  unfolding mark_wake awaken
  mark_wake-IsValid now id c c' v h = elim (Option-cases (peek c id)) [
    | inl e ↦ subst IsValid (ground (arith, e)) v
    | inr (log, e) ↦ elim (Bool-cases (is_some log.wake_at_time)) [
      | inl woken ↦ absurd (ground (arith, e, woken))
      | inr asleep ↦
          replaced-IsValid id c c' log (record log { wake_at_time = some now }) v e refl
            (ground (arith, e, asleep))
    ]
  ]

  mark_finished-IsValid :
      (now id : ℕ) (c c' : Cache)
      → IsValid c
      → mark_finished position lru now id c ≡ some c'
      → IsValid c'
  unfolding mark_finished finish
  mark_finished-IsValid now id c c' v h = elim (Option-cases (peek c id)) [
    | inl e ↦ subst IsValid (ground (arith, e)) v
    | inr (log, e) ↦ elim (Bool-cases (is_some log.finished_at_time)) [
      | inl ended ↦ absurd (ground (arith, e, ended))
      | inr going ↦
          replaced-IsValid id c c' log (record log { finished_at_time = some now }) v e refl
            (ground (arith, e, going))
    ]
  ]

  -- Whatever happens to logs in order, short of a panic, leaves them in order: distinct ids, each that
  -- of its log's date, and no more than the capacity.
  pub happen_all-IsValid :
      (es : List Event) (c c' : Cache) → IsValid c → happen_all es c ≡ some c' → IsValid c'
  unfolding happen_all happen insert leadership_log_id set_status with_status
  happen_all-IsValid [] c c' v h = subst IsValid (ground arith) v
  happen_all-IsValid (logged log ∷ es) c c' v h =
      happen_all-IsValid es _ c' (put-IsKeyed lru (IsFiled position) c _ log v refl) h
  happen_all-IsValid (settles status id ∷ es) c c' v h =
      happen_all-IsValid es _ c'
        (get_mut-IsKeyed lru (IsFiled position) c id (with_status status) v (λ _ f. f)) h
  happen_all-IsValid (wakes now id ∷ es) c c' v h =
      elim (Option-cases (mark_wake position lru now id c)) [
        | inl e ↦ absurd (ground (arith, e))
        | inr (d, e) ↦
            happen_all-IsValid es d c' (mark_wake-IsValid now id c d v e) (ground (arith, e))
      ]
  happen_all-IsValid (ends now id ∷ es) c c' v h =
      elim (Option-cases (mark_finished position lru now id c)) [
        | inl e ↦ absurd (ground (arith, e))
        | inr (d, e) ↦
            happen_all-IsValid es d c' (mark_finished-IsValid now id c d v e) (ground (arith, e))
      ]

  -- A first awakening, and a first end, of the log that is there.
  wakes-asleep :
      (now id : ℕ) (c : Cache) (log : LeadershipLog Date Text)
      → peek c id ≡ some log
      → log.wake_at_time ≡ none
      → (c' : Cache) × (mark_wake position lru now id c ≡ some c')
        × (peek c' id ≡ some (record log { wake_at_time = some now }))
  wakes-asleep now id c log h asleep = elim (mark_wake-peek now id c log h) [
    | inl (woken, _) ↦ absurd (ground (arith, asleep))
    | inr (c', e, after) ↦ (c', e, ground (arith, after id, ==_refl id))
  ]

  ends-going :
      (now id : ℕ) (c : Cache) (log : LeadershipLog Date Text)
      → peek c id ≡ some log
      → log.finished_at_time ≡ none
      → (c' : Cache) × (mark_finished position lru now id c ≡ some c')
        × (peek c' id ≡ some (record log { finished_at_time = some now }))
  ends-going now id c log h going = elim (mark_finished-peek now id c log h) [
    | inl (ended, _) ↦ absurd (ground (arith, going))
    | inr (c', e, after) ↦ (c', e, ground (arith, after id, ==_refl id))
  ]

  settled :
      (status : LeadershipLogStatus Text) (id : ℕ) (c : Cache) (log : LeadershipLog Date Text)
      → peek c id ≡ some log
      → peek (set_status position lru status id c) id ≡ some (record log { status = status })
  unfolding set_status with_status
  settled status id c log h =
      ground (arith, peek-get_mut lru c id id (with_status status) log h, ==_refl id)

  -- The life of an event: in a cache with room for a log at all, whatever it holds, the log of a new
  -- event is logged, awaken, settled and finished without a panic. It then holds the time of its
  -- creation, the time and the date it is scheduled at, and the three that came after.
  pub happen_all-life :
      (created scheduled wake end : ℕ) (date : Date) (status : LeadershipLogStatus Text) (c : Cache)
      → 0 < cap c
      → (c' : Cache) × (happen_all
            (logged (Leadership.new created date scheduled)
              ∷ wakes wake (position date)
              ∷ settles status (position date)
              ∷ ends end (position date)
              ∷ [])
            c
          ≡ some c')
        × (peek c' (position date)
            ≡ some (record {
              created_at_time = created;
              scheduled_at_time = scheduled;
              scheduled_at_date = date;
              wake_at_time = some wake;
              finished_at_time = some end;
              status = status;
            }))
  unfolding happen_all happen insert leadership_log_id Leadership.new
  happen_all-life created scheduled wake end date status c room =
      let id = position date in
      let log : LeadershipLog Date Text = Leadership.new created date scheduled in
      let first = lru.put c id log in
      let (c1, woken, h1) = wakes-asleep wake id first log (peek-put lru c id log room) refl in
      let c2 = set_status position lru status id c1 in
      let h2 = settled status id c1 (record log { wake_at_time = some wake }) h1 in
      let (c3, ended, h3) =
        ends-going end id c2 (record log { wake_at_time = some wake; status = status }) h2 refl in
      (c3, rw (woken, ended) refl, h3)
