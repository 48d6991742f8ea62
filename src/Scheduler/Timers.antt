-- ===== src/Scheduler/Timers.antt =====
-- The running tasks and the queue, as lists: what a removal leaves, the timers that it removes, and the
-- first task that may run.
use jormungandr.Prelude.{
  ℕ, ◌+◌, ◌≤◌, ◌<◌, ◌≡◌, refl, sym, ap, ◌∙◌, arith, Option, none, some, List, [], ◌∷◌, ◌++◌, length,
  ltb, ◌==◌, ◌&&◌, ◌⊎◌, inl, inr, All, Bool-cases, ==_refl, if◌then◌else◌,
}
use jormungandr.Scheduler.{
  DelayQueue, TimedOutTask, RunningTask, ScheduledTask, task_run_count, retain_in_time,
  is_scheduled, update_data, pop_runnable, retain_running,
}

-- The keys of the timers differ.
abbrev pub Apart : List RunningTask → Type 0
Apart [] = Unit
Apart (r ∷ rs) = All (λ x. x.timeout_key ≡ r.timeout_key → ⊥) rs × Apart rs

pub task_run_count-append :
    (tid : ℕ) (rs : List RunningTask) (r : RunningTask)
    → task_run_count tid (rs ++ r ∷ []) ≡ task_run_count tid rs + (if r.tid == tid then 1 else 0)
unfolding task_run_count
task_run_count-append tid [] r = ground arith
task_run_count-append tid (x ∷ rs) r = ground (arith, task_run_count-append tid rs r)

pub All-snoc :
    {A : Type 0} (P : A → Type 0) (xs : List A) (x : A) → All P xs → P x → All P (xs ++ x ∷ [])
All-snoc P [] x h p = (p, tt)
All-snoc P (y ∷ xs) x h p = (h.0, All-snoc P xs x h.1 p)

pub All-weaken :
    {A : Type 0} (P Q : A → Type 0) (xs : List A) → ((x : A) → P x → Q x) → All P xs → All Q xs
All-weaken P Q [] f h = tt
All-weaken P Q (x ∷ xs) f h = (f x h.0, All-weaken P Q xs f h.1)

pub Apart-snoc :
    (rs : List RunningTask) (r : RunningTask)
    → All (λ x. x.timeout_key ≡ r.timeout_key → ⊥) rs
    → Apart rs
    → Apart (rs ++ r ∷ [])
Apart-snoc [] r h a = (tt, tt)
Apart-snoc (x ∷ rs) r h a = (All-snoc _ rs r a.0 (λ e. h.0 (sym e)), Apart-snoc rs r h.1 a.1)

-- What is left of the running tasks has what they all had, and is no more of them.
pub record IsPart (rs rest : List RunningTask) : Type 1 where
  pub all : (P : RunningTask → Type 0) → All P rs → All P rest
  pub apart : Apart rs → Apart rest
  pub fewer : length rest ≤ length rs
  pub fewer_same : (tid : ℕ) → task_run_count tid rest ≤ task_run_count tid rs

pub IsPart-nil : IsPart [] []
IsPart-nil = record {
  all = λ P h. h;
  apart = λ h. h;
  fewer = omega arith;
  fewer_same = λ tid. omega arith;
}

pub IsPart-keep :
    (r : RunningTask) (rs rest : List RunningTask) → IsPart rs rest → IsPart (r ∷ rs) (r ∷ rest)
unfolding task_run_count
IsPart-keep r rs rest p = record {
  all = λ P h. (h.0, p.all P h.1);
  apart = λ h. (p.all _ h.0, p.apart h.1);
  fewer = let x = p.fewer in omega arith;
  fewer_same = λ tid. let x = p.fewer_same tid in ground arith;
}

pub IsPart-drop :
    (r : RunningTask) (rs rest : List RunningTask) → IsPart rs rest → IsPart (r ∷ rs) rest
unfolding task_run_count
IsPart-drop r rs rest p = record {
  all = λ P h. p.all P h.1;
  apart = λ h. p.apart h.1;
  fewer = let x = p.fewer in omega arith;
  fewer_same = λ tid. let x = p.fewer_same tid in ground arith;
}

pub retain_in_time-IsPart :
    (t : TimedOutTask) (rs : List RunningTask) → IsPart rs (retain_in_time t rs)
unfolding retain_in_time
retain_in_time-IsPart t [] = IsPart-nil
retain_in_time-IsPart t (r ∷ rs) = elim (Bool-cases ((r.tid == t.tid) && (r.wid == t.wid))) [
  | inl over ↦ rw over (IsPart-drop r rs _ (retain_in_time-IsPart t rs))
  | inr on ↦ rw on (IsPart-keep r rs _ (retain_in_time-IsPart t rs))
]

module _ {Data : Type 0} where
  pub empty-All :
      (ts : List (ScheduledTask Data)) (P : ScheduledTask Data → Type 0) → length ts ≤ 0 → All P ts
  empty-All [] P h = tt
  empty-All (t ∷ ts) P h = absurd (omega arith)

  -- Either no queued task may run, or one that may is taken out of the queue.
  pub pop_runnable-cases :
      (max : ℕ) (running : List RunningTask) (ts : List (ScheduledTask Data))
      → ((pop_runnable max running ts ≡ none) × All (λ t. max ≤ task_run_count t.tid running) ts)
        ⊎ ((t : ScheduledTask Data) × (rest : List (ScheduledTask Data)) × (pop_runnable max running
                ts
              ≡ some (t, rest))
            × (task_run_count t.tid running < max)
            × (length ts ≡ length rest + 1))
  unfolding pop_runnable
  pop_runnable-cases max running [] = inl (refl, tt)
  pop_runnable-cases max running (x ∷ ts) =
      elim (Bool-cases (ltb (task_run_count x.tid running) max)) [
        | inl may ↦ inr (x, ts, rw may refl, ground arith, omega arith)
        | inr full ↦ elim (pop_runnable-cases max running ts) [
          | inl (e, all) ↦ inl (rw (full, e) refl, (ground arith, all))
          | inr (t, rest, e, may, shorter) ↦ inr (t, x ∷ rest, rw (full, e) refl, may, omega arith)
        ]
      ]

  -- A queued task that is updated keeps its id.
  pub update_data-cases :
      (task : ScheduledTask Data) (ts : List (ScheduledTask Data)) (P : ℕ → Type 0)
      → All (λ t. P t.tid) ts
      → (update_data task ts ≡ none)
        ⊎ ((ts' : List (ScheduledTask Data)) × (update_data task ts ≡ some ts')
            × All (λ t. P t.tid) ts')
  unfolding update_data
  update_data-cases task [] P h = inl refl
  update_data-cases task (t ∷ ts) P h = elim (Bool-cases (is_scheduled t task)) [
    | inl hit ↦ inr (record t { payload = task.payload } ∷ ts, rw hit refl, h)
    | inr miss ↦ elim (update_data-cases task ts P h.1) [
      | inl e ↦ inl (rw (miss, e) refl)
      | inr (ts', e, all) ↦ inr (t ∷ ts', rw (miss, e) refl, (h.0, all))
    ]
  ]

module _ (dq : DelayQueue TimedOutTask) where
  -- A running task has its timer in the queue.
  abbrev pub HasTimer : dq.Queue → RunningTask → Type 0
  HasTimer q r = dq.get r.timeout_key q ≡ some (record { tid = r.tid; wid = r.wid })

  pub still_timed :
      (key : ℕ) (q q1 : dq.Queue) (rs : List RunningTask)
      → dq.remove key q ≡ some q1
      → All (λ x. x.timeout_key ≡ key → ⊥) rs
      → All (HasTimer q) rs
      → All (HasTimer q1) rs
  still_timed key q q1 [] e other h = tt
  still_timed key q q1 (r ∷ rs) e other h = (
    dq.get-remove_other key r.timeout_key q q1 e other.0 ∙ h.0,
    still_timed key q q1 rs e other.1 h.1,
  )

  -- The timers of the tasks that are declared complete are there to be removed.
  pub retain_running-IsPart :
      (task : ℕ) (rs : List RunningTask) (q : dq.Queue)
      → All (HasTimer q) rs
      → Apart rs
      → (rest : List RunningTask) × (q' : dq.Queue) × (retain_running dq task rs q
          ≡ some (rest, q'))
        × IsPart rs rest
        × All (HasTimer q') rest
        × ((k : ℕ) → All (λ x. x.timeout_key ≡ k → ⊥) rs → dq.get k q' ≡ dq.get k q)
  unfolding retain_running
  retain_running-IsPart task [] q timed apart = ([], q, refl, IsPart-nil, tt, λ k h. refl)
  retain_running-IsPart task (r ∷ rs) q timed apart = elim (Bool-cases (r.tid == task)) [
    | inl over ↦
        let (q1, e) = dq.remove-present r.timeout_key _ q timed.0 in
        let kept = dq.get-remove_other r.timeout_key in
        let (rest, q', e', part, timed', other) =
          retain_running-IsPart task rs q1 (still_timed r.timeout_key q q1 rs e apart.0 timed.1)
            apart.1 in
        (
          rest,
          q',
          rw (over, e) e',
          IsPart-drop r rs rest part,
          timed',
          λ k h. other k h.1 ∙ kept k q q1 e (λ same. h.0 (sym same)),
        )
    | inr on ↦
        let (rest, q', e', part, timed', other) = retain_running-IsPart task rs q timed.1 apart.1 in
        (
          r ∷ rest,
          q',
          rw (on, e') refl,
          IsPart-keep r rs rest part,
          (other r.timeout_key apart.0 ∙ timed.0, timed'),
          λ k h. other k h.1,
        )
  ]

  pub tid_of : Option TimedOutTask → ℕ
  tid_of none = 0
  tid_of (some v) = v.tid

  pub wid_of : Option TimedOutTask → ℕ
  wid_of none = 0
  wid_of (some v) = v.wid

  -- The tasks that stay when a timer is over have other timers.
  pub in_time-HasTimer :
      (key : ℕ) (v : TimedOutTask) (q q1 : dq.Queue) (rs : List RunningTask)
      → dq.get key q ≡ some v
      → dq.remove key q ≡ some q1
      → All (HasTimer q) rs
      → All (HasTimer q1) (retain_in_time v rs)
  unfolding retain_in_time tid_of wid_of
  in_time-HasTimer key v q q1 [] e e' h = tt
  in_time-HasTimer key v q q1 (r ∷ rs) e e' h =
      elim (Bool-cases ((r.tid == v.tid) && (r.wid == v.wid))) [
        | inl over ↦ rw over (in_time-HasTimer key v q q1 rs e e' h.1)
        | inr on ↦ rw on (
          dq.get-remove_other key r.timeout_key q q1 e' (λ same.
                let path = sym h.0 ∙ ap (λ k. dq.get k q) same ∙ e in
                let t : r.tid ≡ v.tid = ap tid_of path in
                let w : r.wid ≡ v.wid = ap wid_of path in
                absurd (let bad = rw (t, w, ==_refl v.tid, ==_refl v.wid) at on in cc))
              ∙ h.0,
          in_time-HasTimer key v q q1 rs e e' h.1,
        )
      ]
