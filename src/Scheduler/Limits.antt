-- ===== src/Scheduler/Limits.antt =====
-- The limits of the scheduler, its timers, and that it never leaves a task waiting that may run.
use jormungandr.Prelude.{
  some_injective, ℕ, zero, suc, ◌≤◌, ◌<◌, ◌≡◌, refl, sym, subst, arith, Option, none, some, List,
  [], ◌∷◌, ◌++◌, length, length-append, ltb, ◌==◌, ◌⊎◌, inl, inr, All, Bool-cases, ==→≡,
}
use jormungandr.Scheduler.{
  DelayQueue, TimedOutTask, RunningTask, ScheduledTask, Scheduler, Event, scheduling, completion,
  expiry, task_run_count, retain_in_time, update_data, retain_scheduled, new, start, run_loop,
  try_run_scheduled, schedule, enqueue, expire, declare_completed, declare_timed_out, happen,
  happen_all,
}
use jormungandr.Scheduler.Timers.{
  All-snoc, All-weaken, Apart, Apart-snoc, HasTimer, empty-All, in_time-HasTimer,
  pop_runnable-cases, retain_in_time-IsPart, retain_running-IsPart, task_run_count-append,
  update_data-cases,
}

module _ {Data : Type 0} {dq : DelayQueue TimedOutTask} where
  open dq use {Queue, get, insert, remove}

  -- The limits are the given ones, no more tasks run than may, of no task more than may, and each has
  -- a timer of its own.
  pub record IsWithin (cap max : ℕ) (s : Scheduler Data dq) : Type 0 where
    pub places : s.capacity ≡ cap
    pub instances : s.max_running_same_task ≡ max
    pub bounded : length s.running ≤ s.capacity
    pub same : (tid : ℕ) → task_run_count tid s.running ≤ s.max_running_same_task
    pub timed : All (HasTimer dq s.timeouts) s.running
    pub apart : Apart s.running

  -- All places are taken, or no queued task may run.
  abbrev pub IsBusy : Scheduler Data dq → Type 0
  IsBusy s =
      (length s.running ≡ s.capacity)
      ⊎ All (λ t. s.max_running_same_task ≤ task_run_count t.tid s.running) s.scheduled

  start-shorter :
      (t : ScheduledTask Data) (rest : List (ScheduledTask Data)) (s : Scheduler Data dq) (n : ℕ)
      → length rest ≤ n
      → length (start t rest s).scheduled ≤ n
  unfolding start
  start-shorter t rest s n h = h

module _ {Data : Type 0} {dq : DelayQueue TimedOutTask} {cap max : ℕ} where
  open dq use {Queue, get, insert, remove}

  start-IsWithin :
      (task : ScheduledTask Data) (rest : List (ScheduledTask Data)) (s : Scheduler Data dq)
      → length s.running < s.capacity
      → task_run_count task.tid s.running < s.max_running_same_task
      → IsWithin cap max s
      → IsWithin cap max (start task rest s)
  unfolding start
  start-IsWithin task rest s room may i =
      let v : TimedOutTask = record { tid = task.tid; wid = task.wid } in
      let r : RunningTask = record {
        tid = task.tid;
        wid = task.wid;
        timeout_key = (insert v s.timeouts).1;
      } in
      let fresh = dq.insert-fresh v s.timeouts in
      record {
        places = i.places;
        instances = i.instances;
        bounded = let e = length-append s.running (r ∷ []) in omega arith;
        same = λ tid.
            let e = task_run_count-append tid s.running r in
            let below = i.same tid in
            elim (Bool-cases (task.tid == tid)) [
              | inl hit ↦
                  let may' : task_run_count tid s.running < s.max_running_same_task =
                    subst (λ x. task_run_count x s.running < s.max_running_same_task) (==→≡ _ _ hit)
                      may in
                  let e' = rw hit at e in omega arith
              | inr miss ↦ let e' = rw miss at e in omega arith
            ];
        timed =
            All-snoc _ s.running r
              (All-weaken _ _ s.running (λ x h. dq.get-insert_other v s.timeouts x.timeout_key _ h)
                i.timed)
              (dq.get-insert v s.timeouts);
        apart =
            Apart-snoc s.running r
              (All-weaken _ _ s.running (λ x h e. absurd (let h' = rw e at h in cc)) i.timed)
              i.apart;
      }

  run_loop-IsWithin :
      (fuel : ℕ) (s : Scheduler Data dq)
      → length s.scheduled ≤ fuel
      → IsWithin cap max s
      → IsWithin cap max (run_loop fuel s) × IsBusy (run_loop fuel s)
  unfolding run_loop
  run_loop-IsWithin zero s h i = (i, inr (empty-All s.scheduled _ h))
  run_loop-IsWithin (suc fuel) s h i = elim (Bool-cases (ltb (length s.running) s.capacity)) [
    | inr full ↦ rw full (i, inl (let b = i.bounded in ground arith))
    | inl room ↦ elim (pop_runnable-cases s.max_running_same_task s.running s.scheduled) [
      | inl (e, all) ↦ rw (room, e) (i, inr all)
      | inr (t, rest, e, may, shorter) ↦
          rw (room, e)
            (run_loop-IsWithin fuel (start t rest s) (start-shorter t rest s fuel (omega arith))
              (start-IsWithin t rest s (ground arith) may i))
    ]
  ]

  try_run-IsWithin :
      (s : Scheduler Data dq)
      → IsWithin cap max s
      → IsWithin cap max (try_run_scheduled s) × IsBusy (try_run_scheduled s)
  unfolding try_run_scheduled
  try_run-IsWithin s i = run_loop-IsWithin (length s.scheduled) s (omega arith) i

  requeued :
      (s : Scheduler Data dq) (ts : List (ScheduledTask Data))
      → IsWithin cap max s
      → IsWithin cap max (record s { scheduled = ts })
  requeued s ts i = record {
    places = i.places;
    instances = i.instances;
    bounded = i.bounded;
    same = i.same;
    timed = i.timed;
    apart = i.apart;
  }

  enqueue-IsWithin :
      (task : ScheduledTask Data) (o : Option (List (ScheduledTask Data))) (s : Scheduler Data dq)
      → IsWithin cap max s
      → IsBusy s
      → (o ≡ none)
        ⊎ ((ts : List (ScheduledTask Data)) × (o ≡ some ts)
            × All (λ t. s.max_running_same_task ≤ task_run_count t.tid s.running) ts)
        ⊎ (length s.running ≡ s.capacity)
      → IsWithin cap max (enqueue task o s) × IsBusy (enqueue task o s)
  unfolding enqueue
  enqueue-IsWithin task none s i busy h =
      try_run-IsWithin _ (requeued s (s.scheduled ++ task ∷ []) i)
  enqueue-IsWithin task (some ts) s i busy (inl e) = absurd (cc)
  enqueue-IsWithin task (some ts) s i busy (inr (inl (ts', e, all))) = (
    requeued s ts i,
    inr (
        subst (λ x. All (λ t. s.max_running_same_task ≤ task_run_count t.tid s.running) x)
          (sym (some_injective e)) all),
  )
  enqueue-IsWithin task (some ts) s i busy (inr (inr full)) = (requeued s ts i, inl full)

  schedule-IsWithin :
      (task : ScheduledTask Data) (s : Scheduler Data dq)
      → IsWithin cap max s
      → IsBusy s
      → IsWithin cap max (schedule task s) × IsBusy (schedule task s)
  unfolding schedule
  schedule-IsWithin task s i (inl full) =
      enqueue-IsWithin task (update_data task s.scheduled) s i (inl full) (inr (inr full))
  schedule-IsWithin task s i (inr all) =
      enqueue-IsWithin task (update_data task s.scheduled) s i (inr all)
        (elim (update_data-cases task s.scheduled
          (λ t. s.max_running_same_task ≤ task_run_count t s.running) all) [
            | inl e ↦ inl e
            | inr (ts, e, all') ↦ inr (inl (ts, e, all'))
          ])

  declare_completed-IsWithin :
      (task : ℕ) (s : Scheduler Data dq)
      → IsWithin cap max s
      → (s' : Scheduler Data dq) × (declare_completed task s ≡ some s')
        × IsWithin cap max s'
        × IsBusy s'
  unfolding declare_completed
  declare_completed-IsWithin task s i =
      let (rest, q', e, part, timed, _) =
        retain_running-IsPart dq task s.running s.timeouts i.timed i.apart in
      let (i', busy) =
        try_run-IsWithin
          (record s {
            scheduled = retain_scheduled task s.scheduled;
            running = rest;
            timeouts = q';
          })
          (record {
            places = i.places;
            instances = i.instances;
            bounded = let x = part.fewer in let y = i.bounded in omega arith;
            same = λ tid. let x = part.fewer_same tid in let y = i.same tid in omega arith;
            timed = timed;
            apart = part.apart i.apart;
          }) in
      (_, rw e refl, i', busy)

  expire-IsWithin :
      (key : ℕ) (o : Option TimedOutTask) (s : Scheduler Data dq)
      → dq.get key s.timeouts ≡ o
      → IsWithin cap max s
      → IsBusy s
      → (s' : Scheduler Data dq) × (expire key o s ≡ some s') × IsWithin cap max s' × IsBusy s'
  unfolding expire declare_timed_out
  expire-IsWithin key none s e i busy = (s, refl, i, busy)
  expire-IsWithin key (some v) s e i busy =
      let (q1, e') = dq.remove-present key v s.timeouts e in
      let part = retain_in_time-IsPart v s.running in
      let (i', busy') =
        try_run-IsWithin (record s { timeouts = q1; running = retain_in_time v s.running })
          (record {
            places = i.places;
            instances = i.instances;
            bounded = let x = part.fewer in let y = i.bounded in omega arith;
            same = λ tid. let x = part.fewer_same tid in let y = i.same tid in omega arith;
            timed = in_time-HasTimer dq key v s.timeouts q1 s.running e e' i.timed;
            apart = part.apart i.apart;
          }) in
      (_, rw e' refl, i', busy')

  happen-IsWithin :
      (e : Event Data dq) (s : Scheduler Data dq)
      → IsWithin cap max s
      → IsBusy s
      → (s' : Scheduler Data dq) × (happen e s ≡ some s') × IsWithin cap max s' × IsBusy s'
  unfolding happen
  happen-IsWithin (scheduling task) s i busy =
      let (i', busy') = schedule-IsWithin task s i busy in (schedule task s, refl, i', busy')
  happen-IsWithin (completion task) s i busy = declare_completed-IsWithin task s i
  happen-IsWithin (expiry key) s i busy = expire-IsWithin key _ s refl i busy

  from-IsWithin :
      (es : List (Event Data dq)) (s : Scheduler Data dq)
      → IsWithin cap max s
      → IsBusy s
      → (s' : Scheduler Data dq) × (happen_all es s ≡ some s') × IsWithin cap max s' × IsBusy s'
  unfolding happen_all
  from-IsWithin [] s i busy = (s, refl, i, busy)
  from-IsWithin (e ∷ es) s i busy =
      let (s1, e1, i1, busy1) = happen-IsWithin e s i busy in
      let (s2, e2, i2, busy2) = from-IsWithin es s1 i1 busy1 in (s2, rw e1 e2, i2, busy2)

module _ {Data : Type 0} {dq : DelayQueue TimedOutTask} where
  new-IsWithin :
      (capacity same : ℕ) → IsWithin capacity same (new {Data = Data} {dq = dq} capacity same)
  unfolding new task_run_count
  new-IsWithin capacity same = record {
    places = refl;
    instances = refl;
    bounded = omega arith;
    same = λ tid. omega arith;
    timed = tt;
    apart = tt;
  }

  -- From a new scheduler no sequence of commands and expired timers panics. What comes out has the
  -- limits that the new scheduler was given and keeps both, each running task has a timer of its own
  -- in the queue, and either all places are taken or every queued task waits for others with its id.
  pub happen_all-IsWithin :
      (es : List (Event Data dq)) (capacity max_running_same_task : ℕ)
      → (s : Scheduler Data dq) × (happen_all es (new capacity max_running_same_task) ≡ some s)
        × IsWithin capacity max_running_same_task s
        × IsBusy s
  unfolding new
  happen_all-IsWithin es capacity same =
      from-IsWithin es (new capacity same) (new-IsWithin capacity same) (inr tt)
