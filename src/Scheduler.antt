-- ===== src/Scheduler.antt =====
-- jormungandr/src/utils/fire_forget_scheduler.rs: tasks that are started and forgotten, within limits,
-- until they are declared complete or their time is over. tokio's DelayQueue is a parameter.
pub mod Timers
pub mod Limits
pub mod Completion
use jormungandr.Prelude.{
  ℕ, zero, suc, ◌≡◌, Bool, true, false, Option, none, some, List, [], ◌∷◌, ◌++◌, length, ltb, ◌==◌,
  ◌&&◌, not, ◌>>=◌, if◌then◌else◌,
}

-- `DelayQueue`: an insertion gives a key that is free, and the removal of a key that is not there is a
-- panic.
pub record DelayQueue (V : Type 0) : Type 1 where
  pub Queue : Type 0
  pub empty : Queue
  pub get : ℕ → Queue → Option V
  pub insert : V → Queue → Queue × ℕ
  pub remove : ℕ → Queue → Option Queue
  pub insert-fresh : (v : V) (q : Queue) → get (insert v q).1 q ≡ none
  pub get-insert : (v : V) (q : Queue) → get (insert v q).1 (insert v q).0 ≡ some v
  pub get-insert_other :
      (v : V) (q : Queue) (k : ℕ) (w : V) → get k q ≡ some w → get k (insert v q).0 ≡ some w
  pub remove-present :
      (k : ℕ) (v : V) (q : Queue) → get k q ≡ some v → (q' : Queue) × (remove k q ≡ some q')
  pub get-remove_other :
      (k j : ℕ) (q q' : Queue) → remove k q ≡ some q' → (j ≡ k → ⊥) → get j q' ≡ get j q

pub record TimedOutTask : Type 0 where
  pub tid : ℕ
  pub wid : ℕ

pub record RunningTask : Type 0 where
  pub tid : ℕ
  pub wid : ℕ
  pub timeout_key : ℕ

pub record ScheduledTask (Data : Type 0) : Type 0 where
  pub tid : ℕ
  pub wid : ℕ
  pub payload : Data

-- `task_run_count`.
unfoldable pub task_run_count : ℕ → List RunningTask → ℕ
task_run_count tid [] = 0
task_run_count tid (r ∷ rs) =
    if r.tid == tid then suc (task_run_count tid rs) else task_run_count tid rs

-- `retain` in `declare_timed_out`.
unfoldable pub retain_in_time : TimedOutTask → List RunningTask → List RunningTask
retain_in_time t [] = []
retain_in_time t (r ∷ rs) =
    let rest = retain_in_time t rs in
    if (r.tid == t.tid) && (r.wid == t.wid) then rest else r ∷ rest

module _ {Data : Type 0} where
  unfoldable pub is_scheduled : ScheduledTask Data → ScheduledTask Data → Bool
  is_scheduled a b = (a.tid == b.tid) && (a.wid == b.wid)

  -- The queued task that a new one updates, if there is one.
  unfoldable pub update_data :
      ScheduledTask Data → List (ScheduledTask Data) → Option (List (ScheduledTask Data))
  update_data task [] = none
  update_data task (t ∷ ts) =
      if is_scheduled t task
      then some (record t { payload = task.payload } ∷ ts)
      else elim (update_data task ts) [ none ↦ none | some ts' ↦ some (t ∷ ts') ]

  -- `retain` on the queued tasks in `declare_completed`.
  unfoldable pub retain_scheduled : ℕ → List (ScheduledTask Data) → List (ScheduledTask Data)
  retain_scheduled task [] = []
  retain_scheduled task (t ∷ ts) =
      let rest = retain_scheduled task ts in if t.tid == task then rest else t ∷ rest

  -- The first queued task that may run, and the queue without it.
  unfoldable pub pop_runnable :
      ℕ
      → List RunningTask
      → List (ScheduledTask Data)
      → Option (ScheduledTask Data × List (ScheduledTask Data))
  pop_runnable max running [] = none
  pop_runnable max running (t ∷ ts) =
      if ltb (task_run_count t.tid running) max
      then some (t, ts)
      else elim (pop_runnable max running ts) [ none ↦ none | some (x, rest) ↦ some (x, t ∷ rest) ]

module _ (dq : DelayQueue TimedOutTask) where
  -- `retain` on the running tasks in `declare_completed`, with their timers.
  unfoldable pub retain_running :
      ℕ → List RunningTask → dq.Queue → Option (List RunningTask × dq.Queue)
  retain_running task [] q = some ([], q)
  retain_running task (r ∷ rs) q =
      if r.tid == task
      then (do q' ← dq.remove r.timeout_key q; retain_running task rs q')
      else (do (rs', q') ← retain_running task rs q; some (r ∷ rs', q'))

module _ (Data : Type 0) (dq : DelayQueue TimedOutTask) where
  -- The capacity of the vector `running` is the limit; `launched` is what the launcher was given.
  pub record Scheduler : Type 0 where
    pub scheduled : List (ScheduledTask Data)
    pub running : List RunningTask
    pub timeouts : dq.Queue
    pub capacity : ℕ
    pub max_running_same_task : ℕ
    pub launched : List (ScheduledTask Data)

  pub data Event : Type 0 where
    scheduling : ScheduledTask Data → Event
    completion expiry : ℕ → Event

module _ {Data : Type 0} {dq : DelayQueue TimedOutTask} where
  unfoldable pub new : ℕ → ℕ → Scheduler Data dq
  new capacity max_running_same_task = record {
    scheduled = [];
    running = [];
    timeouts = dq.empty;
    capacity = capacity;
    max_running_same_task = max_running_same_task;
    launched = [];
  }

  -- One round of the loop of `try_run_scheduled`.
  unfoldable pub start :
      ScheduledTask Data → List (ScheduledTask Data) → Scheduler Data dq → Scheduler Data dq
  start task rest s =
      let (timeouts, timeout_key) =
        dq.insert (record { tid = task.tid; wid = task.wid }) s.timeouts in
      record s {
        scheduled = rest;
        timeouts = timeouts;
        running =
            s.running ++ record { tid = task.tid; wid = task.wid; timeout_key = timeout_key } ∷ [];
        launched = s.launched ++ task ∷ [];
      }

  unfoldable pub run_loop : ℕ → Scheduler Data dq → Scheduler Data dq
  run_loop zero s = s
  run_loop (suc fuel) s =
      if ltb (length s.running) s.capacity
      then elim (pop_runnable s.max_running_same_task s.running s.scheduled) [
        | none ↦ s
        | some (task, rest) ↦ run_loop fuel (start task rest s)
      ]
      else s

  -- The loop ends with the queue at the latest.
  unfoldable pub try_run_scheduled : Scheduler Data dq → Scheduler Data dq
  try_run_scheduled s = run_loop (length s.scheduled) s

  -- `schedule` after the search of the queue.
  unfoldable pub enqueue :
      ScheduledTask Data
      → Option (List (ScheduledTask Data))
      → Scheduler Data dq
      → Scheduler Data dq
  enqueue task (some scheduled) s = record s { scheduled = scheduled }
  enqueue task none s = try_run_scheduled (record s { scheduled = s.scheduled ++ task ∷ [] })

  unfoldable pub schedule : ScheduledTask Data → Scheduler Data dq → Scheduler Data dq
  schedule task s = enqueue task (update_data task s.scheduled) s

  unfoldable pub declare_completed : ℕ → Scheduler Data dq → Option (Scheduler Data dq)
  declare_completed task s = do
    (running, timeouts) ← retain_running dq task s.running s.timeouts
    some (
        try_run_scheduled (record s {
          scheduled = retain_scheduled task s.scheduled;
          running = running;
          timeouts = timeouts;
        }))

  unfoldable pub declare_timed_out : TimedOutTask → Scheduler Data dq → Scheduler Data dq
  declare_timed_out timed_out s =
      try_run_scheduled (record s { running = retain_in_time timed_out s.running })

  -- A timer that is over leaves the queue.
  unfoldable pub expire : ℕ → Option TimedOutTask → Scheduler Data dq → Option (Scheduler Data dq)
  expire key none s = some s
  expire key (some timed_out) s = do
    timeouts ← dq.remove key s.timeouts
    some (declare_timed_out timed_out (record s { timeouts = timeouts }))

  -- `poll`: a command, or a timer.
  unfoldable pub happen : Event Data dq → Scheduler Data dq → Option (Scheduler Data dq)
  happen (scheduling task) s = some (schedule task s)
  happen (completion task) s = declare_completed task s
  happen (expiry key) s = expire key (dq.get key s.timeouts) s

  unfoldable pub happen_all : List (Event Data dq) → Scheduler Data dq → Option (Scheduler Data dq)
  happen_all [] s = some s
  happen_all (e ∷ es) s = do s' ← happen e s; happen_all es s'
