-- ===== src/Scheduler/Completion.antt =====
-- A task that is declared complete is forgotten: it neither runs nor waits any more.
use jormungandr.Prelude.{
  some_injective, ℕ, zero, suc, ◌≡◌, refl, subst, arith, false, none, some, List, [], ◌∷◌, length,
  ltb, ◌==◌, ◌⊎◌, inl, inr, All, Bool-cases, Option-cases,
}
use jormungandr.Scheduler.{
  DelayQueue, TimedOutTask, RunningTask, ScheduledTask, Scheduler, task_run_count, retain_scheduled,
  pop_runnable, start, run_loop, try_run_scheduled, retain_running, declare_completed,
}
use jormungandr.Scheduler.Timers.{task_run_count-append}

module _ {Data : Type 0} where
  -- No queued task has the id.
  abbrev pub IsAbsent : ℕ → List (ScheduledTask Data) → Type 0
  IsAbsent task ts = All (λ t. (t.tid == task) ≡ false) ts

  retain_scheduled-IsAbsent :
      (task : ℕ) (ts : List (ScheduledTask Data)) → IsAbsent task (retain_scheduled task ts)
  unfolding retain_scheduled
  retain_scheduled-IsAbsent task [] = tt
  retain_scheduled-IsAbsent task (t ∷ ts) = elim (Bool-cases (t.tid == task)) [
    | inl hit ↦ rw hit (retain_scheduled-IsAbsent task ts)
    | inr miss ↦ rw miss (miss, retain_scheduled-IsAbsent task ts)
  ]

  pop_runnable-IsAbsent :
      (task max : ℕ) (running : List RunningTask) (ts : List (ScheduledTask Data))
      → IsAbsent task ts
      → (pop_runnable max running ts ≡ none)
        ⊎ ((t : ScheduledTask Data) × (rest : List (ScheduledTask Data)) × (pop_runnable max running
                ts
              ≡ some (t, rest))
            × ((t.tid == task) ≡ false)
            × IsAbsent task rest)
  unfolding pop_runnable
  pop_runnable-IsAbsent task max running [] h = inl refl
  pop_runnable-IsAbsent task max running (x ∷ ts) h =
      elim (Bool-cases (ltb (task_run_count x.tid running) max)) [
        | inl may ↦ inr (x, ts, rw may refl, h.0, h.1)
        | inr full ↦ elim (pop_runnable-IsAbsent task max running ts h.1) [
          | inl e ↦ inl (rw (full, e) refl)
          | inr (t, rest, e, other, absent) ↦
              inr (t, x ∷ rest, rw (full, e) refl, other, (h.0, absent))
        ]
      ]

module _ {Data : Type 0} {dq : DelayQueue TimedOutTask} where
  -- Nothing of a task runs or waits.
  pub record IsForgotten (task : ℕ) (s : Scheduler Data dq) : Type 0 where
    pub stopped : task_run_count task s.running ≡ 0
    pub absent : IsAbsent task s.scheduled

  start-IsForgotten :
      (task : ℕ) (t : ScheduledTask Data) (rest : List (ScheduledTask Data)) (s : Scheduler Data dq)
      → (t.tid == task) ≡ false
      → IsAbsent task rest
      → IsForgotten task s
      → IsForgotten task (start t rest s)
  unfolding start
  start-IsForgotten task t rest s other absent f = record {
    stopped =
        let e = rw other at (
          task_run_count-append task s.running (record {
            tid = t.tid;
            wid = t.wid;
            timeout_key = (dq.insert (record { tid = t.tid; wid = t.wid }) s.timeouts).1;
          })) in
        let z = f.stopped in omega arith;
    absent = absent;
  }

  run_loop-IsForgotten :
      (fuel task : ℕ) (s : Scheduler Data dq)
      → IsForgotten task s
      → IsForgotten task (run_loop fuel s)
  unfolding run_loop
  run_loop-IsForgotten zero task s f = f
  run_loop-IsForgotten (suc fuel) task s f = elim (Bool-cases (ltb (length s.running) s.capacity)) [
    | inr full ↦ rw full f
    | inl room ↦
        elim (pop_runnable-IsAbsent task s.max_running_same_task s.running s.scheduled f.absent) [
          | inl e ↦ rw (room, e) f
          | inr (t, rest, e, other, absent) ↦
              rw (room, e)
                (run_loop-IsForgotten fuel task (start t rest s)
                  (start-IsForgotten task t rest s other absent f))
        ]
  ]

module _ (dq : DelayQueue TimedOutTask) where
  retain_running-stops :
      (task : ℕ) (rs : List RunningTask) (q : dq.Queue)
      → (retain_running dq task rs q ≡ none)
        ⊎ ((rest : List RunningTask) × (q' : dq.Queue) × (retain_running dq task rs q
              ≡ some (rest, q'))
            × (task_run_count task rest ≡ 0))
  unfolding retain_running task_run_count
  retain_running-stops task [] q = inr ([], q, refl, refl)
  retain_running-stops task (r ∷ rs) q = elim (Bool-cases (r.tid == task)) [
    | inl over ↦ elim (Option-cases (dq.remove r.timeout_key q)) [
      | inl e ↦ inl (rw (over, e) refl)
      | inr (q1, e) ↦ elim (retain_running-stops task rs q1) [
        | inl e' ↦ inl (rw (over, e) e')
        | inr (rest, q', e', z) ↦ inr (rest, q', rw (over, e) e', z)
      ]
    ]
    | inr on ↦ elim (retain_running-stops task rs q) [
      | inl e' ↦ inl (rw (on, e') refl)
      | inr (rest, q', e', z) ↦ inr (r ∷ rest, q', rw (on, e') refl, rw on z)
    ]
  ]

module _ {Data : Type 0} {dq : DelayQueue TimedOutTask} where
  -- After a task is declared complete none of its instances runs or waits, although the places that
  -- it leaves are filled at once.
  pub declare_completed-IsForgotten :
      (task : ℕ) (s s' : Scheduler Data dq)
      → declare_completed task s ≡ some s'
      → IsForgotten task s'
  unfolding declare_completed try_run_scheduled
  declare_completed-IsForgotten task s s' h =
      elim (retain_running-stops dq task s.running s.timeouts) [
        | inl e ↦ absurd (let bad = rw e at h in cc)
        | inr (rest, q', e, z) ↦ subst (IsForgotten task) (some_injective (rw e at h)) (
            run_loop-IsForgotten _ task _
              (record { stopped = z; absent = retain_scheduled-IsAbsent task s.scheduled }))
      ]
