-- ===== src/Tests/Tasks.antt =====
-- The scheduler with two places and two instances of a task, over a queue of timers that counts up.
use jormungandr.Prelude.{
  some_injective, ℕ, suc, ◌≡◌, refl, sym, subst, arith, inl, inr, Option-cases, Option, none, some,
  List, [], ◌∷◌, find, without, find-without_ne, ==_ne, ltb, if◌then◌else◌,
}
use jormungandr.Scheduler.{
  DelayQueue, TimedOutTask, ScheduledTask, Scheduler, Event, scheduling, completion, expiry, new,
  happen_all, declare_completed, happen, schedule, enqueue, update_data, is_scheduled, expire,
  declare_timed_out, retain_in_time, try_run_scheduled, run_loop, pop_runnable, start,
  task_run_count, retain_running, retain_scheduled,
}
use jormungandr.Scheduler.Limits.{IsWithin, IsBusy, happen_all-IsWithin}
use jormungandr.Scheduler.Completion.{IsForgotten, declare_completed-IsForgotten}

abbrev Timers : Type 0
Timers = ℕ × List (ℕ × TimedOutTask)

abbrev timer : ℕ → Timers → Option TimedOutTask
timer k q = if ltb k q.0 then find k q.1 else none

abbrev without_timer : ℕ → Timers → Option Timers
without_timer k q = elim (timer k q) [ none ↦ none | some _ ↦ some (q.0, without k q.1) ]

other_timer :
    (k j : ℕ) (q q' : Timers) → without_timer k q ≡ some q' → (j ≡ k → ⊥) → timer j q' ≡ timer j q
other_timer k j q q' h other = elim (Option-cases (timer k q)) [
  | inl e ↦ absurd (let bad = rw (without_timer, e) at h in cc)
  | inr (v, e) ↦
      subst (λ x. timer j x ≡ timer j q) (some_injective (rw (without_timer, e) at h))
        (let same = find-without_ne k j q.1 (==_ne k j (λ x. other (sym x))) in rw same refl)
]

abbrev timers : DelayQueue TimedOutTask
timers = record {
  Queue = Timers;
  empty = (0, []);
  get = timer;
  insert = λ v q. ((suc q.0, (q.0, v) ∷ q.1), q.0);
  remove = without_timer;
  insert-fresh = λ v q. ground arith;
  get-insert = λ v q. ground arith;
  get-insert_other = λ v q k w h. ground arith;
  remove-present = λ k v q h. ((q.0, without k q.1), rw (without_timer, h) refl);
  get-remove_other = other_timer;
}

abbrev task : ℕ → ℕ → ScheduledTask ℕ
task tid wid = record { tid = tid; wid = wid; payload = 0 }

abbrev events : List (Event ℕ timers)
events =
    scheduling (task 1 1)
    ∷ scheduling (task 1 2)
    ∷ scheduling (task 2 1)
    ∷ expiry 0
    ∷ completion 1
    ∷ []

happen_all-IsWithin_example :
    (s : Scheduler ℕ timers) × (happen_all events (new 2 2) ≡ some s) × IsWithin 2 2 s × IsBusy s
happen_all-IsWithin_example = happen_all-IsWithin events 2 2

-- Two instances of a task run, and one of another waits.
abbrev crowded : Scheduler ℕ timers
crowded = record {
  scheduled = task 1 3 ∷ task 2 1 ∷ [];
  running =
      record { tid = 1; wid = 1; timeout_key = 0 }
      ∷ record { tid = 1; wid = 2; timeout_key = 1 }
      ∷ [];
  timeouts = (2, (1, record { tid = 1; wid = 2 }) ∷ (0, record { tid = 1; wid = 1 }) ∷ []);
  capacity = 2;
  max_running_same_task = 2;
  launched = task 1 1 ∷ task 1 2 ∷ [];
}

abbrev relieved : Scheduler ℕ timers
relieved = record crowded {
  scheduled = [];
  running = record { tid = 2; wid = 1; timeout_key = 2 } ∷ [];
  timeouts = (3, (2, record { tid = 2; wid = 1 }) ∷ []);
  launched = task 1 1 ∷ task 1 2 ∷ task 2 1 ∷ [];
}

crowded_completes : declare_completed 1 crowded ≡ some relieved
unfolding declare_completed retain_running retain_scheduled try_run_scheduled run_loop pop_runnable
    start task_run_count
crowded_completes = refl

declare_completed-IsForgotten_example : IsForgotten 1 relieved
declare_completed-IsForgotten_example =
    declare_completed-IsForgotten 1 crowded relieved crowded_completes

-- A task that runs twice on one worker: the first timer ends both runs, and the second timer stays.
abbrev twice : List (Event ℕ timers)
twice = scheduling (task 1 1) ∷ scheduling (task 1 1) ∷ expiry 0 ∷ []

abbrev orphaned : Scheduler ℕ timers
orphaned = record {
  scheduled = [];
  running = [];
  timeouts = (2, (1, record { tid = 1; wid = 1 }) ∷ []);
  capacity = 2;
  max_running_same_task = 2;
  launched = task 1 1 ∷ task 1 1 ∷ [];
}

twice_ends_early : happen_all twice (new 2 2) ≡ some orphaned
unfolding happen_all happen schedule enqueue update_data is_scheduled expire declare_timed_out
    retain_in_time new try_run_scheduled run_loop pop_runnable start task_run_count
twice_ends_early = refl
