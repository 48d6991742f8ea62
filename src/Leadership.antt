-- ===== src/Leadership.antt =====
-- jormungandr-lib/src/interfaces/leadership_log.rs and jormungandr/src/leadership/logs.rs: the logs of
-- the leader events, in an LRU cache. The id of a log is its date, and stands as the position of the
-- date. `none` is the failed debug assertion; the clock is an argument.
pub mod Lifecycle
use jormungandr.Prelude.{
  ℕ, ◌≡◌, Bool, true, false, Option, none, some, ◌>>=◌, List, [], ◌∷◌, map, is_some, if◌then◌else◌,
}
use jormungandr.Lru.{LruCache}

-- `LeadershipLogStatus`.
pub data LeadershipLogStatus (Text : Type 0) : Type 0 where
  pending : LeadershipLogStatus Text
  rejected : Text → LeadershipLogStatus Text
  block : ℕ → ℕ → ℕ → LeadershipLogStatus Text

pub record LeadershipLog (Date Text : Type 0) : Type 0 where
  pub created_at_time : ℕ
  pub scheduled_at_time : ℕ
  pub scheduled_at_date : Date
  pub wake_at_time : Option ℕ
  pub finished_at_time : Option ℕ
  pub status : LeadershipLogStatus Text

module _ {Date Text : Type 0} where
  unfoldable pub new : ℕ → Date → ℕ → LeadershipLog Date Text
  new now scheduled_at_date scheduled_at_time = record {
    created_at_time = now;
    scheduled_at_time = scheduled_at_time;
    scheduled_at_date = scheduled_at_date;
    wake_at_time = none;
    finished_at_time = none;
    status = pending;
  }

  -- `LeadershipLog::mark_wake`.
  unfoldable pub awaken : ℕ → LeadershipLog Date Text → Option (LeadershipLog Date Text)
  awaken now log =
      if is_some log.wake_at_time then none else some (record log { wake_at_time = some now })

  -- `LeadershipLog::mark_finished`.
  unfoldable pub finish : ℕ → LeadershipLog Date Text → Option (LeadershipLog Date Text)
  finish now log =
      if is_some log.finished_at_time
      then none
      else some (record log { finished_at_time = some now })

  -- `LeadershipLog::set_status`.
  unfoldable pub with_status :
      LeadershipLogStatus Text → LeadershipLog Date Text → LeadershipLog Date Text
  with_status status log = record log { status = status }

module _ {Date Text : Type 0} (position : Date → ℕ) (lru : LruCache (LeadershipLog Date Text)) where
  open lru use {Cache, peek, iter, get_mut}

  unfoldable pub leadership_log_id : LeadershipLog Date Text → ℕ
  leadership_log_id log = position log.scheduled_at_date

  -- The new cache, and the id that the handle keeps.
  unfoldable pub insert : LeadershipLog Date Text → Cache → Cache × ℕ
  insert log c = let id = leadership_log_id log in (lru.put c id log, id)

  unfoldable pub mark_wake : ℕ → ℕ → Cache → Option Cache
  mark_wake now id c = elim (peek c id) [
    | none ↦ some c
    | some log ↦ do log' ← awaken now log; some (get_mut c id (λ _. log'))
  ]

  unfoldable pub set_status : LeadershipLogStatus Text → ℕ → Cache → Cache
  set_status status id c = get_mut c id (with_status status)

  unfoldable pub mark_finished : ℕ → ℕ → Cache → Option Cache
  mark_finished now id c = elim (peek c id) [
    | none ↦ some c
    | some log ↦ do log' ← finish now log; some (get_mut c id (λ _. log'))
  ]

  unfoldable pub logs : Cache → List (LeadershipLog Date Text)
  logs c = map (λ e. e.1) (iter c)
