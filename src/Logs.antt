-- ===== src/Logs.antt =====
-- jormungandr/src/fragment/logs.rs: the logs of the fragments, in an LRU cache keyed by fragment id.
-- A call that reads the clock takes the time as an argument.
pub mod Entries
pub mod Invariant
pub mod Pruning
pub mod Updates
pub mod Lookup
use jormungandr.Prelude.{
  ℕ, ◌+◌, Bool, true, false, Option, none, some, ◌>>=◌, List, [], ◌∷◌, map, is_some, ltb,
  if◌then◌else◌, HashMap, empty_map, put,
}
use jormungandr.FragmentLog.{
  FragmentLog, FragmentStatus, FragmentOrigin, pending, rejected, in_a_block, network, is_pending,
}
use jormungandr.FragmentLog
use jormungandr.Lru.{LruCache}

-- The value of the cache: the log, and the date of the block or of the rejection.
abbrev pub LogEntry : Type 0 → Type 0 → Type 0
LogEntry Date Text = FragmentLog Date Text × Option Date

module _ {Date Text : Type 0} where
  -- The update that `modify` makes in place, through `get_mut`.
  unfoldable pub refresh :
      ℕ → FragmentStatus Date Text → Date → LogEntry Date Text → LogEntry Date Text
  refresh now status ledger_date (entry, date) =
      let (entry', done) = FragmentLog.modify now status entry in
      if done then (entry', some ledger_date) else (entry', date)

  -- The entry that `modify` makes of a fragment that has none.
  unfoldable pub first_seen : ℕ → ℕ → FragmentStatus Date Text → Date → LogEntry Date Text
  first_seen now id status ledger_date =
      ((FragmentLog.modify now status (FragmentLog.new now id network)).0, some ledger_date)

  -- The loop of `remove_logs_after_date`; `none` is the panic of `date.unwrap()`.
  unfoldable pub to_remove : (Date → ℕ) → Date → List (ℕ × LogEntry Date Text) → Option (List ℕ)
  to_remove position target [] = some []
  to_remove position target ((_, (log, date)) ∷ entries) =
      let rest = to_remove position target entries in
      elim log.status [
        | pending ↦ rest
        | _ ↦ do
          d ← date
          if ltb (position target) (position d)
              then rest >>= (λ ids. some (log.fragment_id ∷ ids))
              else some []
      ]

module _ {Date Text : Type 0} (lru : LruCache (LogEntry Date Text)) where
  open lru use {Cache, peek, iter, get_mut, pop}

  unfoldable pub exists : ℕ → Cache → Bool
  exists id c = is_some (peek c id)

  unfoldable pub exist_all : List ℕ → Cache → List Bool
  exist_all ids c = map (λ id. exists id c) ids

  -- The new cache, and whether the fragment was registered; `none` is the failed assertion.
  unfoldable pub insert_pending : FragmentLog Date Text → Cache → Option (Cache × Bool)
  insert_pending log c =
      if is_pending log.status
      then if is_some (peek c log.fragment_id)
        then some (c, false)
        else some (lru.put c log.fragment_id (log, none), true)
      else none

  unfoldable pub insert_all_pending : List (FragmentLog Date Text) → Cache → Option (Cache × ℕ)
  insert_all_pending [] c = some (c, 0)
  insert_all_pending (log ∷ logs) c = do
    (c', was_modified) ← insert_pending log c
    (c'', n) ← insert_all_pending logs c'
    some (c'', if was_modified then n + 1 else n)

  unfoldable pub modify : ℕ → ℕ → FragmentStatus Date Text → Date → Cache → Cache
  modify now id status ledger_date c = elim (peek c id) [
    | some _ ↦ get_mut c id (refresh now status ledger_date)
    | none ↦ lru.put c id (first_seen now id status ledger_date)
  ]

  unfoldable pub modify_all : ℕ → List ℕ → FragmentStatus Date Text → Date → Cache → Cache
  modify_all now [] status ledger_date c = c
  modify_all now (id ∷ ids) status ledger_date c =
      modify_all now ids status ledger_date (modify now id status ledger_date c)

  -- The loop of `logs_by_ids`.
  unfoldable pub collect :
      List ℕ → Cache → HashMap (FragmentLog Date Text) → HashMap (FragmentLog Date Text)
  collect [] c result = result
  collect (id ∷ ids) c result =
      collect ids c (elim (peek c id) [ none ↦ result | some (log, _) ↦ put id log result ])

  unfoldable pub logs_by_ids : List ℕ → Cache → HashMap (FragmentLog Date Text)
  logs_by_ids ids c = collect ids c empty_map

  unfoldable pub logs : Cache → List (FragmentLog Date Text)
  logs c = map (λ e. e.1.0) (iter c)

  unfoldable pub pop_all : List ℕ → Cache → Cache
  pop_all [] c = c
  pop_all (id ∷ ids) c = pop_all ids (pop c id)

  unfoldable pub remove_logs_after_date : (Date → ℕ) → Date → Cache → Option Cache
  remove_logs_after_date position target c = do
    ids ← to_remove position target (iter c)
    some (pop_all ids c)
