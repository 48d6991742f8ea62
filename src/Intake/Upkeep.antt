-- ===== src/Intake/Upkeep.antt =====
-- What a block, a branch switch and a new date do to the pool and to the logs together.
use jormungandr.Prelude.{ℕ, ◌≡◌, refl, some, List, All, map}
use jormungandr.Chain.{Chain}
use jormungandr.FragmentLog.{rejected, in_a_block}
use jormungandr.Lru.{LruCache}
use jormungandr.Logs.{LogEntry}
use jormungandr.Logs
use jormungandr.Logs.Invariant.{IsValid, modify_all-IsValid}
use jormungandr.Logs.Pruning.{prune, remove_logs_after_date-prune}
use jormungandr.Mempool.Invariant.{Holds, Entries}
use jormungandr.Mempool.Removal.{remove_all-Holds, without_ids}
use jormungandr.Mempool.Expiry.{unexpired, remove_expired_txs-ids}
use jormungandr.Mempool.Expired.{expired, expired-All}
use jormungandr.Mempool.Timeouts
use jormungandr.Logs.Updates.{IsUpdated, modify_all-IsUpdated}
use jormungandr.Intake.{
  Intake, remove_added_to_block, prune_after_ledger_branch, remove_expired_txs,
}

module _ (chain : Chain) (Text : Type 0) (lru : LruCache (LogEntry chain.Date Text)) where
  open chain use {Date, position}

  -- When a block comes, exactly its fragments leave the pool, the others keep their order, and the
  -- logs stay well formed. The log of each of its fragments, unless it was evicted, says that it is in
  -- that block. Nothing panics.
  pub remove_added_to_block-keeps :
      (now : ℕ) (ids : List ℕ) (date : Date) (block : ℕ) (s : Intake chain Text lru)
      (l : Entries chain)
      → Holds chain s.pool l
      → IsValid lru s.logs
      → (s' : Intake chain Text lru) × (remove_added_to_block chain Text lru now ids
            (in_a_block date block)
            s
          ≡ some s')
        × Holds chain s'.pool (without_ids chain ids l)
        × IsValid lru s'.logs
        × All (IsUpdated lru (in_a_block date block) s'.logs) ids
        × (s'.persistent_log ≡ s.persistent_log)
  unfolding remove_added_to_block
  remove_added_to_block-keeps now ids date block s l h v =
      let (p, e, h', _) = remove_all-Holds chain ids s.pool l h in
      let logs = Logs.modify_all lru now ids (in_a_block date block) date s.logs in
      (
        record s { pool = p; logs = logs },
        rw e,
        h',
        modify_all-IsValid lru now ids (in_a_block date block) date s.logs v,
        modify_all-IsUpdated lru now (in_a_block date block) date ids s.logs,
        refl,
      )

  -- A branch switch leaves the pool alone; of the logs it leaves what the pruning leaves, in order.
  pub prune_after_ledger_branch-keeps :
      (date : Date) (s : Intake chain Text lru)
      → IsValid lru s.logs
      → (s' : Intake chain Text lru) × (prune_after_ledger_branch chain Text lru date s ≡ some s')
        × (s'.pool ≡ s.pool)
        × IsValid lru s'.logs
        × (lru.iter s'.logs ≡ prune position date (lru.iter s.logs))
  unfolding prune_after_ledger_branch
  prune_after_ledger_branch-keeps date s v =
      let (c, e, v', i) = remove_logs_after_date-prune lru position date s.logs v in
      (record s { logs = c }, rw e, refl, v', i)

  -- At a new date exactly the expired fragments leave the pool, and the logs stay well formed. The log
  -- of each expired fragment, unless it was evicted, says that it is rejected for the reason given, or
  -- that it is in a block. Nothing panics.
  pub remove_expired_txs-keeps :
      (now : ℕ) (reason : Text) (date : Date) (s : Intake chain Text lru) (l : Entries chain)
      → Holds chain s.pool l
      → IsValid lru s.logs
      → (s' : Intake chain Text lru) × (remove_expired_txs chain Text lru now reason date s
          ≡ some s')
        × Holds chain s'.pool (unexpired chain date l)
        × IsValid lru s'.logs
        × All (IsUpdated lru (rejected reason) s'.logs) (expired chain date l)
        × (s'.persistent_log ≡ s.persistent_log)
  unfolding remove_expired_txs
  remove_expired_txs-keeps now reason date s l h v =
      let (p, e, h', _) = remove_expired_txs-ids chain date s.pool l h in
      let ids = map (λ item. item.id) (Timeouts.take_expired position date s.pool.timeout_queue) in
      let logs = Logs.modify_all lru now ids (rejected reason) date s.logs in
      (
        record s { pool = p; logs = logs },
        rw e,
        h',
        modify_all-IsValid lru now ids (rejected reason) date s.logs v,
        expired-All chain date (IsUpdated lru (rejected reason) logs) s.pool l h
            (modify_all-IsUpdated lru now (rejected reason) date ids s.logs),
        refl,
      )
