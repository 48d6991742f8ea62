-- ===== src/Tests/Journal.antt =====
-- The theorems on the logs and on the fragment task, at a cache of three entries.
use jormungandr.Prelude.{
  ℕ, All, count, map, find, is_some, ◌+◌, sum_by, ◌≡◌, ◌≤◌, refl, false, true, none, some, List, [],
  ◌∷◌, ◌⊎◌, inl, inr, arith, length,
}
use jormungandr.Chain.{Fragment, transaction}
use jormungandr.FragmentLog.{
  FragmentLog, FragmentStatus, pending, rejected, in_a_block, rest, network, is_in_a_block,
  is_pending, modify_lem,
}
use jormungandr.FragmentLog
use jormungandr.Lru.{LruCache}
use jormungandr.Logs.{LogEntry, refresh, first_seen}
use jormungandr.Logs
use jormungandr.Logs.Invariant.{IsValid}
use jormungandr.Logs.Pruning.{
  prune, remove_logs_after_date-prune, remove_logs_after_date-peek, refused-modify_stops_pruning,
}
use jormungandr.Logs.Lookup.{logs_by_ids-get}
use jormungandr.Logs.Updates.{IsUpdated, modify_keeps_in_a_block}
use jormungandr.Deque
use jormungandr.Mempool
use jormungandr.Mempool.{get_transaction_expiry_date, is_fragment_valid}
use jormungandr.Mempool.Timeouts
use jormungandr.Mempool.Invariant.{Holds, Entries}
use jormungandr.Summary.{fragment_ids, pool_overflow, FragmentsProcessingSummary}
use jormungandr.Intake.{
  Intake, filter_all, filter_fragment, rejection, date_rejection, propagate, answer,
  insert_and_propagate_all, remove_added_to_block, remove_expired_txs,
}
use jormungandr.Intake.Accounting.{
  insert_and_propagate_all-keeps, insert_and_propagate_all-accounts,
}
use jormungandr.Selection.{finished}
use jormungandr.Intake.Choice.{select, select-keeps}
use jormungandr.Intake.Upkeep.{remove_added_to_block-keeps, remove_expired_txs-keeps}
use jormungandr.Tests.Fixtures.{
  counting_chain, counting_ledger, list_cache, first_tx, second_tx, third_tx, two_entries, two_pool,
  two_pool-Holds,
}

abbrev log_cache : LruCache (LogEntry ℕ ℕ)
log_cache = list_cache (LogEntry ℕ ℕ)

abbrev log_of : ℕ → FragmentStatus ℕ ℕ → FragmentLog ℕ ℕ
log_of id status = record {
  fragment_id = id;
  received_from = rest;
  received_at = 0;
  last_updated_at = 0;
  status = status;
}

abbrev late : LogEntry ℕ ℕ
late = (log_of 6 (in_a_block 8 80), some 8)

abbrev early : LogEntry ℕ ℕ
early = (log_of 5 (in_a_block 4 40), some 4)

abbrev waiting : LogEntry ℕ ℕ
waiting = (log_of 7 pending, none)

-- A pending fragment, one of a block at date 8, and one of a block at date 4.
abbrev three_logs : ℕ × List (ℕ × LogEntry ℕ ℕ)
three_logs = (4, (7, waiting) ∷ (6, late) ∷ (5, early) ∷ [])

abbrev pruned_logs : List (ℕ × LogEntry ℕ ℕ)
pruned_logs = (7, waiting) ∷ (5, early) ∷ []

three_logs-IsValid : IsValid log_cache three_logs
unfolding is_pending
three_logs-IsValid = record {
  distinct = (refl, (refl, (refl, tt)));
  bounded = omega arith;
  entries = (
    record { id = refl; dated = inl refl },
    (record { id = refl; dated = inr refl }, (record { id = refl; dated = inr refl }, tt)),
  );
}

-- The rejection of a fragment that is in a block is refused.
modify_keeps_in_a_block_example : is_in_a_block late.0.status ≡ true
unfolding Logs.modify refresh FragmentLog.modify is_in_a_block
modify_keeps_in_a_block_example =
    modify_keeps_in_a_block log_cache 9 6 (rejected 2) 9 three_logs 6 late late refl in_block
      refused
  where
    in_block : is_in_a_block late.0.status ≡ true
    in_block = refl

    refused : log_cache.peek (Logs.modify log_cache 9 6 (rejected 2) 9 three_logs) 6 ≡ some late
    refused = refl

remove_logs_after_date-peek_example :
    (c : ℕ × List (ℕ × LogEntry ℕ ℕ)) × (Logs.remove_logs_after_date log_cache (λ d. d) 5 three_logs
      ≡ some c)
    × ((k : ℕ)
        → log_cache.peek c k
          ≡ Logs.Pruning.dropped_if
              (Logs.Pruning.is_after (λ d. d) 5)
              (log_cache.peek three_logs k))
unfolding is_pending
remove_logs_after_date-peek_example =
    remove_logs_after_date-peek log_cache (λ d. d) 5 three_logs three_logs-IsValid
      (refl, (inr (inr (omega arith), tt), (inr tt, tt)))

-- The refused rejection of the fragment at date 4 makes the pruning leave the one at date 8.
refused-modify_stops_pruning_example :
    Logs.remove_logs_after_date log_cache
      (λ d. d)
      5
      (Logs.modify log_cache 9 5 (rejected 2) 9 three_logs)
    ≡ some (Logs.modify log_cache 9 5 (rejected 2) 9 three_logs)
unfolding is_in_a_block
refused-modify_stops_pruning_example =
    refused-modify_stops_pruning log_cache (λ d. d) 9 5 (rejected 2) 9 4 5 three_logs early.0 refl
      refl refl (omega arith)

abbrev busy : Intake counting_chain ℕ log_cache
busy = record { logs = three_logs; pool = two_pool; persistent_log = some [] }

abbrev new_batch : List (Fragment (ℕ × ℕ) ℕ)
new_batch = third_tx ∷ transaction (4, 9) ∷ []

abbrev Busy : Type 0
Busy = Intake counting_chain ℕ log_cache

insert_and_propagate_all-keeps_example :
    (s : Busy) × (r : FragmentsProcessingSummary ⊎ Unit {0}) × (l : Entries counting_chain)
    × (insert_and_propagate_all counting_chain ℕ log_cache
          (λ _. true)
          9
          tt
          3
          network
          (third_tx ∷ first_tx ∷ [])
          false
          busy
        ≡ some (s, r))
    × Holds counting_chain s.pool l
    × (length l ≤ s.pool.max_entries)
    × (s.pool.max_entries ≡ 3)
    × IsValid log_cache s.logs
insert_and_propagate_all-keeps_example =
    insert_and_propagate_all-keeps counting_chain ℕ log_cache (λ _. true) 9 tt 3 network
      (third_tx ∷ first_tx ∷ []) false busy two_entries two_pool-Holds (omega arith)
      three_logs-IsValid

remove_added_to_block-keeps_example :
    (s : Busy) × (remove_added_to_block counting_chain ℕ log_cache 9 (2 ∷ []) (in_a_block 9 90) busy
      ≡ some s)
    × Holds counting_chain s.pool ((1, first_tx) ∷ [])
    × IsValid log_cache s.logs
    × All (IsUpdated log_cache (in_a_block 9 90) (s.logs)) (2 ∷ [])
    × (s.persistent_log ≡ some [])
remove_added_to_block-keeps_example =
    remove_added_to_block-keeps counting_chain ℕ log_cache 9 (2 ∷ []) 9 90 busy two_entries
      two_pool-Holds three_logs-IsValid

remove_expired_txs-keeps_example :
    (s : Busy) × (remove_expired_txs counting_chain ℕ log_cache 9 1 6 busy ≡ some s)
    × Holds counting_chain s.pool ((2, second_tx) ∷ [])
    × IsValid log_cache s.logs
    × All (IsUpdated log_cache (rejected 1) (s.logs)) (1 ∷ [])
    × (s.persistent_log ≡ some [])
unfolding get_transaction_expiry_date
remove_expired_txs-keeps_example =
    remove_expired_txs-keeps counting_chain ℕ log_cache 9 1 6 busy two_entries two_pool-Holds
      three_logs-IsValid

abbrev after_batch : Busy
after_batch =
    elim (insert_and_propagate_all counting_chain ℕ log_cache (λ _. true) 9 tt 3 network new_batch
        false busy)
      as (λ _. Busy) [ none ↦ busy | some r ↦ r.0 ]

-- The third fragment is accepted; the one behind it finds the pool full.
abbrev batch_summary : FragmentsProcessingSummary
batch_summary = record {
  accepted = 3 ∷ [];
  rejected = record { id = 4; reason = pool_overflow } ∷ [];
}

insert_and_propagate_all-accounts_example :
    (count 4 (fragment_ids batch_summary) ≡ count 4 (map counting_chain.hash new_batch))
    × (l : Entries counting_chain) × Holds counting_chain (after_batch.pool) l
    × All (λ id. is_some (find id l) ≡ true) (3 ∷ [])
    × (length l ≡ 1 + length two_entries)
unfolding insert_and_propagate_all filter_all filter_fragment rejection date_rejection
    is_fragment_valid get_transaction_expiry_date propagate answer Logs.exists
    Logs.insert_all_pending Logs.insert_pending FragmentLog.new is_pending Mempool.insert_all
    Mempool.insert_from Mempool.insert_one Mempool.len Mempool.timeout_queue_insert Timeouts.insert
    Timeouts.before Timeouts.same Deque.contains Deque.len Deque.push_front Deque.link_prev
insert_and_propagate_all-accounts_example =
    insert_and_propagate_all-accounts counting_chain ℕ log_cache 4 (λ _. true) 9 tt 3 network
      new_batch false busy after_batch two_entries batch_summary two_pool-Holds (omega arith)
      three_logs-IsValid (refl, (refl, tt)) refl

select-keeps_example :
    (s : Busy) × (contents : List (Fragment (ℕ × ℕ) ℕ)) × (ledger : ℕ) × (l : Entries
      counting_chain)
    × (select counting_chain counting_ledger log_cache 3 (λ _. finished) 9 0 busy
        ≡ some (s, contents, ledger))
    × Holds counting_chain s.pool l
    × IsValid log_cache s.logs
    × (sum_by (λ _. 10) contents ≤ 15)
    × (s.persistent_log ≡ some [])
select-keeps_example =
    select-keeps counting_chain counting_ledger log_cache 3 (λ _. finished) 9 0 busy two_entries
      (omega arith) two_pool-Holds three_logs-IsValid

logs_by_ids-get_example : (Logs.logs_by_ids log_cache (1 ∷ 6 ∷ []) three_logs).get 6 ≡ some late.0
logs_by_ids-get_example = logs_by_ids-get log_cache 6 (1 ∷ 6 ∷ []) three_logs
