-- ===== src/Tests/Pools.antt =====
-- The theorems on the queue, the pool and the selection at the pool of two fragments.
use jormungandr.Prelude.{
  ℕ, ◌+◌, ◌≡◌, ◌≤◌, refl, sym, subst, some, List, [], ◌∷◌, ◌⊎◌, inr, arith, length,
}
use jormungandr.Chain.{Fragment}
use jormungandr.Deque
use jormungandr.Deque.{Deque}
use jormungandr.Deque.Refinement.{Represents, remove-Represents}
use jormungandr.Mempool
use jormungandr.Mempool.{Pool}
use jormungandr.Mempool.Invariant.{Holds}
use jormungandr.Mempool.Removal.{remove_all-Holds, remove_oldest-Holds, return_to_pool-Holds}
use jormungandr.Mempool.Admission.{insert_all-admit, insert_all_within}
use jormungandr.Mempool.Expiry.{remove_expired_txs-unexpired}
use jormungandr.Logs.{LogEntry}
use jormungandr.Selection.{
  Progress, Race, soft_deadline_first, finished, select, try_apply_fragment, soft_deadline_reached,
}
use jormungandr.Selection.Contents.{IsSelection, select-IsSelection}
use jormungandr.Selection.Deadlines.{try_apply_fragment-soft}
use jormungandr.Tests.Fixtures.{
  counting_chain, list_cache, counting_ledger, first_tx, second_tx, third_tx, two_entries,
  two_deque, two_deque-Represents, two_pool, two_pool-Holds,
}

abbrev Message : Type 0
Message = Fragment (ℕ × ℕ) ℕ

remove-Represents_example :
    (d : Deque Message) × (Deque.remove 2 two_deque ≡ some (some second_tx, d))
    × Represents d ((1, first_tx) ∷ [])
remove-Represents_example = remove-Represents two_deque two_entries 2 two_deque-Represents

remove_all-Holds_example :
    (p : Pool counting_chain) × (Mempool.remove_all counting_chain (7 ∷ 2 ∷ []) two_pool ≡ some p)
    × Holds counting_chain p ((1, first_tx) ∷ [])
    × (p.max_entries ≡ 3)
remove_all-Holds_example =
    remove_all-Holds counting_chain (7 ∷ 2 ∷ []) two_pool two_entries two_pool-Holds

remove_oldest-Holds_example :
    (p : Pool counting_chain) × (Mempool.remove_oldest counting_chain two_pool
      ≡ some (some (first_tx, 1), p))
    × Holds counting_chain p ((2, second_tx) ∷ [])
    × (p.max_entries ≡ 3)
remove_oldest-Holds_example = remove_oldest-Holds counting_chain two_pool two_entries two_pool-Holds

return_to_pool-Holds_example :
    (p : Pool counting_chain) × (Mempool.return_to_pool counting_chain ((third_tx, 3) ∷ []) two_pool
      ≡ some p)
    × Holds counting_chain p ((2, second_tx) ∷ (1, first_tx) ∷ (3, third_tx) ∷ [])
    × (p.max_entries ≡ 3)
return_to_pool-Holds_example =
    return_to_pool-Holds counting_chain ((third_tx, 3) ∷ []) two_pool two_entries two_pool-Holds
      (refl, (refl, (refl, tt)))

-- The first fragment is in the pool, the third one takes the last room.
insert_all-admit_example :
    (p : Pool counting_chain) × (Mempool.insert_all counting_chain
        ((first_tx, 1) ∷ (third_tx, 3) ∷ (third_tx, 4) ∷ [])
        two_pool
      ≡ some (p, (third_tx, 3) ∷ [], (third_tx, 4) ∷ []))
    × Holds counting_chain p ((3, third_tx) ∷ two_entries)
    × (p.max_entries ≡ 3)
insert_all-admit_example =
    insert_all-admit counting_chain ((first_tx, 1) ∷ (third_tx, 3) ∷ (third_tx, 4) ∷ []) two_pool
      two_entries two_pool-Holds (omega arith)

insert_all_within_example :
    (p : Pool counting_chain) × (taken left : List (Message × ℕ)) × (Mempool.insert_all
        counting_chain
        ((third_tx, 3) ∷ (third_tx, 4) ∷ [])
        two_pool
      ≡ some (p, taken, left))
    × (Mempool.len counting_chain p ≡ length taken + Mempool.len counting_chain two_pool)
    × (Mempool.len counting_chain p ≤ p.max_entries)
    × ((left ≡ []) ⊎ (Mempool.len counting_chain p ≡ p.max_entries))
insert_all_within_example =
    insert_all_within counting_chain ((third_tx, 3) ∷ (third_tx, 4) ∷ []) two_pool two_entries
      two_pool-Holds (omega arith)

-- At date 6 the first fragment has expired.
remove_expired_txs-unexpired_example :
    (p : Pool counting_chain) × (ids : List ℕ) × (Mempool.remove_expired_txs counting_chain 6
        two_pool
      ≡ some (p, ids))
    × Holds counting_chain p ((2, second_tx) ∷ [])
    × (p.max_entries ≡ 3)
unfolding Mempool.get_transaction_expiry_date
remove_expired_txs-unexpired_example =
    remove_expired_txs-unexpired counting_chain 6 two_pool two_entries two_pool-Holds

abbrev no_logs : ℕ × List (ℕ × LogEntry ℕ ℕ)
no_logs = (4, [])

select-IsSelection_example :
    (s : Progress counting_chain counting_ledger (list_cache (LogEntry ℕ ℕ))) × (select
        counting_chain counting_ledger
        (list_cache (LogEntry ℕ ℕ))
        3
        (λ _. finished)
        0
        0
        no_logs
        two_pool
      ≡ some s)
    × IsSelection counting_chain counting_ledger (list_cache (LogEntry ℕ ℕ)) two_entries 0 s
select-IsSelection_example =
    select-IsSelection counting_chain counting_ledger (list_cache (LogEntry ℕ ℕ)) 3 (λ _. finished)
      0 0 no_logs two_pool two_entries (omega arith) two_pool-Holds

abbrev IsFinished : Race → Type 0
IsFinished finished = Unit
IsFinished _ = ⊥

try_apply_fragment-soft_example :
    try_apply_fragment counting_chain counting_ledger soft_deadline_first first_tx 0 15
    ≡ inr soft_deadline_reached
try_apply_fragment-soft_example =
    try_apply_fragment-soft counting_chain counting_ledger soft_deadline_first first_tx 0 15
      (λ e. subst IsFinished (sym e) tt) (omega arith) (omega arith) (omega arith) (omega arith)
