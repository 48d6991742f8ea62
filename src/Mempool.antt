-- ===== src/Mempool.antt =====
-- The module `internal` of jormungandr/src/fragment/pool.rs: the fragments that wait for a block, in
-- an `IndexedDeqeue` with the newest in front, beside the queue of their expiry dates and the sum of
-- their sizes. `none` is a panic; a subtraction below 0 is one, as in a build with overflow checks.
pub mod Timeouts
pub mod Invariant
pub mod Admission
pub mod Removal
pub mod Expiry
pub mod Expired
use jormungandr.Prelude.{
  ℕ, zero, suc, ◌+◌, ◌-◌, Bool, true, false, Option, none, some, ◌>>=◌, List, [], ◌∷◌, map, leb,
  ltb, if◌then◌else◌,
}
use jormungandr.Chain.{
  Chain, Fragment, initial, old_utxo_declaration, evm, transaction, stake_delegation,
  owner_stake_delegation, pool_registration, pool_retirement, pool_update, update_proposal,
  update_vote, vote_plan, vote_cast, vote_tally, mint_token, evm_mapping,
}
use jormungandr.Deque
use jormungandr.Deque.{Deque}
use Timeouts.{TimeoutQueueItem}
use Timeouts

-- `a - b` with an overflow check.
abbrev pub checked_sub : ℕ → ℕ → Option ℕ
checked_sub a b = if leb b a then some (a - b) else none

module _ (chain : Chain) where
  open chain use {Tx, Raw, Date, position, valid_until, serialized_size, verify_possibly_balanced}

  unfoldable pub get_transaction_expiry_date : Fragment Tx Raw → Option Date
  get_transaction_expiry_date (initial _) = none
  get_transaction_expiry_date (old_utxo_declaration _) = none
  get_transaction_expiry_date (evm _) = none
  get_transaction_expiry_date (transaction tx) = some (valid_until tx)
  get_transaction_expiry_date (owner_stake_delegation tx) = some (valid_until tx)
  get_transaction_expiry_date (stake_delegation tx) = some (valid_until tx)
  get_transaction_expiry_date (pool_registration tx) = some (valid_until tx)
  get_transaction_expiry_date (pool_retirement tx) = some (valid_until tx)
  get_transaction_expiry_date (pool_update tx) = some (valid_until tx)
  get_transaction_expiry_date (update_proposal tx) = some (valid_until tx)
  get_transaction_expiry_date (update_vote tx) = some (valid_until tx)
  get_transaction_expiry_date (vote_plan tx) = some (valid_until tx)
  get_transaction_expiry_date (vote_cast tx) = some (valid_until tx)
  get_transaction_expiry_date (vote_tally tx) = some (valid_until tx)
  get_transaction_expiry_date (mint_token tx) = some (valid_until tx)
  get_transaction_expiry_date (evm_mapping tx) = some (valid_until tx)

  unfoldable pub is_fragment_valid : Fragment Tx Raw → Bool
  is_fragment_valid (initial _) = false
  is_fragment_valid (old_utxo_declaration _) = false
  is_fragment_valid (transaction tx) = verify_possibly_balanced tx
  is_fragment_valid (stake_delegation tx) = verify_possibly_balanced tx
  is_fragment_valid (owner_stake_delegation tx) = verify_possibly_balanced tx
  is_fragment_valid (pool_registration tx) = verify_possibly_balanced tx
  is_fragment_valid (pool_retirement tx) = verify_possibly_balanced tx
  is_fragment_valid (pool_update tx) = verify_possibly_balanced tx
  is_fragment_valid (update_proposal tx) = verify_possibly_balanced tx
  is_fragment_valid (update_vote tx) = verify_possibly_balanced tx
  is_fragment_valid (vote_plan tx) = verify_possibly_balanced tx
  is_fragment_valid (vote_cast tx) = verify_possibly_balanced tx
  is_fragment_valid (vote_tally tx) = verify_possibly_balanced tx
  is_fragment_valid (mint_token tx) = verify_possibly_balanced tx
  is_fragment_valid (evm _) = true
  is_fragment_valid (evm_mapping tx) = verify_possibly_balanced tx

  pub record Pool : Type 0 where
    pub entries : Deque (Fragment Tx Raw)
    pub timeout_queue : List (TimeoutQueueItem Date)
    pub max_entries : ℕ
    pub total_size_bytes : ℕ

  unfoldable pub new : ℕ → Pool
  new max_entries = record {
    entries = Deque.new;
    timeout_queue = [];
    max_entries = max_entries;
    total_size_bytes = 0;
  }

  unfoldable pub timeout_queue_insert :
      Fragment Tx Raw → ℕ → List (TimeoutQueueItem Date) → List (TimeoutQueueItem Date)
  timeout_queue_insert fragment id q = elim (get_transaction_expiry_date fragment) [
    | none ↦ q
    | some date ↦ Timeouts.insert position (record { valid_until = date; id = id }) q
  ]

  unfoldable pub timeout_queue_remove :
      Fragment Tx Raw → ℕ → List (TimeoutQueueItem Date) → List (TimeoutQueueItem Date)
  timeout_queue_remove fragment id q = elim (get_transaction_expiry_date fragment) [
    | none ↦ q
    | some date ↦ Timeouts.remove position (record { valid_until = date; id = id }) q
  ]

  -- What the closure of `insert_all` does with a fragment that the pool does not hold.
  unfoldable pub insert_one : Fragment Tx Raw → ℕ → Pool → Option Pool
  insert_one fragment id p = do
    entries ← Deque.push_front id fragment p.entries
    some (record p {
      entries = entries;
      timeout_queue = timeout_queue_insert fragment id p.timeout_queue;
      total_size_bytes = p.total_size_bytes + serialized_size fragment;
    })

  -- The lazy chain `filter(..).take(n).collect()`: the pool, what was inserted, and what of the
  -- input was not read, which the caller goes on with.
  unfoldable pub insert_from :
      ℕ
      → List (Fragment Tx Raw × ℕ)
      → Pool
      → Option (Pool × List (Fragment Tx Raw × ℕ) × List (Fragment Tx Raw × ℕ))
  insert_from zero fragments p = some (p, [], fragments)
  insert_from (suc n) [] p = some (p, [], [])
  insert_from (suc n) ((fragment, id) ∷ fragments) p = elim (Deque.contains id p.entries) [
    | true ↦ insert_from (suc n) fragments p
    | false ↦ do
      p' ← insert_one fragment id p
      (p'', inserted, rest) ← insert_from n fragments p'
      some (p'', (fragment, id) ∷ inserted, rest)
  ]

  unfoldable pub insert_all :
      List (Fragment Tx Raw × ℕ)
      → Pool
      → Option (Pool × List (Fragment Tx Raw × ℕ) × List (Fragment Tx Raw × ℕ))
  insert_all fragments p = do
    max_fragments ← checked_sub p.max_entries (Deque.len p.entries)
    insert_from max_fragments fragments p

  -- One round of the loop of `remove_all`.
  unfoldable pub remove_one : ℕ → Pool → Option Pool
  remove_one id p = do
    (removed, entries) ← Deque.remove id p.entries
    elim removed [
      | none ↦ some (record p { entries = entries })
      | some fragment ↦ do
        size ← checked_sub p.total_size_bytes (serialized_size fragment)
        some (record p {
          entries = entries;
          timeout_queue = timeout_queue_remove fragment id p.timeout_queue;
          total_size_bytes = size;
        })
    ]

  unfoldable pub remove_all : List ℕ → Pool → Option Pool
  remove_all [] p = some p
  remove_all (id ∷ ids) p = do p' ← remove_one id p; remove_all ids p'

  unfoldable pub remove_oldest : Pool → Option (Option (Fragment Tx Raw × ℕ) × Pool)
  remove_oldest p = do
    (popped, entries) ← Deque.pop_back p.entries
    elim popped [
      | none ↦ some (none, record p { entries = entries })
      | some (id, fragment) ↦ do
        size ← checked_sub p.total_size_bytes (serialized_size fragment)
        some (
          some (fragment, id),
          record p {
            entries = entries;
            timeout_queue = timeout_queue_remove fragment id p.timeout_queue;
            total_size_bytes = size;
          },
        )
    ]

  unfoldable pub return_to_pool : List (Fragment Tx Raw × ℕ) → Pool → Option Pool
  return_to_pool [] p = some p
  return_to_pool ((fragment, id) ∷ fragments) p = do
    entries ← Deque.push_back id fragment p.entries
    return_to_pool fragments (record p {
      entries = entries;
      timeout_queue = timeout_queue_insert fragment id p.timeout_queue;
      total_size_bytes = p.total_size_bytes + serialized_size fragment;
    })

  -- One round of the loop of `remove_expired_txs`.
  unfoldable pub expire_one : TimeoutQueueItem Date → Pool → Option Pool
  expire_one item p = do
    (removed, entries) ← Deque.remove item.id p.entries
    size ← elim removed [
      | none ↦ some p.total_size_bytes
      | some fragment ↦ checked_sub p.total_size_bytes (serialized_size fragment)
    ]
    some (record p {
      entries = entries;
      timeout_queue = Timeouts.remove position item p.timeout_queue;
      total_size_bytes = size;
    })

  unfoldable pub expire_all : List (TimeoutQueueItem Date) → Pool → Option Pool
  expire_all [] p = some p
  expire_all (item ∷ items) p = do p' ← expire_one item p; expire_all items p'

  unfoldable pub remove_expired_txs : Date → Pool → Option (Pool × List ℕ)
  remove_expired_txs block_date p = do
    let to_remove = Timeouts.take_expired position block_date p.timeout_queue
    p' ← expire_all to_remove p
    some (p', map (λ item. item.id) to_remove)

  unfoldable pub len : Pool → ℕ
  len p = Deque.len p.entries
