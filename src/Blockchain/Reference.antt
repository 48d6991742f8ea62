-- ===== src/Blockchain/Reference.antt =====
-- jormungandr/src/blockchain/reference.rs, reference_cache.rs and branch.rs: a `Ref`, the state of the
-- node after one block, and the cache of them. A branch is the `Ref` that it holds, and an `Arc` is
-- what it points to.
use jormungandr.Prelude.{ℕ, Option, none, some, ◌==◌, if◌then◌else◌}
use jormungandr.Outcome.{Outcome, ok, panic}
use jormungandr.Lru.{LruCache}
use jormungandr.Blockchain.Types.{Consensus, LedgerRef, BlockDate}

module _ (c : Consensus) where
  -- The fields of a `Ref` but the last.
  pub record RefState : Type 0 where
    pub ledger : LedgerRef c.Ledger
    pub time_frame : c.TimeFrame
    pub epoch_leadership_schedule : c.Leadership
    pub epoch_rewards_info : Option c.RewardsInfo
    pub header : c.Header

  -- `Ref`: its `previous_epoch_state` is empty, or another `Ref`.
  pub data Ref : Type 0 where
    first : RefState → Ref
    after : RefState → Ref → Ref

module _ {c : Consensus} where
  unfoldable pub ref_state : Ref c → RefState c
  ref_state (first r) = r
  ref_state (after r _) = r

  unfoldable pub last_ref_previous_epoch : Ref c → Option (Ref c)
  last_ref_previous_epoch (first _) = none
  last_ref_previous_epoch (after _ previous) = some previous

  unfoldable pub with_previous : RefState c → Option (Ref c) → Ref c
  with_previous r none = first r
  with_previous r (some previous) = after r previous

  -- `Ref::new`, whose debug assertion compares the two hashes.
  unfoldable pub new_ref : {E : Type 0} → RefState c → Option (Ref c) → Outcome E (Ref c)
  new_ref r previous_epoch_state =
      if r.ledger.id == c.hash r.header then ok (with_previous r previous_epoch_state) else panic

  unfoldable pub ref_hash : Ref c → ℕ
  ref_hash r = (ref_state r).ledger.id

  unfoldable pub ref_header : Ref c → c.Header
  ref_header r = (ref_state r).header

  unfoldable pub ref_parent_hash : Ref c → ℕ
  ref_parent_hash r = c.block_parent_hash (ref_header r)

  unfoldable pub ref_block_date : Ref c → BlockDate
  ref_block_date r = c.block_date (ref_header r)

  unfoldable pub ref_chain_length : Ref c → ℕ
  ref_chain_length r = c.chain_length (ref_header r)

  unfoldable pub ref_ledger : Ref c → c.Ledger
  ref_ledger r = (ref_state r).ledger.state

  unfoldable pub time_frame : Ref c → c.TimeFrame
  time_frame r = (ref_state r).time_frame

  unfoldable pub epoch_leadership_schedule : Ref c → c.Leadership
  epoch_leadership_schedule r = (ref_state r).epoch_leadership_schedule

  unfoldable pub epoch_rewards_info : Ref c → Option c.RewardsInfo
  epoch_rewards_info r = (ref_state r).epoch_rewards_info

  -- `Ref::time`; the slot and its time are the parameter's.
  unfoldable pub ref_time : Ref c → ℕ
  ref_time r = c.slot_time (time_frame r) (epoch_leadership_schedule r) (ref_block_date r)

module _ {c : Consensus} (lru : LruCache (Ref c)) where
  -- `RefCache::insert` and `RefCache::get`.
  unfoldable pub cache_ref : ℕ → Ref c → lru.Cache → lru.Cache
  cache_ref key value cache = lru.put cache key value

  unfoldable pub cached : ℕ → lru.Cache → lru.Cache × Option (Ref c)
  cached key cache = (lru.get_mut cache key (λ r. r), lru.peek cache key)
