-- ===== src/Blockchain/Types.antt =====
-- What jormungandr/src/blockchain takes from chain-impl-mockchain, chain-time and chain-storage, as
-- parameters: headers and blocks, the ledger and the leadership, and the block store. A hash is the
-- number that its bytes spell; instants and durations count nanoseconds. A chain length is a number
-- without a bound: `next_length` is the checked increment of a u32, which would panic at 2 ^ 32 - 1.
use Prim.Native.String.{String}
use jormungandr.Prelude.{
  ℕ, suc, ◌≡◌, Bool, Option, some, List, ◌⊎◌, inl, ltb, leb, ◌==◌, if◌then◌else◌,
}

-- `BlockDate`, ordered by epoch and then by slot.
pub record BlockDate : Type 0 where
  pub epoch : ℕ
  pub slot_id : ℕ

unfoldable pub date_le : BlockDate → BlockDate → Bool
date_le a b = if a.epoch == b.epoch then leb a.slot_id b.slot_id else ltb a.epoch b.epoch

-- What a `multiverse::Ref` gives: the id that it was inserted at, and the ledger.
pub record LedgerRef (Ledger : Type 0) : Type 0 where
  pub id : ℕ
  pub state : Ledger

-- `none` of `apply_protocol_changes` is the error that its caller unwraps.
pub record Consensus : Type 1 where
  pub Header : Type 0
  pub Contents : Type 0
  pub Ledger : Type 0
  pub Leadership : Type 0
  pub Distribution : Type 0
  pub RewardsInfo : Type 0
  pub TimeFrame : Type 0
  pub LedgerError : Type 0
  pub LeadershipError : Type 0
  pub Block0Error : Type 0
  pub Multiverse : Type 0
  pub Raw : Type 0
  pub hash : Header → ℕ
  pub block_parent_hash : Header → ℕ
  pub block_date : Header → BlockDate
  pub chain_length : Header → ℕ
  pub next_length : ℕ → ℕ
  pub next_length_suc : (n : ℕ) → next_length n ≡ suc n
  pub apply_block : Ledger → Contents → Header → Ledger ⊎ LedgerError
  pub distribute_rewards : Ledger → Distribution → Bool → (Ledger × RewardsInfo) ⊎ LedgerError
  pub apply_protocol_changes : Ledger → Option Ledger
  pub is_genesis_praos : Ledger → Bool
  pub epoch_stability_depth : Ledger → ℕ
  pub block0_initial_hash : Ledger → ℕ
  pub new_ledger : ℕ → Contents → Ledger ⊎ LedgerError
  pub new_leadership : ℕ → Ledger → Leadership
  pub verify : Leadership → Header → Option LeadershipError
  pub stake_distribution : Leadership → Option Distribution
  pub block0_time_frame : Contents → TimeFrame ⊎ Block0Error
  pub slot_time : TimeFrame → Leadership → BlockDate → ℕ
  pub fragment_ids : Contents → List ℕ
  pub new_multiverse : Multiverse
  pub insert : ℕ → ℕ → Ledger → Multiverse → Multiverse × LedgerRef Ledger
  pub insert_id : (n h : ℕ) (l : Ledger) (m : Multiverse) → (insert n h l m).1.id ≡ h
  pub insert_state : (n h : ℕ) (l : Ledger) (m : Multiverse) → (insert n h l m).1.state ≡ l
  pub reward_dump_fails : ℕ → ℕ → RewardsInfo → Bool
  pub gc : ℕ → Multiverse → Multiverse
  pub serialize : Header → Contents → Raw
  pub deserialize : Raw → Option (Header × Contents)

module _ (c : Consensus) where
  -- `Block`.
  pub record Block : Type 0 where
    pub header : c.Header
    pub contents : c.Contents

-- `chain_storage::Error`, by the cases that the code tells apart.
pub data BackendError : Type 0 where
  block_not_found block_already_present missing_parent : BackendError
  other_backend_error : ℕ → BackendError

-- `chain_storage::BlockInfo`.
pub record BlockInfo : Type 0 where
  pub id : ℕ
  pub parent_id : ℕ
  pub chain_length : ℕ

-- `chain_storage::BlockStore`.
pub record BlockStore (Raw : Type 0) : Type 1 where
  pub Store : Type 0
  pub get_tag : String → Store → Option ℕ ⊎ BackendError
  pub put_tag : String → ℕ → Store → Store ⊎ BackendError
  pub get_block : ℕ → Store → Raw ⊎ BackendError
  pub block_exists : ℕ → Store → Bool ⊎ BackendError
  pub get_tips_ids : Store → List ℕ ⊎ BackendError
  pub get_blocks_by_chain_length : ℕ → Store → List Raw ⊎ BackendError
  pub put_block : Raw → BlockInfo → Store → Store ⊎ BackendError
  pub is_ancestor : ℕ → ℕ → Store → Option ℕ ⊎ BackendError
  pub iter : ℕ → ℕ → Store → List (Raw ⊎ BackendError) ⊎ BackendError
  pub find_lowest_common_ancestor : ℕ → ℕ → Store → Option BlockInfo ⊎ BackendError
  pub get_block_info : ℕ → Store → BlockInfo ⊎ BackendError
  pub get_nth_ancestor : ℕ → ℕ → Store → BlockInfo ⊎ BackendError
  pub prune_branch : ℕ → Store → Store ⊎ BackendError
  pub flush_to_permanent_store : ℕ → ℕ → Store → Store ⊎ BackendError
  pub get_tag-put_tag :
      (tag : String) (id : ℕ) (s s' : Store)
      → put_tag tag id s ≡ inl s'
      → get_tag tag s' ≡ inl (some id)
