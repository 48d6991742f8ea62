-- ===== src/Blockchain/Apply.antt =====
-- jormungandr/src/blockchain/chain.rs: the check of a header against its epoch's leadership, and the
-- application of its block to the ledger, the storage and the cache. The dump of the rewards into a
-- directory is a parameter: whether it fails.
pub mod Coherence
pub mod Extension
use jormungandr.Prelude.{
  ℕ, Bool, true, false, Option, none, some, ltb, ◌==◌, ◌⊎◌, inl, inr, if◌then◌else◌,
}
use jormungandr.Outcome.{
  Outcome, ok, err, panic, ◌>>=◌, ◌>>◌, return, throw, crash, lifted, reads, mapped,
}
use jormungandr.Lru.{LruCache}
use jormungandr.Blockchain.Types.{Consensus, Block, BlockStore}
use jormungandr.Blockchain.Storage.{StorageError, block_already_present}
use jormungandr.Blockchain.Storage
use jormungandr.Blockchain.Reference.{
  Ref, ref_hash, ref_ledger, ref_block_date, time_frame, epoch_leadership_schedule,
  epoch_rewards_info, last_ref_previous_epoch,
}
use jormungandr.Blockchain.Chain.{
  Error, Blockchain, B, storage_error, cannot_apply_block, block_header_verification_failed,
  new_leadership_schedule_failed, create_and_store_reference,
}

module _ (c : Consensus) where
  pub record EpochLeadership : Type 0 where
    pub state : c.Ledger
    pub leadership : c.Leadership
    pub rewards_info : Option c.RewardsInfo
    pub time_frame : c.TimeFrame
    pub previous_state : Option (Ref c)

  pub record PostCheckedHeader : Type 0 where
    pub header : c.Header
    pub epoch_leadership_schedule : c.Leadership
    pub parent_ledger_state : c.Ledger
    pub time_frame : c.TimeFrame
    pub previous_epoch_state : Option (Ref c)
    pub epoch_rewards_info : Option c.RewardsInfo

  pub record LeadershipBlock : Type 0 where
    pub block : Block c
    pub new_ledger : c.Ledger
    pub leadership : EpochLeadership

  pub data AppliedBlock : Type 0 where
    new existing : Ref c → AppliedBlock

pub data CheckHeaderProof : Type 0 where
  skip_from_storage enabled : CheckHeaderProof

module _ (c : Consensus) where
  unfoldable pub check_proof :
      CheckHeaderProof → c.Leadership → c.Header → Outcome (Error c) (Unit {0})
  check_proof skip_from_storage leadership header = ok tt
  check_proof enabled leadership header = elim (c.verify leadership header) [
    | some error ↦ err (block_header_verification_failed (new_leadership_schedule_failed error))
    | none ↦ ok tt
  ]

module _ {c : Consensus} where
  unfoldable pub cached_ref : AppliedBlock c → Ref c
  cached_ref (new r) = r
  cached_ref (existing r) = r

  unfoldable pub applied_new_ref : AppliedBlock c → Option (Ref c)
  applied_new_ref (new r) = some r
  applied_new_ref (existing _) = none

  -- The rewards at the start of an epoch. An error of the ledger or of the dump is a panic.
  unfoldable pub transition :
      {E : Type 0} → ℕ → Ref c → Bool → c.Ledger → Outcome E (c.Ledger × Option c.RewardsInfo)
  transition epoch parent rewards_report_all ledger =
      elim (c.stake_distribution (epoch_leadership_schedule parent)) [
        | none ↦ ok (ledger, epoch_rewards_info parent)
        | some distribution ↦ elim (c.distribute_rewards ledger distribution rewards_report_all) [
          | inr _ ↦ panic
          | inl (ledger', rewards_info) ↦
              if c.reward_dump_fails epoch (ref_hash parent) rewards_info
              then panic
              else ok (ledger', some rewards_info)
        ]
      ]

  -- The ledger from which the leadership of an epoch is drawn.
  unfoldable pub epoch_state : Ref c → c.Ledger → c.Ledger
  epoch_state parent transition_state =
      if c.is_genesis_praos transition_state
      then elim (last_ref_previous_epoch parent) [
        | none ↦ ref_ledger parent
        | some r ↦ ref_ledger r
      ]
      else transition_state

  unfoldable pub new_epoch_leadership_from :
      {E : Type 0} → ℕ → Ref c → Bool → Outcome E (EpochLeadership c)
  new_epoch_leadership_from epoch parent rewards_report_all =
      if ltb (ref_block_date parent).epoch epoch
      then elim (c.apply_protocol_changes (ref_ledger parent)) [
        | none ↦ panic
        | some ledger ↦
            mapped
              (λ (transition_state, rewards_info). record {
                state = transition_state;
                leadership = c.new_leadership epoch (epoch_state parent transition_state);
                rewards_info = rewards_info;
                time_frame = time_frame parent;
                previous_state = some parent;
              })
              (λ e. e) (transition epoch parent rewards_report_all ledger)
      ]
      else ok (record {
        state = ref_ledger parent;
        leadership = epoch_leadership_schedule parent;
        rewards_info = epoch_rewards_info parent;
        time_frame = time_frame parent;
        previous_state = last_ref_previous_epoch parent;
      })

  unfoldable pub with_leadership : c.Header → EpochLeadership c → PostCheckedHeader c
  with_leadership header leadership = record {
    header = header;
    epoch_leadership_schedule = leadership.leadership;
    parent_ledger_state = leadership.state;
    time_frame = leadership.time_frame;
    previous_epoch_state = leadership.previous_state;
    epoch_rewards_info = leadership.rewards_info;
  }

  -- The debug assertion is that the block is the header's.
  unfoldable pub dry_run : PostCheckedHeader c → Block c → Outcome (Error c) c.Ledger
  dry_run post_checked_header block =
      if c.hash block.header == c.hash post_checked_header.header
      then elim (c.apply_block post_checked_header.parent_ledger_state block.contents
          post_checked_header.header) [
            | inl ledger ↦ ok ledger
            | inr error ↦ err (cannot_apply_block error)
          ]
      else panic

  -- Whether the rewards of a block can be distributed.
  unfoldable pub check_rewards :
      PostCheckedHeader c → c.Ledger → Bool → Outcome (Error c) (Unit {0})
  check_rewards post_checked_header ledger rewards_report_all =
      elim (c.stake_distribution post_checked_header.epoch_leadership_schedule) [
        | none ↦ ok tt
        | some distribution ↦ elim (c.distribute_rewards ledger distribution rewards_report_all) [
          | inl _ ↦ ok tt
          | inr error ↦ err (cannot_apply_block error)
        ]
      ]

module _ {c : Consensus} {bs : BlockStore c.Raw} {lru : LruCache (Ref c)} where
  unfoldable pub post_check_header :
      c.Header → Ref c → CheckHeaderProof → B c bs lru (PostCheckedHeader c)
  post_check_header header parent check_header_proof = do
    rewards_report_all ← reads (λ s. s.rewards_report_all)
    leadership ←
        lifted (new_epoch_leadership_from (c.block_date header).epoch parent rewards_report_all)
    lifted (check_proof c check_header_proof leadership.leadership header)
    return (with_leadership header leadership)

  unfoldable pub apply_block_dry_run : PostCheckedHeader c → Block c → B c bs lru c.Ledger
  apply_block_dry_run post_checked_header block = lifted (dry_run post_checked_header block)

  unfoldable pub apply_block_check_rewards : PostCheckedHeader c → c.Ledger → B c bs lru (Unit {0})
  apply_block_check_rewards post_checked_header ledger = do
    rewards_report_all ← reads (λ s. s.rewards_report_all)
    lifted (check_rewards post_checked_header ledger rewards_report_all)

  unfoldable pub apply_block_finalize : PostCheckedHeader c → c.Ledger → B c bs lru (Ref c)
  apply_block_finalize h new_ledger =
      create_and_store_reference (c.hash h.header) h.header new_ledger h.time_frame
        h.epoch_leadership_schedule h.epoch_rewards_info h.previous_epoch_state

  -- The outcome of the write, kept for the answer; the state goes on from it.
  unfoldable pub write_block : Block c → B c bs lru (Outcome StorageError (Unit {0}))
  write_block block s =
      let (storage, res) = Storage.put_block c bs block s.storage in
      (record s { storage = storage }, ok res)

  unfoldable pub finalize_written :
      PostCheckedHeader c → c.Ledger → Outcome StorageError (Unit {0}) → B c bs lru (AppliedBlock c)
  finalize_written h new_ledger (ok _) = do
    block_ref ← apply_block_finalize h new_ledger
    return (new block_ref)
  finalize_written h new_ledger (err block_already_present) = do
    block_ref ← apply_block_finalize h new_ledger
    return (existing block_ref)
  finalize_written h new_ledger (err e) = throw (storage_error e)
  finalize_written h new_ledger panic = crash

  unfoldable pub store_and_apply_block_finalize :
      PostCheckedHeader c → Block c → c.Ledger → B c bs lru (AppliedBlock c)
  store_and_apply_block_finalize h block new_ledger = do
    res ← write_block block
    finalize_written h new_ledger res

  unfoldable pub apply_and_store_block : PostCheckedHeader c → Block c → B c bs lru (AppliedBlock c)
  apply_and_store_block h block = do
    new_ledger ← apply_block_dry_run h block
    apply_block_check_rewards h new_ledger
    store_and_apply_block_finalize h block new_ledger

  unfoldable pub apply_and_store_leadership_block : LeadershipBlock c → B c bs lru (AppliedBlock c)
  apply_and_store_leadership_block l = do
    let h = with_leadership l.block.header l.leadership
    apply_block_check_rewards h l.new_ledger
    store_and_apply_block_finalize h l.block l.new_ledger
