-- ===== src/Blockchain/Startup.antt =====
-- jormungandr/src/blockchain/chain.rs: the blockchain at the start of the node, from block 0 alone or
-- from the storage with its reporter, a block of the bootstrap, the branches, and the collection of old states.
pub mod Coherence
pub mod Branches
use jormungandr.Prelude.{
  ℕ, suc, ltb, ◌==◌, ◌%◌, Bool, true, false, Option, none, some, List, [], ◌∷◌, ◌⊎◌, inl, inr,
  if◌then◌else◌,
}
use jormungandr.Outcome.{Outcome, ok, err, panic, ◌>>=◌, ◌>>◌, return, throw, crash, lifted, of_sum}
use jormungandr.Lru.{LruCache}
use jormungandr.Blockchain.Types.{Consensus, Block, BackendError, BlockStore}
use jormungandr.Blockchain.Storage
use jormungandr.Blockchain.Reference.{Ref, ref_hash, ref_ledger}
use jormungandr.Blockchain.Chain.{
  Error, Blockchain, B, PreCheckedHeader, header_with_cache, already_present, storage_error,
  block0_error, block0_initial_ledger_error, block0_already_in_storage,
  block0_not_already_in_storage, missing_parent_block, no_tag, intercom_error, main_branch_tag,
  stored, stored_as, create_and_store_reference, get_ref, pre_check_header,
}
use jormungandr.Blockchain.Chain
use jormungandr.Blockchain.Apply.{
  CheckHeaderProof, skip_from_storage, cached_ref, post_check_header, apply_and_store_block,
}

-- After so many blocks the reporter logs how long they took.
abbrev pub process_logging_distance : ℕ
process_logging_distance = 2500

-- What the reporter keeps that it acts on, and how often it has read the clock; what it only logs,
-- the bytes and the last block, is left out.
pub record StreamReporter : Type 0 where
  pub last_reported : ℕ
  pub block_received : ℕ
  pub readings : ℕ

-- `StreamReporter::new`; the clock gives one time for each reading.
unfoldable pub new_reporter : (ℕ → ℕ) → StreamReporter
new_reporter clock = record { last_reported = clock 0; block_received = 0; readings = 1 }

-- `append_block` with the report of `load_from_storage`, which is a panic when the clock has gone back
-- behind the last report.
unfoldable pub append_block : {E : Type 0} → (ℕ → ℕ) → StreamReporter → Outcome E StreamReporter
append_block clock reporter =
    let received = suc reporter.block_received in
    if received % process_logging_distance == 0
    then (if ltb (clock reporter.readings) reporter.last_reported
        then panic
        else ok (record {
          last_reported = clock (suc reporter.readings);
          block_received = received;
          readings = suc (suc reporter.readings);
        }))
    else ok (record reporter { block_received = received })

module _ {c : Consensus} {bs : BlockStore c.Raw} {lru : LruCache (Ref c)} where
  unfoldable pub apply_block0 : Block c → B c bs lru (Ref c)
  apply_block0 block0 = do
    time_frame ← lifted (of_sum block0_error (c.block0_time_frame block0.contents))
    ledger ←
        lifted
          (of_sum block0_initial_ledger_error (c.new_ledger (c.hash block0.header) block0.contents))
    create_and_store_reference (c.hash block0.header) block0.header ledger time_frame
        (c.new_leadership (c.block_date block0.header).epoch ledger) none none

  -- `load_from_block0` once block 0 is known not to be there.
  unfoldable pub install_block0 : Block c → B c bs lru (Ref c)
  install_block0 block0 = do
    block0_branch ← apply_block0 block0
    stored (Storage.put_block c bs block0)
    stored (Storage.put_tag c bs (main_branch_tag c) (c.hash block0.header))
    return block0_branch

  unfoldable pub load_from_block0 : Block c → B c bs lru (Ref c)
  load_from_block0 block0 = do
    already_exist ← stored (Storage.block_exists c bs (c.hash block0.header))
    if already_exist then throw block0_already_in_storage else install_block0 block0

  -- What follows the first check of a block of the bootstrap.
  unfoldable pub apply_pre_checked :
      Block c → CheckHeaderProof → PreCheckedHeader c → B c bs lru (Ref c)
  apply_pre_checked block check_header (header_with_cache header parent_ref) = do
    post_checked ← post_check_header header parent_ref check_header
    applied ← apply_and_store_block post_checked block
    return (cached_ref applied)
  apply_pre_checked block check_header (already_present header (some self_ref)) = return self_ref
  apply_pre_checked block check_header (already_present header none) = crash
  apply_pre_checked block check_header (PreCheckedHeader.missing_parent header) =
      throw (missing_parent_block (c.block_parent_hash header))

  unfoldable pub handle_bootstrap_block : Block c → CheckHeaderProof → B c bs lru (Ref c)
  handle_bootstrap_block block check_header = do
    pre_checked_header ← pre_check_header block.header true
    apply_pre_checked block check_header pre_checked_header

  -- The loop of `load_from_storage` over the stream of blocks.
  unfoldable pub load_blocks :
      (ℕ → ℕ) → List (c.Raw ⊎ BackendError) → StreamReporter → Ref c → B c bs lru (Ref c)
  load_blocks clock [] reporter last_ref = return last_ref
  load_blocks clock (item ∷ items) reporter last_ref = do
    block ← stored_as intercom_error (Storage.read_item c bs item)
    reporter' ← lifted (append_block clock reporter)
    new_ref ← handle_bootstrap_block block skip_from_storage
    load_blocks clock items reporter' new_ref

  -- `load_from_storage` once block 0 is known to be there.
  unfoldable pub load_from_head : (ℕ → ℕ) → Block c → B c bs lru (Ref c)
  load_from_head clock block0 = do
    opt ← stored (Storage.get_tag c bs (main_branch_tag c))
    elim opt as (λ _. B c bs lru (Ref c)) [
      | none ↦ throw (no_tag (main_branch_tag c))
      | some head_hash ↦ do
        block0_ref ← apply_block0 block0
        items ← stored (Storage.stream_from_to c bs (c.hash block0.header) head_hash)
        load_blocks clock items (new_reporter clock) block0_ref
    ]

  unfoldable pub load_from_storage : (ℕ → ℕ) → Block c → B c bs lru (Ref c)
  load_from_storage clock block0 = do
    already_exist ← stored (Storage.block_exists c bs (c.hash block0.header))
    if already_exist then load_from_head clock block0 else throw block0_not_already_in_storage

  -- The loop of `branches`: a branch that is not cached is left out.
  unfoldable pub cached_branches : List ℕ → B c bs lru (List (Ref c))
  cached_branches [] = return []
  cached_branches (branch ∷ branches) = do
    maybe_ref ← get_ref branch
    refs ← cached_branches branches
    return (elim maybe_ref as (λ _. List (Ref c)) [ none ↦ refs | some r ↦ r ∷ refs ])

  unfoldable pub branches : B c bs lru (List (Ref c))
  branches = do ids ← stored (Storage.get_branches c bs); cached_branches ids

  unfoldable pub gc : Ref c → B c bs lru (Unit {0})
  gc tip s =
      let depth = c.epoch_stability_depth (ref_ledger tip) in
      stored (Storage.gc c bs depth (ref_hash tip)) (record s { ledgers = c.gc depth s.ledgers })
