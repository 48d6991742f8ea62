-- ===== src/Blockchain/Chain.antt =====
-- jormungandr/src/blockchain/chain.rs: the state of the blockchain, its errors, and the checks that a
-- header goes through before its block is there.
use Prim.Native.String.{String}
pub mod Coherence
use jormungandr.Prelude.{
  ℕ, Bool, true, false, Option, none, some, List, ◌==◌, ◌⊎◌, inl, inr, if◌then◌else◌,
}
use jormungandr.Outcome.{Outcome, ok, err, panic, M, ◌>>=◌, ◌>>◌, continue, return, lifted, mapped}
use jormungandr.Lru.{LruCache}
use jormungandr.Blockchain.Types.{Consensus, BlockDate, date_le, BlockStore, LedgerRef}
use jormungandr.Blockchain.Storage.{StorageError}
use jormungandr.Blockchain.Storage
use jormungandr.Blockchain.Reference.{
  Ref, RefState, new_ref, ref_header, ref_hash, cache_ref, cached,
}

module _ (c : Consensus) where
  pub data HeaderChainVerifyError : Type 0 where
    new_leadership_schedule_failed : c.LeadershipError → HeaderChainVerifyError
    block_date_before_parent : (child parent : BlockDate) → HeaderChainVerifyError
    chain_length_not_incremental : (child parent : ℕ) → HeaderChainVerifyError

  -- `Error`, by the variants that these operations and those of the tip give.
  pub data Error : Type 0 where
    storage_error : StorageError → Error
    block0_error : c.Block0Error → Error
    intercom_error : StorageError → Error
    transaction_send_error send_error : Error
    block0_initial_ledger_error : c.LedgerError → Error
    block0_already_in_storage block0_not_already_in_storage : Error
    missing_parent_block : ℕ → Error
    no_tag : String → Error
    block_header_verification_failed : HeaderChainVerifyError → Error
    cannot_apply_block : c.LedgerError → Error

  pub data PreCheckedHeader : Type 0 where
    already_present : c.Header → Option (Ref c) → PreCheckedHeader
    missing_parent : c.Header → PreCheckedHeader
    header_with_cache : c.Header → Ref c → PreCheckedHeader

  -- `MAIN_BRANCH_TAG`.
  abbrev pub main_branch_tag : String
  main_branch_tag = "HEAD"

module _ (c : Consensus) where
  -- `pre_verify_link`, whose debug assertion is that the parent is the header's.
  unfoldable pub pre_verify_link :
      c.Header → c.Header → Outcome (HeaderChainVerifyError c) (Unit {0})
  pre_verify_link header parent =
      if c.block_parent_hash header == c.hash parent
      then if date_le (c.block_date header) (c.block_date parent)
        then err (block_date_before_parent (c.block_date header) (c.block_date parent))
        else if c.chain_length header == c.next_length (c.chain_length parent)
        then ok tt
        else err (chain_length_not_incremental (c.chain_length header) (c.chain_length parent))
      else panic

module _ {c : Consensus} where
  unfoldable pub pre_checked : c.Header → Option (Ref c) → Option (Ref c) → PreCheckedHeader c
  pre_checked header (some self_ref) maybe_parent_ref = already_present header (some self_ref)
  pre_checked header none (some parent_ref) = header_with_cache header parent_ref
  pre_checked header none none = missing_parent header

  -- The link of a header whose parent is cached.
  unfoldable pub check_link : PreCheckedHeader c → Outcome (Error c) (PreCheckedHeader c)
  check_link (header_with_cache header parent_ref) =
      mapped (λ _. header_with_cache header parent_ref) block_header_verification_failed
        (pre_verify_link c header (ref_header parent_ref))
  check_link (already_present header cached_reference) =
      ok (already_present header cached_reference)
  check_link (missing_parent header) = ok (missing_parent header)

module _ (c : Consensus) (bs : BlockStore c.Raw) (lru : LruCache (Ref c)) where
  pub record Blockchain : Type 0 where
    pub ref_cache : lru.Cache
    pub ledgers : c.Multiverse
    pub storage : bs.Store
    pub block0 : ℕ
    pub rewards_report_all : Bool

  abbrev pub B : Type 0 → Type 0
  B A = M Blockchain (Error c) A

module _ {c : Consensus} {bs : BlockStore c.Raw} {lru : LruCache (Ref c)} where
  -- An operation of the storage, with its error turned into the blockchain's.
  unfoldable pub stored_as :
      {A : Type 0} → (StorageError → Error c) → M bs.Store StorageError A → B c bs lru A
  stored_as into m s =
      let (st, r) = m s.storage in (record s { storage = st }, mapped (λ a. a) into r)

  abbrev pub stored : {A : Type 0} → M bs.Store StorageError A → B c bs lru A
  stored = stored_as storage_error

  unfoldable pub new : ℕ → bs.Store → ℕ → Bool → Blockchain c bs lru
  new block0 storage cache_capacity rewards_report_all = record {
    ref_cache = lru.new cache_capacity;
    ledgers = c.new_multiverse;
    storage = storage;
    block0 = block0;
    rewards_report_all = rewards_report_all;
  }

  -- `Multiverse::insert`, `RefCache::insert` and `RefCache::get` on this state.
  unfoldable pub insert_ledger : ℕ → ℕ → c.Ledger → B c bs lru (LedgerRef c.Ledger)
  insert_ledger chain_length header_hash ledger s =
      let (ledgers, ledger_ref) = c.insert chain_length header_hash ledger s.ledgers in
      (record s { ledgers = ledgers }, ok ledger_ref)

  unfoldable pub insert_ref : ℕ → Ref c → B c bs lru (Unit {0})
  insert_ref header_hash reference s =
      (record s { ref_cache = cache_ref lru header_hash reference s.ref_cache }, ok tt)

  unfoldable pub look_up : ℕ → B c bs lru (Option (Ref c))
  look_up header_hash s =
      let (cache, maybe_ref) = cached lru header_hash s.ref_cache in
      (record s { ref_cache = cache }, ok maybe_ref)

  unfoldable pub create_and_store_reference :
      ℕ
      → c.Header
      → c.Ledger
      → c.TimeFrame
      → c.Leadership
      → Option c.RewardsInfo
      → Option (Ref c)
      → B c bs lru (Ref c)
  create_and_store_reference header_hash header ledger time_frame leadership epoch_rewards_info
        previous_epoch_state =
      do
        ledger_ref ← insert_ledger (c.chain_length header) header_hash ledger
        reference ← lifted (
            new_ref
              (record {
                ledger = ledger_ref;
                time_frame = time_frame;
                epoch_leadership_schedule = leadership;
                epoch_rewards_info = epoch_rewards_info;
                header = header;
              })
              previous_epoch_state)
        insert_ref header_hash reference
        return reference

  -- The storage is asked for its error only: the answer is the cache's.
  unfoldable pub get_ref : ℕ → B c bs lru (Option (Ref c))
  get_ref header_hash = do
    maybe_ref ← look_up header_hash
    block_exists ← stored (Storage.block_exists c bs header_hash)
    return maybe_ref

  unfoldable pub load_header_parent : c.Header → Bool → B c bs lru (PreCheckedHeader c)
  load_header_parent header force = do
    maybe_self_ref ← if force then return none else get_ref (c.hash header)
    maybe_parent_ref ← get_ref (c.block_parent_hash header)
    return (pre_checked header maybe_self_ref maybe_parent_ref)

  unfoldable pub pre_check_header : c.Header → Bool → B c bs lru (PreCheckedHeader c)
  pre_check_header header force = do
    pre_check ← load_header_parent header force
    lifted (check_link pre_check)
