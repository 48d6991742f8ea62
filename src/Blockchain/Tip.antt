-- ===== src/Blockchain/Tip.antt =====
-- jormungandr/src/blockchain/tip.rs: the tip of the chain, and the messages to the fragment task. The
-- two queues are parameters: a send to a full one fails. The metrics are left out.
pub mod Progress
use jormungandr.Prelude.{
  ℕ, Bool, true, false, Option, none, some, List, [], ◌∷◌, ◌==◌, ◌⊎◌, inl, inr, if◌then◌else◌,
}
use jormungandr.Outcome.{
  Outcome, ok, err, panic, M, ◌>>=◌, ◌>>◌, return, throw, crash, lifted, reads, of_sum, mapped,
}
use jormungandr.Lru.{LruCache}
use jormungandr.Blockchain.Types.{Consensus, Block, BlockDate, BackendError, BlockStore}
use jormungandr.Blockchain.Storage.{StorageError, block_not_found}
use jormungandr.Blockchain.Storage
use jormungandr.Blockchain.Reference.{Ref, ref_hash, ref_header, ref_parent_hash}
use jormungandr.Blockchain.Chain.{
  Blockchain, Error, storage_error, intercom_error, transaction_send_error, main_branch_tag,
  stored_as,
}
use jormungandr.Blockchain.Selection.{
  ComparisonResult, prefer_current, prefer_candidate, compare_against,
}

-- `TransactionMsg`, by the messages that the tip sends; a removal is for a block at a date.
pub data TransactionMsg : Type 0 where
  branch_switch : BlockDate → TransactionMsg
  remove_transactions : List ℕ → BlockDate → ℕ → TransactionMsg

-- The queues to the fragment task, which may be full, and to the watch clients.
pub record Queues (Header : Type 0) : Type 1 where
  pub Fragments : Type 0
  pub Watch : Type 0
  pub try_send : TransactionMsg → Fragments → Option Fragments
  pub send : Header → Watch → Watch

module _ (c : Consensus) (bs : BlockStore c.Raw) (lru : LruCache (Ref c))
    (q : Queues c.Header) where
  -- `TipUpdater`, with the tip that it shares.
  pub record TipUpdater : Type 0 where
    pub tip : Ref c
    pub blockchain : Blockchain c bs lru
    pub watch_mbox : Option q.Watch
    pub fragment_mbox : Option q.Fragments

  abbrev pub T : Type 0 → Type 0
  T A = M TipUpdater (Error c) A

module _ (c : Consensus) (q : Queues c.Header) where
  unfoldable pub told : c.Header → Option q.Watch → Option q.Watch
  told header none = none
  told header (some mbox) = some (q.send header mbox)

module _ {c : Consensus} where
  unfoldable pub found : Option (Block c) → Outcome (Error c) (Block c)
  found none = err (storage_error block_not_found)
  found (some block) = ok block

module _ {c : Consensus} {bs : BlockStore c.Raw} {lru : LruCache (Ref c)}
    {q : Queues c.Header} where
  -- An operation of the storage under the blockchain.
  unfoldable pub in_storage :
      {A : Type 0} → (StorageError → Error c) → M bs.Store StorageError A → T c bs lru q A
  in_storage into m u =
      let (blockchain, r) = stored_as into m u.blockchain in
      (record u { blockchain = blockchain }, r)

  unfoldable pub update_ref : Ref c → T c bs lru q (Unit {0})
  update_ref new_ref u = (record u { tip = new_ref }, ok tt)

  -- `try_send` on the queue to the fragment task, if there is one.
  unfoldable pub try_send : TransactionMsg → T c bs lru q (Unit {0})
  try_send msg u = elim u.fragment_mbox [
    | none ↦ (u, ok tt)
    | some mbox ↦ elim (q.try_send msg mbox) [
      | none ↦ (u, err transaction_send_error)
      | some mbox' ↦ (record u { fragment_mbox = some mbox' }, ok tt)
    ]
  ]

  unfoldable pub try_request_fragment_removal : List ℕ → c.Header → T c bs lru q (Unit {0})
  try_request_fragment_removal fragment_ids header =
      try_send (remove_transactions fragment_ids (c.block_date header) (c.hash header))

  -- The removals of the blocks that are left on a stream.
  unfoldable pub remove_all : List (c.Raw ⊎ BackendError) → T c bs lru q (Unit {0})
  remove_all [] = return tt
  remove_all (item ∷ stream) = do
    block ← in_storage intercom_error (Storage.read_item c bs item)
    try_request_fragment_removal (c.fragment_ids block.contents) block.header
    remove_all stream

  -- The stream of a branch: its first block is the ancestor.
  unfoldable pub switch_stream : List (c.Raw ⊎ BackendError) → T c bs lru q (Unit {0})
  switch_stream [] = crash
  switch_stream (item ∷ stream) = do
    ancestor ← in_storage intercom_error (Storage.read_item c bs item)
    try_send (branch_switch (c.block_date ancestor.header))
    remove_all stream

  unfoldable pub switch_tip_branch : Ref c → ℕ → T c bs lru q (Unit {0})
  switch_tip_branch candidate tip_hash = do
    common_ancestor ←
        in_storage storage_error (Storage.find_common_ancestor c bs (ref_hash candidate) tip_hash)
    stream ←
        in_storage storage_error (Storage.stream_from_to c bs common_ancestor (ref_hash candidate))
    switch_stream stream
    in_storage storage_error (Storage.put_tag c bs (main_branch_tag c) (ref_hash candidate))
    update_ref candidate

  unfoldable pub update_current_branch_tip : Ref c → Block c → T c bs lru q (Unit {0})
  update_current_branch_tip candidate block = do
    in_storage storage_error (Storage.put_tag c bs (main_branch_tag c) (ref_hash candidate))
    try_request_fragment_removal (c.fragment_ids block.contents) block.header
    update_ref candidate

  -- `NewTip`, whose failure is only logged.
  unfoldable pub notify : c.Header → T c bs lru q (Unit {0})
  notify header u = (record u { watch_mbox = told c q header u.watch_mbox }, ok tt)

  -- The candidate that is preferred becomes the tip.
  unfoldable pub adopt : Ref c → T c bs lru q (Unit {0})
  adopt candidate = do
    maybe_block ← in_storage storage_error (Storage.get c bs (ref_hash candidate))
    block ← lifted (found maybe_block)
    tip_ref ← reads (λ u. u.tip)
    if ref_hash tip_ref == ref_parent_hash candidate
        then update_current_branch_tip candidate block
        else switch_tip_branch candidate (ref_hash tip_ref)
    notify (ref_header candidate)

  -- `process_new_ref` after the comparison.
  unfoldable pub consider : Ref c → ComparisonResult → T c bs lru q (Unit {0})
  consider candidate prefer_current = return tt
  consider candidate prefer_candidate = adopt candidate

  unfoldable pub process_new_ref : ℕ → Ref c → T c bs lru q (Unit {0})
  process_new_ref now candidate = do
    tip_ref ← reads (λ u. u.tip)
    consider candidate (compare_against now tip_ref candidate)
