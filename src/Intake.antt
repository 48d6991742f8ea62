-- ===== src/Intake.antt =====
-- The outer `Pool` of jormungandr/src/fragment/pool.rs: what the fragment task does with a batch, with
-- a block, with a branch switch and at a new date. The settings of the ledger and the date of the tip
-- are arguments; the persistent log is the list of the fragments written to it; the message box to
-- the network is told, for each fragment, whether the send succeeds.
pub mod Answers
pub mod Accounting
pub mod Upkeep
pub mod Choice
use jormungandr.Prelude.{
  ℕ, Bool, true, false, Option, none, some, ◌>>=◌, List, [], ◌∷◌, ◌++◌, map, ◌⊎◌, inl, inr,
  if◌then◌else◌,
}
use jormungandr.Chain.{
  Chain, Fragment, TxValidityError, transaction_expired, transaction_valid_for_too_long,
}
use jormungandr.FragmentLog.{
  FragmentStatus, FragmentOrigin, FragmentLog, pending, rejected, in_a_block,
}
use jormungandr.FragmentLog
use jormungandr.Lru.{LruCache}
use jormungandr.Logs.{LogEntry}
use jormungandr.Logs
use jormungandr.Mempool
use jormungandr.Mempool.{Pool, get_transaction_expiry_date, is_fragment_valid}
use jormungandr.Summary.{
  FragmentRejectionReason, RejectedFragmentInfo, FragmentsProcessingSummary,
  fragment_already_in_log, fragment_invalid, previous_fragment_invalid, pool_overflow,
  fragment_expired, fragment_valid_for_too_long,
}

module _ (chain : Chain) where
  open chain use {Tx, Raw}

  -- The loop that hands the new fragments to the network: their ids, or the error of the first send
  -- that fails.
  unfoldable pub propagate : (Fragment Tx Raw → Bool) → List (Fragment Tx Raw × ℕ) → Option (List ℕ)
  propagate send [] = some []
  propagate send ((fragment, id) ∷ rest) =
      let others = propagate send rest in
      if send fragment then others >>= (λ ids. some (id ∷ ids)) else none

module _ (chain : Chain) (Text : Type 0) (lru : LruCache (LogEntry chain.Date Text)) where
  open chain use {Tx, Raw, Date, Settings, position, valid_transaction_date}

  pub record Intake : Type 0 where
    pub logs : lru.Cache
    pub pool : Pool chain
    pub persistent_log : Option (List (Fragment Tx Raw))

  -- The check of the expiry date in `filter_fragment`.
  unfoldable pub date_rejection : Settings → Date → Option Date → Option FragmentRejectionReason
  date_rejection settings block_date none = none
  date_rejection settings block_date (some valid_until) =
      elim (valid_transaction_date settings valid_until block_date) [
        | none ↦ none
        | some transaction_expired ↦ some fragment_expired
        | some transaction_valid_for_too_long ↦ some fragment_valid_for_too_long
      ]

  -- The reason for which `filter_fragment` refuses a fragment, if any.
  unfoldable pub rejection :
      Settings → Date → lru.Cache → Fragment Tx Raw → ℕ → Option FragmentRejectionReason
  rejection settings block_date logs fragment id =
      if Logs.exists lru id logs
      then some fragment_already_in_log
      else elim (date_rejection settings block_date (get_transaction_expiry_date chain fragment)) [
        | some reason ↦ some reason
        | none ↦ if is_fragment_valid chain fragment then none else some fragment_invalid
      ]

  -- The entry that `filter_fragment` writes for a fragment that it lets pass.
  abbrev pub logged :
      Fragment Tx Raw → Option (List (Fragment Tx Raw)) → Option (List (Fragment Tx Raw))
  logged fragment none = none
  logged fragment (some entries) = some (entries ++ fragment ∷ [])

  unfoldable pub filter_fragment :
      Settings → Date → Fragment Tx Raw → ℕ → Intake → Intake × Option FragmentRejectionReason
  filter_fragment settings block_date fragment id s =
      elim (rejection settings block_date s.logs fragment id) [
        | some reason ↦ (s, some reason)
        | none ↦ (record s { persistent_log = logged fragment s.persistent_log }, none)
      ]

  -- The filtered fragments and the rejections, and what of the batch a break left unread.
  pub record Filtered : Type 0 where
    pub state : Intake
    pub filtered : List (Fragment Tx Raw × ℕ)
    pub rejected : List RejectedFragmentInfo
    pub unread : List (Fragment Tx Raw × ℕ)

  abbrev pub also_filtered : Fragment Tx Raw × ℕ → Filtered → Filtered
  also_filtered e r = record r { filtered = e ∷ r.filtered }

  abbrev pub also_rejected : RejectedFragmentInfo → Filtered → Filtered
  also_rejected info r = record r { rejected = info ∷ r.rejected }

  -- The first loop of `insert_and_propagate_all`.
  unfoldable pub filter_all :
      Bool → Settings → Date → List (Fragment Tx Raw × ℕ) → Intake → Filtered
  filter_all fail_fast settings block_date [] s = record {
    state = s;
    filtered = [];
    rejected = [];
    unread = [];
  }
  filter_all fail_fast settings block_date ((fragment, id) ∷ rest) s =
      let (s', refused) = filter_fragment settings block_date fragment id s in
      let next = filter_all fail_fast settings block_date rest s' in
      elim refused [
        | none ↦ also_filtered (fragment, id) next
        | some fragment_invalid ↦
            if fail_fast
            then record {
              state = s';
              filtered = [];
              rejected = record { id = id; reason = fragment_invalid } ∷ [];
              unread = rest;
            }
            else also_rejected (record { id = id; reason = fragment_invalid }) next
        | some reason ↦ also_rejected (record { id = id; reason = reason }) next
      ]

  abbrev pub rejected_as :
      FragmentRejectionReason → List (Fragment Tx Raw × ℕ) → List RejectedFragmentInfo
  rejected_as reason = map (λ e. record { id = e.1; reason = reason })

  -- The summary: the accepted ids if every send succeeded, and the rejections of the three kinds.
  unfoldable pub answer :
      Bool
      → Filtered
      → List (Fragment Tx Raw × ℕ)
      → Option (List ℕ)
      → FragmentsProcessingSummary ⊎ Unit {0}
  answer fail_fast f left none = inr tt
  answer fail_fast f left (some accepted) = inl (record {
    accepted = accepted;
    rejected =
        (f.rejected ++ (if fail_fast then rejected_as previous_fragment_invalid f.unread else []))
        ++ rejected_as pool_overflow left;
  })

  -- `insert_and_propagate_all`. The outer `none` is a panic; `inr` is `CannotPropagate`.
  unfoldable pub insert_and_propagate_all :
      (Fragment Tx Raw → Bool)
      → ℕ
      → Settings
      → Date
      → FragmentOrigin
      → List (Fragment Tx Raw)
      → Bool
      → Intake
      → Option (Intake × (FragmentsProcessingSummary ⊎ Unit {0}))
  insert_and_propagate_all send now settings block_date origin fragments fail_fast s = do
    let f = filter_all fail_fast settings block_date (map (λ el. (el, chain.hash el)) fragments) s
    (pool, new_fragments, left) ← Mempool.insert_all chain f.filtered s.pool
    (logs, _) ←
        Logs.insert_all_pending lru (map (λ e. FragmentLog.new now e.1 origin) new_fragments) s.logs
    let s' = record (f.state) { pool = pool; logs = logs }
    some (s', answer fail_fast f left (propagate chain send new_fragments))

  -- `remove_added_to_block`; another status is a panic.
  unfoldable pub remove_added_to_block :
      ℕ → List ℕ → FragmentStatus Date Text → Intake → Option Intake
  remove_added_to_block now ids pending s = none
  remove_added_to_block now ids (rejected reason) s = none
  remove_added_to_block now ids (in_a_block date block) s = do
    pool ← Mempool.remove_all chain ids s.pool
    some (record s {
      pool = pool;
      logs = Logs.modify_all lru now ids (in_a_block date block) date s.logs;
    })

  unfoldable pub prune_after_ledger_branch : Date → Intake → Option Intake
  prune_after_ledger_branch branch_date s = do
    logs ← Logs.remove_logs_after_date lru position branch_date s.logs
    some (record s { logs = logs })

  -- `remove_expired_txs` at the date of the tip; `reason` is the text "fragment expired".
  unfoldable pub remove_expired_txs : ℕ → Text → Date → Intake → Option Intake
  remove_expired_txs now reason block_date s = do
    (pool, ids) ← Mempool.remove_expired_txs chain block_date s.pool
    some (record s {
      pool = pool;
      logs = Logs.modify_all lru now ids (rejected reason) block_date s.logs;
    })
