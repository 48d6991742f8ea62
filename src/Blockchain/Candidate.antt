-- ===== src/Blockchain/Candidate.antt =====
-- jormungandr/src/blockchain/candidate.rs: a stream of headers from a peer becomes a batch of block
-- hashes to ask for. The stream is the list of what it will give.
pub mod Batch
pub mod Polling
use jormungandr.Prelude.{
  ℕ, Bool, true, false, Option, none, some, List, [], ◌∷◌, ◌++◌, length, leb, ◌==◌, if◌then◌else◌,
}
use jormungandr.Outcome.{Outcome, ok, err, panic, M, ◌>>=◌, continue, return, throw, lifted, mapped}
use jormungandr.Lru.{LruCache}
use jormungandr.Blockchain.Types.{Consensus, BlockStore}
use jormungandr.Blockchain.Reference.{Ref}
use jormungandr.Blockchain.Chain.{
  Blockchain, Error, HeaderChainVerifyError, PreCheckedHeader, already_present, header_with_cache,
  missing_parent, pre_verify_link, pre_check_header,
}

module _ (c : Consensus) where
  pub data CandidateError : Type 0 where
    empty_header_stream : CandidateError
    blockchain_error : Error c → CandidateError
    missing_parent_block broken_header_chain : ℕ → CandidateError
    header_chain_verification_failed : HeaderChainVerifyError c → CandidateError

  -- `chunk_sizes::BLOCKS`.
  abbrev pub chunk_blocks : ℕ
  chunk_blocks = 32

  -- `ChainAdvance`, the stream apart; its `header` is never there.
  pub record ChainAdvance : Type 0 where
    pub parent_header : c.Header
    pub new_hashes : List ℕ

module _ {c : Consensus} where
  unfoldable pub process_header :
      ChainAdvance c → c.Header → Outcome (CandidateError c) (ChainAdvance c)
  process_header a header =
      if c.block_parent_hash header == c.hash a.parent_header
      then mapped
          (λ _. record { parent_header = header; new_hashes = a.new_hashes ++ c.hash header ∷ [] })
          header_chain_verification_failed (pre_verify_link c header a.parent_header)
      else err (broken_header_chain (c.block_parent_hash header))

  -- `poll_done`, until the stream ends or the batch is full, with what is left of the stream.
  unfoldable pub poll_done :
      ChainAdvance c → List c.Header → Outcome (CandidateError c) (List ℕ × Option (List c.Header))
  poll_done a [] = ok (a.new_hashes, none)
  poll_done a (header ∷ stream) = elim (process_header a header) [
    | err e ↦ err e
    | panic ↦ panic
    | ok a' ↦
        if leb (chunk_blocks c) (length a'.new_hashes)
        then ok (a'.new_hashes, some stream)
        else poll_done a' stream
  ]

  unfoldable pub landed : c.Header → ChainAdvance c
  landed header = record { parent_header = header; new_hashes = c.hash header ∷ [] }

module _ (c : Consensus) (bs : BlockStore c.Raw) (lru : LruCache (Ref c)) where
  abbrev pub C : Type 0 → Type 0
  C A = M (Blockchain c bs lru) (CandidateError c) A

module _ {c : Consensus} {bs : BlockStore c.Raw} {lru : LruCache (Ref c)} where
  -- `pre_check_header` with its error turned into this module's.
  unfoldable pub check : c.Header → C c bs lru (PreCheckedHeader c)
  check header s =
      let (s', r) = pre_check_header {bs = bs} {lru = lru} header false s in
      (s', mapped (λ p. p) blockchain_error r)

  -- What follows the check of a header in `skip_present_blocks`: the next round, the header where the
  -- chain lands with the rest of the stream, or an error.
  unfoldable pub land :
      C c bs lru (Option (c.Header × List c.Header))
      → List c.Header
      → PreCheckedHeader c
      → C c bs lru (Option (c.Header × List c.Header))
  land next stream (already_present header r) = next
  land next stream (header_with_cache header parent_ref) = return (some (header, stream))
  land next stream (missing_parent header) =
      throw (missing_parent_block (c.block_parent_hash header))

  -- `skip_present_blocks`, with the first header apart.
  unfoldable pub skip_from :
      c.Header → List c.Header → C c bs lru (Option (c.Header × List c.Header))
  skip_from header [] = do pre_checked ← check header; land (return none) [] pre_checked
  skip_from header (next ∷ stream) = do
    pre_checked ← check header
    land (skip_from next stream) (next ∷ stream) pre_checked

  unfoldable pub land_header_chain : List c.Header → C c bs lru (Option (c.Header × List c.Header))
  land_header_chain [] = throw empty_header_stream
  land_header_chain (header ∷ stream) = skip_from header stream

  -- What `advance_branch` does where the chain landed.
  unfoldable pub batch_of :
      Option (c.Header × List c.Header) → C c bs lru (List ℕ × Option (List c.Header))
  batch_of none = return ([], none)
  batch_of (some (header, stream)) = lifted (poll_done (landed header) stream)

  unfoldable pub advance_branch : List c.Header → C c bs lru (List ℕ × Option (List c.Header))
  advance_branch header_stream = do advance ← land_header_chain header_stream; batch_of advance
