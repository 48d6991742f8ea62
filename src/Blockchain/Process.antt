-- ===== src/Blockchain/Process.antt =====
-- jormungandr/src/blockchain/process.rs: the handlers of the blockchain task. Each runs on its own;
-- what it sends is a list of messages, and a channel may refuse a message.
pub mod Replies
use jormungandr.Prelude.{
  ℕ, Bool, true, false, Option, none, some, List, [], ◌∷◌, ◌++◌, if◌then◌else◌,
}
use jormungandr.Outcome.{
  Outcome, ok, err, panic, M, ◌>>=◌, ◌>>◌, return, throw, crash, lifted, reads, attempt,
}
use jormungandr.Lru.{LruCache}
use jormungandr.Blockchain.Types.{Consensus, Block, BlockStore}
use jormungandr.Blockchain.Reference.{Ref, ref_header}
use jormungandr.Blockchain.Chain.{
  Blockchain, Error, PreCheckedHeader, already_present, header_with_cache, missing_parent,
  send_error, missing_parent_block, pre_check_header,
}
use jormungandr.Blockchain.Apply.{
  AppliedBlock, LeadershipBlock, new, existing, enabled, applied_new_ref, post_check_header,
  apply_and_store_block, apply_and_store_leadership_block,
}
use jormungandr.Blockchain.Candidate.{CandidateError, advance_branch}
use jormungandr.Blockchain.Checkpoints.{new_from}

module _ (c : Consensus) where
  -- What the handlers send: to the watch clients, the tip updater, the network, the schedulers of the
  -- requests, and to whoever asked.
  pub data Message : Type 0 where
    new_block : Block c → Message
    tip_update : Ref c → Message
    propagate : c.Header → Message
    pull_headers : (to node_id : ℕ) → List ℕ → Message
    get_next_block : (id node_id : ℕ) → Message
    next_block_completed headers_completed : ℕ → Message
    get_blocks : List ℕ → Message
    reply_ok reply_error : Message

module _ (c : Consensus) (bs : BlockStore c.Raw) (lru : LruCache (Ref c)) where
  -- `Process`, seen by one handler. `accepts` says which messages the channels take, after those sent.
  pub record Node : Type 0 where
    pub blockchain : Blockchain c bs lru
    pub tip : Ref c
    pub accepts : List (Message c) → Message c → Bool
    pub sent : List (Message c)

  abbrev pub N : Type 0 → Type 0
  N A = M Node (Error c) A

module _ {c : Consensus} {bs : BlockStore c.Raw} {lru : LruCache (Ref c)} where
  unfoldable pub in_chain : {E A : Type 0} → M (Blockchain c bs lru) E A → M (Node c bs lru) E A
  in_chain m n = let (b, r) = m n.blockchain in (record n { blockchain = b }, r)

  -- A message whose failure is only logged, and one whose failure is an error.
  unfoldable pub post : {E : Type 0} → Message c → M (Node c bs lru) E (Unit {0})
  post m n = (record n { sent = if n.accepts n.sent m then n.sent ++ m ∷ [] else n.sent }, ok tt)

  unfoldable pub sent_if : Bool → Message c → N c bs lru (Unit {0})
  sent_if true m n = (record n { sent = n.sent ++ m ∷ [] }, ok tt)
  sent_if false m n = (n, err send_error)

  unfoldable pub deliver : Message c → N c bs lru (Unit {0})
  deliver m n = sent_if (n.accepts n.sent m) m n

  -- A reply always goes out.
  unfoldable pub reply : {E : Type 0} → Message c → M (Node c bs lru) E (Unit {0})
  reply m n = (record n { sent = n.sent ++ m ∷ [] }, ok tt)

  unfoldable pub process_and_propagate_new_ref : Ref c → N c bs lru (Unit {0})
  process_and_propagate_new_ref new_block_ref = do
    post (tip_update new_block_ref)
    deliver (propagate (ref_header new_block_ref))

  -- A block of this node that is already stored is a panic.
  unfoldable pub unique : Option (Ref c) → N c bs lru (Ref c)
  unique none = crash
  unique (some new_ref) = return new_ref

  unfoldable pub process_leadership_block_inner : LeadershipBlock c → N c bs lru (Ref c)
  process_leadership_block_inner leadership_block = do
    applied ← in_chain (apply_and_store_leadership_block leadership_block)
    unique (applied_new_ref applied)

  unfoldable pub process_leadership_block : LeadershipBlock c → N c bs lru (Unit {0})
  process_leadership_block leadership_block = do
    new_block_ref ← process_leadership_block_inner leadership_block
    deliver (new_block leadership_block.block)
    process_and_propagate_new_ref new_block_ref

  -- The checkpoints are those of the tip.
  unfoldable pub ask_for : ℕ → PreCheckedHeader c → N c bs lru (Unit {0})
  ask_for node_id (already_present header r) = return tt
  ask_for node_id (missing_parent header) = do
    tip ← reads (λ n. n.tip)
    elim (new_from tip) as (λ _. N c bs lru (Unit {0})) [
      | none ↦ crash
      | some from ↦ post (pull_headers (c.hash header) node_id from)
    ]
  ask_for node_id (header_with_cache header parent_ref) =
      post (get_next_block (c.hash header) node_id)

  unfoldable pub process_block_announcement : c.Header → ℕ → N c bs lru (Unit {0})
  process_block_announcement header node_id = do
    pre_checked ← in_chain (pre_check_header header false)
    ask_for node_id pre_checked

  unfoldable pub announce : Block c → AppliedBlock c → N c bs lru (Option (Ref c))
  announce block (new block_ref) = do post (new_block block); return (some block_ref)
  announce block (existing block_ref) = return none

  unfoldable pub check_and_apply_block : Ref c → Block c → N c bs lru (Option (Ref c))
  check_and_apply_block parent_ref block = do
    post_checked ← in_chain (post_check_header block.header parent_ref enabled)
    applied_block ← in_chain (apply_and_store_block post_checked block)
    announce block applied_block

  unfoldable pub apply_network_block : Block c → PreCheckedHeader c → N c bs lru (Option (Ref c))
  apply_network_block block (already_present header r) = return none
  apply_network_block block (missing_parent header) =
      throw (missing_parent_block (c.block_parent_hash header))
  apply_network_block block (header_with_cache header parent_ref) =
      check_and_apply_block parent_ref block

  unfoldable pub process_network_block : Block c → N c bs lru (Option (Ref c))
  process_network_block block = do
    post (next_block_completed (c.hash block.header))
    pre_checked ← in_chain (pre_check_header block.header false)
    apply_network_block block pre_checked

  -- What follows a block in the loop of `process_network_blocks`.
  unfoldable pub next_block :
      (Ref c → N c bs lru (Message c × Option (Ref c)))
      → Option (Ref c)
      → Outcome (Error c) (Option (Ref c))
      → N c bs lru (Message c × Option (Ref c))
  next_block more candidate (ok (some r)) = more r
  next_block more candidate (ok none) = return (reply_ok, candidate)
  next_block more candidate (err e) = return (reply_error, candidate)
  next_block more candidate panic = crash

  -- The loop of `process_network_blocks`, with the reply that ends it and the candidate.
  unfoldable pub network_loop :
      List (Block c) → Option (Ref c) → N c bs lru (Message c × Option (Ref c))
  network_loop [] candidate = return (reply_ok, candidate)
  network_loop (block ∷ stream) candidate = do
    res ← attempt (process_network_block block)
    next_block (λ r. network_loop stream (some r)) candidate res

  unfoldable pub propagate_updated : Option (Ref c) → N c bs lru (Unit {0})
  propagate_updated none = return tt
  propagate_updated (some new_block_ref) = process_and_propagate_new_ref new_block_ref

  unfoldable pub process_network_blocks : List (Block c) → N c bs lru (Unit {0})
  process_network_blocks stream = do
    ended ← network_loop stream none
    reply ended.0
    propagate_updated ended.1

  unfoldable pub complete_headers : List ℕ → N c bs lru (Unit {0})
  complete_headers [] n = (n, ok tt)
  complete_headers (id ∷ ids) n =
      if n.accepts n.sent (headers_completed id)
      then complete_headers ids (record n { sent = n.sent ++ headers_completed id ∷ [] })
      else (n, ok tt)

  -- The blocks are asked for before the reply; an empty batch gets none.
  unfoldable pub request_blocks : List ℕ → N c bs lru (Unit {0})
  request_blocks [] n = (n, ok tt)
  request_blocks (id ∷ ids) n =
      if n.accepts n.sent (get_blocks (id ∷ ids))
      then reply reply_ok (record n { sent = n.sent ++ get_blocks (id ∷ ids) ∷ [] })
      else (n, panic)

  unfoldable pub answer_headers :
      Outcome (CandidateError c) (List ℕ × Option (List c.Header)) → N c bs lru (Unit {0})
  answer_headers (err e) = reply reply_error
  answer_headers (ok (header_ids, _)) = do complete_headers header_ids; request_blocks header_ids
  answer_headers panic = crash

  unfoldable pub process_chain_headers : List c.Header → N c bs lru (Unit {0})
  process_chain_headers stream = do
    res ← attempt (in_chain (advance_branch stream))
    answer_headers res
