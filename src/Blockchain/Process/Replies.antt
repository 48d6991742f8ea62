-- ===== src/Blockchain/Process/Replies.antt =====
-- A stream of blocks from the network is answered once, and leaves the cache of references in order.
use jormungandr.Prelude.{
  ℕ, suc, ◌+◌, ◌≡◌, refl, sym, ap, subst, arith, Bool, true, false, Option, none, some, List, [],
  ◌∷◌, ◌++◌, if◌then◌else◌,
}
use jormungandr.Outcome.{Outcome, ok, err, panic, M, ◌>>=◌, ◌>>◌, attempt, continue}
use jormungandr.Outcome.Keeps.{Post, Keeps, return-Keeps, throw-Keeps, bind-Keeps, then-Keeps}
use jormungandr.Lru.{LruCache}
use jormungandr.Blockchain.Types.{Consensus, Block, BlockStore}
use jormungandr.Blockchain.Reference.{Ref, ref_header}
use jormungandr.Blockchain.Chain.{
  Blockchain, Error, PreCheckedHeader, already_present, header_with_cache, missing_parent,
  missing_parent_block,
}
use jormungandr.Blockchain.Chain.Coherence.{IsBelow, IsLinked, IsChecked, pre_check_header-Keeps}
use jormungandr.Blockchain.Apply.{AppliedBlock, new, existing, enabled}
use jormungandr.Blockchain.Apply.Coherence.{IsSteady, IsFunded}
use jormungandr.Blockchain.Startup.Coherence.{IsPaidUp}
use jormungandr.Blockchain.Apply.Extension.{
  IsReady, post_check_header-Keeps, apply_and_store_block-Keeps,
}
use jormungandr.Blockchain.Process.{
  Message, new_block, tip_update, propagate, pull_headers, get_next_block, next_block_completed,
  headers_completed, get_blocks, reply_ok, reply_error, Node, N, in_chain, post, sent_if, deliver,
  reply, process_and_propagate_new_ref, announce, check_and_apply_block, apply_network_block,
  process_network_block, next_block, network_loop, propagate_updated, process_network_blocks,
}

module _ {c : Consensus} where
  unfoldable pub is_reply : Message c → ℕ
  is_reply reply_ok = 1
  is_reply reply_error = 1
  is_reply (new_block b) = 0
  is_reply (tip_update r) = 0
  is_reply (propagate h) = 0
  is_reply (pull_headers to node_id from) = 0
  is_reply (get_next_block id node_id) = 0
  is_reply (next_block_completed id) = 0
  is_reply (headers_completed id) = 0
  is_reply (get_blocks ids) = 0

  -- The replies among the messages sent.
  unfoldable pub replies : List (Message c) → ℕ
  replies [] = 0
  replies (m ∷ ms) = is_reply m + replies ms

  replies-snoc :
      (ms : List (Message c)) (m : Message c) → replies (ms ++ m ∷ []) ≡ replies ms + is_reply m
  unfolding replies
  replies-snoc [] m = omega arith
  replies-snoc (x ∷ ms) m = omega (arith, replies-snoc ms m)

module _ {c : Consensus} {bs : BlockStore c.Raw} {lru : LruCache (Ref c)} where
  -- A cache whose references can pay the rewards of their epochs, and so many replies.
  abbrev pub IsAt : Bool → ℕ → Node c bs lru → Type 0
  IsAt all k n = IsPaidUp all n.blockchain × (replies n.sent ≡ k)

  -- A loop that has ended, with the reply to give.
  IsEnded : Bool → ℕ → Node c bs lru × Outcome (Error c) (Message c × Option (Ref c)) → Type 0
  IsEnded all k (n, ok (a, r)) = IsAt all k n × (is_reply a ≡ 1)
  IsEnded all k (n, err e) = ⊥
  IsEnded all k (n, panic) = ⊥

module _ {c : Consensus} {bs : BlockStore c.Raw} {lru : LruCache (Ref c)} {all : Bool} where
  in_chain-Keeps :
      {E A : Type 0} {P : Type 0} {Q : A → Type 0} {m : M (Blockchain c bs lru) E A} (k : ℕ)
      → Keeps (IsPaidUp all) P Q m
      → Keeps (IsAt all k) P Q (in_chain m)
  unfolding in_chain
  in_chain-Keeps k h = record { at = λ n i. let (i', q) = h.at n.blockchain i.0 in ((i', i.1), q) }

  post-Keeps :
      {P : Type 0} (k : ℕ) (m : Message c)
      → is_reply m ≡ 0
      → Keeps (IsAt all k) P (λ _. Unit {0}) (post {bs = bs} {lru = lru} {E = Error c} m)
  unfolding post
  post-Keeps k m e = record {
    at = λ n i. ((i.0, if-replies (n.accepts n.sent m) n.sent m k e i.1), tt);
  }
    where
      if-replies :
          (b : Bool) (ms : List (Message c)) (m : Message c) (k : ℕ)
          → is_reply m ≡ 0
          → replies ms ≡ k
          → replies (if b then ms ++ m ∷ [] else ms) ≡ k
      if-replies true ms m k e h = omega (arith, replies-snoc ms m)
      if-replies false ms m k e h = h

  announce-Keeps :
      {P : Type 0} (k : ℕ) (block : Block c) (a : AppliedBlock c)
      → Keeps (IsAt all k) P (λ _. Unit {0}) (announce {bs = bs} {lru = lru} block a)
  unfolding announce is_reply
  announce-Keeps k block (new r) =
      then-Keeps (post-Keeps k (new_block block) refl) (return-Keeps (some r) tt)
  announce-Keeps k block (existing r) = return-Keeps none tt

  check_and_apply_block-Keeps :
      (k : ℕ) (parent : Ref c) (block : Block c)
      → IsLinked c block.header (ref_header parent)
      → IsSteady c all
      → IsFunded all parent
      → Keeps
          (IsAt all k)
          ⊥
          (λ _. Unit {0})
          (check_and_apply_block {bs = bs} {lru = lru} parent block)
  unfolding check_and_apply_block IsReady
  check_and_apply_block-Keeps k parent block linked n funded =
      bind-Keeps
        (in_chain-Keeps k (post_check_header-Keeps block.header parent enabled n linked funded))
        (λ h ready.
          bind-Keeps
            (in_chain-Keeps k (
              apply_and_store_block-Keeps h block (ap c.hash (sym ready.0))
                (subst (λ x. IsBelow x h.previous_epoch_state) (sym ready.0) ready.1)
                (λ r paid. paid)))
            (λ a _. announce-Keeps k block a))

  apply_network_block-Keeps :
      (k : ℕ) (block : Block c) (found : PreCheckedHeader c)
      → IsSteady c all
      → IsChecked (IsFunded all) block.header false found
      → Keeps (IsAt all k) ⊥ (λ _. Unit {0}) (apply_network_block {bs = bs} {lru = lru} block found)
  unfolding apply_network_block IsChecked
  apply_network_block-Keeps k block (already_present h r) n f = return-Keeps none tt
  apply_network_block-Keeps k block (missing_parent h) n f =
      throw-Keeps (missing_parent_block (c.block_parent_hash h))
  apply_network_block-Keeps k block (header_with_cache h parent) n (same, funded, linked) =
      check_and_apply_block-Keeps k parent block linked n funded

  process_network_block-Keeps :
      (k : ℕ) (block : Block c)
      → IsSteady c all
      → Keeps (IsAt all k) ⊥ (λ _. Unit {0}) (process_network_block {bs = bs} {lru = lru} block)
  unfolding process_network_block is_reply
  process_network_block-Keeps k block n =
      then-Keeps (post-Keeps k (next_block_completed (c.hash block.header)) refl) (
        bind-Keeps
          (in_chain-Keeps k (pre_check_header-Keeps block.header false (λ r funded. funded.0)))
          (λ found. apply_network_block-Keeps k block found n))

  sent_if-IsAt :
      (b : Bool) (k : ℕ) (m : Message c) (n : Node c bs lru)
      → is_reply m ≡ 0
      → IsAt all k n
      → IsAt all k (sent_if b m n).0 × Post ⊥ (λ _. Unit {0}) (sent_if b m n).1
  unfolding sent_if
  sent_if-IsAt true k m n e i = ((i.0, (let z = i.1 in omega (arith, replies-snoc n.sent m))), tt)
  sent_if-IsAt false k m n e i = (i, tt)

  deliver-Keeps :
      (k : ℕ) (m : Message c)
      → is_reply m ≡ 0
      → Keeps (IsAt all k) ⊥ (λ _. Unit {0}) (deliver {bs = bs} {lru = lru} m)
  unfolding deliver
  deliver-Keeps k m e = record { at = λ n i. sent_if-IsAt (n.accepts n.sent m) k m n e i }

  propagate_updated-Keeps :
      (k : ℕ) (r : Option (Ref c))
      → Keeps (IsAt all k) ⊥ (λ _. Unit {0}) (propagate_updated {bs = bs} {lru = lru} r)
  unfolding propagate_updated process_and_propagate_new_ref is_reply
  propagate_updated-Keeps k none = return-Keeps tt tt
  propagate_updated-Keeps k (some r) =
      then-Keeps (post-Keeps k (tip_update r) refl)
        (deliver-Keeps k (propagate (ref_header r)) refl)

  next_block-IsEnded :
      (k : ℕ) (more : Ref c → N c bs lru (Message c × Option (Ref c))) (candidate : Option (Ref c))
      (n : Node c bs lru) (res : Outcome (Error c) (Option (Ref c)))
      → IsAt all k n
      → Post ⊥ (λ _. Unit {0}) res
      → ((r : Ref c) (n' : Node c bs lru) → IsAt all k n' → IsEnded all k (more r n'))
      → IsEnded all k (
          continue (next_block more candidate) (
            n,
            elim res as (λ _. Outcome (Error c) (Outcome (Error c) (Option (Ref c)))) [
              | ok a ↦ ok (ok a)
              | err e ↦ ok (err e)
              | panic ↦ panic
            ],
          ))
  unfolding next_block IsEnded is_reply
  next_block-IsEnded k more candidate n (ok (some r)) i q go = go r n i
  next_block-IsEnded k more candidate n (ok none) i q go = (i, refl)
  next_block-IsEnded k more candidate n (err e) i q go = (i, refl)
  next_block-IsEnded k more candidate n panic i q go = elim q [ ]

  network_loop-IsEnded :
      (k : ℕ) (stream : List (Block c)) (candidate : Option (Ref c)) (n : Node c bs lru)
      → IsSteady c all
      → IsAt all k n
      → IsEnded all k (network_loop stream candidate n)
  unfolding network_loop IsEnded is_reply ◌>>=◌ attempt
  network_loop-IsEnded k [] candidate n never i = (i, refl)
  network_loop-IsEnded k (block ∷ stream) candidate n never i =
      let (i', q) = (process_network_block-Keeps k block never).at n i in
      next_block-IsEnded k (λ r. network_loop stream (some r)) candidate _ _ i' q
        (λ r n'. network_loop-IsEnded k stream (some r) n' never)

  answered :
      (k : ℕ) (p : Node c bs lru × Outcome (Error c) (Message c × Option (Ref c)))
      → IsEnded all k p
      → IsAt all (suc k) (continue (λ ended. reply ended.0 >> propagate_updated ended.1) p).0
        × Post ⊥
            (λ _. Unit {0})
            (continue (λ ended. reply ended.0 >> propagate_updated ended.1) p).1
  unfolding IsEnded reply ◌>>◌
  answered k (n, ok (a, r)) (i, one) =
      (propagate_updated-Keeps (suc k) r).at (record n { sent = n.sent ++ a ∷ [] })
        (i.0, (let z = i.1 in omega (arith, replies-snoc n.sent a)))
  answered k (n, err e) i = elim i [ ]
  answered k (n, panic) i = elim i [ ]

module _ {c : Consensus} {bs : BlockStore c.Raw} {lru : LruCache (Ref c)} where
  -- Where protocol changes and the dump of the rewards do not fail, and the changes leave a ledger able
  -- to pay rewards that it could pay, a stream of blocks from the network is handled without a panic on
  -- a cache whose references are sound and can pay the rewards of their epochs. The cache stays so, and
  -- exactly one reply is sent, whichever block of the stream is refused.
  pub replies-process_network_blocks :
      (stream : List (Block c)) (all : Bool) (n : Node c bs lru)
      → IsSteady c all
      → IsPaidUp all n.blockchain
      → IsPaidUp all (process_network_blocks stream n).0.blockchain
        × (replies (process_network_blocks stream n).0.sent ≡ suc (replies n.sent))
        × Post ⊥ (λ _. Unit {0}) (process_network_blocks stream n).1
  unfolding process_network_blocks ◌>>=◌
  replies-process_network_blocks stream all n steady i =
      let (at_end, q) =
        answered (replies n.sent) (network_loop stream none n)
          (network_loop-IsEnded (replies n.sent) stream none n steady (i, refl)) in
      (at_end.0, at_end.1, q)
