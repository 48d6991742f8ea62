-- ===== src/Blockchain/Bootstrap.antt =====
-- jormungandr/src/blockchain/bootstrap.rs: the blocks that a peer streams at the start. The stream is
-- the list of what it gives before its end or the cancellation; the log of the progress is left out.
pub mod Length
use jormungandr.Prelude.{
  ℕ, ◌≤◌, ◌<◌, ◌≡◌, refl, ap, sym, subst, arith, Bool, true, false, Option, none, some, List, [],
  ◌∷◌, ◌==◌, ◌⊎◌, inl, inr, if◌then◌else◌,
}
use jormungandr.Outcome.{
  Outcome, ok, err, panic, M, ◌>>=◌, ◌>>◌, return, throw, crash, reads, attempt, mapped,
}
use jormungandr.Outcome.Keeps.{
  Post, Post-any, Keeps, Stays, return-Keeps, throw-Keeps, crash-Keeps, reads-Keeps, bind-Keeps,
  then-Keeps, if-Keeps, attempt-Keeps,
}
use jormungandr.Lru.{LruCache}
use jormungandr.Blockchain.Types.{Consensus, Block, BlockStore}
use jormungandr.Blockchain.Reference.{Ref, ref_chain_length}
use jormungandr.Blockchain.Chain.{Error}
use jormungandr.Blockchain.Apply.{enabled}
use jormungandr.Blockchain.Startup.{handle_bootstrap_block}
use jormungandr.Blockchain.Tip.{Queues, TipUpdater, process_new_ref}
use jormungandr.Blockchain.Tip.Progress.{IsProgress, HasTip, process_new_ref-IsProgress}

module _ (c : Consensus) where
  pub data BootstrapError : Type 0 where
    blockchain_error : Error c → BootstrapError
    pull_stream_failed block_deserialize interrupted : BootstrapError

module _ (c : Consensus) (bs : BlockStore c.Raw) (lru : LruCache (Ref c))
    (q : Queues c.Header) where
  abbrev pub U : Type 0 → Type 0
  U A = M (TipUpdater c bs lru q) (BootstrapError c) A

module _ {c : Consensus} {bs : BlockStore c.Raw} {lru : LruCache (Ref c)}
    {q : Queues c.Header} where
  -- `handle_bootstrap_block`, whose error ends the loop, not the function.
  unfoldable pub handle : Block c → U c bs lru q (Outcome (Error c) (Ref c))
  handle block = attempt (λ u.
      let (b, r) = handle_bootstrap_block block enabled u.blockchain in
      (record u { blockchain = b }, r))

  -- The last block that was handled is offered as the tip.
  unfoldable pub offer : ℕ → Option (Ref c) → U c bs lru q (Unit {0})
  offer now none u = (u, ok tt)
  offer now (some bootstrap_tip) u =
      let (u', r) = process_new_ref now bootstrap_tip u in (u', mapped (λ a. a) blockchain_error r)

  unfoldable pub go_on :
      ℕ
      → Option (Ref c)
      → (Ref c → U c bs lru q (Option (Ref c)))
      → Outcome (Error c) (Ref c)
      → U c bs lru q (Option (Ref c))
  go_on now maybe_parent_tip more (ok parent_tip) = more parent_tip
  go_on now maybe_parent_tip more (err e) = do
    offer now maybe_parent_tip
    throw (blockchain_error e)
  go_on now maybe_parent_tip more panic = crash

  unfoldable pub bootstrap_loop :
      ℕ → List (Block c ⊎ BootstrapError c) → Option (Ref c) → U c bs lru q (Option (Ref c))
  bootstrap_loop now [] maybe_parent_tip = return maybe_parent_tip
  bootstrap_loop now (inr e ∷ stream) maybe_parent_tip = do offer now maybe_parent_tip; throw e
  bootstrap_loop now (inl block ∷ stream) maybe_parent_tip = do
    block0 ← reads (λ u. u.blockchain.block0)
    if c.hash block.header == block0 then bootstrap_loop now stream maybe_parent_tip else (do
      res ← handle block
      go_on now maybe_parent_tip (λ r. bootstrap_loop now stream (some r)) res)

  unfoldable pub bootstrap_from_stream :
      ℕ → List (Block c ⊎ BootstrapError c) → Bool → U c bs lru q (Option (Ref c))
  bootstrap_from_stream now stream cancelled = do
    maybe_parent_tip ← bootstrap_loop now stream none
    offer now maybe_parent_tip
    if cancelled then throw interrupted else return maybe_parent_tip
