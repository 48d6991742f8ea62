-- ===== src/Blockchain/Bootstrap/Length.antt =====
-- The bootstrap does not shorten the chain.
use jormungandr.Prelude.{
  ℕ, ◌≤◌, sym, subst, arith, Bool, Option, none, some, List, [], ◌∷◌, ◌⊎◌, inl, inr,
}
use jormungandr.Outcome.{Outcome, ok, err, panic, attempt}
use jormungandr.Outcome.Keeps.{
  Post-any, Stays, return-Keeps, throw-Keeps, crash-Keeps, reads-Keeps, bind-Keeps, then-Keeps,
  if-Keeps,
}
use jormungandr.Lru.{LruCache}
use jormungandr.Blockchain.Types.{Consensus, Block, BlockStore}
use jormungandr.Blockchain.Reference.{Ref, ref_chain_length}
use jormungandr.Blockchain.Chain.{Error}
use jormungandr.Blockchain.Tip.{Queues, TipUpdater}
use jormungandr.Blockchain.Tip.Progress.{IsProgress, process_new_ref-IsProgress}
use jormungandr.Blockchain.Bootstrap.{
  BootstrapError, U, interrupted, handle, offer, go_on, bootstrap_loop, bootstrap_from_stream,
}

module _ {c : Consensus} {bs : BlockStore c.Raw} {lru : LruCache (Ref c)}
    {q : Queues c.Header} where
  -- A tip of at least the length.
  abbrev pub IsLong : ℕ → TipUpdater c bs lru q → Type 0
  IsLong n u = n ≤ ref_chain_length u.tip

  longer :
      (n now : ℕ) (r candidate : Ref c) (p : TipUpdater c bs lru q × Outcome (Error c) (Unit {0}))
      → n ≤ ref_chain_length r
      → IsProgress now r candidate p
      → IsLong n p.0
  unfolding IsProgress
  longer n now r candidate (u, ok _) h (inl (tip, _)) =
      subst (λ x. n ≤ ref_chain_length x) (sym tip) h
  longer n now r candidate (u, ok _) h (inr (tip, _, more, _)) =
      subst (λ x. n ≤ ref_chain_length x) (sym tip) (omega arith)
  longer n now r candidate (u, err e) h tip = subst (λ x. n ≤ ref_chain_length x) (sym tip) h
  longer n now r candidate (u, panic) h tip = subst (λ x. n ≤ ref_chain_length x) (sym tip) h

  offer-Stays :
      (n now : ℕ) (r : Option (Ref c))
      → Stays (IsLong n) (offer {bs = bs} {lru = lru} {q = q} now r)
  unfolding offer
  offer-Stays n now none = return-Keeps tt tt
  offer-Stays n now (some r) = record {
    at = λ u i. (longer n now u.tip r _ i (process_new_ref-IsProgress now r u), Post-any _);
  }

  handle-Keeps :
      (n : ℕ) (block : Block c) → Stays (IsLong n) (handle {bs = bs} {lru = lru} {q = q} block)
  unfolding handle attempt
  handle-Keeps n block = record { at = λ u i. (i, Post-any _) }

  go_on-Stays :
      (n now : ℕ) (tip : Option (Ref c)) (more : Ref c → U c bs lru q (Option (Ref c)))
      (res : Outcome (Error c) (Ref c))
      → ((r : Ref c) → Stays (IsLong n) (more r))
      → Stays (IsLong n) (go_on now tip more res)
  unfolding go_on
  go_on-Stays n now tip more (ok r) h = h r
  go_on-Stays n now tip more (err e) h = then-Keeps (offer-Stays n now tip) (throw-Keeps _)
  go_on-Stays n now tip more panic h = crash-Keeps tt

  bootstrap_loop-Stays :
      (n now : ℕ) (stream : List (Block c ⊎ BootstrapError c)) (tip : Option (Ref c))
      → Stays (IsLong n) (bootstrap_loop {bs = bs} {lru = lru} {q = q} now stream tip)
  unfolding bootstrap_loop
  bootstrap_loop-Stays n now [] tip = return-Keeps tip tt
  bootstrap_loop-Stays n now (inr e ∷ stream) tip =
      then-Keeps (offer-Stays n now tip) (throw-Keeps e)
  bootstrap_loop-Stays n now (inl block ∷ stream) tip =
      bind-Keeps {Q = λ _. Unit {0}} (reads-Keeps _ (λ _ _. tt)) (λ block0 _.
        if-Keeps _ (bootstrap_loop-Stays n now stream tip) (
          bind-Keeps (handle-Keeps n block) (λ res _.
            go_on-Stays n now tip _ res (λ r. bootstrap_loop-Stays n now stream (some r)))))

  -- Whatever a peer streams, and however the bootstrap ends, the tip is no shorter than before.
  pub bootstrap_from_stream-IsLong :
      (now : ℕ) (stream : List (Block c ⊎ BootstrapError c)) (cancelled : Bool)
      (u : TipUpdater c bs lru q)
      → ref_chain_length u.tip
        ≤ ref_chain_length (bootstrap_from_stream now stream cancelled u).0.tip
  unfolding bootstrap_from_stream
  bootstrap_from_stream-IsLong now stream cancelled u =
      ((bind-Keeps (bootstrap_loop-Stays _ now stream none) (λ tip _.
          then-Keeps (offer-Stays _ now tip)
            (if-Keeps cancelled (throw-Keeps interrupted) (return-Keeps tip tt)))).at
        u (omega arith)).0
