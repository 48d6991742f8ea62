-- ===== src/Blockchain/Apply/Extension.antt =====
-- A block that is applied on its parent: the reference that results, and the cache.
use jormungandr.Prelude.{
  ◌≡◌, refl, sym, ap, ◌∙◌, Bool, true, inl, inr, ◌==◌, Sum-cases, ==_refl, Option-cases,
}
use jormungandr.Outcome.{Outcome, ok, err, panic}
use jormungandr.Outcome.Keeps.{
  Post, Post-mono, Keeps, Keeps-mono, return-Keeps, throw-Keeps, lifted-Keeps, reads-Keeps,
  bind-Keeps, then-Keeps, after-Keeps,
}
use jormungandr.Lru.{LruCache}
use jormungandr.Blockchain.Types.{Consensus, Block, BlockStore}
use jormungandr.Blockchain.Storage.{StorageError, block_already_present, puts}
use jormungandr.Blockchain.Storage
use jormungandr.Blockchain.Reference.{Ref, ref_header, ref_ledger}
use jormungandr.Blockchain.Chain.{Blockchain, storage_error}
use jormungandr.Blockchain.Chain.Coherence.{
  IsSound, IsBelow, IsLinked, IsHeld, IsCoherent, coherent_held,
}
use jormungandr.Blockchain.Apply.{
  PostCheckedHeader, CheckHeaderProof, enabled, skip_from_storage, new, existing, cached_ref,
  with_leadership, check_proof, dry_run, check_rewards, post_check_header, apply_block_dry_run,
  apply_block_check_rewards, apply_block_finalize, write_block, finalize_written,
  store_and_apply_block_finalize, apply_and_store_block,
}
use jormungandr.Blockchain.Apply.Coherence.{
  IsPaidBy, IsSteady, IsPayable, IsFunded, IsMadeOf, made-IsPayable,
  new_epoch_leadership_from-IsBelow, create_and_store_reference-Keeps,
}

module _ {c : Consensus} where
  -- A checked header whose previous epoch lies below it.
  unfoldable pub IsReady : c.Header → PostCheckedHeader c → Type 0
  IsReady header h = (h.header ≡ header) × IsBelow header h.previous_epoch_state

  -- The reference of a block: its header, and the ledger of its parent with the block applied.
  unfoldable pub IsAppliedTo : PostCheckedHeader c → Block c → Ref c → Type 0
  IsAppliedTo h block r =
      (ref_header r ≡ h.header)
      × (c.apply_block h.parent_ledger_state block.contents h.header ≡ inl (ref_ledger r))
      × IsSound r

  dry_run-Post :
      (h : PostCheckedHeader c) (block : Block c)
      → c.hash block.header ≡ c.hash h.header
      → Post ⊥
          (λ l. c.apply_block h.parent_ledger_state block.contents h.header ≡ inl l)
          (dry_run h block)
  unfolding dry_run
  dry_run-Post h block e =
      let same : (c.hash block.header == c.hash h.header) ≡ true =
        rw e (==_refl (c.hash h.header)) in
      elim (Sum-cases (c.apply_block h.parent_ledger_state block.contents h.header)) [
        | inl (l, e') ↦ rw (same, e', Post) e'
        | inr (x, e') ↦ rw (same, e', Post) tt
      ]

  check_rewards-Post :
      (h : PostCheckedHeader c) (ledger : c.Ledger) (all : Bool)
      → Post ⊥
          (λ _. IsPaidBy c all ledger (c.stake_distribution h.epoch_leadership_schedule))
          (check_rewards h ledger all)
  unfolding check_rewards
  check_rewards-Post h ledger all =
      elim (Option-cases (c.stake_distribution h.epoch_leadership_schedule)) [
        | inl e ↦ rw (e, Post) (rw e tt)
        | inr (d, e) ↦ elim (Sum-cases (c.distribute_rewards ledger d all)) [
          | inl (x, e') ↦ rw (e, e', Post) (rw e (x, e'))
          | inr (x, e') ↦ rw (e, e', Post) tt
        ]
      ]

module _ (c : Consensus) where
  check_proof-Post :
      (proof : CheckHeaderProof) (l : c.Leadership) (header : c.Header)
      → Post ⊥ (λ _. Unit {0}) (check_proof c proof l header)
  unfolding check_proof
  check_proof-Post skip_from_storage l header = tt
  check_proof-Post enabled l header = elim (Option-cases (c.verify l header)) [
    | inl e ↦ rw (e, Post) tt
    | inr (x, e) ↦ rw (e, Post) tt
  ]

module _ {c : Consensus} {bs : BlockStore c.Raw} {lru : LruCache (Ref c)} {S : Ref c → Type 0}
    {all : Bool} where
  pub post_check_header-Keeps :
      (header : c.Header) (parent : Ref c) (proof : CheckHeaderProof)
      → IsSteady c all
      → IsLinked c header (ref_header parent)
      → IsFunded all parent
      → Keeps
          (IsHeld S all)
          ⊥
          (IsReady header)
          (post_check_header {bs = bs} {lru = lru} header parent proof)
  unfolding post_check_header IsReady with_leadership
  post_check_header-Keeps header parent proof n linked funded =
      bind-Keeps {Q = λ b. b ≡ all} (reads-Keeps _ (λ _ i. i.reports)) (λ b same.
        bind-Keeps
          (lifted-Keeps _
            (rw same (new_epoch_leadership_from-IsBelow header parent all n linked funded)))
          (λ l below.
            then-Keeps (lifted-Keeps _ (check_proof-Post c proof l.leadership header))
              (return-Keeps (with_leadership header l) (refl, below))))

  apply_block_finalize-Keeps :
      (h : PostCheckedHeader c) (l : c.Ledger)
      → IsBelow h.header h.previous_epoch_state
      → ((r : Ref c) → IsMadeOf (c.hash h.header) h.header l h.epoch_leadership_schedule r → S r)
      → Keeps
          (IsHeld S all)
          ⊥
          (IsMadeOf (c.hash h.header) h.header l h.epoch_leadership_schedule)
          (apply_block_finalize {bs = bs} {lru = lru} h l)
  unfolding apply_block_finalize
  apply_block_finalize-Keeps h l below fits =
      create_and_store_reference-Keeps _ _ _ _ _ _ _ refl below fits

  write_block-Keeps :
      (block : Block c)
      → Keeps
          (IsHeld S all)
          ⊥
          (λ r. Post ⊥ (λ _. Unit {0}) r)
          (write_block {bs = bs} {lru = lru} block)
  unfolding write_block Storage.put_block puts
  write_block-Keeps block = record {
    at = λ s i. (
      record { reports = i.reports; keyed = i.keyed },
      elim (Sum-cases (
          bs.put_block (c.serialize block.header block.contents) (Storage.block_info c bs block)
            s.storage)) [ inl (x, e) ↦ rw (e, Post) tt | inr (x, e) ↦ rw (e, Post) tt ],
    );
  }

  finalize_written-Keeps :
      (h : PostCheckedHeader c) (l : c.Ledger) (res : Outcome StorageError (Unit {0}))
      → IsBelow h.header h.previous_epoch_state
      → ((r : Ref c) → IsMadeOf (c.hash h.header) h.header l h.epoch_leadership_schedule r → S r)
      → Post ⊥ (λ _. Unit {0}) res
      → Keeps
          (IsHeld S all)
          ⊥
          (λ a. IsMadeOf (c.hash h.header) h.header l h.epoch_leadership_schedule (cached_ref a))
          (finalize_written {bs = bs} {lru = lru} h l res)
  unfolding finalize_written cached_ref
  finalize_written-Keeps h l (ok _) below fits _ =
      bind-Keeps (apply_block_finalize-Keeps h l below fits) (λ r made. return-Keeps (new r) made)
  finalize_written-Keeps h l (err block_already_present) below fits _ =
      bind-Keeps (apply_block_finalize-Keeps h l below fits)
        (λ r made. return-Keeps (existing r) made)
  finalize_written-Keeps h l (err e) below fits _ = throw-Keeps (storage_error e)
  finalize_written-Keeps h l panic below fits p = elim p [ ]

  store_and_apply_block_finalize-Keeps :
      (h : PostCheckedHeader c) (block : Block c) (l : c.Ledger)
      → IsBelow h.header h.previous_epoch_state
      → ((r : Ref c) → IsMadeOf (c.hash h.header) h.header l h.epoch_leadership_schedule r → S r)
      → Keeps
          (IsHeld S all)
          ⊥
          (λ a. IsMadeOf (c.hash h.header) h.header l h.epoch_leadership_schedule (cached_ref a))
          (store_and_apply_block_finalize {bs = bs} {lru = lru} h block l)
  unfolding store_and_apply_block_finalize
  store_and_apply_block_finalize-Keeps h block l below fits =
      bind-Keeps (write_block-Keeps block)
        (λ res written. finalize_written-Keeps h l res below fits written)

  apply_block_check_rewards-Keeps :
      (h : PostCheckedHeader c) (l : c.Ledger)
      → Keeps
          (IsHeld S all)
          ⊥
          (λ _. IsPaidBy c all l (c.stake_distribution h.epoch_leadership_schedule))
          (apply_block_check_rewards {bs = bs} {lru = lru} h l)
  unfolding apply_block_check_rewards
  apply_block_check_rewards-Keeps h l =
      bind-Keeps {Q = λ b. b ≡ all} (reads-Keeps _ (λ _ i. i.reports))
        (λ b same. lifted-Keeps _ (rw same (check_rewards-Post h l all)))

  pub apply_and_store_block-Keeps :
      (h : PostCheckedHeader c) (block : Block c)
      → c.hash block.header ≡ c.hash h.header
      → IsBelow h.header h.previous_epoch_state
      → ((r : Ref c) → IsFunded all r → S r)
      → Keeps
          (IsHeld S all)
          ⊥
          (λ a. IsAppliedTo h block (cached_ref a) × IsPayable all (cached_ref a))
          (apply_and_store_block {bs = bs} {lru = lru} h block)
  unfolding apply_and_store_block apply_block_dry_run IsAppliedTo IsMadeOf
  apply_and_store_block-Keeps h block e below fits =
      bind-Keeps (lifted-Keeps _ (dry_run-Post h block e)) (λ l applied.
        after-Keeps (apply_block_check_rewards-Keeps h l) (λ _ paid.
          let funded = λ (r : Ref c).
            made-IsPayable all (c.hash h.header) h.header l h.epoch_leadership_schedule r paid in
          Keeps-mono
            (λ a made.
              ((made.1, applied ∙ ap inl (sym made.2), made.4), (funded (cached_ref a) made).1))
            (store_and_apply_block_finalize-Keeps h block l below
              (λ r made. fits r (funded r made)))))

module _ {c : Consensus} {bs : BlockStore c.Raw} {lru : LruCache (Ref c)} where
  -- A block of the checked header, whose previous epoch lies below it, is applied without a panic on a
  -- coherent cache, which stays coherent. The reference in the answer has that header, and its ledger
  -- is the parent's with the block's contents applied.
  pub apply_and_store_block-IsAppliedTo :
      (h : PostCheckedHeader c) (block : Block c) (s : Blockchain c bs lru)
      → c.hash block.header ≡ c.hash h.header
      → IsBelow h.header h.previous_epoch_state
      → IsCoherent s
      → IsCoherent (apply_and_store_block h block s).0
        × Post ⊥ (λ a. IsAppliedTo h block (cached_ref a)) (apply_and_store_block h block s).1
  apply_and_store_block-IsAppliedTo h block s e below i =
      let (held, q) =
        (apply_and_store_block-Keeps h block e below (λ r funded. funded.0)).at s
          (coherent_held s i) in
      (held.keyed, Post-mono ⊥ _ _ (apply_and_store_block h block s).1 (λ a both. both.0) q)
