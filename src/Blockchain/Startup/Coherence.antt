-- ===== src/Blockchain/Startup/Coherence.antt =====
-- The start of the blockchain, a block of the bootstrap, the branches and the collection: the cache
-- of references stays coherent, and each reference in it able to pay the rewards of its epoch.
use jormungandr.Prelude.{
  ℕ, suc, ◌≤◌, arith, Bool, ◌≡◌, inl, refl, sym, ap, subst, ◌∙◌, true, none, some, List, [], ◌∷◌,
  ◌⊎◌,
}
use jormungandr.Outcome.Keeps.{
  Post, Keeps, Keeps-mono, return-Keeps, throw-Keeps, lifted-Keeps, bind-Keeps, then-Keeps,
  of_sum-Post, if-Keeps,
}
use jormungandr.Lru.{LruCache}
use jormungandr.Blockchain.Types.{Consensus, Block, BackendError, BlockStore}
use jormungandr.Blockchain.Storage.Safety.{
  asks-Post, puts-Post, read_item-Post, stream_from_to-Post,
}
use jormungandr.Blockchain.Storage
use jormungandr.Blockchain.Reference.{Ref, ref_header}
use jormungandr.Blockchain.Chain.{
  Blockchain, B, PreCheckedHeader, already_present, header_with_cache, missing_parent, block0_error,
  block0_initial_ledger_error, storage_error, intercom_error, missing_parent_block, no_tag,
  main_branch_tag, block0_already_in_storage, block0_not_already_in_storage,
}
use jormungandr.Blockchain.Chain.Coherence.{
  IsSound, IsBelow, IsLinked, IsFound, IsChecked, IsHeld, stored_as-Keeps, pre_check_header-Keeps,
}
use jormungandr.Blockchain.Apply.{CheckHeaderProof, skip_from_storage, cached_ref}
use jormungandr.Blockchain.Apply.Coherence.{
  IsPaidBy, IsSteady, IsPayable, IsFunded, IsMadeOf, made-IsPayable,
  create_and_store_reference-Keeps,
}
use jormungandr.Blockchain.Apply.Extension.{
  IsReady, IsAppliedTo, post_check_header-Keeps, apply_and_store_block-Keeps,
}
use jormungandr.Blockchain.Startup.{
  StreamReporter, new_reporter, append_block, apply_block0, install_block0, load_from_block0,
  apply_pre_checked, handle_bootstrap_block, load_blocks, load_from_head, load_from_storage,
}

module _ {c : Consensus} where
  -- A sound reference of a header.
  abbrev pub IsRefOf : c.Header → Ref c → Type 0
  IsRefOf header r = (ref_header r ≡ header) × IsSound r

-- The clock was not behind the last report when it was last read, nor will it be at its next reading.
abbrev IsTimed : (ℕ → ℕ) → StreamReporter → Type 0
IsTimed clock reporter = reporter.last_reported ≤ clock reporter.readings

append_block-Post :
    (E : Type 0) (clock : ℕ → ℕ) (reporter : StreamReporter)
    → ((k : ℕ) → clock k ≤ clock (suc k))
    → IsTimed clock reporter
    → Post {E = E} ⊥ (IsTimed clock) (append_block clock reporter)
unfolding append_block
append_block-Post E clock reporter onwards timed =
    let next = onwards (suc reporter.readings) in ground arith

module _ {c : Consensus} {bs : BlockStore c.Raw} {lru : LruCache (Ref c)} where
  -- Every cached reference is sound, stands at its own hash and can pay the rewards of its epoch, as
  -- they are reported.
  abbrev pub IsPaidUp : Bool → Blockchain c bs lru → Type 0
  IsPaidUp all s = IsHeld (IsFunded all) all s

module _ {c : Consensus} where
  -- The ledger of block 0 can pay the rewards of its epoch.
  abbrev pub IsEndowed : Bool → Block c → c.Ledger → Type 0
  IsEndowed all block0 l =
      IsPaidBy c all l
        (c.stake_distribution (c.new_leadership (c.block_date block0.header).epoch l))

module _ {c : Consensus} {bs : BlockStore c.Raw} {lru : LruCache (Ref c)} {all : Bool} where
  apply_pre_checked-Keeps :
      (block : Block c) (proof : CheckHeaderProof) (found : PreCheckedHeader c)
      → IsSteady c all
      → IsChecked (IsFunded all) block.header true found
      → Keeps
          (IsPaidUp all)
          ⊥
          (λ r. IsRefOf block.header r × IsPayable all r)
          (apply_pre_checked {bs = bs} {lru = lru} block proof found)
  unfolding apply_pre_checked IsChecked IsFound IsReady IsAppliedTo
  apply_pre_checked-Keeps block proof (already_present h (some r)) n f = absurd (let no = f.1 in cc)
  apply_pre_checked-Keeps block proof (already_present h none) n f = elim f [ ]
  apply_pre_checked-Keeps block proof (missing_parent h) n f =
      throw-Keeps (missing_parent_block (c.block_parent_hash h))
  apply_pre_checked-Keeps block proof (header_with_cache h parent) n (same, funded, linked) =
      bind-Keeps
        (post_check_header-Keeps h parent proof n
          (subst (λ x. IsLinked c x (ref_header parent)) (sym same) linked) funded)
        (λ checked ready.
          bind-Keeps
            (apply_and_store_block-Keeps checked block (ap c.hash (sym same ∙ sym ready.0))
              (subst (λ x. IsBelow x checked.previous_epoch_state) (sym ready.0) ready.1)
              (λ r paid. paid))
            (λ a applied.
              return-Keeps (cached_ref a) ((applied.0.0 ∙ ready.0 ∙ same, applied.0.2), applied.1)))

  pub handle_bootstrap_block-Keeps :
      (block : Block c) (proof : CheckHeaderProof)
      → IsSteady c all
      → Keeps
          (IsPaidUp all)
          ⊥
          (λ r. IsRefOf block.header r × IsPayable all r)
          (handle_bootstrap_block {bs = bs} {lru = lru} block proof)
  unfolding handle_bootstrap_block
  handle_bootstrap_block-Keeps block proof n =
      bind-Keeps (pre_check_header-Keeps block.header true (λ r funded. funded.0))
        (λ found. apply_pre_checked-Keeps block proof found n)

  pub apply_block0-Keeps :
      (block0 : Block c)
      → ((l : c.Ledger)
          → c.new_ledger (c.hash block0.header) block0.contents ≡ inl l
          → IsEndowed all block0 l)
      → Keeps
          (IsPaidUp all)
          ⊥
          (λ r. IsRefOf block0.header r × IsPayable all r)
          (apply_block0 {bs = bs} {lru = lru} block0)
  unfolding apply_block0 IsBelow IsMadeOf
  apply_block0-Keeps block0 endowed =
      bind-Keeps (lifted-Keeps _ (of_sum-Post ⊥ block0_error _)) (λ t _.
        bind-Keeps (lifted-Keeps _ (of_sum-Post ⊥ block0_initial_ledger_error _)) (λ l e.
          let funded = λ (r : Ref c).
            made-IsPayable all (c.hash block0.header) block0.header l
              (c.new_leadership (c.block_date block0.header).epoch l) r (endowed l e) in
          Keeps-mono (λ r made. ((made.1, made.4), (funded r made).1))
            (create_and_store_reference-Keeps _ block0.header l t _ none none refl tt funded)))

  install_block0-Keeps :
      (block0 : Block c)
      → ((l : c.Ledger)
          → c.new_ledger (c.hash block0.header) block0.contents ≡ inl l
          → IsEndowed all block0 l)
      → Keeps
          (IsPaidUp all)
          ⊥
          (λ r. IsRefOf block0.header r × IsPayable all r)
          (install_block0 {bs = bs} {lru = lru} block0)
  unfolding install_block0 Storage.put_block Storage.put_tag
  install_block0-Keeps block0 endowed = bind-Keeps (apply_block0-Keeps block0 endowed) (λ r of.
      then-Keeps (stored_as-Keeps storage_error _ (puts-Post c bs _))
        (then-Keeps (stored_as-Keeps storage_error _ (puts-Post c bs _)) (return-Keeps r of)))

  pub load_from_block0-Keeps :
      (block0 : Block c)
      → ((l : c.Ledger)
          → c.new_ledger (c.hash block0.header) block0.contents ≡ inl l
          → IsEndowed all block0 l)
      → Keeps
          (IsPaidUp all)
          ⊥
          (λ r. IsRefOf block0.header r × IsPayable all r)
          (load_from_block0 {bs = bs} {lru = lru} block0)
  unfolding load_from_block0 Storage.block_exists
  load_from_block0-Keeps block0 endowed =
      bind-Keeps
        (stored_as-Keeps storage_error _ (asks-Post c bs (bs.block_exists (c.hash block0.header))))
        (λ exists _.
          if-Keeps exists (throw-Keeps block0_already_in_storage)
            (install_block0-Keeps block0 endowed))

  module _ (clock : ℕ → ℕ) (onwards : (k : ℕ) → clock k ≤ clock (suc k)) (n : IsSteady c all) where
    load_blocks-Keeps :
        (items : List (c.Raw ⊎ BackendError)) (reporter : StreamReporter) (r : Ref c)
        → IsTimed clock reporter
        → IsFunded all r
        → Keeps
            (IsPaidUp all)
            ⊥
            (IsFunded all)
            (load_blocks {bs = bs} {lru = lru} clock items reporter r)
    unfolding load_blocks
    load_blocks-Keeps [] reporter r timed funded = return-Keeps r funded
    load_blocks-Keeps (item ∷ items) reporter r timed funded =
        bind-Keeps (stored_as-Keeps intercom_error _ (read_item-Post c bs item)) (λ block _.
          bind-Keeps (lifted-Keeps _ (append_block-Post _ clock reporter onwards timed))
            (λ reporter' timed'.
              bind-Keeps (handle_bootstrap_block-Keeps block skip_from_storage n)
                (λ r' of. load_blocks-Keeps items reporter' r' timed' (of.0.1, of.1))))

    load_from_head-Keeps :
        (block0 : Block c)
        → ((l : c.Ledger)
            → c.new_ledger (c.hash block0.header) block0.contents ≡ inl l
            → IsEndowed all block0 l)
        → Keeps (IsPaidUp all) ⊥ (IsFunded all) (load_from_head {bs = bs} {lru = lru} clock block0)
    unfolding load_from_head Storage.get_tag new_reporter
    load_from_head-Keeps block0 endowed =
        bind-Keeps (stored_as-Keeps storage_error _ (asks-Post c bs _)) (λ opt _.
          elim opt
            as (λ o.
              Keeps (IsPaidUp all) ⊥ (IsFunded all)
                (elim o as (λ _. B c bs lru (Ref c)) [ none ↦ _ | some head_hash ↦ _ ])) [
                  | none ↦ throw-Keeps (no_tag (main_branch_tag c))
                  | some head_hash ↦ bind-Keeps (apply_block0-Keeps block0 endowed) (λ r of.
                      bind-Keeps
                        (stored_as-Keeps storage_error _ (stream_from_to-Post c bs _ head_hash))
                        (λ items _.
                          load_blocks-Keeps items (new_reporter clock) r (onwards 0)
                            (of.0.1, of.1)))
                ])

    load_from_storage-Keeps :
        (block0 : Block c)
        → ((l : c.Ledger)
            → c.new_ledger (c.hash block0.header) block0.contents ≡ inl l
            → IsEndowed all block0 l)
        → Keeps
            (IsPaidUp all)
            ⊥
            (IsFunded all)
            (load_from_storage {bs = bs} {lru = lru} clock block0)
    unfolding load_from_storage Storage.block_exists
    load_from_storage-Keeps block0 endowed =
        bind-Keeps
          (stored_as-Keeps storage_error _
            (asks-Post c bs (bs.block_exists (c.hash block0.header))))
          (λ exists _.
            if-Keeps exists (load_from_head-Keeps block0 endowed)
              (throw-Keeps block0_not_already_in_storage))

module _ {c : Consensus} {bs : BlockStore c.Raw} {lru : LruCache (Ref c)} where
  -- Where protocol changes and the dump of the rewards do not fail, and the changes leave a ledger able
  -- to pay rewards that it could pay, a block of the bootstrap is handled without a panic on a cache
  -- whose references are sound and can pay the rewards of their epochs, and the cache stays so. The
  -- reference in the answer has the block's header, stands at its hash, its previous epochs lie below
  -- it, and it can pay the rewards.
  pub handle_bootstrap_block-IsRefOf :
      (block : Block c) (proof : CheckHeaderProof) (all : Bool) (s : Blockchain c bs lru)
      → IsSteady c all
      → IsPaidUp all s
      → IsPaidUp all (handle_bootstrap_block block proof s).0
        × Post ⊥
            (λ r. IsRefOf block.header r × IsPayable all r)
            (handle_bootstrap_block block proof s).1
  handle_bootstrap_block-IsRefOf block proof all s n i =
      (handle_bootstrap_block-Keeps block proof n).at s i

  -- Where protocol changes and the dump of the rewards do not fail, the changes leave a ledger able to
  -- pay rewards that it could pay, the ledger of block 0 can pay those of its epoch, and the clock does
  -- not go back, the start from the storage ends without a panic on a cache whose references are sound
  -- and can pay the rewards of their epochs, whatever blocks the storage gives. The cache stays so, and
  -- unless there is an error so is the last reference.
  pub load_from_storage-IsFunded :
      (clock : ℕ → ℕ) (block0 : Block c) (all : Bool) (s : Blockchain c bs lru)
      → ((k : ℕ) → clock k ≤ clock (suc k))
      → IsSteady c all
      → ((l : c.Ledger)
          → c.new_ledger (c.hash block0.header) block0.contents ≡ inl l
          → IsEndowed all block0 l)
      → IsPaidUp all s
      → IsPaidUp all (load_from_storage clock block0 s).0
        × Post ⊥ (IsFunded all) (load_from_storage clock block0 s).1
  load_from_storage-IsFunded clock block0 all s onwards n endowed i =
      (load_from_storage-Keeps clock onwards n block0 endowed).at s i
