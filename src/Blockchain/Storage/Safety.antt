-- ===== src/Blockchain/Storage/Safety.antt =====
-- The operations of the storage return a result or an error, and do not panic.
use jormungandr.Prelude.{
  ℕ, Option, none, some, List, [], ◌∷◌, ◌⊎◌, inl, inr, Sum-cases, Option-cases,
}
use jormungandr.Outcome.{M, throw}
use jormungandr.Outcome.Keeps.{
  Post, Keeps, return-Keeps, throw-Keeps, bind-Keeps, then-Keeps, if-Keeps,
}
use jormungandr.Blockchain.Types.{Consensus, BackendError, BlockStore}
use jormungandr.Blockchain.Storage.{
  StorageError, cannot_iterate, asks, puts, read_block, read_item, stream_from_to, get_branches,
  prune_below, gc,
}

module _ (c : Consensus) (bs : BlockStore c.Raw) where
  -- Neither a panic nor anything else is asked of the store.
  abbrev Returns : {A : Type 0} → M bs.Store StorageError A → Type 0
  Returns m = Keeps (λ _. Unit {0}) ⊥ (λ _. Unit {0}) m

  pub asks-Post :
      {A : Type 0} (f : bs.Store → A ⊎ BackendError) (st : bs.Store)
      → Post ⊥ (λ _. Unit {0}) (asks c bs f st).1
  unfolding asks
  asks-Post f st = elim (Sum-cases (f st)) [
    | inl (a, e) ↦ rw (e, Post) tt
    | inr (x, e) ↦ rw (e, Post) tt
  ]

  pub puts-Post :
      (f : bs.Store → bs.Store ⊎ BackendError) (st : bs.Store)
      → Post ⊥ (λ _. Unit {0}) (puts c bs f st).1
  unfolding puts
  puts-Post f st = elim (Sum-cases (f st)) [
    | inl (a, e) ↦ rw (e, Post) tt
    | inr (x, e) ↦ rw (e, Post) tt
  ]

  pub read_item-Post :
      (item : c.Raw ⊎ BackendError) (st : bs.Store)
      → Post ⊥ (λ _. Unit {0}) (read_item c bs item st).1
  unfolding read_item read_block
  read_item-Post (inr e) st = tt
  read_item-Post (inl raw) st = elim (Option-cases (c.deserialize raw)) [
    | inl e ↦ rw (e, Post) tt
    | inr (x, e) ↦ rw (e, Post) tt
  ]

  asks-Keeps : {A : Type 0} (f : bs.Store → A ⊎ BackendError) → Returns (asks c bs f)
  asks-Keeps f = record { at = λ st _. (tt, asks-Post f st) }

  puts-Keeps : (f : bs.Store → bs.Store ⊎ BackendError) → Returns (puts c bs f)
  puts-Keeps f = record { at = λ st _. (tt, puts-Post f st) }

  iterate-Keeps :
      (to : ℕ) (distance : Option ℕ)
      → Returns (elim distance as (λ _. M bs.Store StorageError (List (c.Raw ⊎ BackendError))) [
        | none ↦ throw cannot_iterate
        | some d ↦ asks c bs (bs.iter to d)
      ])
  iterate-Keeps to none = throw-Keeps cannot_iterate
  iterate-Keeps to (some d) = asks-Keeps (bs.iter to d)

  pub stream_from_to-Post :
      (from to : ℕ) (st : bs.Store) → Post ⊥ (λ _. Unit {0}) (stream_from_to c bs from to st).1
  unfolding stream_from_to
  stream_from_to-Post from to st =
      ((bind-Keeps (asks-Keeps (bs.is_ancestor from to)) (λ d _. iterate-Keeps to d)).at st tt).1

  prune_below-Keeps : (threshold : ℕ) (ids : List ℕ) → Returns (prune_below c bs threshold ids)
  unfolding prune_below
  prune_below-Keeps threshold [] = return-Keeps tt tt
  prune_below-Keeps threshold (id ∷ ids) = bind-Keeps (asks-Keeps (bs.get_block_info id)) (λ info _.
      then-Keeps (if-Keeps _ (return-Keeps tt tt) (puts-Keeps (bs.prune_branch id)))
        (prune_below-Keeps threshold ids))

  pub gc-Post : (depth tip : ℕ) (st : bs.Store) → Post ⊥ (λ _. Unit {0}) (gc c bs depth tip st).1
  unfolding gc get_branches
  gc-Post depth tip st =
      ((bind-Keeps (asks-Keeps (bs.get_block_info tip)) (λ info _. if-Keeps _ (return-Keeps tt tt) (
          bind-Keeps (asks-Keeps bs.get_tips_ids) (λ ids _. then-Keeps (prune_below-Keeps _ ids) (
            bind-Keeps (asks-Keeps (bs.get_nth_ancestor tip depth))
              (λ to _. puts-Keeps (bs.flush_to_permanent_store to.id 256))))))).at
        st tt).1
