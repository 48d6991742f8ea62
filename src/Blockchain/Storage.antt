-- ===== src/Blockchain/Storage.antt =====
-- jormungandr/src/blockchain/storage.rs: the block store behind the node's blocks and errors. A hash
-- is read from its bytes without an error, and a block is written without one.
pub mod Safety
use Prim.Native.String.{String}
use jormungandr.Prelude.{
  ℕ, ◌+◌, ◌-◌, ◌^◌, Bool, true, false, Option, none, some, List, [], ◌∷◌, ◌⊎◌, inl, inr, ltb, leb,
  is_some, if◌then◌else◌,
}
use jormungandr.Outcome.{Outcome, ok, err, panic, M, ◌>>=◌, ◌>>◌, continue, return, throw, crash}
use jormungandr.Blockchain.Types.{Consensus, Block, BackendError, BlockInfo, BlockStore}
use jormungandr.Blockchain.Types

pub data StorageError : Type 0 where
  block_not_found block_already_present missing_parent cannot_iterate : StorageError
  deserialize_failed : StorageError
  backend_error : BackendError → StorageError

-- `From<chain_storage::Error>`.
unfoldable pub from_backend : BackendError → StorageError
from_backend BackendError.block_not_found = StorageError.block_not_found
from_backend BackendError.block_already_present = StorageError.block_already_present
from_backend BackendError.missing_parent = StorageError.missing_parent
from_backend e = backend_error e

-- `Ancestor`.
pub record Ancestor : Type 0 where
  pub header_hash : ℕ
  pub distance : ℕ

module _ (c : Consensus) (bs : BlockStore c.Raw) where
  open bs use {Store}

  abbrev pub S : Type 0 → Type 0
  S A = M Store StorageError A

  -- A call of the store that reads, and one that writes, with its error turned into the node's.
  unfoldable pub asks : {A : Type 0} → (Store → A ⊎ BackendError) → S A
  asks f st = elim (f st) [ inl a ↦ (st, ok a) | inr e ↦ (st, err (from_backend e)) ]

  unfoldable pub puts : (Store → Store ⊎ BackendError) → S (Unit {0})
  puts f st = elim (f st) [ inl st' ↦ (st', ok tt) | inr e ↦ (st, err (from_backend e)) ]

  unfoldable pub read_block : c.Raw → S (Block c)
  read_block raw st = elim (c.deserialize raw) [
    | none ↦ (st, err deserialize_failed)
    | some (header, contents) ↦ (st, ok (record { header = header; contents = contents }))
  ]

  unfoldable pub get_tag : String → S (Option ℕ)
  get_tag tag = asks (bs.get_tag tag)

  unfoldable pub put_tag : String → ℕ → S (Unit {0})
  put_tag tag header_hash = puts (bs.put_tag tag header_hash)

  unfoldable pub get : ℕ → S (Option (Block c))
  get header_hash st = elim (bs.get_block header_hash st) [
    | inl raw ↦ continue (λ block. return (some block)) (read_block raw st)
    | inr BackendError.block_not_found ↦ (st, ok none)
    | inr e ↦ (st, err (backend_error e))
  ]

  unfoldable pub block_exists : ℕ → S Bool
  block_exists header_hash = asks (bs.block_exists header_hash)

  unfoldable pub get_branches : S (List ℕ)
  get_branches = asks bs.get_tips_ids

  unfoldable pub read_blocks : List c.Raw → S (List (Block c))
  read_blocks [] = return []
  read_blocks (raw ∷ raws) = do
    block ← read_block raw
    blocks ← read_blocks raws
    return (block ∷ blocks)

  unfoldable pub get_blocks_by_chain_length : ℕ → S (List (Block c))
  get_blocks_by_chain_length chain_length = do
    raws ← asks (bs.get_blocks_by_chain_length chain_length)
    read_blocks raws

  unfoldable pub get_nth_ancestor : ℕ → ℕ → S (Option (Block c))
  get_nth_ancestor header_hash distance st = elim (bs.get_nth_ancestor header_hash distance st) [
    | inl info ↦ elim (bs.get_block info.id st) [
      | inl raw ↦ continue (λ block. return (some block)) (read_block raw st)
      | inr _ ↦ (st, panic)
    ]
    | inr BackendError.block_not_found ↦ (st, ok none)
    | inr e ↦ (st, err (backend_error e))
  ]

  unfoldable pub block_info : Block c → BlockInfo
  block_info block = record {
    id = c.hash block.header;
    parent_id = c.block_parent_hash block.header;
    chain_length = c.chain_length block.header;
  }

  unfoldable pub put_block : Block c → S (Unit {0})
  put_block block = puts (bs.put_block (c.serialize block.header block.contents) (block_info block))

  unfoldable pub get_parent : ℕ → S (Option ℕ)
  get_parent header_hash st = elim (bs.get_block_info header_hash st) [
    | inl info ↦ (st, ok (some info.parent_id))
    | inr _ ↦ (st, ok none)
  ]

  unfoldable pub is_ancestor : ℕ → ℕ → Store → Bool
  is_ancestor a b st = elim (bs.is_ancestor a b st) [ inl x ↦ is_some x | inr _ ↦ false ]

  unfoldable pub get_chain_length : ℕ → Store → Option ℕ
  get_chain_length block_id st = elim (bs.get_block_info block_id st) [
    | inl info ↦ some info.chain_length
    | inr _ ↦ none
  ]

  -- One item of a stream, read when the consumer reaches it.
  unfoldable pub read_item : c.Raw ⊎ BackendError → S (Block c)
  read_item (inl raw) = read_block raw
  read_item (inr e) = throw (from_backend e)

  -- The items between two blocks, the later one included.
  unfoldable pub stream_from_to : ℕ → ℕ → S (List (c.Raw ⊎ BackendError))
  stream_from_to from to = do
    distance ← asks (bs.is_ancestor from to)
    elim distance as (λ _. S (List (c.Raw ⊎ BackendError))) [
      | none ↦ throw cannot_iterate
      | some d ↦ asks (bs.iter to d)
    ]

  -- The loop of `find_closest_ancestor`.
  unfoldable pub closest : List ℕ → ℕ → Option ℕ → ℕ → S (Option ℕ × ℕ)
  closest [] descendant ancestor closest_found st = (st, ok (ancestor, closest_found))
  closest (checkpoint ∷ checkpoints) descendant ancestor closest_found st =
      elim (bs.is_ancestor checkpoint descendant st) [
        | inl none ↦ closest checkpoints descendant ancestor closest_found st
        | inl (some distance) ↦
            let nearer = ltb distance closest_found in
            closest checkpoints descendant (if nearer then some checkpoint else ancestor)
              (if nearer then distance else closest_found) st
        | inr BackendError.block_not_found ↦
            closest checkpoints descendant ancestor closest_found st
        | inr e ↦ (st, err (from_backend e))
      ]

  unfoldable pub find_closest_ancestor : List ℕ → ℕ → S (Option Ancestor)
  find_closest_ancestor checkpoints descendant = do
    found ← closest checkpoints descendant none (2 ^ 32 - 1)
    return (elim found.0 as (λ _. Option Ancestor) [
      | none ↦ none
      | some header_hash ↦ some (record { header_hash = header_hash; distance = found.1 })
    ])

  unfoldable pub find_common_ancestor : ℕ → ℕ → S ℕ
  find_common_ancestor tip_1 tip_2 = do
    found ← asks (bs.find_lowest_common_ancestor tip_1 tip_2)
    elim found as (λ _. S ℕ) [ none ↦ crash | some info ↦ return info.id ]

  -- The loop of `gc` over the tips.
  unfoldable pub prune_below : ℕ → List ℕ → S (Unit {0})
  prune_below threshold_length [] = return tt
  prune_below threshold_length (id ∷ ids) = do
    info ← asks (bs.get_block_info id)
    if ltb threshold_length info.chain_length then return tt else puts (bs.prune_branch id)
    prune_below threshold_length ids

  unfoldable pub gc : ℕ → ℕ → S (Unit {0})
  gc threshold_depth main_branch_tip = do
    main_info ← asks (bs.get_block_info main_branch_tip)
    if ltb main_info.chain_length threshold_depth then return tt else do
      tips_ids ← get_branches
      prune_below (main_info.chain_length - threshold_depth) tips_ids
      to_block_info ← asks (bs.get_nth_ancestor main_branch_tip threshold_depth)
      puts (bs.flush_to_permanent_store to_block_info.id 256)
