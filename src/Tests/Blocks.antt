-- ===== src/Tests/Blocks.antt =====
-- The blockchain at a chain of three headers in two epochs, over a store that is a list.
use jormungandr.Prelude.{
  ℕ, suc, ltb, subst, some_injective, ◌+◌, ◌≤◌, ◌<◌, ◌≡◌, refl, sym, ap, true, false, Option, none,
  some, List, [], ◌∷◌, ◌⊎◌, inl, inr, arith, ◌++◌, find, length, is_some, take, map, All,
  if◌then◌else◌,
}
use jormungandr.Outcome.Keeps.{Post}
use jormungandr.Scheduler.Timers.{All-weaken}
use jormungandr.Lru.{LruCache}
use jormungandr.Lru.Keyed.{new-IsKeyed}
use jormungandr.Blockchain.Types.{
  Consensus, Block, BlockDate, BlockInfo, BackendError, BlockStore, block_not_found,
  block_already_present,
}
use jormungandr.Blockchain.Reference.{
  Ref, first, after, ref_state, ref_header, ref_block_date, ref_hash, ref_parent_hash, ref_ledger,
  ref_chain_length, ref_time, time_frame, epoch_leadership_schedule,
}
use jormungandr.Blockchain.Chain.{Blockchain, new, pre_check_header}
use jormungandr.Blockchain.Chain.Coherence.{
  IsSound, IsBelow, IsEntry, IsCoherent, IsChecked, pre_check_header-IsChecked,
}
use jormungandr.Blockchain.Apply.{PostCheckedHeader, cached_ref, enabled, apply_and_store_block}
use jormungandr.Blockchain.Apply.Coherence.{IsPaidBy, IsSteady, IsPayable, IsFunded}
use jormungandr.Blockchain.Apply.Extension.{IsAppliedTo, apply_and_store_block-IsAppliedTo}
use jormungandr.Blockchain.Startup.{load_from_block0, handle_bootstrap_block, load_from_storage}
use jormungandr.Blockchain.Startup.Coherence.{
  IsRefOf, IsPaidUp, IsEndowed, load_from_block0-Keeps, handle_bootstrap_block-IsRefOf,
  load_from_storage-IsFunded,
}
use jormungandr.Blockchain.Selection.{compare_against, in_future, better, best_from, best_branch}
use jormungandr.Blockchain.Selection.Best.{IsIn, best_branch_longest}
use jormungandr.Blockchain.Checkpoints.{collect, depth, new_from}
use jormungandr.Blockchain.Checkpoints.Descent.{
  IsDescending, collect_returns, new_from-IsDescending,
}
use jormungandr.Blockchain.Candidate.{advance_branch}
use jormungandr.Blockchain.Candidate.Batch.{IsAdvance, advance_branch-IsAdvance}
use jormungandr.Blockchain.Tip.{Queues, TransactionMsg, TipUpdater, process_new_ref}
use jormungandr.Blockchain.Tip.Progress.{IsProgress, process_new_ref-IsProgress}
use jormungandr.Blockchain.Process.{Node, process_network_blocks}
use jormungandr.Blockchain.Process.Replies.{replies, replies-process_network_blocks}
use jormungandr.Blockchain.Bootstrap.{BootstrapError, pull_stream_failed, bootstrap_from_stream}
use jormungandr.Blockchain.Bootstrap.Length.{bootstrap_from_stream-IsLong}
use jormungandr.Tests.Fixtures.{list_cache}

-- A header: its hash, its parent's, its date and its length.
abbrev Head : Type 0
Head = ℕ × ℕ × BlockDate × ℕ

abbrev toy : Consensus
toy = record {
  Header = Head;
  Contents = List ℕ;
  Ledger = ℕ;
  Leadership = ℕ;
  Distribution = Unit;
  RewardsInfo = Unit;
  TimeFrame = ℕ;
  LedgerError = Unit;
  LeadershipError = Unit;
  Block0Error = Unit;
  Multiverse = List (ℕ × ℕ);
  Raw = Head × List ℕ;
  hash = λ h. h.0;
  block_parent_hash = λ h. h.1;
  block_date = λ h. h.2;
  chain_length = λ h. h.3;
  next_length = suc;
  next_length_suc = λ n. refl;
  apply_block = λ l contents h. inl (l + length contents);
  distribute_rewards = λ l d all. if ltb l 50 then inl (l, tt) else inr tt;
  apply_protocol_changes = λ l. some l;
  is_genesis_praos = λ l. true;
  epoch_stability_depth = λ l. 10;
  block0_initial_hash = λ l. 100;
  new_ledger = λ h contents. inl (length contents);
  new_leadership = λ epoch l. epoch;
  verify = λ l h. none;
  stake_distribution = λ l. some tt;
  block0_time_frame = λ contents. inl 0;
  slot_time = λ t l d. d.slot_id;
  fragment_ids = λ contents. contents;
  new_multiverse = [];
  insert = λ n h l m. ((h, l) ∷ m, record { id = h; state = l });
  insert_id = λ n h l m. refl;
  insert_state = λ n h l m. refl;
  reward_dump_fails = λ epoch h i. false;
  gc = λ n m. m;
  serialize = λ h contents. (h, contents);
  deserialize = λ raw. some raw;
}

toy-IsSteady : IsSteady toy false
toy-IsSteady = record {
  protocol = λ l e. absurd (cc);
  rewards = λ l l' d e paid. subst (λ x. IsPaidBy toy false x d) (some_injective e) paid;
  dump = λ epoch h i. refl;
}

-- The blocks by their ids, and the one tag.
abbrev Shelf : Type 0
Shelf = List (ℕ × (Head × List ℕ)) × Option ℕ

abbrev info_of : Head → BlockInfo
info_of h = record { id = h.0; parent_id = h.1; chain_length = h.3 }

abbrev known : {A : Type 0} → (Head → A) → ℕ → Shelf → A ⊎ BackendError
known f id s = elim (find id s.0) [
  | none ↦ inr BackendError.block_not_found
  | some raw ↦ inl (f raw.0)
]

abbrev shelf : BlockStore (Head × List ℕ)
shelf = record {
  Store = Shelf;
  get_tag = λ tag s. inl s.1;
  put_tag = λ tag id s. inl (s.0, some id);
  get_block = λ id s. elim (find id s.0) [ none ↦ inr block_not_found | some raw ↦ inl raw ];
  block_exists = λ id s. inl (is_some (find id s.0));
  get_tips_ids = λ s. inl (map (λ e. e.0) (take 1 s.0));
  get_blocks_by_chain_length = λ n s. inl [];
  put_block = λ raw info s.
      if is_some (find info.id s.0)
      then inr block_already_present
      else inl ((info.id, raw) ∷ s.0, s.1);
  is_ancestor = λ a b s. inl (some 1);
  iter = λ to distance s. inl (map (λ e. inl e.1) (take distance s.0));
  find_lowest_common_ancestor = λ a b s. known (λ h. some (info_of h)) a s;
  get_block_info = known info_of;
  get_nth_ancestor = λ id distance s. known info_of id s;
  prune_branch = λ id s. inl s;
  flush_to_permanent_store = λ id n s. inl s;
  get_tag-put_tag = λ tag id s s' e.
      ap (λ x. elim x as (λ _. Option ℕ ⊎ BackendError) [ inl y ↦ inl y.1 | inr _ ↦ inl (some id) ])
        (sym e);
}

abbrev refs : LruCache (Ref toy)
refs = list_cache (Ref toy)

abbrev at : ℕ → ℕ → BlockDate
at epoch slot = record { epoch = epoch; slot_id = slot }

abbrev genesis : Block toy
genesis = record { header = (100, 0, at 0 0, 0); contents = 7 ∷ [] }

abbrev second_block : Block toy
second_block = record { header = (101, 100, at 1 4, 1); contents = 8 ∷ 9 ∷ [] }

abbrev third_header : Head
third_header = (102, 101, at 1 6, 2)

abbrev empty_chain : Blockchain toy shelf refs
empty_chain = new 100 ([], none) 4 false

abbrev started : Blockchain toy shelf refs
started = (load_from_block0 genesis empty_chain).0

endowed : (l : ℕ) → toy.new_ledger 100 (7 ∷ []) ≡ inl l → IsEndowed {c = toy} false genesis l
endowed l e =
    subst (λ x. IsEndowed {c = toy} false genesis x)
      (ap (λ o. elim o as (λ _. ℕ) [ inl x ↦ x | inr _ ↦ 0 ]) e) ((1, tt), refl)

started-IsPaidUp : IsPaidUp false started
unfolding new
started-IsPaidUp =
    ((load_from_block0-Keeps genesis endowed).at empty_chain
      (record { reports = refl; keyed = new-IsKeyed refs (IsEntry (IsFunded false)) 4 })).0

started-IsCoherent : IsCoherent started
started-IsCoherent = record {
  distinct = started-IsPaidUp.keyed.distinct;
  bounded = started-IsPaidUp.keyed.bounded;
  entries =
      All-weaken _ _ (refs.iter (started.ref_cache)) (λ e h. (h.0, h.1.0))
        started-IsPaidUp.keyed.entries;
}

pre_check_header-IsChecked_example :
    IsCoherent (pre_check_header (second_block.header) false started).0
    × Post ⊥
        (IsChecked IsSound (second_block.header) false)
        (pre_check_header (second_block.header) false started).1
pre_check_header-IsChecked_example =
    pre_check_header-IsChecked (second_block.header) false started started-IsCoherent

abbrev second_checked : PostCheckedHeader toy
second_checked = record {
  header = second_block.header;
  epoch_leadership_schedule = 1;
  parent_ledger_state = 1;
  time_frame = 0;
  previous_epoch_state = none;
  epoch_rewards_info = none;
}

IsBelow-none : IsBelow {c = toy} (second_block.header) none
unfolding IsBelow
IsBelow-none = tt

apply_and_store_block-IsAppliedTo_example :
    IsCoherent (apply_and_store_block second_checked second_block started).0
    × Post ⊥
        (λ a. IsAppliedTo second_checked second_block (cached_ref a))
        (apply_and_store_block second_checked second_block started).1
apply_and_store_block-IsAppliedTo_example =
    apply_and_store_block-IsAppliedTo second_checked second_block started refl IsBelow-none
      started-IsCoherent

handle_bootstrap_block-IsRefOf_example :
    IsPaidUp false (handle_bootstrap_block second_block enabled started).0
    × Post ⊥
        (λ r. IsRefOf (second_block.header) r × IsPayable false r)
        (handle_bootstrap_block second_block enabled started).1
handle_bootstrap_block-IsRefOf_example =
    handle_bootstrap_block-IsRefOf second_block enabled false started toy-IsSteady started-IsPaidUp

load_from_storage-IsFunded_example :
    IsPaidUp false (load_from_storage (λ k. k) genesis started).0
    × Post ⊥ (IsFunded false) (load_from_storage (λ k. k) genesis started).1
load_from_storage-IsFunded_example =
    load_from_storage-IsFunded (λ k. k) genesis false started (λ k. omega arith) toy-IsSteady
      endowed started-IsPaidUp

abbrev two_headers : List Head
two_headers = second_block.header ∷ third_header ∷ []

advance_branch-IsAdvance_example :
    IsCoherent (advance_branch two_headers started).0
    × Post ⊥
        (IsAdvance toy (refs.peek (started.ref_cache)) two_headers)
        (advance_branch two_headers started).1
advance_branch-IsAdvance_example = advance_branch-IsAdvance two_headers started started-IsCoherent

abbrev block0_ref : Ref toy
block0_ref = first (record {
  ledger = record { id = 100; state = 1 };
  time_frame = 0;
  epoch_leadership_schedule = 0;
  epoch_rewards_info = none;
  header = genesis.header;
})

abbrev second_ref : Ref toy
second_ref =
    after
      (record {
        ledger = record { id = 101; state = 3 };
        time_frame = 0;
        epoch_leadership_schedule = 1;
        epoch_rewards_info = none;
        header = second_block.header;
      })
      block0_ref

second_ref-IsSound : IsSound second_ref
unfolding IsSound ref_block_date ref_chain_length ref_header ref_state
second_ref-IsSound = (refl, omega arith, omega arith, refl)

best_of_two : best_branch (λ k. k) (block0_ref ∷ second_ref ∷ []) ≡ some second_ref
unfolding best_branch best_from better compare_against in_future ref_time ref_chain_length
    ref_header ref_state ref_block_date time_frame epoch_leadership_schedule
best_of_two = refl

best_branch_longest_example :
    IsIn second_ref (block0_ref ∷ second_ref ∷ [])
    × All
        (λ r. ref_time r ≤ 0 + 1000000000 → ref_chain_length r ≤ ref_chain_length second_ref)
        (block0_ref ∷ second_ref ∷ [])
best_branch_longest_example =
    best_branch_longest 0 (λ k. k) (block0_ref ∷ second_ref ∷ []) second_ref (λ k. omega arith)
      best_of_two

depth_two : depth second_ref < 5
unfolding depth
depth_two = omega arith

collect_returns_example :
    (l : List ℕ) × (collect 5 0 second_ref (101 ∷ 100 ∷ []) ≡ some l)
    × (collect (suc (depth second_ref)) 0 second_ref (101 ∷ 100 ∷ []) ≡ some l)
collect_returns_example = collect_returns 5 0 second_ref (101 ∷ 100 ∷ []) depth_two

new_from-IsDescending_example :
    (rs : List (Ref toy)) × (tail : List ℕ) × (new_from second_ref
      ≡ some (ref_hash second_ref ∷ ref_parent_hash second_ref ∷ map ref_hash rs ++ tail))
    × IsDescending (ref_chain_length second_ref) rs
    × ((tail ≡ []) ⊎ (tail ≡ toy.block0_initial_hash (ref_ledger second_ref) ∷ []))
new_from-IsDescending_example = new_from-IsDescending second_ref second_ref-IsSound

-- A queue that is full after one message, and one that takes all.
abbrev queues : Queues Head
queues = record {
  Fragments = List TransactionMsg;
  Watch = List Head;
  try_send = λ m l. elim l [ [] ↦ some (m ∷ []) | _ ∷ _ ↦ none ];
  send = λ h l. h ∷ l;
}

abbrev at_genesis : TipUpdater toy shelf refs queues
at_genesis = record {
  tip = block0_ref;
  blockchain = (handle_bootstrap_block second_block enabled started).0;
  watch_mbox = some [];
  fragment_mbox = some [];
}

process_new_ref-IsProgress_example :
    IsProgress 0 block0_ref second_ref (process_new_ref 0 second_ref at_genesis)
process_new_ref-IsProgress_example = process_new_ref-IsProgress 0 second_ref at_genesis

abbrev open_node : Node toy shelf refs
open_node = record { blockchain = started; tip = block0_ref; accepts = λ sent m. true; sent = [] }

replies-process_network_blocks_example :
    IsPaidUp false
      (process_network_blocks (second_block ∷ second_block ∷ []) open_node).0.blockchain
    × (replies (process_network_blocks (second_block ∷ second_block ∷ []) open_node).0.sent
        ≡ suc (replies (open_node.sent)))
    × Post ⊥ (λ _. Unit {0}) (process_network_blocks (second_block ∷ second_block ∷ []) open_node).1
replies-process_network_blocks_example =
    replies-process_network_blocks (second_block ∷ second_block ∷ []) false open_node toy-IsSteady
      started-IsPaidUp

abbrev fresh_tip : TipUpdater toy shelf refs queues
fresh_tip = record at_genesis { blockchain = started }

abbrev peer_stream : List (Block toy ⊎ BootstrapError toy)
peer_stream = inl genesis ∷ inl second_block ∷ inr pull_stream_failed ∷ []

bootstrap_from_stream-IsLong_example :
    ref_chain_length block0_ref
    ≤ ref_chain_length (bootstrap_from_stream 0 peer_stream false fresh_tip).0.tip
bootstrap_from_stream-IsLong_example = bootstrap_from_stream-IsLong 0 peer_stream false fresh_tip
