-- ===== src/Selection.antt =====
-- jormungandr/src/fragment/selection.rs: the choice of the fragments of a block, oldest first. The
-- ledger and the outcome of the race against the two deadlines are parameters.
pub mod Contents
pub mod Deadlines
use jormungandr.Prelude.{
  ℕ, zero, suc, ◌+◌, ◌-◌, ◌^◌, Bool, true, false, Option, none, some, ◌>>=◌, List, [], ◌∷◌, ◌++◌,
  reverse, ◌⊎◌, inl, inr, leb, ltb, ◌==◌, if◌then◌else◌, ◌&&◌,
}
use jormungandr.Chain.{Chain, Fragment}
use jormungandr.FragmentLog.{rejected}
use jormungandr.Lru.{LruCache}
use jormungandr.Logs.{LogEntry}
use jormungandr.Logs
use jormungandr.Mempool.{Pool, remove_oldest, return_to_pool}

-- `ApplyBlockLedger`, with the two reasons that this file makes itself.
pub record Simulation (chain : Chain) : Type 1 where
  pub Ledger : Type 0
  pub Text : Type 0
  pub apply_fragment : Ledger → Fragment chain.Tx chain.Raw → Ledger ⊎ Text
  pub block_content_max_size : Ledger → ℕ
  pub block_date : Ledger → chain.Date
  pub size_exceeds : ℕ → ℕ → Text
  pub hard_deadline_text : Text

-- How the application of one fragment ends: by itself, or after the soft deadline came first, or
-- after both deadlines came first.
pub data Race : Type 0 where
  finished soft_deadline_first hard_deadline_first : Race

-- `ApplyFragmentError`.
pub data ApplyFragmentError (Text : Type 0) : Type 0 where
  does_not_fit soft_deadline_reached : ApplyFragmentError Text
  rejected_for : Text → ApplyFragmentError Text

module _ (chain : Chain) (sim : Simulation chain) where
  open chain use {Tx, Raw, Date, serialized_size}
  open sim use {Ledger, Text, apply_fragment, block_content_max_size, block_date}

  -- The result of the application, or `Rejected` with its error.
  abbrev pub ledger_res : Ledger → Fragment Tx Raw → ℕ → (Ledger × ℕ) ⊎ ApplyFragmentError Text
  ledger_res ledger fragment space_left = elim (apply_fragment ledger fragment) [
    | inl ledger' ↦ inl (ledger', space_left)
    | inr reason ↦ inr (rejected_for reason)
  ]

  -- The race of the application against the deadlines, after the fragment's size was taken off the
  -- space that is left.
  unfoldable pub race_result :
      Race → Ledger → Fragment Tx Raw → ℕ → (Ledger × ℕ) ⊎ ApplyFragmentError Text
  race_result finished ledger fragment space_left = ledger_res ledger fragment space_left
  race_result soft_deadline_first ledger fragment space_left =
      if ltb space_left (block_content_max_size ledger)
      then inr soft_deadline_reached
      else ledger_res ledger fragment space_left
  race_result hard_deadline_first ledger fragment space_left =
      if ltb space_left (block_content_max_size ledger)
      then inr soft_deadline_reached
      else inr (rejected_for sim.hard_deadline_text)

  unfoldable pub try_apply_fragment :
      Race → Fragment Tx Raw → Ledger → ℕ → (Ledger × ℕ) ⊎ ApplyFragmentError Text
  try_apply_fragment race fragment ledger space_left =
      let raw_fragment_size = serialized_size fragment in
      let max_size = block_content_max_size ledger in
      if ltb raw_fragment_size (2 ^ 32) && leb raw_fragment_size max_size
      then if ltb space_left raw_fragment_size
        then inr does_not_fit
        else race_result race ledger fragment (space_left - raw_fragment_size)
      else inr (rejected_for (sim.size_exceeds raw_fragment_size max_size))

  module _ (lru : LruCache (LogEntry Date Text)) where
    -- The variables of `select`. `contents` are the fragments pushed to the builder, in their order.
    pub record Progress : Type 0 where
      pub ledger : Ledger
      pub space_left : ℕ
      pub contents : List (Fragment Tx Raw)
      pub to_return : List (Fragment Tx Raw × ℕ)
      pub rejected_fragments_cnt : ℕ
      pub logs : lru.Cache
      pub pool : Pool chain

    -- What the loop does with the result for one fragment.
    unfoldable pub settle :
        ℕ
        → Date
        → Fragment Tx Raw
        → ℕ
        → (Ledger × ℕ) ⊎ ApplyFragmentError Text
        → Progress
        → Progress
    settle now date fragment id (inl (ledger, space_left)) s = record s {
      ledger = ledger;
      space_left = space_left;
      contents = s.contents ++ fragment ∷ [];
    }
    settle now date fragment id (inr does_not_fit) s = record s {
      to_return = s.to_return ++ (fragment, id) ∷ [];
    }
    settle now date fragment id (inr soft_deadline_reached) s = record s {
      to_return = s.to_return ++ (fragment, id) ∷ [];
    }
    settle now date fragment id (inr (rejected_for reason)) s = record s {
      logs = Logs.modify lru now id (rejected reason) date s.logs;
      rejected_fragments_cnt = s.rejected_fragments_cnt + 1;
    }

    -- The loop, with fuel; `race` tells how the application in each round ends. `none` is a panic of
    -- the pool, or the end of the fuel.
    unfoldable pub select_loop : ℕ → (ℕ → Race) → ℕ → Date → Progress → Option Progress
    select_loop zero race now date s = none
    select_loop (suc fuel) race now date s = do
      (oldest, pool) ← remove_oldest chain s.pool
      elim oldest [
        | none ↦ some (record s { pool = pool })
        | some (fragment, id) ↦
            let result = try_apply_fragment (race fuel) fragment s.ledger s.space_left in
            let s' = settle now date fragment id result (record s { pool = pool }) in
            elim (s'.space_left == 0) [ true ↦ some s' | false ↦ select_loop fuel race now date s' ]
      ]

    -- `OldestFirst::select`.
    unfoldable pub select : ℕ → (ℕ → Race) → ℕ → Ledger → lru.Cache → Pool chain → Option Progress
    select fuel race now ledger logs pool = do
      s ← select_loop fuel race now (block_date ledger) (record {
        ledger = ledger;
        space_left = block_content_max_size ledger;
        contents = [];
        to_return = [];
        rejected_fragments_cnt = 0;
        logs = logs;
        pool = pool;
      })
      pool' ← return_to_pool chain (reverse s.to_return) s.pool
      some (record s { pool = pool' })
