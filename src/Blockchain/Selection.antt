-- ===== src/Blockchain/Selection.antt =====
-- jormungandr/src/blockchain/chain_selection.rs, and the choice of the best branch in tip.rs. The
-- clock is read at each comparison; a rollback is always possible.
pub mod Best
use jormungandr.Prelude.{
  ℕ, suc, ◌+◌, ◌*◌, Bool, true, false, Option, none, some, List, [], ◌∷◌, ltb, ◌&&◌, not,
  if◌then◌else◌,
}
use jormungandr.Blockchain.Types.{Consensus}
use jormungandr.Blockchain.Reference.{Ref, ref_time, ref_chain_length}

pub data ComparisonResult : Type 0 where
  prefer_current prefer_candidate : ComparisonResult

-- One second, in nanoseconds.
abbrev pub allowed_time_discrepancy : ℕ
allowed_time_discrepancy = 1000000000

module _ {c : Consensus} where
  -- The block lies further ahead of the clock than the discrepancy.
  unfoldable pub in_future : ℕ → Ref c → Bool
  in_future now candidate = ltb (now + allowed_time_discrepancy) (ref_time candidate)

  unfoldable pub compare_against : ℕ → Ref c → Ref c → ComparisonResult
  compare_against now current candidate =
      if not (in_future now candidate)
        && ltb (ref_chain_length current) (ref_chain_length candidate)
      then prefer_candidate
      else prefer_current

  -- One step of `max_by`, which keeps the first of two when it is the greater.
  unfoldable pub better : ℕ → Ref c → Ref c → Ref c
  better now a b = elim (compare_against now a b) [ prefer_current ↦ a | prefer_candidate ↦ b ]

  -- The clock gives one time for each comparison.
  unfoldable pub best_from : (ℕ → ℕ) → Ref c → List (Ref c) → Ref c
  best_from clock best [] = best
  best_from clock best (r ∷ rs) = best_from (λ k. clock (suc k)) (better (clock 0) best r) rs

  -- `max_by` in `reprocess_tip`.
  unfoldable pub best_branch : (ℕ → ℕ) → List (Ref c) → Option (Ref c)
  best_branch clock [] = none
  best_branch clock (r ∷ rs) = some (best_from clock r rs)
