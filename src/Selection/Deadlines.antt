-- ===== src/Selection/Deadlines.antt =====
-- The two deadlines of `try_apply_fragment`.
use jormungandr.Prelude.{ℕ, ◌-◌, ◌^◌, ◌≤◌, ◌<◌, ◌≡◌, ◌≢◌, refl, inr, arith}
use jormungandr.Chain.{Chain, Fragment}
use jormungandr.Selection.{
  Simulation, Race, finished, soft_deadline_first, hard_deadline_first, race_result,
  try_apply_fragment, soft_deadline_reached,
}

module _ (chain : Chain) (sim : Simulation chain) where
  open chain use {Tx, Raw, serialized_size}
  open sim use {Ledger, block_content_max_size}

  race_result-soft :
      (race : Race) (fragment : Fragment Tx Raw) (ledger : Ledger) (space_left : ℕ)
      → race ≢ finished
      → space_left < block_content_max_size ledger
      → race_result chain sim race ledger fragment space_left ≡ inr soft_deadline_reached
  unfolding race_result
  race_result-soft finished fragment ledger space_left h lt = absurd (h refl)
  race_result-soft soft_deadline_first fragment ledger space_left h lt = ground arith
  race_result-soft hard_deadline_first fragment ledger space_left h lt = ground arith

  -- A fragment of at least one byte that fits is put back as soon as the soft deadline comes first,
  -- also when it is the only one of the block and whether or not the hard deadline has come: its size
  -- is taken off the space before the comparison with the whole space, which is then always less.
  pub try_apply_fragment-soft :
      (race : Race) (fragment : Fragment Tx Raw) (ledger : Ledger) (space_left : ℕ)
      → race ≢ finished
      → 0 < serialized_size fragment
      → serialized_size fragment < 2 ^ 32
      → serialized_size fragment ≤ space_left
      → space_left ≤ block_content_max_size ledger
      → try_apply_fragment chain sim race fragment ledger space_left ≡ inr soft_deadline_reached
  unfolding try_apply_fragment
  try_apply_fragment-soft race fragment ledger space_left h pos small fits le =
      ground
        (arith, race_result-soft race fragment ledger (space_left - serialized_size fragment) h)
