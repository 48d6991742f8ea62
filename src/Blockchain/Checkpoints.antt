-- ===== src/Blockchain/Checkpoints.antt =====
-- jormungandr/src/blockchain/checkpoints.rs. The loop runs on fuel; `none` is a run that is cut short.
pub mod Descent
use jormungandr.Prelude.{
  ℕ, zero, suc, ◌+◌, Bool, true, false, Option, none, some, List, [], ◌∷◌, ◌++◌, ◌==◌,
  if◌then◌else◌, last_of,
}
use jormungandr.Blockchain.Types.{Consensus}
use jormungandr.Blockchain.Reference.{
  Ref, first, after, last_ref_previous_epoch, ref_hash, ref_parent_hash, ref_ledger,
}

-- `checkpoints[checkpoints.len() - 1] != hash`; there are always two at least.
unfoldable pub is_last : ℕ → List ℕ → Bool
is_last hash checkpoints = elim (last_of checkpoints) [ none ↦ false | some h ↦ h == hash ]

-- `block0_hash != checkpoints[1]`.
unfoldable pub with_block0 : ℕ → ℕ → List ℕ → List ℕ
with_block0 block0_hash second checkpoints =
    if block0_hash == second then checkpoints else checkpoints ++ block0_hash ∷ []

module _ {c : Consensus} where
  -- The inner loop, which goes down by at most as many epochs as it is told to.
  unfoldable pub descend : ℕ → Ref c → Ref c
  descend zero r = r
  descend (suc n) r = elim (last_ref_previous_epoch r) [
    | none ↦ r
    | some previous ↦ descend n previous
  ]

  unfoldable pub collect : ℕ → ℕ → Ref c → List ℕ → Option (List ℕ)
  collect zero ignore_prev current_ref checkpoints = none
  collect (suc fuel) ignore_prev current_ref checkpoints =
      elim (last_ref_previous_epoch current_ref) [
        | none ↦ some checkpoints
        | some prev_epoch ↦
            let r = descend ignore_prev prev_epoch in
            let seen = is_last (ref_hash r) checkpoints in
            collect fuel (if seen then ignore_prev else ignore_prev + 1) r
              (if seen then checkpoints else checkpoints ++ ref_hash r ∷ [])
      ]

  -- The previous epochs that a reference leads to.
  unfoldable pub depth : Ref c → ℕ
  depth (first _) = 0
  depth (after _ previous) = depth previous + 1

  -- `Checkpoints::new_from`, with fuel for every previous epoch.
  unfoldable pub new_from : Ref c → Option (List ℕ)
  new_from from =
      elim (collect (suc (depth from)) 0 from (ref_hash from ∷ ref_parent_hash from ∷ [])) [
        | none ↦ none
        | some checkpoints ↦ some (
            with_block0 (c.block0_initial_hash (ref_ledger from)) (ref_parent_hash from)
              checkpoints)
      ]
