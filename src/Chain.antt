-- ===== src/Chain.antt =====
-- What the node takes from chain-impl-mockchain: transactions, fragments, dates and their checks.
-- The crate is not part of the repository, so its types and functions are the parameter `Chain`.
use jormungandr.Prelude.{ℕ, ◌≡◌, Bool, Option}

-- `Fragment`, by the constructors that `is_fragment_valid` lists. `Raw` is what a fragment that is
-- no transaction holds.
pub data Fragment (Tx Raw : Type 0) : Type 0 where
  initial old_utxo_declaration evm : Raw → Fragment Tx Raw
  transaction stake_delegation owner_stake_delegation : Tx → Fragment Tx Raw
  pool_registration pool_retirement pool_update : Tx → Fragment Tx Raw
  update_proposal update_vote : Tx → Fragment Tx Raw
  vote_plan vote_cast vote_tally : Tx → Fragment Tx Raw
  mint_token evm_mapping : Tx → Fragment Tx Raw

-- `TxValidityError`.
pub data TxValidityError : Type 0 where
  transaction_expired transaction_valid_for_too_long : TxValidityError

-- A fragment id is the number that its hash spells. Dates are ordered as their `position`s, and two
-- dates at one position are equal.
pub record Chain : Type 1 where
  pub Tx : Type 0
  pub Raw : Type 0
  pub Date : Type 0
  pub Settings : Type 0
  pub position : Date → ℕ
  pub position_injective : (a b : Date) → position a ≡ position b → a ≡ b
  pub valid_until : Tx → Date
  pub verify_possibly_balanced : Tx → Bool
  pub hash : Fragment Tx Raw → ℕ
  pub serialized_size : Fragment Tx Raw → ℕ
  pub valid_transaction_date : Settings → Date → Date → Option TxValidityError
