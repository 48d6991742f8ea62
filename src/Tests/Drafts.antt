-- ===== src/Tests/Drafts.antt =====
-- The theorems on the transactions under construction, at one with an input, an output and a witness.
use jormungandr.Prelude.{
  ℕ, ◌≡◌, refl, Bool, not, false, true, none, some, List, [], ◌∷◌, inl, arith,
}
use jormungandr.Staging.Types
use jormungandr.Staging.Types.{
  Certificate, balancing, finalizing, is_kind, sealed, ok, account, group_address,
}
use jormungandr.Staging
use jormungandr.Staging.{
  Staging, Command, expiry_date, input, output, account_input, witness, certificate, evm, finalize,
  seal_it, auth, is_never_signed, fragment, perform, balance_inputs_outputs, finalize_payload,
  check_owner, check_inputs, balance_extra,
}
use jormungandr.Staging.Invariant.{IsValid, perform_all, perform_all-IsValid}
use jormungandr.Staging.Errors.{IsKept, perform_refused}
use jormungandr.Staging.Message.{carried, fragment-ready}
use jormungandr.Staging.Frozen.{SameContent, perform_all_frozen, fragment-ignores_evm}

-- The certificates that want an authentication.
abbrev wants_auth : Certificate ℕ → Bool
wants_auth (Certificate.owner_stake_delegation _) = false
wants_auth (Certificate.vote_cast _) = false
wants_auth (Certificate.mint_token _) = false
wants_auth _ = true

-- The balance adds the output 99.
abbrev drafts : Types.Chain
drafts = record {
  Payload = ℕ;
  Auth = ℕ;
  Output = ℕ;
  Witness = ℕ;
  Evm = ℕ;
  Date = ℕ;
  Ios = ℕ;
  Key = ℕ;
  Fee = ℕ;
  Policy = ℕ;
  Balance = ℕ;
  Hash = ℕ;
  need_auth = wants_auth;
  input_output_builder = λ _ _. some 1;
  seal_with_output_policy = λ _ _ _ _. some (0, 99 ∷ []);
  sign_data_hash = λ _ _ _ _. 5;
  sign_with_key = λ _ _ _. none;
  pool_owner_sign = λ _ _ _ _. none;
}

abbrev commands : List (Command drafts)
commands =
    expiry_date 4
    ∷ input (record { input = account 1; value = 10 })
    ∷ output 7
    ∷ account_input group_address 3
    ∷ certificate (Certificate.vote_plan 2)
    ∷ evm 8
    ∷ witness 5
    ∷ finalize 0 0
    ∷ input (record { input = account 2; value = 3 })
    ∷ witness 6
    ∷ witness 6
    ∷ seal_it
    ∷ auth (3 ∷ [])
    ∷ []

perform_all-IsValid_example : IsValid drafts (perform_all drafts commands (Staging.new drafts))
perform_all-IsValid_example = perform_all-IsValid drafts commands

abbrev finalized_draft : Staging drafts
finalized_draft = record {
  kind = finalizing;
  inputs = record { input = account 1; value = 10 } ∷ [];
  outputs = 7 ∷ 99 ∷ [];
  valid_until = some 4;
  witnesses = [];
  extra = none;
  extra_authed = none;
  evm_transaction = some 8;
}

perform_all_frozen_example :
    SameContent drafts finalized_draft (perform_all drafts commands finalized_draft)
unfolding is_kind
perform_all_frozen_example = perform_all_frozen drafts commands finalized_draft refl

abbrev sealed_draft : Staging drafts
sealed_draft = record finalized_draft { kind = sealed; witnesses = 6 ∷ [] }

fragment-ignores_evm_example :
    fragment drafts (record sealed_draft { evm_transaction = none }) ≡ fragment drafts sealed_draft
fragment-ignores_evm_example = fragment-ignores_evm drafts sealed_draft none

wants_auth_lem : (c : Certificate ℕ) → wants_auth c ≡ not (is_never_signed drafts c)
unfolding is_never_signed
wants_auth_lem (Certificate.owner_stake_delegation _) = refl
wants_auth_lem (Certificate.vote_cast _) = refl
wants_auth_lem (Certificate.mint_token _) = refl
wants_auth_lem c = refl

sealed_draft-IsValid : IsValid drafts sealed_draft
unfolding is_kind
sealed_draft-IsValid = ground arith

fragment-ready_example :
    (m : Staging.Message drafts) × (date : ℕ) × (fragment drafts sealed_draft ≡ ok m)
    × (sealed_draft.valid_until ≡ some date)
    × (carried drafts m ≡ record { valid_until = date; ios = 1; witnesses = 6 ∷ [] })
unfolding is_kind Staging.need_auth
fragment-ready_example =
    fragment-ready drafts sealed_draft 1 wants_auth_lem sealed_draft-IsValid (inl (refl, refl)) refl

-- An owner stake delegation with an output: the balance is refused, and ends finalizing.
abbrev owner_draft : Staging drafts
owner_draft = record {
  kind = balancing;
  inputs = record { input = account 1; value = 10 } ∷ [];
  outputs = 7 ∷ [];
  valid_until = some 4;
  witnesses = [];
  extra = some (Certificate.owner_stake_delegation 2);
  extra_authed = none;
  evm_transaction = none;
}

perform_refused_example :
    IsKept drafts (finalize 0 0) owner_draft (perform drafts (finalize 0 0) owner_draft).0
unfolding perform balance_inputs_outputs finalize_payload check_owner check_inputs balance_extra
    is_kind Staging.add_outputs Staging.add_output
perform_refused_example = perform_refused drafts (finalize 0 0) owner_draft refl
