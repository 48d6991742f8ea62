-- ===== src/Staging/Types.antt =====
-- The types around jcli/src/jcli_lib/transaction/staging.rs: its kinds, its errors, the certificates
-- by the constructors that it matches on, and what it takes from chain-impl-mockchain.
use jormungandr.Prelude.{ℕ, Bool, true, false, Option, List}

pub data StagingKind : Type 0 where
  balancing finalizing sealed authed : StagingKind

-- `==` of two kinds.
unfoldable pub is_kind : StagingKind → StagingKind → Bool
is_kind balancing balancing = true
is_kind finalizing finalizing = true
is_kind sealed sealed = true
is_kind authed authed = true
is_kind _ _ = false

-- The errors that the methods of `Staging` return. `seal_failed` is the error of the balance, and
-- `certificate_error` stands for the errors of the signing functions.
pub data Error : Type 0 where
  tx_kind_to_set_validity_time_invalid tx_kind_to_add_input_invalid : StagingKind → Error
  tx_kind_to_add_output_invalid tx_kind_to_add_witness_invalid : StagingKind → Error
  tx_kind_to_seal_invalid tx_kind_to_add_extra_invalid : StagingKind → Error
  tx_kind_to_finalize_invalid tx_kind_to_get_message_invalid : StagingKind → Error
  tx_kind_to_sign_data_hash_invalid : StagingKind → Error
  account_address_single account_address_group account_address_script : Error
  too_many_witnesses_to_add_witness witness_count_to_seal_invalid : ℕ → ℕ → Error
  tx_doesnt_need_payload_auth tx_need_payload_auth : Error
  certificate_error : Error
  expecting_only_one_signing_key : ℕ → Error
  cannot_finalize_without_valid_until seal_failed : Error
  tx_with_owner_stake_delegation_has_utxo_input : Error
  tx_with_owner_stake_delegation_multi_inputs : ℕ → Error
  tx_with_owner_stake_delegation_has_outputs : Error

-- A `Result`, or a panic.
pub data Outcome (A : Type 0) : Type 0 where
  ok : A → Outcome A
  err : Error → Outcome A
  panic : Outcome A

-- `TransactionInputType`; a pointer is the number that its bytes spell.
pub data TransactionInputType : Type 0 where
  account : ℕ → TransactionInputType
  utxo : ℕ → ℕ → TransactionInputType

pub record TransactionInput : Type 0 where
  pub input : TransactionInputType
  pub value : ℕ

-- The kinds of addresses that `add_account` tells apart.
pub data AddressKind : Type 0 where
  account_address multisig_address : ℕ → AddressKind
  single_address group_address script_address : AddressKind

pub data Certificate (P : Type 0) : Type 0 where
  stake_delegation owner_stake_delegation pool_registration pool_retirement : P → Certificate P
  pool_update vote_plan vote_cast vote_tally : P → Certificate P
  update_proposal update_vote evm_mapping mint_token : P → Certificate P

pub data SignedCertificate (P A : Type 0) : Type 0 where
  stake_delegation owner_stake_delegation pool_registration : P → A → SignedCertificate P A
  pool_retirement pool_update vote_plan vote_tally : P → A → SignedCertificate P A
  update_proposal update_vote evm_mapping : P → A → SignedCertificate P A

-- What a transaction builder holds when its authentication is set.
pub record AuthData (Date Ios Witness : Type 0) : Type 0 where
  pub valid_until : Date
  pub ios : Ios
  pub witnesses : List Witness

-- A fragment made of a payload, its authentication and the rest of its transaction; the constructor
-- names the kind of the payload.
pub data Fragment (P A D : Type 0) : Type 0 where
  transaction : D → Fragment P A D
  of_certificate : Certificate P → D → Fragment P A D
  of_signed : SignedCertificate P A → D → Fragment P A D

-- The builder, the balance and the signatures of chain-impl-mockchain, and the signing functions of
-- the certificate commands. `none` of `input_output_builder` is its error, which the caller unwraps.
pub record Chain : Type 1 where
  pub Payload : Type 0
  pub Auth : Type 0
  pub Output : Type 0
  pub Witness : Type 0
  pub Evm : Type 0
  pub Date : Type 0
  pub Ios : Type 0
  pub Key : Type 0
  pub Fee : Type 0
  pub Policy : Type 0
  pub Balance : Type 0
  pub Hash : Type 0
  pub need_auth : Certificate Payload → Bool
  pub input_output_builder : List TransactionInput → List Output → Option Ios
  pub seal_with_output_policy :
      Ios → Option (Certificate Payload) → Fee → Policy → Option (Balance × List Output)
  pub sign_data_hash :
      Option (Certificate Payload) → Date → List TransactionInput → List Output → Hash
  pub sign_with_key :
      Certificate Payload
      → Key
      → AuthData Date Ios Witness
      → Option (SignedCertificate Payload Auth)
  pub pool_owner_sign :
      Certificate Payload
      → Option Payload
      → List Key
      → AuthData Date Ios Witness
      → Option (SignedCertificate Payload Auth)
