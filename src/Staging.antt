-- ===== src/Staging.antt =====
-- jcli/src/jcli_lib/transaction/staging.rs: a transaction under construction, which goes through the
-- kinds balancing, finalizing, sealed and authed.
pub mod Types
pub mod Invariant
pub mod Frozen
pub mod Errors
pub mod Message
use jormungandr.Prelude.{
  ℕ, Bool, true, false, not, Option, none, some, List, [], ◌∷◌, ◌++◌, ◌⊎◌, inl, inr, if◌then◌else◌,
  length, leb, ◌==◌, is_some,
}
use Types.{
  StagingKind, balancing, finalizing, sealed, authed, Error, Outcome, ok, err, panic,
  TransactionInput, account, utxo, Certificate, SignedCertificate, Chain, AddressKind,
  single_address, group_address, account_address, multisig_address, script_address, is_kind,
  Fragment,
}
use Types

module _ (chain : Chain) where
  open chain use {Payload, Output, Witness, Evm, Date, Ios, Key, Auth, Fee, Policy, Balance, Hash}

  pub record Staging : Type 0 where
    pub kind : StagingKind
    pub inputs : List TransactionInput
    pub outputs : List Output
    pub valid_until : Option Date
    pub witnesses : List Witness
    pub extra : Option (Certificate Payload)
    pub extra_authed : Option (SignedCertificate Payload Auth)
    pub evm_transaction : Option Evm

  unfoldable pub new : Staging
  new = record {
    kind = balancing;
    inputs = [];
    outputs = [];
    valid_until = none;
    witnesses = [];
    extra = none;
    extra_authed = none;
    evm_transaction = none;
  }

  -- The new state, and the result.
  abbrev pub After : Type 0 → Type 0
  After A = Staging × Outcome A

  unfoldable pub set_expiry_date : Date → Staging → After (Unit {0})
  set_expiry_date input s =
      if not (is_kind balancing s.kind)
      then (s, err (Error.tx_kind_to_set_validity_time_invalid s.kind))
      else (record s { valid_until = some input }, ok tt)

  unfoldable pub add_input : TransactionInput → Staging → After (Unit {0})
  add_input input s =
      if not (is_kind balancing s.kind)
      then (s, err (Error.tx_kind_to_add_input_invalid s.kind))
      else (record s { inputs = s.inputs ++ input ∷ [] }, ok tt)

  unfoldable pub add_output : Output → Staging → After (Unit {0})
  add_output output s =
      if not (is_kind balancing s.kind)
      then (s, err (Error.tx_kind_to_add_output_invalid s.kind))
      else (record s { outputs = s.outputs ++ output ∷ [] }, ok tt)

  unfoldable pub add_account : AddressKind → ℕ → Staging → After (Unit {0})
  add_account (account_address key) value s =
      add_input (record { input = account key; value = value }) s
  add_account (multisig_address key) value s =
      add_input (record { input = account key; value = value }) s
  add_account single_address value s = (s, err Error.account_address_single)
  add_account group_address value s = (s, err Error.account_address_group)
  add_account script_address value s = (s, err Error.account_address_script)

  unfoldable pub add_witness : Witness → Staging → After (Unit {0})
  add_witness witness s =
      if not (is_kind finalizing s.kind)
      then (s, err (Error.tx_kind_to_add_witness_invalid s.kind))
      else if leb (length s.inputs) (length s.witnesses)
      then (s, err (Error.too_many_witnesses_to_add_witness (length s.witnesses) (length s.inputs)))
      else (record s { witnesses = s.witnesses ++ witness ∷ [] }, ok tt)

  unfoldable pub set_extra : Certificate Payload → Staging → After (Unit {0})
  set_extra extra s =
      if is_kind balancing s.kind
      then (record s { evm_transaction = none; extra = some extra }, ok tt)
      else (s, err (Error.tx_kind_to_add_extra_invalid s.kind))

  unfoldable pub set_evm_transaction : Evm → Staging → After (Unit {0})
  set_evm_transaction evm_transaction s =
      if is_kind balancing s.kind
      then (record s { evm_transaction = some evm_transaction; extra = none }, ok tt)
      else (s, err (Error.tx_kind_to_add_extra_invalid s.kind))

  unfoldable pub need_auth : Staging → Bool
  need_auth s = elim s.extra [ none ↦ false | some c ↦ chain.need_auth c ]

  -- `get_inputs_outputs`, whose `unwrap` panics.
  abbrev pub get_inputs_outputs : Staging → Option Ios
  get_inputs_outputs s = chain.input_output_builder s.inputs s.outputs

  -- What the builder holds after the witnesses, or an error, or a panic.
  unfoldable pub builder_after_witness : Staging → Outcome (Types.AuthData Date Ios Witness)
  builder_after_witness s =
      if length s.witnesses == length s.inputs
      then elim (get_inputs_outputs s) [
        | none ↦ panic
        | some ios ↦ elim s.valid_until [
          | none ↦ panic
          | some date ↦ ok (record { valid_until = date; ios = ios; witnesses = s.witnesses })
        ]
      ]
      else err (Error.tx_kind_to_finalize_invalid s.kind)

  -- The loop of `finalize_payload` over the outputs that the balance added.
  unfoldable pub add_outputs : List Output → Staging → After (Unit {0})
  add_outputs [] s = (s, ok tt)
  add_outputs (o ∷ os) s =
      let (s', r) = add_output o s in
      let rest = add_outputs os s' in
      elim r [ ok _ ↦ rest | err e ↦ (s', err e) | panic ↦ (s', panic) ]

  -- What `finalize_payload` does after the loop.
  abbrev pub finalized : Balance → After (Unit {0}) → After Balance
  finalized balance (s, ok _) = (record s { kind = finalizing }, ok balance)
  finalized balance (s, err e) = (s, err e)
  finalized balance (s, panic) = (s, panic)

  unfoldable pub finalize_payload :
      Option (Certificate Payload) → Fee → Policy → Staging → After Balance
  finalize_payload payload fee_algorithm output_policy s = elim s.valid_until [
    | none ↦ (s, err Error.cannot_finalize_without_valid_until)
    | some _ ↦ elim (get_inputs_outputs s) [
      | none ↦ (s, panic)
      | some ios ↦ elim (chain.seal_with_output_policy ios payload fee_algorithm output_policy) [
        | none ↦ (s, err Error.seal_failed)
        | some (balance, added_outputs) ↦ finalized balance (add_outputs added_outputs s)
      ]
    ]
  ]

  -- The checks on an owner stake delegation, made after its payload was finalized.
  unfoldable pub check_inputs : List TransactionInput → Option Error
  check_inputs (record_input ∷ []) = elim record_input.input [
    | account _ ↦ none
    | utxo _ _ ↦ some Error.tx_with_owner_stake_delegation_has_utxo_input
  ]
  check_inputs inputs = some (Error.tx_with_owner_stake_delegation_multi_inputs (length inputs))

  unfoldable pub check_owner : After Balance → After Balance
  check_owner (s, ok balance) = elim (check_inputs s.inputs) [
    | some e ↦ (s, err e)
    | none ↦ elim s.outputs [
      | [] ↦ (s, ok balance)
      | _ ∷ _ ↦ (s, err Error.tx_with_owner_stake_delegation_has_outputs)
    ]
  ]
  check_owner (s, err e) = (s, err e)
  check_owner (s, panic) = (s, panic)

  -- The match of `balance_inputs_outputs` on the certificate.
  unfoldable pub balance_extra :
      Option (Certificate Payload) → Fee → Policy → Staging → After Balance
  balance_extra (some (Certificate.owner_stake_delegation c)) fee policy s =
      check_owner (finalize_payload (some (Certificate.owner_stake_delegation c)) fee policy s)
  balance_extra extra fee policy s = finalize_payload extra fee policy s

  unfoldable pub balance_inputs_outputs : Fee → Policy → Staging → After Balance
  balance_inputs_outputs fee policy s =
      if not (is_kind balancing s.kind)
      then (s, err (Error.tx_kind_to_finalize_invalid s.kind))
      else balance_extra s.extra fee policy s

  unfoldable pub seal : Staging → After (Unit {0})
  seal s =
      if not (is_kind finalizing s.kind)
      then (s, err (Error.tx_kind_to_seal_invalid s.kind))
      else if length s.inputs == length s.witnesses
      then (record s { kind = sealed }, ok tt)
      else (s, err (Error.witness_count_to_seal_invalid (length s.witnesses) (length s.inputs)))

  -- One key is wanted: the certificate signed by it, or the error.
  unfoldable pub sign_by_one :
      Certificate Payload
      → List Key
      → Types.AuthData Date Ios Witness
      → Outcome (SignedCertificate Payload Auth)
  sign_by_one c (key ∷ []) builder = elim (chain.sign_with_key c key builder) [
    | none ↦ err Error.certificate_error
    | some sc ↦ ok sc
  ]
  sign_by_one c keys builder = err (Error.expecting_only_one_signing_key (length keys))

  unfoldable pub sign_by_owners :
      Certificate Payload
      → Option Payload
      → List Key
      → Types.AuthData Date Ios Witness
      → Outcome (SignedCertificate Payload Auth)
  sign_by_owners c pool_reg keys builder = elim (chain.pool_owner_sign c pool_reg keys builder) [
    | none ↦ err Error.certificate_error
    | some sc ↦ ok sc
  ]

  -- The signature that `set_auth` makes for each certificate.
  unfoldable pub sign_certificate :
      Certificate Payload
      → List Key
      → Types.AuthData Date Ios Witness
      → Outcome (SignedCertificate Payload Auth)
  sign_certificate (Certificate.stake_delegation s) = sign_by_one (Certificate.stake_delegation s)
  sign_certificate (Certificate.pool_registration s) =
      sign_by_owners (Certificate.pool_registration s) (some s)
  sign_certificate (Certificate.pool_retirement s) =
      sign_by_owners (Certificate.pool_retirement s) none
  sign_certificate (Certificate.pool_update s) = sign_by_owners (Certificate.pool_update s) none
  sign_certificate (Certificate.vote_plan vp) = sign_by_one (Certificate.vote_plan vp)
  sign_certificate (Certificate.vote_tally vt) = sign_by_one (Certificate.vote_tally vt)
  sign_certificate (Certificate.update_proposal up) = sign_by_one (Certificate.update_proposal up)
  sign_certificate (Certificate.update_vote uv) = sign_by_one (Certificate.update_vote uv)
  sign_certificate (Certificate.evm_mapping uv) = sign_by_one (Certificate.evm_mapping uv)
  sign_certificate (Certificate.owner_stake_delegation _) = λ _ _. panic
  sign_certificate (Certificate.vote_cast _) = λ _ _. panic
  sign_certificate (Certificate.mint_token _) = λ _ _. panic

  -- The certificates at which `set_auth` is `unreachable!()`.
  unfoldable pub is_never_signed : Certificate Payload → Bool
  is_never_signed (Certificate.owner_stake_delegation _) = true
  is_never_signed (Certificate.vote_cast _) = true
  is_never_signed (Certificate.mint_token _) = true
  is_never_signed _ = false

  unfoldable pub auth_of :
      Certificate Payload → List Key → Staging → Outcome (SignedCertificate Payload Auth)
  auth_of c keys s = if is_never_signed c then panic else elim (builder_after_witness s) [
    | ok builder ↦ sign_certificate c keys builder
    | err e ↦ err e
    | panic ↦ panic
  ]

  abbrev pub authenticated : Staging → Outcome (SignedCertificate Payload Auth) → After (Unit {0})
  authenticated s (ok sc) = (record s { extra_authed = some sc; kind = authed }, ok tt)
  authenticated s (err e) = (s, err e)
  authenticated s panic = (s, panic)

  unfoldable pub set_auth : List Key → Staging → After (Unit {0})
  set_auth keys s =
      if not (is_kind sealed s.kind)
      then (s, err (Error.tx_kind_to_seal_invalid s.kind))
      else if not (need_auth s)
      then (s, err Error.tx_doesnt_need_payload_auth)
      else elim s.extra [ none ↦ (s, panic) | some c ↦ authenticated s (auth_of c keys s) ]

  abbrev pub Message : Type 0
  Message = Fragment Payload Auth (Types.AuthData Date Ios Witness)

  abbrev pub made :
      (Types.AuthData Date Ios Witness → Message)
      → Outcome (Types.AuthData Date Ios Witness)
      → Outcome Message
  made to_fragment (ok builder) = ok (to_fragment builder)
  made to_fragment (err e) = err e
  made to_fragment panic = panic

  -- The match of `fragment` on a certificate that wants no authentication.
  unfoldable pub unsigned_fragment : Certificate Payload → Staging → Outcome Message
  unsigned_fragment (Certificate.owner_stake_delegation c) s =
      made (Fragment.of_certificate (Certificate.owner_stake_delegation c))
        (builder_after_witness s)
  unsigned_fragment (Certificate.vote_cast c) s =
      made (Fragment.of_certificate (Certificate.vote_cast c)) (builder_after_witness s)
  unsigned_fragment (Certificate.mint_token c) s =
      made (Fragment.of_certificate (Certificate.mint_token c)) (builder_after_witness s)
  unsigned_fragment _ s = panic

  unfoldable pub fragment : Staging → Outcome Message
  fragment s = elim s.extra_authed [
    | none ↦
        if not (is_kind sealed s.kind)
        then err (Error.tx_kind_to_get_message_invalid s.kind)
        else if need_auth s
        then err Error.tx_need_payload_auth
        else elim s.extra [
          | none ↦ made Fragment.transaction (builder_after_witness s)
          | some cert ↦ unsigned_fragment cert s
        ]
    | some signed_cert ↦
        if not (is_kind authed s.kind)
        then err (Error.tx_kind_to_get_message_invalid s.kind)
        else made (Fragment.of_signed signed_cert) (builder_after_witness s)
  ]

  -- The hash that the witnesses sign; `expect` panics without an expiry date.
  unfoldable pub transaction_sign_data_hash : Staging → Outcome Hash
  transaction_sign_data_hash s =
      if not (is_kind finalizing s.kind)
      then err (Error.tx_kind_to_sign_data_hash_invalid s.kind)
      else elim s.valid_until [
        | none ↦ panic
        | some date ↦ ok (chain.sign_data_hash s.extra date s.inputs s.outputs)
      ]

  -- The commands that change a staging, as the command line makes them.
  pub data Command : Type 0 where
    expiry_date : Date → Command
    input : TransactionInput → Command
    output : Output → Command
    account_input : AddressKind → ℕ → Command
    witness : Witness → Command
    certificate : Certificate Payload → Command
    evm : Evm → Command
    finalize : Fee → Policy → Command
    seal_it : Command
    auth : List Key → Command

  -- The result of the balance is not part of what a command leaves.
  abbrev forget : {A : Type 0} → After A → After (Unit {0})
  forget (s, ok _) = (s, ok tt)
  forget (s, err e) = (s, err e)
  forget (s, panic) = (s, panic)

  unfoldable pub perform : Command → Staging → After (Unit {0})
  perform (expiry_date d) = set_expiry_date d
  perform (input i) = add_input i
  perform (output o) = add_output o
  perform (account_input a v) = add_account a v
  perform (witness w) = add_witness w
  perform (certificate c) = set_extra c
  perform (evm e) = set_evm_transaction e
  perform (finalize fee policy) = λ s. forget (balance_inputs_outputs fee policy s)
  perform seal_it = seal
  perform (auth keys) = set_auth keys
