-- ===== src/Staging/Invariant.antt =====
-- What every command keeps of a staging, and the way from its commands to a fragment.
use mathlib.Core.List.{append-nil, append_assoc}
use jormungandr.Prelude.{
  ◌≤◌, ◌≡◌, refl, sym, ap, subst, true, false, Option, none, some, List, [], ◌∷◌, ◌++◌, ◌⊎◌, inl,
  inr, length, length-append, is_some, arith, Option-cases, Bool-cases,
}
use jormungandr.Staging.Types.{
  StagingKind, balancing, finalizing, sealed, authed, is_kind, Error, Outcome, ok, err, panic,
  TransactionInput, Certificate, SignedCertificate, Chain, AddressKind, single_address,
  group_address, account_address, multisig_address, script_address,
}
use jormungandr.Staging.Types
use jormungandr.Staging.{
  Staging, new, set_expiry_date, add_input, add_output, add_account, add_witness, set_extra,
  set_evm_transaction, need_auth, add_outputs, finalize_payload, check_owner, balance_extra,
  balance_inputs_outputs, seal, auth_of, authenticated, set_auth, Command, perform, forget, After,
  get_inputs_outputs, expiry_date, input, output, account_input, witness, certificate, evm,
  finalize, seal_it, auth,
}

module _ (chain : Chain) where
  open chain use {Payload, Output, Witness, Evm, Date, Ios, Key, Auth, Fee, Policy, Balance}

  pub record IsValid (s : Staging chain) : Type 0 where
    pub few : length s.witnesses ≤ length s.inputs
    pub unwitnessed : is_kind balancing s.kind ≡ true → length s.witnesses ≡ 0
    pub dated : is_kind balancing s.kind ≡ false → is_some s.valid_until ≡ true
    pub witnessed : is_kind sealed s.kind ≡ true → length s.witnesses ≡ length s.inputs
    pub authed_witnessed : is_kind authed s.kind ≡ true → length s.witnesses ≡ length s.inputs
    pub signed : is_some s.extra_authed ≡ is_kind authed s.kind
    pub exclusive : (is_some s.extra ≡ false) ⊎ (is_some s.evm_transaction ≡ false)

  pub new-IsValid : IsValid (new chain)
  unfolding new is_kind
  new-IsValid = ground arith

  -- While the staging is balancing, all outputs are added.
  pub add_outputs_lem :
      (os : List Output) (s : Staging chain)
      → is_kind balancing s.kind ≡ true
      → add_outputs chain os s ≡ (record s { outputs = s.outputs ++ os }, ok tt)
  unfolding add_outputs add_output
  add_outputs_lem [] s b = ground (arith, append-nil s.outputs)
  add_outputs_lem (o ∷ os) s b = ground (
    arith,
    add_outputs_lem os (record s { outputs = s.outputs ++ o ∷ [] }) b,
    append_assoc s.outputs (o ∷ []) os,
  )

  abbrev pub finalized_to : List Output → Staging chain → Staging chain
  finalized_to os s = record s { outputs = s.outputs ++ os; kind = finalizing }

  -- The ways in which `finalize_payload` ends: it changes nothing, or it adds outputs and goes on to
  -- the witnesses, which it does only with an expiry date.
  pub finalize_payload-cases :
      (payload : Option (Certificate Payload)) (fee : Fee) (policy : Policy) (s : Staging chain)
      → is_kind balancing s.kind ≡ true
      → ((e : Error) × (finalize_payload chain payload fee policy s ≡ (s, err e)))
        ⊎ (finalize_payload chain payload fee policy s ≡ (s, panic))
        ⊎ ((balance : Balance) × (os : List Output) × (finalize_payload chain payload fee policy s
              ≡ (finalized_to os s, ok balance))
            × (is_some s.valid_until ≡ true))
  unfolding finalize_payload
  finalize_payload-cases payload fee policy s b = elim (Option-cases s.valid_until) [
    | inl e ↦ inl (Error.cannot_finalize_without_valid_until, ground (arith, e))
    | inr (d, e) ↦ elim (Option-cases (get_inputs_outputs chain s)) [
      | inl e2 ↦ inr (inl (ground (arith, e, e2)))
      | inr (ios, e2) ↦ elim (Option-cases (chain.seal_with_output_policy ios payload fee policy)) [
        | inl e3 ↦ inl (Error.seal_failed, ground (arith, e, e2, e3))
        | inr ((balance, os), e3) ↦ inr (
            inr (balance, os, ground (arith, e, e2, e3, add_outputs_lem os s b), ground (arith, e)))
      ]
    ]
  ]

  finalized_to-IsValid :
      (os : List Output) (s : Staging chain)
      → IsValid s
      → is_kind balancing s.kind ≡ true
      → is_some s.valid_until ≡ true
      → IsValid (finalized_to os s)
  unfolding is_kind
  finalized_to-IsValid os s v b d = ground arith

  -- The checks on an owner stake delegation look at the state and keep it.
  pub check_owner_keeps : (r : After chain Balance) → (check_owner chain r).0 ≡ r.0
  unfolding check_owner
  check_owner_keeps (s, ok balance) = ground arith
  check_owner_keeps (s, err e) = refl
  check_owner_keeps (s, panic) = refl

  pub balance_extra_state :
      (extra : Option (Certificate Payload)) (fee : Fee) (policy : Policy) (s : Staging chain)
      → (balance_extra chain extra fee policy s).0 ≡ (finalize_payload chain extra fee policy s).0
  unfolding balance_extra
  balance_extra_state none fee policy s = refl
  balance_extra_state (some (Certificate.owner_stake_delegation c)) fee policy s =
      check_owner_keeps
        (finalize_payload chain (some (Certificate.owner_stake_delegation c)) fee policy s)
  balance_extra_state (some c) fee policy s = refl

  finalize_payload-IsValid :
      (payload : Option (Certificate Payload)) (fee : Fee) (policy : Policy) (s : Staging chain)
      → IsValid s
      → is_kind balancing s.kind ≡ true
      → IsValid (finalize_payload chain payload fee policy s).0
  finalize_payload-IsValid payload fee policy s v b =
      elim (finalize_payload-cases payload fee policy s b) [
        | inl (e, h) ↦ subst IsValid (ap (λ r. r.0) (sym h)) v
        | inr (inl h) ↦ subst IsValid (ap (λ r. r.0) (sym h)) v
        | inr (inr (balance, os, h, d)) ↦
            subst IsValid (ap (λ r. r.0) (sym h)) (finalized_to-IsValid os s v b d)
      ]

  pub balance_refused :
      (fee : Fee) (policy : Policy) (s : Staging chain)
      → is_kind balancing s.kind ≡ false
      → (balance_inputs_outputs chain fee policy s).0 ≡ s
  unfolding balance_inputs_outputs
  balance_refused fee policy s b = rw (b, balance_inputs_outputs)

  pub balance_state :
      (fee : Fee) (policy : Policy) (s : Staging chain)
      → is_kind balancing s.kind ≡ true
      → (balance_inputs_outputs chain fee policy s).0
        ≡ (finalize_payload chain s.extra fee policy s).0
  unfolding balance_inputs_outputs
  balance_state fee policy s b =
      rw (b, balance_inputs_outputs) (balance_extra_state s.extra fee policy s)

  balance-IsValid :
      (fee : Fee) (policy : Policy) (s : Staging chain)
      → IsValid s
      → IsValid (balance_inputs_outputs chain fee policy s).0
  balance-IsValid fee policy s v = elim (Bool-cases (is_kind balancing s.kind)) [
    | inr b ↦ subst IsValid (sym (balance_refused fee policy s b)) v
    | inl b ↦
        subst IsValid (sym (balance_state fee policy s b))
          (finalize_payload-IsValid s.extra fee policy s v b)
  ]

  authenticated-IsValid :
      (s : Staging chain) (r : Outcome (SignedCertificate Payload Auth))
      → IsValid s
      → is_kind sealed s.kind ≡ true
      → IsValid (authenticated chain s r).0
  unfolding is_kind
  authenticated-IsValid s (ok sc) v k = ground arith
  authenticated-IsValid s (err e) v k = v
  authenticated-IsValid s panic v k = v

  pub forget_state : {A : Type 0} (r : After chain A) → (forget chain r).0 ≡ r.0
  forget_state (s, ok a) = refl
  forget_state (s, err e) = refl
  forget_state (s, panic) = refl

  add_input-IsValid :
      (i : TransactionInput) (s : Staging chain) → IsValid s → IsValid (add_input chain i s).0
  unfolding add_input is_kind
  add_input-IsValid i s v = ground (arith, length-append s.inputs (i ∷ []))

  pub set_auth-none :
      (keys : List Key) (s : Staging chain)
      → is_kind sealed s.kind ≡ true
      → need_auth chain s ≡ true
      → s.extra ≡ none
      → (set_auth chain keys s).0 ≡ s
  unfolding set_auth
  set_auth-none keys s b n e = ground arith

  pub set_auth-some :
      (keys : List Key) (s : Staging chain) (c : Certificate Payload)
      → is_kind sealed s.kind ≡ true
      → need_auth chain s ≡ true
      → s.extra ≡ some c
      → set_auth chain keys s ≡ authenticated chain s (auth_of chain c keys s)
  unfolding set_auth
  set_auth-some keys s c b n e = ground arith

  set_auth-IsValid :
      (keys : List Key) (s : Staging chain) → IsValid s → IsValid (set_auth chain keys s).0
  unfolding set_auth
  set_auth-IsValid keys s v = elim (Bool-cases (is_kind sealed s.kind)) [
    | inr b ↦ rw (b, set_auth) v
    | inl b ↦ elim (Bool-cases (need_auth chain s)) [
      | inr n ↦ rw (b, set_auth, n) v
      | inl n ↦ elim (Option-cases s.extra) [
        | inl e ↦ subst IsValid (sym (set_auth-none keys s b n e)) v
        | inr (c, e) ↦
            subst (λ r. IsValid r.0) (sym (set_auth-some keys s c b n e))
              (authenticated-IsValid s (auth_of chain c keys s) v b)
      ]
    ]
  ]

  -- Every command keeps a staging well formed: no more witnesses than inputs, none while balancing
  -- and one for each input once sealed, an expiry date after balancing, a signed certificate exactly
  -- when authed, and never a certificate beside an EVM transaction.
  pub perform-IsValid :
      (c : Command chain) (s : Staging chain) → IsValid s → IsValid (perform chain c s).0
  unfolding perform set_expiry_date add_output add_account add_witness set_extra set_evm_transaction
      seal is_kind
  perform-IsValid (expiry_date d) s v = ground arith
  perform-IsValid (input i) s v = add_input-IsValid i s v
  perform-IsValid (output o) s v = ground arith
  perform-IsValid (account_input (account_address key) value) s v =
      add_input-IsValid (record { input = Types.account key; value = value }) s v
  perform-IsValid (account_input (multisig_address key) value) s v =
      add_input-IsValid (record { input = Types.account key; value = value }) s v
  perform-IsValid (account_input single_address value) s v = v
  perform-IsValid (account_input group_address value) s v = v
  perform-IsValid (account_input script_address value) s v = v
  perform-IsValid (witness w) s v = ground (arith, length-append s.witnesses (w ∷ []))
  perform-IsValid (certificate c) s v = ground arith
  perform-IsValid (evm e) s v = ground arith
  perform-IsValid (finalize fee policy) s v =
      rw (forget_state (balance_inputs_outputs chain fee policy s)) (balance-IsValid fee policy s v)
  perform-IsValid seal_it s v = ground arith
  perform-IsValid (auth keys) s v = set_auth-IsValid keys s v

  unfoldable pub perform_all : List (Command chain) → Staging chain → Staging chain
  perform_all [] s = s
  perform_all (c ∷ cs) s = perform_all cs (perform chain c s).0

  -- Whatever the commands and their results, a staging that began anew is well formed: no more
  -- witnesses than inputs, none while balancing and one for each input once sealed, an expiry date
  -- after balancing, a signed certificate exactly when authed, and never a certificate beside an EVM
  -- transaction.
  pub perform_all-IsValid : (cs : List (Command chain)) → IsValid (perform_all cs (new chain))
  unfolding perform_all
  perform_all-IsValid cs = go cs (new chain) new-IsValid
    where
      go : (cs : List (Command chain)) (s : Staging chain) → IsValid s → IsValid (perform_all cs s)
      go [] s v = v
      go (c ∷ cs) s v = go cs (perform chain c s).0 (perform-IsValid c s v)
