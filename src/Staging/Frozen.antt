-- ===== src/Staging/Frozen.antt =====
-- What may change after balancing, and what a fragment is made of.
use jormungandr.Prelude.{
  ◌≡◌, refl, sym, subst, ◌∙◌, false, Option, List, [], ◌∷◌, inl, inr, arith, Option-cases,
  Bool-cases,
}
use jormungandr.Staging.Types.{
  balancing, sealed, is_kind, Outcome, ok, err, panic, TransactionInput, Certificate,
  SignedCertificate, Chain, single_address, group_address, account_address, multisig_address,
  script_address,
}
use jormungandr.Staging.{
  Staging, set_expiry_date, add_input, add_output, add_account, add_witness, set_extra,
  set_evm_transaction, need_auth, builder_after_witness, balance_inputs_outputs, seal, auth_of,
  authenticated, set_auth, fragment, unsigned_fragment, Command, perform, expiry_date, input,
  output, account_input, witness, certificate, evm, finalize, seal_it, auth,
}
use jormungandr.Staging.Invariant.{
  balance_refused, perform_all, set_auth-some, set_auth-none, forget_state,
}

module _ (chain : Chain) where
  open chain use {Payload, Output, Witness, Evm, Date, Ios, Key, Auth, Fee, Policy, Balance}

  -- The parts that the witnesses sign, and the kind, between two states.
  pub record SameContent (s s' : Staging chain) : Type 0 where
    pub kind : is_kind balancing s'.kind ≡ false
    pub inputs : s'.inputs ≡ s.inputs
    pub outputs : s'.outputs ≡ s.outputs
    pub valid_until : s'.valid_until ≡ s.valid_until
    pub extra : s'.extra ≡ s.extra
    pub evm_transaction : s'.evm_transaction ≡ s.evm_transaction

  SameContent-refl : (s : Staging chain) → is_kind balancing s.kind ≡ false → SameContent s s
  SameContent-refl s b = record {
    kind = b;
    inputs = refl;
    outputs = refl;
    valid_until = refl;
    extra = refl;
    evm_transaction = refl;
  }

  SameContent-of_eq :
      (s s' : Staging chain) → is_kind balancing s.kind ≡ false → s' ≡ s → SameContent s s'
  SameContent-of_eq s s' b e = rw e (SameContent-refl s b)

  authenticated_same :
      (s : Staging chain) (r : Outcome (SignedCertificate Payload Auth))
      → is_kind balancing s.kind ≡ false
      → SameContent s (authenticated chain s r).0
  unfolding is_kind
  authenticated_same s (ok sc) b = ground arith
  authenticated_same s (err e) b = SameContent-refl s b
  authenticated_same s panic b = SameContent-refl s b

  add_input_same :
      (i : TransactionInput) (s : Staging chain)
      → is_kind balancing s.kind ≡ false
      → SameContent s (add_input chain i s).0
  unfolding add_input
  add_input_same i s b = rw (b, add_input) (SameContent-refl s b)

  set_auth_same :
      (keys : List Key) (s : Staging chain)
      → is_kind balancing s.kind ≡ false
      → SameContent s (set_auth chain keys s).0
  unfolding set_auth
  set_auth_same keys s b = elim (Bool-cases (is_kind sealed s.kind)) [
    | inr k ↦ rw (k, set_auth) (SameContent-refl s b)
    | inl k ↦ elim (Bool-cases (need_auth chain s)) [
      | inr n ↦ rw (k, set_auth, n) (SameContent-refl s b)
      | inl n ↦ elim (Option-cases s.extra) [
        | inl e ↦ SameContent-of_eq s _ b (set_auth-none chain keys s k n e)
        | inr (c, e) ↦
            subst (λ r. SameContent s r.0) (sym (set_auth-some chain keys s c k n e))
              (authenticated_same s (auth_of chain c keys s) b)
      ]
    ]
  ]

  add_witness_same :
      (w : Witness) (s : Staging chain)
      → is_kind balancing s.kind ≡ false
      → SameContent s (add_witness chain w s).0
  unfolding add_witness
  add_witness_same w s b = ground arith

  seal_same :
      (s : Staging chain) → is_kind balancing s.kind ≡ false → SameContent s (seal chain s).0
  unfolding seal is_kind
  seal_same s b = ground arith

  -- After balancing no command changes the inputs, the outputs, the expiry date, the certificate or
  -- the EVM transaction, nor leads back to balancing.
  pub perform_frozen :
      (c : Command chain) (s : Staging chain)
      → is_kind balancing s.kind ≡ false
      → SameContent s (perform chain c s).0
  unfolding perform set_expiry_date add_output add_account add_witness set_extra set_evm_transaction
      seal
  perform_frozen (expiry_date d) s b = rw (b, set_expiry_date) (SameContent-refl s b)
  perform_frozen (input i) s b = add_input_same i s b
  perform_frozen (output o) s b = rw (b, add_output) (SameContent-refl s b)
  perform_frozen (account_input (account_address key) value) s b = add_input_same _ s b
  perform_frozen (account_input (multisig_address key) value) s b = add_input_same _ s b
  perform_frozen (account_input single_address value) s b = SameContent-refl s b
  perform_frozen (account_input group_address value) s b = SameContent-refl s b
  perform_frozen (account_input script_address value) s b = SameContent-refl s b
  perform_frozen (witness w) s b = add_witness_same w s b
  perform_frozen (certificate c) s b = rw (b, set_extra) (SameContent-refl s b)
  perform_frozen (evm e) s b = rw (b, set_evm_transaction) (SameContent-refl s b)
  perform_frozen (finalize fee policy) s b = SameContent-of_eq s _ b (
      forget_state chain (balance_inputs_outputs chain fee policy s)
      ∙ balance_refused chain fee policy s b)
  perform_frozen seal_it s b = seal_same s b
  perform_frozen (auth keys) s b = set_auth_same keys s b

  -- After balancing no sequence of commands changes the inputs, the outputs, the expiry date, the
  -- certificate or the EVM transaction, nor leads back to balancing.
  pub perform_all_frozen :
      (cs : List (Command chain)) (s : Staging chain)
      → is_kind balancing s.kind ≡ false
      → SameContent s (perform_all chain cs s)
  unfolding perform_all
  perform_all_frozen [] s b = SameContent-refl s b
  perform_all_frozen (c ∷ cs) s b =
      let one = perform_frozen c s b in
      let rest = perform_all_frozen cs (perform chain c s).0 one.kind in
      record {
        kind = rest.kind;
        inputs = rest.inputs ∙ one.inputs;
        outputs = rest.outputs ∙ one.outputs;
        valid_until = rest.valid_until ∙ one.valid_until;
        extra = rest.extra ∙ one.extra;
        evm_transaction = rest.evm_transaction ∙ one.evm_transaction;
      }

  unsigned-ignores_evm :
      (s : Staging chain) (e : Option Evm) (c : Certificate Payload)
      → unsigned_fragment chain c (record s { evm_transaction = e }) ≡ unsigned_fragment chain c s
  unfolding unsigned_fragment builder_after_witness
  unsigned-ignores_evm s e (Certificate.vote_plan c) = refl
  unsigned-ignores_evm s e c = refl

  -- A staged EVM transaction has no part in the fragment: the same fragment comes out without it.
  pub fragment-ignores_evm :
      (s : Staging chain) (e : Option Evm)
      → fragment chain (record s { evm_transaction = e }) ≡ fragment chain s
  unfolding fragment unsigned_fragment builder_after_witness need_auth
  fragment-ignores_evm s e = elim (Option-cases s.extra_authed) [
    | inr (sc, x) ↦ rw x refl
    | inl x ↦ elim (Option-cases s.extra) [
      | inl n ↦ rw (x, n) refl
      | inr (c, n) ↦ ground (arith, x, n, unsigned-ignores_evm s e c)
    ]
  ]
