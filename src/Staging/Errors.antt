-- ===== src/Staging/Errors.antt =====
-- What a refused command leaves behind.
use jormungandr.Prelude.{
  ◌≡◌, refl, sym, subst, ap, ◌∙◌, Bool, true, false, Option, none, some, List, ◌⊎◌, inl, inr, arith,
  Option-cases, Bool-cases,
}
use jormungandr.Staging.Types.{
  balancing, finalizing, sealed, is_kind, Outcome, ok, err, panic, Certificate, SignedCertificate,
  Chain, single_address, group_address, account_address, multisig_address, script_address,
}
use jormungandr.Staging.{
  Staging, set_expiry_date, add_input, add_output, add_account, add_witness, set_extra,
  set_evm_transaction, need_auth, balance_inputs_outputs, seal, finalize_payload, balance_extra,
  authenticated, set_auth, Command, perform, forget, After, expiry_date, input, output,
  account_input, witness, certificate, evm, finalize, seal_it, auth,
}
use jormungandr.Staging.Invariant.{
  balance_refused, balance_state, finalize_payload-cases, forget_state, set_auth-some,
  set_auth-none,
}

module _ (chain : Chain) where
  open chain use {Payload, Output, Witness, Evm, Date, Ios, Key, Auth, Fee, Policy, Balance}

  abbrev pub is_ok : {A : Type 0} → Outcome A → Bool
  is_ok (ok _) = true
  is_ok _ = false

  -- The staging is the one before, but for a balance of a staging with an owner stake delegation,
  -- which may have gone on to the witnesses before it was refused.
  abbrev pub IsKept : Command chain → Staging chain → Staging chain → Type 0
  IsKept (finalize _ _) s s' =
      (s' ≡ s)
      ⊎ ((p : Payload) × (s.extra ≡ some (Certificate.owner_stake_delegation p))
          × (is_kind finalizing s'.kind ≡ true))
  IsKept _ s s' = s' ≡ s

  authenticated_refused :
      (s : Staging chain) (r : Outcome (SignedCertificate Payload Auth))
      → is_ok (authenticated chain s r).1 ≡ false
      → (authenticated chain s r).0 ≡ s
  authenticated_refused s (ok sc) h = cc
  authenticated_refused s (err e) h = refl
  authenticated_refused s panic h = refl

  set_auth_refused :
      (keys : List Key) (s : Staging chain)
      → is_ok (set_auth chain keys s).1 ≡ false
      → (set_auth chain keys s).0 ≡ s
  unfolding set_auth
  set_auth_refused keys s h = elim (Bool-cases (is_kind sealed s.kind)) [
    | inr b ↦ rw (b, set_auth)
    | inl b ↦ elim (Bool-cases (need_auth chain s)) [
      | inr n ↦ rw (b, set_auth, n)
      | inl n ↦ elim (Option-cases s.extra) [
        | inl e ↦ set_auth-none chain keys s b n e
        | inr (c, e) ↦
            let done = set_auth-some chain keys s c b n e in
            ap (λ r. r.0) done ∙ authenticated_refused s _ (subst (λ r. is_ok r.1 ≡ false) done h)
      ]
    ]
  ]

  -- Without an owner stake delegation a balance is refused before it changes anything.
  finalize_payload_refused :
      (payload : Option (Certificate Payload)) (fee : Fee) (policy : Policy) (s : Staging chain)
      → is_kind balancing s.kind ≡ true
      → is_ok (finalize_payload chain payload fee policy s).1 ≡ false
      → (finalize_payload chain payload fee policy s).0 ≡ s
  finalize_payload_refused payload fee policy s b h =
      elim (finalize_payload-cases chain payload fee policy s b) [
        | inl (e, done) ↦ ap (λ r. r.0) done
        | inr (inl done) ↦ ap (λ r. r.0) done
        | inr (inr (balance, os, done, _)) ↦
            let accepted : true ≡ false = subst (λ r. is_ok r.1 ≡ false) done h in absurd (cc)
      ]

  finalize_payload-moves :
      (payload : Option (Certificate Payload)) (fee : Fee) (policy : Policy) (s : Staging chain)
      → is_kind balancing s.kind ≡ true
      → ((finalize_payload chain payload fee policy s).0 ≡ s)
        ⊎ (is_kind finalizing (finalize_payload chain payload fee policy s).0.kind ≡ true)
  unfolding is_kind
  finalize_payload-moves payload fee policy s b =
      elim (finalize_payload-cases chain payload fee policy s b) [
        | inl (e, done) ↦ inl (ap (λ r. r.0) done)
        | inr (inl done) ↦ inl (ap (λ r. r.0) done)
        | inr (inr (balance, os, done, _)) ↦ inr (ap (λ r. is_kind finalizing r.0.kind) done)
      ]

  balance_refused-IsKept :
      (fee : Fee) (policy : Policy) (s : Staging chain) (extra : Option (Certificate Payload))
      → is_kind balancing s.kind ≡ true
      → s.extra ≡ extra
      → is_ok (balance_extra chain extra fee policy s).1 ≡ false
      → IsKept (finalize fee policy) s (finalize_payload chain extra fee policy s).0
  unfolding balance_extra
  balance_refused-IsKept fee policy s none b e h =
      inl (finalize_payload_refused none fee policy s b h)
  balance_refused-IsKept fee policy s (some (Certificate.owner_stake_delegation p)) b e h =
      elim (finalize_payload-moves (some (Certificate.owner_stake_delegation p)) fee policy s b) [
        | inl kept ↦ inl kept
        | inr moved ↦ inr (p, e, moved)
      ]
  balance_refused-IsKept fee policy s (some c) b e h =
      inl (finalize_payload_refused (some c) fee policy s b h)

  forget-is_ok : {A : Type 0} (r : After chain A) → is_ok (forget chain r).1 ≡ is_ok r.1
  forget-is_ok (s, ok a) = refl
  forget-is_ok (s, err e) = refl
  forget-is_ok (s, panic) = refl

  finalize_refused :
      (fee : Fee) (policy : Policy) (s : Staging chain)
      → is_ok (balance_inputs_outputs chain fee policy s).1 ≡ false
      → IsKept (finalize fee policy) s (balance_inputs_outputs chain fee policy s).0
  unfolding balance_inputs_outputs
  finalize_refused fee policy s h = elim (Bool-cases (is_kind balancing s.kind)) [
    | inr b ↦ inl (balance_refused chain fee policy s b)
    | inl b ↦
        subst (IsKept (finalize fee policy) s) (sym (balance_state chain fee policy s b))
          (balance_refused-IsKept fee policy s s.extra b refl (rw (b, balance_inputs_outputs) at h))
  ]

  -- A command that ends in an error or a panic leaves the staging as it was, unless it is the balance
  -- of a staging with an owner stake delegation: that one may have gone on to the witnesses.
  pub perform_refused :
      (c : Command chain) (s : Staging chain)
      → is_ok (perform chain c s).1 ≡ false
      → IsKept c s (perform chain c s).0
  unfolding perform set_expiry_date add_input add_output add_account add_witness set_extra
      set_evm_transaction seal
  perform_refused (expiry_date d) s h = ground arith
  perform_refused (input i) s h = ground arith
  perform_refused (output o) s h = ground arith
  perform_refused (account_input (account_address key) value) s h = ground arith
  perform_refused (account_input (multisig_address key) value) s h = ground arith
  perform_refused (account_input single_address value) s h = refl
  perform_refused (account_input group_address value) s h = refl
  perform_refused (account_input script_address value) s h = refl
  perform_refused (witness w) s h = ground arith
  perform_refused (certificate c) s h = ground arith
  perform_refused (evm e) s h = ground arith
  perform_refused (finalize fee policy) s h =
      let r = balance_inputs_outputs chain fee policy s in
      rw (forget_state chain r) (finalize_refused fee policy s (sym (forget-is_ok r) ∙ h))
  perform_refused seal_it s h = ground arith
  perform_refused (auth keys) s h = set_auth_refused keys s h
