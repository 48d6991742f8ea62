-- ===== src/Staging/Message.antt =====
-- When a staging is ready to become a fragment, and what the fragment carries.
use jormungandr.Prelude.{
  ◌≡◌, refl, ap, ◌∙◌, true, false, not, none, some, ◌⊎◌, inl, inr, length, is_some, arith,
  Option-cases, ==_refl,
}
use jormungandr.Staging.Types.{
  StagingKind, balancing, finalizing, sealed, authed, is_kind, Error, Outcome, ok, err, panic,
  TransactionInput, Certificate, SignedCertificate, Chain, AddressKind, single_address,
  group_address, account_address, multisig_address, script_address,
}
use jormungandr.Staging.Types
use jormungandr.Staging.{
  Staging, need_auth, builder_after_witness, is_never_signed, fragment, unsigned_fragment,
  get_inputs_outputs, Message, made,
}
use jormungandr.Staging.Invariant.{IsValid}

module _ (chain : Chain) where
  open chain use {Payload, Output, Witness, Date, Ios, Auth}

  -- What a fragment carries beside its payload.
  abbrev pub carried : Message chain → Types.AuthData Date Ios Witness
  carried (Types.Fragment.transaction parts) = parts
  carried (Types.Fragment.of_certificate c parts) = parts
  carried (Types.Fragment.of_signed sc parts) = parts

  -- A staging that is sealed and wants no authentication, or that is authed.
  abbrev pub IsReady : Staging chain → Type 0
  IsReady s =
      ((is_kind sealed s.kind ≡ true) × (need_auth chain s ≡ false))
      ⊎ (is_kind authed s.kind ≡ true)

  built :
      (s : Staging chain) (ios : Ios) (date : Date)
      → length s.witnesses ≡ length s.inputs
      → get_inputs_outputs chain s ≡ some ios
      → s.valid_until ≡ some date
      → builder_after_witness chain s
        ≡ ok (record { valid_until = date; ios = ios; witnesses = s.witnesses })
  unfolding builder_after_witness
  built s ios date w i d = ground (arith, w, i, d, ==_refl (length s.inputs))

  unsigned-made :
      (c : Certificate Payload) (s : Staging chain) (parts : Types.AuthData Date Ios Witness)
      → is_never_signed chain c ≡ true
      → builder_after_witness chain s ≡ ok parts
      → (m : Message chain) × (unsigned_fragment chain c s ≡ ok m) × (carried m ≡ parts)
  unfolding is_never_signed unsigned_fragment
  unsigned-made (Certificate.owner_stake_delegation p) s parts n b =
      (Types.Fragment.of_certificate (Certificate.owner_stake_delegation p) parts, rw b, refl)
  unsigned-made (Certificate.vote_cast p) s parts n b =
      (Types.Fragment.of_certificate (Certificate.vote_cast p) parts, rw b, refl)
  unsigned-made (Certificate.mint_token p) s parts n b =
      (Types.Fragment.of_certificate (Certificate.mint_token p) parts, rw b, refl)
  unsigned-made c s parts n b = absurd (cc)

  -- The branches of `fragment`.
  fragment-plain :
      (s : Staging chain)
      → s.extra_authed ≡ none
      → is_kind sealed s.kind ≡ true
      → s.extra ≡ none
      → fragment chain s ≡ made chain Types.Fragment.transaction (builder_after_witness chain s)
  unfolding fragment need_auth
  fragment-plain s a k e = ground (arith, a, k, e)

  fragment-unsigned :
      (s : Staging chain) (c : Certificate Payload)
      → s.extra_authed ≡ none
      → is_kind sealed s.kind ≡ true
      → s.extra ≡ some c
      → chain.need_auth c ≡ false
      → fragment chain s ≡ unsigned_fragment chain c s
  unfolding fragment need_auth
  fragment-unsigned s c a k e n = ground (arith, a, k, e, n)

  fragment-signed :
      (s : Staging chain) (sc : SignedCertificate Payload Auth)
      → s.extra_authed ≡ some sc
      → is_kind authed s.kind ≡ true
      → fragment chain s ≡ made chain (Types.Fragment.of_signed sc) (builder_after_witness chain s)
  unfolding fragment
  fragment-signed s sc a k = ground (arith, a, k)

  need_auth_some :
      (s : Staging chain) (c : Certificate Payload)
      → s.extra ≡ some c
      → need_auth chain s ≡ false
      → chain.need_auth c ≡ false
  unfolding need_auth
  need_auth_some s c e n = ground (arith, e)

  unsigned-ready :
      (s : Staging chain) (parts : Types.AuthData Date Ios Witness)
      → ((c : Certificate Payload) → chain.need_auth c ≡ not (is_never_signed chain c))
      → s.extra_authed ≡ none
      → is_kind sealed s.kind ≡ true
      → need_auth chain s ≡ false
      → builder_after_witness chain s ≡ ok parts
      → (m : Message chain) × (fragment chain s ≡ ok m) × (carried m ≡ parts)
  unsigned-ready s parts listed a k n b = elim (Option-cases s.extra) [
    | inl e ↦ (Types.Fragment.transaction parts, fragment-plain s a k e ∙ ap (made chain _) b, refl)
    | inr (c, e) ↦
        let wanted = need_auth_some s c e n in
        let never : is_never_signed chain c ≡ true = ground (arith, listed c) in
        let (m, f, same) = unsigned-made c s parts never b in
        (m, fragment-unsigned s c a k e wanted ∙ f, same)
  ]

  signed-ready :
      (s : Staging chain) (parts : Types.AuthData Date Ios Witness)
      → is_some s.extra_authed ≡ true
      → is_kind authed s.kind ≡ true
      → builder_after_witness chain s ≡ ok parts
      → (m : Message chain) × (fragment chain s ≡ ok m) × (carried m ≡ parts)
  signed-ready s parts a k b = elim (Option-cases s.extra_authed) [
    | inl e ↦ absurd (ground (arith, e))
    | inr (sc, e) ↦
        (Types.Fragment.of_signed sc parts, fragment-signed s sc e k ∙ ap (made chain _) b, refl)
  ]

  -- What a staging that is ready has, by its kind.
  ready_parts :
      (s : Staging chain) (ios : Ios)
      → IsValid chain s
      → IsReady s
      → get_inputs_outputs chain s ≡ some ios
      → (date : Date) × (s.valid_until ≡ some date)
        × (builder_after_witness chain s
            ≡ ok (record { valid_until = date; ios = ios; witnesses = s.witnesses }))
  unfolding is_kind
  ready_parts s ios v r i = elim (Option-cases s.valid_until) [
    | inl e ↦ absurd (ground (arith, e, v.dated))
    | inr (date, e) ↦
        (date, e, built s ios date (ground (arith, r, v.witnessed, v.authed_witnessed)) i e)
  ]

  -- A well-formed staging that is sealed and wants no authentication, or that is authed, yields a
  -- fragment of its expiry date, its inputs and outputs and its witnesses, where the inputs and the
  -- outputs can be built and the certificates that want no authentication are the three that
  -- `fragment` lists.
  pub fragment-ready :
      (s : Staging chain) (ios : Ios)
      → ((c : Certificate Payload) → chain.need_auth c ≡ not (is_never_signed chain c))
      → IsValid chain s
      → IsReady s
      → get_inputs_outputs chain s ≡ some ios
      → (m : Message chain) × (date : Date) × (fragment chain s ≡ ok m)
        × (s.valid_until ≡ some date)
        × (carried m ≡ record { valid_until = date; ios = ios; witnesses = s.witnesses })
  unfolding is_kind
  fragment-ready s ios listed v r i =
      let (date, e, b) = ready_parts s ios v r i in
      elim r [
        | inl (k, n) ↦
            let absent : s.extra_authed ≡ none = ground (arith, v.signed) in
            let (m, f, same) = unsigned-ready s _ listed absent k n b in (m, date, f, e, same)
        | inr k ↦ let (m, f, same) = signed-ready s _ (v.signed ∙ k) k b in (m, date, f, e, same)
      ]
