-- ===== src/Blockchain/Candidate/Polling.antt =====
-- The batch that the headers after a landing give: a chain of them, 32 hashes at most.
use mathlib.Core.List.{append-nil, append_assoc}
use jormungandr.Prelude.{
  ℕ, ◌+◌, ◌≤◌, ◌<◌, ◌≡◌, refl, sym, ap, subst, ◌∙◌, arith, Option, none, some, List, [], ◌∷◌, ◌++◌,
  map, ◌⊎◌, inl, inr, Bool-cases, ◌==◌, ==→≡, leb, length, length-append,
}
use jormungandr.Outcome.{Outcome-cases}
use jormungandr.Outcome.Keeps.{Post, Post-mono, Post-mapped}
use jormungandr.Blockchain.Types.{Consensus}
use jormungandr.Blockchain.Chain.{pre_verify_link}
use jormungandr.Blockchain.Chain.Coherence.{IsLinked, pre_verify_link-IsLinked}
use jormungandr.Blockchain.Candidate.{
  ChainAdvance, header_chain_verification_failed, process_header, poll_done,
}

module _ (c : Consensus) where
  -- Each header is linked to the one before it.
  unfoldable pub IsChain : c.Header → List c.Header → Type 0
  IsChain parent [] = Unit
  IsChain parent (h ∷ hs) = IsLinked c h parent × IsChain h hs

  -- A batch takes a chain from the front of the stream, up to 32 hashes in all, and gives the rest of
  -- the stream just when it is full.
  pub record IsBatch (a : ChainAdvance c) (stream : List c.Header)
      (batch : List ℕ × Option (List c.Header)) : Type 0 where
    pub taken : List c.Header
    pub left : List c.Header
    pub split : stream ≡ taken ++ left
    pub hashes : batch.0 ≡ a.new_hashes ++ map c.hash taken
    pub chain : IsChain a.parent_header taken
    pub bounded : length batch.0 ≤ 32
    pub rest : ((batch.1 ≡ none) × (left ≡ [])) ⊎ ((batch.1 ≡ some left) × (length batch.0 ≡ 32))

  IsNext : ChainAdvance c → c.Header → ChainAdvance c → Type 0
  IsNext a header a' =
      (a'.parent_header ≡ header)
      × (a'.new_hashes ≡ a.new_hashes ++ c.hash header ∷ [])
      × IsLinked c header a.parent_header

  process_header-IsNext :
      (a : ChainAdvance c) (header : c.Header) → Post ⊥ (IsNext a header) (process_header a header)
  unfolding process_header IsNext
  process_header-IsNext a header =
      elim (Bool-cases (c.block_parent_hash header == c.hash a.parent_header)) [
        | inr other ↦ rw (other, Post) tt
        | inl named ↦ rw named (
            Post-mapped ⊥ _ _ header_chain_verification_failed
              (pre_verify_link c header a.parent_header)
              (Post-mono ⊥ _ _ (pre_verify_link c header a.parent_header)
                (λ _ linked. (refl, refl, linked))
                (pre_verify_link-IsLinked c header a.parent_header (==→≡ _ _ named))))
      ]

  IsBatch-next :
      (a : ChainAdvance c) (header : c.Header) (a' : ChainAdvance c) (stream : List c.Header)
      (batch : List ℕ × Option (List c.Header))
      → IsNext a header a'
      → IsBatch a' stream batch
      → IsBatch a (header ∷ stream) batch
  unfolding IsChain IsNext
  IsBatch-next a header a' stream batch (parent, grown, linked) b = record {
    taken = header ∷ b.taken;
    left = b.left;
    split = ap (◌∷◌ header) b.split;
    hashes =
        b.hashes
        ∙ ap (λ l. l ++ map c.hash b.taken) grown
        ∙ append_assoc a.new_hashes (c.hash header ∷ []) (map c.hash b.taken);
    chain = (linked, subst (λ h. IsChain h b.taken) parent b.chain);
    bounded = b.bounded;
    rest = b.rest;
  }

  pub poll_done-IsBatch :
      (a : ChainAdvance c) (stream : List c.Header)
      → length a.new_hashes < 32
      → Post ⊥ (IsBatch a stream) (poll_done a stream)
  unfolding poll_done IsChain IsNext
  poll_done-IsBatch a [] room = record {
    taken = [];
    left = [];
    split = refl;
    hashes = sym (append-nil a.new_hashes);
    chain = tt;
    bounded = omega arith;
    rest = inl (refl, refl);
  }
  poll_done-IsBatch a (header ∷ stream) room = elim (Outcome-cases (process_header a header)) [
    | inl (a', e) ↦
        let next = rw (e, Post) at (process_header-IsNext a header) in
        let grown : length a'.new_hashes ≡ length a.new_hashes + 1 =
          ap length next.1 ∙ length-append a.new_hashes (c.hash header ∷ []) in
        elim (Bool-cases (leb 32 (length a'.new_hashes))) [
          | inl full ↦
              rw (e, full, Post, poll_done)
                (record {
                  taken = header ∷ [];
                  left = stream;
                  split = refl;
                  hashes = next.1;
                  chain = (next.2, tt);
                  bounded = omega arith;
                  rest = inr (refl, ground arith);
                })
          | inr more ↦
              rw (e, more, poll_done)
                (Post-mono ⊥ (IsBatch a' stream) (IsBatch a (header ∷ stream)) (poll_done a' stream)
                  (λ batch. IsBatch-next a header a' stream batch next)
                  (poll_done-IsBatch a' stream (ground arith)))
        ]
    | inr (inl (x, e)) ↦ rw (e, Post, poll_done) tt
    | inr (inr e) ↦ elim (rw (e, Post) at (process_header-IsNext a header)) [ ]
  ]
