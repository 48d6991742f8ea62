-- ===== src/Blockchain/Apply/Coherence.antt =====
-- The application of a block keeps the cache of references coherent, and each reference in it able to
-- pay the rewards of its epoch, which is what the start of the next one needs.
use jormungandr.Prelude.{
  ℕ, ◌≡◌, refl, ap, ◌∙◌, Bool, true, false, Option, none, some, inl, inr, arith, ltb, ◌==◌, ==_refl,
  Bool-cases, Option-cases,
}
use jormungandr.Outcome.Keeps.{
  Post, Post-mono, Post-mapped, Keeps, return-Keeps, lifted-Keeps, bind-Keeps, then-Keeps,
}
use jormungandr.Lru.{LruCache}
use jormungandr.Lru.Keyed.{put-IsKeyed}
use jormungandr.Blockchain.Types.{Consensus, BlockStore, date_le, LedgerRef}
use jormungandr.Blockchain.Reference.{
  Ref, RefState, first, after, ref_state, with_previous, new_ref, ref_hash, ref_header, ref_ledger,
  ref_block_date, ref_chain_length, cache_ref, epoch_leadership_schedule, last_ref_previous_epoch,
}
use jormungandr.Blockchain.Chain.{Error, insert_ledger, insert_ref, create_and_store_reference}
use jormungandr.Blockchain.Chain.Coherence.{
  IsSound, IsBelow, IsLinked, IsEntry, IsHeld, with_previous-IsSound,
}
use jormungandr.Blockchain.Apply.{transition, new_epoch_leadership_from}

module _ (c : Consensus) where
  -- A ledger can pay the rewards of a distribution, where there is one.
  abbrev pub IsPaidBy : Bool → c.Ledger → Option c.Distribution → Type 0
  IsPaidBy all ledger none = Unit
  IsPaidBy all ledger (some d) =
      (paid : c.Ledger × c.RewardsInfo) × (c.distribute_rewards ledger d all ≡ inl paid)

  -- What the code expects of the ledger at the start of an epoch: the protocol changes can be applied
  -- to it, a ledger that can pay the rewards can still do so with them, and the dump is written.
  pub record IsSteady (all : Bool) : Type 0 where
    pub protocol : (l : c.Ledger) → c.apply_protocol_changes l ≡ none → ⊥
    pub rewards :
        (l l' : c.Ledger) (d : Option c.Distribution)
        → c.apply_protocol_changes l ≡ some l'
        → IsPaidBy all l d
        → IsPaidBy all l' d
    pub dump : (epoch hash : ℕ) (i : c.RewardsInfo) → c.reward_dump_fails epoch hash i ≡ false

module _ {c : Consensus} where
  -- The rewards of a reference's epoch can be paid from its ledger.
  abbrev pub IsPayable : Bool → Ref c → Type 0
  IsPayable all r =
      IsPaidBy c all (ref_ledger r) (c.stake_distribution (epoch_leadership_schedule r))

  abbrev pub IsFunded : Bool → Ref c → Type 0
  IsFunded all r = IsSound r × IsPayable all r

module _ {c : Consensus} where
  -- A new reference has the header, the ledger and the leadership that it was made of.
  unfoldable pub IsMadeOf : ℕ → c.Header → c.Ledger → c.Leadership → Ref c → Type 0
  IsMadeOf hash header ledger l r =
      (ref_hash r ≡ hash)
      × (ref_header r ≡ header)
      × (ref_ledger r ≡ ledger)
      × (epoch_leadership_schedule r ≡ l)
      × IsSound r

  pub made-IsPayable :
      (all : Bool) (hash : ℕ) (header : c.Header) (ledger : c.Ledger) (l : c.Leadership) (r : Ref c)
      → IsPaidBy c all ledger (c.stake_distribution l)
      → IsMadeOf hash header ledger l r
      → IsFunded all r
  unfolding IsMadeOf
  made-IsPayable all hash header ledger l r paid made = (made.4, rw (made.2, made.3) paid)

  with_previous-state :
      (r : RefState c) (previous : Option (Ref c)) → ref_state (with_previous r previous) ≡ r
  unfolding ref_state with_previous
  with_previous-state r none = refl
  with_previous-state r (some previous) = refl

  new_ref-Post :
      (hash : ℕ) (r : RefState c) (previous : Option (Ref c))
      → r.ledger.id ≡ hash
      → hash ≡ c.hash r.header
      → IsBelow r.header previous
      → Post {E = Error c} ⊥
          (IsMadeOf hash r.header r.ledger.state r.epoch_leadership_schedule)
          (new_ref r previous)
  unfolding new_ref IsMadeOf ref_hash ref_header ref_ledger epoch_leadership_schedule
  new_ref-Post hash r previous e e' below =
      let same : (r.ledger.id == c.hash r.header) ≡ true =
        rw (e ∙ e') (==_refl (c.hash r.header)) in
      let state = with_previous-state r previous in
      rw (same, Post)
        (
          ap (λ x. x.ledger.id) state ∙ e,
          ap (λ x. x.header) state,
          ap (λ x. x.ledger.state) state,
          ap (λ x. x.epoch_leadership_schedule) state,
          with_previous-IsSound r previous (e ∙ e') below,
        )

  later_epoch :
      (header parent : c.Header)
      → IsLinked c header parent
      → (ltb (c.block_date parent).epoch (c.block_date header).epoch ≡ false)
      → (c.block_date parent).epoch ≡ (c.block_date header).epoch
  unfolding date_le
  later_epoch header parent linked h = let late = linked.later in ground arith

  parent-IsBelow :
      (header : c.Header) (parent : Ref c)
      → IsLinked c header (ref_header parent)
      → IsSound parent
      → ltb (ref_block_date parent).epoch (c.block_date header).epoch ≡ true
      → IsBelow header (some parent)
  unfolding IsBelow ref_chain_length
  parent-IsBelow header parent linked sound later =
      (ground arith, rw linked.longer (omega arith), sound)

  previous-IsBelow :
      (header : c.Header) (parent : Ref c)
      → IsLinked c header (ref_header parent)
      → IsSound parent
      → ltb (ref_block_date parent).epoch (c.block_date header).epoch ≡ false
      → IsBelow header (last_ref_previous_epoch parent)
  unfolding IsBelow IsSound last_ref_previous_epoch ref_block_date ref_header ref_state
  previous-IsBelow header (first r) linked sound same = tt
  previous-IsBelow header (after r previous) linked (_, epoch, length, sound) same =
      let e = later_epoch header r.header linked same in
      let longer = linked.longer in (rw e at epoch, omega arith, sound)

  transition-Post :
      (epoch : ℕ) (parent : Ref c) (all : Bool) (ledger : c.Ledger)
      → IsSteady c all
      → IsPaidBy c all ledger (c.stake_distribution (epoch_leadership_schedule parent))
      → Post {E = Error c} ⊥ (λ _. Unit {0}) (transition epoch parent all ledger)
  unfolding transition
  transition-Post epoch parent all ledger n paid =
      elim (Option-cases (c.stake_distribution (epoch_leadership_schedule parent))) [
        | inl e ↦ rw (e, Post) tt
        | inr (d, e) ↦
            let ((ledger', info), e') = rw e at paid in
            rw (e, e', n.dump epoch (ref_hash parent) info, Post) tt
      ]

  pub new_epoch_leadership_from-IsBelow :
      (header : c.Header) (parent : Ref c) (all : Bool)
      → IsSteady c all
      → IsLinked c header (ref_header parent)
      → IsFunded all parent
      → Post {E = Error c} ⊥
          (λ l. IsBelow header l.previous_state)
          (new_epoch_leadership_from (c.block_date header).epoch parent all)
  unfolding new_epoch_leadership_from
  new_epoch_leadership_from-IsBelow header parent all n linked (sound, paid) =
      elim (Bool-cases (ltb (ref_block_date parent).epoch (c.block_date header).epoch)) [
        | inl later ↦ elim (Option-cases (c.apply_protocol_changes (ref_ledger parent))) [
          | inl e ↦ absurd (n.protocol (ref_ledger parent) e)
          | inr (ledger, e) ↦
              rw (later, e)
                (Post-mapped _ _ _ (λ e. e) (transition _ parent all ledger)
                  (Post-mono _ _ _ (transition _ parent all ledger)
                    (λ _ _. parent-IsBelow header parent linked sound later)
                    (transition-Post _ parent all ledger n
                      (n.rewards (ref_ledger parent) ledger _ e paid))))
        ]
        | inr same ↦ rw (same, Post) (previous-IsBelow header parent linked sound same)
      ]

module _ {c : Consensus} {bs : BlockStore c.Raw} {lru : LruCache (Ref c)} {S : Ref c → Type 0}
    {all : Bool} where
  insert_ledger-Keeps :
      (chain_length hash : ℕ) (ledger : c.Ledger)
      → Keeps
          (IsHeld S all)
          ⊥
          (λ (l : LedgerRef c.Ledger). (l.id ≡ hash) × (l.state ≡ ledger))
          (insert_ledger {bs = bs} {lru = lru} chain_length hash ledger)
  unfolding insert_ledger
  insert_ledger-Keeps chain_length hash ledger = record {
    at = λ s i. (
      record { reports = i.reports; keyed = i.keyed },
      (
        c.insert_id chain_length hash ledger s.ledgers,
        c.insert_state chain_length hash ledger s.ledgers,
      ),
    );
  }

  insert_ref-Keeps :
      (hash : ℕ) (r : Ref c)
      → ref_hash r ≡ hash
      → S r
      → Keeps (IsHeld S all) ⊥ (λ _. Unit {0}) (insert_ref {bs = bs} {lru = lru} hash r)
  unfolding insert_ref cache_ref
  insert_ref-Keeps hash r e held = record {
    at = λ s i. (
      record {
        reports = i.reports;
        keyed = put-IsKeyed lru (IsEntry S) s.ref_cache hash r i.keyed (e, held);
      },
      tt,
    );
  }

  pub create_and_store_reference-Keeps :
      (hash : ℕ) (header : c.Header) (ledger : c.Ledger) (t : c.TimeFrame) (l : c.Leadership)
      (info : Option c.RewardsInfo) (previous : Option (Ref c))
      → hash ≡ c.hash header
      → IsBelow header previous
      → ((r : Ref c) → IsMadeOf hash header ledger l r → S r)
      → Keeps
          (IsHeld S all)
          ⊥
          (IsMadeOf hash header ledger l)
          (create_and_store_reference {bs = bs} {lru = lru} hash header ledger t l info previous)
  unfolding create_and_store_reference IsMadeOf
  create_and_store_reference-Keeps hash header ledger t l info previous e below fits =
      bind-Keeps (insert_ledger-Keeps (c.chain_length header) hash ledger) (λ ledger_ref inserted.
        bind-Keeps
          (lifted-Keeps _ (
            new_ref-Post hash
              (record {
                ledger = ledger_ref;
                time_frame = t;
                epoch_leadership_schedule = l;
                epoch_rewards_info = info;
                header = header;
              })
              previous inserted.0 e below))
          (λ r made.
            let whole : IsMadeOf hash header ledger l r =
              (made.0, made.1, made.2 ∙ inserted.1, made.3, made.4) in
            then-Keeps (insert_ref-Keeps hash r made.0 (fits r whole)) (return-Keeps r whole)))
