-- ===== src/Blockchain/Chain/Coherence.antt =====
-- The cache of references: each stands at its own hash, its previous epochs lie below it, and the
-- checks of a header neither change this nor panic.
use jormungandr.Prelude.{
  ℕ, suc, ◌<◌, ◌≡◌, refl, sym, ap, subst, ◌∙◌, Bool, true, false, Option, none, some, inl, inr,
  ◌==◌, ==_refl, ==→≡, Bool-cases, Option-cases, if◌then◌else◌,
}
use jormungandr.Outcome.{M, return}
use jormungandr.Outcome.Keeps.{
  Post, Post-mono, Post-mapped, Keeps, Keeps-mono, return-Keeps, lifted-Keeps, bind-Keeps,
}
use jormungandr.Lru.{LruCache}
use jormungandr.Lru.Keyed.{IsKeyed, get_mut-IsKeyed}
use jormungandr.Logs.Entries.{find-All}
use jormungandr.Blockchain.Types.{Consensus, BlockStore, date_le}
use jormungandr.Blockchain.Storage.{StorageError}
use jormungandr.Blockchain.Storage.Safety.{asks-Post}
use jormungandr.Blockchain.Storage
use jormungandr.Blockchain.Reference.{
  Ref, RefState, first, after, ref_state, with_previous, ref_hash, ref_header, ref_block_date,
  ref_chain_length, cached,
}
use jormungandr.Blockchain.Chain.{
  Blockchain, Error, PreCheckedHeader, already_present, header_with_cache, missing_parent,
  pre_verify_link, stored_as, storage_error, block_header_verification_failed, get_ref, look_up,
  pre_checked, load_header_parent, check_link, pre_check_header,
}

module _ {c : Consensus} where
  -- A reference is at the hash of its header, and the last block of its previous epoch is of an
  -- earlier epoch and of a shorter chain, and so on down.
  unfoldable pub IsSound : Ref c → Type 0
  IsSound (first r) = r.ledger.id ≡ c.hash r.header
  IsSound (after r previous) =
      (r.ledger.id ≡ c.hash r.header)
      × ((ref_block_date previous).epoch < (c.block_date r.header).epoch)
      × (ref_chain_length previous < c.chain_length r.header)
      × IsSound previous

  -- What a new header needs of the last block of its previous epoch.
  unfoldable pub IsBelow : c.Header → Option (Ref c) → Type 0
  IsBelow header none = Unit
  IsBelow header (some previous) =
      ((ref_block_date previous).epoch < (c.block_date header).epoch)
      × (ref_chain_length previous < c.chain_length header)
      × IsSound previous

module _ (c : Consensus) where
  -- The parent of a header: its hash, an earlier date, and a chain that is one block shorter.
  pub record IsLinked (header parent : c.Header) : Type 0 where
    pub parent_hash : c.block_parent_hash header ≡ c.hash parent
    pub later : date_le (c.block_date header) (c.block_date parent) ≡ false
    pub longer : c.chain_length header ≡ suc (c.chain_length parent)

module _ {c : Consensus} where
  pub IsSound-hash : (r : Ref c) → IsSound r → ref_hash r ≡ c.hash (ref_header r)
  unfolding IsSound ref_hash ref_header ref_state
  IsSound-hash (first r) h = h
  IsSound-hash (after r previous) h = h.0

  pub with_previous-IsSound :
      (r : RefState c) (previous : Option (Ref c))
      → r.ledger.id ≡ c.hash r.header
      → IsBelow r.header previous
      → IsSound (with_previous r previous)
  unfolding IsSound IsBelow with_previous
  with_previous-IsSound r none e below = e
  with_previous-IsSound r (some previous) e below = (e, below.0, below.1, below.2)

module _ (c : Consensus) where
  -- The debug assertion holds for the parent that a header names, and `IsLinked` is what the check
  -- establishes.
  pub pre_verify_link-IsLinked :
      (header parent : c.Header)
      → c.block_parent_hash header ≡ c.hash parent
      → Post ⊥ (λ _. IsLinked c header parent) (pre_verify_link c header parent)
  unfolding pre_verify_link
  pre_verify_link-IsLinked header parent e =
      let named : (c.block_parent_hash header == c.hash parent) ≡ true =
        rw e (==_refl (c.hash parent)) in
      let next = c.next_length_suc (c.chain_length parent) in
      elim (Bool-cases (date_le (c.block_date header) (c.block_date parent))) [
        | inl early ↦ rw (named, early) tt
        | inr late ↦
            elim (Bool-cases (c.chain_length header == c.next_length (c.chain_length parent))) [
              | inl long ↦
                  rw (named, late, long)
                    (record { parent_hash = e; later = late; longer = ==→≡ _ _ long ∙ next })
              | inr short ↦ rw (named, late, short) tt
            ]
      ]

module _ {c : Consensus} (S : Ref c → Type 0) where
  -- An entry stands at its own hash, and its reference has `S`.
  abbrev pub IsEntry : ℕ × Ref c → Type 0
  IsEntry e = (ref_hash e.1 ≡ e.0) × S e.1

  -- A reference that is read from the cache is the one asked for.
  unfoldable pub IsKnown : ℕ → Option (Ref c) → Type 0
  IsKnown key none = Unit
  IsKnown key (some r) = (ref_hash r ≡ key) × S r

  -- What a check of a header finds: the block itself, which a forced check does not look for, or the
  -- parent that the header names.
  unfoldable pub IsFound : c.Header → Bool → PreCheckedHeader c → Type 0
  IsFound header force (already_present h (some r)) =
      (h ≡ header) × (force ≡ false) × (ref_hash r ≡ c.hash header) × S r
  IsFound header force (already_present h none) = ⊥
  IsFound header force (missing_parent h) = h ≡ header
  IsFound header force (header_with_cache h parent_ref) =
      (h ≡ header) × (ref_hash parent_ref ≡ c.block_parent_hash header) × S parent_ref

  -- Also the link of a header to its parent.
  unfoldable pub IsChecked : c.Header → Bool → PreCheckedHeader c → Type 0
  IsChecked header force (already_present h r) = IsFound header force (already_present h r)
  IsChecked header force (missing_parent h) = h ≡ header
  IsChecked header force (header_with_cache h parent_ref) =
      (h ≡ header) × S parent_ref × IsLinked c header (ref_header parent_ref)

  IsOwn : c.Header → Bool → Option (Ref c) → Type 0
  IsOwn header force none = Unit
  IsOwn header force (some r) = (force ≡ false) × (ref_hash r ≡ c.hash header) × S r

  pre_checked-IsFound :
      (header : c.Header) (force : Bool) (own parent : Option (Ref c))
      → IsOwn header force own
      → IsKnown (c.block_parent_hash header) parent
      → IsFound header force (pre_checked header own parent)
  unfolding IsOwn IsKnown IsFound pre_checked
  pre_checked-IsFound header force (some r) parent own known = (refl, own.0, own.1, own.2)
  pre_checked-IsFound header force none (some r) own known = (refl, known.0, known.1)
  pre_checked-IsFound header force none none own known = refl

  IsKnown-IsOwn :
      (header : c.Header) (r : Option (Ref c)) → IsKnown (c.hash header) r → IsOwn header false r
  unfolding IsOwn IsKnown
  IsKnown-IsOwn header none h = tt
  IsKnown-IsOwn header (some r) h = (refl, h.0, h.1)

  check_link-IsChecked :
      (header : c.Header) (force : Bool) (found : PreCheckedHeader c)
      → ((r : Ref c) → S r → IsSound r)
      → IsFound header force found
      → Post ⊥ (IsChecked header force) (check_link found)
  unfolding IsChecked IsFound check_link
  check_link-IsChecked header force (already_present h (some r)) sure f = f
  check_link-IsChecked header force (already_present h none) sure f = f
  check_link-IsChecked header force (missing_parent h) sure f = f
  check_link-IsChecked header force (header_with_cache h r) sure (same, parent, held) =
      Post-mapped ⊥ (IsChecked header force) _ block_header_verification_failed
        (pre_verify_link c h (ref_header r))
        (Post-mono ⊥ (λ _. IsLinked c h (ref_header r))
          (λ _. IsChecked header force (header_with_cache h r)) _
          (λ _ l. (same, held, subst (λ x. IsLinked c x (ref_header r)) same l))
          (pre_verify_link-IsLinked c h (ref_header r)
            (ap c.block_parent_hash same ∙ sym parent ∙ IsSound-hash r (sure r held))))

module _ {c : Consensus} {lru : LruCache (Ref c)} (S : Ref c → Type 0) where
  peek-IsKnown :
      (cache : lru.Cache) (key : ℕ)
      → IsKeyed lru (IsEntry S) cache
      → IsKnown S key (lru.peek cache key)
  unfolding IsKnown
  peek-IsKnown cache key i = elim (Option-cases (lru.peek cache key)) [
    | inl e ↦ rw e tt
    | inr (r, e) ↦
        rw e (
          find-All (IsEntry S) key r (lru.iter cache) i.entries (sym (lru.peek-iter cache key) ∙ e))
  ]

module _ {c : Consensus} {bs : BlockStore c.Raw} {lru : LruCache (Ref c)} where
  -- Every cached reference has `S` and stands at its own hash; the rewards are reported as said.
  pub record IsHeld (S : Ref c → Type 0) (all : Bool) (s : Blockchain c bs lru) : Type 0 where
    pub reports : s.rewards_report_all ≡ all
    pub keyed : IsKeyed lru (IsEntry S) s.ref_cache

  -- Every cached reference is sound and stands at its own hash.
  abbrev pub IsCoherent : Blockchain c bs lru → Type 0
  IsCoherent s = IsKeyed lru (IsEntry IsSound) s.ref_cache

  abbrev pub coherent_held :
      (s : Blockchain c bs lru) → IsCoherent s → IsHeld IsSound s.rewards_report_all s
  coherent_held s i = record { reports = refl; keyed = i }

module _ {c : Consensus} {bs : BlockStore c.Raw} {lru : LruCache (Ref c)} {S : Ref c → Type 0}
    {all : Bool} where
  -- The cache is not changed by an operation of the storage.
  pub stored_as-Keeps :
      {A : Type 0} {P : Type 0} {Q : A → Type 0} (into : StorageError → Error c)
      (m : M bs.Store StorageError A)
      → ((st : bs.Store) → Post P Q (m st).1)
      → Keeps (IsHeld S all) P Q (stored_as {bs = bs} {lru = lru} into m)
  unfolding stored_as
  stored_as-Keeps {P = P} {Q = Q} into m h = record {
    at = λ s i. (
      record { reports = i.reports; keyed = i.keyed },
      Post-mapped P Q (λ a. a) into (m s.storage).1 (h s.storage),
    );
  }

  look_up-Keeps :
      (key : ℕ) → Keeps (IsHeld S all) ⊥ (IsKnown S key) (look_up {bs = bs} {lru = lru} key)
  unfolding look_up cached
  look_up-Keeps key = record {
    at = λ s i. (
      record {
        reports = i.reports;
        keyed = get_mut-IsKeyed lru (IsEntry S) s.ref_cache key (λ r. r) i.keyed (λ v h. h);
      },
      peek-IsKnown S s.ref_cache key i.keyed,
    );
  }

  pub get_ref-Keeps :
      (key : ℕ) → Keeps (IsHeld S all) ⊥ (IsKnown S key) (get_ref {bs = bs} {lru = lru} key)
  unfolding get_ref Storage.block_exists
  get_ref-Keeps key = bind-Keeps (look_up-Keeps key) (λ r known.
      bind-Keeps (stored_as-Keeps storage_error _ (asks-Post c bs (bs.block_exists key)))
        (λ _ _. return-Keeps r known))

  find_self-Keeps :
      (header : c.Header) (force : Bool)
      → Keeps
          (IsHeld S all)
          ⊥
          (IsOwn S header force)
          (if force then return none else get_ref {bs = bs} {lru = lru} (c.hash header))
  unfolding IsOwn
  find_self-Keeps header true = return-Keeps none tt
  find_self-Keeps header false = Keeps-mono (IsKnown-IsOwn S header) (get_ref-Keeps (c.hash header))

  load_header_parent-Keeps :
      (header : c.Header) (force : Bool)
      → Keeps
          (IsHeld S all)
          ⊥
          (IsFound S header force)
          (load_header_parent {bs = bs} {lru = lru} header force)
  unfolding load_header_parent
  load_header_parent-Keeps header force = bind-Keeps (find_self-Keeps header force) (λ self own.
      bind-Keeps (get_ref-Keeps (c.block_parent_hash header))
        (λ parent known. return-Keeps _ (pre_checked-IsFound S header force self parent own known)))

  pub pre_check_header-Keeps :
      (header : c.Header) (force : Bool)
      → ((r : Ref c) → S r → IsSound r)
      → Keeps
          (IsHeld S all)
          ⊥
          (IsChecked S header force)
          (pre_check_header {bs = bs} {lru = lru} header force)
  unfolding pre_check_header
  pre_check_header-Keeps header force sure =
      bind-Keeps (load_header_parent-Keeps header force) (λ found h.
        lifted-Keeps (check_link found) (check_link-IsChecked S header force found sure h))

module _ {c : Consensus} {bs : BlockStore c.Raw} {lru : LruCache (Ref c)} where
  -- On a coherent cache the check of a header does not panic and leaves the cache coherent, also after
  -- an error. A block that is found present stands at the header's hash, and only an unforced check
  -- finds it; a parent that is found is the one the header names, of an earlier date, and the header's
  -- chain is one block longer than its.
  pub pre_check_header-IsChecked :
      (header : c.Header) (force : Bool) (s : Blockchain c bs lru)
      → IsCoherent s
      → IsCoherent (pre_check_header header force s).0
        × Post ⊥ (IsChecked IsSound header force) (pre_check_header header force s).1
  pre_check_header-IsChecked header force s i =
      let (h, q) =
        (pre_check_header-Keeps header force (λ r sound. sound)).at s (coherent_held s i) in
      (h.keyed, q)
