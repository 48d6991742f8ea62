-- ===== src/Blockchain/Candidate/Batch.antt =====
-- The batch that a stream of headers gives: a chain of headers that starts on a known block.
use jormungandr.Prelude.{
  Bool, ℕ, find, Distinct, All, ◌≡◌, refl, sym, ap, subst, ◌∙◌, arith, false, Option, none, some,
  List, [], ◌∷◌, ◌++◌, ◌⊎◌, inl, inr,
}
use jormungandr.Outcome.Keeps.{
  Post, Post-mono, Post-mapped, Keeps, Keeps-mono, return-Keeps, throw-Keeps, lifted-Keeps,
  bind-Keeps,
}
use jormungandr.Lru.{LruCache}
use jormungandr.Blockchain.Types.{Consensus, BlockStore}
use jormungandr.Blockchain.Reference.{Ref, ref_hash, ref_header}
use jormungandr.Blockchain.Chain.{
  Blockchain, PreCheckedHeader, already_present, header_with_cache, missing_parent,
}
use jormungandr.Blockchain.Chain.Coherence.{
  IsSound, IsSound-hash, IsLinked, IsChecked, IsEntry, IsHeld, IsCoherent, pre_check_header-Keeps,
}
use jormungandr.Blockchain.Candidate.{
  C, blockchain_error, missing_parent_block, empty_header_stream, poll_done, check, land, skip_from,
  land_header_chain, landed, batch_of, advance_branch,
}
use jormungandr.Blockchain.Candidate.Polling.{IsBatch, poll_done-IsBatch}

module _ (c : Consensus) (get : ℕ → Option (Ref c)) where
  -- A header of the stream whose block is not there, on a parent that `get` gives.
  pub record IsLanding (stream : List c.Header) (header : c.Header) (left : List c.Header)
      : Type 0 where
    pub present : List c.Header
    pub split : stream ≡ present ++ header ∷ left
    pub parent : Ref c
    pub cached : get (c.block_parent_hash header) ≡ some parent
    pub sound : IsSound parent
    pub linked : IsLinked c header (ref_header parent)

  IsLanded : List c.Header → Option (c.Header × List c.Header) → Type 0
  IsLanded stream none = Unit
  IsLanded stream (some (header, left)) = IsLanding stream header left

  IsLanded-next :
      (h : c.Header) (stream : List c.Header) (o : Option (c.Header × List c.Header))
      → IsLanded stream o
      → IsLanded (h ∷ stream) o
  unfolding IsLanded
  IsLanded-next h stream none l = tt
  IsLanded-next h stream (some (header, left)) l = record {
    present = h ∷ l.present;
    split = ap (◌∷◌ h) l.split;
    parent = l.parent;
    cached = l.cached;
    sound = l.sound;
    linked = l.linked;
  }

  -- The hashes to ask for: of no block, or of a chain that lands on a known block.
  unfoldable pub IsAdvance : List c.Header → List ℕ × Option (List c.Header) → Type 0
  IsAdvance stream batch =
      (batch ≡ ([], none))
      ⊎ ((header : c.Header) × (left : List c.Header) × IsLanding stream header left
          × IsBatch c (landed header) left batch)

module _ {c : Consensus} (get : ℕ → Option (Ref c)) where
  -- A sound reference that `get` gives at its hash.
  abbrev IsGiven : Ref c → Type 0
  IsGiven r = IsSound r × (get (ref_hash r) ≡ some r)

  IsGiven-All :
      (l : List (ℕ × Ref c))
      → ((k : ℕ) (r : Ref c) → find k l ≡ some r → get k ≡ some r)
      → Distinct l
      → All (IsEntry IsSound) l
      → All (IsEntry IsGiven) l
  IsGiven-All [] gives distinct h = tt
  IsGiven-All ((k, r) ∷ l) gives distinct h = (
    (h.0.0, (h.0.1, subst (λ x. get x ≡ some r) (sym h.0.0) (gives k r (ground arith)))),
    IsGiven-All l (λ j x e. gives j x (ground arith)) distinct.1 h.1,
  )

  given-IsSound : (l : List (ℕ × Ref c)) → All (IsEntry IsGiven) l → All (IsEntry IsSound) l
  given-IsSound [] h = tt
  given-IsSound (e ∷ l) h = ((h.0.0, h.0.1.0), given-IsSound l h.1)

module _ {c : Consensus} {bs : BlockStore c.Raw} {lru : LruCache (Ref c)} (get : ℕ → Option (Ref c))
    {all : Bool} where
  check-Keeps :
      (header : c.Header)
      → Keeps
          (IsHeld (IsGiven get) all)
          ⊥
          (IsChecked (IsGiven get) header false)
          (check {bs = bs} {lru = lru} header)
  unfolding check
  check-Keeps header = record {
    at = λ s i.
        let (i', q) = (pre_check_header-Keeps header false (λ r given. given.0)).at s i in
        (i', Post-mapped ⊥ (IsChecked (IsGiven get) header false) (λ p. p) blockchain_error _ q);
  }

  land-Keeps :
      (header : c.Header) (stream : List c.Header) (found : PreCheckedHeader c)
      (next : C c bs lru (Option (c.Header × List c.Header)))
      → IsChecked (IsGiven get) header false found
      → Keeps (IsHeld (IsGiven get) all) ⊥ (IsLanded c get stream) next
      → Keeps
          (IsHeld (IsGiven get) all)
          ⊥
          (IsLanded c get (header ∷ stream))
          (land next stream found)
  unfolding land IsChecked IsLanded
  land-Keeps header stream (already_present h r) next f k =
      Keeps-mono (IsLanded-next c get header stream) k
  land-Keeps header stream (missing_parent h) next f k =
      throw-Keeps (missing_parent_block (c.block_parent_hash h))
  land-Keeps header stream (header_with_cache h parent) next (same, given, linked) k =
      return-Keeps (some (h, stream)) (record {
        present = [];
        split = ap (λ x. x ∷ stream) (sym same);
        parent = parent;
        cached =
            subst (λ x. get x ≡ some parent)
              (IsSound-hash parent given.0
                ∙ sym linked.parent_hash
                ∙ ap c.block_parent_hash (sym same))
              given.1;
        sound = given.0;
        linked = subst (λ x. IsLinked c x (ref_header parent)) (sym same) linked;
      })

  skip_from-Keeps :
      (header : c.Header) (stream : List c.Header)
      → Keeps
          (IsHeld (IsGiven get) all)
          ⊥
          (IsLanded c get (header ∷ stream))
          (skip_from {bs = bs} {lru = lru} header stream)
  unfolding skip_from IsLanded
  skip_from-Keeps header [] =
      bind-Keeps (check-Keeps header)
        (λ found f. land-Keeps header [] found _ f (return-Keeps none tt))
  skip_from-Keeps header (next ∷ stream) =
      bind-Keeps (check-Keeps header)
        (λ found f. land-Keeps header (next ∷ stream) found _ f (skip_from-Keeps next stream))

  land_header_chain-Keeps :
      (stream : List c.Header)
      → Keeps
          (IsHeld (IsGiven get) all)
          ⊥
          (IsLanded c get stream)
          (land_header_chain {bs = bs} {lru = lru} stream)
  unfolding land_header_chain
  land_header_chain-Keeps [] = throw-Keeps empty_header_stream
  land_header_chain-Keeps (header ∷ stream) = skip_from-Keeps header stream

  batch_of-Keeps :
      (stream : List c.Header) (advance : Option (c.Header × List c.Header))
      → IsLanded c get stream advance
      → Keeps
          (IsHeld (IsGiven get) all)
          ⊥
          (IsAdvance c get stream)
          (batch_of {bs = bs} {lru = lru} advance)
  unfolding batch_of IsAdvance IsLanded landed
  batch_of-Keeps stream none l = return-Keeps ([], none) (inl refl)
  batch_of-Keeps stream (some (header, left)) l = lifted-Keeps (poll_done (landed header) left) (
      Post-mono ⊥ (IsBatch c (landed header) left) (IsAdvance c get stream) _
        (λ batch b. inr (header, left, l, b))
        (poll_done-IsBatch c (landed header) left (omega arith)))

  advance_branch-Keeps :
      (stream : List c.Header)
      → Keeps
          (IsHeld (IsGiven get) all)
          ⊥
          (IsAdvance c get stream)
          (advance_branch {bs = bs} {lru = lru} stream)
  unfolding advance_branch
  advance_branch-Keeps stream = bind-Keeps (land_header_chain-Keeps stream) (batch_of-Keeps stream)

module _ {c : Consensus} {bs : BlockStore c.Raw} {lru : LruCache (Ref c)} where
  -- On a coherent cache a stream of headers gives an error or a batch, without a panic, and the cache
  -- stays coherent. A batch that is not empty has the hashes of a part of the stream: of a header whose
  -- parent was cached at the start and of those after it, each linked to the one before, 32 at most;
  -- the rest of the stream is given back just when there are 32.
  pub advance_branch-IsAdvance :
      (stream : List c.Header) (s : Blockchain c bs lru)
      → IsCoherent s
      → IsCoherent (advance_branch stream s).0
        × Post ⊥ (IsAdvance c (lru.peek s.ref_cache) stream) (advance_branch stream s).1
  advance_branch-IsAdvance stream s i =
      let get = lru.peek s.ref_cache in
      let given =
        IsGiven-All get (lru.iter s.ref_cache) (λ k r e. lru.peek-iter s.ref_cache k ∙ e) i.distinct
          i.entries in
      let held : IsHeld (IsGiven get) s.rewards_report_all s = record {
        reports = refl;
        keyed = record { distinct = i.distinct; bounded = i.bounded; entries = given };
      } in
      let (held', q) = (advance_branch-Keeps get stream).at s held in
      (
        record {
          distinct = held'.keyed.distinct;
          bounded = held'.keyed.bounded;
          entries =
              given-IsSound get (lru.iter (advance_branch stream s).0.ref_cache)
                held'.keyed.entries;
        },
        q,
      )
