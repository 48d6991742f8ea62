-- ===== src/Blockchain/Tip/Progress.antt =====
-- The tip only moves to a longer chain, and then the tag of the storage and the tip agree.
use Prim.Native.String.{String}
use jormungandr.Prelude.{
  ℕ, ◌+◌, ◌≤◌, ◌<◌, ◌≡◌, refl, some, List, [], ◌∷◌, ◌⊎◌, inl, inr, Option-cases,
}
use jormungandr.Outcome.{Outcome, ok, err, panic, M, ◌>>=◌, reads, mapped}
use jormungandr.Outcome.Keeps.{
  return-Keeps, crash-Keeps, lifted-Keeps, reads-Keeps, bind-Keeps, then-Keeps, Post-any, Stays,
}
use jormungandr.Outcome.Triple.{
  Ends, Ends-mono, Triple, Keeps-Triple, if-Triple, bind-Triple, then-Triple,
}
use jormungandr.Lru.{LruCache}
use jormungandr.Blockchain.Types.{Consensus, Block, BackendError, BlockStore}
use jormungandr.Blockchain.Storage.{StorageError, from_backend, puts}
use jormungandr.Blockchain.Storage
use jormungandr.Blockchain.Reference.{Ref, ref_hash, ref_time, ref_chain_length}
use jormungandr.Blockchain.Chain.{
  Blockchain, Error, storage_error, intercom_error, main_branch_tag, stored_as,
}
use jormungandr.Blockchain.Selection.{
  ComparisonResult, prefer_current, prefer_candidate, compare_against,
}
use jormungandr.Blockchain.Selection.Best.{compare_against_iff}
use jormungandr.Blockchain.Tip.{
  TransactionMsg, Queues, TipUpdater, in_storage, update_ref, try_send,
  try_request_fragment_removal, remove_all, switch_stream, switch_tip_branch,
  update_current_branch_tip, found, notify, adopt, consider, process_new_ref,
}

module _ (c : Consensus) (bs : BlockStore c.Raw) where
  written :
      (tag : String) (id : ℕ) (st : bs.Store) (x : bs.Store ⊎ BackendError)
      → bs.put_tag tag id st ≡ x
      → Ends
          (λ _. Unit {0})
          (λ _ st'. bs.get_tag tag st' ≡ inl (some id))
          (elim x as (λ _. bs.Store × Outcome StorageError (Unit {0})) [
            | inl st' ↦ (st', ok tt)
            | inr e ↦ (st, err (from_backend e))
          ])
  written tag id st (inl st') e = bs.get_tag-put_tag tag id st st' e
  written tag id st (inr x) e = tt

  put_tag-Ends :
      (tag : String) (id : ℕ) (st : bs.Store)
      → Ends
          (λ _. Unit {0})
          (λ _ st'. bs.get_tag tag st' ≡ inl (some id))
          (Storage.put_tag c bs tag id st)
  unfolding Storage.put_tag puts
  put_tag-Ends tag id st = written tag id st (bs.put_tag tag id st) refl

module _ {c : Consensus} {bs : BlockStore c.Raw} {lru : LruCache (Ref c)}
    {q : Queues c.Header} where
  -- The tip.
  abbrev pub HasTip : Ref c → TipUpdater c bs lru q → Type 0
  HasTip r u = u.tip ≡ r

  -- The tag of the storage is at the block.
  abbrev pub HasTag : Ref c → TipUpdater c bs lru q → Type 0
  HasTag r u = bs.get_tag (main_branch_tag c) u.blockchain.storage ≡ inl (some (ref_hash r))

  in_storage-Stays :
      {A : Type 0} (r : Ref c) (into : StorageError → Error c) (m : M bs.Store StorageError A)
      → Stays (HasTip r) (in_storage into m)
  unfolding in_storage
  in_storage-Stays r into m = record { at = λ u i. (i, Post-any (stored_as into m u.blockchain).1) }

  -- A message leaves the tip and the storage as they are.
  try_send-Stays :
      (I : Ref c → Blockchain c bs lru → Type 0) (msg : TransactionMsg)
      → Stays (λ u. I u.tip u.blockchain) (try_send {lru = lru} {q = q} msg)
  unfolding try_send
  try_send-Stays I msg = record {
    at = λ u i. elim (Option-cases u.fragment_mbox) [
      | inl e ↦ rw e (i, tt)
      | inr (mbox, e) ↦ elim (Option-cases (q.try_send msg mbox)) [
        | inl e' ↦ rw (try_send, e, e') (i, tt)
        | inr (mbox', e') ↦ rw (try_send, e, e') (i, tt)
      ]
    ];
  }

  remove_all-Stays :
      (r : Ref c) (stream : List (c.Raw ⊎ BackendError))
      → Stays (HasTip r) (remove_all {bs = bs} {lru = lru} {q = q} stream)
  unfolding remove_all try_request_fragment_removal
  remove_all-Stays r [] = return-Keeps tt tt
  remove_all-Stays r (item ∷ stream) =
      bind-Keeps (in_storage-Stays r intercom_error _)
        (λ block _. then-Keeps (try_send-Stays (λ t _. t ≡ r) _) (remove_all-Stays r stream))

  switch_stream-Stays :
      (r : Ref c) (stream : List (c.Raw ⊎ BackendError))
      → Stays (HasTip r) (switch_stream {bs = bs} {lru = lru} {q = q} stream)
  unfolding switch_stream
  switch_stream-Stays r [] = crash-Keeps tt
  switch_stream-Stays r (item ∷ stream) =
      bind-Keeps (in_storage-Stays r intercom_error _)
        (λ block _. then-Keeps (try_send-Stays (λ t _. t ≡ r) _) (remove_all-Stays r stream))

  carry :
      {A : Type 0} (r : Ref c) (into : StorageError → Error c) (Q : A → bs.Store → Type 0)
      (u : TipUpdater c bs lru q) (p : bs.Store × Outcome StorageError A)
      → Ends (λ _. Unit {0}) Q p
      → HasTip r u
      → Ends
          (HasTip r)
          (λ a u'. HasTip r u' × Q a u'.blockchain.storage)
          (
            record u { blockchain = record (u.blockchain) { storage = p.0 } },
            mapped (λ a. a) into p.1,
          )
  carry r into Q u (st, ok a) h i = (i, h)
  carry r into Q u (st, err e) h i = i
  carry r into Q u (st, panic) h i = i

  -- The tag is written, or the tip is where it was.
  put_tag-Triple :
      (r candidate : Ref c)
      → Triple
          (HasTip r)
          (HasTip r)
          (λ _ u. HasTip r u × HasTag candidate u)
          (in_storage {lru = lru} {q = q} storage_error
            (Storage.put_tag c bs (main_branch_tag c) (ref_hash candidate)))
  unfolding in_storage stored_as
  put_tag-Triple r candidate = record {
    at = λ u i.
        carry r storage_error
          (λ _ st. bs.get_tag (main_branch_tag c) st ≡ inl (some (ref_hash candidate))) u
          (Storage.put_tag c bs (main_branch_tag c) (ref_hash candidate) u.blockchain.storage)
          (put_tag-Ends c bs (main_branch_tag c) (ref_hash candidate) u.blockchain.storage) i;
  }

  update_ref-Triple :
      (r candidate : Ref c)
      → Triple
          (λ u. HasTip r u × HasTag candidate u)
          (HasTip r)
          (λ _ u. HasTip candidate u × HasTag candidate u)
          (update_ref {bs = bs} {lru = lru} {q = q} candidate)
  unfolding update_ref
  update_ref-Triple r candidate = record { at = λ u i. (refl, i.1) }

  update_current-Triple :
      (r candidate : Ref c) (block : Block c)
      → Triple
          (HasTip r)
          (HasTip r)
          (λ _ u. HasTip candidate u × HasTag candidate u)
          (update_current_branch_tip {bs = bs} {lru = lru} {q = q} candidate block)
  unfolding update_current_branch_tip try_request_fragment_removal
  update_current-Triple r candidate block = then-Triple (put_tag-Triple r candidate) (
      then-Triple
        (Keeps-Triple (λ u i. i.0)
          (try_send-Stays
            (λ t b.
              (t ≡ r)
              × (bs.get_tag (main_branch_tag c) b.storage ≡ inl (some (ref_hash candidate))))
            _))
        (update_ref-Triple r candidate))

  switch_tip-Triple :
      (r candidate : Ref c) (hash : ℕ)
      → Triple
          (HasTip r)
          (HasTip r)
          (λ _ u. HasTip candidate u × HasTag candidate u)
          (switch_tip_branch {bs = bs} {lru = lru} {q = q} candidate hash)
  unfolding switch_tip_branch
  switch_tip-Triple r candidate hash =
      bind-Triple (Keeps-Triple (λ _ i. i) (in_storage-Stays r storage_error _)) (λ ancestor.
        bind-Triple (Keeps-Triple (λ _ i. i) (in_storage-Stays r storage_error _)) (λ stream.
          then-Triple (Keeps-Triple (λ _ i. i) (switch_stream-Stays r stream))
            (then-Triple (put_tag-Triple r candidate) (update_ref-Triple r candidate))))

  -- The watch clients are told last, and nothing fails there.
  notify-Triple :
      (r candidate : Ref c) (header : c.Header)
      → Triple
          (λ u. HasTip candidate u × HasTag candidate u)
          (HasTip r)
          (λ _ u. HasTip candidate u × HasTag candidate u)
          (notify {bs = bs} {lru = lru} {q = q} header)
  unfolding notify
  notify-Triple r candidate header = record { at = λ u i. i }

  adopt-Triple :
      (r candidate : Ref c)
      → Triple
          (HasTip r)
          (HasTip r)
          (λ _ u. HasTip candidate u × HasTag candidate u)
          (adopt {bs = bs} {lru = lru} {q = q} candidate)
  unfolding adopt
  adopt-Triple r candidate =
      bind-Triple (Keeps-Triple (λ _ i. i) (in_storage-Stays r storage_error _)) (λ maybe_block.
        bind-Triple (Keeps-Triple (λ _ i. i) (lifted-Keeps (found maybe_block) (Post-any _)))
          (λ block.
            bind-Triple
              (Keeps-Triple {P = Unit {0}} {Q = λ _. Unit {0}} (λ _ i. i)
                (reads-Keeps _ (λ _ _. tt)))
              (λ tip_ref.
                then-Triple
                  (if-Triple _ (update_current-Triple r candidate block)
                    (switch_tip-Triple r candidate _))
                  (notify-Triple r candidate _))))

  -- The tip after a candidate: where it was after an error or a panic and when the candidate is not
  -- preferred; else the candidate, whose chain is longer and which is not ahead of the clock by more
  -- than a second, with the tag of the storage on it.
  unfoldable pub IsProgress :
      ℕ → Ref c → Ref c → TipUpdater c bs lru q × Outcome (Error c) (Unit {0}) → Type 0
  IsProgress now r candidate = Ends (HasTip r) (λ _ u.
      (HasTip r u × (compare_against now r candidate ≡ prefer_current))
      ⊎ (HasTip candidate u
          × HasTag candidate u
          × (ref_chain_length r < ref_chain_length candidate)
          × (ref_time candidate ≤ now + 1000000000)))

  consider-IsProgress :
      (now : ℕ) (candidate : Ref c) (u : TipUpdater c bs lru q) (r : ComparisonResult)
      → compare_against now u.tip candidate ≡ r
      → IsProgress now u.tip candidate (consider candidate r u)
  unfolding consider IsProgress
  consider-IsProgress now candidate u prefer_current e = inl (refl, e)
  consider-IsProgress now candidate u prefer_candidate e =
      let (longer, near) = (compare_against_iff now u.tip candidate).0 e in
      Ends-mono (HasTip u.tip) (λ _ u'. HasTip candidate u' × HasTag candidate u')
        (λ _ u'.
          (HasTip u.tip u' × (compare_against now u.tip candidate ≡ prefer_current))
          ⊎ (HasTip candidate u'
              × HasTag candidate u'
              × (ref_chain_length u.tip < ref_chain_length candidate)
              × (ref_time candidate ≤ now + 1000000000)))
        (adopt candidate u) (λ _ u' h. inr (h.0, h.1, longer, near))
        ((adopt-Triple u.tip candidate).at u refl)

  -- The tip moves only to a candidate that is preferred, which has a longer chain and is at most a
  -- second ahead of the clock, and then the main tag of the storage is at the new tip; if the
  -- candidate is not preferred, or the answer is an error or a panic, the tip stays.
  pub process_new_ref-IsProgress :
      (now : ℕ) (candidate : Ref c) (u : TipUpdater c bs lru q)
      → IsProgress now u.tip candidate (process_new_ref now candidate u)
  unfolding process_new_ref ◌>>=◌ reads
  process_new_ref-IsProgress now candidate u = consider-IsProgress now candidate u _ refl
