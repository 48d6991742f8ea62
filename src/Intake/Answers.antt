-- ===== src/Intake/Answers.antt =====
-- The ids of a batch through its handling: which are taken, and which the answer gives.
use mathlib.Core.List.{append-nil, map-append}
use jormungandr.Prelude.{
  All, ap, subst, ==_refl, count, count-append, ℕ, zero, suc, ◌+◌, ◌≡◌, refl, sym, ◌∙◌, Bool, true,
  false, some, List, [], ◌∷◌, ◌++◌, map, arith, is_some, find, Option-cases, inl, inr, ◌⊎◌,
  if◌then◌else◌,
}
use jormungandr.Chain.{Chain, Fragment}
use jormungandr.Lru.{LruCache}
use jormungandr.Logs.{LogEntry}
use jormungandr.Mempool.Invariant.{Entries}
use jormungandr.Mempool.Admission.{admit, enqueued}
use jormungandr.Summary.{
  fragment_ids, FragmentRejectionReason, RejectedFragmentInfo, FragmentsProcessingSummary,
  previous_fragment_invalid, pool_overflow,
}
use jormungandr.Intake.{Filtered, propagate, rejected_as, answer}

module _ {A : Type 0} where
  inl_injective : {B : Type 0} {x y : A} → ◌≡◌ {A = A ⊎ B} (inl x) (inl y) → x ≡ y
  inl_injective e = cc

module _ (chain : Chain) where
  open chain use {Tx, Raw}

  -- The ids of a batch are new to the pool, and each stands once.
  abbrev pub IsFresh : List (Fragment Tx Raw × ℕ) → Entries chain → Type 0
  IsFresh [] l = Unit
  IsFresh ((f, id) ∷ fs) l = (is_some (find id l) ≡ false) × IsFresh fs ((id, f) ∷ l)

  IsFresh-mono :
      (fs : List (Fragment Tx Raw × ℕ)) (l l' : Entries chain)
      → ((k : ℕ) → is_some (find k l') ≡ false → is_some (find k l) ≡ false)
      → IsFresh fs l'
      → IsFresh fs l
  IsFresh-mono [] l l' sub h = tt
  IsFresh-mono ((f, id) ∷ fs) l l' sub h =
      (sub id h.0, IsFresh-mono fs ((id, f) ∷ l) ((id, f) ∷ l') (λ k g. ground (arith, sub k)) h.1)

  pub IsFresh-tail :
      (f : Fragment Tx Raw) (id : ℕ) (fs : List (Fragment Tx Raw × ℕ)) (l : Entries chain)
      → IsFresh ((f, id) ∷ fs) l
      → IsFresh fs l
  IsFresh-tail f id fs l h = IsFresh-mono fs l ((id, f) ∷ l) (λ k g. ground arith) h.1

  abbrev pub ids_of : List (Fragment Tx Raw × ℕ) → List ℕ
  ids_of = map (λ e. e.1)

  -- Each fragment that is new is either taken or left.
  pub admit_fresh :
      (k n : ℕ) (fs : List (Fragment Tx Raw × ℕ)) (l : Entries chain)
      → IsFresh fs l
      → count k (ids_of (admit chain n fs l).taken) + count k (ids_of (admit chain n fs l).left)
        ≡ count k (ids_of fs)
  admit_fresh k zero fs l h = omega arith
  admit_fresh k (suc n) [] l h = omega arith
  admit_fresh k (suc n) ((f, id) ∷ fs) l h = ground (arith, admit_fresh k n fs ((id, f) ∷ l))

  enqueued-find :
      (k : ℕ) (fs : List (Fragment Tx Raw × ℕ)) (l : Entries chain)
      → is_some (find k l) ≡ true
      → is_some (find k (enqueued chain fs l)) ≡ true
  enqueued-find k [] l h = h
  enqueued-find k ((f, id) ∷ fs) l h = enqueued-find k fs ((id, f) ∷ l) (ground arith)

  pub enqueued-All :
      (fs : List (Fragment Tx Raw × ℕ)) (l : Entries chain)
      → All (λ id. is_some (find id (enqueued chain fs l)) ≡ true) (ids_of fs)
  enqueued-All [] l = tt
  enqueued-All ((f, id) ∷ fs) l =
      (enqueued-find id fs ((id, f) ∷ l) (rw (==_refl id) refl), enqueued-All fs ((id, f) ∷ l))

  pub batch-ids :
      (fragments : List (Fragment Tx Raw))
      → ids_of (map (λ el. (el, chain.hash el)) fragments) ≡ map chain.hash fragments
  batch-ids [] = refl
  batch-ids (f ∷ fs) = ap (◌∷◌ (chain.hash f)) (batch-ids fs)

  propagate-ids :
      (send : Fragment Tx Raw → Bool) (fs : List (Fragment Tx Raw × ℕ)) (ids : List ℕ)
      → propagate chain send fs ≡ some ids
      → ids ≡ map (λ e. e.1) fs
  unfolding propagate
  propagate-ids send [] ids h = ground arith
  propagate-ids send ((f, id) ∷ fs) ids h = elim (Option-cases (propagate chain send fs)) [
    | inl e ↦ absurd (ground (arith, e))
    | inr (rest, e) ↦ ground (arith, e, propagate-ids send fs rest e)
  ]

module _ (chain : Chain) (Text : Type 0) (lru : LruCache (LogEntry chain.Date Text)) where
  open chain use {Tx, Raw, Date, Settings}

  infos-ids :
      (reason : FragmentRejectionReason) (es : List (Fragment Tx Raw × ℕ))
      → map (λ (r : RejectedFragmentInfo). r.id) (rejected_as chain Text lru reason es)
        ≡ ids_of chain es
  infos-ids reason [] = refl
  infos-ids reason (e ∷ es) = ap (◌∷◌ e.1) (infos-ids reason es)

  rejected-ids :
      (k : ℕ) (fail_fast : Bool) (f : Filtered chain Text lru) (left : List (Fragment Tx Raw × ℕ))
      → (fail_fast ≡ true) ⊎ (f.unread ≡ [])
      → count k (
          map
            (λ (r : RejectedFragmentInfo). r.id)
            ((f.rejected
                ++ (if fail_fast
                    then rejected_as chain Text lru previous_fragment_invalid f.unread
                    else []))
              ++ rejected_as chain Text lru pool_overflow left))
        ≡ count k (map (λ r. r.id) f.rejected)
          + count k (ids_of chain f.unread)
          + count k (ids_of chain left)
  rejected-ids k true f left read =
      rw
        (
          map-append _ (f.rejected ++ rejected_as chain Text lru previous_fragment_invalid f.unread)
              (rejected_as chain Text lru pool_overflow left),
          map-append _ f.rejected (rejected_as chain Text lru previous_fragment_invalid f.unread),
          infos-ids previous_fragment_invalid f.unread,
          infos-ids pool_overflow left,
          count-append k _ (ids_of chain left),
          count-append k _ (ids_of chain f.unread),
        )
        refl
  rejected-ids k false f left (inl e) = absurd (cc)
  rejected-ids k false f left (inr none_unread) =
      rw
        (
          append-nil f.rejected,
          map-append _ f.rejected (rejected_as chain Text lru pool_overflow left),
          infos-ids pool_overflow left,
          count-append k _ (ids_of chain left),
          none_unread,
        )
        (omega arith)

  pub answer-ids :
      (k : ℕ) (send : Fragment Tx Raw → Bool) (fail_fast : Bool) (f : Filtered chain Text lru)
      (taken left : List (Fragment Tx Raw × ℕ)) (summary : FragmentsProcessingSummary)
      → (fail_fast ≡ true) ⊎ (f.unread ≡ [])
      → answer chain Text lru fail_fast f left (propagate chain send taken) ≡ inl summary
      → (summary.accepted ≡ ids_of chain taken)
        × (count k (fragment_ids summary)
            ≡ count k (map (λ r. r.id) f.rejected)
              + count k (ids_of chain f.unread)
              + count k (ids_of chain left)
              + count k (ids_of chain taken))
  unfolding answer fragment_ids
  answer-ids k send fail_fast f taken left summary read e =
      elim (Option-cases (propagate chain send taken)) [
        | inl failed ↦ absurd (let no = rw failed at e in cc)
        | inr (ids, sent) ↦
            let same : inl (record {
              accepted = ids;
              rejected =
                  (f.rejected
                    ++ (if fail_fast
                        then rejected_as chain Text lru previous_fragment_invalid f.unread
                        else []))
                  ++ rejected_as chain Text lru pool_overflow left;
            })
                ≡ inl summary =
              rw sent at e in
            let whole = inl_injective same in
            let accepted = propagate-ids chain send taken ids sent in
            (
              sym (ap (λ (x : FragmentsProcessingSummary). x.accepted) whole) ∙ accepted,
              subst
                  (λ (x : FragmentsProcessingSummary).
                    count k (fragment_ids x)
                    ≡ count k (map (λ r. r.id) f.rejected)
                      + count k (ids_of chain f.unread)
                      + count k (ids_of chain left)
                      + count k (ids_of chain taken))
                  whole
                  (omega (
                    arith,
                    count-append k _ ids,
                    rejected-ids k fail_fast f left read,
                    ap (count k) accepted,
                  )),
            )
      ]
