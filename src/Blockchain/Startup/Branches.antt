-- ===== src/Blockchain/Startup/Branches.antt =====
-- The branches and the collection of old states: what every cached reference has, every branch has, and
-- the cache keeps.
use jormungandr.Prelude.{ℕ, Bool, ◌≡◌, none, some, List, [], ◌∷◌, All}
use jormungandr.Outcome.Keeps.{Keeps, return-Keeps, bind-Keeps}
use jormungandr.Lru.{LruCache}
use jormungandr.Blockchain.Types.{Consensus, BlockStore}
use jormungandr.Blockchain.Storage.Safety.{asks-Post, gc-Post}
use jormungandr.Blockchain.Storage
use jormungandr.Blockchain.Reference.{Ref, ref_hash, ref_header, ref_ledger}
use jormungandr.Blockchain.Chain.{storage_error}
use jormungandr.Blockchain.Chain.Coherence.{
  IsSound, IsKnown, IsHeld, stored_as-Keeps, get_ref-Keeps,
}
use jormungandr.Blockchain.Startup.{cached_branches, branches, gc}

module _ {c : Consensus} where
  -- A sound reference of a header.
  abbrev pub IsRefOf : c.Header → Ref c → Type 0
  IsRefOf header r = (ref_header r ≡ header) × IsSound r

module _ {c : Consensus} {bs : BlockStore c.Raw} {lru : LruCache (Ref c)} {S : Ref c → Type 0}
    {all : Bool} where
  cached_branches-Keeps :
      (ids : List ℕ) → Keeps (IsHeld S all) ⊥ (All S) (cached_branches {bs = bs} {lru = lru} ids)
  unfolding cached_branches IsKnown
  cached_branches-Keeps [] = return-Keeps [] tt
  cached_branches-Keeps (id ∷ ids) = bind-Keeps (get_ref-Keeps id) (λ r known.
      bind-Keeps (cached_branches-Keeps ids) (λ rs funded. return-Keeps _ (
        elim r
            as (λ o.
              IsKnown (S) id o
              → All S (elim o as (λ _. List (Ref c)) [ none ↦ rs | some x ↦ x ∷ rs ])) [
                | none ↦ (λ _. funded)
                | some x ↦ (λ k. (k.1, funded))
              ]
          known)))

  pub branches-Keeps : Keeps (IsHeld S all) ⊥ (All S) (branches {bs = bs} {lru = lru})
  unfolding branches Storage.get_branches
  branches-Keeps =
      bind-Keeps (stored_as-Keeps storage_error _ (asks-Post c bs bs.get_tips_ids))
        (λ ids _. cached_branches-Keeps ids)

  pub gc-Keeps :
      (tip : Ref c) → Keeps (IsHeld S all) ⊥ (λ _. Unit {0}) (gc {bs = bs} {lru = lru} tip)
  unfolding gc
  gc-Keeps tip = record {
    at = λ s i.
        (stored_as-Keeps storage_error _ (gc-Post c bs _ (ref_hash tip))).at
          (record s { ledgers = c.gc (c.epoch_stability_depth (ref_ledger tip)) s.ledgers })
          (record { reports = i.reports; keyed = i.keyed });
  }
