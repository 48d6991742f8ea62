-- ===== src/Mempool/Expired.antt =====
-- The fragments that `remove_expired_txs` takes out: each one whose expiry date is over has an item in
-- the part of the queue that is taken.
use jormungandr.Prelude.{
  ℕ, ◌≡◌, ◌∙◌, sym, subst, true, some, List, [], ◌∷◌, map, arith, find, Distinct, All, Option-cases,
  Bool-cases, inl, inr, ==_refl, ==→≡, if◌then◌else◌, ◌==◌,
}
use jormungandr.Chain.{Chain, Fragment}
use jormungandr.Mempool.{Pool, get_transaction_expiry_date}
use jormungandr.Mempool.Timeouts.{TimeoutQueueItem, IsSorted}
use jormungandr.Mempool.Timeouts
use jormungandr.Mempool.Invariant.{Holds, Entries}
use jormungandr.Mempool.Expiry.{is_due}

module _ (chain : Chain) where
  open chain use {Tx, Raw, Date, position}

  -- The ids of the fragments that have expired.
  abbrev pub expired : Date → Entries chain → List ℕ
  expired date [] = []
  expired date ((id, f) ∷ l) =
      let rest = expired date l in if is_due chain date f then id ∷ rest else rest

  expired-of_find :
      (date : Date) (P : ℕ → Type 0) (l : Entries chain)
      → Distinct l
      → ((id : ℕ) (f : Fragment Tx Raw) → find id l ≡ some f → is_due chain date f ≡ true → P id)
      → All P (expired date l)
  expired-of_find date P [] d h = tt
  expired-of_find date P ((id, f) ∷ l) d h =
      let rest = expired-of_find date P l d.1 (λ j g e. h j g (ground arith)) in
      elim (Bool-cases (is_due chain date f)) [
        | inl due ↦ rw due (h id f (rw (==_refl id)) due, rest)
        | inr later ↦ rw later rest
      ]

  same-id :
      (a b : TimeoutQueueItem Date) → Timeouts.same position a b ≡ true → (a.id == b.id) ≡ true
  unfolding Timeouts.same
  same-id a b h = ground arith

  -- An item of a queue in order that has expired is among those taken.
  taken-All :
      (date : Date) (P : ℕ → Type 0) (z : TimeoutQueueItem Date) (q : List (TimeoutQueueItem Date))
      → IsSorted position q
      → Timeouts.contains position z q ≡ true
      → Timeouts.is_expired position date z ≡ true
      → All P (map (λ item. item.id) (Timeouts.take_expired position date q))
      → P z.id
  unfolding Timeouts.contains Timeouts.take_expired Timeouts.drop_expired
  taken-All date P z [] s held e all = absurd (cc)
  taken-All date P z (x ∷ q) s held e all =
      elim (Bool-cases (Timeouts.is_expired position date x)) [
        | inr later ↦
            let kept = Timeouts.drop_expired_lem position date (x ∷ q) z s (rw later held) in
            absurd (cc)
        | inl over ↦
            let all' = rw over at all in
            elim (Bool-cases (Timeouts.same position z x)) [
              | inl hit ↦ subst P (sym (==→≡ _ _ (same-id z x hit))) all'.0
              | inr miss ↦ taken-All date P z q s.1 (rw miss at held) e all'.1
            ]
      ]

  -- What every id has that `remove_expired_txs` gives, the id of every expired fragment has.
  pub expired-All :
      (date : Date) (P : ℕ → Type 0) (p : Pool chain) (l : Entries chain)
      → Holds chain p l
      → All P (map (λ item. item.id) (Timeouts.take_expired position date p.timeout_queue))
      → All P (expired date l)
  unfolding Timeouts.is_expired
  expired-All date P p l h all = expired-of_find date P l h.entries.distinct (λ id f found due.
      elim (Option-cases (get_transaction_expiry_date chain f)) [
        | inl n ↦ absurd (let no = rw n at due in cc)
        | inr (d, n) ↦
            let item : TimeoutQueueItem Date = record { valid_until = d; id = id } in
            taken-All date P item p.timeout_queue h.sorted
              (h.timeouts item ∙ rw (found, n) (==_refl (position d))) (rw n at due) all
      ])
