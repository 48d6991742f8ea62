-- ===== src/Mempool/Timeouts.antt =====
-- `TimeoutQueueItem` of jormungandr/src/fragment/pool.rs, and the `BTreeSet` that holds such items in
-- their order: by expiry date, then by id.
use jormungandr.Prelude.{
  ℕ, ◌≡◌, refl, Bool, true, false, ◌&&◌, ◌||◌, not, List, [], ◌∷◌, All, ltb, ◌==◌, if◌then◌else◌,
  arith, Bool-cases, inl, inr,
}

pub record TimeoutQueueItem (Date : Type 0) : Type 0 where
  pub valid_until : Date
  pub id : ℕ

module _ {Date : Type 0} (position : Date → ℕ) where
  -- `cmp` is `Equal`.
  unfoldable pub same : TimeoutQueueItem Date → TimeoutQueueItem Date → Bool
  same a b = position a.valid_until == position b.valid_until && a.id == b.id

  -- `cmp` is `Less`.
  unfoldable pub before : TimeoutQueueItem Date → TimeoutQueueItem Date → Bool
  before a b =
      if position a.valid_until == position b.valid_until
      then ltb a.id b.id
      else ltb (position a.valid_until) (position b.valid_until)

  unfoldable pub insert :
      TimeoutQueueItem Date → List (TimeoutQueueItem Date) → List (TimeoutQueueItem Date)
  insert x [] = x ∷ []
  insert x (y ∷ q) = if before x y then x ∷ y ∷ q else if same x y then y ∷ q else y ∷ insert x q

  unfoldable pub remove :
      TimeoutQueueItem Date → List (TimeoutQueueItem Date) → List (TimeoutQueueItem Date)
  remove x [] = []
  remove x (y ∷ q) = if same x y then q else y ∷ remove x q

  unfoldable pub is_expired : Date → TimeoutQueueItem Date → Bool
  is_expired date x = ltb (position x.valid_until) (position date)

  -- `take_while(|x| x.valid_until < block_date)`.
  unfoldable pub take_expired : Date → List (TimeoutQueueItem Date) → List (TimeoutQueueItem Date)
  take_expired date [] = []
  take_expired date (x ∷ q) = if is_expired date x then x ∷ take_expired date q else []

  -- What `take_expired` leaves.
  unfoldable pub drop_expired : Date → List (TimeoutQueueItem Date) → List (TimeoutQueueItem Date)
  drop_expired date [] = []
  drop_expired date (x ∷ q) = if is_expired date x then drop_expired date q else x ∷ q

  unfoldable pub contains : TimeoutQueueItem Date → List (TimeoutQueueItem Date) → Bool
  contains x [] = false
  contains x (y ∷ q) = same x y || contains x q

  abbrev pub IsSorted : List (TimeoutQueueItem Date) → Type 0
  IsSorted [] = Unit
  IsSorted (x ∷ q) = All (λ y. before x y ≡ true) q × IsSorted q

  pub contains-insert :
      (z x : TimeoutQueueItem Date) (q : List (TimeoutQueueItem Date))
      → contains z (insert x q) ≡ (same z x || contains z q)
  unfolding contains insert same before
  contains-insert z x [] = refl
  contains-insert z x (y ∷ q) = ground (arith, contains-insert z x q)

  before_trans :
      (x y z : TimeoutQueueItem Date) → before x y ≡ true → before y z ≡ true → before x z ≡ true
  unfolding before
  before_trans x y z h h' = ground arith

  before_connected :
      (x y : TimeoutQueueItem Date) → before x y ≡ false → same x y ≡ false → before y x ≡ true
  unfolding before same
  before_connected x y h h' = ground arith

  All-before :
      (x y : TimeoutQueueItem Date) (q : List (TimeoutQueueItem Date))
      → before x y ≡ true
      → All (λ z. before y z ≡ true) q
      → All (λ z. before x z ≡ true) q
  All-before x y [] h a = tt
  All-before x y (z ∷ q) h a = (before_trans x y z h a.0, All-before x y q h a.1)

  All-insert :
      (w x : TimeoutQueueItem Date) (q : List (TimeoutQueueItem Date))
      → before w x ≡ true
      → All (λ z. before w z ≡ true) q
      → All (λ z. before w z ≡ true) (insert x q)
  unfolding insert
  All-insert w x [] h a = (h, tt)
  All-insert w x (y ∷ q) h a = ground (arith, All-insert w x q h a.1)

  pub insert-IsSorted :
      (x : TimeoutQueueItem Date) (q : List (TimeoutQueueItem Date))
      → IsSorted q
      → IsSorted (insert x q)
  unfolding insert
  insert-IsSorted x [] s = (tt, tt)
  insert-IsSorted x (y ∷ q) s =
      ground
        (arith, before_connected x y, All-before x y q, All-insert y x q, insert-IsSorted x q s.1)

  All-remove :
      (w x : TimeoutQueueItem Date) (q : List (TimeoutQueueItem Date))
      → All (λ z. before w z ≡ true) q
      → All (λ z. before w z ≡ true) (remove x q)
  unfolding remove
  All-remove w x [] a = tt
  All-remove w x (y ∷ q) a = ground (arith, All-remove w x q a.1)

  pub remove-IsSorted :
      (x : TimeoutQueueItem Date) (q : List (TimeoutQueueItem Date))
      → IsSorted q
      → IsSorted (remove x q)
  unfolding remove
  remove-IsSorted x [] s = tt
  remove-IsSorted x (y ∷ q) s = ground (arith, All-remove y x q s.0, remove-IsSorted x q s.1)

  not-contains_after :
      (x z : TimeoutQueueItem Date) (q : List (TimeoutQueueItem Date))
      → same x z ≡ true
      → All (λ y. before x y ≡ true) q
      → contains z q ≡ false
  unfolding contains same before
  not-contains_after x z [] h a = refl
  not-contains_after x z (y ∷ q) h a = ground (arith, not-contains_after x z q h a.1)

  pub contains-remove :
      (z x : TimeoutQueueItem Date) (q : List (TimeoutQueueItem Date))
      → IsSorted q
      → contains z (remove x q) ≡ (not (same x z) && contains z q)
  unfolding contains remove same
  contains-remove z x [] s = ground arith
  contains-remove z x (y ∷ q) s =
      ground (arith, not-contains_after y z q, contains-remove z x q s.1)

  -- An expired prefix of a sorted queue is all that has expired.
  expired_before :
      (date : Date) (x : TimeoutQueueItem Date) (q : List (TimeoutQueueItem Date))
      → is_expired date x ≡ false
      → All (λ y. before x y ≡ true) q
      → (z : TimeoutQueueItem Date) → contains z (x ∷ q) ≡ true
      → is_expired date z ≡ false
  unfolding contains is_expired same before
  expired_before date x [] h a z c = ground arith
  expired_before date x (y ∷ q) h a z c = ground (arith, expired_before date x q h a.1 z)

  pub drop_expired_lem :
      (date : Date) (q : List (TimeoutQueueItem Date)) (z : TimeoutQueueItem Date)
      → IsSorted q
      → contains z (drop_expired date q) ≡ true
      → is_expired date z ≡ false
  unfolding drop_expired contains
  drop_expired_lem date [] z s c = cc
  drop_expired_lem date (x ∷ q) z s c = elim (Bool-cases (is_expired date x)) [
    | inl e ↦ drop_expired_lem date q z s.1 (rw e at c)
    | inr e ↦ expired_before date x q e s.0 z (rw e at c)
  ]

  pub same_refl : (x : TimeoutQueueItem Date) → same x x ≡ true
  unfolding same
  same_refl x = ground arith

  pub contains_head :
      (x : TimeoutQueueItem Date) (q : List (TimeoutQueueItem Date)) → contains x (x ∷ q) ≡ true
  unfolding contains same
  contains_head x q = ground arith

  pub remove_head :
      (x : TimeoutQueueItem Date) (q : List (TimeoutQueueItem Date)) → remove x (x ∷ q) ≡ q
  unfolding remove same
  remove_head x q = ground arith
