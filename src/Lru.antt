-- ===== src/Lru.antt =====
-- The interface of the `lru` crate, which is not part of the repository: a cache is seen through its
-- iterator, the most recently used entry first.
pub mod Keyed
use jormungandr.Prelude.{
  ℕ, ◌≡◌, Option, none, some, List, [], ◌∷◌, find, without, take, last_of, drop_last,
}

-- The list with the entry of a key moved to the front and its value changed; nothing happens to a
-- list that has no such key.
abbrev pub touch {ℓ} : {V : Type ℓ} → ℕ → (V → V) → List (ℕ × V) → List (ℕ × V)
touch k f l = elim (find k l) [ none ↦ l | some v ↦ (k, f v) ∷ without k l ]

-- `contains` and `peek` answer as the iterator does and keep the order; `put` and `get_mut` move the
-- key to the front; `put` of a new key beyond the capacity drops the entry that was used longest
-- ago, which is the one that `peek_lru` and `pop_lru` give.
pub record LruCache (V : Type 0) : Type 1 where
  pub Cache : Type 0
  pub new : ℕ → Cache
  pub cap : Cache → ℕ
  pub iter : Cache → List (ℕ × V)
  pub peek : Cache → ℕ → Option V
  pub put : Cache → ℕ → V → Cache
  pub get_mut : Cache → ℕ → (V → V) → Cache
  pub pop : Cache → ℕ → Cache
  pub peek_lru : Cache → Option (ℕ × V)
  pub pop_lru : Cache → Cache
  pub iter-new : (n : ℕ) → iter (new n) ≡ []
  pub cap-new : (n : ℕ) → cap (new n) ≡ n
  pub peek-iter : (c : Cache) (k : ℕ) → peek c k ≡ find k (iter c)
  pub iter-put :
      (c : Cache) (k : ℕ) (v : V) → iter (put c k v) ≡ take (cap c) ((k, v) ∷ without k (iter c))
  pub cap-put : (c : Cache) (k : ℕ) (v : V) → cap (put c k v) ≡ cap c
  pub iter-get_mut : (c : Cache) (k : ℕ) (f : V → V) → iter (get_mut c k f) ≡ touch k f (iter c)
  pub cap-get_mut : (c : Cache) (k : ℕ) (f : V → V) → cap (get_mut c k f) ≡ cap c
  pub iter-pop : (c : Cache) (k : ℕ) → iter (pop c k) ≡ without k (iter c)
  pub cap-pop : (c : Cache) (k : ℕ) → cap (pop c k) ≡ cap c
  pub peek_lru-iter : (c : Cache) → peek_lru c ≡ last_of (iter c)
  pub iter-pop_lru : (c : Cache) → iter (pop_lru c) ≡ drop_last (iter c)
  pub cap-pop_lru : (c : Cache) → cap (pop_lru c) ≡ cap c
