-- ===== src/Lru/Keyed.antt =====
-- A cache whose keys are distinct, which keeps its capacity, and whose entries have a property.
use jormungandr.Prelude.{
  ℕ, zero, suc, ◌≤◌, ◌<◌, ◌≡◌, refl, sym, ap, ◌∙◌, false, none, some, List, [], ◌∷◌, ◌++◌, arith,
  length, length-append, find, without, take, drop_last, drop_last-append, Distinct,
  Distinct-middle, All, without-Distinct, find-without_self, find-without_ne, if◌then◌else◌, ◌==◌,
  ==_refl,
}
use jormungandr.Lru.{LruCache, touch}
use jormungandr.Logs.Entries.{
  take-Distinct, length-take-le, length-without-le, touch-Distinct, length-touch, take-All,
  without-All, touch-All,
}

module _ {V : Type 0} (P : ℕ × V → Type 0) where
  All-init : (l : List (ℕ × V)) (e : ℕ × V) → All P (l ++ e ∷ []) → All P l
  All-init [] e h = tt
  All-init (x ∷ l) e h = (h.0, All-init l e h.1)

module _ {V : Type 0} (lru : LruCache V) (P : ℕ × V → Type 0) where
  open lru use {
    Cache, iter, cap, peek, put, get_mut, pop, pop_lru, peek_lru, peek-iter, iter-put, cap-put,
    iter-get_mut, cap-get_mut, iter-pop, cap-pop, iter-pop_lru, cap-pop_lru, peek_lru-iter,
  }

  pub record IsKeyed (c : Cache) : Type 0 where
    pub distinct : Distinct (iter c)
    pub bounded : length (iter c) ≤ cap c
    pub entries : All P (iter c)

  pub new-IsKeyed : (n : ℕ) → IsKeyed (lru.new n)
  new-IsKeyed n = record {
    distinct = rw (lru.iter-new n) tt;
    bounded = rw (lru.iter-new n) (omega arith);
    entries = rw (lru.iter-new n) tt;
  }

  pub put-IsKeyed : (c : Cache) (k : ℕ) (v : V) → IsKeyed c → P (k, v) → IsKeyed (put c k v)
  put-IsKeyed c k v i h = record {
    distinct = rw (iter-put c k v) (
        take-Distinct (cap c) ((k, v) ∷ without k (iter c))
          (find-without_self k (iter c) i.distinct, without-Distinct k (iter c) i.distinct));
    bounded = rw (iter-put c k v, cap-put c k v) (length-take-le (cap c) _);
    entries =
        rw (iter-put c k v) (
          take-All P (cap c) ((k, v) ∷ without k (iter c)) (h, without-All P k (iter c) i.entries));
  }

  pub get_mut-IsKeyed :
      (c : Cache) (k : ℕ) (f : V → V)
      → IsKeyed c
      → ((v : V) → P (k, v) → P (k, f v))
      → IsKeyed (get_mut c k f)
  get_mut-IsKeyed c k f i h = record {
    distinct = rw (iter-get_mut c k f) (touch-Distinct k f (iter c) i.distinct);
    bounded = rw (iter-get_mut c k f, cap-get_mut c k f, length-touch k f (iter c)) i.bounded;
    entries = rw (iter-get_mut c k f) (touch-All P k f (iter c) h i.entries);
  }

  pub pop-IsKeyed : (c : Cache) (k : ℕ) → IsKeyed c → IsKeyed (pop c k)
  pop-IsKeyed c k i = record {
    distinct = rw (iter-pop c k) (without-Distinct k (iter c) i.distinct);
    bounded =
        rw (iter-pop c k, cap-pop c k) (omega (arith, length-without-le k (iter c), i.bounded));
    entries = rw (iter-pop c k) (without-All P k (iter c) i.entries);
  }

  -- The entry that was used longest ago goes, and the others stay.
  pub pop_lru-IsKeyed :
      (c : Cache) (a : List (ℕ × V)) (e : ℕ × V)
      → iter c ≡ a ++ e ∷ []
      → IsKeyed c
      → (iter (pop_lru c) ≡ a) × IsKeyed (pop_lru c)
  pop_lru-IsKeyed c a e split i =
      let left : iter (pop_lru c) ≡ a =
        iter-pop_lru c ∙ ap drop_last split ∙ drop_last-append a e in
      (
        left,
        record {
          distinct = rw left (Distinct-middle a [] e.0 e.1 (rw split at i.distinct)).0;
          bounded =
              rw (left, cap-pop_lru c)
                (omega (arith, i.bounded, ap length split, length-append a (e ∷ [])));
          entries = rw left (All-init P a e (rw split at i.entries));
        },
      )

module _ {V : Type 0} (lru : LruCache V) where
  open lru use {Cache, iter, cap, peek, put, get_mut, peek-iter, iter-put, iter-get_mut}

  find-touch :
      (k j : ℕ) (f : V → V) (l : List (ℕ × V)) (v : V)
      → find k l ≡ some v
      → find j (touch k f l) ≡ (if k == j then some (f v) else find j l)
  find-touch k j f l v h = rw (h, touch) (ground (arith, find-without_ne k j l))

  -- An update in place changes the value of its key alone.
  pub peek-get_mut :
      (c : Cache) (k j : ℕ) (f : V → V) (v : V)
      → peek c k ≡ some v
      → peek (get_mut c k f) j ≡ (if k == j then some (f v) else peek c j)
  peek-get_mut c k j f v h =
      rw (peek-iter _ j, iter-get_mut c k f, peek-iter c j)
        (find-touch k j f (iter c) v (sym (peek-iter c k) ∙ h))

  find-take_first :
      (n k : ℕ) (v : V) (l : List (ℕ × V)) → 0 < n → find k (take n ((k, v) ∷ l)) ≡ some v
  find-take_first zero k v l h = absurd (omega arith)
  find-take_first (suc n) k v l h = ground (arith, ==_refl k)

  -- What was put last is there, unless the cache has no room at all.
  pub peek-put : (c : Cache) (k : ℕ) (v : V) → 0 < cap c → peek (put c k v) k ≡ some v
  peek-put c k v h =
      rw (peek-iter _ k, iter-put c k v) (find-take_first (cap c) k v (without k (iter c)) h)

  find-take-none : (n k : ℕ) (l : List (ℕ × V)) → find k l ≡ none → find k (take n l) ≡ none
  find-take-none zero k l h = refl
  find-take-none (suc n) k [] h = refl
  find-take-none (suc n) k ((j, v) ∷ l) h = ground (arith, find-take-none n k l)

  find-without-none : (j k : ℕ) (l : List (ℕ × V)) → find j l ≡ none → find j (without k l) ≡ none
  find-without-none j k [] h = refl
  find-without-none j k ((i, v) ∷ l) h = ground (arith, find-without-none j k l)

  -- A key that is absent stays absent when another one is put, and when any one goes.
  pub peek-put_none :
      (c : Cache) (k j : ℕ) (v : V) → (k == j) ≡ false → peek c j ≡ none → peek (put c k v) j ≡ none
  peek-put_none c k j v ne h =
      let absent = find-without-none j k (iter c) (sym (peek-iter c j) ∙ h) in
      rw (peek-iter _ j, iter-put c k v)
        (find-take-none (cap c) j ((k, v) ∷ without k (iter c)) (ground (arith, absent)))

  pub peek-pop_none : (c : Cache) (k j : ℕ) → peek c j ≡ none → peek (lru.pop c k) j ≡ none
  peek-pop_none c k j h =
      rw (peek-iter _ j, lru.iter-pop c k)
        (find-without-none j k (iter c) (sym (peek-iter c j) ∙ h))
