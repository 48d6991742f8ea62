-- ===== src/Logs/Entries.antt =====
-- Lists of keyed values under the operations of an LRU cache: what `take`, `without` and `touch`
-- keep.
use jormungandr.Prelude.{
  ℕ, zero, suc, ◌+◌, ◌≤◌, ◌≡◌, refl, subst, false, true, some, List, [], ◌∷◌, arith, is_some,
  length, take, find, without, Distinct, All, without-Distinct, find-without_self, ◌==◌, Bool-cases,
  inl, inr, Option-cases,
}
use jormungandr.Lru.{touch}

module _ {V : Type 0} where
  find-take :
      (k n : ℕ) (l : List (ℕ × V))
      → is_some (find k l) ≡ false
      → is_some (find k (take n l)) ≡ false
  find-take k zero l h = refl
  find-take k (suc n) [] h = refl
  find-take k (suc n) ((j, v) ∷ l) h = ground (arith, find-take k n l)

  pub take-Distinct : (n : ℕ) (l : List (ℕ × V)) → Distinct l → Distinct (take n l)
  take-Distinct zero l d = tt
  take-Distinct (suc n) [] d = tt
  take-Distinct (suc n) ((j, v) ∷ l) d = (find-take j n l d.0, take-Distinct n l d.1)

  pub length-take-le : (n : ℕ) (l : List (ℕ × V)) → length (take n l) ≤ n
  length-take-le zero l = omega arith
  length-take-le (suc n) [] = omega arith
  length-take-le (suc n) (e ∷ l) = omega (arith, length-take-le n l)

  pub length-without-le : (k : ℕ) (l : List (ℕ × V)) → length (without k l) ≤ length l
  length-without-le k [] = omega arith
  length-without-le k ((j, v) ∷ l) = ground (arith, length-without-le k l)

  pub length-without :
      (k : ℕ) (l : List (ℕ × V)) → is_some (find k l) ≡ true → length (without k l) + 1 ≡ length l
  length-without k [] h = cc
  length-without k ((j, v) ∷ l) h = ground (arith, length-without k l)

  pub touch-Distinct : (k : ℕ) (f : V → V) (l : List (ℕ × V)) → Distinct l → Distinct (touch k f l)
  touch-Distinct k f l d = elim (Option-cases (find k l)) [
    | inl e ↦ rw (e, touch) d
    | inr (v, e) ↦ rw (e, touch) (find-without_self k l d, without-Distinct k l d)
  ]

  pub length-touch : (k : ℕ) (f : V → V) (l : List (ℕ × V)) → length (touch k f l) ≡ length l
  length-touch k f l = elim (Option-cases (find k l)) [
    | inl e ↦ rw (e, touch)
    | inr (v, e) ↦ rw (e, touch) (omega (arith, length-without k l (rw e)))
  ]

  module _ (P : ℕ × V → Type 0) where
    pub take-All : (n : ℕ) (l : List (ℕ × V)) → All P l → All P (take n l)
    take-All zero l h = tt
    take-All (suc n) [] h = tt
    take-All (suc n) (e ∷ l) h = (h.0, take-All n l h.1)

    pub without-All : (k : ℕ) (l : List (ℕ × V)) → All P l → All P (without k l)
    without-All k [] h = tt
    without-All k ((j, v) ∷ l) h = elim (Bool-cases (j == k)) [
      | inl e ↦ rw e h.1
      | inr e ↦ rw e (h.0, without-All k l h.1)
    ]

    pub find-All : (k : ℕ) (v : V) (l : List (ℕ × V)) → All P l → find k l ≡ some v → P (k, v)
    find-All k v [] h e = absurd (cc)
    find-All k v ((j, w) ∷ l) h e = elim (Bool-cases (j == k)) [
      | inl hit ↦ subst P (ground arith) h.0
      | inr miss ↦ find-All k v l h.1 (rw miss at e)
    ]

    pub touch-All :
        (k : ℕ) (f : V → V) (l : List (ℕ × V))
        → ((v : V) → P (k, v) → P (k, f v))
        → All P l
        → All P (touch k f l)
    touch-All k f l step h = elim (Option-cases (find k l)) [
      | inl e ↦ rw (e, touch) h
      | inr (v, e) ↦ rw (e, touch) (step v (find-All k v l h e), without-All k l h)
    ]
