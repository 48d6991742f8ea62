-- ===== src/Prelude/Maps.antt =====
-- `HashMap` of the standard library, seen through `get` and `len`, and lists of keyed values.
use Prim.Native.Nat.{ℕ, suc, ◌+◌, ◌-◌}
use mathlib.Core.Path.{◌≡◌, refl, ap}
use mathlib.Core.Bool.{false}
use mathlib.Core.Logic.{inl, inr}
use mathlib.Core.Option.{Option, none, some}
use mathlib.Core.List.{List, [], ◌∷◌, ◌++◌}
use native.Mathlib.Omega.{arith}
use jormungandr.Prelude.Tests.{◌==◌, if◌then◌else◌, is_some, Bool-cases}

pub record HashMap {ℓ} (V : Type ℓ) : Type ℓ where
  pub get : ℕ → Option V
  pub len : ℕ

module _ {ℓ} {V : Type ℓ} where
  abbrev pub empty_map : HashMap V
  empty_map = record { get = λ _. none; len = 0 }

  -- `insert`: a key that is there keeps its place.
  abbrev pub put : ℕ → V → HashMap V → HashMap V
  put k v m = record {
    get = λ j. if k == j then some v else m.get j;
    len = if is_some (m.get k) then m.len else m.len + 1;
  }

  -- `remove`.
  abbrev pub erase : ℕ → HashMap V → HashMap V
  erase k m = record {
    get = λ j. if k == j then none else m.get j;
    len = if is_some (m.get k) then m.len - 1 else m.len;
  }

  -- The value that a list of keyed values holds for a key.
  abbrev pub find : ℕ → List (ℕ × V) → Option V
  find k [] = none
  find k ((j, v) ∷ l) = if j == k then some v else find k l

  -- The list without the first value for a key.
  abbrev pub without : ℕ → List (ℕ × V) → List (ℕ × V)
  without k [] = []
  without k ((j, v) ∷ l) = if j == k then l else (j, v) ∷ without k l

  abbrev pub Distinct : List (ℕ × V) → Type 0
  Distinct [] = Unit
  Distinct ((k, v) ∷ l) = (is_some (find k l) ≡ false) × Distinct l

  pub find-append :
      (k : ℕ) (a b : List (ℕ × V))
      → find k (a ++ b) ≡ elim (find k a) [ none ↦ find k b | some v ↦ some v ]
  find-append k [] b = refl
  find-append k ((j, v) ∷ a) b = ground (arith, find-append k a b)

  pub find-without_ne :
      (k j : ℕ) (l : List (ℕ × V)) → (k == j) ≡ false → find j (without k l) ≡ find j l
  find-without_ne k j [] h = refl
  find-without_ne k j ((i, v) ∷ l) h = ground (arith, find-without_ne k j l h)

  pub find-without_self :
      (k : ℕ) (l : List (ℕ × V)) → Distinct l → is_some (find k (without k l)) ≡ false
  find-without_self k [] h = refl
  find-without_self k ((i, v) ∷ l) h = ground (arith, find-without_self k l h.1)

  pub without-Distinct : (k : ℕ) (l : List (ℕ × V)) → Distinct l → Distinct (without k l)
  without-Distinct k [] h = tt
  without-Distinct k ((i, v) ∷ l) h =
      ground (arith, without-Distinct k l h.1, find-without_ne k i l)

  -- Where a key is found the list splits.
  pub find-split :
      (k : ℕ) (v : V) (l : List (ℕ × V))
      → find k l ≡ some v
      → (a b : List (ℕ × V)) × (l ≡ a ++ (k, v) ∷ b)
        × (without k l ≡ a ++ b)
        × (is_some (find k a) ≡ false)
  find-split k v [] h = absurd (cc)
  find-split k v ((j, w) ∷ l) h = elim (Bool-cases (j == k)) [
    | inl hit ↦ ([], l, ground arith, rw hit, refl)
    | inr miss ↦
        let (a, b, e, e', absent) = find-split k v l (rw miss at h) in
        ((j, w) ∷ a, b, ap (◌∷◌ (j, w)) e, rw miss (ap (◌∷◌ (j, w)) e'), rw miss absent)
  ]

  pub Distinct-snoc :
      (l : List (ℕ × V)) (k : ℕ) (v : V)
      → Distinct l
      → is_some (find k l) ≡ false
      → Distinct (l ++ (k, v) ∷ [])
  Distinct-snoc [] k v d h = (refl, tt)
  Distinct-snoc ((j, w) ∷ l) k v d h =
      (ground (arith, find-append j l ((k, v) ∷ [])), Distinct-snoc l k v d.1 (ground arith))

  -- The key of an element in the middle stands nowhere else, and the rest is still distinct.
  pub Distinct-middle :
      (a b : List (ℕ × V)) (k : ℕ) (v : V)
      → Distinct (a ++ (k, v) ∷ b)
      → Distinct a
        × Distinct b
        × Distinct (a ++ b)
        × (is_some (find k a) ≡ false)
        × (is_some (find k b) ≡ false)
  Distinct-middle [] b k v d = (tt, d.1, d.1, refl, d.0)
  Distinct-middle ((j, w) ∷ a) b k v d =
      let (da, db, dab, ka, kb) = Distinct-middle a b k v d.1 in
      let split = find-append j a ((k, v) ∷ b) in
      (
        (ground (arith, split), da),
        db,
        (ground (arith, split, find-append j a b), dab),
        ground (arith, split),
        kb,
      )

  pub without_absent : (k : ℕ) (l : List (ℕ × V)) → find k l ≡ none → without k l ≡ l
  without_absent k [] h = refl
  without_absent k ((j, w) ∷ l) h = elim (Bool-cases (j == k)) [
    | inl hit ↦ absurd (ground arith)
    | inr miss ↦ rw miss (ap (◌∷◌ (j, w)) (without_absent k l (rw miss at h)))
  ]

  -- A key that is not in the whole is in neither part, nor the key between them.
  pub absent-middle :
      (j : ℕ) (a b : List (ℕ × V)) (k : ℕ) (v : V)
      → is_some (find j (a ++ (k, v) ∷ b)) ≡ false
      → ((k == j) ≡ false) × (is_some (find j a) ≡ false) × (is_some (find j b) ≡ false)
  absent-middle j [] b k v h = (ground arith, refl, ground arith)
  absent-middle j ((i, w) ∷ a) b k v h =
      let (x, y, z) = absent-middle j a b k v (ground arith) in (x, ground arith, z)

  pub absent-append :
      (j : ℕ) (a b : List (ℕ × V))
      → is_some (find j (a ++ b)) ≡ false
      → (is_some (find j a) ≡ false) × (is_some (find j b) ≡ false)
  absent-append j [] b h = (refl, h)
  absent-append j ((i, w) ∷ a) b h =
      let (y, z) = absent-append j a b (ground arith) in (ground arith, z)

  pub absent-join :
      (j : ℕ) (a b : List (ℕ × V))
      → is_some (find j a) ≡ false
      → is_some (find j b) ≡ false
      → is_some (find j (a ++ b)) ≡ false
  absent-join j [] b h h' = h'
  absent-join j ((i, w) ∷ a) b h h' = ground (arith, absent-join j a b)

  pub find-snoc :
      (k : ℕ) (v : V) (a : List (ℕ × V))
      → is_some (find k a) ≡ false
      → find k (a ++ (k, v) ∷ []) ≡ some v
  find-snoc k v [] h = ground arith
  find-snoc k v ((j, w) ∷ a) h = ground (arith, find-snoc k v a)

  pub without-snoc :
      (k : ℕ) (v : V) (a : List (ℕ × V))
      → is_some (find k a) ≡ false
      → without k (a ++ (k, v) ∷ []) ≡ a
  without-snoc k v [] h = ground arith
  without-snoc k v ((j, w) ∷ a) h = ground (arith, without-snoc k v a)

  pub find-snoc_lem :
      (k j : ℕ) (v : V) (a : List (ℕ × V))
      → is_some (find k a) ≡ false
      → find j (a ++ (k, v) ∷ []) ≡ (if k == j then some v else find j a)
  find-snoc_lem k j v a h = ground (arith, find-append j a ((k, v) ∷ []), find-snoc k v a)

-- How often a number is in a list.
abbrev pub count : ℕ → List ℕ → ℕ
count k [] = 0
count k (x ∷ xs) = let rest = count k xs in if x == k then suc rest else rest

pub count-append : (k : ℕ) (xs ys : List ℕ) → count k (xs ++ ys) ≡ count k xs + count k ys
count-append k [] ys = omega arith
count-append k (x ∷ xs) ys = ground (arith, count-append k xs ys)
