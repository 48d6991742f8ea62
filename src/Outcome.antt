-- ===== src/Outcome.antt =====
-- Results of code that may fail or panic, and computations that change a state on the way. An error
-- leaves the changes made before it.
pub mod Keeps
pub mod Triple
use jormungandr.Prelude.{◌≡◌, refl, ◌⊎◌, inl, inr, ℕ, List, [], ◌∷◌, Bool, true, false}

pub data Outcome (E A : Type 0) : Type 0 where
  ok : A → Outcome E A
  err : E → Outcome E A
  panic : Outcome E A

abbrev pub M : Type 0 → Type 0 → Type 0 → Type 0
M S E A = S → S × Outcome E A

module _ {E A : Type 0} where
  -- The ways in which a computation ends.
  pub Outcome-cases :
      (r : Outcome E A) → ((a : A) × (r ≡ ok a)) ⊎ ((e : E) × (r ≡ err e)) ⊎ (r ≡ panic)
  Outcome-cases (ok a) = inl (a, refl)
  Outcome-cases (err e) = inr (inl (e, refl))
  Outcome-cases panic = inr (inr refl)

module _ {E F A B : Type 0} where
  -- `map` and `map_err` at once.
  abbrev pub mapped : (A → B) → (E → F) → Outcome E A → Outcome F B
  mapped f g (ok a) = ok (f a)
  mapped f g (err e) = err (g e)
  mapped f g panic = panic

module _ {E F A : Type 0} where
  unfoldable pub of_sum : (E → F) → A ⊎ E → Outcome F A
  of_sum into (inl a) = ok a
  of_sum into (inr e) = err (into e)

module _ {S E A B : Type 0} where
  -- What follows a result.
  abbrev pub continue : (A → M S E B) → S × Outcome E A → S × Outcome E B
  continue f (s, ok a) = f a s
  continue f (s, err e) = (s, err e)
  continue f (s, panic) = (s, panic)

  infixl 5 ◌>>=◌
  unfoldable pub ◌>>=◌ : M S E A → (A → M S E B) → M S E B
  ◌>>=◌ m f s = continue f (m s)

  infixl 5 ◌>>◌
  unfoldable pub ◌>>◌ : M S E A → M S E B → M S E B
  ◌>>◌ m k s = continue (λ _. k) (m s)

module _ {S E A : Type 0} where
  abbrev pub return : A → M S E A
  return a s = (s, ok a)

  abbrev pub throw : E → M S E A
  throw e s = (s, err e)

  abbrev pub crash : M S E A
  crash s = (s, panic)

  -- A result that needs no state, and a part of the state.
  unfoldable pub lifted : Outcome E A → M S E A
  lifted r s = (s, r)

  unfoldable pub reads : (S → A) → M S E A
  reads f s = (s, ok (f s))

module _ {S E A : Type 0} where
  -- The loop of a computation over a list.
  unfoldable pub for_each : List A → (A → M S E (Unit {0})) → M S E (Unit {0})
  for_each [] f s = (s, ok tt)
  for_each (x ∷ xs) f s = continue (λ _. for_each xs f) (f x s)

module _ {S E F A : Type 0} where
  -- An error becomes a value; a panic goes on.
  unfoldable pub attempt : M S E A → M S F (Outcome E A)
  attempt m s =
      let (s', r) = m s in
      (
        s',
        elim r as (λ _. Outcome F (Outcome E A)) [
          | ok a ↦ ok (ok a)
          | err e ↦ ok (err e)
          | panic ↦ panic
        ],
      )
