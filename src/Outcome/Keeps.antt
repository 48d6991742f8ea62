-- ===== src/Outcome/Keeps.antt =====
-- What a computation keeps of its state, and what its result has: the rules for a chain of steps.
use jormungandr.Prelude.{◌≡◌, refl, ◌⊎◌, inl, inr, Bool, true, false, if◌then◌else◌}
use jormungandr.Outcome.{
  Outcome, ok, err, panic, M, continue, ◌>>=◌, ◌>>◌, return, throw, crash, lifted, reads, mapped,
  of_sum, attempt,
}

module _ {E A : Type 0} where
  -- A result has `Q`; after a panic there is `P`, which is empty when there is no panic.
  abbrev pub Post : Type 0 → (A → Type 0) → Outcome E A → Type 0
  Post P Q (ok a) = Q a
  Post P Q (err e) = Unit
  Post P Q panic = P

  pub Post-safe : (P : Type 0) (Q : A → Type 0) (r : Outcome E A) → Post ⊥ Q r → Post P Q r
  Post-safe P Q (ok a) q = q
  Post-safe P Q (err e) q = tt
  Post-safe P Q panic q = elim q [ ]

  pub Post-any : (r : Outcome E A) → Post (Unit {0}) (λ _. Unit {0}) r
  Post-any (ok a) = tt
  Post-any (err e) = tt
  Post-any panic = tt

  pub Post-mono :
      (P : Type 0) (Q R : A → Type 0) (r : Outcome E A)
      → ((a : A) → Q a → R a)
      → Post P Q r
      → Post P R r
  Post-mono P Q R (ok a) f q = f a q
  Post-mono P Q R (err e) f q = tt
  Post-mono P Q R panic f p = p

pub Post-mapped :
    {E F A B : Type 0} (P : Type 0) (Q : B → Type 0) (f : A → B) (g : E → F) (r : Outcome E A)
    → Post P (λ a. Q (f a)) r
    → Post P Q (mapped f g r)
Post-mapped P Q f g (ok a) q = q
Post-mapped P Q f g (err e) q = tt
Post-mapped P Q f g panic p = p

pub of_sum-Post :
    {E F A : Type 0} (P : Type 0) (into : E → F) (r : A ⊎ E)
    → Post P (λ a. r ≡ inl a) (of_sum into r)
unfolding of_sum
of_sum-Post P into (inl a) = refl
of_sum-Post P into (inr e) = tt

module _ {S E A : Type 0} where
  pub record Keeps (I : S → Type 0) (P : Type 0) (Q : A → Type 0) (m : M S E A) : Type 0 where
    pub at : (s : S) → I s → I (m s).0 × Post P Q (m s).1

  -- Only the state is spoken of.
  abbrev pub Stays : (S → Type 0) → M S E A → Type 0
  Stays I m = Keeps I (Unit {0}) (λ _. Unit {0}) m

  pub Keeps-mono :
      {I : S → Type 0} {P : Type 0} {Q R : A → Type 0} {m : M S E A}
      → ((a : A) → Q a → R a)
      → Keeps I P Q m
      → Keeps I P R m
  Keeps-mono {P = P} {Q = Q} {R = R} {m = m} f k = record {
    at = λ s i. let (i', q) = k.at s i in (i', Post-mono P Q R (m s).1 f q);
  }

  pub Keeps-safe :
      {I : S → Type 0} {P : Type 0} {Q : A → Type 0} {m : M S E A} → Keeps I ⊥ Q m → Keeps I P Q m
  Keeps-safe {P = P} {Q = Q} {m = m} k = record {
    at = λ s i. let (i', q) = k.at s i in (i', Post-safe P Q (m s).1 q);
  }

  pub if-Keeps :
      {I : S → Type 0} {P : Type 0} {Q : A → Type 0} {m k : M S E A} (b : Bool)
      → Keeps I P Q m
      → Keeps I P Q k
      → Keeps I P Q (if b then m else k)
  if-Keeps true h h' = h
  if-Keeps false h h' = h'

  pub return-Keeps :
      {I : S → Type 0} {P : Type 0} {Q : A → Type 0} (a : A) → Q a → Keeps I P Q (return {E = E} a)
  return-Keeps a q = record { at = λ s i. (i, q) }

  pub throw-Keeps : {I : S → Type 0} {P : Type 0} {Q : A → Type 0} (e : E) → Keeps I P Q (throw e)
  throw-Keeps e = record { at = λ s i. (i, tt) }

  pub crash-Keeps : {I : S → Type 0} {P : Type 0} {Q : A → Type 0} → P → Keeps I P Q (crash {E = E})
  crash-Keeps p = record { at = λ s i. (i, p) }

  pub lifted-Keeps :
      {I : S → Type 0} {P : Type 0} {Q : A → Type 0} (r : Outcome E A)
      → Post P Q r
      → Keeps I P Q (lifted r)
  unfolding lifted
  lifted-Keeps r q = record { at = λ s i. (i, q) }

  pub reads-Keeps :
      {I : S → Type 0} {P : Type 0} {Q : A → Type 0} (f : S → A)
      → ((s : S) → I s → Q (f s))
      → Keeps I P Q (reads {E = E} f)
  unfolding reads
  reads-Keeps f q = record { at = λ s i. (i, q s i) }

module _ {S E A B : Type 0} {I : S → Type 0} {P : Type 0} {Q : A → Type 0} {R : B → Type 0} where
  continue-Keeps :
      (f : A → M S E B) (r : S × Outcome E A)
      → I r.0 × Post P Q r.1
      → ((a : A) → Q a → Keeps I P R (f a))
      → I (continue f r).0 × Post P R (continue f r).1
  continue-Keeps f (s, ok a) (i, q) k = (k a q).at s i
  continue-Keeps f (s, err e) (i, q) k = (i, tt)
  continue-Keeps f (s, panic) (i, p) k = (i, p)

  pub bind-Keeps :
      {m : M S E A} {f : A → M S E B}
      → Keeps I P Q m
      → ((a : A) → Q a → Keeps I P R (f a))
      → Keeps I P R (m >>= f)
  unfolding ◌>>=◌
  bind-Keeps {m} {f} h k = record { at = λ s i. continue-Keeps f (m s) (h.at s i) k }

  pub then-Keeps :
      {m : M S E A} {k : M S E B} → Keeps I P Q m → Keeps I P R k → Keeps I P R (m >> k)
  unfolding ◌>>◌
  then-Keeps {m} {k} h h' = record {
    at = λ s i. continue-Keeps (λ _. k) (m s) (h.at s i) (λ _ _. h');
  }

  -- The second computation may rely on what the first one's result has.
  pub after-Keeps :
      {m : M S E A} {k : M S E B}
      → Keeps I P Q m
      → ((a : A) → Q a → Keeps I P R k)
      → Keeps I P R (m >> k)
  unfolding ◌>>◌
  after-Keeps {m} {k} h h' = record { at = λ s i. continue-Keeps (λ _. k) (m s) (h.at s i) h' }

caught :
    {E A : Type 0} (F P : Type 0) (Q : A → Type 0) (r : Outcome E A)
    → Post P Q r
    → Post P
        (λ (x : Outcome E A). Post P Q x)
        (elim r as (λ _. Outcome F (Outcome E A)) [
          | ok a ↦ ok (ok a)
          | err e ↦ ok (err e)
          | panic ↦ panic
        ])
caught F P Q (ok a) q = q
caught F P Q (err e) q = tt
caught F P Q panic p = p

module _ {S E F A : Type 0} {I : S → Type 0} {P : Type 0} {Q : A → Type 0} where
  pub attempt-Keeps :
      {m : M S E A}
      → Keeps I P Q m
      → Keeps I P (λ (r : Outcome E A). Post P Q r) (attempt {F = F} m)
  unfolding attempt
  attempt-Keeps {m} k = record {
    at = λ s i. let (i', q) = k.at s i in (i', caught F P Q (m s).1 q);
  }
