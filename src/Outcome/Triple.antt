-- ===== src/Outcome/Triple.antt =====
-- What holds after a computation that changes the state on the way: one thing after a result, another
-- after an error or a panic.
use jormungandr.Prelude.{Bool, true, false, if◌then◌else◌}
use jormungandr.Outcome.{Outcome, ok, err, panic, M, continue, ◌>>=◌, ◌>>◌}
use jormungandr.Outcome.Keeps.{Keeps}

module _ {S E A : Type 0} where
  abbrev pub Ends : (S → Type 0) → (A → S → Type 0) → S × Outcome E A → Type 0
  Ends F Q (s, ok a) = Q a s
  Ends F Q (s, err e) = F s
  Ends F Q (s, panic) = F s

  pub Ends-mono :
      (F : S → Type 0) (Q R : A → S → Type 0) (r : S × Outcome E A)
      → ((a : A) (s : S) → Q a s → R a s)
      → Ends F Q r
      → Ends F R r
  Ends-mono F Q R (s, ok a) f q = f a s q
  Ends-mono F Q R (s, err e) f q = q
  Ends-mono F Q R (s, panic) f q = q

  pub record Triple (I F : S → Type 0) (Q : A → S → Type 0) (m : M S E A) : Type 0 where
    pub at : (s : S) → I s → Ends F Q (m s)

  weaken :
      (I F : S → Type 0) (P : Type 0) (r : S × Outcome E A)
      → ((s : S) → I s → F s)
      → I r.0
      → Ends F (λ _. I) r
  weaken I F P (s, ok a) f i = i
  weaken I F P (s, err e) f i = f s i
  weaken I F P (s, panic) f i = f s i

  pub Keeps-Triple :
      {I F : S → Type 0} {P : Type 0} {Q : A → Type 0} {m : M S E A}
      → ((s : S) → I s → F s)
      → Keeps I P Q m
      → Triple I F (λ _. I) m
  Keeps-Triple {I = I} {F = F} {P = P} {m = m} f k = record {
    at = λ s i. weaken I F P (m s) f (k.at s i).0;
  }

  pub if-Triple :
      {I F : S → Type 0} {Q : A → S → Type 0} {m k : M S E A} (b : Bool)
      → Triple I F Q m
      → Triple I F Q k
      → Triple I F Q (if b then m else k)
  if-Triple true h h' = h
  if-Triple false h h' = h'

module _ {S E A B : Type 0} {F : S → Type 0} {Q : A → S → Type 0} {R : B → S → Type 0} where
  continue-Ends :
      (f : A → M S E B) (r : S × Outcome E A)
      → Ends F Q r
      → ((a : A) → Triple (Q a) F R (f a))
      → Ends F R (continue f r)
  continue-Ends f (s, ok a) q k = (k a).at s q
  continue-Ends f (s, err e) q k = q
  continue-Ends f (s, panic) q k = q

  pub bind-Triple :
      {I : S → Type 0} {m : M S E A} {f : A → M S E B}
      → Triple I F Q m
      → ((a : A) → Triple (Q a) F R (f a))
      → Triple I F R (m >>= f)
  unfolding ◌>>=◌
  bind-Triple {m} {f} h k = record { at = λ s i. continue-Ends f (m s) (h.at s i) k }

module _ {S E A B : Type 0} {I F J : S → Type 0} {R : B → S → Type 0} where
  pub then-Triple :
      {m : M S E A} {k : M S E B} → Triple I F (λ _. J) m → Triple J F R k → Triple I F R (m >> k)
  unfolding ◌>>◌
  then-Triple {m} {k} h h' = record {
    at = λ s i. continue-Ends (λ _. k) (m s) (h.at s i) (λ _. h');
  }
