-- ===== src/Blockchain/Selection/Best.antt =====
-- The preference between two blocks, and the branch that a list of branches leads to.
use jormungandr.Prelude.{
  ℕ, suc, ◌+◌, ◌≤◌, ◌<◌, ◌≡◌, refl, ap, subst, ◌∙◌, arith, true, false, none, some, List, [], ◌∷◌,
  ltb, ◌⊎◌, inl, inr, Bool-cases, All, ◌↔◌,
}
use jormungandr.Blockchain.Types.{Consensus}
use jormungandr.Blockchain.Reference.{Ref, ref_time, ref_chain_length}
use jormungandr.Blockchain.Selection.{
  prefer_current, prefer_candidate, in_future, compare_against, better, best_from, best_branch,
}

module _ {c : Consensus} where
  compare_against-cases :
      (now : ℕ) (a b : Ref c)
      → ((compare_against now a b ≡ prefer_candidate)
          × (in_future now b ≡ false)
          × (ref_chain_length a < ref_chain_length b))
        ⊎ ((compare_against now a b ≡ prefer_current)
            × ((in_future now b ≡ true) ⊎ (ref_chain_length b ≤ ref_chain_length a)))
  unfolding compare_against
  compare_against-cases now a b = elim (Bool-cases (in_future now b)) [
    | inl ahead ↦ inr (rw ahead refl, inl ahead)
    | inr near ↦ elim (Bool-cases (ltb (ref_chain_length a) (ref_chain_length b))) [
      | inl longer ↦ inl (rw (near, longer) refl, near, ground arith)
      | inr short ↦ inr (rw (near, short) refl, inr (ground arith))
    ]
  ]

  in_future-near : (now : ℕ) (r : Ref c) → in_future now r ≡ false → ref_time r ≤ now + 1000000000
  unfolding in_future
  in_future-near now r h = let t = ref_time r in ground arith

  in_future-ahead : (now : ℕ) (r : Ref c) → in_future now r ≡ true → now + 1000000000 < ref_time r
  unfolding in_future
  in_future-ahead now r h = let t = ref_time r in ground arith

  -- The candidate is preferred just when its chain is longer and it is not further ahead of the clock
  -- than one second.
  pub compare_against_iff :
      (now : ℕ) (current candidate : Ref c)
      → (compare_against now current candidate ≡ prefer_candidate) ↔ (
          (ref_chain_length current < ref_chain_length candidate)
          × (ref_time candidate ≤ now + 1000000000))
  compare_against_iff now current candidate = elim (compare_against-cases now current candidate) [
    | inl (e, near, longer) ↦ ((λ _. (longer, in_future-near now candidate near)), (λ _. e))
    | inr (e, inl ahead) ↦ (
      (λ h. absurd (cc)),
      (λ h. let late = in_future-ahead now candidate ahead in absurd (omega arith)),
    )
    | inr (e, inr short) ↦ ((λ h. absurd (cc)), (λ h. absurd (omega arith)))
  ]

  abbrev pub IsIn : Ref c → List (Ref c) → Type 0
  IsIn r [] = ⊥
  IsIn r (x ∷ xs) = (r ≡ x) ⊎ IsIn r xs

  better-longest :
      (now : ℕ) (a b : Ref c)
      → (ref_chain_length a ≤ ref_chain_length (better now a b))
        × (in_future now b ≡ false → ref_chain_length b ≤ ref_chain_length (better now a b))
        × ((better now a b ≡ a) ⊎ (better now a b ≡ b))
  unfolding better
  better-longest now a b = elim (compare_against-cases now a b) [
    | inl (e, near, longer) ↦ rw (e, better) (omega arith, (λ _. omega arith), inr refl)
    | inr (e, inl ahead) ↦ rw (e, better) (omega arith, (λ h. absurd (cc)), inl refl)
    | inr (e, inr short) ↦ rw (e, better) (omega arith, (λ _. omega arith), inl refl)
  ]

  near-in_future :
      (now time : ℕ) (r : Ref c)
      → now ≤ time
      → ref_time r ≤ now + 1000000000
      → in_future time r ≡ false
  unfolding in_future
  near-in_future now time r late h = let t = ref_time r in ground arith

  best_from-longest :
      (now : ℕ) (clock : ℕ → ℕ) (best : Ref c) (rs : List (Ref c))
      → ((k : ℕ) → now ≤ clock k)
      → (ref_chain_length best ≤ ref_chain_length (best_from clock best rs))
        × All
            (λ r.
              ref_time r ≤ now + 1000000000
              → ref_chain_length r ≤ ref_chain_length (best_from clock best rs))
            rs
        × IsIn (best_from clock best rs) (best ∷ rs)
  unfolding best_from
  best_from-longest now clock best [] late = (omega arith, tt, inl refl)
  best_from-longest now clock best (r ∷ rs) late =
      let (kept, newer, choice) = better-longest (clock 0) best r in
      let (below, all, found) =
        best_from-longest now (λ k. clock (suc k)) (better (clock 0) best r) rs
          (λ k. late (suc k)) in
      (
        omega arith,
        (
          (λ near. let x = newer (near-in_future now (clock 0) r (late 0) near) in omega arith),
          all,
        ),
        elim found [
          | inl e ↦ elim choice [ inl e' ↦ inl (e ∙ e') | inr e' ↦ inr (inl (e ∙ e')) ]
          | inr later ↦ inr (inr later)
        ],
      )

  -- The branch that the reprocessing of the tip picks is one of the branches, and no branch is longer
  -- that was not ahead of the clock at the earliest of its readings, one for each comparison.
  pub best_branch_longest :
      (now : ℕ) (clock : ℕ → ℕ) (branches : List (Ref c)) (best : Ref c)
      → ((k : ℕ) → now ≤ clock k)
      → best_branch clock branches ≡ some best
      → IsIn best branches
        × All
            (λ r. ref_time r ≤ now + 1000000000 → ref_chain_length r ≤ ref_chain_length best)
            branches
  unfolding best_branch
  best_branch_longest now clock [] best late h = absurd (cc)
  best_branch_longest now clock (r ∷ rs) best late h =
      let (kept, all, found) = best_from-longest now clock r rs late in
      let e = ap (λ o. elim o as (λ _. Ref c) [ none ↦ r | some x ↦ x ]) h in
      subst
        (λ b.
          IsIn b (r ∷ rs)
          × All (λ x. ref_time x ≤ now + 1000000000 → ref_chain_length x ≤ ref_chain_length b)
              (r ∷ rs))
        e (found, ((λ _. kept), all))
