-- ===== src/Blockchain/Checkpoints/Descent.antt =====
-- The loop of the checkpoints ends, and it goes down the chain.
use mathlib.Core.List.{append-nil, append_assoc}
use jormungandr.Prelude.{
  some_injective, ℕ, zero, suc, ◌≤◌, ◌<◌, ◌≡◌, refl, sym, ap, ◌∙◌, arith, Bool, true, false, some,
  List, [], ◌∷◌, ◌++◌, map, ◌⊎◌, inl, inr, Bool-cases, ◌==◌, if◌then◌else◌,
}
use jormungandr.Blockchain.Types.{Consensus}
use jormungandr.Blockchain.Reference.{
  Ref, RefState, first, after, ref_state, last_ref_previous_epoch, ref_hash, ref_header,
  ref_parent_hash, ref_chain_length, ref_ledger,
}
use jormungandr.Blockchain.Chain.Coherence.{IsSound}
use jormungandr.Blockchain.Checkpoints.{descend, is_last, collect, depth, with_block0, new_from}

module _ {c : Consensus} where
  descend-depth : (n : ℕ) (r : Ref c) → depth (descend n r) ≤ depth r
  unfolding descend depth last_ref_previous_epoch
  descend-depth zero r = omega arith
  descend-depth (suc n) (first r) = omega arith
  descend-depth (suc n) (after r previous) = omega (arith, descend-depth n previous)

  agree :
      (fuel fuel' n : ℕ) (r : Ref c) (cs : List ℕ)
      → depth r < fuel
      → depth r < fuel'
      → (l : List ℕ) × (collect fuel n r cs ≡ some l) × (collect fuel' n r cs ≡ some l)
  unfolding collect depth last_ref_previous_epoch
  agree zero fuel' n r cs h h' = elim h [ ]
  agree (suc fuel) zero n r cs h h' = elim h' [ ]
  agree (suc fuel) (suc fuel') n (first r) cs h h' = (cs, refl, refl)
  agree (suc fuel) (suc fuel') n (after r previous) cs h h' =
      let low = descend-depth n previous in
      agree fuel fuel' _ (descend n previous) _ (omega arith) (omega arith)

  -- With more fuel than there are previous epochs the loop of the checkpoints returns, and what it
  -- returns does not depend on the fuel.
  pub collect_returns :
      (fuel ignore_prev : ℕ) (current_ref : Ref c) (checkpoints : List ℕ)
      → depth current_ref < fuel
      → (l : List ℕ) × (collect fuel ignore_prev current_ref checkpoints ≡ some l)
        × (collect (suc (depth current_ref)) ignore_prev current_ref checkpoints ≡ some l)
  collect_returns fuel ignore_prev current_ref checkpoints h =
      agree fuel (suc (depth current_ref)) ignore_prev current_ref checkpoints h (omega arith)

  -- References further and further down the chain.
  unfoldable pub IsDescending : ℕ → List (Ref c) → Type 0
  IsDescending length [] = Unit
  IsDescending length (r ∷ rs) =
      (ref_chain_length r < length) × IsSound r × IsDescending (ref_chain_length r) rs

  IsDescending-mono : (m n : ℕ) (rs : List (Ref c)) → m < n → IsDescending m rs → IsDescending n rs
  unfolding IsDescending
  IsDescending-mono m n [] h d = tt
  IsDescending-mono m n (r ∷ rs) h d = (let x = d.0 in omega arith, d.1, d.2)

  descend-below :
      (n : ℕ) (r : Ref c)
      → IsSound r
      → (ref_chain_length (descend n r) ≤ ref_chain_length r) × IsSound (descend n r)
  unfolding descend last_ref_previous_epoch IsSound ref_chain_length ref_header ref_state
  descend-below zero r sound = (omega arith, sound)
  descend-below (suc n) (first r) sound = (omega arith, sound)
  descend-below (suc n) (after r previous) sound =
      let (low, sound') = descend-below n previous sound.3 in
      let x = sound.2 in (omega arith, sound')

  previous-shorter :
      (r : RefState c) (previous : Ref c)
      → IsSound (after r previous)
      → ref_chain_length previous < ref_chain_length (after r previous)
  unfolding IsSound ref_chain_length ref_header ref_state
  previous-shorter r previous sound = sound.2

  -- The next reference is added to the checkpoints or not.
  push :
      (n : ℕ) (d : Ref c) (rs : List (Ref c)) (cs l : List ℕ) (seen : Bool)
      → ref_chain_length d < n
      → IsSound d
      → l ≡ (if seen then cs else cs ++ ref_hash d ∷ []) ++ map ref_hash rs
      → IsDescending (ref_chain_length d) rs
      → (rs' : List (Ref c)) × (l ≡ cs ++ map ref_hash rs') × IsDescending n rs'
  unfolding IsDescending
  push n d rs cs l true shorter sound e desc = (rs, e, IsDescending-mono _ n rs shorter desc)
  push n d rs cs l false shorter sound e desc =
      (d ∷ rs, e ∙ append_assoc cs (ref_hash d ∷ []) (map ref_hash rs), (shorter, sound, desc))

  collect-descends :
      (fuel n : ℕ) (r : Ref c) (cs l : List ℕ)
      → IsSound r
      → collect fuel n r cs ≡ some l
      → (rs : List (Ref c)) × (l ≡ cs ++ map ref_hash rs) × IsDescending (ref_chain_length r) rs
  unfolding collect last_ref_previous_epoch IsSound IsDescending
  collect-descends zero n r cs l sound h = absurd (cc)
  collect-descends (suc fuel) n (first r) cs l sound h =
      ([], some_injective (sym h) ∙ sym (append-nil cs), tt)
  collect-descends (suc fuel) n (after r previous) cs l sound h =
      let d = descend n previous in
      let (low, sound') = descend-below n previous sound.3 in
      let shorter = previous-shorter r previous sound in
      let (rs, e, desc) = collect-descends fuel _ d _ l sound' h in
      push _ d rs cs l (is_last (ref_hash d) cs) (omega arith) sound' e desc

  -- The checkpoints of a sound reference are found: its hash, its parent's, then those of sound
  -- references of shorter and shorter chains, and after them that of block 0 or nothing.
  pub new_from-IsDescending :
      (from : Ref c)
      → IsSound from
      → (rs : List (Ref c)) × (tail : List ℕ) × (new_from from
          ≡ some (ref_hash from ∷ ref_parent_hash from ∷ map ref_hash rs ++ tail))
        × IsDescending (ref_chain_length from) rs
        × ((tail ≡ []) ⊎ (tail ≡ c.block0_initial_hash (ref_ledger from) ∷ []))
  unfolding new_from with_block0
  new_from-IsDescending from sound =
      let (l, e, _) =
        collect_returns (suc (depth from)) 0 from (ref_hash from ∷ ref_parent_hash from ∷ [])
          (omega arith) in
      let (rs, e', desc) =
        collect-descends (suc (depth from)) 0 from (ref_hash from ∷ ref_parent_hash from ∷ []) l
          sound e in
      elim (Bool-cases (c.block0_initial_hash (ref_ledger from) == ref_parent_hash from)) [
        | inl same ↦
            (rs, [], rw (new_from, e, same) (ap some (e' ∙ sym (append-nil _))), desc, inl refl)
        | inr other ↦ (
          rs,
          c.block0_initial_hash (ref_ledger from) ∷ [],
          rw (new_from, e, other)
              (ap (λ x. some (x ++ c.block0_initial_hash (ref_ledger from) ∷ [])) e'),
          desc,
          inr refl,
        )
      ]
