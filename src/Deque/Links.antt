-- ===== src/Deque/Links.antt =====
-- The nodes of `IndexedDeqeue` as a doubly linked segment, and what a store through a pointer to
-- its first or last node does to it.
use jormungandr.Prelude.{
  ℕ, ◌≡◌, refl, ◌∙◌, Option, none, some, List, [], ◌∷◌, ◌++◌, false, arith, is_some, HashMap, put,
  find, find-append, Distinct, Distinct-middle, true, ◌==◌,
}
use jormungandr.Deque.{Entry, link_prev, link_next, or_set}

module _ {V : Type 0} where
  -- The key of the first node, or what follows an empty segment.
  abbrev pub first : List (ℕ × V) → Option ℕ → Option ℕ
  first [] n = n
  first ((k, v) ∷ l) n = some k

  -- The key of the last node, or what stands before an empty segment.
  abbrev pub last : Option ℕ → List (ℕ × V) → Option ℕ
  last p [] = p
  last p ((k, v) ∷ l) = last (some k) l

  pub first-append : (a b : List (ℕ × V)) (n : Option ℕ) → first (a ++ b) n ≡ first a (first b n)
  first-append [] b n = refl
  first-append ((k, v) ∷ a) b n = refl

  pub last-append : (p : Option ℕ) (a b : List (ℕ × V)) → last p (a ++ b) ≡ last (last p a) b
  last-append p [] b = refl
  last-append p ((k, v) ∷ a) b = last-append (some k) a b

  or_set-last-some : (k : ℕ) (a : List (ℕ × V)) (x y : Option ℕ) → or_set (last (some k) a) x y ≡ y
  or_set-last-some k [] x y = refl
  or_set-last-some k ((j, v) ∷ a) x y = or_set-last-some j a x y

  -- The head is set anew exactly when nothing stands before the place of the change.
  pub or_set-last-first :
      (a : List (ℕ × V)) (x y : Option ℕ) → or_set (last none a) x (first a y) ≡ first a x
  or_set-last-first [] x y = refl
  or_set-last-first ((k, v) ∷ a) x y = or_set-last-some k a x (some k)

  -- The tail is set anew exactly when nothing stands behind the place of the change.
  pub or_set-first-last :
      (b : List (ℕ × V)) (x y : Option ℕ) → or_set (first b none) x (last y b) ≡ last x b
  or_set-first-last [] x y = refl
  or_set-first-last ((k, v) ∷ b) x y = refl

  -- The map holds a node for each element, linked to its neighbours; `p` and `n` stand at the ends.
  abbrev pub Linked : HashMap (Entry V) → Option ℕ → List (ℕ × V) → Option ℕ → Type 0
  Linked m p [] n = Unit
  Linked m p ((k, v) ∷ l) n =
      (m.get k ≡ some (record { key = k; value = v; prev = p; next = first l n }))
      × Linked m (some k) l n

  -- Two maps agree on the keys of a list.
  abbrev pub Agree : HashMap (Entry V) → HashMap (Entry V) → List (ℕ × V) → Type 0
  Agree m m' [] = Unit
  Agree m m' ((k, v) ∷ l) = (m'.get k ≡ m.get k) × Agree m m' l

  pub Linked-Agree :
      (m m' : HashMap (Entry V)) (p : Option ℕ) (l : List (ℕ × V)) (n : Option ℕ)
      → Agree m m' l
      → Linked m p l n
      → Linked m' p l n
  Linked-Agree m m' p [] n a h = tt
  Linked-Agree m m' p ((k, v) ∷ l) n a h = (ground arith, Linked-Agree m m' (some k) l n a.1 h.1)

  -- A change at a key that is not in the list is not seen by it.
  pub Agree-of_absent :
      (m m' : HashMap (Entry V)) (j : ℕ) (l : List (ℕ × V))
      → ((k : ℕ) → (j == k) ≡ false → m'.get k ≡ m.get k)
      → is_some (find j l) ≡ false
      → Agree m m' l
  Agree-of_absent m m' j [] same h = tt
  Agree-of_absent m m' j ((k, v) ∷ l) same h =
      (ground (arith, same k), Agree-of_absent m m' j l same (ground arith))

  -- A change within the first list is not seen by the second, and the other way round.
  pub Agree-of_left :
      (m m' : HashMap (Entry V)) (a b : List (ℕ × V))
      → Distinct (a ++ b)
      → ((k : ℕ) → is_some (find k a) ≡ false → m'.get k ≡ m.get k)
      → Agree m m' b
  Agree-of_left m m' a [] d same = tt
  Agree-of_left m m' a ((k, v) ∷ b) d same =
      let (_, _, dab, ka, _) = Distinct-middle a b k v d in
      (same k ka, Agree-of_left m m' a b dab same)

  pub Agree-of_right :
      (m m' : HashMap (Entry V)) (a b : List (ℕ × V))
      → Distinct (a ++ b)
      → ((k : ℕ) → is_some (find k b) ≡ false → m'.get k ≡ m.get k)
      → Agree m m' a
  Agree-of_right m m' [] b d same = tt
  Agree-of_right m m' ((k, v) ∷ a) b d same =
      (ground (arith, same k, find-append k a b), Agree-of_right m m' a b d.1 same)

  pub Linked-present :
      (m : HashMap (Entry V)) (p : Option ℕ) (l : List (ℕ × V)) (n : Option ℕ) (k : ℕ)
      → Linked m p l n
      → is_some (find k l) ≡ true
      → is_some (m.get k) ≡ true
  Linked-present m p [] n k h e = cc
  Linked-present m p ((j, v) ∷ l) n k h e = ground (arith, Linked-present m (some j) l n k h.1)

  pub Linked-append :
      (m : HashMap (Entry V)) (p : Option ℕ) (a b : List (ℕ × V)) (n : Option ℕ)
      → Linked m p a (first b n)
      → Linked m (last p a) b n
      → Linked m p (a ++ b) n
  Linked-append m p [] b n h h' = h'
  Linked-append m p ((k, v) ∷ []) b n h h' = (h.0, h')
  Linked-append m p ((k, v) ∷ (j, w) ∷ a) b n h h' =
      (h.0, Linked-append m (some k) ((j, w) ∷ a) b n h.1 h')

  pub Linked-split :
      (m : HashMap (Entry V)) (p : Option ℕ) (a b : List (ℕ × V)) (n : Option ℕ)
      → Linked m p (a ++ b) n
      → Linked m p a (first b n) × Linked m (last p a) b n
  Linked-split m p [] b n h = (tt, h)
  Linked-split m p ((k, v) ∷ []) b n h = ((h.0, tt), h.1)
  Linked-split m p ((k, v) ∷ (j, w) ∷ a) b n h =
      let (x, y) = Linked-split m (some k) ((j, w) ∷ a) b n h.1 in ((h.0, x), y)

  -- What a store through a pointer does: it meets a node, changes nothing outside the segment, and
  -- links its end anew.
  pub record Relinked (m m' : HashMap (Entry V)) (l : List (ℕ × V)) (p n : Option ℕ) : Type 0 where
    pub linked : Linked m' p l n
    pub outside : (k : ℕ) → is_some (find k l) ≡ false → m'.get k ≡ m.get k
    pub same_len : m'.len ≡ m.len

  pub link_prev-first :
      (m : HashMap (Entry V)) (l : List (ℕ × V)) (p q n : Option ℕ)
      → Distinct l
      → Linked m p l n
      → (m' : HashMap (Entry V)) × (link_prev (first l none) q m ≡ some m') × Relinked m m' l q n
  unfolding link_prev
  link_prev-first m [] p q n d h =
      (m, refl, record { linked = tt; outside = λ k _. refl; same_len = refl })
  link_prev-first m ((k, v) ∷ l) p q n d h =
      let e : Entry V = record { key = k; value = v; prev = q; next = first l n } in
      let m' : HashMap (Entry V) = put k e m in
      (
        m',
        ground arith,
        record {
          linked = (
            ground arith,
            Linked-Agree m m' (some k) l n (Agree-of_absent m m' k l (λ j g. ground arith) d.0) h.1,
          );
          outside = λ j g. ground arith;
          same_len = ground arith;
        },
      )

  pub link_next-last :
      (m : HashMap (Entry V)) (l : List (ℕ × V)) (p q n : Option ℕ)
      → Distinct l
      → Linked m p l n
      → (m' : HashMap (Entry V)) × (link_next (last none l) q m ≡ some m') × Relinked m m' l p q
  unfolding link_next
  link_next-last m [] p q n d h =
      (m, refl, record { linked = tt; outside = λ k _. refl; same_len = refl })
  link_next-last m ((k, v) ∷ []) p q n d h =
      let e : Entry V = record { key = k; value = v; prev = p; next = q } in
      let m' : HashMap (Entry V) = put k e m in
      (
        m',
        ground arith,
        record {
          linked = (ground arith, tt);
          outside = λ j g. ground arith;
          same_len = ground arith;
        },
      )
  link_next-last m ((k, v) ∷ (j, w) ∷ l) p q n d h =
      let (m', stored, r) = link_next-last m ((j, w) ∷ l) (some k) q n d.1 h.1 in
      (
        m',
        stored,
        record {
          linked = (r.outside k d.0 ∙ h.0, r.linked);
          outside = λ i g. r.outside i (ground arith);
          same_len = r.same_len;
        },
      )
