-- ===== src/Deque/Refinement.antt =====
-- `IndexedDeqeue` implements a list of keyed values, the front of the queue first.
use jormungandr.Prelude.{
  ℕ, ◌≡◌, refl, ◌∙◌, sym, none, some, List, [], ◌∷◌, ◌++◌, true, false, arith, is_some, HashMap,
  put, erase, find, absent-middle, absent-append, absent-join, without, Distinct, Distinct-snoc,
  Distinct-middle, find-split, ◌==◌, Bool-cases, Option-cases, without_absent, inl, inr, length,
  length-append, last_of, drop_last, snoc-cases, last_of-append, drop_last-append,
}
use jormungandr.Deque
use jormungandr.Deque.{Deque, Entry, link_prev, link_next, or_set}
use jormungandr.Deque.Links.{
  first, last, Linked, Linked-Agree, Agree-of_absent, Agree-of_left, Agree-of_right, Linked-present,
  Linked-append, Linked-split, link_prev-first, link_next-last, first-append, last-append,
  or_set-last-first, or_set-first-last,
}

module _ {V : Type 0} where
  pub record Represents (d : Deque V) (l : List (ℕ × V)) : Type 0 where
    pub head : d.head ≡ first l none
    pub tail : d.tail ≡ last none l
    pub linked : Linked d.index none l none
    pub distinct : Distinct l
    pub absent : (k : ℕ) → is_some (find k l) ≡ false → d.index.get k ≡ none
    pub count : d.index.len ≡ length l

  erased :
      (k j : ℕ) (m : HashMap (Entry V))
      → ((k == j) ≡ false → m.get j ≡ none)
      → (erase k m).get j ≡ none
  erased k j m h = ground arith

  -- The operations along the path on which the pointers meet their nodes.
  push_front_twice :
      (d : Deque V) (k : ℕ) (v : V) (m : HashMap (Entry V))
      → link_prev d.head (some k) d.index ≡ some m
      → is_some (m.get k) ≡ true
      → Deque.push_front k v d ≡ none
  unfolding Deque.push_front
  push_front_twice d k v m h used = ground arith

  remove_step :
      (d : Deque V) (k : ℕ) (e : Entry V) (m m' : HashMap (Entry V))
      → d.index.get k ≡ some e
      → link_next e.prev e.next (erase k d.index) ≡ some m
      → link_prev e.next e.prev m ≡ some m'
      → Deque.remove k d
        ≡ some (
          some e.value,
          record {
            head = or_set e.prev e.next d.head;
            tail = or_set e.next e.prev d.tail;
            index = m';
          },
        )
  unfolding Deque.remove
  remove_step d k e m m' h h1 h2 = rw (h, Deque.remove) (rw h1 (rw h2))

  remove_absent : (d : Deque V) (k : ℕ) → d.index.get k ≡ none → Deque.remove k d ≡ some (none, d)
  unfolding Deque.remove
  remove_absent d k h = rw (h, Deque.remove)

  pub new-Represents : Represents Deque.new []
  unfolding Deque.new
  new-Represents = record {
    head = refl;
    tail = refl;
    linked = tt;
    distinct = tt;
    absent = λ k h. refl;
    count = refl;
  }

  -- A new front element, at a key that is not in use, is put before the others.
  pub push_front-Represents :
      (d : Deque V) (l : List (ℕ × V)) (k : ℕ) (v : V)
      → Represents d l
      → is_some (find k l) ≡ false
      → (d' : Deque V) × (Deque.push_front k v d ≡ some d') × Represents d' ((k, v) ∷ l)
  unfolding Deque.push_front
  push_front-Represents d l k v r h =
      let (m, stored, s) = link_prev-first d.index l none (some k) none r.distinct r.linked in
      let e : Entry V = record { key = k; value = v; prev = none; next = d.head } in
      let gone : m.get k ≡ none = s.outside k h ∙ r.absent k h in
      (
        record { head = some k; tail = or_set d.head (some k) d.tail; index = put k e m },
        rw (r.head, stored, gone),
        record {
          head = refl;
          tail = rw (r.head, r.tail) (or_set-first-last l (some k) none);
          linked = (
            ground (arith, r.head),
            Linked-Agree m (put k e m) (some k) l none
                (Agree-of_absent m (put k e m) k l (λ j g. ground arith) h) s.linked,
          );
          distinct = (h, r.distinct);
          absent = λ j g. ground (arith, s.outside j, r.absent j);
          count = ground (arith, gone, s.same_len, r.count);
        },
      )

  -- A new back element, at a key that is not in use, is put behind the others.
  pub push_back-Represents :
      (d : Deque V) (l : List (ℕ × V)) (k : ℕ) (v : V)
      → Represents d l
      → is_some (find k l) ≡ false
      → (d' : Deque V) × (Deque.push_back k v d ≡ some d') × Represents d' (l ++ (k, v) ∷ [])
  unfolding Deque.push_back
  push_back-Represents d l k v r h =
      let (m, stored, s) = link_next-last d.index l none (some k) none r.distinct r.linked in
      let e : Entry V = record { key = k; value = v; prev = d.tail; next = none } in
      let gone : m.get k ≡ none = s.outside k h ∙ r.absent k h in
      (
        record { head = or_set d.tail (some k) d.head; tail = some k; index = put k e m },
        rw (r.tail, stored, gone),
        record {
          head =
              rw (r.head, r.tail, first-append l ((k, v) ∷ []) none)
                (or_set-last-first l (some k) none);
          tail = sym (last-append none l ((k, v) ∷ []));
          linked =
              Linked-append (put k e m) none l ((k, v) ∷ []) none
                (Linked-Agree m (put k e m) none l (some k)
                  (Agree-of_absent m (put k e m) k l (λ j g. ground arith) h) s.linked)
                (ground (arith, r.tail), tt);
          distinct = Distinct-snoc l k v r.distinct h;
          absent = λ j g.
              let (x, y, _) = absent-middle j l [] k v g in
              ground (arith, s.outside j y, r.absent j y);
          count = ground (arith, gone, s.same_len, r.count, length-append l ((k, v) ∷ []));
        },
      )

  -- `push_front` at a key that is in use is a panic.
  pub push_front-panics :
      (d : Deque V) (l : List (ℕ × V)) (k : ℕ) (v : V)
      → Represents d l
      → is_some (find k l) ≡ true
      → Deque.push_front k v d ≡ none
  unfolding Deque.push_front
  push_front-panics d l k v r h =
      let (m, stored, s) = link_prev-first d.index l none (some k) none r.distinct r.linked in
      push_front_twice d k v m (rw r.head stored) (Linked-present m (some k) l none k s.linked h)

  pop_back-Represents_snoc :
      (d : Deque V) (a : List (ℕ × V)) (k : ℕ) (v : V)
      → Represents d (a ++ (k, v) ∷ [])
      → (d' : Deque V) × (Deque.pop_back d ≡ some (some (k, v), d')) × Represents d' a
  unfolding Deque.pop_back
  pop_back-Represents_snoc d a k v r =
      let (la, lb) = Linked-split d.index none a ((k, v) ∷ []) none r.linked in
      let (da, _, _, ka, _) = Distinct-middle a [] k v r.distinct in
      let (m, stored, s) = link_next-last d.index a none none (some k) da la in
      let e : Entry V = record { key = k; value = v; prev = last none a; next = none } in
      let kept : m.get k ≡ some e = s.outside k ka ∙ lb.0 in
      let t : d.tail ≡ some k = r.tail ∙ last-append none a ((k, v) ∷ []) in
      (
        record { head = or_set (last none a) none d.head; tail = last none a; index = erase k m },
        rw (t, lb.0, stored, kept),
        record {
          head = rw (r.head, first-append a ((k, v) ∷ []) none) (or_set-last-first a none (some k));
          tail = refl;
          linked =
              Linked-Agree m (erase k m) none a none
                (Agree-of_absent m (erase k m) k a (λ j g. ground arith) ka) s.linked;
          distinct = da;
          absent = λ j g.
              erased k j m
                (λ x. s.outside j g ∙ r.absent j (absent-join j a ((k, v) ∷ []) g (rw x)));
          count = ground (arith, kept, s.same_len, r.count, length-append a ((k, v) ∷ []));
        },
      )

  -- `pop_back` gives the last element and leaves the others; an empty queue gives nothing.
  pub pop_back-Represents :
      (d : Deque V) (l : List (ℕ × V))
      → Represents d l
      → (d' : Deque V) × (Deque.pop_back d ≡ some (last_of l, d')) × Represents d' (drop_last l)
  unfolding Deque.pop_back
  pop_back-Represents d l r = elim (snoc-cases l) [
    | inl e ↦ (d, ground (arith, r.tail, e), rw e (rw e at r))
    | inr (a, (k, v), e) ↦
        let (d', popped, r') = pop_back-Represents_snoc d a k v (rw e at r) in
        (d', rw (e, last_of-append a (k, v)) popped, rw (e, drop_last-append a (k, v)) r')
  ]

  remove-Represents_at :
      (d : Deque V) (a b : List (ℕ × V)) (k : ℕ) (v : V)
      → Represents d (a ++ (k, v) ∷ b)
      → (d' : Deque V) × (Deque.remove k d ≡ some (some v, d')) × Represents d' (a ++ b)
  unfolding Deque.remove
  remove-Represents_at d a b k v r =
      let (la, lb) = Linked-split d.index none a ((k, v) ∷ b) none r.linked in
      let (da, db, dab, ka, kb) = Distinct-middle a b k v r.distinct in
      let m0 : HashMap (Entry V) = erase k d.index in
      let la0 =
        Linked-Agree d.index m0 none a (some k)
          (Agree-of_absent d.index m0 k a (λ j g. ground arith) ka) la in
      let (m1, stored1, s1) = link_next-last m0 a none (first b none) (some k) da la0 in
      let lb0 =
        Linked-Agree d.index m0 (some k) b none
          (Agree-of_absent d.index m0 k b (λ j g. ground arith) kb) lb.1 in
      let lb1 = Linked-Agree m0 m1 (some k) b none (Agree-of_left m0 m1 a b dab s1.outside) lb0 in
      let (m2, stored2, s2) = link_prev-first m1 b (some k) (last none a) none db lb1 in
      let la2 =
        Linked-Agree m1 m2 none a (first b none) (Agree-of_right m1 m2 a b dab s2.outside)
          s1.linked in
      (
        record {
          head = or_set (last none a) (first b none) d.head;
          tail = or_set (first b none) (last none a) d.tail;
          index = m2;
        },
        remove_step d k _ m1 m2 lb.0 stored1 stored2,
        record {
          head =
              rw (r.head, first-append a ((k, v) ∷ b) none, first-append a b none)
                (or_set-last-first a (first b none) (some k));
          tail =
              rw (r.tail, last-append none a ((k, v) ∷ b), last-append none a b)
                (or_set-first-last b (last none a) (some k));
          linked = Linked-append m2 none a b none la2 s2.linked;
          distinct = dab;
          absent = λ j g.
              let (x, y) = absent-append j a b g in
              s2.outside j y
              ∙ s1.outside j x
              ∙ erased k j d.index (λ z. r.absent j (absent-join j a ((k, v) ∷ b) x (rw (z, y))));
          count = ground (
            arith,
            s2.same_len,
            s1.same_len,
            r.count,
            lb.0,
            length-append a ((k, v) ∷ b),
            length-append a b,
          );
        },
      )

  -- `remove` gives the value that the key had, if any, and leaves the other elements in their order.
  pub remove-Represents :
      (d : Deque V) (l : List (ℕ × V)) (k : ℕ)
      → Represents d l
      → (d' : Deque V) × (Deque.remove k d ≡ some (find k l, d')) × Represents d' (without k l)
  unfolding Deque.remove
  remove-Represents d l k r = elim (Option-cases (find k l)) [
    | inl e ↦ (d, rw e (remove_absent d k (r.absent k (rw e))), rw (without_absent k l e) r)
    | inr (v, e) ↦
        let (a, b, el, ew, _) = find-split k v l e in
        let (d', removed, r') = remove-Represents_at d a b k v (rw el at r) in
        (d', rw e removed, rw ew r')
  ]

  -- `len` and `contains` read the map, and answer for the list.
  pub len-Represents : (d : Deque V) (l : List (ℕ × V)) → Represents d l → Deque.len d ≡ length l
  unfolding Deque.len
  len-Represents d l r = r.count

  pub contains-Represents :
      (d : Deque V) (l : List (ℕ × V)) (k : ℕ)
      → Represents d l
      → Deque.contains k d ≡ is_some (find k l)
  unfolding Deque.contains
  contains-Represents d l k r = elim (Bool-cases (is_some (find k l))) [
    | inl e ↦ rw e (Linked-present d.index none l none k r.linked e)
    | inr e ↦ rw (e, r.absent k e)
  ]
