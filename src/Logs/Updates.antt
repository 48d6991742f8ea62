-- ===== src/Logs/Updates.antt =====
-- What a call of `modify` or `insert_pending` does to the log of each fragment.
use jormungandr.Prelude.{
  All, Option, false, subst, ==_refl, ==→≡, ◌⊎◌, ℕ, zero, suc, ◌≤◌, ◌<◌, ◌≡◌, refl, sym, ap, ◌∙◌,
  true, none, some, List, [], ◌∷◌, arith, length, find, take, without, Option-cases, Bool-cases,
  inl, inr, if◌then◌else◌, ◌==◌, find-without_ne,
}
use jormungandr.FragmentLog.{
  FragmentLog, FragmentStatus, pending, rejected, in_a_block, is_pending, is_in_a_block,
}
use jormungandr.FragmentLog
use jormungandr.Lru.{LruCache, touch}
use jormungandr.Logs.{LogEntry, refresh, first_seen, modify, modify_all}
use jormungandr.Logs.Entries.{length-without-le}

module _ {V : Type 0} where
  find-take_all : (n : ℕ) (l : List (ℕ × V)) (k : ℕ) → length l ≤ n → find k (take n l) ≡ find k l
  find-take_all zero [] k h = refl
  find-take_all zero (e ∷ l) k h = absurd (omega arith)
  find-take_all (suc n) [] k h = refl
  find-take_all (suc n) ((j, v) ∷ l) k h = ground (arith, find-take_all n l k)

  find-take-some :
      (n : ℕ) (l : List (ℕ × V)) (k : ℕ) (v : V) → find k (take n l) ≡ some v → find k l ≡ some v
  find-take-some zero l k v h = absurd (cc)
  find-take-some (suc n) [] k v h = h
  find-take-some (suc n) ((j, w) ∷ l) k v h = ground (arith, find-take-some n l k v)

  find-touch :
      (k j : ℕ) (f : V → V) (l : List (ℕ × V)) (v : V)
      → find k l ≡ some v
      → find j (touch k f l) ≡ (if k == j then some (f v) else find j l)
  find-touch k j f l v h = rw (h, touch) (ground (arith, find-without_ne k j l))

module _ {Date Text : Type 0} (lru : LruCache (LogEntry Date Text)) where
  open lru use {Cache, peek, iter, cap, put, get_mut, peek-iter, iter-put, iter-get_mut}

  modify_absent :
      (now id : ℕ) (s : FragmentStatus Date Text) (date : Date) (c : Cache)
      → peek c id ≡ none
      → (j : ℕ) → peek (put c id (first_seen now id s date)) j ≡ peek (modify lru now id s date c) j
  unfolding modify
  modify_absent now id s date c h j = rw (h, modify)

  -- An update of a logged fragment changes its entry alone, and evicts nothing.
  pub peek-modify_logged :
      (now id : ℕ) (s : FragmentStatus Date Text) (date : Date) (c : Cache) (e : LogEntry Date Text)
      (j : ℕ)
      → peek c id ≡ some e
      → peek (modify lru now id s date c) j
        ≡ (if id == j then some (refresh now s date e) else peek c j)
  unfolding modify
  peek-modify_logged now id s date c e j h =
      rw (h, modify)
        (rw (peek-iter _ j, iter-get_mut c id (refresh now s date), peek-iter c j)
          (find-touch id j (refresh now s date) (iter c) e (sym (peek-iter c id) ∙ h)))

  find-put :
      (c : Cache) (k j : ℕ) (e : LogEntry Date Text)
      → length (iter c) < cap c
      → peek (put c k e) j ≡ (if k == j then some e else peek c j)
  find-put c k j e room =
      rw (peek-iter _ j, iter-put c k e, peek-iter c j)
        (rw
          (find-take_all (cap c) ((k, e) ∷ without k (iter c)) j
            (omega (arith, length-without-le k (iter c))))
          (ground (arith, find-without_ne k j (iter c))))

  -- An update of a fragment without a log makes one, from the network and with the status given, and
  -- changes no other while the cache has room.
  pub peek-modify_new :
      (now id : ℕ) (s : FragmentStatus Date Text) (date : Date) (c : Cache) (j : ℕ)
      → peek c id ≡ none
      → length (iter c) < cap c
      → peek (modify lru now id s date c) j
        ≡ (if id == j then some (first_seen now id s date) else peek c j)
  unfolding modify
  peek-modify_new now id s date c j h room = rw (h, modify) (find-put c id j _ room)

  refresh_stays :
      (now : ℕ) (s : FragmentStatus Date Text) (date : Date) (e : LogEntry Date Text)
      → is_in_a_block e.0.status ≡ true
      → is_in_a_block (refresh now s date e).0.status ≡ true
  unfolding refresh FragmentLog.modify
  refresh_stays now s date (log, d) h = ground arith

  put_keeps :
      (c : Cache) (k j : ℕ) (x e e' : LogEntry Date Text)
      → peek c k ≡ none
      → peek c j ≡ some e
      → peek (put c k x) j ≡ some e'
      → e' ≡ e
  put_keeps c k j x e e' absent h h' =
      let l = (k, x) ∷ without k (iter c) in
      let kept : find j l ≡ some e' =
        find-take-some (cap c) l j e'
          (ap (find j) (sym (iter-put c k x)) ∙ sym (peek-iter _ j) ∙ h') in
      ground (arith, kept, absent, h, peek-iter c j, find-without_ne k j (iter c))

  -- A log that says that its fragment is in a block still says so after any update of any fragment,
  -- unless it was evicted.
  pub modify_keeps_in_a_block :
      (now id : ℕ) (s : FragmentStatus Date Text) (date : Date) (c : Cache) (j : ℕ)
      (e e' : LogEntry Date Text)
      → peek c j ≡ some e
      → is_in_a_block e.0.status ≡ true
      → peek (modify lru now id s date c) j ≡ some e'
      → is_in_a_block e'.0.status ≡ true
  modify_keeps_in_a_block now id s date c j e e' h b h' = elim (Option-cases (peek c id)) [
    | inl absent ↦
        let same =
          put_keeps c id j (first_seen now id s date) e e' absent h
            (modify_absent now id s date c absent j ∙ h') in
        rw same b
    | inr (x, logged) ↦
        let after = sym (peek-modify_logged now id s date c x j logged) ∙ h' in
        elim (Bool-cases (id == j)) [
          | inl hit ↦ ground (arith, refresh_stays now s date e)
          | inr miss ↦ ground arith
        ]
  ]

module _ {Date Text : Type 0} (lru : LruCache (LogEntry Date Text))
    (s : FragmentStatus Date Text) where
  open lru use {Cache, peek}

  -- What an update to `s` leaves of a log: the status `s`, or a block that the fragment was in before,
  -- which `s` is not.
  abbrev pub IsSettled : FragmentStatus Date Text → Type 0
  IsSettled status = (status ≡ s) ⊎ ((is_in_a_block status ≡ true) × (is_in_a_block s ≡ false))

  abbrev pub IsUpdatedTo : Option (LogEntry Date Text) → Type 0
  IsUpdatedTo none = Unit
  IsUpdatedTo (some e) = IsSettled e.0.status

  -- The log of the fragment, where it has not been evicted, is as the update leaves it.
  abbrev pub IsUpdated : Cache → ℕ → Type 0
  IsUpdated c id = IsUpdatedTo (peek c id)

module _ {Date Text : Type 0} (lru : LruCache (LogEntry Date Text)) (now : ℕ)
    (s : FragmentStatus Date Text) (date : Date) where
  open lru use {Cache, peek, iter, cap, put, peek-iter, iter-put}

  refresh-IsSettled : (e : LogEntry Date Text) → IsSettled lru s (refresh now s date e).0.status
  unfolding refresh FragmentLog.modify
  refresh-IsSettled (log, d) = elim (Bool-cases (is_in_a_block log.status)) [
    | inl inside ↦ elim (Bool-cases (is_in_a_block s)) [
      | inl again ↦ inl (ground (arith, inside, again))
      | inr out ↦ inr (ground (arith, inside, out), out)
    ]
    | inr outside ↦ inl (ground (arith, outside))
  ]

  first_seen-IsSettled : (id : ℕ) → IsSettled lru s (first_seen now id s date).0.status
  unfolding first_seen FragmentLog.modify FragmentLog.new is_in_a_block
  first_seen-IsSettled id = inl refl

  first-IsUpdatedTo :
      (n id : ℕ) (v : LogEntry Date Text) (l : List (ℕ × LogEntry Date Text))
      → IsSettled lru s v.0.status
      → IsUpdatedTo lru s (find id (take n ((id, v) ∷ l)))
  first-IsUpdatedTo zero id v l h = tt
  first-IsUpdatedTo (suc n) id v l h = rw (==_refl id) h

  modify-IsUpdated : (c : Cache) (id : ℕ) → IsUpdated lru s (modify lru now id s date c) id
  modify-IsUpdated c id = elim (Option-cases (peek c id)) [
    | inl absent ↦
        let v = first_seen now id s date in
        rw
          (
            ← modify_absent lru now id s date c absent id,
            peek-iter (put c id v) id,
            iter-put c id v,
          )
          (first-IsUpdatedTo (cap c) id v (without id (iter c)) (first_seen-IsSettled id))
    | inr (e, logged) ↦
        rw (peek-modify_logged lru now id s date c e id logged, ==_refl id) (refresh-IsSettled e)
  ]

  other-IsUpdated :
      (c : Cache) (id j : ℕ)
      → (id == j) ≡ false
      → IsUpdated lru s c j
      → IsUpdated lru s (modify lru now id s date c) j
  other-IsUpdated c id j miss h = elim (Option-cases (peek c id)) [
    | inr (e, logged) ↦ rw (peek-modify_logged lru now id s date c e j logged, miss) h
    | inl absent ↦
        let v = first_seen now id s date in
        rw (← modify_absent lru now id s date c absent j)
          (elim (Option-cases (peek (put c id v) j)) [
            | inl gone ↦ rw gone tt
            | inr (e, there) ↦
                let kept : find j ((id, v) ∷ without id (iter c)) ≡ some e =
                  find-take-some (cap c) ((id, v) ∷ without id (iter c)) j e
                    (ap (find j) (sym (iter-put c id v)) ∙ sym (peek-iter _ j) ∙ there) in
                let before : peek c j ≡ some e =
                  peek-iter c j ∙ ground (arith, kept, miss, find-without_ne id j (iter c)) in
                rw there (rw before at h)
          ])
  ]

  modify-keeps-IsUpdated :
      (c : Cache) (id j : ℕ) → IsUpdated lru s c j → IsUpdated lru s (modify lru now id s date c) j
  modify-keeps-IsUpdated c id j h = elim (Bool-cases (id == j)) [
    | inl hit ↦
        subst (λ k. IsUpdated lru s (modify lru now id s date c) k) (==→≡ _ _ hit)
          (modify-IsUpdated c id)
    | inr miss ↦ other-IsUpdated c id j miss h
  ]

  modify_all-keeps :
      (ids : List ℕ) (c : Cache) (j : ℕ)
      → IsUpdated lru s c j
      → IsUpdated lru s (modify_all lru now ids s date c) j
  unfolding modify_all
  modify_all-keeps [] c j h = h
  modify_all-keeps (id ∷ ids) c j h =
      modify_all-keeps ids (modify lru now id s date c) j (modify-keeps-IsUpdated c id j h)

  -- After an update of many fragments the log of each, where it has not been evicted, is as the update
  -- leaves it.
  pub modify_all-IsUpdated :
      (ids : List ℕ) (c : Cache) → All (IsUpdated lru s (modify_all lru now ids s date c)) ids
  unfolding modify_all
  modify_all-IsUpdated [] c = tt
  modify_all-IsUpdated (id ∷ ids) c =
      let c' = modify lru now id s date c in
      (modify_all-keeps ids c' id (modify-IsUpdated c id), modify_all-IsUpdated ids c')
