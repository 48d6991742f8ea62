-- ===== src/Selection/Contents.antt =====
-- What `OldestFirst::select` chooses: the block's size, its ledger, and where each fragment goes.
use mathlib.Core.List.{append_assoc, append-nil, reverse-append, map-append}
use jormungandr.Prelude.{
  ℕ, zero, suc, ◌+◌, ◌≤◌, ◌<◌, ◌≡◌, refl, ap, ◌∙◌, true, false, some, List, [], ◌∷◌, ◌++◌, reverse,
  map, arith, Distinct, Distinct-middle, length, length-append, sum_by, sum_by-append, Bool-cases,
  Sum-cases, inl, inr, ◌⊎◌, ◌==◌, snoc-cases,
}
use jormungandr.Chain.{Chain, Fragment}
use jormungandr.Lru.{LruCache}
use jormungandr.Logs.{LogEntry}
use jormungandr.Mempool.{Pool, remove_oldest}
use jormungandr.Mempool.Invariant.{Holds, Entries}
use jormungandr.Mempool.Removal.{
  remove_oldest-Holds, remove_oldest-Holds_snoc, return_to_pool-Holds, returned,
}
use jormungandr.Selection.{
  Simulation, Race, finished, soft_deadline_first, hard_deadline_first, race_result,
  ApplyFragmentError, try_apply_fragment, does_not_fit, soft_deadline_reached, rejected_for,
  Progress, settle, select_loop, select,
}

module _ (chain : Chain) (sim : Simulation chain) where
  open chain use {Tx, Raw, Date, serialized_size}
  open sim use {Ledger, Text, apply_fragment, block_content_max_size, block_date}

  -- A fragment is committed only if the ledger takes it, and its size comes off the space.
  try_apply_fragment-inl :
      (race : Race) (fragment : Fragment Tx Raw) (ledger : Ledger) (space_left : ℕ)
      {ledger' : Ledger} {space_left' : ℕ}
      → try_apply_fragment chain sim race fragment ledger space_left ≡ inl (ledger', space_left')
      → (apply_fragment ledger fragment ≡ inl ledger')
        × (serialized_size fragment + space_left' ≡ space_left)
  unfolding try_apply_fragment race_result
  try_apply_fragment-inl finished fragment ledger space_left h = ground arith
  try_apply_fragment-inl soft_deadline_first fragment ledger space_left h = ground arith
  try_apply_fragment-inl hard_deadline_first fragment ledger space_left h = ground arith

  -- The ledger after a list of fragments, if it takes them all.
  abbrev pub apply_all : List (Fragment Tx Raw) → Ledger → Ledger ⊎ Text
  apply_all [] ledger = inl ledger
  apply_all (f ∷ fs) ledger = elim (apply_fragment ledger f) [
    | inl ledger' ↦ apply_all fs ledger'
    | inr reason ↦ inr reason
  ]

  apply_all-snoc :
      (fs : List (Fragment Tx Raw)) (f : Fragment Tx Raw) (ledger ledger' ledger'' : Ledger)
      → apply_all fs ledger ≡ inl ledger'
      → apply_fragment ledger' f ≡ inl ledger''
      → apply_all (fs ++ f ∷ []) ledger ≡ inl ledger''
  apply_all-snoc [] f ledger ledger' ledger'' h e = ground arith
  apply_all-snoc (g ∷ fs) f ledger ledger' ledger'' h e =
      elim (Sum-cases (apply_fragment ledger g)) [
        | inl (x, took) ↦
            rw (took, apply_all)
              (apply_all-snoc fs f x ledger' ledger'' (rw (took, apply_all) at h) e)
        | inr (reason, took) ↦
            let no : ◌≡◌ {A = Ledger ⊎ Text} (inr reason) (inl ledger') =
              rw (took, apply_all) at h in
            cc
      ]

  returned-snoc :
      (fs : List (Fragment Tx Raw × ℕ)) (f : Fragment Tx Raw) (id : ℕ)
      → returned chain (reverse (fs ++ (f, id) ∷ [])) ≡ (id, f) ∷ returned chain (reverse fs)
  returned-snoc fs f id = rw (reverse-append fs ((f, id) ∷ []))

  sum_by-middle :
      (w : ℕ × Fragment Tx Raw → ℕ) (a b : Entries chain) (x : ℕ × Fragment Tx Raw)
      → sum_by w ((a ++ x ∷ []) ++ b) ≡ w x + sum_by w (a ++ b)
  sum_by-middle w a b x =
      omega
        (arith, sum_by-append w (a ++ x ∷ []) b, sum_by-append w a (x ∷ []), sum_by-append w a b)

  Distinct-out :
      (a b : Entries chain) (id : ℕ) (f : Fragment Tx Raw)
      → Distinct ((a ++ (id, f) ∷ []) ++ b)
      → Distinct (a ++ b)
  Distinct-out a b id f d = (Distinct-middle a b id f (rw append_assoc at d)).2

  kept-returned :
      (l : Entries chain) (fs : List (Fragment Tx Raw × ℕ)) (f : Fragment Tx Raw) (id : ℕ)
      → l ++ returned chain (reverse (fs ++ (f, id) ∷ []))
        ≡ (l ++ (id, f) ∷ []) ++ returned chain (reverse fs)
  kept-returned l fs f id = rw (returned-snoc fs f id, append_assoc)

  module _ (lru : LruCache (LogEntry Date Text)) where
    -- The fragments that are still to be in the pool after the call.
    abbrev kept : Entries chain → Progress chain sim lru → Entries chain
    kept l s = l ++ returned chain (reverse s.to_return)

    -- What holds between two rounds, from a pool that held `start` and a ledger: the pool holds a list
    -- `l`, and the fragments of `start` are those kept, those committed and those rejected.
    record Inv (start : Entries chain) (ledger : Ledger) (l : Entries chain)
        (s : Progress chain sim lru) : Type 0 where
      holds : Holds chain s.pool l
      distinct : Distinct (kept l s)
      budget : sum_by serialized_size s.contents + s.space_left ≡ block_content_max_size ledger
      applied : apply_all s.contents ledger ≡ inl s.ledger
      committed : Entries chain
      dropped : Entries chain
      same_contents : map (λ e. e.1) committed ≡ s.contents
      same_count : length dropped ≡ s.rejected_fragments_cnt
      nothing_lost :
          (w : ℕ × Fragment Tx Raw → ℕ)
          → sum_by w (kept l s) + sum_by w committed + sum_by w dropped ≡ sum_by w start

    return-Inv :
        (start : Entries chain) (ledger : Ledger) (l : Entries chain) (id : ℕ) (f : Fragment Tx Raw)
        (s : Progress chain sim lru) (p : Pool chain)
        → Inv start ledger (l ++ (id, f) ∷ []) s
        → Holds chain p l
        → Inv start ledger l (record s { pool = p; to_return = s.to_return ++ (f, id) ∷ [] })
    return-Inv start ledger l id f s p i h =
        let same = kept-returned l s.to_return f id in
        record {
          holds = h;
          distinct = rw same i.distinct;
          budget = i.budget;
          applied = i.applied;
          committed = i.committed;
          dropped = i.dropped;
          same_contents = i.same_contents;
          same_count = i.same_count;
          nothing_lost = λ w. rw same (i.nothing_lost w);
        }

    settle-Inv :
        (start : Entries chain) (ledger : Ledger) (l : Entries chain) (id : ℕ) (f : Fragment Tx Raw)
        (s : Progress chain sim lru) (p : Pool chain) (race : Race) (now : ℕ) (date : Date)
        (result : (Ledger × ℕ) ⊎ ApplyFragmentError Text)
        → Inv start ledger (l ++ (id, f) ∷ []) s
        → Holds chain p l
        → try_apply_fragment chain sim race f s.ledger s.space_left ≡ result
        → Inv start ledger l (settle chain sim lru now date f id result (record s { pool = p }))
    unfolding settle
    settle-Inv start ledger l id f s p race now date (inl (ledger', space)) i h e =
        let (took, size) = try_apply_fragment-inl race f s.ledger s.space_left e in
        record {
          holds = h;
          distinct = Distinct-out l (returned chain (reverse s.to_return)) id f i.distinct;
          budget = omega (arith, sum_by-append serialized_size s.contents (f ∷ []), i.budget, size);
          applied = apply_all-snoc s.contents f ledger s.ledger ledger' i.applied took;
          committed = i.committed ++ (id, f) ∷ [];
          dropped = i.dropped;
          same_contents =
              map-append (λ e. e.1) i.committed ((id, f) ∷ [])
              ∙ ap (λ c. c ++ f ∷ []) i.same_contents;
          same_count = i.same_count;
          nothing_lost = λ w. omega (
            arith,
            i.nothing_lost w,
            sum_by-middle w l (returned chain (reverse s.to_return)) (id, f),
            sum_by-append w i.committed ((id, f) ∷ []),
          );
        }
    settle-Inv start ledger l id f s p race now date (inr does_not_fit) i h e =
        return-Inv start ledger l id f s p i h
    settle-Inv start ledger l id f s p race now date (inr soft_deadline_reached) i h e =
        return-Inv start ledger l id f s p i h
    settle-Inv start ledger l id f s p race now date (inr (rejected_for reason)) i h e = record {
      holds = h;
      distinct = Distinct-out l (returned chain (reverse s.to_return)) id f i.distinct;
      budget = i.budget;
      applied = i.applied;
      committed = i.committed;
      dropped = i.dropped ++ (id, f) ∷ [];
      same_contents = i.same_contents;
      same_count = omega (arith, length-append i.dropped ((id, f) ∷ []), i.same_count);
      nothing_lost = λ w. omega (
        arith,
        i.nothing_lost w,
        sum_by-middle w l (returned chain (reverse s.to_return)) (id, f),
        sum_by-append w i.dropped ((id, f) ∷ []),
      );
    }

    stop-Inv :
        (start : Entries chain) (ledger : Ledger) (s : Progress chain sim lru) (p : Pool chain)
        → Inv start ledger [] s
        → Holds chain p []
        → Inv start ledger [] (record s { pool = p })
    stop-Inv start ledger s p i h = record {
      holds = h;
      distinct = i.distinct;
      budget = i.budget;
      applied = i.applied;
      committed = i.committed;
      dropped = i.dropped;
      same_contents = i.same_contents;
      same_count = i.same_count;
      nothing_lost = i.nothing_lost;
    }

    abbrev pub first_progress : Ledger → lru.Cache → Pool chain → Progress chain sim lru
    first_progress ledger logs p = record {
      ledger = ledger;
      space_left = block_content_max_size ledger;
      contents = [];
      to_return = [];
      rejected_fragments_cnt = 0;
      logs = logs;
      pool = p;
    }

    start-Inv :
        (ledger : Ledger) (logs : lru.Cache) (p : Pool chain) (l : Entries chain)
        → Holds chain p l
        → Inv l ledger l (first_progress ledger logs p)
    start-Inv ledger logs p l h = record {
      holds = h;
      distinct = rw append-nil h.entries.distinct;
      budget = omega arith;
      applied = refl;
      committed = [];
      dropped = [];
      same_contents = refl;
      same_count = refl;
      nothing_lost = λ w. rw append-nil (omega arith);
    }

    abbrev after_round :
        Race
        → ℕ
        → Date
        → Fragment Tx Raw
        → ℕ
        → Progress chain sim lru
        → Pool chain
        → Progress chain sim lru
    after_round race now date f id s p =
        settle chain sim lru now date f id
          (try_apply_fragment chain sim race f s.ledger s.space_left) (record s { pool = p })

    loop_stops :
        (fuel : ℕ) (race : ℕ → Race) (now : ℕ) (date : Date) (s : Progress chain sim lru)
        (f : Fragment Tx Raw) (id : ℕ) (p : Pool chain)
        → remove_oldest chain s.pool ≡ some (some (f, id), p)
        → ((after_round (race fuel) now date f id s p).space_left == 0) ≡ true
        → select_loop chain sim lru (suc fuel) race now date s
          ≡ some (after_round (race fuel) now date f id s p)
    unfolding select_loop
    loop_stops fuel race now date s f id p popped z = rw popped (ground arith)

    loop_goes_on :
        (fuel : ℕ) (race : ℕ → Race) (now : ℕ) (date : Date) (s : Progress chain sim lru)
        (f : Fragment Tx Raw) (id : ℕ) (p : Pool chain)
        → remove_oldest chain s.pool ≡ some (some (f, id), p)
        → ((after_round (race fuel) now date f id s p).space_left == 0) ≡ false
        → select_loop chain sim lru (suc fuel) race now date s
          ≡ select_loop chain sim lru fuel race now date (after_round (race fuel) now date f id s p)
    unfolding select_loop
    loop_goes_on fuel race now date s f id p popped z = rw popped (ground arith)

    -- The loop does not panic and ends within as many rounds as the pool has fragments, and one.
    select_loop-Inv :
        (fuel : ℕ) (race : ℕ → Race) (now : ℕ) (date : Date) (start : Entries chain)
        (ledger : Ledger) (l : Entries chain) (s : Progress chain sim lru)
        → length l < fuel
        → Inv start ledger l s
        → (l' : Entries chain) × (s' : Progress chain sim lru) × (select_loop chain sim lru fuel
              race now date s
            ≡ some s')
          × Inv start ledger l' s'
    unfolding select_loop
    select_loop-Inv zero race now date start ledger l s lt i = absurd (omega arith)
    select_loop-Inv (suc fuel) race now date start ledger l s lt i = elim (snoc-cases l) [
      | inl e ↦
          let i' : Inv start ledger [] s = rw e at i in
          let (p, popped, h, _) = remove_oldest-Holds chain s.pool [] i'.holds in
          ([], record s { pool = p }, rw popped, stop-Inv start ledger s p i' h)
      | inr (a, (id, f), e) ↦
          let i' : Inv start ledger (a ++ (id, f) ∷ []) s = rw e at i in
          let (p, popped, h, _) = remove_oldest-Holds_snoc chain s.pool a id f i'.holds in
          let s' =
            settle chain sim lru now date f id
              (try_apply_fragment chain sim (race fuel) f s.ledger s.space_left)
              (record s { pool = p }) in
          let i2 = settle-Inv start ledger a id f s p (race fuel) now date _ i' h refl in
          elim (Bool-cases (s'.space_left == 0)) [
            | inl z ↦ (a, s', loop_stops fuel race now date s f id p popped z, i2)
            | inr z ↦
                let (l', s'', e', i3) =
                  select_loop-Inv fuel race now date start ledger a s'
                    (omega (arith, ap length e, length-append a ((id, f) ∷ []))) i2 in
                (l', s'', loop_goes_on fuel race now date s f id p popped z ∙ e', i3)
          ]
    ]

    -- What `select` promises of a pool that held `start`, where it ends with the state `s`: the sizes
    -- of the chosen fragments sum to at most the limit, the final ledger is the first one after
    -- exactly those fragments in their order, and the fragments of `start` are those that the pool
    -- holds, those chosen, and as many rejected as were counted, each as often.
    pub record IsSelection (start : Entries chain) (ledger : Ledger) (s : Progress chain sim lru)
        : Type 0 where
      pub held : Entries chain
      pub committed : Entries chain
      pub dropped : Entries chain
      pub holds : Holds chain s.pool held
      pub within : sum_by serialized_size s.contents ≤ block_content_max_size ledger
      pub applied : apply_all s.contents ledger ≡ inl s.ledger
      pub same_contents : map (λ e. e.1) committed ≡ s.contents
      pub same_count : length dropped ≡ s.rejected_fragments_cnt
      pub nothing_lost :
          (w : ℕ × Fragment Tx Raw → ℕ)
          → sum_by w held + sum_by w committed + sum_by w dropped ≡ sum_by w start

    -- With more fuel than the pool has fragments, `select` neither panics nor runs out, and does what
    -- it promises, however the races against the deadlines end.
    pub select-IsSelection :
        (fuel : ℕ) (race : ℕ → Race) (now : ℕ) (ledger : Ledger) (logs : lru.Cache) (p : Pool chain)
        (l : Entries chain)
        → length l < fuel
        → Holds chain p l
        → (s : Progress chain sim lru) × (select chain sim lru fuel race now ledger logs p ≡ some s)
          × IsSelection l ledger s
    unfolding select
    select-IsSelection fuel race now ledger logs p l lt h =
        let (l', s, looped, i) =
          select_loop-Inv fuel race now (block_date ledger) l ledger l
            (first_progress ledger logs p) lt (start-Inv ledger logs p l h) in
        let (p', back, h', _) =
          return_to_pool-Holds chain (reverse s.to_return) s.pool l' i.holds i.distinct in
        (
          record s { pool = p' },
          rw looped (rw back),
          record {
            held = l' ++ returned chain (reverse s.to_return);
            committed = i.committed;
            dropped = i.dropped;
            holds = h';
            within = omega (arith, i.budget);
            applied = i.applied;
            same_contents = i.same_contents;
            same_count = i.same_count;
            nothing_lost = i.nothing_lost;
          },
        )
