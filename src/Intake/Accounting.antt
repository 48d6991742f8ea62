-- ===== src/Intake/Accounting.antt =====
-- `insert_and_propagate_all` keeps the pool and the logs in order and answers for every fragment.
use jormungandr.Prelude.{
  All, ap, subst, count, ℕ, ◌+◌, ◌-◌, ◌≤◌, ◌≡◌, refl, sym, ◌∙◌, Bool, true, Option, some, List, [],
  ◌∷◌, map, arith, is_some, find, length, length-map, Option-cases, inl, inr, ◌⊎◌, if◌then◌else◌,
}
use jormungandr.Chain.{Chain, Fragment}
use jormungandr.FragmentLog.{FragmentLog, FragmentOrigin, pending, is_pending}
use jormungandr.FragmentLog
use jormungandr.Lru.{LruCache}
use jormungandr.Logs.{LogEntry, insert_all_pending}
use jormungandr.Logs.Invariant.{IsValid, insert_pending_pending, insert_pending-IsValid}
use jormungandr.Mempool.Invariant.{Holds, Entries}
use jormungandr.Mempool.Admission.{admit, admit_held, admit_within, insert_all-admit}
use jormungandr.Summary.{fragment_ids, FragmentsProcessingSummary}
use jormungandr.Intake.Answers.{
  IsFresh, IsFresh-tail, ids_of, admit_fresh, enqueued-All, batch-ids, answer-ids,
}
use jormungandr.Intake.{
  Intake, filter_fragment, filter_all, propagate, insert_and_propagate_all, rejection, answer,
}

new_pending :
    (Date Text : Type 0) (now id : ℕ) (origin : FragmentOrigin)
    → is_pending (FragmentLog.new {Date = Date} {Text = Text} now id origin).status ≡ true
unfolding FragmentLog.new is_pending
new_pending Date Text now id origin = refl

module _ (chain : Chain) (Text : Type 0) (lru : LruCache (LogEntry chain.Date Text)) where
  open chain use {Tx, Raw, Date, Settings}

  filter_fragment_keeps :
      (settings : Settings) (date : Date) (f : Fragment Tx Raw) (id : ℕ) (s : Intake chain Text lru)
      → ((filter_fragment chain Text lru settings date f id s).0.pool ≡ s.pool)
        × ((filter_fragment chain Text lru settings date f id s).0.logs ≡ s.logs)
  unfolding filter_fragment
  filter_fragment_keeps settings date f id s =
      elim (Option-cases (rejection chain Text lru settings date s.logs f id)) [
        | inl e ↦ rw (e, filter_fragment) (refl, refl)
        | inr (_, e) ↦ rw (e, filter_fragment) (refl, refl)
      ]

  module _ (fail_fast : Bool) (settings : Settings) (date : Date) where
    -- The first loop accounts for every fragment, and leaves none unread without `fail_fast`.
    filter_all_counts :
        (k : ℕ) (fs : List (Fragment Tx Raw × ℕ)) (s : Intake chain Text lru)
        → (count k (ids_of chain (filter_all chain Text lru fail_fast settings date fs s).filtered)
              + count k (
                  map (λ r. r.id) (filter_all chain Text lru fail_fast settings date fs s).rejected)
              + count k
                  (ids_of chain (filter_all chain Text lru fail_fast settings date fs s).unread)
            ≡ count k (ids_of chain fs))
          × ((fail_fast ≡ true)
              ⊎ ((filter_all chain Text lru fail_fast settings date fs s).unread ≡ []))
    unfolding filter_all
    filter_all_counts k [] s = (omega arith, inr refl)
    filter_all_counts k ((f, id) ∷ fs) s =
        ground
          (arith, filter_all_counts k fs (filter_fragment chain Text lru settings date f id s).0)

    filter_all_keeps :
        (fs : List (Fragment Tx Raw × ℕ)) (s : Intake chain Text lru)
        → ((filter_all chain Text lru fail_fast settings date fs s).state.pool ≡ s.pool)
          × ((filter_all chain Text lru fail_fast settings date fs s).state.logs ≡ s.logs)
    unfolding filter_all
    filter_all_keeps [] s = (refl, refl)
    filter_all_keeps ((f, id) ∷ fs) s =
        let (p, l) = filter_fragment_keeps settings date f id s in
        let (p', l') =
          filter_all_keeps fs (filter_fragment chain Text lru settings date f id s).0 in
        ground (arith, p, l, p', l')

    filter_all-IsFresh :
        (fs : List (Fragment Tx Raw × ℕ)) (s : Intake chain Text lru) (l : Entries chain)
        → IsFresh chain fs l
        → IsFresh chain (filter_all chain Text lru fail_fast settings date fs s).filtered l
    unfolding filter_all
    filter_all-IsFresh [] s l h = tt
    filter_all-IsFresh ((f, id) ∷ fs) s l h =
        let s' = (filter_fragment chain Text lru settings date f id s).0 in
        let taken = filter_all-IsFresh fs s' ((id, f) ∷ l) h.1 in
        let skipped = filter_all-IsFresh fs s' l (IsFresh-tail chain f id fs l h) in
        ground (arith, taken, skipped, h.0)

  insert_all_pending-IsValid :
      (now : ℕ) (origin : FragmentOrigin) (fs : List (Fragment Tx Raw × ℕ)) (c : lru.Cache)
      → IsValid lru c
      → (c' : lru.Cache) × (n : ℕ) × (insert_all_pending lru
            (map (λ e. FragmentLog.new now e.1 origin) fs)
            c
          ≡ some (c', n))
        × IsValid lru c'
  unfolding insert_all_pending
  insert_all_pending-IsValid now origin [] c v = (c, 0, refl, v)
  insert_all_pending-IsValid now origin ((f, id) ∷ fs) c v =
      let log : FragmentLog Date Text = FragmentLog.new now id origin in
      let (c1, b, e1) = insert_pending_pending lru log c (new_pending Date Text now id origin) in
      let v1 = insert_pending-IsValid lru log c c1 b v e1 in
      let (c2, n, e2, v2) = insert_all_pending-IsValid now origin fs c1 v1 in
      (c2, (if b then n + 1 else n), rw e1 (rw e2), v2)

  -- On a pool within its limit and well-formed logs, `insert_and_propagate_all` does not panic, and
  -- leaves the pool within its limit and both in order, also where the network takes a fragment no
  -- more.
  pub insert_and_propagate_all-keeps :
      (send : Fragment Tx Raw → Bool) (now : ℕ) (settings : Settings) (date : Date)
      (origin : FragmentOrigin) (fragments : List (Fragment Tx Raw)) (fail_fast : Bool)
      (s : Intake chain Text lru) (l : Entries chain)
      → Holds chain s.pool l
      → length l ≤ s.pool.max_entries
      → IsValid lru s.logs
      → (s' : Intake chain Text lru) × (r : FragmentsProcessingSummary ⊎ Unit {0}) × (l' : Entries
          chain)
        × (insert_and_propagate_all chain Text lru send now settings date origin fragments fail_fast
              s
            ≡ some (s', r))
        × Holds chain s'.pool l'
        × (length l' ≤ s'.pool.max_entries)
        × (s'.pool.max_entries ≡ s.pool.max_entries)
        × IsValid lru s'.logs
  unfolding insert_and_propagate_all
  insert_and_propagate_all-keeps send now settings date origin fragments fail_fast s l h room v =
      let batch = map (λ el. (el, chain.hash el)) fragments in
      let f = filter_all chain Text lru fail_fast settings date batch s in
      let n = s.pool.max_entries - length l in
      let (p, e, h', m) = insert_all-admit chain f.filtered s.pool l h room in
      let (c, _, e2, v') =
        insert_all_pending-IsValid now origin (admit chain n f.filtered l).taken s.logs v in
      let (grown, few) = admit_within chain n f.filtered l in
      let bound : length (admit chain n f.filtered l).held ≤ p.max_entries =
        omega (arith, grown, few, m, room) in
      (
        record (f.state) { pool = p; logs = c },
        answer chain Text lru fail_fast f (admit chain n f.filtered l).left
            (propagate chain send (admit chain n f.filtered l).taken),
        (admit chain n f.filtered l).held,
        rw e (rw e2),
        h',
        bound,
        m,
        v',
      )

  answer_of :
      {s s' : Intake chain Text lru} {r r' : FragmentsProcessingSummary ⊎ Unit {0}}
      → ◌≡◌ {A = Option (Intake chain Text lru × (FragmentsProcessingSummary ⊎ Unit {0}))}
          (some (s, r))
          (some (s', r'))
      → (s ≡ s') × (r ≡ r')
  answer_of e = (cc, cc)

  -- On a pool within its limit and well-formed logs, where the ids of the batch are new to the pool
  -- and distinct, a summary gives the id of each fragment of the batch as often as the batch has it,
  -- and no other. Those that it gives as accepted are in the pool, which has grown by their number.
  pub insert_and_propagate_all-accounts :
      (k : ℕ) (send : Fragment Tx Raw → Bool) (now : ℕ) (settings : Settings) (date : Date)
      (origin : FragmentOrigin) (fragments : List (Fragment Tx Raw)) (fail_fast : Bool)
      (s s' : Intake chain Text lru) (l : Entries chain) (summary : FragmentsProcessingSummary)
      → Holds chain s.pool l
      → length l ≤ s.pool.max_entries
      → IsValid lru s.logs
      → IsFresh chain (map (λ el. (el, chain.hash el)) fragments) l
      → insert_and_propagate_all chain Text lru send now settings date origin fragments fail_fast s
        ≡ some (s', inl summary)
      → (count k (fragment_ids summary) ≡ count k (map chain.hash fragments))
        × (l' : Entries chain) × Holds chain s'.pool l'
        × All (λ id. is_some (find id l') ≡ true) summary.accepted
        × (length l' ≡ length summary.accepted + length l)
  unfolding insert_and_propagate_all
  insert_and_propagate_all-accounts k send now settings date origin fragments fail_fast s s' l
        summary h room v fresh done =
      let batch = map (λ el. (el, chain.hash el)) fragments in
      let f = filter_all chain Text lru fail_fast settings date batch s in
      let n = s.pool.max_entries - length l in
      let (p, e, h', m) = insert_all-admit chain f.filtered s.pool l h room in
      let a = admit chain n f.filtered l in
      let (c, _, e2, v') = insert_all_pending-IsValid now origin a.taken s.logs v in
      let ran : insert_and_propagate_all chain Text lru send now settings date origin fragments
            fail_fast s
          ≡ some (
            record (f.state) { pool = p; logs = c },
            answer chain Text lru fail_fast f a.left (propagate chain send a.taken),
          ) =
        rw e (rw e2) in
      let (state, answered) = answer_of (sym ran ∙ done) in
      let (counts, all_read) = filter_all_counts fail_fast settings date k batch s in
      let (accepted, all_counted) =
        answer-ids chain Text lru k send fail_fast f a.taken a.left summary all_read answered in
      let grown = (admit_within chain n f.filtered l).0 in
      (
        omega (
          arith,
          all_counted,
          counts,
          admit_fresh chain k n f.filtered l
              (filter_all-IsFresh fail_fast settings date batch s l fresh),
          ap (count k) (batch-ids chain fragments),
        ),
        a.held,
        subst (λ (x : Intake chain Text lru). Holds chain x.pool a.held) state h',
        rw (accepted, admit_held chain n f.filtered l) (enqueued-All chain a.taken l),
        omega (
          arith,
          grown,
          ap length accepted,
          length-map (λ (x : Fragment Tx Raw × ℕ). x.1) a.taken,
        ),
      )
