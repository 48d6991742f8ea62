-- ===== src/Quarantine/Lifting.antt =====
-- What the reports keep, and which of them are lifted.
use jormungandr.Prelude.{
  ℕ, zero, suc, ◌-◌, ◌≡◌, ◌≤◌, ◌<◌, refl, sym, ap, ◌∙◌, subst, Bool, true, false, none, some, List,
  [], ◌∷◌, ◌++◌, map, reverse, ◌⊎◌, inl, inr, arith, ltb, ◌==◌, length, length-append, find, All,
  last_of, last_of-append, snoc-cases, Distinct-middle, Option-cases, Bool-cases, ==→≡,
}
use mathlib.Core.List.{append-nil, append_assoc, reverse-cons}
use jormungandr.Lru.{LruCache}
use jormungandr.Lru.Keyed.{IsKeyed, put-IsKeyed, pop_lru-IsKeyed, peek-put_none, peek-pop_none}
use jormungandr.Quarantine.{
  PeerInfo, ReportRecord, ReportRecords, Layers, report_record, report_node, record_new_gossip,
  lift_reports,
}

abbrev pub Report : Type 0 → Type 0
Report Details = ℕ × ReportRecord Details

module _ {Details : Type 0} where
  -- A report stands at the id of its node.
  abbrev pub IsFiled : Report Details → Type 0
  IsFiled (id, report) = report.peer_info.id ≡ id

  -- A report whose time has not passed.
  abbrev pub is_fresh : ℕ → ℕ → Report Details → Bool
  is_fresh now duration (_, report) = ltb (now - report.report_time) duration

  -- The reports from the newest to the oldest.
  abbrev pub IsNewestFirst : List (Report Details) → Type 0
  IsNewestFirst [] = Unit
  IsNewestFirst ((id, report) ∷ l) =
      All (λ e. e.1.report_time ≤ report.report_time) l × IsNewestFirst l

  All-last :
      (P : Report Details → Type 0) (l : List (Report Details)) (e : Report Details)
      → All P (l ++ e ∷ [])
      → P e
  All-last P [] e h = h.0
  All-last P (x ∷ l) e h = All-last P l e h.1

  -- Where the oldest report is fresh, all are.
  fresh-All :
      (now duration : ℕ) (l : List (Report Details)) (e : Report Details)
      → IsNewestFirst (l ++ e ∷ [])
      → is_fresh now duration e ≡ true
      → All (λ x. is_fresh now duration x ≡ true) (l ++ e ∷ [])
  fresh-All now duration [] e h f = (f, tt)
  fresh-All now duration (x ∷ l) e h f = (
    ground (arith, All-last (λ y. y.1.report_time ≤ x.1.report_time) l e h.0),
    fresh-All now duration l e h.1 f,
  )

module _ {Details : Type 0} (grace : LruCache (Unit {0}))
    (reported : LruCache (ReportRecord Details)) where
  -- No node is both reported and in the grace list; the reports stand at the ids of their nodes.
  pub record IsValid (s : ReportRecords grace reported) : Type 0 where
    pub filed : IsKeyed reported IsFiled s.report_records
    pub apart :
        (k : ℕ) → (reported.peek s.report_records k ≡ none) ⊎ (grace.peek s.report_grace k ≡ none)

  -- New gossip keeps the records in order.
  pub record_new_gossip-IsValid :
      (node : ℕ) (s : ReportRecords grace reported)
      → IsValid s
      → IsValid (record_new_gossip grace reported node s)
  unfolding record_new_gossip
  record_new_gossip-IsValid node s v = record {
    filed = v.filed;
    apart = λ k. elim (v.apart k) [
      | inl a ↦ inl a
      | inr a ↦ inr (peek-pop_none grace s.report_grace node k a)
    ];
  }

  put-apart :
      (s : ReportRecords grace reported) (id : ℕ) (r : ReportRecord Details)
      → IsValid s
      → r.peer_info.id ≡ id
      → grace.peek s.report_grace id ≡ none
      → IsValid (record s { report_records = reported.put s.report_records id r })
  put-apart s id r v same free = record {
    filed = put-IsKeyed reported IsFiled s.report_records id r v.filed same;
    apart = λ k. elim (Bool-cases (id == k)) [
      | inl hit ↦ inr (subst (λ j. grace.peek s.report_grace j ≡ none) (==→≡ id k hit) free)
      | inr miss ↦ elim (v.apart k) [
        | inl a ↦ inl (peek-put_none reported s.report_records id k r miss a)
        | inr a ↦ inr a
      ]
    ];
  }

  report_record_id :
      (layers : Layers) (now wall_clock : ℕ) (node : PeerInfo Details) (topology : layers.Topology)
      → (report_record grace reported layers now wall_clock node topology).peer_info.id ≡ node.id
  unfolding report_record
  report_record_id layers now wall_clock node topology = ground arith

  -- A report keeps the records in order: a node of the grace list is not reported.
  pub report_node-IsValid :
      (layers : Layers) (now wall_clock : ℕ) (node : PeerInfo Details) (topology : layers.Topology)
      (s : ReportRecords grace reported)
      → IsValid s
      → IsValid (report_node grace reported layers now wall_clock node topology s).2
  unfolding report_node
  report_node-IsValid layers now wall_clock node topology s v =
      elim (Bool-cases (s.report_whitelist node.address)) [
        | inl listed ↦ rw (listed, report_node) v
        | inr unlisted ↦ elim (Option-cases (grace.peek s.report_grace node.id)) [
          | inr (u, spared) ↦ rw (unlisted, spared, report_node) v
          | inl free ↦
              let t = layers.remove_peer node.id topology in
              rw (unlisted, free, report_node)
                (put-apart s node.id (report_record grace reported layers now wall_clock node t) v
                  (report_record_id layers now wall_clock node t) free)
        ]
      ]

  -- The oldest report moves to the grace list.
  abbrev lifted_one : ReportRecords grace reported → ℕ → ReportRecords grace reported
  lifted_one s id = record s {
    report_records = reported.pop_lru s.report_records;
    report_grace = grace.put s.report_grace id tt;
  }

  absent-init :
      (k : ℕ) (a : List (Report Details)) (e : Report Details)
      → find k (a ++ e ∷ []) ≡ none
      → find k a ≡ none
  absent-init k [] e h = refl
  absent-init k ((j, x) ∷ a) e h = ground (arith, absent-init k a e)

  lifted_one-IsValid :
      (s : ReportRecords grace reported) (a : List (Report Details)) (id : ℕ)
      (r : ReportRecord Details)
      → IsValid s
      → reported.iter s.report_records ≡ a ++ (id, r) ∷ []
      → (reported.iter (lifted_one s id).report_records ≡ a) × IsValid (lifted_one s id)
  lifted_one-IsValid s a id r v split =
      let (left, keyed) =
        pop_lru-IsKeyed reported IsFiled s.report_records a (id, r) split v.filed in
      let (_, _, _, gone, _) = Distinct-middle a [] id r (rw split at v.filed.distinct) in
      (
        left,
        record {
          filed = keyed;
          apart = λ k. elim (Bool-cases (id == k)) [
            | inl hit ↦
                let none_left : find id a ≡ none = ground (arith, gone) in
                inl (
                  reported.peek-iter _ k
                  ∙ ap (find k) left
                  ∙ subst (λ j. find j a ≡ none) (==→≡ id k hit) none_left)
            | inr miss ↦ elim (v.apart k) [
              | inl h ↦ inl (
                  reported.peek-iter _ k
                  ∙ ap (find k) left
                  ∙ absent-init k a (id, r)
                      (ap (find k) (sym split) ∙ sym (reported.peek-iter s.report_records k) ∙ h))
              | inr h ↦ inr (peek-put_none grace s.report_grace id k tt miss h)
            ]
          ];
        },
      )

  -- The nodes of reports, put on the grace list in their order.
  abbrev pub put_all : List (Report Details) → grace.Cache → grace.Cache
  put_all [] g = g
  put_all ((id, _) ∷ l) g = put_all l (grace.put g id tt)

  -- The reports before and after a call: those kept, and those lifted, from the oldest on.
  pub record IsLifted (now : ℕ) (s s' : ReportRecords grace reported)
      (peers : List (PeerInfo Details)) : Type 0 where
    pub kept : List (Report Details)
    pub lifted : List (Report Details)
    pub before : reported.iter s.report_records ≡ kept ++ reverse lifted
    pub after : reported.iter s'.report_records ≡ kept
    pub answer : peers ≡ map (λ e. e.1.peer_info) lifted
    pub due : All (λ e. is_fresh now s.report_duration e ≡ false) lifted
    pub spared : s'.report_grace ≡ put_all lifted s.report_grace
    pub fresh : IsNewestFirst kept → All (λ e. is_fresh now s.report_duration e ≡ true) kept

  kept-All :
      (now : ℕ) (s : ReportRecords grace reported) (l : List (Report Details))
      → reported.iter s.report_records ≡ l
      → (IsNewestFirst l → All (λ e. is_fresh now s.report_duration e ≡ true) l)
      → IsLifted now s s []
  kept-All now s l e f = record {
    kept = l;
    lifted = [];
    before = e ∙ sym (append-nil l);
    after = e;
    answer = refl;
    due = tt;
    spared = refl;
    fresh = f;
  }

  one_more :
      (now : ℕ) (s s' : ReportRecords grace reported) (a : List (Report Details)) (id : ℕ)
      (r : ReportRecord Details) (peers : List (PeerInfo Details))
      → reported.iter s.report_records ≡ a ++ (id, r) ∷ []
      → reported.iter (lifted_one s id).report_records ≡ a
      → is_fresh now s.report_duration (id, r) ≡ false
      → IsLifted now (lifted_one s id) s' peers
      → IsLifted now s s' (r.peer_info ∷ peers)
  one_more now s s' a id r peers split left due l = record {
    kept = l.kept;
    lifted = (id, r) ∷ l.lifted;
    before =
        split
        ∙ ap (λ x. x ++ (id, r) ∷ []) (sym left ∙ l.before)
        ∙ append_assoc l.kept (reverse l.lifted) ((id, r) ∷ [])
        ∙ ap (◌++◌ l.kept) (sym (reverse-cons (id, r) l.lifted));
    after = l.after;
    answer = ap (◌∷◌ r.peer_info) l.answer;
    due = (due, l.due);
    spared = l.spared;
    fresh = l.fresh;
  }

  -- One round of the loop.
  lift_idle :
      (fuel now : ℕ) (s : ReportRecords grace reported)
      → reported.peek_lru s.report_records ≡ none
      → lift_reports grace reported (suc fuel) now s ≡ some (s, [])
  unfolding lift_reports
  lift_idle fuel now s e = ground (arith, e)

  lift_young :
      (fuel now : ℕ) (s : ReportRecords grace reported) (id : ℕ) (r : ReportRecord Details)
      → reported.peek_lru s.report_records ≡ some (id, r)
      → is_fresh now s.report_duration (id, r) ≡ true
      → lift_reports grace reported (suc fuel) now s ≡ some (s, [])
  unfolding lift_reports
  lift_young fuel now s id r e young = ground (arith, e, young)

  lift_due :
      (fuel now : ℕ) (s s' : ReportRecords grace reported) (id : ℕ) (r : ReportRecord Details)
      (peers : List (PeerInfo Details))
      → reported.peek_lru s.report_records ≡ some (id, r)
      → is_fresh now s.report_duration (id, r) ≡ false
      → lift_reports grace reported fuel now (lifted_one s id) ≡ some (s', peers)
      → lift_reports grace reported (suc fuel) now s ≡ some (s', r.peer_info ∷ peers)
  unfolding lift_reports
  lift_due fuel now s s' id r peers e due rest = ground (arith, e, due, rest)

  -- With more fuel than there are reports `lift_reports` returns; it lifts the oldest ones, which are
  -- due, gives back their nodes, the oldest first, and puts them on the grace list; where the
  -- reports stand from the newest to the
  -- oldest all that are left are fresh; the records stay in order.
  pub lift_reports-IsLifted :
      (fuel now : ℕ) (s : ReportRecords grace reported)
      → IsValid s
      → length (reported.iter s.report_records) < fuel
      → (s' : ReportRecords grace reported) × (peers : List (PeerInfo Details)) × (lift_reports
            grace reported fuel now s
          ≡ some (s', peers))
        × IsValid s'
        × IsLifted now s s' peers
  lift_reports-IsLifted zero now s v lt = absurd (omega arith)
  lift_reports-IsLifted (suc fuel) now s v lt = elim (snoc-cases (reported.iter s.report_records)) [
    | inl e ↦
        let idle = reported.peek_lru-iter s.report_records ∙ ap last_of e in
        (s, [], lift_idle fuel now s idle, v, kept-All now s [] e (λ _. tt))
    | inr (a, (id, r), e) ↦
        let oldest =
          reported.peek_lru-iter s.report_records ∙ ap last_of e ∙ last_of-append a (id, r) in
        let (left, v') = lifted_one-IsValid s a id r v e in
        let shorter = ap length e ∙ length-append a ((id, r) ∷ []) in
        elim (Bool-cases (is_fresh now s.report_duration (id, r))) [
          | inl young ↦ (
            s,
            [],
            lift_young fuel now s id r oldest young,
            v,
            kept-All now s (a ++ (id, r) ∷ []) e
                (λ o. fresh-All now s.report_duration a (id, r) o young),
          )
          | inr due ↦
              let (s', peers, done, v'', l) =
                lift_reports-IsLifted fuel now (lifted_one s id) v'
                  (omega (arith, shorter, ap length left)) in
              (
                s',
                r.peer_info ∷ peers,
                lift_due fuel now s s' id r peers oldest due done,
                v'',
                one_more now s s' a id r peers e left due l,
              )
        ]
  ]
