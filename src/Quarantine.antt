-- ===== src/Quarantine.antt =====
-- jormungandr/src/topology/quarantine.rs: the reports against other nodes. A reported node is given
-- back after a time; until new gossip about it comes it is not reported again. The topology of the
-- poldercast crate is a parameter; ids and addresses are numbers, the clock is an argument.
pub mod Lifting
use jormungandr.Prelude.{
  ℕ, zero, suc, ◌-◌, Bool, true, false, Option, none, some, ◌>>=◌, List, [], ◌∷◌, ◌++◌, map,
  is_some, ltb, if◌then◌else◌,
}
use jormungandr.Lru.{LruCache}

-- `PeerInfo`, of which the rest is what `Details` stands for.
pub record PeerInfo (Details : Type 0) : Type 0 where
  pub id : ℕ
  pub address : ℕ
  pub quarantined : Option ℕ
  pub details : Details

pub record ReportRecord (Details : Type 0) : Type 0 where
  pub peer_info : PeerInfo Details
  pub report_time : ℕ

pub data ReportNodeStatus : Type 0 where
  ok quarantine soft_report : ReportNodeStatus

-- `poldercast::Topology`: `remove_peer`, and whether a peer is in the dirty pool.
pub record Layers : Type 1 where
  pub Topology : Type 0
  pub remove_peer : ℕ → Topology → Topology
  pub is_dirty : ℕ → Topology → Bool

module _ {Details : Type 0} (grace : LruCache (Unit {0}))
    (reported : LruCache (ReportRecord Details)) where
  pub record ReportRecords : Type 0 where
    pub report_duration : ℕ
    pub report_whitelist : ℕ → Bool
    pub report_grace : grace.Cache
    pub report_records : reported.Cache

  unfoldable pub from_config : ℕ → (ℕ → Bool) → Option ℕ → ReportRecords
  from_config quarantine_duration quarantine_whitelist max_num_quarantine_records =
      let max : ℕ = elim max_num_quarantine_records [ none ↦ 24000 | some n ↦ n ] in
      record {
        report_duration = quarantine_duration;
        report_whitelist = quarantine_whitelist;
        report_grace = grace.new max;
        report_records = reported.new max;
      }

  -- The peer's record after it was taken out of the topology.
  unfoldable pub report_record :
      (layers : Layers) → ℕ → ℕ → PeerInfo Details → layers.Topology → ReportRecord Details
  report_record layers now wall_clock peer_info topology = record {
    peer_info =
        if layers.is_dirty peer_info.id topology
        then record peer_info { quarantined = some wall_clock }
        else peer_info;
    report_time = now;
  }

  unfoldable pub report_node :
      (layers : Layers)
      → ℕ
      → ℕ
      → PeerInfo Details
      → layers.Topology
      → ReportRecords
      → ReportNodeStatus × layers.Topology × ReportRecords
  report_node layers now wall_clock node topology s =
      if s.report_whitelist node.address
      then (ok, topology, s)
      else if is_some (grace.peek s.report_grace node.id)
      then (ok, topology, s)
      else let topology' = layers.remove_peer node.id topology in
        let record' = report_record layers now wall_clock node topology' in
        (
          if layers.is_dirty node.id topology' then quarantine else soft_report,
          topology',
          record s { report_records = reported.put s.report_records node.id record' },
        )

  unfoldable pub reported_nodes : ReportRecords → List (PeerInfo Details)
  reported_nodes s = map (λ e. e.1.peer_info) (reported.iter s.report_records)

  unfoldable pub record_new_gossip : ℕ → ReportRecords → ReportRecords
  record_new_gossip node s = record s { report_grace = grace.pop s.report_grace node }

  -- The loop, with fuel; `none` is the end of the fuel. The clock stands still during the call.
  unfoldable pub lift_reports :
      ℕ → ℕ → ReportRecords → Option (ReportRecords × List (PeerInfo Details))
  lift_reports zero now s = none
  lift_reports (suc fuel) now s = elim (reported.peek_lru s.report_records) [
    | none ↦ some (s, [])
    | some (id, report) ↦
        let lifted = record s {
          report_records = reported.pop_lru s.report_records;
          report_grace = grace.put s.report_grace id tt;
        } in
        let rest = lift_reports fuel now lifted in
        if ltb (now - report.report_time) s.report_duration
        then some (s, [])
        else rest >>= (λ r. some (r.0, report.peer_info ∷ r.1))
  ]
