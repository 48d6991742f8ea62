-- ===== src/Tests/Reports.antt =====
-- The theorems on the leader events and on the reports against other nodes, at small caches.
use jormungandr.Prelude.{ℕ, ◌≡◌, refl, false, true, none, some, List, [], ◌∷◌, arith}
use jormungandr.Lru.{LruCache}
use jormungandr.Lru.Keyed.{IsKeyed}
use jormungandr.Leadership
use jormungandr.Leadership.{LeadershipLog, block, mark_wake, pending}
use jormungandr.Leadership.Lifecycle.{
  happen_all, happen_all-IsValid, happen_all-life, mark_wake-peek, logged, wakes, ends, settles,
  IsFiled,
}
use jormungandr.Quarantine.{PeerInfo, ReportRecord, ReportRecords, Layers, lift_reports}
use jormungandr.Quarantine.Lifting
use jormungandr.Quarantine.Lifting.{lift_reports-IsLifted, report_node-IsValid}
use jormungandr.Tests.Fixtures.{list_cache}

abbrev event_cache : LruCache (LeadershipLog ℕ ℕ)
event_cache = list_cache (LeadershipLog ℕ ℕ)

abbrev no_events : ℕ × List (ℕ × LeadershipLog ℕ ℕ)
no_events = (2, [])

abbrev asleep : LeadershipLog ℕ ℕ
asleep = record {
  created_at_time = 1;
  scheduled_at_time = 1;
  scheduled_at_date = 7;
  wake_at_time = none;
  finished_at_time = none;
  status = pending;
}

abbrev one_event : ℕ × List (ℕ × LeadershipLog ℕ ℕ)
one_event = (2, (7, asleep) ∷ [])

no_events-IsKeyed : IsKeyed event_cache (IsFiled (λ d. d)) no_events
no_events-IsKeyed = record { distinct = tt; bounded = omega arith; entries = tt }

happen_all-IsValid_example : IsKeyed event_cache (IsFiled (λ d. d)) one_event
unfolding happen_all Leadership.Lifecycle.happen Leadership.insert Leadership.leadership_log_id
happen_all-IsValid_example =
    happen_all-IsValid (λ d. d) event_cache (logged asleep ∷ []) no_events one_event
      no_events-IsKeyed refl

happen_all-life_example :
    (c : ℕ × List (ℕ × LeadershipLog ℕ ℕ)) × (happen_all
        (λ d. d)
        event_cache
        (logged (Leadership.new 1 7 4) ∷ wakes 2 7 ∷ settles (block 5 4 3) 7 ∷ ends 3 7 ∷ [])
        no_events
      ≡ some c)
    × (event_cache.peek c 7
        ≡ some (record {
          created_at_time = 1;
          scheduled_at_time = 4;
          scheduled_at_date = 7;
          wake_at_time = some 2;
          finished_at_time = some 3;
          status = block 5 4 3;
        }))
happen_all-life_example =
    happen_all-life (λ d. d) event_cache 1 4 2 3 7 (block 5 4 3) no_events (omega arith)

abbrev spared : LruCache (Unit {0})
spared = list_cache (Unit {0})

abbrev accused : LruCache (ReportRecord ℕ)
accused = list_cache (ReportRecord ℕ)

abbrev peer : ℕ → PeerInfo ℕ
peer id = record { id = id; address = id; quarantined = none; details = 0 }

-- Node 2 was reported at time 30, node 1 at time 10; node 3 is in the grace list.
abbrev two_reports : ReportRecords spared accused
two_reports = record {
  report_duration = 15;
  report_whitelist = λ _. false;
  report_grace = (4, (3, tt) ∷ []);
  report_records = (
    4,
    (2, record { peer_info = peer 2; report_time = 30 })
        ∷ (1, record { peer_info = peer 1; report_time = 10 })
        ∷ [],
  );
}

abbrev no_layers : Layers
no_layers = record { Topology = ℕ; remove_peer = λ _ t. t; is_dirty = λ _ _. true }

two_reports-IsValid : Lifting.IsValid spared accused two_reports
two_reports-IsValid = record {
  filed = record {
    distinct = (refl, (refl, tt));
    bounded = omega arith;
    entries = (refl, (refl, tt));
  };
  apart = λ k. ground arith;
}

-- At time 40 the report of node 1 is due.
lift_reports-IsLifted_example :
    (s : ReportRecords spared accused) × (peers : List (PeerInfo ℕ)) × (lift_reports spared accused
        3 40 two_reports
      ≡ some (s, peers))
    × Lifting.IsValid spared accused s
    × Lifting.IsLifted spared accused 40 two_reports s peers
lift_reports-IsLifted_example =
    lift_reports-IsLifted spared accused 3 40 two_reports two_reports-IsValid (omega arith)
