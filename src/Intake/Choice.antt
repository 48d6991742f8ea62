-- ===== src/Intake/Choice.antt =====
-- `Pool::select` of jormungandr/src/fragment/pool.rs: the choice of a block's contents from the pool
-- and the logs that the task holds.
use jormungandr.Prelude.{
  ℕ, zero, suc, ◌≤◌, ◌<◌, ◌≡◌, refl, ap, subst, Option, none, some, ◌>>=◌, List, reverse, inl, inr,
  ◌⊎◌, ◌==◌, arith, length, sum_by, Option-cases, Bool-cases,
}
use jormungandr.Chain.{Chain, Fragment}
use jormungandr.Lru.{LruCache}
use jormungandr.Logs.{LogEntry}
use jormungandr.Logs.Invariant.{IsValid, modify-IsValid}
use jormungandr.FragmentLog.{rejected}
use jormungandr.Mempool.{Pool, remove_oldest, return_to_pool}
use jormungandr.Mempool.Invariant.{Holds, Entries}
use jormungandr.Selection
use jormungandr.Selection.{
  Simulation, Race, ApplyFragmentError, does_not_fit, soft_deadline_reached, rejected_for, Progress,
  try_apply_fragment, settle, select_loop,
}
use jormungandr.Selection.Contents.{IsSelection, select-IsSelection}
use jormungandr.Intake.{Intake}

module _ (chain : Chain) (sim : Simulation chain)
    (lru : LruCache (LogEntry chain.Date sim.Text)) where
  open chain use {Tx, Raw, Date, serialized_size}
  open sim use {Ledger, Text, block_content_max_size}

  -- The new state, the contents of the block and its ledger.
  unfoldable pub select :
      ℕ
      → (ℕ → Race)
      → ℕ
      → Ledger
      → Intake chain Text lru
      → Option (Intake chain Text lru × List (Fragment Tx Raw) × Ledger)
  select fuel race now ledger s = do
    r ← Selection.select chain sim lru fuel race now ledger s.logs s.pool
    some (record s { logs = r.logs; pool = r.pool }, r.contents, r.ledger)

  settle-IsValid :
      (now : ℕ) (date : Date) (fragment : Fragment Tx Raw) (id : ℕ)
      (result : (Ledger × ℕ) ⊎ ApplyFragmentError Text) (s : Progress chain sim lru)
      → IsValid lru s.logs
      → IsValid lru (settle chain sim lru now date fragment id result s).logs
  unfolding settle
  settle-IsValid now date fragment id (inl (ledger, space)) s v = v
  settle-IsValid now date fragment id (inr does_not_fit) s v = v
  settle-IsValid now date fragment id (inr soft_deadline_reached) s v = v
  settle-IsValid now date fragment id (inr (rejected_for reason)) s v =
      modify-IsValid lru now id (rejected reason) date s.logs v

  select_loop-IsValid :
      (fuel : ℕ) (race : ℕ → Race) (now : ℕ) (date : Date) (s s' : Progress chain sim lru)
      → IsValid lru s.logs
      → select_loop chain sim lru fuel race now date s ≡ some s'
      → IsValid lru s'.logs
  unfolding select_loop
  select_loop-IsValid zero race now date s s' v h = absurd (cc)
  select_loop-IsValid (suc fuel) race now date s s' v h =
      elim (Option-cases (remove_oldest chain s.pool)) [
        | inl e ↦ absurd (ground (arith, e))
        | inr ((none, p), e) ↦
            let same : record s { pool = p } ≡ s' = ground (arith, e) in
            subst (IsValid lru) (ap (λ (x : Progress chain sim lru). x.logs) same) v
        | inr ((some (f, id), p), e) ↦
            let result = try_apply_fragment chain sim (race fuel) f s.ledger s.space_left in
            let t = settle chain sim lru now date f id result (record s { pool = p }) in
            let v' = settle-IsValid now date f id result (record s { pool = p }) v in
            elim (Bool-cases (t.space_left == 0)) [
              | inl full ↦
                  let same : t ≡ s' = ground (arith, e, full) in
                  subst (IsValid lru) (ap (λ (x : Progress chain sim lru). x.logs) same) v'
              | inr room ↦ select_loop-IsValid fuel race now date t s' v' (ground (arith, e, room))
            ]
      ]

  select-IsValid :
      (fuel : ℕ) (race : ℕ → Race) (now : ℕ) (ledger : Ledger) (logs : lru.Cache) (p : Pool chain)
      (s : Progress chain sim lru)
      → IsValid lru logs
      → Selection.select chain sim lru fuel race now ledger logs p ≡ some s
      → IsValid lru s.logs
  unfolding Selection.select
  select-IsValid fuel race now ledger logs p s v h =
      let start = Selection.Contents.first_progress chain sim lru ledger logs p in
      elim (Option-cases (select_loop chain sim lru fuel race now (sim.block_date ledger) start)) [
        | inl e ↦ absurd (ground (arith, e))
        | inr (t, e) ↦
            let w = select_loop-IsValid fuel race now (sim.block_date ledger) start t v e in
            elim (Option-cases (return_to_pool chain (reverse t.to_return) t.pool)) [
              | inl e' ↦ absurd (ground (arith, e, e'))
              | inr (p', e') ↦
                  let same : record t { pool = p' } ≡ s = ground (arith, e, e') in
                  subst (IsValid lru) (ap (λ (x : Progress chain sim lru). x.logs) same) w
            ]
      ]

  -- With more fuel than the pool has fragments, the choice of a block's contents returns, keeps the
  -- pool and the logs in order, and gives contents whose sizes sum to at most the block's limit.
  pub select-keeps :
      (fuel : ℕ) (race : ℕ → Race) (now : ℕ) (ledger : Ledger) (s : Intake chain Text lru)
      (l : Entries chain)
      → length l < fuel
      → Holds chain s.pool l
      → IsValid lru s.logs
      → (s' : Intake chain Text lru) × (contents : List (Fragment Tx Raw)) × (ledger' : Ledger)
        × (l' : Entries chain) × (select fuel race now ledger s ≡ some (s', contents, ledger'))
        × Holds chain s'.pool l'
        × IsValid lru s'.logs
        × (sum_by serialized_size contents ≤ block_content_max_size ledger)
        × (s'.persistent_log ≡ s.persistent_log)
  unfolding select
  select-keeps fuel race now ledger s l lt h v =
      let (r, e, i) = select-IsSelection chain sim lru fuel race now ledger s.logs s.pool l lt h in
      (
        record s { logs = r.logs; pool = r.pool },
        r.contents,
        r.ledger,
        i.held,
        rw e refl,
        i.holds,
        select-IsValid fuel race now ledger s.logs s.pool r v e,
        i.within,
        refl,
      )
