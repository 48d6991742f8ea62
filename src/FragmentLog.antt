-- ===== src/FragmentLog.antt =====
-- jormungandr-lib/src/interfaces/fragment_log.rs: the status of a fragment and its log entry. The
-- reads of the system clock are arguments. A text and a block hash are what the section's `Text` and
-- the numbers stand for.
use jormungandr.Prelude.{ℕ, ◌≡◌, Bool, true, false, ◌&&◌, not, ◌⊎◌, arith, if◌then◌else◌}

-- `FragmentOrigin`.
pub data FragmentOrigin : Type 0 where
  network rest jrpc : FragmentOrigin

-- `FragmentStatus`, over the type of dates and that of texts.
pub data FragmentStatus (Date Text : Type 0) : Type 0 where
  pending : FragmentStatus Date Text
  rejected : Text → FragmentStatus Date Text
  in_a_block : Date → ℕ → FragmentStatus Date Text

pub record FragmentLog (Date Text : Type 0) : Type 0 where
  pub fragment_id : ℕ
  pub received_from : FragmentOrigin
  pub received_at : ℕ
  pub last_updated_at : ℕ
  pub status : FragmentStatus Date Text

module _ {Date Text : Type 0} where
  unfoldable pub is_pending : FragmentStatus Date Text → Bool
  is_pending pending = true
  is_pending _ = false

  unfoldable pub is_rejected : FragmentStatus Date Text → Bool
  is_rejected (rejected reason) = true
  is_rejected _ = false

  unfoldable pub is_in_a_block : FragmentStatus Date Text → Bool
  is_in_a_block (in_a_block date block) = true
  is_in_a_block _ = false

  -- `FragmentLog::new` at a time.
  unfoldable pub new : ℕ → ℕ → FragmentOrigin → FragmentLog Date Text
  new now fragment_id received_from = record {
    fragment_id = fragment_id;
    received_from = received_from;
    received_at = now;
    last_updated_at = now;
    status = pending;
  }

  -- `FragmentLog::modify`: the entry, and whether the update was made.
  unfoldable pub modify :
      ℕ → FragmentStatus Date Text → FragmentLog Date Text → FragmentLog Date Text × Bool
  unfolding is_in_a_block
  modify now new_status log =
      if is_in_a_block log.status && not (is_in_a_block new_status)
      then (log, false)
      else (record log { status = new_status; last_updated_at = now }, true)

  -- The update is refused exactly when the fragment is in a block and the new status is not; a
  -- refused update changes nothing, and one that is made sets the status and keeps the origin, the
  -- id and the time of receipt.
  pub modify_lem :
      (now : ℕ) (s : FragmentStatus Date Text) (log : FragmentLog Date Text)
      → ((is_in_a_block log.status ≡ true)
          × (is_in_a_block s ≡ false)
          × (modify now s log ≡ (log, false)))
        ⊎ (((is_in_a_block log.status ≡ false) ⊎ (is_in_a_block s ≡ true))
            × (modify now s log ≡ (record log { status = s; last_updated_at = now }, true)))
  unfolding modify
  modify_lem now s log = ground arith

  -- A fragment that is in a block stays in a block.
  pub modify_stays_in_a_block :
      (now : ℕ) (s : FragmentStatus Date Text) (log : FragmentLog Date Text)
      → is_in_a_block log.status ≡ true
      → is_in_a_block (modify now s log).0.status ≡ true
  unfolding modify
  modify_stays_in_a_block now s log h = ground arith
