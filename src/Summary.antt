-- ===== src/Summary.antt =====
-- jormungandr-lib/src/interfaces/fragments_processing_summary.rs: the answer to a batch of fragments.
use jormungandr.Prelude.{ℕ, Bool, true, false, ◌||◌, List, [], ◌∷◌, ◌++◌, map}

-- `FragmentRejectionReason`.
pub data FragmentRejectionReason : Type 0 where
  fragment_already_in_log fragment_invalid previous_fragment_invalid : FragmentRejectionReason
  pool_overflow fragment_expired fragment_valid_for_too_long : FragmentRejectionReason

pub record RejectedFragmentInfo : Type 0 where
  pub id : ℕ
  pub reason : FragmentRejectionReason

pub record FragmentsProcessingSummary : Type 0 where
  pub accepted : List ℕ
  pub rejected : List RejectedFragmentInfo

-- `FragmentRejectionReason::is_error`.
unfoldable pub is_error_reason : FragmentRejectionReason → Bool
is_error_reason fragment_invalid = true
is_error_reason previous_fragment_invalid = true
is_error_reason pool_overflow = true
is_error_reason _ = false

unfoldable pub any_error : List RejectedFragmentInfo → Bool
any_error [] = false
any_error (info ∷ rest) = is_error_reason info.reason || any_error rest

-- `FragmentsProcessingSummary::is_error`.
unfoldable pub is_error : FragmentsProcessingSummary → Bool
is_error s = any_error s.rejected

unfoldable pub fragment_ids : FragmentsProcessingSummary → List ℕ
fragment_ids s = map (λ info. info.id) s.rejected ++ s.accepted
