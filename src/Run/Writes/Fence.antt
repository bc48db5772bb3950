-- ===== src/Run/Writes/Fence.antt =====
-- The checks that the handlers of a worker's writes share.
use governed_ai_dev_team_fra.Common.{
  ℕ, String, true, not, ◌&&◌, Option, none, some, ◌≡◌, string_eq, ◌==◌, arith,
}
use governed_ai_dev_team_fra.Errors.{
  Result, ok, raise, raise_if, ◌>>◌, not_found, invariant_violation, conflict,
}
use governed_ai_dev_team_fra.Documents.{Run}
use governed_ai_dev_team_fra.Run.Status.{is_unattended_preset}
use governed_ai_dev_team_fra.Run.Fencing.{current_lease, is_epoch_current}
use governed_ai_dev_team_fra.Run.Leases.{is_current}

abbrev pub load_run : Option Run → Result Run
load_run none = raise not_found "/payload/run_id"
load_run (some document) = ok document

-- An unattended run has to be active.
unfoldable pub check_active : String → Run → Result (Unit {0})
check_active path run_document =
    raise_if
      (is_unattended_preset run_document.autonomy_preset && not (run_document.status == "active"))
      invariant_violation path

-- The epoch is current, and so is the lease.
unfoldable pub check_fence : Run → String → ℕ → String → Result (Unit {0})
check_fence run_document work_unit_id epoch worker_lease_id =
    raise_if (not (is_epoch_current run_document work_unit_id epoch)) conflict "/payload/epoch"
    >> raise_if (not (is_current worker_lease_id (current_lease run_document work_unit_id)))
        conflict "/payload/worker_lease_id"

pub check_fence-is_current :
    (d : Run) (w : String) (epoch : ℕ) (lease_id : String)
    → check_fence d w epoch lease_id ≡ ok tt
    → is_current lease_id (current_lease d w) ≡ true
unfolding check_fence
check_fence-is_current d w epoch lease_id h = ground arith
