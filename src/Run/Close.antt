-- ===== src/Run/Close.antt =====
-- core/commands/handlers/close_run.py, and core/domain/run/stop_conditions.py. The morning report
-- that the handler writes beside its documents is not modelled.
pub mod Revoked
mod Samples
use governed_ai_dev_team_fra.Common.{
  ℕ, ◌+◌, String, Bool, true, false, not, ◌&&◌, Option, none, some, List, [], ◌∷◌, ◌++◌, string_eq,
  nat_eq, option_eq, ◌==◌, elem, if◌then◌else◌,
}
use Prim.Native.String.{◌++◌ as append}
use governed_ai_dev_team_fra.Common.Dict.{Dict, lookup}
use governed_ai_dev_team_fra.Errors.{
  Result, ok, err, raise, raise_if, ◌>>=◌, ◌>>◌, not_found, invariant_violation, conflict,
  invalid_transition, invalid_schema,
}
use governed_ai_dev_team_fra.Documents.{Run, Lease, LeaseRef, Event, integer}
use governed_ai_dev_team_fra.Documents.Store.{Store, Write, run, lease, event}
use governed_ai_dev_team_fra.Run.Status.{is_transition_allowed}
use governed_ai_dev_team_fra.Run.Ceiling.Tighten.{load_run, integer_revision}

abbrev pub stopping_statuses : List String
stopping_statuses = "stopped" ∷ "failed" ∷ []

abbrev pub global_stop_conditions : List String
global_stop_conditions =
    "budget_exhausted" ∷ "preflight_failed" ∷ "kill_switch" ∷ "authorization_violation"
    ∷ "state_corruption" ∷ "fencing_conflict" ∷ "forbidden_secret_access" ∷ "out_of_workspace_write"
    ∷ "protected_environment_target" ∷ "repeated_systemic_failure" ∷ "worker_isolation_unguaranteed"
    ∷ "no_dispatchable_work" ∷ "cross_area_dependency" ∷ "orchestrator_process_failure"
    ∷ "stalled_no_progress" ∷ []

-- The target and the payload; `now` and `event_id` are the handler's, which reads the clock and makes
-- the id of it whenever it runs.
pub record CloseRun : Type 0 where
  pub id : String
  pub expected_revision : ℕ
  pub status : String
  pub stop_condition : Option String
  pub event_id : String
  pub now : ℕ

abbrev pub is_recognized : Option String → Bool
is_recognized none = false
is_recognized (some condition) = elem condition global_stop_conditions

abbrev pub reason_of : Option String → String
reason_of none = "run stopped: None"
reason_of (some condition) = append "run stopped: " condition

abbrev pub revoked : CloseRun → Lease → Lease
revoked c document = record document {
  status = "revoked";
  released_at = some c.now;
  release_reason = reason_of c.stop_condition;
}

-- One round of the loop over `leases_by_work_unit`
abbrev pub revoke_one : CloseRun → String → Option Lease → List Write
revoke_one c lease_id none = []
revoke_one c lease_id (some document) =
    if document.status == "active" then lease lease_id (revoked c document) ∷ [] else []

unfoldable pub revoke_all : CloseRun → Dict Lease → Dict LeaseRef → List Write
revoke_all c leases [] = []
revoke_all c leases ((work_unit_id, ref) ∷ refs) =
    revoke_one c ref.lease_id (lookup ref.lease_id leases) ++ revoke_all c leases refs

abbrev pub is_stopping : CloseRun → Bool
is_stopping c = elem c.status stopping_statuses

abbrev pub closed : CloseRun → Run → Run
closed c document = record document {
  status = c.status;
  revision = integer (c.expected_revision + 1);
  closed_at = some c.now;
  stop_condition = if is_stopping c then c.stop_condition else none;
  updated_at = some c.now;
}

abbrev pub stop_event : CloseRun → Event
stop_event c = record { event_type = "BLOCKER"; subject = c.id; requires_human = true }

unfoldable pub handle_close_run : CloseRun → Store → Result (List Write)
unfolding revoke_all
handle_close_run c s = do
  document ← load_run (lookup c.id s.runs)
  raise_if (not (document.id == c.id)) invariant_violation "/target/id"
  raise_if (not (integer_revision document.revision == some c.expected_revision)) conflict
      "/target/expected_revision"
  raise_if (not (is_transition_allowed document.status c.status)) invalid_transition
      "/payload/status"
  raise_if (is_stopping c && not (is_recognized c.stop_condition)) invalid_schema
      "/payload/stop_condition"
  let stopping = is_stopping c
  ok (
      if stopping
      then revoke_all c s.leases document.leases_by_work_unit
        ++ run c.id (closed c document) ∷ event c.event_id (stop_event c) ∷ []
      else run c.id (closed c document) ∷ [])
