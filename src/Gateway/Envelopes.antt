-- ===== src/Gateway/Envelopes.antt =====
-- The envelopes of core/commands/envelope.py, once parsed, and the table HANDLERS of
-- core/commands/handlers/__init__.py, for the commands whose handlers are modelled.
use governed_ai_dev_team_fra.Common.{String, Bool, false, Option, List, string_eq}
use governed_ai_dev_team_fra.Errors.{Result}
use governed_ai_dev_team_fra.Documents.{
  WorkUnit, Lease, Attempt, Checkpoint, IntegrationMerge, Escalation,
}
use governed_ai_dev_team_fra.Documents.Store.{Store, Write}
use governed_ai_dev_team_fra.WorkUnit.Transition.{TransitionWorkUnit, handle_transition_work_unit}
use governed_ai_dev_team_fra.Run.Leases.{
  AcquireWorkerLease, RecordWorkerHeartbeat, ReleaseWorkerLease, handle_acquire_worker_lease,
  handle_record_worker_heartbeat, handle_release_worker_lease,
}
use governed_ai_dev_team_fra.Run.Ceiling.Tighten.{
  TightenExecutionCeiling, handle_tighten_execution_ceiling,
}
use governed_ai_dev_team_fra.Run.Escalate.{EscalateWorkUnitRisk, handle_escalate_work_unit_risk}
use governed_ai_dev_team_fra.Run.Writes.{
  WriteCheckpoint, RecordIntegrationMerge, handle_write_checkpoint, handle_record_integration_merge,
}
use governed_ai_dev_team_fra.Run.Writes.Attempts.{
  RecordExecutionAttempt, handle_record_execution_attempt,
}
use governed_ai_dev_team_fra.Run.Close.{CloseRun, handle_close_run, is_stopping}

pub data Command : Type 0 where
  transition_work_unit : TransitionWorkUnit → Command
  acquire_worker_lease : AcquireWorkerLease → Command
  record_worker_heartbeat : RecordWorkerHeartbeat → Command
  release_worker_lease : ReleaseWorkerLease → Command
  tighten_execution_ceiling : TightenExecutionCeiling → Command
  escalate_work_unit_risk : EscalateWorkUnitRisk → Command
  write_checkpoint : WriteCheckpoint → Command
  record_integration_merge : RecordIntegrationMerge → Command
  record_execution_attempt : RecordExecutionAttempt → Command
  close_run : CloseRun → Command

-- The schemas and the visual check that the handlers apply.
pub record Checks : Type 0 where
  pub conforms : WorkUnit → Bool
  pub lease_schema : Lease → Result (Unit {0})
  pub escalation_schema : Escalation → Result (Unit {0})
  pub checkpoint_schema : Checkpoint → Result (Unit {0})
  pub merge_schema : IntegrationMerge → Result (Unit {0})
  pub attempt_schema : Attempt → Result (Unit {0})

-- HANDLERS
unfoldable pub handle : Checks → Command → Store → Result (List Write)
handle checks (transition_work_unit c) s = handle_transition_work_unit checks.conforms c s
handle checks (acquire_worker_lease c) s = handle_acquire_worker_lease checks.lease_schema c s
handle checks (record_worker_heartbeat c) s = handle_record_worker_heartbeat c s
handle checks (release_worker_lease c) s = handle_release_worker_lease checks.lease_schema c s
handle checks (tighten_execution_ceiling c) s =
    handle_tighten_execution_ceiling checks.escalation_schema c s
handle checks (escalate_work_unit_risk c) s = handle_escalate_work_unit_risk c s
handle checks (write_checkpoint c) s = handle_write_checkpoint checks.checkpoint_schema c s
handle checks (record_integration_merge c) s =
    handle_record_integration_merge checks.merge_schema c s
handle checks (record_execution_attempt c) s =
    handle_record_execution_attempt checks.attempt_schema c s
handle checks (close_run c) s = handle_close_run c s

abbrev pub type_of : Command → String
type_of (transition_work_unit c) = "TransitionWorkUnit"
type_of (acquire_worker_lease c) = "AcquireWorkerLease"
type_of (record_worker_heartbeat c) = "RecordWorkerHeartbeat"
type_of (release_worker_lease c) = "ReleaseWorkerLease"
type_of (tighten_execution_ceiling c) = "TightenExecutionCeiling"
type_of (escalate_work_unit_risk c) = "EscalateWorkUnitRisk"
type_of (write_checkpoint c) = "WriteCheckpoint"
type_of (record_integration_merge c) = "RecordIntegrationMerge"
type_of (record_execution_attempt c) = "RecordExecutionAttempt"
type_of (close_run c) = "CloseRun"

-- What of a command its sender writes: `now` and the identifiers made of it are the handler's, which
-- reads the clock whenever it runs.
unfoldable pub as_sent : Command → Command
as_sent (transition_work_unit c) = transition_work_unit (record c { now = 0 })
as_sent (acquire_worker_lease c) = acquire_worker_lease (record c { now = 0 })
as_sent (record_worker_heartbeat c) = record_worker_heartbeat (record c { now = 0 })
as_sent (release_worker_lease c) = release_worker_lease (record c { now = 0 })
as_sent (tighten_execution_ceiling c) =
    tighten_execution_ceiling (record c { escalation_id = ""; now = 0 })
as_sent (escalate_work_unit_risk c) = escalate_work_unit_risk (record c { event_id = ""; now = 0 })
as_sent (write_checkpoint c) = write_checkpoint (record c { now = 0 })
as_sent (record_integration_merge c) = record_integration_merge (record c { now = 0 })
as_sent (record_execution_attempt c) =
    record_execution_attempt (record c { event_id = ""; now = 0 })
as_sent (close_run c) = close_run (record c { event_id = ""; now = 0 })

-- `run_id`, `work_unit_id` and `environment` are the entries of the payload that the handler of the
-- command does not read; an entry that is absent is the empty text.
pub record Envelope : Type 0 where
  pub command_id : String
  pub idempotency_key : String
  pub role_id : String
  pub actor : String  -- the other entries of the actor
  pub human_authorization : Option (Option String)  -- its authorization_id, which may be absent
  pub run_id : String
  pub work_unit_id : String
  pub environment : String
  pub command : Command

-- `envelope["target"]["id"]` for TARGET_IS_RUN_ID_COMMANDS, and else `payload.get("run_id")`
abbrev pub run_id_in : String → Command → String
run_id_in other (transition_work_unit c) = other
run_id_in other (acquire_worker_lease c) = c.run_id
run_id_in other (record_worker_heartbeat c) = c.run_id
run_id_in other (release_worker_lease c) = c.run_id
run_id_in other (tighten_execution_ceiling c) = c.id
run_id_in other (escalate_work_unit_risk c) = c.id
run_id_in other (write_checkpoint c) = c.run_id
run_id_in other (record_integration_merge c) = c.run_id
run_id_in other (record_execution_attempt c) = c.run_id
run_id_in other (close_run c) = c.id

-- `payload.get("work_unit_id")`
abbrev pub work_unit_id_in : String → Command → String
work_unit_id_in other (transition_work_unit c) = other
work_unit_id_in other (acquire_worker_lease c) = c.work_unit_id
work_unit_id_in other (record_worker_heartbeat c) = other
work_unit_id_in other (release_worker_lease c) = c.work_unit_id
work_unit_id_in other (tighten_execution_ceiling c) = c.work_unit_id
work_unit_id_in other (escalate_work_unit_risk c) = c.work_unit_id
work_unit_id_in other (write_checkpoint c) = other
work_unit_id_in other (record_integration_merge c) = c.work_unit_id
work_unit_id_in other (record_execution_attempt c) = c.work_unit_id
work_unit_id_in other (close_run c) = other

-- `command_type == "CloseRun" and payload.get("status") in {"stopped", "failed"}`
abbrev pub is_emergency_close : Command → Bool
is_emergency_close (close_run c) = is_stopping c
is_emergency_close _ = false
