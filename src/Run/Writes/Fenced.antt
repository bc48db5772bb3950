-- ===== src/Run/Writes/Fenced.antt =====
-- A worker whose lease has ended writes nothing.
use governed_ai_dev_team_fra.Common.{
  String, true, false, some, List, ◌≡◌, inl, inr, Option-cases, arith,
}
use governed_ai_dev_team_fra.Common.Dict.{lookup}
use governed_ai_dev_team_fra.Errors.{Result, GatewayError, ok, err, Result-cases, >>-both}
use governed_ai_dev_team_fra.Documents.{Run, Lease, Attempt, Checkpoint, IntegrationMerge}
use governed_ai_dev_team_fra.Documents.Store.{Store, Write}
use governed_ai_dev_team_fra.Run.Fencing.{current_lease}
use governed_ai_dev_team_fra.Run.Leases.{LeaseCommand, run_lease_commands, is_current}
use governed_ai_dev_team_fra.Run.Leases.Held.{IsLeased, has_ended}
use governed_ai_dev_team_fra.Run.Leases.Fenced.{ended_lease_not_current}
use governed_ai_dev_team_fra.Run.Writes.{
  WriteCheckpoint, RecordIntegrationMerge, handle_write_checkpoint, handle_record_integration_merge,
}
use governed_ai_dev_team_fra.Run.Writes.Fence.{check_active, check_fence, check_fence-is_current}
use governed_ai_dev_team_fra.Run.Writes.Attempts.{
  RecordExecutionAttempt, handle_record_execution_attempt, check_owner, check_worker,
  check_existing,
}
use governed_ai_dev_team_fra.Run.Writes.Lifecycle.{accepted_lem}

pub data WorkerWrite : Type 0 where
  attempt_of_worker : RecordExecutionAttempt → WorkerWrite
  checkpoint_of_worker : WriteCheckpoint → WorkerWrite
  merge_of_worker : RecordIntegrationMerge → WorkerWrite

-- The schemas of the three documents
pub record Schemas : Type 0 where
  pub attempt_schema : Attempt → Result (Unit {0})
  pub checkpoint_schema : Checkpoint → Result (Unit {0})
  pub merge_schema : IntegrationMerge → Result (Unit {0})

-- An attempt is the worker's unless it is an orphan recovery, which the control plane makes.
abbrev pub worker_write : Schemas → WorkerWrite → Store → Result (List Write)
worker_write v (attempt_of_worker c) s =
    handle_record_execution_attempt v.attempt_schema (record c { orphan_recovery = false }) s
worker_write v (checkpoint_of_worker c) s = handle_write_checkpoint v.checkpoint_schema c s
worker_write v (merge_of_worker c) s = handle_record_integration_merge v.merge_schema c s

abbrev pub lease_named : WorkerWrite → String
lease_named (attempt_of_worker c) = c.worker_lease_id
lease_named (checkpoint_of_worker c) = c.worker_lease_id
lease_named (merge_of_worker c) = c.worker_lease_id

-- Some run names the lease as the current one of some Work Unit.
abbrev IsNamed : Store → String → Type 0
IsNamed s lease_id =
    (run_id : String) × (d : Run) × (work_unit_id : String) × (lookup run_id s.runs ≡ some d)
    × (is_current lease_id (current_lease d work_unit_id) ≡ true)

module _ (v : Schemas) (s : Store) (ws : List Write) where
  attempt-IsNamed :
      (c : RecordExecutionAttempt)
      → handle_record_execution_attempt v.attempt_schema (record c { orphan_recovery = false }) s
        ≡ ok ws
      → IsNamed s c.worker_lease_id
  unfolding check_owner check_worker
  attempt-IsNamed c h =
      let c' = record c { orphan_recovery = false } in
      let (d, a) = accepted_lem v.attempt_schema c' s ws h in
      let fence =
        >>-both (check_fence d c.work_unit_id c.epoch c.worker_lease_id)
          (check_existing c' (lookup c.id s.attempts)) a.owned in
      (
        c.run_id,
        d,
        c.work_unit_id,
        a.stored,
        check_fence-is_current d c.work_unit_id c.epoch c.worker_lease_id fence.0,
      )

  checkpoint-IsNamed :
      (c : WriteCheckpoint)
      → handle_write_checkpoint v.checkpoint_schema c s ≡ ok ws
      → IsNamed s c.worker_lease_id
  unfolding handle_write_checkpoint
  checkpoint-IsNamed c h = elim (Option-cases (lookup c.run_id s.runs)) [
    | inl missing ↦ ground arith
    | inr (d, stored) ↦
        let active = >>-both (check_active "" d) _ (rw stored at h) in
        let fence = >>-both (check_fence d c.id c.epoch c.worker_lease_id) _ active.1 in
        (c.run_id, d, c.id, stored, check_fence-is_current d c.id c.epoch c.worker_lease_id fence.0)
  ]

  merge-IsNamed :
      (c : RecordIntegrationMerge)
      → handle_record_integration_merge v.merge_schema c s ≡ ok ws
      → IsNamed s c.worker_lease_id
  unfolding handle_record_integration_merge
  merge-IsNamed c h = elim (Option-cases (lookup c.run_id s.runs)) [
    | inl missing ↦ ground arith
    | inr (d, stored) ↦
        let active = >>-both (check_active "" d) _ (rw stored at h) in
        let fence = >>-both (check_fence d c.work_unit_id c.epoch c.worker_lease_id) _ active.1 in
        (
          c.run_id,
          d,
          c.work_unit_id,
          stored,
          check_fence-is_current d c.work_unit_id c.epoch c.worker_lease_id fence.0,
        )
  ]

  write-IsNamed : (w : WorkerWrite) → worker_write v w s ≡ ok ws → IsNamed s (lease_named w)
  write-IsNamed (attempt_of_worker c) h = attempt-IsNamed c h
  write-IsNamed (checkpoint_of_worker c) h = checkpoint-IsNamed c h
  write-IsNamed (merge_of_worker c) h = merge-IsNamed c h

-- In a store whose runs name active leases only, and after any sequence of lease commands from
-- there, every write of a worker (an attempt, a checkpoint, an integration merge) under a lease that
-- had ended is refused, whatever epoch it claims.
pub ended_lease_cannot_write :
    (validate : Lease → Result (Unit {0})) (v : Schemas) (cs : List LeaseCommand) (s : Store)
    (w : WorkerWrite)
    → IsLeased s
    → has_ended (lookup (lease_named w) s.leases) ≡ true
    → (e : GatewayError) × (worker_write v w (run_lease_commands validate cs s) ≡ err e)
ended_lease_cannot_write validate v cs s w k ended =
    let s' = run_lease_commands validate cs s in
    elim (Result-cases (worker_write v w s')) [
      | inl (ws, accepted) ↦
          let (run_id, d, unit, stored, current) = write-IsNamed v s' ws w accepted in
          cc (
            current,
            ended_lease_not_current validate cs s run_id d unit (lease_named w) k ended stored,
          )
      | inr refused ↦ refused
    ]
