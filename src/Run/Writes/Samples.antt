-- ===== src/Run/Writes/Samples.antt =====
-- The writes of workers on a sample run, and the theorems at them.
use governed_ai_dev_team_fra.Common.{String, true, false, none, some, List, [], ◌∷◌, ◌≡◌, refl}
use governed_ai_dev_team_fra.Common.Dict.{lookup, put}
use governed_ai_dev_team_fra.Common.Directory.{write, insert_sorted}
use governed_ai_dev_team_fra.Errors.{GatewayError, ok, err}
use governed_ai_dev_team_fra.Documents.{Run, Attempt, Grant}
use governed_ai_dev_team_fra.Documents.Store.{Store}
use governed_ai_dev_team_fra.Run.Fencing.{current_lease, is_epoch_current}
use governed_ai_dev_team_fra.Run.Ceiling.{
  default_execution_ceiling, is_step_permitted, capability_for_step,
}
use governed_ai_dev_team_fra.Run.Convergence.{
  attempts_for_step, repeated_identical_failure, convergence_exhaustion_reason,
}
use governed_ai_dev_team_fra.Run.Leases.{run_lease_commands}
use governed_ai_dev_team_fra.Run.Leases.Samples.{
  night, night_run, night_commands, night-IsLeased, lease-1-ended, accept_all,
}
use governed_ai_dev_team_fra.Run.Writes.Fence.{check_active, check_fence}
use governed_ai_dev_team_fra.Run.Writes.Attempts.{
  RecordExecutionAttempt, load_run_attempts, check_immutable, check_orphan, check_worker,
  check_owner, check_ceiling, prior_attempts, exhaustion_reason, settle,
  handle_record_execution_attempt,
}
use governed_ai_dev_team_fra.Run.Writes.History.{
  run_attempts, Follows, run_attempts-Follows, is_forbidden_in, forbidden_step_strands,
}
use governed_ai_dev_team_fra.Run.Writes.Fenced.{
  Schemas, WorkerWrite, checkpoint_of_worker, worker_write, ended_lease_cannot_write,
}

program : Unit {0}
unfolding lookup put write insert_sorted current_lease is_epoch_current is_step_permitted
    capability_for_step attempts_for_step repeated_identical_failure convergence_exhaustion_reason
    check_active check_fence load_run_attempts check_immutable check_orphan check_worker check_owner
    check_ceiling prior_attempts exhaustion_reason settle handle_record_execution_attempt
    run_attempts
program = tt

abbrev schemas : Schemas
schemas = record {
  attempt_schema = λ _. ok tt;
  checkpoint_schema = λ _. ok tt;
  merge_schema = λ _. ok tt;
}

abbrev late_checkpoint : WorkerWrite
late_checkpoint = checkpoint_of_worker (record {
  id = "WU-1";
  run_id = "RUN-1";
  epoch = 2;
  worker_lease_id = "LEASE-1";
  report = "";
  now = 8;
})

ended_lease_cannot_write_example :
    (e : GatewayError) × (worker_write schemas late_checkpoint
        (run_lease_commands accept_all night_commands night)
      ≡ err e)
ended_lease_cannot_write_example =
    ended_lease_cannot_write accept_all schemas night_commands night late_checkpoint night-IsLeased
      lease-1-ended

abbrev the_grant : Grant
the_grant = record {
  spend_used = 0;
  tokens_used = 10;
  maximum_spend = none;
  maximum_tokens = some 100;
  uses_count = 1;
  maximum_uses = some 1;
  revoked_at = none;
  expires_at = none;
  excluded_actions = [];
  allowed_areas = none;
  allowed_commands = [];
  allowed_environments = [];
  work_unit_ids = "WU-1" ∷ "WU-2" ∷ [];
  maximum_duration_hours = some 8;
}

abbrev command_with : String → String → RecordExecutionAttempt
command_with step status = record {
  id = "ATT-1";
  expected_revision = some 1;
  actor_role = "developer";
  run_id = "RUN-1";
  execution_id = none;
  work_unit_id = "WU-1";
  worker_lease_id = "LEASE-2";
  epoch = 2;
  step = step;
  status = status;
  orphan_recovery = false;
  started_at = none;
  ended_at = none;
  duration_ms = none;
  summary = "tests fail";
  cost = 3;
  total_tokens = 20;
  report = "";
  event_id = "EVT-1";
  now = 5000000;
}

abbrev started_attempt : Attempt
started_attempt = record {
  id = "ATT-1";
  revision = 1;
  run_id = "RUN-1";
  execution_id = none;
  work_unit_id = "WU-1";
  worker_lease_id = "LEASE-2";
  epoch = 2;
  step = "verification";
  status = "started";
  started_at = 1000000;
  ended_at = none;
  duration_ms = none;
  summary = "";
  cost = 0;
  total_tokens = 0;
  report = "";
}

abbrev working : Store
working = record night {
  attempts = ("ATT-1", started_attempt) ∷ [];
  grants = ("GRANT-1", the_grant) ∷ [];
}

-- The first command ends the attempt, the second comes too late.
abbrev ends_twice : List RecordExecutionAttempt
ends_twice = command_with "verification" "failed" ∷ command_with "verification" "succeeded" ∷ []

ends_twice-run :
    lookup "ATT-1" (run_attempts schemas.attempt_schema ends_twice working).attempts
    ≡ some (record started_attempt {
      revision = 2;
      status = "failed";
      ended_at = some 5000000;
      duration_ms = some 4000;
      summary = "tests fail";
      cost = 3;
      total_tokens = 20;
    })
unfolding program
ends_twice-run = refl

ends_twice-charged :
    lookup "GRANT-1" (run_attempts schemas.attempt_schema ends_twice working).grants
    ≡ some (record the_grant { spend_used = 3; tokens_used = 30 })
unfolding program
ends_twice-charged = refl

working-stored : lookup "ATT-1" working.attempts ≡ some started_attempt
unfolding lookup
working-stored = refl

run_attempts-Follows_example :
    Follows started_attempt
      (lookup "ATT-1" (run_attempts schemas.attempt_schema ends_twice working).attempts)
run_attempts-Follows_example =
    run_attempts-Follows schemas.attempt_schema ends_twice working "ATT-1" started_attempt
      working-stored

-- While the attempt runs, its step is forbidden to its Work Unit.
abbrev forbidding_run : Run
forbidding_run = record night_run {
  execution_ceilings_by_work_unit =
      ("WU-1", ("verification", "forbidden") ∷ default_execution_ceiling) ∷ [];
}

abbrev forbidding : Store
forbidding = record working { runs = ("RUN-1", forbidding_run) ∷ [] }

forbidding-forbids : is_forbidden_in forbidding_run "WU-1" "verification" ≡ true
unfolding program
forbidding-forbids = refl

forbidding-run : lookup "RUN-1" forbidding.runs ≡ some forbidding_run
unfolding lookup
forbidding-run = refl

forbidden_step_strands_example :
    lookup "ATT-1" (run_attempts schemas.attempt_schema ends_twice forbidding).attempts
    ≡ some started_attempt
forbidden_step_strands_example =
    forbidden_step_strands schemas.attempt_schema "ATT-1" started_attempt forbidding_run
      forbidding-forbids ends_twice forbidding working-stored forbidding-run
