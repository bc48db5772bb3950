-- ===== src/Run/Ceiling/Samples.antt =====
-- A run with the default ceiling, and the theorems at it.
use governed_ai_dev_team_fra.Common.{
  ℕ, String, true, false, none, some, List, [], ◌∷◌, ◌≡◌, refl, string_eq, nat_eq,
}
use governed_ai_dev_team_fra.Common.Dict.{lookup, put}
use governed_ai_dev_team_fra.Errors.{Result, ok}
use governed_ai_dev_team_fra.Documents.{Run, Escalation, integer}
use governed_ai_dev_team_fra.Documents.Store.{Store}
use governed_ai_dev_team_fra.Run.Ceiling.{
  default_execution_ceiling, validate_execution_ceiling, is_step_permitted, capability_for_step,
  state_rank, can_tighten, always_forbidden_steps,
}
use governed_ai_dev_team_fra.Run.Ceiling.Tighten.{
  TightenExecutionCeiling, check_names, handle_tighten_execution_ceiling, run_tightenings,
}
use governed_ai_dev_team_fra.Run.Ceiling.Monotone.{
  Governs, GovernsTighter, run_tightenings-IsTighter,
}

default-valid : validate_execution_ceiling default_execution_ceiling ≡ none
unfolding validate_execution_ceiling lookup
default-valid = refl

-- `remediation` is an implementation step that the ceiling governs.
remediation-governed :
    is_step_permitted
      (put "sandbox_implementation" "forbidden" default_execution_ceiling)
      "remediation"
      true
    ≡ (false, some "forbidden")
unfolding is_step_permitted capability_for_step lookup put
remediation-governed = refl

always_forbidden_steps_example :
    is_step_permitted default_execution_ceiling "staging_deployment" true
    ≡ (false, some "forbidden")
always_forbidden_steps_example =
    always_forbidden_steps default_execution_ceiling "staging_deployment" true default-valid refl

abbrev the_run : Run
the_run = record {
  id = "RUN-1";
  status = "active";
  revision = integer 1;
  autonomy_preset = "unattended_conservative";
  work_unit_ids = "WU-1" ∷ [];
  leases_by_work_unit = [];
  maximum_parallel_workers = none;
  maximum_attempts_per_step = none;
  maximum_remediation_cycles = none;
  run_authorization_grant_id = "GRANT-1";
  integration_branch = some "integration/RUN-1";
  maximum_risk_class = "critical";
  execution_ceilings_by_work_unit = ("WU-1", default_execution_ceiling) ∷ [];
  stop_condition = none;
  created_at = some 0;
  closed_at = none;
  updated_at = none;
}

abbrev the_store : Store
the_store = record {
  work_units = [];
  runs = ("RUN-1", the_run) ∷ [];
  leases = [];
  escalations = [];
  events = [];
  attempts = [];
  checkpoints = [];
  merges = [];
  grants = [];
}

abbrev tightening : ℕ → String → TightenExecutionCeiling
tightening revision new_state = record {
  id = "RUN-1";
  expected_revision = revision;
  work_unit_id = "WU-1";
  dimension = "verification";
  new_state = new_state;
  reason = "flaky";
  escalation_id = "ESCALATION-1";
  now = 7;
}

-- The first is accepted, the second would loosen.
abbrev commands : List TightenExecutionCeiling
commands = tightening 1 "forbidden" ∷ tightening 2 "conditional" ∷ []

abbrev accept_all : Escalation → Result (Unit {0})
accept_all e = ok tt

commands-run :
    lookup "RUN-1" (run_tightenings accept_all commands the_store).runs
    ≡ some (record the_run {
      execution_ceilings_by_work_unit =
          ("WU-1", put "verification" "forbidden" default_execution_ceiling) ∷ [];
      revision = integer 2;
      updated_at = some 7;
    })
unfolding run_tightenings handle_tighten_execution_ceiling check_names can_tighten state_rank lookup
    put
commands-run = refl

the_store-Governs : Governs the_store "RUN-1" "WU-1" default_execution_ceiling
unfolding lookup
the_store-Governs = (the_run, refl, refl)

run_tightenings-IsTighter_example :
    GovernsTighter
      (run_tightenings accept_all commands the_store)
      "RUN-1"
      "WU-1"
      default_execution_ceiling
run_tightenings-IsTighter_example =
    run_tightenings-IsTighter accept_all commands the_store "RUN-1" "WU-1" default_execution_ceiling
      the_store-Governs
