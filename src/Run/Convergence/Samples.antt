-- ===== src/Run/Convergence/Samples.antt =====
-- A step that failed twice in different ways, and the theorem at it.
use governed_ai_dev_team_fra.Common.{String, [], ◌∷◌, ◌≡◌, ◌↔◌, none, some}
use governed_ai_dev_team_fra.Documents.{Attempt}
use governed_ai_dev_team_fra.Run.Convergence.{
  MayRetry, convergence_exhaustion_reason, convergence_exhaustion_reason-none,
}

abbrev attempt_with : String → Attempt
attempt_with summary = record {
  id = "ATT";
  revision = 2;
  run_id = "RUN-1";
  execution_id = none;
  work_unit_id = "WU-1";
  worker_lease_id = "LEASE-1";
  epoch = 1;
  started_at = 0;
  ended_at = some 5;
  duration_ms = some 0;
  cost = 0;
  total_tokens = 0;
  report = "";
  step = "review";
  status = "failed";
  summary = summary;
}

convergence_exhaustion_reason-none_example :
    (convergence_exhaustion_reason (attempt_with "a" ∷ attempt_with "b" ∷ []) "review" 3 2 ≡ none)
    ↔ MayRetry (attempt_with "a" ∷ attempt_with "b" ∷ []) "review" 3 2
convergence_exhaustion_reason-none_example =
    convergence_exhaustion_reason-none (attempt_with "a" ∷ attempt_with "b" ∷ []) "review" 3 2
