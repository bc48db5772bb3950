-- ===== src/Run/Writes.antt =====
-- The handlers of core/commands/handlers that write on behalf of a worker: write_checkpoint.py,
-- record_integration_merge.py, and record_execution_attempt.py in the child Attempts. A `validate`
-- stands for `validate_against_schema` at the schema of the document that is written.
pub mod Fence
pub mod Attempts
pub mod Lifecycle
pub mod History
pub mod Fenced
mod Samples
use governed_ai_dev_team_fra.Common.{
  ℕ, String, Bool, true, false, not, Option, none, some, get_or, List, [], ◌∷◌, string_eq, nat_eq,
  ◌==◌, leb,
}
use governed_ai_dev_team_fra.Common.Dict.{lookup}
use governed_ai_dev_team_fra.Errors.{
  Result, ok, err, raise, raise_if, ◌>>=◌, ◌>>◌, not_found, invariant_violation, unauthorized,
  already_exists, internal_error,
}
use governed_ai_dev_team_fra.Documents.{Run, Checkpoint, IntegrationMerge}
use governed_ai_dev_team_fra.Documents.Store.{Store, Write, checkpoint, merge}
use governed_ai_dev_team_fra.Run.Ceiling.{default_execution_ceiling}
use governed_ai_dev_team_fra.Run.Writes.Fence.{load_run, check_active, check_fence}

-- `report` stands for the fields that are copied into the document.
pub record WriteCheckpoint : Type 0 where
  pub id : String
  pub run_id : String
  pub epoch : ℕ
  pub worker_lease_id : String
  pub report : String
  pub now : ℕ

abbrev pub checkpoint_of : WriteCheckpoint → Checkpoint
checkpoint_of c = record {
  work_unit_id = c.id;
  run_id = c.run_id;
  worker_lease_id = c.worker_lease_id;
  epoch = c.epoch;
  report = c.report;
  updated_at = c.now;
}

unfoldable pub handle_write_checkpoint :
    (Checkpoint → Result (Unit {0})) → WriteCheckpoint → Store → Result (List Write)
handle_write_checkpoint validate c s = do
  run_document ← load_run (lookup c.run_id s.runs)
  check_active "" run_document
  check_fence run_document c.id c.epoch c.worker_lease_id
  validate (checkpoint_of c)
  ok (checkpoint c.id (checkpoint_of c) ∷ [])

pub record RecordIntegrationMerge : Type 0 where
  pub id : String
  pub run_id : String
  pub work_unit_id : String
  pub epoch : ℕ
  pub worker_lease_id : String
  pub conflict_resolution_attempts : ℕ
  pub revalidation_passed : Bool
  pub revalidation_evidence : List String
  pub now : ℕ

abbrev pub merge_of : String → RecordIntegrationMerge → IntegrationMerge
merge_of integration_branch c = record {
  id = c.id;
  run_id = c.run_id;
  work_unit_id = c.work_unit_id;
  worker_lease_id = c.worker_lease_id;
  epoch = c.epoch;
  integration_branch = integration_branch;
  conflict_resolution_attempts = c.conflict_resolution_attempts;
  revalidation_evidence = c.revalidation_evidence;
  merged_at = c.now;
}

abbrev pub is_present {ℓ} : {A : Type ℓ} → Option A → Bool
is_present none = false
is_present (some a) = true

-- `ceiling["integration_branch_merge"]`; `internal_error` stands for the KeyError
abbrev pub load_merge_state : Option String → Result String
load_merge_state none = raise internal_error ""
load_merge_state (some state) = ok state

-- `run_document["integration_branch"]`
abbrev pub load_branch : Option String → Result String
load_branch none = raise internal_error ""
load_branch (some branch) = ok branch

unfoldable pub handle_record_integration_merge :
    (IntegrationMerge → Result (Unit {0})) → RecordIntegrationMerge → Store → Result (List Write)
handle_record_integration_merge validate c s = do
  run_document ← load_run (lookup c.run_id s.runs)
  check_active "" run_document
  check_fence run_document c.work_unit_id c.epoch c.worker_lease_id
  raise_if (is_present (lookup c.id s.merges)) already_exists "/target/id"
  let ceiling =
      get_or (lookup c.work_unit_id run_document.execution_ceilings_by_work_unit)
        default_execution_ceiling
  state ← load_merge_state (lookup "integration_branch_merge" ceiling)
  raise_if (state == "forbidden") unauthorized "/payload/work_unit_id"
  raise_if (leb (get_or run_document.maximum_attempts_per_step 3) c.conflict_resolution_attempts)
      invariant_violation "/payload/conflict_resolution_attempts"
  raise_if (not c.revalidation_passed) invariant_violation "/payload/revalidation_passed"
  branch ← load_branch run_document.integration_branch
  validate (merge_of branch c)
  ok (merge c.id (merge_of branch c) ∷ [])
