-- ===== src/Documents.antt =====
-- The governed documents under .ai-team/, with the fields that the modelled code reads or writes.
-- A text field that the YAML may lack is the empty text where the code only compares it or asks
-- whether it is truthy; a time is a number of microseconds, and `none` one that is absent.
pub mod Store
use governed_ai_dev_team_fra.Common.{ℕ, String, Bool, Option, List, elem}
use governed_ai_dev_team_fra.Common.Dict.{Dict}

-- The field `revision`: absent, an integer, or something else.
pub data Revision : Type 0 where
  absent : Revision
  integer : ℕ → Revision
  malformed : Revision

pub record RequiredVerification : Type 0 where
  pub review : Bool
  pub audit : Bool
  pub human_acceptance : Bool

pub record Outcomes : Type 0 where
  pub review_status : String
  pub audit_status : String
  pub human_acceptance : String
  pub critical_open_items : List String

pub record WorkUnit : Type 0 where
  pub id : String
  pub status : String
  pub revision : Revision
  pub evidence : List String
  pub required_verification : RequiredVerification
  pub outcomes : Outcomes
  pub design_mode : String  -- design_binding.design_mode, or else design_binding.mode
  pub risk_class : String
  pub risk_reasons : List String
  pub area : String  -- zone.area
  pub dependencies : List String
  pub updated_at : Option ℕ

-- The entries of `leases_by_work_unit`.
pub record LeaseRef : Type 0 where
  pub lease_id : String
  pub epoch : ℕ

pub record Lease : Type 0 where
  pub id : String
  pub run_id : String
  pub work_unit_id : String
  pub worker_id : String
  pub epoch : ℕ
  pub status : String
  pub heartbeat_at : Option ℕ
  pub stalled_after_minutes : ℕ
  pub superseded_by : Option String
  pub released_at : Option ℕ
  pub release_reason : String

-- An execution ceiling: a state for each dimension.
abbrev pub Ceiling : Type 0
Ceiling = Dict String

pub record Run : Type 0 where
  pub id : String
  pub status : String
  pub revision : Revision
  pub autonomy_preset : String
  pub work_unit_ids : List String
  pub leases_by_work_unit : Dict LeaseRef
  pub maximum_parallel_workers : Option ℕ
  pub maximum_attempts_per_step : Option ℕ
  pub maximum_remediation_cycles : Option ℕ
  pub run_authorization_grant_id : String
  pub integration_branch : Option String
  pub maximum_risk_class : String  -- of effective_autonomy_policy.eligibility; "" if absent
  pub execution_ceilings_by_work_unit : Dict Ceiling
  pub stop_condition : Option String
  pub created_at : Option ℕ
  pub closed_at : Option ℕ
  pub updated_at : Option ℕ

-- A record of runs/escalations.
pub record Escalation : Type 0 where
  pub run_id : String
  pub work_unit_id : String
  pub dimension : String
  pub previous_state : String
  pub new_state : String
  pub reason : String
  pub escalated_at : ℕ

-- A record of events/.
pub record Event : Type 0 where
  pub event_type : String
  pub subject : String
  pub requires_human : Bool

-- A record of runs/execution-attempts. `report` stands for the fields that are copied from the
-- payload and not read again; a missing summary is the empty text.
pub record Attempt : Type 0 where
  pub id : String
  pub revision : ℕ
  pub run_id : String
  pub execution_id : Option String
  pub work_unit_id : String
  pub worker_lease_id : String
  pub epoch : ℕ
  pub step : String
  pub status : String
  pub started_at : ℕ
  pub ended_at : Option ℕ
  pub duration_ms : Option ℕ
  pub summary : String
  pub cost : ℕ
  pub total_tokens : ℕ
  pub report : String

-- A record of runs/checkpoints.
pub record Checkpoint : Type 0 where
  pub work_unit_id : String
  pub run_id : String
  pub worker_lease_id : String
  pub epoch : ℕ
  pub report : String
  pub updated_at : ℕ

-- A record of runs/integration-merges.
pub record IntegrationMerge : Type 0 where
  pub id : String
  pub run_id : String
  pub work_unit_id : String
  pub worker_lease_id : String
  pub epoch : ℕ
  pub integration_branch : String
  pub conflict_resolution_attempts : ℕ
  pub revalidation_evidence : List String
  pub merged_at : ℕ

-- A record of run-authorization-grants. Spend is a whole number of the smallest unit.
pub record Grant : Type 0 where
  pub spend_used : ℕ
  pub tokens_used : ℕ
  pub maximum_spend : Option ℕ
  pub maximum_tokens : Option ℕ
  pub uses_count : ℕ
  pub maximum_uses : Option ℕ
  pub revoked_at : Option ℕ
  pub expires_at : Option ℕ
  pub excluded_actions : List String
  pub allowed_areas : Option (List String)
  pub allowed_commands : List String
  pub allowed_environments : List String
  pub work_unit_ids : List String
  pub maximum_duration_hours : Option ℕ
