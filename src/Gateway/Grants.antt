-- ===== src/Gateway/Grants.antt =====
-- core/commands/run_authorization.py: a command on a run that exists is checked against the grant
-- that is bound to that run; with domain/run/authorization_grant.py. An expiry that is no date, and
-- an hour limit that is no whole number, are not modelled.
pub mod Scope
pub mod Opening
use governed_ai_dev_team_fra.Common.{
  ℕ, ◌+◌, ◌*◌, String, Bool, true, false, not, ◌&&◌, ◌||◌, Option, none, some, List, [], ◌∷◌,
  string_eq, ◌==◌, elem, is_nil, leb, if◌then◌else◌,
}
use governed_ai_dev_team_fra.Common.Dict.{lookup}
use governed_ai_dev_team_fra.Errors.{
  Result, ok, raise, raise_if, ◌>>◌, invariant_violation, unauthorized,
}
use governed_ai_dev_team_fra.Documents.{Run, Grant}
use governed_ai_dev_team_fra.Documents.Store.{Store}
use governed_ai_dev_team_fra.Gateway.Envelopes.{
  Envelope, type_of, run_id_in, work_unit_id_in, is_emergency_close,
}

abbrev pub protected_environments : List String
protected_environments = "staging" ∷ "production" ∷ []

abbrev pub run_scoped_commands : List String
run_scoped_commands =
    "OpenRun" ∷ "AcquireWorkerLease" ∷ "RecordExecutionAttempt" ∷ "WriteCheckpoint" ∷ "CloseRun"
    ∷ "ResolveRunDecision" ∷ "TightenExecutionCeiling" ∷ "EscalateWorkUnitRisk"
    ∷ "RecordIntegrationMerge" ∷ "RecordWorkerHeartbeat" ∷ "ReleaseWorkerLease"
    ∷ "TransitionWorkUnit" ∷ "RegisterReleaseCandidate" ∷ []

-- `bool(grant.get("revoked_at"))`
abbrev pub is_revoked : Option ℕ → Bool
is_revoked none = false
is_revoked (some revoked_at) = true

abbrev pub is_expired : Option ℕ → ℕ → Bool
is_expired none now = false
is_expired (some expires_at) now = leb expires_at now

unfoldable pub unusable_reason : Grant → ℕ → String → Option String
unusable_reason grant now command_type =
    if is_revoked grant.revoked_at
    then some "revoked"
    else if is_expired grant.expires_at now
    then some "expired"
    else if elem command_type grant.excluded_actions
    then some "excluded_action"
    else none

-- What `_authorize_existing_run_command` reads of the envelope.
pub record Request : Type 0 where
  pub command_type : String
  pub emergency_close : Bool
  pub environment : String
  pub work_unit_id : String

abbrev pub request_of : Envelope → Request
request_of e = record {
  command_type = type_of e.command;
  emergency_close = is_emergency_close e.command;
  environment = e.environment;
  work_unit_id = work_unit_id_in e.work_unit_id e.command;
}

-- `allowed_commands and command_type not in allowed_commands`
abbrev pub is_foreign_command : Request → Grant → Bool
is_foreign_command q grant =
    not (is_nil grant.allowed_commands) && not (elem q.command_type grant.allowed_commands)

abbrev pub is_foreign_environment : Request → Grant → Bool
is_foreign_environment q grant =
    not (q.environment == "")
    && (elem q.environment protected_environments
        || not (elem q.environment grant.allowed_environments))

abbrev pub is_foreign_work_unit : Request → Grant → Bool
is_foreign_work_unit q grant =
    not (q.work_unit_id == "") && not (elem q.work_unit_id grant.work_unit_ids)

unfoldable pub check_scope : Request → Grant → Result (Unit {0})
check_scope q grant =
    raise_if (is_foreign_command q grant) unauthorized "/type"
    >> (raise_if (is_foreign_environment q grant) unauthorized "/payload/environment"
        >> raise_if (is_foreign_work_unit q grant) unauthorized "/payload/work_unit_id")

-- `(now - opened).total_seconds() >= float(maximum_duration_hours) * 3600`
abbrev pub is_over_time : Option ℕ → Option ℕ → ℕ → Bool
is_over_time (some hours) (some opened_at) now = leb (opened_at + hours * 3600000000) now
is_over_time _ _ now = false

abbrev pub is_spent : Option ℕ → ℕ → Bool
is_spent none used = false
is_spent (some maximum) used = leb maximum used

-- A limit that is reached: an emergency close returns there, before the limits that follow.
abbrev pub stop_at : Request → Bool → Result (Unit {0}) → Result (Unit {0})
stop_at q true rest = if q.emergency_close then ok tt else raise unauthorized "/payload/run_id"
stop_at q false rest = rest

unfoldable pub check_limits : Request → Option ℕ → ℕ → Grant → Result (Unit {0})
check_limits q opened_at now grant =
    stop_at q (is_over_time grant.maximum_duration_hours opened_at now) (
      stop_at q (is_spent grant.maximum_spend grant.spend_used)
        (stop_at q (is_spent grant.maximum_tokens grant.tokens_used) (ok tt)))

abbrev pub check_usable : Request → Option ℕ → ℕ → Grant → Option String → Result (Unit {0})
check_usable q opened_at now grant (some reason) =
    if q.emergency_close then ok tt else raise unauthorized "/payload/run_id"
check_usable q opened_at now grant none = check_scope q grant >> check_limits q opened_at now grant

abbrev pub check_grant : Request → Option ℕ → ℕ → Option Grant → Result (Unit {0})
check_grant q opened_at now none = raise invariant_violation "/payload/run_id"
check_grant q opened_at now (some grant) =
    check_usable q opened_at now grant (unusable_reason grant now q.command_type)

abbrev pub check_run : Request → ℕ → Store → Option Run → Result (Unit {0})
check_run q now s none = ok tt
check_run q now s (some run_document) =
    raise_if (run_document.run_authorization_grant_id == "") invariant_violation "/payload/run_id"
    >> check_grant q run_document.created_at now
        (lookup run_document.run_authorization_grant_id s.grants)

-- _authorize_existing_run_command
unfoldable pub authorize_existing_run_command : Envelope → ℕ → Store → Result (Unit {0})
authorize_existing_run_command e now s =
    let run_id = run_id_in e.run_id e.command in
    if run_id == "" then ok tt else check_run (request_of e) now s (lookup run_id s.runs)

-- No modelled command is OpenRun.
unfoldable pub authorize_run_grant : Envelope → ℕ → Store → Result (Unit {0})
authorize_run_grant e now s =
    if not (elem (type_of e.command) run_scoped_commands)
    then ok tt
    else authorize_existing_run_command e now s
