-- ===== src/Gateway/Roles.antt =====
-- core/commands/authorization.py. The roles of the active bundle, with the commands that each may
-- write, are an argument. No modelled command is one that asks for a pre-issued design authorization.
use governed_ai_dev_team_fra.Common.{
  ℕ, String, Bool, false, not, Option, none, some, get_or, List, [], ◌∷◌, ◌++◌, string_eq, elem,
}
use governed_ai_dev_team_fra.Common.Dict.{Dict, lookup}
use governed_ai_dev_team_fra.Errors.{
  Result, ok, raise, raise_if, ◌>>◌, ◌>>=◌, unsupported_contract, unauthorized, invalid_schema,
}
use governed_ai_dev_team_fra.Documents.Store.{Store}
use governed_ai_dev_team_fra.Gateway.Envelopes.{Envelope, type_of}
use governed_ai_dev_team_fra.Gateway.Grants.{authorize_run_grant}

-- SUPPLEMENTAL_ROLE_COMMANDS
abbrev pub supplemental_role_commands : Dict (List String)
supplemental_role_commands =
    (
      "control-plane",
      "ResolveDecisionRequest" ∷ "RecordGateDecision" ∷ "RecordAcceptance" ∷ "RecordHumanFeedback"
          ∷ "ReconcileHumanFeedback" ∷ "ExportFeedback" ∷ "SubmitFeedback" ∷ "OpenRun"
          ∷ "AcquireWorkerLease" ∷ "RecordExecutionAttempt" ∷ "WriteCheckpoint" ∷ "CloseRun"
          ∷ "IssueRunAuthorizationGrant" ∷ "RevokeRunAuthorizationGrant" ∷ "ResolveRunDecision"
          ∷ "TightenExecutionCeiling" ∷ "EscalateWorkUnitRisk" ∷ "RecordIntegrationMerge"
          ∷ "RecordWorkerHeartbeat" ∷ "ReleaseWorkerLease" ∷ "UpdateProjectProfile"
          ∷ "RegisterEnsemble" ∷ "RegisterMember" ∷ "PinComposition" ∷ "SetActiveEnsemble"
          ∷ "RegisterDesignArtifact" ∷ "SetDesignArtifactAuthority" ∷ "CreateDesignReferenceSet"
          ∷ "CompileDesignContract" ∷ "BindDesignToWorkUnit" ∷ "RecordVisualConformance"
          ∷ "ReconcileDesignRevision" ∷ [],
    )
    ∷ ("backend-developer", "RegisterEvidence" ∷ [])
    ∷ ("frontend-developer", "RegisterEvidence" ∷ [])
    ∷ ("qa-test", "RegisterEvidence" ∷ [])
    ∷ ("visual-qa", "RegisterEvidence" ∷ "RecordVisualConformance" ∷ [])
    ∷ (
      "product-designer",
      "RegisterDesignArtifact" ∷ "CreateDesignReferenceSet" ∷ "CompileDesignContract"
          ∷ "BindDesignToWorkUnit" ∷ [],
    )
    ∷ (
      "design-system-steward",
      "RegisterDesignArtifact" ∷ "CompileDesignContract" ∷ "RecordVisualConformance" ∷ [],
    )
    ∷ ("auditor", "RegisterFinding" ∷ "RecordMissionArtifactChallenge" ∷ [])
    ∷ ("requirements-challenger", "RecordMissionArtifactChallenge" ∷ [])
    ∷ ("mandate-matcher", "ResolveRunDecision" ∷ [])
    ∷ ("integration-steward", "RecordExecutionAttempt" ∷ "RecordIntegrationMerge" ∷ [])
    ∷ ("code-reviewer", "RegisterFinding" ∷ [])
    ∷ ("security-reviewer", "RegisterFinding" ∷ [])
    ∷ ("release-agent", "RegisterReleaseCandidate" ∷ [])
    ∷ ("product-analyst", "RegisterMissionArtifact" ∷ [])
    ∷ []

-- A bundle: the commands of each known role, authoritative and signals together.
abbrev pub Bundle : Type 0
Bundle = Dict (List String)

abbrev pub active_bundle : Option Bundle → Result Bundle
active_bundle none = raise unsupported_contract "/actor/bundle_version"
active_bundle (some bundle) = ok bundle

abbrev pub known_role : Option (List String) → Result (List String)
known_role none = raise unauthorized "/actor/role_id"
known_role (some commands) = ok commands

-- _allowed_commands_for_role
abbrev pub allowed_commands_for_role : String → List String → List String
allowed_commands_for_role role_id commands =
    commands ++ get_or (lookup role_id supplemental_role_commands) []

-- `authorizations/<id>.json`: whether it has a `consumed_at`
abbrev pub Authorizations : Type 0
Authorizations = Dict Bool

abbrev pub check_human_authorization : Authorizations → Option (Option String) → Result (Unit {0})
check_human_authorization consumed none = ok tt
check_human_authorization consumed (some none) =
    raise invalid_schema "/human_authorization/authorization_id"
check_human_authorization consumed (some (some id)) =
    raise_if (get_or (lookup id consumed) false) unauthorized
      "/human_authorization/authorization_id"

unfoldable pub authorize_command :
    Option Bundle → Authorizations → Envelope → ℕ → Store → Result (Unit {0})
authorize_command active consumed e now s = do
  bundle ← active_bundle active
  commands ← known_role (lookup e.role_id bundle)
  raise_if (not (elem (type_of e.command) (allowed_commands_for_role e.role_id commands)))
      unauthorized "/type"
  authorize_run_grant e now s
  check_human_authorization consumed e.human_authorization
