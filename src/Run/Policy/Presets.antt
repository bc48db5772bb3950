-- ===== src/Run/Policy/Presets.antt =====
-- core/domain/run/autonomy_policy.py: the tables, and the policy of each preset.
use governed_ai_dev_team_fra.Common.{
  ℕ, String, Bool, true, false, ◌||◌, List, [], ◌∷◌, string_eq, nat_eq, option_eq, ◌==◌,
  if◌then◌else◌,
}
use governed_ai_dev_team_fra.Documents.{Ceiling}
use governed_ai_dev_team_fra.Run.Ceiling.{default_execution_ceiling}
use governed_ai_dev_team_fra.Run.Policy.Values.{
  Json, Fields, bool, num, text, array, object, no_fields, field, texts,
}

-- HARD_MAX_TIMEOUT_SECONDS and DEFAULT_UNKNOWN_STEP_TIMEOUT_SECONDS
abbrev pub hard_max_timeout_seconds : ℕ
hard_max_timeout_seconds = 7200

abbrev pub default_unknown_step_timeout_seconds : ℕ
default_unknown_step_timeout_seconds = 600

-- A dict that is written out
abbrev pub dict : List (String × Json) → Fields
dict [] = no_fields
dict ((key, v) ∷ rest) = field key v (dict rest)

abbrev pub ceiling_object : Ceiling → Fields
ceiling_object [] = no_fields
ceiling_object ((dimension, state) ∷ rest) = field dimension (text state) (ceiling_object rest)

-- DEFAULT_TIMEOUTS_SECONDS_BY_STEP
abbrev pub default_timeouts_seconds_by_step : Fields
default_timeouts_seconds_by_step = dict (
    ("sandbox_implementation", num 5400)
    ∷ ("remediation", num 3600)
    ∷ ("verification", num 1800)
    ∷ ("review", num 1200)
    ∷ ("security_review", num 1200)
    ∷ ("audit", num 1200)
    ∷ ("integration_review", num 1800)
    ∷ [])

-- _WINDOWS
abbrev pub window_hours : String → ℕ
window_hours preset =
    if preset == "unattended_conservative"
    then 8
    else if preset == "unattended_extended"
    then 10
    else 12

abbrev pub is_widest : String → Bool
is_widest preset = preset == "unattended_maximal" || preset == "custom"

abbrev pub by_width : String → String → String → String → String
by_width preset widest extended narrow =
    if is_widest preset
    then widest
    else if preset == "unattended_extended"
    then extended
    else narrow

abbrev pub challengers : String → List String
challengers preset =
    if is_widest preset || preset == "unattended_extended"
    then "requirements-challenger" ∷ []
    else []

-- The policy of a preset, before overrides
unfoldable pub base_policy : String → ℕ → ℕ → ℕ → Fields
base_policy preset parallel_workers attempts_per_step remediation_cycles = dict (
    (
      "autonomy",
      object (
          dict (
            ("preset", text preset) ∷ ("unattended_window_hours", num (window_hours preset)) ∷ [])),
    )
    ∷ (
      "eligibility",
      object (
          dict (
            ("maximum_risk_class", text "critical")
            ∷ (
              "risk_reclassification",
              object (
                  dict (
                    ("escalation", text "automatic_immediate")
                    ∷ ("de_escalation", text "requires_human_validation")
                    ∷ [])),
            )
            ∷ [])),
    )
    ∷ (
      "decision_menu",
      object (
          dict (
            ("ref", text "decision-menu.yaml")
            ∷ (
              "coverage_required",
              text (
                  by_width preset "exhaustive_for_anticipated_forks"
                    "substantial_for_anticipated_forks" "bounded_for_anticipated_forks"),
            )
            ∷ ("unmatched_or_unvalidated_fork_behavior", text "block_dependent_subgraph")
            ∷ ("resolution_mode", text "agent_proposes_core_validates")
            ∷ [])),
    )
    ∷ ("execution_ceiling_default", object (ceiling_object default_execution_ceiling))
    ∷ (
      "decisions",
      object (
          dict (
            ("reversible_technical_choices", text "delegated")
            ∷ ("shared_contract_changes", text "bounded")
            ∷ ("product_decisions", text "human_only")
            ∷ ("constitution_changes", text "human_only")
            ∷ ("production_actions", text "human_only")
            ∷ ("ambiguity", text "block_dependent_subgraph")
            ∷ [])),
    )
    ∷ (
      "roles",
      object (
          dict (
            (
              "agents",
              object (
                  dict (
                    (
                      "force",
                      array (
                          texts (
                            "security-reviewer" ∷ "auditor" ∷ "mandate-matcher"
                            ∷ "integration-steward" ∷ [])),
                    )
                    ∷ ("force_pre_g1", array (texts (challengers preset)))
                    ∷ [])),
            )
            ∷ (
              "core_components",
              object (dict (("force", array (texts ("run-reliability-controller" ∷ []))) ∷ [])),
            )
            ∷ [])),
    )
    ∷ (
      "execution",
      object (
          dict (
            ("maximum_parallel_workers", num parallel_workers)
            ∷ ("maximum_parallel_critical_wu", num 1)
            ∷ ("heartbeat_seconds", num 60)
            ∷ ("stalled_after_minutes", num 15)
            ∷ ("maximum_attempts_per_step", num attempts_per_step)
            ∷ ("maximum_remediation_cycles", num remediation_cycles)
            ∷ ("worker_lease_fencing", text "required")
            ∷ ("timeouts_seconds_by_step", object default_timeouts_seconds_by_step)
            ∷ ("default_timeout_seconds", num default_unknown_step_timeout_seconds)
            ∷ [])),
    )
    ∷ ("preflight", object (dict (("forbid_manual_confirmation_states", bool true) ∷ [])))
    ∷ (
      "budgets",
      object (
          dict (
            ("maximum_wall_time_hours", num (window_hours preset))
            ∷ ("maximum_changed_files_per_work_unit", num 30)
            ∷ ("maximum_changed_files_per_critical_work_unit", num 10)
            ∷ ("maximum_new_dependencies", num 0)
            ∷ [])),
    )
    ∷ (
      "environments",
      object (
          dict (
            ("allowed", array (texts ("development" ∷ "test" ∷ [])))
            ∷ ("forbidden", array (texts ("staging" ∷ "production" ∷ [])))
            ∷ [])),
    )
    ∷ (
      "global_stop_conditions",
      array (
          texts (
            "budget_exhausted" ∷ "preflight_failed" ∷ "kill_switch" ∷ "authorization_violation"
            ∷ "state_corruption" ∷ "fencing_conflict" ∷ "forbidden_secret_access"
            ∷ "out_of_workspace_write" ∷ "protected_environment_target"
            ∷ "repeated_systemic_failure" ∷ "worker_isolation_unguaranteed" ∷ "no_dispatchable_work"
            ∷ "orchestrator_process_failure" ∷ "stalled_no_progress" ∷ [])),
    )
    ∷ ("global_stop_behavior", text "immediate_alert_plus_stop")
    ∷ (
      "human_feedback",
      object (
          dict (
            ("visual_checkpoints", text "non_blocking")
            ∷ ("pending_feedback_behavior", text "reconcile_before_next_affected_dispatch")
            ∷ ("continue_unaffected_work", bool true)
            ∷ ("may_reduce_execution_ceiling", bool false)
            ∷ [])),
    )
    ∷ (
      "completion",
      object (
          dict (
            (
              "target",
              text (
                  by_width preset "verified_release_candidate" "verified_integration_branch"
                    "verified_work_unit_branch"),
            )
            ∷ ("morning_report", bool true)
            ∷ [])),
    )
    ∷ [])
