-- ===== src/Run/Policy/Invariants.antt =====
-- core/domain/run/autonomy_policy.py: `_validate_invariants`.
use governed_ai_dev_team_fra.Common.{
  ℕ, Bool, true, false, not, ◌&&◌, ◌||◌, Option, none, some, [], ◌∷◌, string_eq, nat_eq, option_eq,
  ◌==◌, ltb,
}
use governed_ai_dev_team_fra.Documents.{Ceiling}
use governed_ai_dev_team_fra.Run.Ceiling.{Violation, validate_execution_ceiling}
use governed_ai_dev_team_fra.Run.Policy.Values.{
  Json, Fields, null, bool, num, text, array, object, no_items, no_fields, field, get, section,
  number_of, is_text, is_bool, lists_text,
}
use governed_ai_dev_team_fra.Run.Policy.Presets.{hard_max_timeout_seconds}

-- What a ValueError reports.
pub data Rule : Type 0 where
  supported_preset explicit_overrides environments_allowed environments_forbidden : Rule
  resolution_mode fork_behavior lease_fencing parallel_critical timeouts_object : Rule
  step_name positive_timeout hard_maximum default_timeout human_only : Rule
  ceiling : Violation → Rule
  stop_behavior visual_checkpoints pending_feedback unaffected_work reduced_ceiling : Rule

pub data Outcome {ℓ} (A : Type ℓ) : Type ℓ where
  returned : A → Outcome A
  value_error : Rule → Outcome A

-- `if bad: raise ValueError(…)`, and what follows
abbrev pub refuse_if {ℓ} : {A : Type ℓ} → Bool → Rule → Outcome A → Outcome A
refuse_if true rule rest = value_error rule
refuse_if false rule rest = rest

abbrev pub is_positive : Option ℕ → Bool
is_positive none = false
is_positive (some n) = ltb 0 n

abbrev pub is_above_maximum : Option ℕ → Bool
is_above_maximum none = false
is_above_maximum (some n) = ltb hard_max_timeout_seconds n

-- The loop over `timeouts.items()`
unfoldable pub check_timeouts : Fields → Outcome Fields → Outcome Fields
check_timeouts no_fields rest = rest
check_timeouts (field step seconds timeouts) rest = refuse_if (step == "") step_name (
    refuse_if (not (is_positive (number_of seconds))) positive_timeout (
      refuse_if (is_above_maximum (number_of seconds)) hard_maximum (check_timeouts timeouts rest)))

-- `execution.get("timeouts_seconds_by_step") or {}` that is no object
abbrev pub is_no_object : Option Json → Bool
is_no_object none = false
is_no_object (some (object d)) = false
is_no_object (some null) = false
is_no_object (some (bool b)) = b
is_no_object (some (num n)) = not (n == 0)
is_no_object (some (text s)) = not (s == "")
is_no_object (some (array no_items)) = false
is_no_object (some (array items)) = true

-- `default_timeout is not None and (… <= 0)`, negated
abbrev pub is_default_timeout : Option Json → Bool
is_default_timeout none = true
is_default_timeout (some null) = true
is_default_timeout (some seconds) = is_positive (number_of seconds)

abbrev pub is_one : Option Json → Bool
is_one none = false
is_one (some n) = number_of n == some 1

-- The entries of a ceiling; one that is no text is no state.
abbrev pub ceiling_of : Fields → Ceiling
ceiling_of no_fields = []
ceiling_of (field name (text state) rest) = (name, state) ∷ ceiling_of rest
ceiling_of (field name value rest) = (name, "") ∷ ceiling_of rest

abbrev pub refuse_ceiling : Option Violation → Outcome Fields → Outcome Fields
refuse_ceiling none rest = rest
refuse_ceiling (some violation) rest = value_error (ceiling violation)

abbrev pub allows_protected : Option Json → Bool
allows_protected allowed = lists_text "staging" allowed || lists_text "production" allowed

abbrev pub forbids_protected : Option Json → Bool
forbids_protected forbidden = lists_text "staging" forbidden && lists_text "production" forbidden

-- _validate_invariants, after which the policy is returned
unfoldable pub check_feedback : Fields → Outcome Fields → Outcome Fields
check_feedback feedback rest =
    refuse_if (not (is_text "non_blocking" (get "visual_checkpoints" feedback))) visual_checkpoints
      (refuse_if
        (not (
          is_text "reconcile_before_next_affected_dispatch"
            (get "pending_feedback_behavior" feedback)))
        pending_feedback
        (refuse_if (not (is_bool true (get "continue_unaffected_work" feedback))) unaffected_work (
          refuse_if (not (is_bool false (get "may_reduce_execution_ceiling" feedback)))
            reduced_ceiling rest)))

unfoldable pub check_decisions : Fields → Outcome Fields → Outcome Fields
check_decisions decisions rest =
    refuse_if
      (not (
        is_text "human_only" (get "product_decisions" decisions)
        && is_text "human_only" (get "constitution_changes" decisions)
        && is_text "human_only" (get "production_actions" decisions)))
      human_only rest

unfoldable pub check_execution : Fields → Outcome Fields → Outcome Fields
check_execution execution rest =
    refuse_if (not (is_text "required" (get "worker_lease_fencing" execution))) lease_fencing (
      refuse_if (not (is_one (get "maximum_parallel_critical_wu" execution))) parallel_critical (
        refuse_if (is_no_object (get "timeouts_seconds_by_step" execution)) timeouts_object (
          check_timeouts (section "timeouts_seconds_by_step" execution) (
            refuse_if (not (is_default_timeout (get "default_timeout_seconds" execution)))
              default_timeout rest))))

unfoldable pub check_environments : Fields → Outcome Fields → Outcome Fields
check_environments environments rest =
    refuse_if (allows_protected (get "allowed" environments)) environments_allowed (
      refuse_if (not (forbids_protected (get "forbidden" environments))) environments_forbidden
        rest)

unfoldable pub check_menu : Fields → Outcome Fields → Outcome Fields
check_menu menu rest =
    refuse_if (not (is_text "agent_proposes_core_validates" (get "resolution_mode" menu)))
      resolution_mode
      (refuse_if
        (not
          (is_text "block_dependent_subgraph" (get "unmatched_or_unvalidated_fork_behavior" menu)))
        fork_behavior rest)

unfoldable pub validate_invariants : Fields → Outcome Fields
validate_invariants policy = check_environments (section "environments" policy) (
    check_menu (section "decision_menu" policy) (
      check_execution (section "execution" policy) (
        refuse_ceiling
          (validate_execution_ceiling (ceiling_of (section "execution_ceiling_default" policy)))
          (check_decisions (section "decisions" policy) (
            refuse_if
              (not (is_text "immediate_alert_plus_stop" (get "global_stop_behavior" policy)))
              stop_behavior
              (check_feedback (section "human_feedback" policy) (returned policy)))))))
