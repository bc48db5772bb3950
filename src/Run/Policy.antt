-- ===== src/Run/Policy.antt =====
-- core/domain/run/autonomy_policy.py: the policy of an unattended run, from a preset and overrides.
-- A ValueError keeps the rule that it reports, and not its text. Numbers that are negative or not
-- whole are not modelled, and a section that is no object counts as one without entries.
pub mod Values
pub mod Merge
pub mod Presets
pub mod Invariants
pub mod Timeouts
pub mod Pinned
mod Samples
use governed_ai_dev_team_fra.Common.{
  ℕ, String, Bool, true, false, not, ◌&&◌, ◌||◌, Option, none, some, List, [], ◌∷◌, string_eq,
  nat_eq, option_eq, ◌==◌, elem, if◌then◌else◌, ltb, min, max, get_or,
}
use governed_ai_dev_team_fra.Documents.{Ceiling}
use governed_ai_dev_team_fra.Run.Status.{unattended_presets, is_unattended_preset}
use governed_ai_dev_team_fra.Run.Ceiling.{
  Violation, default_execution_ceiling, validate_execution_ceiling,
}
use governed_ai_dev_team_fra.Run.Policy.Values.{
  Json, Items, Fields, null, bool, num, text, array, object, no_items, no_fields, field, get,
  section, number_of, is_text, is_bool, lists_text, texts,
}
use governed_ai_dev_team_fra.Run.Policy.Merge.{merge}
use governed_ai_dev_team_fra.Run.Policy.Presets.{
  base_policy, hard_max_timeout_seconds, default_unknown_step_timeout_seconds,
}
use governed_ai_dev_team_fra.Run.Policy.Invariants.{
  Rule, Outcome, returned, value_error, refuse_if, validate_invariants, supported_preset,
  explicit_overrides,
}

abbrev pub is_empty : Fields → Bool
is_empty no_fields = true
is_empty (field key v rest) = false

unfoldable pub resolve_effective_policy : String → ℕ → ℕ → ℕ → Fields → Outcome Fields
resolve_effective_policy preset parallel_workers attempts_per_step remediation_cycles overrides =
    refuse_if (not (is_unattended_preset preset)) supported_preset (
      refuse_if (preset == "custom" && is_empty overrides) explicit_overrides (
        validate_invariants (
          merge (base_policy preset parallel_workers attempts_per_step remediation_cycles)
            overrides)))

-- `max(1.0, min(timeout, limit))`
abbrev pub clamp : ℕ → ℕ → ℕ
clamp limit timeout = max 1 (min timeout limit)

-- `float(raw)`; of what is no number there is none. A text that spells a number is not modelled.
abbrev pub clamped : Option ℕ → Option ℕ → Option ℕ
clamped remaining none = none
clamped none (some timeout) = some (clamp hard_max_timeout_seconds timeout)
clamped (some remaining) (some timeout) =
    some (clamp remaining (clamp hard_max_timeout_seconds timeout))

-- `by_step.get(step, execution.get("default_timeout_seconds", 600))`
abbrev pub raw_timeout : String → Fields → Json
raw_timeout step execution =
    get_or (get step (section "timeouts_seconds_by_step" execution))
      (get_or (get "default_timeout_seconds" execution) (num default_unknown_step_timeout_seconds))

unfoldable pub resolve_step_timeout_seconds : Fields → String → Option ℕ → Option ℕ
resolve_step_timeout_seconds policy step remaining =
    clamped remaining (number_of (raw_timeout step (section "execution" policy)))
