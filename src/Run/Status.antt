-- ===== src/Run/Status.antt =====
-- core/domain/run/state_machine.py, and the presets of core/domain/run/autonomy_policy.py
use governed_ai_dev_team_fra.Common.{String, Bool, List, [], ◌∷◌, elem, string_eq}
use governed_ai_dev_team_fra.Machine
use governed_ai_dev_team_fra.Machine.{Table}

abbrev pub normative_transitions : Table
normative_transitions =
    ("pending", "active" ∷ "stopped" ∷ [])
    ∷ ("active", "completed" ∷ "stopped" ∷ "failed" ∷ [])
    ∷ ("completed", [])
    ∷ ("stopped", [])
    ∷ ("failed", [])
    ∷ []

unfoldable pub is_transition_allowed : String → String → Bool
is_transition_allowed from_status to_status =
    Machine.is_transition_allowed normative_transitions from_status to_status

abbrev pub unattended_presets : List String
unattended_presets =
    "unattended_conservative" ∷ "unattended_extended" ∷ "unattended_maximal" ∷ "custom" ∷ []

abbrev pub is_unattended_preset : String → Bool
is_unattended_preset value = elem value unattended_presets
