-- ===== src/Run/Policy/Samples.antt =====
-- Overrides of a custom preset, and the theorems at them.
use governed_ai_dev_team_fra.Common.{true, none, some, [], ◌∷◌, ◌≡◌, refl, ◌⊎◌}
use governed_ai_dev_team_fra.Common.Dict.{lookup}
use governed_ai_dev_team_fra.Run.Ceiling.{validate_execution_ceiling}
use governed_ai_dev_team_fra.Run.Policy.Values.{
  Fields, null, num, object, get, set, has_text, section,
}
use governed_ai_dev_team_fra.Run.Policy.Presets.{base_policy, dict}
use governed_ai_dev_team_fra.Run.Policy.Merge.{
  merge, merge-at, at, is_untouched, from_base, HasDistinctKeys,
}
use governed_ai_dev_team_fra.Run.Policy.Invariants.{
  returned, check_timeouts, check_environments, check_menu, check_execution, check_decisions,
  check_feedback, validate_invariants,
}
use governed_ai_dev_team_fra.Run.Policy.{resolve_effective_policy, resolve_step_timeout_seconds}
use governed_ai_dev_team_fra.Run.Policy.Timeouts.{HasTimeout, HasNullDefault}
use governed_ai_dev_team_fra.Run.Policy.Pinned.{
  IsPinned, resolve_effective_policy-IsPinned, resolved_timeout,
}

-- No default timeout, and a longer verification
abbrev overrides : Fields
overrides = dict (
    (
      "execution",
      object (
          dict (
            ("default_timeout_seconds", null)
            ∷ ("timeouts_seconds_by_step", object (dict (("verification", num 7000) ∷ [])))
            ∷ [])),
    )
    ∷ [])

abbrev base : Fields
base = base_policy "custom" 4 3 2

abbrev policy : Fields
policy = merge base overrides

program : Unit {0}
unfolding base_policy merge get set has_text validate_execution_ceiling check_timeouts
    check_environments check_menu check_execution check_decisions check_feedback validate_invariants
    resolve_effective_policy resolve_step_timeout_seconds lookup at HasDistinctKeys
program = tt

policy-resolved : resolve_effective_policy "custom" 4 3 2 overrides ≡ returned policy
unfolding program
policy-resolved = refl

overrides-HasDistinctKeys : HasDistinctKeys overrides
unfolding program
overrides-HasDistinctKeys = (refl, ((refl, (tt, (refl, ((refl, (tt, tt)), tt)))), tt))

long-verification :
    at ("execution" ∷ "timeouts_seconds_by_step" ∷ "verification" ∷ []) (some (object overrides))
    ≡ some (num 7000)
unfolding program
long-verification = refl

verification_timeout : resolve_step_timeout_seconds policy "verification" (some 300) ≡ some 300
unfolding program
verification_timeout = refl

planning_timeout : resolve_step_timeout_seconds policy "planning" none ≡ none
unfolding program
planning_timeout = refl

resolve_effective_policy-IsPinned_example : IsPinned policy
resolve_effective_policy-IsPinned_example =
    resolve_effective_policy-IsPinned "custom" 4 3 2 overrides policy policy-resolved

resolved_timeout_example :
    HasTimeout "planning" none policy
    ⊎ (HasNullDefault "planning" (section "execution" policy)
        × (resolve_step_timeout_seconds policy "planning" none ≡ none))
resolved_timeout_example =
    resolved_timeout "custom" 4 3 2 overrides policy "planning" none policy-resolved

-- The merge keeps the other timeouts.
review-untouched :
    is_untouched
      ("execution" ∷ "timeouts_seconds_by_step" ∷ "review" ∷ [])
      (some (object overrides))
    ≡ true
unfolding program is_untouched
review-untouched = refl

merge-at_example :
    at
      ("execution" ∷ "timeouts_seconds_by_step" ∷ "review" ∷ [])
      (some (object (merge base overrides)))
    ≡ at ("execution" ∷ "timeouts_seconds_by_step" ∷ "review" ∷ []) (some (object base))
merge-at_example =
    merge-at base overrides ("execution" ∷ "timeouts_seconds_by_step" ∷ "review" ∷ [])
      (at ("execution" ∷ "timeouts_seconds_by_step" ∷ "review" ∷ []) (some (object base)))
      overrides-HasDistinctKeys (from_base review-untouched)
