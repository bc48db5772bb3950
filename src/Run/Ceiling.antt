-- ===== src/Run/Ceiling.antt =====
-- core/domain/run/execution_ceiling.py
pub mod Tighten
pub mod Monotone
mod Samples
use governed_ai_dev_team_fra.Common.{
  ℕ, ◌≤◌, String, Bool, true, false, not, ◌&&◌, ◌||◌, Option, none, some, get_or, List, [], ◌∷◌,
  ◌≡◌, ◌↔◌, refl, string_eq, ◌==◌, arith, eq_iff, elem, ltb, All, Bool-cases, inl, inr,
  if◌then◌else◌,
}
use governed_ai_dev_team_fra.Common.Dict.{Dict, lookup}
use governed_ai_dev_team_fra.Documents.{Ceiling}

abbrev pub ceiling_dimensions : List String
ceiling_dimensions =
    "analysis" ∷ "sandbox_implementation" ∷ "verification" ∷ "integration_branch_merge"
    ∷ "protected_branch_merge" ∷ "staging_deployment" ∷ "production_action" ∷ []

abbrev pub ceiling_states : List String
ceiling_states = "allowed" ∷ "conditional" ∷ "forbidden" ∷ []

abbrev pub always_forbidden_dimensions : List String
always_forbidden_dimensions =
    "protected_branch_merge" ∷ "staging_deployment" ∷ "production_action" ∷ []

abbrev pub default_execution_ceiling : Ceiling
default_execution_ceiling =
    ("analysis", "allowed")
    ∷ ("sandbox_implementation", "allowed")
    ∷ ("verification", "allowed")
    ∷ ("integration_branch_merge", "conditional")
    ∷ ("protected_branch_merge", "forbidden")
    ∷ ("staging_deployment", "forbidden")
    ∷ ("production_action", "forbidden")
    ∷ []

-- The two texts that `validate_execution_ceiling` returns
pub data Violation : Type 0 where
  unknown_state : String → Violation
  not_forbidden : String → Violation

abbrev pub is_state : Option String → Bool
is_state none = false
is_state (some state) = elem state ceiling_states

abbrev pub is_forbidden : Option String → Bool
is_forbidden none = false
is_forbidden (some state) = state == "forbidden"

-- The first dimension that fails a test
abbrev pub first_failing :
    (Option String → Bool) → (String → Violation) → Ceiling → List String → Option Violation
first_failing test violation ceiling [] = none
first_failing test violation ceiling (d ∷ ds) =
    let rest = first_failing test violation ceiling ds in
    if not (test (lookup d ceiling)) then some (violation d) else rest

abbrev pub or_else {ℓ} : {A : Type ℓ} → Option A → Option A → Option A
or_else none other = other
or_else (some a) other = some a

unfoldable pub validate_execution_ceiling : Ceiling → Option Violation
validate_execution_ceiling ceiling =
    or_else (first_failing is_state unknown_state ceiling ceiling_dimensions)
      (first_failing is_forbidden not_forbidden ceiling always_forbidden_dimensions)

abbrev pub workflow_capabilities : Dict String
workflow_capabilities =
    ("review", "verification")
    ∷ ("security_review", "verification")
    ∷ ("audit", "verification")
    ∷ ("remediation", "sandbox_implementation")
    ∷ ("integration_review", "integration_branch_merge")
    ∷ []

unfoldable pub capability_for_step : String → Option String
unfolding lookup
capability_for_step step =
    if elem step ceiling_dimensions then some step else lookup step workflow_capabilities

-- `ceiling.get(dimension, "forbidden")`
abbrev pub state_of : Ceiling → String → String
state_of ceiling dimension = get_or (lookup dimension ceiling) "forbidden"

abbrev pub permits : Ceiling → Bool → Option String → Bool × Option String
permits ceiling conditional_authorized none = (true, none)
permits ceiling conditional_authorized (some dimension) =
    let state = state_of ceiling dimension in
    (state == "allowed" || (state == "conditional" && conditional_authorized), some state)

unfoldable pub is_step_permitted : Ceiling → String → Bool → Bool × Option String
unfolding capability_for_step
is_step_permitted ceiling step conditional_authorized =
    permits ceiling conditional_authorized (capability_for_step step)

-- `_STATE_RANK.get(state, -1)`, each rank greater by one
unfoldable pub state_rank : String → ℕ
state_rank state =
    if state == "allowed"
    then 1
    else if state == "conditional"
    then 2
    else if state == "forbidden"
    then 3
    else 0

unfoldable pub can_tighten : String → String → Bool
unfolding state_rank
can_tighten current_state new_state = ltb (state_rank current_state) (state_rank new_state)

-- What a ceiling has to be, in words of its entries.
pub record IsValid (ceiling : Ceiling) : Type 0 where
  pub analysis : is_state (lookup "analysis" ceiling) ≡ true
  pub sandbox_implementation : is_state (lookup "sandbox_implementation" ceiling) ≡ true
  pub verification : is_state (lookup "verification" ceiling) ≡ true
  pub integration_branch_merge : is_state (lookup "integration_branch_merge" ceiling) ≡ true
  pub protected_branch_merge : lookup "protected_branch_merge" ceiling ≡ some "forbidden"
  pub staging_deployment : lookup "staging_deployment" ceiling ≡ some "forbidden"
  pub production_action : lookup "production_action" ceiling ≡ some "forbidden"

forbidden_lem : (o : Option String) → is_forbidden o ≡ true → o ≡ some "forbidden"
forbidden_lem none h = cc
forbidden_lem (some s) h = ground (arith, eq_iff s "forbidden")

or_else-none : (o p : Option Violation) → or_else o p ≡ none → (o ≡ none) × (p ≡ none)
or_else-none none p h = (refl, h)
or_else-none (some v) p h = cc

first_failing-none :
    (test : Option String → Bool) (violation : String → Violation) (ceiling : Ceiling)
    (ds : List String)
    → first_failing test violation ceiling ds ≡ none
    → All (λ d. test (lookup d ceiling) ≡ true) ds
first_failing-none test violation ceiling [] h = tt
first_failing-none test violation ceiling (d ∷ ds) h =
    (ground arith, first_failing-none test violation ceiling ds (ground arith))

-- The validation finds nothing exactly in a ceiling that gives each dimension one of the three
-- states, and `forbidden` to protected branches, staging and production.
pub validate_execution_ceiling-none :
    (ceiling : Ceiling) → (validate_execution_ceiling ceiling ≡ none) ↔ IsValid ceiling
unfolding validate_execution_ceiling
validate_execution_ceiling-none ceiling = (
  λ h.
      let (no_unknown, all_forbidden) =
        or_else-none (first_failing is_state unknown_state ceiling ceiling_dimensions)
          (first_failing is_forbidden not_forbidden ceiling always_forbidden_dimensions) h in
      let known = first_failing-none is_state unknown_state ceiling ceiling_dimensions no_unknown in
      let pinned =
        first_failing-none is_forbidden not_forbidden ceiling always_forbidden_dimensions
          all_forbidden in
      record {
        analysis = known.0;
        sandbox_implementation = known.1.0;
        verification = known.1.1.0;
        integration_branch_merge = known.1.1.1.0;
        protected_branch_merge = forbidden_lem (lookup "protected_branch_merge" ceiling) pinned.0;
        staging_deployment = forbidden_lem (lookup "staging_deployment" ceiling) pinned.1.0;
        production_action = forbidden_lem (lookup "production_action" ceiling) pinned.1.1.0;
      },
  λ v. ground (
    arith, v.analysis, v.sandbox_implementation, v.verification, v.integration_branch_merge,
    v.protected_branch_merge, v.staging_deployment, v.production_action,
  ),
)

-- Whatever the caller is authorized to, a validated ceiling refuses the steps that stand for
-- protected branches, staging and production.
pub always_forbidden_steps :
    (ceiling : Ceiling) (step : String) (conditional_authorized : Bool)
    → validate_execution_ceiling ceiling ≡ none
    → elem step always_forbidden_dimensions ≡ true
    → is_step_permitted ceiling step conditional_authorized ≡ (false, some "forbidden")
unfolding is_step_permitted capability_for_step
always_forbidden_steps ceiling step authorized valid named =
    let v = (validate_execution_ceiling-none ceiling).0 valid in
    elim (Bool-cases (step == "protected_branch_merge")) [
      | inl here ↦ rw ((eq_iff step "protected_branch_merge").0 here, v.protected_branch_merge) refl
      | inr not_branch ↦ elim (Bool-cases (step == "staging_deployment")) [
        | inl here ↦ rw ((eq_iff step "staging_deployment").0 here, v.staging_deployment) refl
        | inr not_staging ↦
            let here : (step == "production_action") ≡ true = ground arith in
            rw ((eq_iff step "production_action").0 here, v.production_action) refl
      ]
    ]
