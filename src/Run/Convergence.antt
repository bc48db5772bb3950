-- ===== src/Run/Convergence.antt =====
-- core/domain/run/convergence.py: the bounds on attempts of a step.
mod Samples
use governed_ai_dev_team_fra.Common.{
  ℕ, zero, suc, ◌≤◌, ◌<◌, ◌+◌, String, Bool, true, false, not, ◌&&◌, ◌||◌, Option, none, some, List,
  [], ◌∷◌, ◌≡◌, refl, Bool-cases, Option-cases, inl, inr, ◌⊎◌, string_eq, ◌==◌, arith, eq_iff, elem,
  leb, length, if◌then◌else◌, select, ◌++◌, ◌↔◌, ap,
}
use governed_ai_dev_team_fra.Documents.{Attempt}

pub data Reason : Type 0 where
  identical_failure_repeated remediation_cycles_exhausted step_attempts_exhausted : Reason

abbrev pub non_success_statuses : List String
non_success_statuses = "failed" ∷ "blocked" ∷ "cancelled" ∷ "timed_out" ∷ []

unfoldable pub attempts_for_step : List Attempt → String → String → List Attempt
attempts_for_step attempts work_unit_id step =
    select (λ attempt. attempt.work_unit_id == work_unit_id && attempt.step == step) attempts

abbrev pub is_failed : Attempt → Bool
is_failed attempt = elem attempt.status non_success_statuses && not (attempt.summary == "")

-- Whether the last two attempts of a list have one summary
abbrev pub last_two_same : List Attempt → Bool
last_two_same [] = false
last_two_same (a ∷ []) = false
last_two_same (a ∷ b ∷ []) = a.summary == b.summary
last_two_same (a ∷ b ∷ c ∷ rest) = last_two_same (b ∷ c ∷ rest)

unfoldable pub repeated_identical_failure : List Attempt → Bool
repeated_identical_failure attempts = last_two_same (select is_failed attempts)

unfoldable pub convergence_exhaustion_reason : List Attempt → String → ℕ → ℕ → Option Reason
convergence_exhaustion_reason step_attempts step maximum_attempts_per_step
      maximum_remediation_cycles =
    if repeated_identical_failure step_attempts
    then some identical_failure_repeated
    else if step == "remediation" && leb maximum_remediation_cycles (length step_attempts)
    then some remediation_cycles_exhausted
    else if leb maximum_attempts_per_step (length step_attempts)
    then some step_attempts_exhausted
    else none

-- The list ends in two attempts with one summary.
abbrev pub EndsAlike : List Attempt → Type 0
EndsAlike attempts =
    (before : List Attempt) × (a : Attempt) × (b : Attempt) × (attempts ≡ before ++ a ∷ b ∷ [])
    × (a.summary ≡ b.summary)

last_two_same-EndsAlike : (xs : List Attempt) → last_two_same xs ≡ true → EndsAlike xs
last_two_same-EndsAlike [] h = cc
last_two_same-EndsAlike (a ∷ []) h = cc
last_two_same-EndsAlike (a ∷ b ∷ []) h = ([], a, b, refl, (eq_iff a.summary b.summary).0 h)
last_two_same-EndsAlike (a ∷ b ∷ c ∷ rest) h =
    let (before, x, y, e, same) = last_two_same-EndsAlike (b ∷ c ∷ rest) h in
    (a ∷ before, x, y, ap (λ l. a ∷ l) e, same)

ends_alike_lem :
    (before : List Attempt) (a b : Attempt)
    → a.summary ≡ b.summary
    → last_two_same (before ++ a ∷ b ∷ []) ≡ true
ends_alike_lem [] a b same = (eq_iff a.summary b.summary).1 same
ends_alike_lem (x ∷ []) a b same = (eq_iff a.summary b.summary).1 same
ends_alike_lem (x ∷ y ∷ []) a b same = (eq_iff a.summary b.summary).1 same
ends_alike_lem (x ∷ y ∷ z ∷ before) a b same = ends_alike_lem (y ∷ z ∷ before) a b same

-- What another attempt of a step asks for.
pub record MayRetry (attempts : List Attempt) (step : String) (most cycles : ℕ) : Type 0 where
  pub unlike : ¬ EndsAlike (select is_failed attempts)
  pub below : length attempts < most
  pub remediable : step ≡ "remediation" → length attempts < cycles

-- Another attempt is allowed exactly if the failures with a summary do not end in two with the
-- same one, there were fewer attempts than the maximum of a step, and, for the remediation step,
-- fewer than the maximum of remediation cycles.
pub convergence_exhaustion_reason-none :
    (attempts : List Attempt) (step : String) (most cycles : ℕ)
    → (convergence_exhaustion_reason attempts step most cycles ≡ none)
      ↔ MayRetry attempts step most cycles
unfolding convergence_exhaustion_reason repeated_identical_failure
convergence_exhaustion_reason-none attempts step most cycles = (
  λ h. record {
    unlike = λ (before, a, b, e, same).
        let alike : last_two_same (select is_failed attempts) ≡ true =
          rw e (ends_alike_lem before a b same) in
        ground arith;
    below = ground arith;
    remediable = λ name. ground (arith, eq_iff step "remediation");
  },
  λ m. elim (Bool-cases (last_two_same (select is_failed attempts))) [
    | inl alike ↦ elim (m.unlike (last_two_same-EndsAlike (select is_failed attempts) alike)) [ ]
    | inr unlike ↦ ground (arith, m.below, m.remediable, eq_iff step "remediation")
  ],
)
