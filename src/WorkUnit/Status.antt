-- ===== src/WorkUnit/Status.antt =====
-- core/domain/work_unit/state_machine.py
use governed_ai_dev_team_fra.Common.{
  String, Bool, true, false, ◌||◌, some, List, [], ◌∷◌, ◌≡◌, refl, elem, string_eq, ◌==◌, arith,
  eq_iff, ◌⊎◌, inl, inr, Bool-cases,
}
use governed_ai_dev_team_fra.Common.Dict.{keys}
use governed_ai_dev_team_fra.Machine
use governed_ai_dev_team_fra.Machine.{Table, holds_on, holds_on-allowed}
use governed_ai_dev_team_fra.Machine.Passage.{follow, follow-passes, Reach, Reach-invariant}

abbrev pub normative_transitions : Table
normative_transitions =
    ("draft", "ready" ∷ "cancelled" ∷ [])
    ∷ ("ready", "in_progress" ∷ "cancelled" ∷ [])
    ∷ ("in_progress", "verification" ∷ "waiting_decision" ∷ "blocked" ∷ "ready" ∷ "cancelled" ∷ [])
    ∷ ("waiting_decision", "in_progress" ∷ "blocked" ∷ "cancelled" ∷ [])
    ∷ ("blocked", "in_progress" ∷ "ready" ∷ "cancelled" ∷ [])
    ∷ (
      "verification",
      "review" ∷ "in_progress" ∷ "remediation_required" ∷ "done" ∷ "cancelled" ∷ [],
    )
    ∷ ("review", "audit" ∷ "verification" ∷ "remediation_required" ∷ "done" ∷ "cancelled" ∷ [])
    ∷ ("audit", "human_test" ∷ "verification" ∷ "remediation_required" ∷ "done" ∷ "cancelled" ∷ [])
    ∷ ("human_test", "done" ∷ "remediation_required" ∷ "verification" ∷ "cancelled" ∷ [])
    ∷ ("remediation_required", "in_progress" ∷ "blocked" ∷ "verification" ∷ "cancelled" ∷ [])
    ∷ ("done", [])
    ∷ ("cancelled", [])
    ∷ []

unfoldable pub is_transition_allowed : String → String → Bool
is_transition_allowed from_status to_status =
    Machine.is_transition_allowed normative_transitions from_status to_status

-- ALL_STATUSES
abbrev pub all_statuses : List String
all_statuses = keys normative_transitions

is_terminal : String → Bool
is_terminal status = status == "done" || status == "cancelled"

-- The statuses in which no implementation has been verified yet.
unverified : String → Bool
unverified status =
    elem status
      ("draft" ∷ "ready" ∷ "in_progress" ∷ "waiting_decision" ∷ "blocked" ∷ "cancelled" ∷ [])

unstarted : String → Bool
unstarted status = elem status ("draft" ∷ "ready" ∷ "cancelled" ∷ [])

-- Every sequence of permitted transitions from `draft` to `done` passes `in_progress` and
-- `verification`: no Work Unit is done without having been started and verified.
pub done_passes_gates :
    (path : List String)
    → follow normative_transitions "draft" path ≡ some "done"
    → (elem "in_progress" path ≡ true) × (elem "verification" path ≡ true)
unfolding unverified unstarted
done_passes_gates path f = (
  follow-passes normative_transitions unstarted "in_progress" refl "draft" "done" path refl refl f,
  follow-passes normative_transitions unverified "verification" refl "draft" "done" path refl refl
      f,
)

may_cancel : String → Bool
may_cancel status = is_terminal status || is_transition_allowed status "cancelled"

reachable-may_cancel :
    (status : String) → Reach normative_transitions "draft" status → may_cancel status ≡ true
unfolding may_cancel is_terminal is_transition_allowed Machine.is_transition_allowed
reachable-may_cancel status = Reach-invariant normative_transitions may_cancel refl refl

terminal-stuck :
    (status to_status : String)
    → is_terminal status ≡ true
    → is_transition_allowed status to_status ≡ false
unfolding is_terminal is_transition_allowed Machine.is_transition_allowed
terminal-stuck status to_status t = elim (Bool-cases (status == "done")) [
  | inl done ↦ rw ((eq_iff status "done").0 done)
  | inr other ↦ rw ((eq_iff status "cancelled").0 (ground arith))
]

-- Whatever permitted transitions a Work Unit has made since `draft`, it either may be cancelled
-- now, or is done or cancelled, and then no transition is permitted any more.
reachable_may_cancel :
    (status : String)
    → Reach normative_transitions "draft" status
    → (is_transition_allowed status "cancelled" ≡ true)
      ⊎ ((to_status : String) → is_transition_allowed status to_status ≡ false)
unfolding may_cancel
reachable_may_cancel status r = elim (Bool-cases (is_transition_allowed status "cancelled")) [
  | inl permitted ↦ inl permitted
  | inr stuck ↦
      inr (λ to_status.
        terminal-stuck status to_status (ground (arith, reachable-may_cancel status r)))
]
