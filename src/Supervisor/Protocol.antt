-- ===== src/Supervisor/Protocol.antt =====
-- core/supervisor/protocol.py: the life of a worker attempt. A state is its text value.
use governed_ai_dev_team_fra.Common.{
  String, Bool, true, false, List, [], ◌∷◌, ◌≡◌, refl, elem, string_eq, ◌==◌, arith, eq_iff,
  if◌then◌else◌, ◌↔◌, all-elem, is_nil,
}
use governed_ai_dev_team_fra.Machine
use governed_ai_dev_team_fra.Machine.{Table}

abbrev pub terminal_states : List String
terminal_states = "succeeded" ∷ "failed" ∷ "timed_out" ∷ "cancelled" ∷ "orphaned" ∷ []

unfoldable pub is_terminal : String → Bool
is_terminal state = elem state terminal_states

abbrev pub allowed : Table
allowed =
    ("queued", "leased" ∷ "cancelled" ∷ [])
    ∷ ("leased", "starting" ∷ "cancelled" ∷ "orphaned" ∷ [])
    ∷ ("starting", "running" ∷ "failed" ∷ "timed_out" ∷ "cancelled" ∷ "orphaned" ∷ [])
    ∷ ("running", "succeeded" ∷ "failed" ∷ "timed_out" ∷ "cancelled" ∷ "orphaned" ∷ [])
    ∷ []

unfoldable pub can_transition : String → String → Bool
can_transition current next =
    if current == next then true else Machine.is_transition_allowed allowed current next

terminal-stuck :
    (a b : String) → is_terminal a ≡ true → Machine.is_transition_allowed allowed a b ≡ false
unfolding is_terminal Machine.allowed_targets
terminal-stuck a b t =
    Machine.stuck_of_nil allowed a b
      (all-elem (λ s. is_nil (Machine.allowed_targets allowed s)) a terminal_states refl t)

-- An attempt that has ended keeps its state.
can_transition-terminal :
    (a b : String) → is_terminal a ≡ true → (can_transition a b ≡ true) ↔ (a ≡ b)
unfolding can_transition
can_transition-terminal a b t =
    (λ m. ground (arith, terminal-stuck a b t, eq_iff a b), λ e. ground (arith, eq_iff a b))
