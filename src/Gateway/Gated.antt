-- ===== src/Gateway/Gated.antt =====
-- core/commands/gateway.py with the handlers: what a change of the workspace has passed.
use governed_ai_dev_team_fra.Common.{
  ℕ, false, not, Option, some, List, string_eq, ◌≡◌, ◌≢◌, ap, ◌∙◌, ◌⊎◌, inl, inr, elem,
}
use governed_ai_dev_team_fra.Common.Dict.{lookup}
use governed_ai_dev_team_fra.Errors.{ok, raise_if, >>=-eq-ok, >>-both, Result-cases, unauthorized}
use governed_ai_dev_team_fra.Documents.{Run, Grant}
use governed_ai_dev_team_fra.Documents.Store.{Store, Write, apply_writes}
use governed_ai_dev_team_fra.Gateway.Envelopes.{
  Envelope, handle, type_of, run_id_in, is_emergency_close,
}
use governed_ai_dev_team_fra.Gateway.Grants.{request_of, authorize_run_grant}
use governed_ai_dev_team_fra.Gateway.Grants.Scope.{IsAdmitted, authorize_run_grant_iff}
use governed_ai_dev_team_fra.Gateway.Roles.{
  Bundle, Authorizations, authorize_command, active_bundle, known_role, allowed_commands_for_role,
  check_human_authorization,
}
use governed_ai_dev_team_fra.Gateway.{Workspace, Environment, Parts, try_command, execute_command}
use governed_ai_dev_team_fra.Gateway.Replay.{perform-IsPerformed, try_command-cases}

-- The documents are the same, or the command was authorized, its handler accepted it, and the
-- documents are what the handler's writes make of them; in both cases the authorizations stay.
pub execute_command-documents :
    (parts : Parts) (env : Environment) (e : Envelope) (w : Workspace)
    → ((execute_command parts env e w).0 ≡ w)
      ⊎ ((writes : List Write) × (authorize_command env.bundle w.authorizations e env.now
              w.documents
            ≡ ok tt)
          × (handle parts.checks e.command w.documents ≡ ok writes)
          × ((execute_command parts env e w).0.documents ≡ apply_writes writes w.documents))
unfolding execute_command
execute_command-documents parts env e w = elim (Result-cases (try_command parts env e w)) [
  | inr (error, failed) ↦ inl (rw failed)
  | inl ((after, receipt), passed) ↦ elim (try_command-cases parts env e w after receipt passed) [
    | inl (same, _) ↦ inl (rw passed same)
    | inr (missed, (done, performed, concluded)) ↦
        let (writes, (permitted, handled, committed)) =
          perform-IsPerformed parts env e w done performed in
        inr (
          writes,
          permitted,
          handled,
          rw passed (ap (λ p. p.0.documents) concluded ∙ ap (λ x. x.documents) committed),
        )
  ]
]

authorize_command-role :
    (active : Option Bundle) (consumed : Authorizations) (e : Envelope) (now : ℕ) (s : Store)
    → authorize_command active consumed e now s ≡ ok tt
    → authorize_run_grant e now s ≡ ok tt
unfolding authorize_command
authorize_command-role active consumed e now s h =
    let (bundle, _, rest) = >>=-eq-ok (active_bundle active) _ h in
    let (commands, _, checked) = >>=-eq-ok (known_role (lookup e.role_id bundle)) _ rest in
    let (_, granted) =
      >>-both
        (raise_if (not (elem (type_of e.command) (allowed_commands_for_role e.role_id commands)))
          unauthorized "/type")
        _ checked in
    (>>-both (authorize_run_grant e now s)
      (check_human_authorization consumed e.human_authorization) granted).0

-- A command on a run that has its grant, unless it stops or fails the run, leaves the workspace as it
-- is unless the grant is usable, its scope takes in the command, and no limit of it is reached.
pub run_command_needs_grant :
    (parts : Parts) (env : Environment) (e : Envelope) (w : Workspace) (d : Run) (grant : Grant)
    → run_id_in e.run_id e.command ≢ ""
    → lookup (run_id_in e.run_id e.command) w.documents.runs ≡ some d
    → d.run_authorization_grant_id ≢ ""
    → lookup d.run_authorization_grant_id w.documents.grants ≡ some grant
    → is_emergency_close e.command ≡ false
    → ((execute_command parts env e w).0 ≡ w)
      ⊎ (IsAdmitted (request_of e) d.created_at env.now grant)
run_command_needs_grant parts env e w d grant named found bound granted calm =
    elim (execute_command-documents parts env e w) [
      | inl same ↦ inl same
      | inr (writes, permitted, handled, written) ↦ inr (
          (authorize_run_grant_iff e env.now w.documents d grant named found bound granted calm).0
            (authorize_command-role env.bundle w.authorizations e env.now w.documents permitted))
    ]
