-- ===== src/Gateway.antt =====
-- core/commands/gateway.py: execute_command, for an envelope that is parsed. The checks of the kind
-- of workspace are outcomes in the argument `Environment`; a commit is the writes of the documents,
-- whose journal is the matter of Persistence. A failure that is no GatewayError answers here as
-- internal_error, where the code raises it; neither changes the workspace.
pub mod Envelopes
pub mod Grants
pub mod Idempotency
pub mod Roles
pub mod Replay
pub mod Gated
pub mod Interrupted
mod Samples
use governed_ai_dev_team_fra.Common.{
  ℕ, String, Bool, true, false, not, Option, none, some, List, [], ◌∷◌, string_eq, ◌==◌, elem,
  is_nil, if◌then◌else◌,
}
use governed_ai_dev_team_fra.Errors.{
  Result, ok, err, GatewayError, raise, raise_if, ◌>>◌, ◌>>=◌, conflict, internal_error,
  exit_code_for,
}
use governed_ai_dev_team_fra.Documents.Store.{Store, Write, apply_writes}
use governed_ai_dev_team_fra.Gateway.Envelopes.{Command, Checks, Envelope, handle, type_of}
use governed_ai_dev_team_fra.Gateway.Idempotency.{
  Digests, Index, Receipt, payload_fingerprint, find_receipt, store_receipt, accepted_receipt,
  build_rejected_receipt,
}
use governed_ai_dev_team_fra.Gateway.Roles.{Bundle, Authorizations, authorize_command}

pub record Workspace : Type 0 where
  pub documents : Store
  pub index : Index
  pub authorizations : Authorizations

-- What the code finds around it when a command arrives.
pub record Environment : Type 0 where
  pub now : ℕ
  pub transaction_id : String
  pub client_cycle_allowed : Result (Unit {0})
  pub ensemble_ready : Result (Unit {0})
  pub lock_is_free : Bool
  pub bundle : Option Bundle

-- What every command meets unchanged.
pub record Parts : Type 0 where
  pub checks : Checks
  pub digests : Digests

abbrev pub commands_without_out_of_tree : List String
commands_without_out_of_tree =
    "RegisterEnsemble" ∷ "RegisterMember" ∷ "SetActiveEnsemble" ∷ "PinComposition"
    ∷ "ApplyProfilePatch" ∷ "SetAutonomyPreset" ∷ "RecordObservation" ∷ "GenerateRetrospective"
    ∷ "ExportFeedback" ∷ "SubmitFeedback" ∷ []

-- The checks before the lock, and the lock
abbrev pub enter : Environment → Command → Result (Unit {0})
enter env c =
    env.client_cycle_allowed
    >> ((if elem (type_of c) commands_without_out_of_tree then ok tt else env.ensemble_ready)
        >> raise_if (not env.lock_is_free) conflict "/lock")

-- `transaction.commit()`: a transaction without a write is refused.
unfoldable pub commit_writes : List Write → Workspace → Result Workspace
commit_writes writes w =
    raise_if (is_nil writes) internal_error ""
    >> ok (record w { documents = apply_writes writes w.documents })

-- The steps from authorize_command to the commit
unfoldable pub perform : Parts → Environment → Envelope → Workspace → Result Workspace
perform parts env e w = do
  authorize_command env.bundle w.authorizations e env.now w.documents
  writes ← handle parts.checks e.command w.documents
  commit_writes writes w

-- Once the documents are committed, the receipt is stored under the key.
abbrev pub conclude : Parts → Environment → Envelope → Workspace → Workspace × Receipt
conclude parts env e w =
    let receipt = accepted_receipt e.command_id env.transaction_id in
    let fingerprint = payload_fingerprint parts.digests e in
    (
      record w {
        index = store_receipt parts.digests e.idempotency_key fingerprint receipt w.index;
      },
      receipt,
    )

-- What follows the search for a receipt
abbrev pub unless_cached :
    Parts → Environment → Envelope → Workspace → Option Receipt → Result (Workspace × Receipt)
unless_cached parts env e w (some receipt) = ok (w, receipt)
unless_cached parts env e w none = perform parts env e w >>= λ done. ok (conclude parts env e done)

unfoldable pub try_command :
    Parts → Environment → Envelope → Workspace → Result (Workspace × Receipt)
try_command parts env e w = do
  enter env e.command
  cached ←
      find_receipt parts.digests w.index e.idempotency_key (payload_fingerprint parts.digests e)
  unless_cached parts env e w cached

-- `return receipt, 0` and `except GatewayError`
abbrev pub respond : Envelope → Workspace → Result (Workspace × Receipt) → Workspace × Receipt × ℕ
respond e w (ok (after, receipt)) = (after, receipt, 0)
respond e w (err error) = (w, build_rejected_receipt e.command_id error, exit_code_for error.code)

unfoldable pub execute_command :
    Parts → Environment → Envelope → Workspace → Workspace × Receipt × ℕ
execute_command parts env e w = respond e w (try_command parts env e w)

-- The workspace after a sequence of commands.
unfoldable pub execute_commands : Parts → List (Environment × Envelope) → Workspace → Workspace
execute_commands parts [] w = w
execute_commands parts ((env, e) ∷ rest) w =
    execute_commands parts rest (execute_command parts env e w).0
