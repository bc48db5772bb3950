-- ===== src/Gateway/Idempotency.antt =====
-- core/persistence/idempotency.py and core/commands/receipt.py. The objects that a receipt lists and
-- its domain events are not modelled, nor is `stored_at`.
use governed_ai_dev_team_fra.Common.{
  String, not, Option, none, some, List, [], ◌∷◌, string_eq, ◌==◌,
}
use governed_ai_dev_team_fra.Common.Dict.{Dict, lookup, put}
use governed_ai_dev_team_fra.Errors.{GatewayError, Result, ok, raise_if, ◌>>◌, idempotency_mismatch}
use governed_ai_dev_team_fra.Gateway.Envelopes.{Command, Envelope, as_sent}

pub record Receipt : Type 0 where
  pub command_id : String
  pub transaction_id : Option String
  pub status : String
  pub errors : List GatewayError

-- build_receipt for a command that is accepted
abbrev pub accepted_receipt : String → String → Receipt
accepted_receipt command_id transaction_id = record {
  command_id = command_id;
  transaction_id = some transaction_id;
  status = "accepted";
  errors = [];
}

unfoldable pub build_rejected_receipt : String → GatewayError → Receipt
build_rejected_receipt command_id error = record {
  command_id = command_id;
  transaction_id = none;
  status = "rejected";
  errors = error ∷ [];
}

-- The type, the target and the payload of an envelope are its command with the entries of the
-- payload that the command's handler does not read, without what the handler draws.
pub record Material : Type 0 where
  pub role_id : String
  pub actor : String
  pub human_authorization : Option (Option String)
  pub run_id : String
  pub work_unit_id : String
  pub environment : String
  pub command : Command

-- `hashlib.sha256` of a key, and of the JSON text of what is hashed of an envelope
pub record Digests : Type 0 where
  pub of_key : String → String
  pub of_material : Material → String

unfoldable pub material_of : Envelope → Material
unfolding as_sent
material_of e = record {
  role_id = e.role_id;
  actor = e.actor;
  human_authorization = e.human_authorization;
  run_id = e.run_id;
  work_unit_id = e.work_unit_id;
  environment = e.environment;
  command = as_sent e.command;
}

unfoldable pub payload_fingerprint : Digests → Envelope → String
unfolding material_of
payload_fingerprint digests e = digests.of_material (material_of e)

pub record IdempotencyRecord : Type 0 where
  pub payload_hash : String
  pub receipt : Receipt

-- The files of the directory, by their stems.
abbrev pub Index : Type 0
Index = Dict IdempotencyRecord

-- What IdempotencyStore.lookup does with the file, if it is one.
abbrev pub receipt_in : String → Option IdempotencyRecord → Result (Option Receipt)
receipt_in payload_hash none = ok none
receipt_in payload_hash (some entry) =
    raise_if (not (entry.payload_hash == payload_hash)) idempotency_mismatch "/idempotency_key"
    >> ok (some entry.receipt)

-- IdempotencyStore.lookup
unfoldable pub find_receipt : Digests → Index → String → String → Result (Option Receipt)
find_receipt digests index idempotency_key payload_hash =
    receipt_in payload_hash (lookup (digests.of_key idempotency_key) index)

-- IdempotencyStore.store
unfoldable pub store_receipt : Digests → String → String → Receipt → Index → Index
store_receipt digests idempotency_key payload_hash receipt index =
    put (digests.of_key idempotency_key) (record { payload_hash = payload_hash; receipt = receipt })
      index
