-- ===== src/Gateway/Samples.antt =====
-- A workspace with a run and its grant, and the theorems of the gateway at it.
use governed_ai_dev_team_fra.Common.{
  ℕ, String, true, Option, none, some, List, [], ◌∷◌, ◌≡◌, ◌≢◌, refl, ◌⊎◌, ◌↔◌, string_eq,
}
use governed_ai_dev_team_fra.Common.Dict.{lookup}
use governed_ai_dev_team_fra.Machine
use governed_ai_dev_team_fra.Errors.{ok, err, GatewayError}
use governed_ai_dev_team_fra.Documents.{Grant}
use governed_ai_dev_team_fra.Documents.Store.{Store, Write, lease, run, event, apply_writes}
use governed_ai_dev_team_fra.Run.Status.{is_transition_allowed}
use governed_ai_dev_team_fra.Run.Leases.Samples.{night, night_run, lease_at}
use governed_ai_dev_team_fra.Run.Close.{
  CloseRun, handle_close_run, revoke_all, revoked, closed, stop_event,
}
use governed_ai_dev_team_fra.Gateway.Envelopes.{Envelope, as_sent, close_run, handle, type_of}
use governed_ai_dev_team_fra.Gateway.Grants.{
  request_of, unusable_reason, check_scope, check_limits, authorize_existing_run_command,
  authorize_run_grant,
}
use governed_ai_dev_team_fra.Gateway.Grants.Scope.{IsAdmitted, IsWithinScope, emergency_close_iff}
use governed_ai_dev_team_fra.Gateway.Grants.Opening.{
  authorize_open_run, authorize_open_run_iff, Opens, check_opening, is_area_eligible,
}
use governed_ai_dev_team_fra.Gateway.Idempotency.{
  Receipt, material_of, payload_fingerprint, find_receipt, accepted_receipt,
}
use governed_ai_dev_team_fra.Gateway.Roles.{authorize_command}
use governed_ai_dev_team_fra.Gateway.{
  Workspace, Environment, Parts, commit_writes, perform, conclude, try_command, respond,
  execute_command, execute_commands,
}
use governed_ai_dev_team_fra.Gateway.Replay.{answer, accepted_once, cached_receipt}
use governed_ai_dev_team_fra.Gateway.Gated.{execute_command-documents, run_command_needs_grant}
use governed_ai_dev_team_fra.Gateway.Interrupted.{interrupted_stop_is_refused}

abbrev the_grant : Grant
the_grant = record {
  spend_used = 0;
  tokens_used = 10;
  maximum_spend = none;
  maximum_tokens = some 100;
  uses_count = 1;
  maximum_uses = some 1;
  revoked_at = none;
  expires_at = some 90;
  excluded_actions = "RecordAcceptance" ∷ [];
  allowed_areas = none;
  allowed_commands = [];
  allowed_environments = [];
  work_unit_ids = "WU-1" ∷ "WU-2" ∷ [];
  maximum_duration_hours = some 8;
}

abbrev documents : Store
documents = record night { grants = ("GRANT-1", the_grant) ∷ [] }

-- A grant that is not used yet and lists areas
abbrev opening : Store
opening = record night {
  grants =
      ("GRANT-2", record the_grant { uses_count = 0; allowed_areas = some ("backend" ∷ []) }) ∷ [];
}

abbrev start : Workspace
start = record { documents = documents; index = []; authorizations = [] }

abbrev parts : Parts
parts = record {
  checks = record {
    conforms = λ d. true;
    lease_schema = λ d. ok tt;
    escalation_schema = λ d. ok tt;
    checkpoint_schema = λ d. ok tt;
    merge_schema = λ d. ok tt;
    attempt_schema = λ d. ok tt;
  };
  digests = record { of_key = λ key. key; of_material = λ material. type_of material.command };
}

abbrev at : ℕ → Environment
at now = record {
  now = now;
  transaction_id = "TX-1";
  client_cycle_allowed = ok tt;
  ensemble_ready = ok tt;
  lock_is_free = true;
  bundle = some (("control-plane", []) ∷ []);
}

abbrev closing : String → Option String → CloseRun
closing status condition = record {
  id = "RUN-1";
  expected_revision = 1;
  status = status;
  stop_condition = condition;
  event_id = "EVT-9";
  now = 77;
}

abbrev envelope : String → CloseRun → Envelope
envelope command_id c = record {
  command_id = command_id;
  idempotency_key = "KEY-1";
  role_id = "control-plane";
  actor = "";
  human_authorization = none;
  run_id = "";
  work_unit_id = "";
  environment = "";
  command = close_run c;
}

abbrev kill : Envelope
kill = envelope "CMD-1" (closing "stopped" (some "kill_switch"))

abbrev finish : Envelope
finish = envelope "CMD-2" (closing "completed" none)

abbrev kill_writes : List Write
kill_writes =
    lease "LEASE-2"
      (revoked (closing "stopped" (some "kill_switch")) (lease_at "LEASE-2" 2 "active"))
    ∷ run "RUN-1" (closed (closing "stopped" (some "kill_switch")) night_run)
    ∷ event "EVT-9" (stop_event (closing "stopped" (some "kill_switch")))
    ∷ []

-- The workspace between the commit and the receipt, and the one after it.
abbrev committed : Workspace
committed = record start { documents = apply_writes kill_writes documents }

abbrev kill_receipt : Receipt
kill_receipt = accepted_receipt "CMD-1" "TX-1"

abbrev killed : Workspace
killed = (conclude parts (at 80) kill committed).0

opening-authorized : authorize_open_run (λ area. area) "GRANT-2" ("WU-1" ∷ []) 80 opening ≡ ok tt
unfolding authorize_open_run check_opening unusable_reason is_area_eligible lookup
opening-authorized = refl

program : Unit {0}
unfolding perform commit_writes try_command find_receipt authorize_command authorize_run_grant
    authorize_existing_run_command lookup unusable_reason check_scope check_limits handle
    handle_close_run revoke_all is_transition_allowed Machine.is_transition_allowed
    Machine.allowed_targets
program = tt

kill-performed : perform parts (at 80) kill start ≡ ok committed
unfolding program
kill-performed = refl

kill-accepted : try_command parts (at 80) kill start ≡ ok (killed, kill_receipt)
unfolding program
kill-accepted = refl

night-stored : lookup "RUN-1" documents.runs ≡ some night_run
unfolding lookup
night-stored = refl

grant-stored : lookup "GRANT-1" documents.grants ≡ some the_grant
unfolding lookup
grant-stored = refl

nothing-cached : cached_receipt parts kill start ≡ ok none
unfolding find_receipt lookup
nothing-cached = refl

-- The same key with another envelope, after an attempt at a third.
accepted_once_example :
    execute_command parts
      (at 84)
      finish
      (execute_commands parts ((at 82, kill) ∷ (at 83, finish) ∷ []) killed)
    ≡ answer parts finish
        (execute_commands parts ((at 82, kill) ∷ (at 83, finish) ∷ []) killed)
        (record { payload_hash = payload_fingerprint parts.digests kill; receipt = kill_receipt })
accepted_once_example =
    accepted_once parts (at 80) kill start killed kill_receipt
      ((at 82, kill) ∷ (at 83, finish) ∷ []) (at 84) finish kill-accepted refl refl

-- After the expiry of the grant
run_command_needs_grant_example :
    ((execute_command parts (at 95) finish start).0 ≡ start)
    ⊎ (IsAdmitted (request_of finish) (some 0) 95 the_grant)
run_command_needs_grant_example =
    run_command_needs_grant parts (at 95) finish start night_run the_grant (λ h. cc) night-stored
      (λ h. cc) grant-stored refl

execute_command-documents_example :
    ((execute_command parts (at 80) kill start).0 ≡ start)
    ⊎ ((writes : List Write) × (authorize_command (at 80).bundle [] kill 80 documents ≡ ok tt)
        × (handle parts.checks kill.command documents ≡ ok writes)
        × ((execute_command parts (at 80) kill start).0.documents ≡ apply_writes writes documents))
execute_command-documents_example = execute_command-documents parts (at 80) kill start

-- The grant has expired.
emergency_close_iff_example :
    (authorize_run_grant kill 95 documents ≡ ok tt)
    ↔ ((unusable_reason the_grant 95 "CloseRun" ≢ none) ⊎ IsWithinScope (request_of kill) the_grant)
emergency_close_iff_example =
    emergency_close_iff kill 95 documents night_run the_grant (λ h. cc) night-stored (λ h. cc)
      grant-stored refl

-- The same command a second later, with another receipt to come and another event.
abbrev late_kill : Envelope
late_kill = record kill {
  command_id = "CMD-3";
  command =
      close_run (record (closing "stopped" (some "kill_switch")) { event_id = "EVT-10"; now = 78 });
}

kill-sent_again : material_of late_kill ≡ material_of kill
unfolding material_of as_sent
kill-sent_again = refl

interrupted_stop_is_refused_example :
    (error : GatewayError) × (execute_command parts (at 81) late_kill committed
      ≡ respond late_kill committed (err error))
interrupted_stop_is_refused_example =
    interrupted_stop_is_refused parts (at 80) (at 81) kill late_kill start committed
      (closing "stopped" (some "kill_switch")) refl refl nothing-cached kill-performed refl
      kill-sent_again

-- WU-1 and WU-2 are of the backend.
authorize_open_run_iff_example :
    (authorize_open_run (λ area. area) "GRANT-2" ("WU-1" ∷ []) 80 opening ≡ ok tt) ↔ (
      (grant : Grant) × (lookup "GRANT-2" opening.grants ≡ some grant)
      × Opens (λ area. area) ("WU-1" ∷ []) 80 opening grant)
authorize_open_run_iff_example =
    authorize_open_run_iff (λ area. area) "GRANT-2" ("WU-1" ∷ []) 80 opening
