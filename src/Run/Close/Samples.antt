-- ===== src/Run/Close/Samples.antt =====
-- A supervised run that is stopped, and the theorems at it.
use governed_ai_dev_team_fra.Common.{false, some, List, [], ◌∷◌, ◌≡◌, refl}
use governed_ai_dev_team_fra.Common.Dict.{lookup}
use governed_ai_dev_team_fra.Machine
use governed_ai_dev_team_fra.Errors.{Result, ok}
use governed_ai_dev_team_fra.Documents.{Run, LeaseRef, Checkpoint}
use governed_ai_dev_team_fra.Documents.Store.{
  Store, Write, run, lease, event, checkpoint, apply_writes,
}
use governed_ai_dev_team_fra.Run.Status.{is_transition_allowed}
use governed_ai_dev_team_fra.Run.Leases.Samples.{night, night_run, lease_at}
use governed_ai_dev_team_fra.Run.Writes.{handle_write_checkpoint, checkpoint_of}
use governed_ai_dev_team_fra.Run.Close.{
  CloseRun, handle_close_run, revoke_all, revoked, closed, stop_event,
}
use governed_ai_dev_team_fra.Run.Close.Revoked.{
  is_live, stopped_run_revokes, revoked_lease_still_writes, held_checkpoint,
}

abbrev supervised_run : Run
supervised_run = record night_run { autonomy_preset = "supervised_copilots" }

abbrev supervised : Store
supervised = record night { runs = ("RUN-1", supervised_run) ∷ [] }

abbrev kill : CloseRun
kill = record {
  id = "RUN-1";
  expected_revision = 1;
  status = "stopped";
  stop_condition = some "kill_switch";
  event_id = "EVT-9";
  now = 77;
}

abbrev kill_writes : List Write
kill_writes =
    lease "LEASE-2" (revoked kill (lease_at "LEASE-2" 2 "active"))
    ∷ run "RUN-1" (closed kill supervised_run)
    ∷ event "EVT-9" (stop_event kill)
    ∷ []

kill-accepted : handle_close_run kill supervised ≡ ok kill_writes
unfolding handle_close_run revoke_all lookup is_transition_allowed Machine.is_transition_allowed
    Machine.allowed_targets
kill-accepted = refl

supervised-stored : lookup "RUN-1" supervised.runs ≡ some supervised_run
unfolding lookup
supervised-stored = refl

abbrev held : LeaseRef
held = record { lease_id = "LEASE-2"; epoch = 2 }

supervised-held : lookup "WU-1" supervised_run.leases_by_work_unit ≡ some held
unfolding lookup
supervised-held = refl

stopped_run_revokes_example :
    is_live (lookup "LEASE-2" (apply_writes kill_writes supervised).leases) ≡ false
stopped_run_revokes_example =
    stopped_run_revokes kill supervised kill_writes supervised_run kill-accepted supervised-stored
      refl "WU-1" held supervised-held

abbrev accept_all : Checkpoint → Result (Unit {0})
accept_all d = ok tt

revoked_lease_still_writes_example :
    (is_live (lookup "LEASE-2" (apply_writes kill_writes supervised).leases) ≡ false)
    × (handle_write_checkpoint accept_all
          (held_checkpoint "RUN-1" "WU-1" held 78)
          (apply_writes kill_writes supervised)
        ≡ ok (checkpoint "WU-1" (checkpoint_of (held_checkpoint "RUN-1" "WU-1" held 78)) ∷ []))
revoked_lease_still_writes_example =
    revoked_lease_still_writes kill supervised kill_writes supervised_run kill-accepted
      supervised-stored refl accept_all "WU-1" held 78 refl supervised-held refl
