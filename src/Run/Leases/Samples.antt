-- ===== src/Run/Leases/Samples.antt =====
-- A run with a superseded lease and an active one, and the theorems at it.
use governed_ai_dev_team_fra.Common.{
  ℕ, String, true, false, none, some, List, [], ◌∷◌, ◌≡◌, refl, string_eq, nat_eq, arith, eq_iff,
}
use governed_ai_dev_team_fra.Common.Dict.{lookup, put, remove}
use governed_ai_dev_team_fra.Errors.{Result, GatewayError, ok, err}
use governed_ai_dev_team_fra.Documents.{WorkUnit, Run, Lease, integer}
use governed_ai_dev_team_fra.Documents.Store.{Store, Write, lease, run}
use governed_ai_dev_team_fra.Run.Fencing.{
  current_lease, is_epoch_current, next_epoch, active_worker_count,
}
use governed_ai_dev_team_fra.Run.Leases.{
  LeaseCommand, acquire, heartbeat, release, make_room, lease_is_fresh, handle_acquire_worker_lease,
  handle_record_worker_heartbeat, handle_release_worker_lease, handle_lease_command,
  run_lease_commands,
}
use governed_ai_dev_team_fra.Run.Leases.Held.{IsLeased, is_holder, has_ended}
use governed_ai_dev_team_fra.Run.Leases.Fenced.{run_lease_commands-IsLeased, ended_lease_fenced}
use governed_ai_dev_team_fra.Run.Leases.Bounds.{
  IsWithinMaximum, HasOneCritical, run_lease_commands-IsWithinMaximum,
  run_lease_commands-HasOneCritical,
}

program : Unit {0}
unfolding lookup put remove current_lease is_epoch_current next_epoch active_worker_count make_room
    lease_is_fresh handle_acquire_worker_lease handle_record_worker_heartbeat
    handle_release_worker_lease handle_lease_command run_lease_commands has_ended
program = tt

abbrev pub accept_all : Lease → Result (Unit {0})
accept_all l = ok tt

abbrev pub unit_of : String → String → WorkUnit
unit_of id risk_class = record {
  id = id;
  status = "in_progress";
  revision = integer 1;
  evidence = [];
  required_verification = record { review = true; audit = false; human_acceptance = false };
  outcomes = record {
    review_status = "";
    audit_status = "";
    human_acceptance = "";
    critical_open_items = [];
  };
  design_mode = "";
  risk_class = risk_class;
  risk_reasons = [];
  area = "backend";
  dependencies = [];
  updated_at = none;
}

abbrev pub lease_at : String → ℕ → String → Lease
lease_at id epoch status = record {
  id = id;
  run_id = "RUN-1";
  work_unit_id = "WU-1";
  worker_id = "W";
  epoch = epoch;
  status = status;
  heartbeat_at = some 0;
  stalled_after_minutes = 15;
  superseded_by = none;
  released_at = none;
  release_reason = "";
}

abbrev pub night_run : Run
night_run = record {
  id = "RUN-1";
  status = "active";
  revision = integer 1;
  autonomy_preset = "unattended_conservative";
  work_unit_ids = "WU-1" ∷ "WU-2" ∷ [];
  leases_by_work_unit = ("WU-1", record { lease_id = "LEASE-2"; epoch = 2 }) ∷ [];
  maximum_parallel_workers = some 2;
  maximum_attempts_per_step = none;
  maximum_remediation_cycles = none;
  run_authorization_grant_id = "GRANT-1";
  integration_branch = some "integration/RUN-1";
  maximum_risk_class = "critical";
  execution_ceilings_by_work_unit = [];
  stop_condition = none;
  created_at = some 0;
  closed_at = none;
  updated_at = none;
}

abbrev pub night : Store
night = record {
  work_units = ("WU-1", unit_of "WU-1" "critical") ∷ ("WU-2", unit_of "WU-2" "low") ∷ [];
  runs = ("RUN-1", night_run) ∷ [];
  leases =
      ("LEASE-1", lease_at "LEASE-1" 1 "superseded")
      ∷ ("LEASE-2", lease_at "LEASE-2" 2 "active")
      ∷ [];
  escalations = [];
  events = [];
  attempts = [];
  checkpoints = [];
  merges = [];
  grants = [];
}

-- WU-2 is staffed, the stale lease of WU-1 is superseded, and the new one is released.
abbrev take_free : LeaseCommand
take_free = acquire (record {
  id = "LEASE-3";
  run_id = "RUN-1";
  work_unit_id = "WU-2";
  worker_id = "W2";
  stalled_after_minutes = none;
  now = 1000;
})

abbrev take_over : LeaseCommand
take_over = acquire (record {
  id = "LEASE-4";
  run_id = "RUN-1";
  work_unit_id = "WU-1";
  worker_id = "W3";
  stalled_after_minutes = none;
  now = 900000000;
})

abbrev give_back : LeaseCommand
give_back = release (record {
  id = "LEASE-4";
  run_id = "RUN-1";
  work_unit_id = "WU-1";
  epoch = 3;
  reason = none;
  now = 900000001;
})

abbrev pub night_commands : List LeaseCommand
night_commands = take_free ∷ take_over ∷ give_back ∷ []

abbrev late_beat : LeaseCommand
late_beat = heartbeat (record { id = "LEASE-1"; run_id = "RUN-1"; epoch = 1; now = 5 })

-- The three commands are accepted: only WU-2 is leased at the end, and LEASE-4 had epoch 3.
night-runs :
    lookup "RUN-1" (run_lease_commands accept_all night_commands night).runs
    ≡ some (record night_run {
      leases_by_work_unit = ("WU-2", record { lease_id = "LEASE-3"; epoch = 1 }) ∷ [];
      updated_at = some 900000001;
    })
unfolding program
night-runs = refl

only_entry :
    {A : Type 0} (j k : String) (v x : A) → lookup k ((j, v) ∷ []) ≡ some x → (j ≡ k) × (v ≡ x)
unfolding lookup
only_entry j k v x h = (ground (arith, eq_iff j k), ground arith)

pub night-IsLeased : IsLeased night
unfolding lookup is_holder
night-IsLeased run_id d work_unit_id ref stored held =
    let (name, document) = only_entry "RUN-1" run_id night_run d stored in
    let (unit, entry) =
      only_entry "WU-1" work_unit_id (record { lease_id = "LEASE-2"; epoch = 2 }) ref
        (rw (← document) at held) in
    rw (← name, ← unit, ← entry) refl

night-IsWithinMaximum : IsWithinMaximum night
unfolding lookup
night-IsWithinMaximum run_id d stored = ground (arith, eq_iff "RUN-1" run_id)

night-HasOneCritical : HasOneCritical night
unfolding lookup
night-HasOneCritical run_id d v w ref ref' stored hv hw crit =
    ground (arith, eq_iff "RUN-1" run_id, eq_iff "WU-1" v, eq_iff "WU-1" w)

pub lease-1-ended : has_ended (lookup "LEASE-1" night.leases) ≡ true
unfolding program
lease-1-ended = refl

-- The first command on the sample: a lease on a free Work Unit.
abbrev night_writes : List Write
night_writes =
    lease "LEASE-3" (record (lease_at "LEASE-3" 1 "active") {
      work_unit_id = "WU-2";
      worker_id = "W2";
      heartbeat_at = some 1000;
    })
    ∷ run "RUN-1" (record night_run {
      leases_by_work_unit =
          ("WU-1", record { lease_id = "LEASE-2"; epoch = 2 })
          ∷ ("WU-2", record { lease_id = "LEASE-3"; epoch = 1 })
          ∷ [];
      updated_at = some 1000;
    })
    ∷ []

run_lease_commands-IsLeased_example : IsLeased (run_lease_commands accept_all night_commands night)
run_lease_commands-IsLeased_example =
    run_lease_commands-IsLeased accept_all night_commands night night-IsLeased

ended_lease_fenced_example :
    (e : GatewayError) × (handle_lease_command accept_all late_beat
        (run_lease_commands accept_all night_commands night)
      ≡ err e)
ended_lease_fenced_example =
    ended_lease_fenced accept_all night_commands night late_beat lease-1-ended

run_lease_commands-IsWithinMaximum_example :
    IsWithinMaximum (run_lease_commands accept_all night_commands night)
run_lease_commands-IsWithinMaximum_example =
    run_lease_commands-IsWithinMaximum accept_all night_commands night night-IsWithinMaximum

run_lease_commands-HasOneCritical_example :
    HasOneCritical (run_lease_commands accept_all night_commands night)
run_lease_commands-HasOneCritical_example =
    run_lease_commands-HasOneCritical accept_all night_commands night night-HasOneCritical
