-- ===== src/Run/Leases.antt =====
-- The handlers of worker leases in core/commands/handlers: acquire_worker_lease.py,
-- record_worker_heartbeat.py and release_worker_lease.py. `validate` stands for
-- `validate_against_schema` at the schema of a lease document.
pub mod Step
pub mod Held
pub mod Fenced
pub mod Bounds
pub mod Samples
use governed_ai_dev_team_fra.Common.{
  ℕ, ◌+◌, ◌*◌, String, Bool, true, false, not, Option, none, some, get_or, List, [], ◌∷◌, ◌++◌,
  string_eq, nat_eq, ◌==◌, ◌&&◌, ◌||◌, elem, any, leb, ltb,
}
use governed_ai_dev_team_fra.Common.Dict.{Dict, lookup, put, remove, keys}
use governed_ai_dev_team_fra.Errors.{
  Result, ok, err, raise, raise_if, ◌>>=◌, ◌>>◌, not_found, invariant_violation, conflict,
  unauthorized, already_exists, internal_error,
}
use governed_ai_dev_team_fra.Documents.{WorkUnit, Run, Lease, LeaseRef}
use governed_ai_dev_team_fra.Documents.Store.{Store, Write, run, lease, apply_writes}
use governed_ai_dev_team_fra.Run.Status.{is_unattended_preset}
use governed_ai_dev_team_fra.Run.Fencing.{
  current_lease, is_epoch_current, next_epoch, active_worker_count,
}

pub record AcquireWorkerLease : Type 0 where
  pub id : String
  pub run_id : String
  pub work_unit_id : String
  pub worker_id : String
  pub stalled_after_minutes : Option ℕ
  pub now : ℕ

pub record RecordWorkerHeartbeat : Type 0 where
  pub id : String
  pub run_id : String
  pub epoch : ℕ
  pub now : ℕ

pub record ReleaseWorkerLease : Type 0 where
  pub id : String
  pub run_id : String
  pub work_unit_id : String
  pub epoch : ℕ
  pub reason : Option String
  pub now : ℕ

-- Microseconds
abbrev pub minutes : ℕ → ℕ
minutes n = n * 60000000

abbrev pub beats_within : ℕ → ℕ → Option ℕ → Bool
beats_within now stalled_after none = false
beats_within now stalled_after (some heartbeat) = ltb now (heartbeat + minutes stalled_after)

-- `_lease_is_fresh`; `now - heartbeat` is negative for a heartbeat in the future
unfoldable pub lease_is_fresh : Lease → ℕ → Bool
lease_is_fresh document now = beats_within now document.stalled_after_minutes document.heartbeat_at

abbrev load_run : Option Run → Result Run
load_run none = raise not_found "/payload/run_id"
load_run (some document) = ok document

abbrev pub load_lease : Option Lease → Result Lease
load_lease none = raise not_found "/target/id"
load_lease (some document) = ok document

abbrev pub is_file {ℓ} : {A : Type ℓ} → Option A → Bool
is_file none = false
is_file (some document) = true

abbrev pub is_critical : Option WorkUnit → Bool
is_critical none = false
is_critical (some work_unit) = work_unit.risk_class == "critical"

abbrev pub maximum_of : Run → ℕ
maximum_of run_document = get_or run_document.maximum_parallel_workers 4

abbrev pub any_critical : Dict WorkUnit → Dict LeaseRef → Bool
any_critical work_units refs = any (λ id. is_critical (lookup id work_units)) (keys refs)

abbrev pub superseded : String → Lease → Lease
superseded by document = record document { status = "superseded"; superseded_by = some by }

-- The source does not catch the FileNotFoundError of an absent document; `internal_error` stands
-- for it, and nothing is written either way.
abbrev pub supersede : AcquireWorkerLease → LeaseRef → Option Lease → Result (List Write)
supersede c ref none = raise internal_error ""
supersede c ref (some existing) =
    raise_if (lease_is_fresh existing c.now) conflict "/payload/work_unit_id"
    >> ok (lease ref.lease_id (superseded c.id existing) ∷ [])

-- The two branches on `existing_lease`
unfoldable pub make_room : AcquireWorkerLease → Run → Store → Option LeaseRef → Result (List Write)
unfolding active_worker_count lease_is_fresh
make_room c run_document s (some ref) = supersede c ref (lookup ref.lease_id s.leases)
make_room c run_document s none = do
  raise_if (leb (maximum_of run_document) (active_worker_count run_document)) conflict
      "/payload/work_unit_id"
  raise_if
      (is_critical (lookup c.work_unit_id s.work_units)
        && any_critical s.work_units run_document.leases_by_work_unit)
      conflict "/payload/work_unit_id"
  ok []

abbrev pub new_lease : AcquireWorkerLease → ℕ → Lease
new_lease c epoch = record {
  id = c.id;
  run_id = c.run_id;
  work_unit_id = c.work_unit_id;
  worker_id = c.worker_id;
  epoch = epoch;
  status = "active";
  heartbeat_at = some c.now;
  stalled_after_minutes = get_or c.stalled_after_minutes 15;
  superseded_by = none;
  released_at = none;
  release_reason = "";
}

abbrev pub leased_run : AcquireWorkerLease → ℕ → Run → Run
leased_run c epoch run_document = record run_document {
  leases_by_work_unit =
      put c.work_unit_id (record { lease_id = c.id; epoch = epoch })
        run_document.leases_by_work_unit;
  updated_at = some c.now;
}

unfoldable pub handle_acquire_worker_lease :
    (Lease → Result (Unit {0})) → AcquireWorkerLease → Store → Result (List Write)
unfolding current_lease next_epoch make_room
handle_acquire_worker_lease validate c s = do
  run_document ← load_run (lookup c.run_id s.runs)
  raise_if (not (elem c.work_unit_id run_document.work_unit_ids)) unauthorized
      "/payload/work_unit_id"
  raise_if
      (is_unattended_preset run_document.autonomy_preset && not (run_document.status == "active"))
      invariant_violation "/payload/run_id"
  raise_if (is_file (lookup c.id s.leases)) already_exists "/target/id"
  planned ← make_room c run_document s (current_lease run_document c.work_unit_id)
  let epoch = next_epoch run_document c.work_unit_id
  validate (new_lease c epoch)
  ok (
      planned
      ++ lease c.id (new_lease c epoch) ∷ run c.run_id (leased_run c epoch run_document) ∷ [])

-- `current is not None and current.get("lease_id") == lease_id`
abbrev pub is_current : String → Option LeaseRef → Bool
is_current lease_id none = false
is_current lease_id (some ref) = ref.lease_id == lease_id

unfoldable pub handle_record_worker_heartbeat : RecordWorkerHeartbeat → Store → Result (List Write)
unfolding current_lease is_epoch_current
handle_record_worker_heartbeat c s = do
  run_document ← load_run (lookup c.run_id s.runs)
  raise_if
      (is_unattended_preset run_document.autonomy_preset && not (run_document.status == "active"))
      invariant_violation ""
  document ← load_lease (lookup c.id s.leases)
  raise_if
      (not (document.status == "active")
        || not (is_current c.id (current_lease run_document document.work_unit_id)))
      conflict "/target/id"
  raise_if (not (is_epoch_current run_document document.work_unit_id c.epoch)) conflict
      "/payload/epoch"
  ok (lease c.id (record document { heartbeat_at = some c.now }) ∷ [])

-- The three tests of `current` in ReleaseWorkerLease
abbrev pub is_held_at : String → ℕ → Option LeaseRef → Bool
is_held_at lease_id epoch none = false
is_held_at lease_id epoch (some ref) = ref.lease_id == lease_id && ref.epoch == epoch

abbrev pub released : ReleaseWorkerLease → Lease → Lease
released c document = record document {
  status = "released";
  released_at = some c.now;
  release_reason = get_or c.reason "workflow step completed";
}

abbrev pub freed_run : ReleaseWorkerLease → Run → Run
freed_run c run_document = record run_document {
  leases_by_work_unit = remove c.work_unit_id run_document.leases_by_work_unit;
  updated_at = some c.now;
}

unfoldable pub handle_release_worker_lease :
    (Lease → Result (Unit {0})) → ReleaseWorkerLease → Store → Result (List Write)
unfolding current_lease
handle_release_worker_lease validate c s = do
  run_document ← load_run (lookup c.run_id s.runs)
  raise_if (not (is_held_at c.id c.epoch (current_lease run_document c.work_unit_id))) conflict
      "/payload/epoch"
  document ← load_lease (lookup c.id s.leases)
  raise_if (not (document.status == "active")) conflict "/target/id"
  validate (released c document)
  ok (lease c.id (released c document) ∷ run c.run_id (freed_run c run_document) ∷ [])

pub data LeaseCommand : Type 0 where
  acquire : AcquireWorkerLease → LeaseCommand
  heartbeat : RecordWorkerHeartbeat → LeaseCommand
  release : ReleaseWorkerLease → LeaseCommand

unfoldable pub handle_lease_command :
    (Lease → Result (Unit {0})) → LeaseCommand → Store → Result (List Write)
handle_lease_command validate (acquire c) s = handle_acquire_worker_lease validate c s
handle_lease_command validate (heartbeat c) s = handle_record_worker_heartbeat c s
handle_lease_command validate (release c) s = handle_release_worker_lease validate c s

abbrev pub after_lease_command : Result (List Write) → Store → Store
after_lease_command (ok ws) s = apply_writes ws s
after_lease_command (err e) s = s

-- A sequence of lease commands; a refused one writes nothing.
unfoldable pub run_lease_commands : (Lease → Result (Unit {0})) → List LeaseCommand → Store → Store
run_lease_commands validate [] s = s
run_lease_commands validate (c ∷ cs) s =
    run_lease_commands validate cs (after_lease_command (handle_lease_command validate c s) s)
