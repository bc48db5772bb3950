-- ===== src/Run/Leases/Step.antt =====
-- The contract of the lease commands: what one accepted command does to the store.
use governed_ai_dev_team_fra.Common.{
  ℕ, ◌+◌, ◌<◌, String, false, ◌&&◌, Option, none, some, List, [], ◌∷◌, ◌≡◌, refl, subst,
  Option-cases, inl, inr, string_eq, nat_eq, arith, eq_iff, length,
}
use governed_ai_dev_team_fra.Common.Dict.{lookup, put}
use governed_ai_dev_team_fra.Errors.{Result, ok}
use governed_ai_dev_team_fra.Documents.{Run, Lease, LeaseRef}
use governed_ai_dev_team_fra.Documents.Store.{Store, Write, run, lease, apply_writes}
use governed_ai_dev_team_fra.Run.Leases.{
  AcquireWorkerLease, RecordWorkerHeartbeat, ReleaseWorkerLease, LeaseCommand, acquire, heartbeat,
  release, lease_is_fresh, is_critical, any_critical, maximum_of, superseded, new_lease, leased_run,
  released, freed_run, handle_acquire_worker_lease, handle_record_worker_heartbeat,
  handle_release_worker_lease, handle_lease_command, is_file,
}

-- The new lease and the run that names it.
abbrev pub install : AcquireWorkerLease → ℕ → Run → Store → Store
install c epoch d s = record s {
  leases = put c.id (new_lease c epoch) s.leases;
  runs = put c.run_id (leased_run c epoch d) s.runs;
}

abbrev pub set_lease : String → Lease → Store → Store
set_lease id l s = record s { leases = put id l s.leases }

pub data LeaseStep (s : Store) : Store → Type 0 where
  staffed :
      (c : AcquireWorkerLease) (d : Run)
      → lookup c.run_id s.runs ≡ some d
      → lookup c.id s.leases ≡ none
      → lookup c.work_unit_id d.leases_by_work_unit ≡ none
      → length d.leases_by_work_unit < maximum_of d
      → (is_critical (lookup c.work_unit_id s.work_units)
          && any_critical s.work_units d.leases_by_work_unit)
        ≡ false
      → LeaseStep s (install c 1 d s)
  reassigned :
      (c : AcquireWorkerLease) (d : Run) (ref : LeaseRef) (stale : Lease)
      → lookup c.run_id s.runs ≡ some d
      → lookup c.id s.leases ≡ none
      → lookup c.work_unit_id d.leases_by_work_unit ≡ some ref
      → lookup ref.lease_id s.leases ≡ some stale
      → lease_is_fresh stale c.now ≡ false
      → LeaseStep s (install c (ref.epoch + 1) d (set_lease ref.lease_id (superseded c.id stale) s))
  beaten :
      (c : RecordWorkerHeartbeat) (d : Run) (l : Lease) (ref : LeaseRef)
      → lookup c.run_id s.runs ≡ some d
      → lookup c.id s.leases ≡ some l
      → l.status ≡ "active"
      → lookup l.work_unit_id d.leases_by_work_unit ≡ some ref
      → ref.lease_id ≡ c.id
      → ref.epoch ≡ c.epoch
      → LeaseStep s (set_lease c.id (record l { heartbeat_at = some c.now }) s)
  freed :
      (c : ReleaseWorkerLease) (d : Run) (l : Lease) (ref : LeaseRef)
      → lookup c.run_id s.runs ≡ some d
      → lookup c.id s.leases ≡ some l
      → l.status ≡ "active"
      → lookup c.work_unit_id d.leases_by_work_unit ≡ some ref
      → ref.lease_id ≡ c.id
      → ref.epoch ≡ c.epoch
      → LeaseStep s (record s {
        leases = put c.id (released c l) s.leases;
        runs = put c.run_id (freed_run c d) s.runs;
      })

Accepted : Store → List Write → Type 0
Accepted s ws = LeaseStep s (apply_writes ws s)

absent : {A : Type 0} (o : Option A) → is_file o ≡ false → o ≡ none
absent none h = refl
absent (some a) h = cc

module _ (validate : Lease → Result (Unit {0})) (c : AcquireWorkerLease) (s : Store)
    (ws : List Write) (h : handle_acquire_worker_lease validate c s ≡ ok ws) (d : Run)
    (stored : lookup c.run_id s.runs ≡ some d) where
  fresh_id : lookup c.id s.leases ≡ none
  unfolding handle_acquire_worker_lease
  fresh_id = absent (lookup c.id s.leases) (ground arith)

  staffed-Accepted : lookup c.work_unit_id d.leases_by_work_unit ≡ none → Accepted s ws
  unfolding handle_acquire_worker_lease Accepted
  staffed-Accepted free =
      let written : (lease c.id (new_lease c 1) ∷ run c.run_id (leased_run c 1 d) ∷ []) ≡ ws =
        ground arith in
      subst (Accepted s) written (staffed c d stored fresh_id free (ground arith) (ground arith))

  reassigned-Accepted :
      (ref : LeaseRef) (stale : Lease)
      → lookup c.work_unit_id d.leases_by_work_unit ≡ some ref
      → lookup ref.lease_id s.leases ≡ some stale
      → Accepted s ws
  unfolding handle_acquire_worker_lease Accepted
  reassigned-Accepted ref stale held found =
      let written : (lease ref.lease_id (superseded c.id stale)
            ∷ lease c.id (new_lease c (ref.epoch + 1))
            ∷ run c.run_id (leased_run c (ref.epoch + 1) d)
            ∷ [])
          ≡ ws =
        ground arith in
      subst (Accepted s) written
        (reassigned c d ref stale stored fresh_id held found (ground arith))

  acquire-found : Accepted s ws
  unfolding handle_acquire_worker_lease
  acquire-found = elim (Option-cases (lookup c.work_unit_id d.leases_by_work_unit)) [
    | inl free ↦ staffed-Accepted free
    | inr (ref, held) ↦ elim (Option-cases (lookup ref.lease_id s.leases)) [
      | inl lost ↦ ground arith
      | inr (stale, found) ↦ reassigned-Accepted ref stale held found
    ]
  ]

acquire-Accepted :
    (validate : Lease → Result (Unit {0})) (c : AcquireWorkerLease) (s : Store) (ws : List Write)
    → handle_acquire_worker_lease validate c s ≡ ok ws
    → Accepted s ws
unfolding handle_acquire_worker_lease
acquire-Accepted validate c s ws h = elim (Option-cases (lookup c.run_id s.runs)) [
  | inl missing ↦ ground arith
  | inr (d, stored) ↦ acquire-found validate c s ws h d stored
]

heartbeat-Accepted :
    (c : RecordWorkerHeartbeat) (s : Store) (ws : List Write)
    → handle_record_worker_heartbeat c s ≡ ok ws
    → Accepted s ws
unfolding handle_record_worker_heartbeat Accepted
heartbeat-Accepted c s ws h = elim (Option-cases (lookup c.run_id s.runs)) [
  | inl missing ↦ ground arith
  | inr (d, stored) ↦ elim (Option-cases (lookup c.id s.leases)) [
    | inl missing ↦ ground arith
    | inr (l, found) ↦ elim (Option-cases (lookup l.work_unit_id d.leases_by_work_unit)) [
      | inl free ↦ ground arith
      | inr (ref, held) ↦
          let written : (lease c.id (record l { heartbeat_at = some c.now }) ∷ []) ≡ ws =
            ground arith in
          subst (Accepted s) written (
            beaten c d l ref stored found (ground (arith, eq_iff l.status "active")) held
              (ground (arith, eq_iff ref.lease_id c.id)) (ground arith))
    ]
  ]
]

release-Accepted :
    (validate : Lease → Result (Unit {0})) (c : ReleaseWorkerLease) (s : Store) (ws : List Write)
    → handle_release_worker_lease validate c s ≡ ok ws
    → Accepted s ws
unfolding handle_release_worker_lease Accepted
release-Accepted validate c s ws h = elim (Option-cases (lookup c.run_id s.runs)) [
  | inl missing ↦ ground arith
  | inr (d, stored) ↦ elim (Option-cases (lookup c.id s.leases)) [
    | inl missing ↦ ground arith
    | inr (l, found) ↦ elim (Option-cases (lookup c.work_unit_id d.leases_by_work_unit)) [
      | inl free ↦ ground arith
      | inr (ref, held) ↦
          let written : (lease c.id (released c l) ∷ run c.run_id (freed_run c d) ∷ []) ≡ ws =
            ground arith in
          subst (Accepted s) written (
            freed c d l ref stored found (ground (arith, eq_iff l.status "active")) held
              (ground (arith, eq_iff ref.lease_id c.id)) (ground arith))
    ]
  ]
]

pub lease_command-LeaseStep :
    (validate : Lease → Result (Unit {0})) (c : LeaseCommand) (s : Store) (ws : List Write)
    → handle_lease_command validate c s ≡ ok ws
    → LeaseStep s (apply_writes ws s)
unfolding handle_lease_command Accepted
lease_command-LeaseStep validate (acquire c) s ws h = acquire-Accepted validate c s ws h
lease_command-LeaseStep validate (heartbeat c) s ws h = heartbeat-Accepted c s ws h
lease_command-LeaseStep validate (release c) s ws h = release-Accepted validate c s ws h
