-- ===== src/Run/Leases/Fenced.antt =====
-- What the invariant on leases gives: a lease that has ended is fenced off for good.
use governed_ai_dev_team_fra.Common.{
  String, true, false, Option, none, some, List, [], ◌∷◌, ◌≡◌, refl, Bool-cases, Option-cases, inl,
  inr, string_eq, nat_eq, ◌==◌, arith, eq_iff,
}
use governed_ai_dev_team_fra.Common.Dict.{lookup}
use governed_ai_dev_team_fra.Errors.{Result, GatewayError, ok, err, Result-cases}
use governed_ai_dev_team_fra.Documents.{Run, Lease, LeaseRef}
use governed_ai_dev_team_fra.Documents.Store.{Store, Write, apply_writes}
use governed_ai_dev_team_fra.Run.Fencing.{current_lease}
use governed_ai_dev_team_fra.Run.Leases.{
  AcquireWorkerLease, RecordWorkerHeartbeat, ReleaseWorkerLease, LeaseCommand, acquire, heartbeat,
  release, handle_acquire_worker_lease, handle_record_worker_heartbeat, handle_release_worker_lease,
  handle_lease_command, run_lease_commands, is_current,
}
use governed_ai_dev_team_fra.Run.Leases.Step.{lease_command-LeaseStep, LeaseStep}
use governed_ai_dev_team_fra.Run.Leases.Held.{
  IsLeased, is_holder, has_ended, LeaseStep-IsLeased, LeaseStep-has_ended,
}

-- The lease that a command is about.
abbrev pub lease_of : LeaseCommand → String
lease_of (acquire c) = c.id
lease_of (heartbeat c) = c.id
lease_of (release c) = c.id

module _ (validate : Lease → Result (Unit {0})) where
  -- What every step of the contract keeps, a sequence of commands keeps.
  pub run_lease_commands-keeps :
      (P : Store → Type 0)
      → ((s s' : Store) → LeaseStep s s' → P s → P s')
      → (cs : List LeaseCommand) (s : Store) → P s
      → P (run_lease_commands validate cs s)
  unfolding run_lease_commands
  run_lease_commands-keeps P keep [] s h = h
  run_lease_commands-keeps P keep (c ∷ cs) s h =
      elim (Result-cases (handle_lease_command validate c s)) [
        | inl (ws, accepted) ↦ rw accepted (
            run_lease_commands-keeps P keep cs (apply_writes ws s)
              (keep s (apply_writes ws s) (lease_command-LeaseStep validate c s ws accepted) h))
        | inr (e, refused) ↦ rw refused (run_lease_commands-keeps P keep cs s h)
      ]

  -- If every entry of a run's leases names an active lease document of that run, Work Unit and
  -- epoch, then this still holds after any sequence of lease commands.
  pub run_lease_commands-IsLeased :
      (cs : List LeaseCommand) (s : Store)
      → IsLeased s
      → IsLeased (run_lease_commands validate cs s)
  run_lease_commands-IsLeased = run_lease_commands-keeps IsLeased LeaseStep-IsLeased

  acquire-has_ended :
      (c : AcquireWorkerLease) (s : Store) (ws : List Write)
      → handle_acquire_worker_lease validate c s ≡ ok ws
      → has_ended (lookup c.id s.leases) ≡ false
  unfolding has_ended handle_acquire_worker_lease
  acquire-has_ended c s ws h = elim (Option-cases (lookup c.id s.leases)) [
    | inl new ↦ rw new
    | inr (l, found) ↦ elim (Option-cases (lookup c.run_id s.runs)) [
      | inl missing ↦ ground arith
      | inr (d, stored) ↦ ground arith
    ]
  ]

  heartbeat-has_ended :
      (c : RecordWorkerHeartbeat) (s : Store) (ws : List Write)
      → handle_record_worker_heartbeat c s ≡ ok ws
      → has_ended (lookup c.id s.leases) ≡ false
  unfolding has_ended handle_record_worker_heartbeat
  heartbeat-has_ended c s ws h = elim (Option-cases (lookup c.id s.leases)) [
    | inl new ↦ rw new
    | inr (l, found) ↦ elim (Option-cases (lookup c.run_id s.runs)) [
      | inl missing ↦ ground arith
      | inr (d, stored) ↦ ground arith
    ]
  ]

  release-has_ended :
      (c : ReleaseWorkerLease) (s : Store) (ws : List Write)
      → handle_release_worker_lease validate c s ≡ ok ws
      → has_ended (lookup c.id s.leases) ≡ false
  unfolding has_ended handle_release_worker_lease
  release-has_ended c s ws h = elim (Option-cases (lookup c.id s.leases)) [
    | inl new ↦ rw new
    | inr (l, found) ↦ elim (Option-cases (lookup c.run_id s.runs)) [
      | inl missing ↦ ground arith
      | inr (d, stored) ↦ ground arith
    ]
  ]

  accepted-has_ended :
      (c : LeaseCommand) (s : Store) (ws : List Write)
      → handle_lease_command validate c s ≡ ok ws
      → has_ended (lookup (lease_of c) s.leases) ≡ false
  unfolding handle_lease_command
  accepted-has_ended (acquire c) s ws h = acquire-has_ended c s ws h
  accepted-has_ended (heartbeat c) s ws h = heartbeat-has_ended c s ws h
  accepted-has_ended (release c) s ws h = release-has_ended c s ws h

  refused_when_ended :
      (c : LeaseCommand) (s : Store)
      → has_ended (lookup (lease_of c) s.leases) ≡ true
      → (e : GatewayError) × (handle_lease_command validate c s ≡ err e)
  refused_when_ended c s ended = elim (Result-cases (handle_lease_command validate c s)) [
    | inl (ws, accepted) ↦ cc (ended, accepted-has_ended c s ws accepted)
    | inr refused ↦ refused
  ]

  -- After any sequence of lease commands, a lease that had been superseded or released before is
  -- still ended, and every command on it is refused: it is not acquired again, takes no heartbeat
  -- and is not released again.
  pub ended_lease_fenced :
      (cs : List LeaseCommand) (s : Store) (c : LeaseCommand)
      → has_ended (lookup (lease_of c) s.leases) ≡ true
      → (e : GatewayError) × (handle_lease_command validate c (run_lease_commands validate cs s)
          ≡ err e)
  ended_lease_fenced cs s c ended = refused_when_ended c (run_lease_commands validate cs s) (
      run_lease_commands-keeps (λ s'. has_ended (lookup (lease_of c) s'.leases) ≡ true)
        (λ s₁ s₂ step h. LeaseStep-has_ended s₁ s₂ (lease_of c) step h) cs s ended)

  not_current_when_ended :
      (s : Store) (run_id : String) (d : Run) (work_unit_id id : String) (o : Option LeaseRef)
      → IsLeased s
      → has_ended (lookup id s.leases) ≡ true
      → lookup run_id s.runs ≡ some d
      → lookup work_unit_id d.leases_by_work_unit ≡ o
      → is_current id o ≡ false
  unfolding has_ended is_holder
  not_current_when_ended s run_id d w id none k ended stored held = refl
  not_current_when_ended s run_id d w id (some ref) k ended stored held =
      elim (Bool-cases (ref.lease_id == id)) [
        | inl same ↦
            let name : ref.lease_id ≡ id = (eq_iff ref.lease_id id).0 same in
            let holds = k run_id d w ref stored held in ground (arith, rw name at holds)
        | inr other ↦ other
      ]

  -- In a store whose runs name active leases only, and after any sequence of lease commands from
  -- there, no run names an ended lease as the current one of any Work Unit: the test that attempts,
  -- checkpoints and merges make on `worker_lease_id` fails for it.
  pub ended_lease_not_current :
      (cs : List LeaseCommand) (s : Store) (run_id : String) (d : Run) (work_unit_id id : String)
      → IsLeased s
      → has_ended (lookup id s.leases) ≡ true
      → lookup run_id (run_lease_commands validate cs s).runs ≡ some d
      → is_current id (current_lease d work_unit_id) ≡ false
  unfolding current_lease
  ended_lease_not_current cs s run_id d w id k ended stored =
      not_current_when_ended (run_lease_commands validate cs s) run_id d w id
        (lookup w d.leases_by_work_unit) (run_lease_commands-IsLeased cs s k)
        (run_lease_commands-keeps (λ s'. has_ended (lookup id s'.leases) ≡ true)
          (λ s₁ s₂ step h. LeaseStep-has_ended s₁ s₂ id step h) cs s ended)
        stored refl
