-- ===== src/Run/Close/Revoked.antt =====
-- What stopping a run does to the leases it names.
use governed_ai_dev_team_fra.Common.{
  ℕ, String, Bool, true, false, ◌&&◌, Option, none, some, List, [], ◌∷◌, ◌++◌, ◌≡◌, ◌⊎◌, inl, inr,
  refl, Bool-cases, string_eq, nat_eq, option_eq, option_beq_iff, ◌==◌, arith, nat_beq_iff, eq_refl,
}
use governed_ai_dev_team_fra.Common.Dict.{Dict, lookup, lookup-put}
use governed_ai_dev_team_fra.Errors.{Result, ok}
use governed_ai_dev_team_fra.Documents.{Run, Lease, LeaseRef, Checkpoint}
use governed_ai_dev_team_fra.Documents.Store.{
  Store, Write, run, event, checkpoint, apply_writes, apply_writes-append,
}
use governed_ai_dev_team_fra.Run.Status.{is_unattended_preset}
use governed_ai_dev_team_fra.Run.Fencing.{current_lease, is_epoch_current}
use governed_ai_dev_team_fra.Run.Ceiling.Tighten.{integer_revision}
use governed_ai_dev_team_fra.Run.Close.{
  CloseRun, handle_close_run, revoke_all, revoke_one, revoked, closed, stop_event, is_stopping,
}
use governed_ai_dev_team_fra.Run.Writes.{WriteCheckpoint, handle_write_checkpoint, checkpoint_of}
use governed_ai_dev_team_fra.Run.Writes.Fence.{check_active, check_fence}

unfoldable pub is_live : Option Lease → Bool
is_live none = false
is_live (some document) = document.status == "active"

-- A document is the one that was read, or is not active any more.
abbrev IsRevoking : Dict Lease → Store → Type 0
IsRevoking leases t =
    (id : String) → (lookup id t.leases ≡ lookup id leases) ⊎ (is_live (lookup id t.leases) ≡ false)

-- What one round of the loop does to the document under an id: nothing, and then it is not the
-- round's or was not active when it was read; or it is not active afterwards.
abbrev RoundLeft : CloseRun → String → Option Lease → Store → String → Type 0
RoundLeft c lease_id o t id =
    ((lookup id (apply_writes (revoke_one c lease_id o) t).leases ≡ lookup id t.leases)
      × ((lease_id == id && is_live o) ≡ false))
    ⊎ (is_live (lookup id (apply_writes (revoke_one c lease_id o) t).leases) ≡ false)

round_lem :
    (c : CloseRun) (lease_id : String) (o : Option Lease) (t : Store) (id : String)
    → RoundLeft c lease_id o t id
unfolding is_live
round_lem c lease_id none t id = inl (refl, ground arith)
round_lem c lease_id (some document) t id = elim (Bool-cases (document.status == "active")) [
  | inr ended ↦ rw ended (inl (refl, ground arith))
  | inl active ↦ elim (Bool-cases (lease_id == id)) [
    | inl same ↦
        rw active (inr (rw (lookup-put lease_id id (revoked c document) t.leases, same) refl))
    | inr other ↦
        rw (active, other)
          (inl (rw (lookup-put lease_id id (revoked c document) t.leases, other) refl, refl))
  ]
]

module _ (c : CloseRun) (leases : Dict Lease) where
  round : LeaseRef → Store → Store
  round ref t = apply_writes (revoke_one c ref.lease_id (lookup ref.lease_id leases)) t

  round_revokes :
      (ref : LeaseRef) (t : Store)
      → IsRevoking leases t
      → is_live (lookup ref.lease_id (round ref t).leases) ≡ false
  unfolding round
  round_revokes ref t k =
      elim (round_lem c ref.lease_id (lookup ref.lease_id leases) t ref.lease_id) [
        | inr dead ↦ dead
        | inl (kept, idle) ↦ elim (k ref.lease_id) [
          | inr dead ↦ rw kept dead
          | inl read ↦ rw (kept, read) (ground (arith, idle, eq_refl ref.lease_id))
        ]
      ]

  round_keeps :
      (ref : LeaseRef) (t : Store) (id : String)
      → is_live (lookup id t.leases) ≡ false
      → is_live (lookup id (round ref t).leases) ≡ false
  unfolding round
  round_keeps ref t id dead = elim (round_lem c ref.lease_id (lookup ref.lease_id leases) t id) [
    | inr gone ↦ gone
    | inl (kept, idle) ↦ rw kept dead
  ]

  round-IsRevoking :
      (ref : LeaseRef) (t : Store) → IsRevoking leases t → IsRevoking leases (round ref t)
  unfolding round
  round-IsRevoking ref t k id = elim (round_lem c ref.lease_id (lookup ref.lease_id leases) t id) [
    | inr gone ↦ inr gone
    | inl (kept, idle) ↦ rw kept (k id)
  ]

  all_keep :
      (refs : Dict LeaseRef) (t : Store) (id : String)
      → is_live (lookup id t.leases) ≡ false
      → is_live (lookup id (apply_writes (revoke_all c leases refs) t).leases) ≡ false
  unfolding revoke_all round
  all_keep [] t id dead = dead
  all_keep ((w, ref) ∷ refs) t id dead =
      rw
        (apply_writes-append (revoke_one c ref.lease_id (lookup ref.lease_id leases))
          (revoke_all c leases refs) t)
        (all_keep refs (round ref t) id (round_keeps ref t id dead))

  all_revoked :
      (refs : Dict LeaseRef) (t : Store) (w : String) (ref : LeaseRef)
      → IsRevoking leases t
      → lookup w refs ≡ some ref
      → is_live (lookup ref.lease_id (apply_writes (revoke_all c leases refs) t).leases) ≡ false
  unfolding revoke_all round lookup
  all_revoked [] t w ref k held = cc
  all_revoked ((v, first) ∷ refs) t w ref k held =
      rw
        (apply_writes-append (revoke_one c first.lease_id (lookup first.lease_id leases))
          (revoke_all c leases refs) t)
        (elim (Bool-cases (v == w)) [
          | inl here ↦
              let one : first ≡ ref = ground arith in
              all_keep refs (round first t) ref.lease_id (rw (← one) (round_revokes first t k))
          | inr there ↦
              all_revoked refs (round first t) w ref (round-IsRevoking first t k) (ground arith)
        ])

-- A checkpoint of the worker that held a lease of the run
abbrev pub held_checkpoint : String → String → LeaseRef → ℕ → WriteCheckpoint
held_checkpoint run_id work_unit_id ref now = record {
  id = work_unit_id;
  run_id = run_id;
  epoch = ref.epoch;
  worker_lease_id = ref.lease_id;
  report = "";
  now = now;
}

-- An accepted CloseRun names the revision of the run.
pub accepted_revision :
    (c : CloseRun) (s : Store) (ws : List Write) (d : Run)
    → handle_close_run c s ≡ ok ws
    → lookup c.id s.runs ≡ some d
    → integer_revision d.revision ≡ some c.expected_revision
unfolding handle_close_run
accepted_revision c s ws d accepted stored = ground (
  arith,
  stored,
  accepted,
  option_beq_iff (integer_revision d.revision) (some c.expected_revision),
)

module _ (c : CloseRun) (s : Store) (ws : List Write) (d : Run)
    (accepted : handle_close_run c s ≡ ok ws) (stored : lookup c.id s.runs ≡ some d)
    (stopping : is_stopping c ≡ true) where
  abbrev own_writes : List Write
  own_writes = run c.id (closed c d) ∷ event c.event_id (stop_event c) ∷ []

  written : ws ≡ revoke_all c s.leases d.leases_by_work_unit ++ own_writes
  unfolding handle_close_run
  written = ground (arith, stored, accepted, stopping)

  -- Once CloseRun has stopped or failed a run, no lease document that the run names is active.
  pub stopped_run_revokes :
      (work_unit_id : String) (ref : LeaseRef)
      → lookup work_unit_id d.leases_by_work_unit ≡ some ref
      → is_live (lookup ref.lease_id (apply_writes ws s).leases) ≡ false
  stopped_run_revokes w ref held =
      rw (written, apply_writes-append (revoke_all c s.leases d.leases_by_work_unit) own_writes s)
        (all_revoked c s.leases d.leases_by_work_unit s w ref (λ id. inl refl) held)

  pub stopped_run : lookup c.id (apply_writes ws s).runs ≡ some (closed c d)
  stopped_run =
      let t = apply_writes (revoke_all c s.leases d.leases_by_work_unit) s in
      rw (written, apply_writes-append (revoke_all c s.leases d.leases_by_work_unit) own_writes s)
        (ground (arith, lookup-put c.id c.id (closed c d) t.runs, eq_refl c.id))

  -- CloseRun does not take the entries out of the run, and the writers look at the entries alone:
  -- in a stopped run whose preset is not an unattended one, a worker whose lease was revoked has a
  -- checkpoint accepted that its schema accepts.
  pub revoked_lease_still_writes :
      (validate : Checkpoint → Result (Unit {0})) (work_unit_id : String) (ref : LeaseRef) (now : ℕ)
      → is_unattended_preset d.autonomy_preset ≡ false
      → lookup work_unit_id d.leases_by_work_unit ≡ some ref
      → validate (checkpoint_of (held_checkpoint c.id work_unit_id ref now)) ≡ ok tt
      → (is_live (lookup ref.lease_id (apply_writes ws s).leases) ≡ false)
        × (handle_write_checkpoint validate
              (held_checkpoint c.id work_unit_id ref now)
              (apply_writes ws s)
            ≡ ok (
                checkpoint work_unit_id (checkpoint_of (held_checkpoint c.id work_unit_id ref now))
                ∷ []))
  unfolding handle_write_checkpoint check_active check_fence current_lease is_epoch_current
  revoked_lease_still_writes validate w ref now supervised held valid = (
    stopped_run_revokes w ref held,
    rw
        (
          stopped_run,
          supervised,
          held,
          eq_refl ref.lease_id,
          (nat_beq_iff ref.epoch ref.epoch).1 refl,
          valid,
        )
        refl,
  )
