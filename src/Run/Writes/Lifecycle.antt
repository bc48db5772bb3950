-- ===== src/Run/Writes/Lifecycle.antt =====
-- The life of an execution attempt: it is started, finalised once, and then never changes.
use governed_ai_dev_team_fra.Common.{
  ◌+◌, String, true, false, not, Option, none, some, List, [], ◌∷◌, ◌++◌, ◌≡◌, inl, inr, refl, sym,
  subst, Bool-cases, Option-cases, string_eq, nat_eq, option_eq, ◌==◌, option_beq_iff, elem,
  all-elem, eq_refl, arith, eq_iff,
}
use governed_ai_dev_team_fra.Common.Dict.{lookup}
use governed_ai_dev_team_fra.Common.Directory.{write, lookup-write}
use governed_ai_dev_team_fra.Errors.{
  Result, ok, raise_if, unauthorized, invariant_violation, >>=-eq-ok, >>-both,
}
use governed_ai_dev_team_fra.Documents.{Run, Attempt}
use governed_ai_dev_team_fra.Documents.Store.{
  Store, Write, attempt, grant, apply_write, apply_writes,
}
use governed_ai_dev_team_fra.Run.Convergence.{Reason}
use governed_ai_dev_team_fra.Run.Writes.Fence.{check_active}
use governed_ai_dev_team_fra.Run.Writes.Attempts.{
  RecordExecutionAttempt, handle_record_execution_attempt, check_immutable, check_orphan,
  check_worker, check_owner, check_ceiling, attempt_of, settle, alert, charged, exhaustion_reason,
  prior_attempts, is_stopped,
}

-- `after` finalises the started attempt `before`.
pub record Finalises (before after : Attempt) : Type 0 where
  pub was_started : before.status ≡ "started"
  pub is_terminal : (after.status == "started") ≡ false
  pub next_revision : after.revision ≡ before.revision + 1
  pub same_id : after.run_id ≡ before.run_id
  pub same_execution : after.execution_id ≡ before.execution_id
  pub same_work_unit : after.work_unit_id ≡ before.work_unit_id
  pub same_lease : after.worker_lease_id ≡ before.worker_lease_id
  pub same_epoch : after.epoch ≡ before.epoch
  pub same_step : after.step ≡ before.step

pub record HasSameFields (c : RecordExecutionAttempt) (existing : Attempt) : Type 0 where
  pub run_id : existing.run_id ≡ c.run_id
  pub execution_id : existing.execution_id ≡ c.execution_id
  pub work_unit_id : existing.work_unit_id ≡ c.work_unit_id
  pub worker_lease_id : existing.worker_lease_id ≡ c.worker_lease_id
  pub epoch : existing.epoch ≡ c.epoch
  pub step : existing.step ≡ c.step

immutable_lem :
    (c : RecordExecutionAttempt) (existing : Attempt)
    → check_immutable c existing ≡ ok tt
    → HasSameFields c existing
unfolding check_immutable
immutable_lem c existing h = record {
  run_id = ground (arith, eq_iff existing.run_id c.run_id);
  execution_id = (option_beq_iff existing.execution_id c.execution_id).0 (ground arith);
  work_unit_id = ground (arith, eq_iff existing.work_unit_id c.work_unit_id);
  worker_lease_id = ground (arith, eq_iff existing.worker_lease_id c.worker_lease_id);
  epoch = ground arith;
  step = ground (arith, eq_iff existing.step c.step);
}

-- What the checks of the owner say of an attempt that exists
abbrev pub MayFinalise : RecordExecutionAttempt → Attempt → Type 0
MayFinalise c existing =
    (existing.status ≡ "started") × ((c.status == "started") ≡ false) × HasSameFields c existing

not_started :
    (status : String)
    → elem status ("timed_out" ∷ "cancelled" ∷ []) ≡ true
    → (status == "started") ≡ false
not_started status h =
    let p = all-elem (λ x. not (x == "started")) status ("timed_out" ∷ "cancelled" ∷ []) refl h in
    ground arith

orphan-MayFinalise :
    (c : RecordExecutionAttempt) (d : Run) (existing : Attempt)
    → check_orphan c d (some existing) ≡ ok tt
    → MayFinalise c existing
unfolding check_orphan
orphan-MayFinalise c d existing h = (
  ground (arith, eq_iff existing.status "started"),
  not_started c.status (ground arith),
  immutable_lem c existing (ground arith),
)

worker-MayFinalise :
    (c : RecordExecutionAttempt) (d : Run) (existing : Attempt)
    → check_worker c d (some existing) ≡ ok tt
    → MayFinalise c existing
unfolding check_worker
worker-MayFinalise c d existing h = (
  ground (arith, eq_iff existing.status "started"),
  ground arith,
  immutable_lem c existing (ground arith),
)

owner-MayFinalise :
    (c : RecordExecutionAttempt) (d : Run) (existing : Attempt)
    → check_owner c d (some existing) ≡ ok tt
    → MayFinalise c existing
unfolding check_owner
owner-MayFinalise c d existing h = elim (Bool-cases c.orphan_recovery) [
  | inl orphan ↦ orphan-MayFinalise c d existing (rw orphan at h)
  | inr worker ↦ worker-MayFinalise c d existing (rw worker at h)
]

-- Only the first write of an accepted command is an attempt's, and none is a run's.
abbrev SameAttempts : Store → Store → Type 0
SameAttempts s s' = (s'.attempts ≡ s.attempts) × (s'.runs ≡ s.runs)

alert-SameAttempts :
    (c : RecordExecutionAttempt) (reason : Option Reason) (s : Store)
    → SameAttempts s (apply_writes (alert c reason) s)
alert-SameAttempts c none s = (refl, refl)
alert-SameAttempts c (some r) s = (refl, refl)

settle-SameAttempts :
    (c : RecordExecutionAttempt) (d : Run) (document : Attempt) (s t : Store) (ws : List Write)
    → settle c d document s ≡ ok ws
    → SameAttempts t (apply_writes ws t)
unfolding settle
settle-SameAttempts c d document s t ws h = elim (Bool-cases (c.status == "started")) [
  | inl start ↦
      let e : [] ≡ ws = ground arith in
      subst (λ ws. SameAttempts t (apply_writes ws t)) e (refl, refl)
  | inr finish ↦ elim (Option-cases (lookup d.run_authorization_grant_id s.grants)) [
    | inl missing ↦ ground arith
    | inr (g, stored) ↦
        let reason = exhaustion_reason d c.step (prior_attempts c s ++ document ∷ []) in
        let id = d.run_authorization_grant_id in
        let e : grant id (charged c g) ∷ alert c reason ≡ ws = ground arith in
        subst (λ ws. SameAttempts t (apply_writes ws t)) e
          (alert-SameAttempts c reason (apply_write (grant id (charged c g)) t))
  ]
]

-- What an accepted command found
pub record WasAccepted (c : RecordExecutionAttempt) (s : Store) (d : Run) (ws : List Write)
    : Type 0 where
  pub stored : lookup c.run_id s.runs ≡ some d
  pub owned : check_owner c d (lookup c.id s.attempts) ≡ ok tt
  pub within_ceiling : check_ceiling c d ≡ ok tt
  pub effect :
      (apply_writes ws s).attempts ≡ write c.id (attempt_of c (lookup c.id s.attempts)) s.attempts
  pub same_runs : (apply_writes ws s).runs ≡ s.runs

module _ (validate : Attempt → Result (Unit {0})) (c : RecordExecutionAttempt) (s : Store)
    (ws : List Write) (h : handle_record_execution_attempt validate c s ≡ ok ws) where
  abbrev document : Attempt
  document = attempt_of c (lookup c.id s.attempts)

  accepted_in : (d : Run) → lookup c.run_id s.runs ≡ some d → WasAccepted c s d ws
  unfolding handle_record_execution_attempt
  accepted_in d stored =
      let p0 = >>-both (check_active "/payload/run_id" d) _ (rw stored at h) in
      let member =
        raise_if (not (elem c.work_unit_id d.work_unit_ids)) unauthorized "/payload/work_unit_id" in
      let going =
        raise_if (is_stopped (exhaustion_reason d c.step (prior_attempts c s))) invariant_violation
          "/payload/step" in
      let p1 = >>-both member _ p0.1 in
      let p2 = >>-both (check_owner c d (lookup c.id s.attempts)) _ p1.1 in
      let p3 = >>-both (check_ceiling c d) _ p2.1 in
      let p4 = >>-both going _ p3.1 in
      let p5 = >>-both (validate document) _ p4.1 in
      let (rest, settled, written) =
        >>=-eq-ok (settle c d document s) (λ rest. ok (attempt c.id document ∷ rest)) p5.1 in
      let e : attempt c.id document ∷ rest ≡ ws = cc written in
      let same =
        settle-SameAttempts c d document s (apply_write (attempt c.id document) s) rest settled in
      subst (WasAccepted c s d) e (record {
        stored = stored;
        owned = p2.0;
        within_ceiling = p3.0;
        effect = same.0;
        same_runs = same.1;
      })

  pub accepted_lem : (d : Run) × WasAccepted c s d ws
  unfolding handle_record_execution_attempt
  accepted_lem = elim (Option-cases (lookup c.run_id s.runs)) [
    | inl missing ↦ ground arith
    | inr (d, stored) ↦ (d, accepted_in d stored)
  ]

module _ (validate : Attempt → Result (Unit {0})) (c : RecordExecutionAttempt) (s : Store)
    (ws : List Write) (h : handle_record_execution_attempt validate c s ≡ ok ws) where
  -- A write under another id leaves the attempt.
  pub other_kept :
      (id : String)
      → (c.id == id) ≡ false
      → lookup id (apply_writes ws s).attempts ≡ lookup id s.attempts
  other_kept id other =
      let (d, a) = accepted_lem validate c s ws h in
      rw a.effect (
        ground
          (arith, other, lookup-write c.id id (attempt_of c (lookup c.id s.attempts)) s.attempts))

  pub may_finalise :
      (before : Attempt) → lookup c.id s.attempts ≡ some before → MayFinalise c before
  may_finalise before stored =
      let (d, a) = accepted_lem validate c s ws h in
      owner-MayFinalise c d before (rw stored at a.owned)

  pub finalised :
      (before : Attempt)
      → lookup c.id s.attempts ≡ some before
      → (after : Attempt) × (lookup c.id (apply_writes ws s).attempts ≡ some after)
        × Finalises before after
  finalised before stored =
      let (d, a) = accepted_lem validate c s ws h in
      let (was, terminal, same) = may_finalise before stored in
      let after = attempt_of c (some before) in
      let written : lookup c.id (apply_writes ws s).attempts ≡ some after =
        rw (a.effect, stored)
          (ground (arith, lookup-write c.id c.id after s.attempts, eq_refl c.id)) in
      (
        after,
        written,
        record {
          was_started = was;
          is_terminal = terminal;
          next_revision = refl;
          same_id = sym same.run_id;
          same_execution = sym same.execution_id;
          same_work_unit = sym same.work_unit_id;
          same_lease = sym same.worker_lease_id;
          same_epoch = sym same.epoch;
          same_step = sym same.step;
        },
      )
