-- ===== src/Run/Writes/Attempts.antt =====
-- core/commands/handlers/record_execution_attempt.py
use governed_ai_dev_team_fra.Common.{
  ℕ, ◌+◌, ◌-◌, ◌/◌, String, Bool, true, false, not, ◌&&◌, ◌||◌, Option, none, some, get_or, List,
  [], ◌∷◌, ◌++◌, map, string_eq, nat_eq, option_eq, ◌==◌, elem, if◌then◌else◌, select,
}
use governed_ai_dev_team_fra.Common.Dict.{Dict, lookup}
use governed_ai_dev_team_fra.Errors.{
  Result, ok, raise, raise_if, ◌>>=◌, ◌>>◌, invariant_violation, unauthorized, already_exists,
  conflict, internal_error,
}
use governed_ai_dev_team_fra.Documents.{Run, Attempt, Grant, Event}
use governed_ai_dev_team_fra.Documents.Store.{Store, Write, attempt, grant, event}
use governed_ai_dev_team_fra.Run.Fencing.{current_lease, is_epoch_current}
use governed_ai_dev_team_fra.Run.Leases.{is_current}
use governed_ai_dev_team_fra.Run.Ceiling.{default_execution_ceiling, is_step_permitted}
use governed_ai_dev_team_fra.Run.Convergence.{
  Reason, attempts_for_step, convergence_exhaustion_reason,
}
use governed_ai_dev_team_fra.Run.Writes.Fence.{load_run, check_active, check_fence}

-- The envelope: the target, the role of the actor and the payload. `report` stands for the fields
-- that are only copied; `event_id` is made of the time and the Work Unit. A start or an
-- end that is an explicit null counts as absent, and the details of the response are not modelled.
pub record RecordExecutionAttempt : Type 0 where
  pub id : String
  pub expected_revision : Option ℕ
  pub actor_role : String
  pub run_id : String
  pub execution_id : Option String
  pub work_unit_id : String
  pub worker_lease_id : String
  pub epoch : ℕ
  pub step : String
  pub status : String
  pub orphan_recovery : Bool
  pub started_at : Option ℕ
  pub ended_at : Option ℕ
  pub duration_ms : Option ℕ
  pub summary : String
  pub cost : ℕ
  pub total_tokens : ℕ
  pub report : String
  pub event_id : String
  pub now : ℕ

-- `_load_run_attempts`
unfoldable pub load_run_attempts : Dict Attempt → String → List Attempt
load_run_attempts attempts run_id =
    select (λ document. document.run_id == run_id) (map (λ entry. entry.1) attempts)

-- The loop over the immutable fields, in its order
abbrev pub check_field : Bool → String → Result (Unit {0})
check_field same path = raise_if (not same) conflict path

unfoldable pub check_immutable : RecordExecutionAttempt → Attempt → Result (Unit {0})
check_immutable c existing = do
  check_field (existing.run_id == c.run_id) "/payload/run_id"
  check_field (existing.execution_id == c.execution_id) "/payload/execution_id"
  check_field (existing.work_unit_id == c.work_unit_id) "/payload/work_unit_id"
  check_field (existing.worker_lease_id == c.worker_lease_id) "/payload/worker_lease_id"
  check_field (existing.epoch == c.epoch) "/payload/epoch"
  check_field (existing.step == c.step) "/payload/step"

abbrev pub is_started : Option Attempt → Bool
is_started none = false
is_started (some existing) = existing.status == "started"

abbrev pub check_revision : RecordExecutionAttempt → Attempt → Result (Unit {0})
check_revision c existing =
    raise_if (not (c.expected_revision == some existing.revision)) conflict
      "/target/expected_revision"

-- The branch `orphan_recovery`, and the check of the revision that comes later
abbrev pub check_orphan_of : RecordExecutionAttempt → Run → Option Attempt → Result (Unit {0})
check_orphan_of c run_document none = raise invariant_violation "/target/id"
check_orphan_of c run_document (some existing) = do
  raise_if (not (existing.status == "started")) invariant_violation "/target/id"
  raise_if (not (elem c.status ("timed_out" ∷ "cancelled" ∷ []))) invariant_violation
      "/payload/status"
  check_immutable c existing
  raise_if
      (is_current existing.worker_lease_id (current_lease run_document c.work_unit_id)
        && is_epoch_current run_document c.work_unit_id existing.epoch)
      invariant_violation "/payload/orphan_recovery"
  check_revision c existing

unfoldable pub check_orphan : RecordExecutionAttempt → Run → Option Attempt → Result (Unit {0})
unfolding check_immutable
check_orphan c run_document existing =
    raise_if (not (c.actor_role == "control-plane")) unauthorized "/payload/orphan_recovery"
    >> check_orphan_of c run_document existing

-- The completion of an attempt that exists
abbrev pub check_existing : RecordExecutionAttempt → Option Attempt → Result (Unit {0})
check_existing c none = ok tt
check_existing c (some existing) = do
  raise_if (not (existing.status == "started") || c.status == "started") already_exists "/target/id"
  check_revision c existing
  check_immutable c existing

unfoldable pub check_worker : RecordExecutionAttempt → Run → Option Attempt → Result (Unit {0})
unfolding check_fence check_immutable
check_worker c run_document existing =
    check_fence run_document c.work_unit_id c.epoch c.worker_lease_id >> check_existing c existing

unfoldable pub check_owner : RecordExecutionAttempt → Run → Option Attempt → Result (Unit {0})
unfolding check_orphan check_worker
check_owner c run_document existing =
    if c.orphan_recovery
    then check_orphan c run_document existing
    else check_worker c run_document existing

unfoldable pub check_ceiling : RecordExecutionAttempt → Run → Result (Unit {0})
unfolding is_step_permitted
check_ceiling c run_document =
    let ceiling =
      get_or (lookup c.work_unit_id run_document.execution_ceilings_by_work_unit)
        default_execution_ceiling in
    let conditional_authorized =
      c.step == "integration_review" && c.actor_role == "integration-steward" in
    raise_if (not (is_step_permitted ceiling c.step conditional_authorized).0) unauthorized
      "/payload/step"

abbrev pub is_file {ℓ} : {A : Type ℓ} → Option A → Bool
is_file none = false
is_file (some document) = true

-- The attempts of the step before this one; the document itself is left out, if it exists.
unfoldable pub prior_attempts : RecordExecutionAttempt → Store → List Attempt
unfolding load_run_attempts attempts_for_step
prior_attempts c s =
    let attempts =
      attempts_for_step (load_run_attempts s.attempts c.run_id) c.work_unit_id c.step in
    if is_file (lookup c.id s.attempts)
    then select (λ item. not (item.id == c.id)) attempts
    else attempts

-- `convergence_exhaustion_reason` with the maxima of the run
unfoldable pub exhaustion_reason : Run → String → List Attempt → Option Reason
unfolding convergence_exhaustion_reason
exhaustion_reason run_document step attempts =
    convergence_exhaustion_reason attempts step (get_or run_document.maximum_attempts_per_step 3)
      (get_or run_document.maximum_remediation_cycles 2)

abbrev pub revision_of : Option Attempt → ℕ
revision_of none = 0
revision_of (some existing) = existing.revision

abbrev pub start_of : Option Attempt → ℕ → ℕ
start_of none now = now
start_of (some existing) now = existing.started_at

abbrev pub or_else {ℓ} : {A : Type ℓ} → Option A → Option A → Option A
or_else none other = other
or_else (some a) other = some a

abbrev pub milliseconds_to : ℕ → Option ℕ → Option ℕ
milliseconds_to started none = none
milliseconds_to started (some ended) = some ((ended - started) / 1000)

abbrev pub attempt_ended_at : RecordExecutionAttempt → Option ℕ
attempt_ended_at c = or_else c.ended_at (if c.status == "started" then none else some c.now)

abbrev pub attempt_of : RecordExecutionAttempt → Option Attempt → Attempt
attempt_of c existing = record {
  id = c.id;
  revision = revision_of existing + 1;
  run_id = c.run_id;
  execution_id = c.execution_id;
  work_unit_id = c.work_unit_id;
  worker_lease_id = c.worker_lease_id;
  epoch = c.epoch;
  step = c.step;
  status = c.status;
  started_at = get_or c.started_at (start_of existing c.now);
  ended_at = attempt_ended_at c;
  duration_ms =
      or_else c.duration_ms
        (milliseconds_to (get_or c.started_at (start_of existing c.now)) (attempt_ended_at c));
  summary = c.summary;
  cost = c.cost;
  total_tokens = c.total_tokens;
  report = c.report;
}

-- The grant of the run; `internal_error` stands for the FileNotFoundError
abbrev pub load_grant : Option Grant → Result Grant
load_grant none = raise internal_error ""
load_grant (some document) = ok document

abbrev pub charged : RecordExecutionAttempt → Grant → Grant
charged c document = record document {
  spend_used = document.spend_used + c.cost;
  tokens_used = document.tokens_used + c.total_tokens;
}

abbrev pub convergence_event : RecordExecutionAttempt → Event
convergence_event c = record {
  event_type = "BLOCKER";
  subject = c.work_unit_id;
  requires_human = true;
}

abbrev pub alert : RecordExecutionAttempt → Option Reason → List Write
alert c none = []
alert c (some reason) = event c.event_id (convergence_event c) ∷ []

-- The writes after the document's: nothing for a start; otherwise the charge to the grant, and an
-- alert if the loop of attempts is exhausted now.
unfoldable pub settle : RecordExecutionAttempt → Run → Attempt → Store → Result (List Write)
unfolding prior_attempts exhaustion_reason
settle c run_document document s =
    if c.status == "started"
    then ok []
    else (load_grant (lookup run_document.run_authorization_grant_id s.grants) >>= λ grant_document.
        ok (
          grant run_document.run_authorization_grant_id (charged c grant_document)
          ∷ alert c (exhaustion_reason run_document c.step (prior_attempts c s ++ document ∷ []))))

abbrev pub is_stopped : Option Reason → Bool
is_stopped none = false
is_stopped (some reason) = true

unfoldable pub handle_record_execution_attempt :
    (Attempt → Result (Unit {0})) → RecordExecutionAttempt → Store → Result (List Write)
unfolding check_owner check_ceiling prior_attempts exhaustion_reason settle
handle_record_execution_attempt validate c s = do
  run_document ← load_run (lookup c.run_id s.runs)
  check_active "/payload/run_id" run_document
  raise_if (not (elem c.work_unit_id run_document.work_unit_ids)) unauthorized
      "/payload/work_unit_id"
  let existing = lookup c.id s.attempts
  check_owner c run_document existing
  check_ceiling c run_document
  raise_if (is_stopped (exhaustion_reason run_document c.step (prior_attempts c s)))
      invariant_violation "/payload/step"
  let document = attempt_of c existing
  validate document
  settled ← settle c run_document document s
  ok (attempt c.id document ∷ settled)
