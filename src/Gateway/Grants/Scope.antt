-- ===== src/Gateway/Grants/Scope.antt =====
-- What a command that its run's grant admits may be, in core/commands/run_authorization.py.
use governed_ai_dev_team_fra.Common.{
  ℕ, String, Bool, true, false, not, ◌&&◌, ◌||◌, Option, none, some, ◌≡◌, ◌≢◌, refl, sym, subst,
  ◌↔◌, ◌⊎◌, inl, inr, string_eq, ◌==◌, elem, is_nil, arith, eq_iff,
}
use governed_ai_dev_team_fra.Common.Dict.{lookup}
use governed_ai_dev_team_fra.Errors.{Result, ok, raise_if, ◌>>◌, unauthorized, err}
use governed_ai_dev_team_fra.Documents.{Run, Grant}
use governed_ai_dev_team_fra.Documents.Store.{Store}
use governed_ai_dev_team_fra.Gateway.Envelopes.{
  Command, transition_work_unit, acquire_worker_lease, record_worker_heartbeat,
  release_worker_lease, tighten_execution_ceiling, escalate_work_unit_risk, write_checkpoint,
  record_integration_merge, record_execution_attempt, close_run, Envelope, type_of, run_id_in,
  is_emergency_close,
}
use governed_ai_dev_team_fra.Gateway.Grants.{
  Request, request_of, unusable_reason, check_scope, check_limits, check_usable, is_over_time,
  is_spent, authorize_existing_run_command, authorize_run_grant, protected_environments,
  run_scoped_commands, is_foreign_command, is_foreign_environment, is_foreign_work_unit,
}

-- Every modelled command is run-scoped.
pub run_scoped_lem : (c : Command) → elem (type_of c) run_scoped_commands ≡ true
run_scoped_lem (transition_work_unit c) = refl
run_scoped_lem (acquire_worker_lease c) = refl
run_scoped_lem (record_worker_heartbeat c) = refl
run_scoped_lem (release_worker_lease c) = refl
run_scoped_lem (tighten_execution_ceiling c) = refl
run_scoped_lem (escalate_work_unit_risk c) = refl
run_scoped_lem (write_checkpoint c) = refl
run_scoped_lem (record_integration_merge c) = refl
run_scoped_lem (record_execution_attempt c) = refl
run_scoped_lem (close_run c) = refl

abbrev pub covers_command : Request → Grant → Bool
covers_command q grant = is_nil grant.allowed_commands || elem q.command_type grant.allowed_commands

abbrev pub covers_environment : Request → Grant → Bool
covers_environment q grant =
    q.environment == ""
    || (not (elem q.environment protected_environments)
        && elem q.environment grant.allowed_environments)

abbrev pub covers_work_unit : Request → Grant → Bool
covers_work_unit q grant = q.work_unit_id == "" || elem q.work_unit_id grant.work_unit_ids

abbrev pub IsWithinScope : Request → Grant → Type 0
IsWithinScope q grant =
    (covers_command q grant ≡ true)
    × ((covers_environment q grant ≡ true) × (covers_work_unit q grant ≡ true))

abbrev pub IsWithinLimits : Option ℕ → ℕ → Grant → Type 0
IsWithinLimits opened_at now grant =
    (is_over_time grant.maximum_duration_hours opened_at now ≡ false)
    × (is_spent grant.maximum_spend grant.spend_used ≡ false)
    × (is_spent grant.maximum_tokens grant.tokens_used ≡ false)

abbrev pub IsAdmitted : Request → Option ℕ → ℕ → Grant → Type 0
IsAdmitted q opened_at now grant =
    (unusable_reason grant now q.command_type ≡ none)
    × IsWithinScope q grant
    × IsWithinLimits opened_at now grant

raise_if_iff :
    (bad good : Bool) (path : String)
    → bad ≡ not good
    → (raise_if bad unauthorized path ≡ ok tt) ↔ (good ≡ true)
raise_if_iff bad good path h = ground arith

pub >>_iff {ℓ κ} :
    {P : Type ℓ} {Q : Type κ} (check rest : Result (Unit {0}))
    → (check ≡ ok tt) ↔ P
    → (rest ≡ ok tt) ↔ Q
    → ((check >> rest) ≡ ok tt) ↔ (P × Q)
>>_iff (ok tt) rest hp hq = (λ h. (hp.0 refl, hq.0 h), λ pq. hq.1 pq.1)
>>_iff (err failure) rest hp hq = (λ h. cc, λ pq. cc (hp.1 pq.0))

check_scope_iff :
    (q : Request) (grant : Grant) → (check_scope q grant ≡ ok tt) ↔ IsWithinScope q grant
unfolding check_scope
check_scope_iff q grant =
    let environment =
      raise_if (is_foreign_environment q grant) unauthorized "/payload/environment" in
    let work_unit = raise_if (is_foreign_work_unit q grant) unauthorized "/payload/work_unit_id" in
    >>_iff (raise_if (is_foreign_command q grant) unauthorized "/type") (environment >> work_unit)
      (raise_if_iff (is_foreign_command q grant) (covers_command q grant) "/type" (ground arith))
      (>>_iff environment work_unit
        (raise_if_iff (is_foreign_environment q grant) (covers_environment q grant)
          "/payload/environment" (ground arith))
        (raise_if_iff (is_foreign_work_unit q grant) (covers_work_unit q grant)
          "/payload/work_unit_id" (ground arith)))

check_limits_iff :
    (q : Request) (opened_at : Option ℕ) (now : ℕ) (grant : Grant)
    → q.emergency_close ≡ false
    → (check_limits q opened_at now grant ≡ ok tt) ↔ IsWithinLimits opened_at now grant
unfolding check_limits
check_limits_iff q opened_at now grant h = ground arith

check_usable_iff :
    (q : Request) (opened_at : Option ℕ) (now : ℕ) (grant : Grant) (reason : Option String)
    → q.emergency_close ≡ false
    → (check_usable q opened_at now grant reason ≡ ok tt)
      ↔ ((reason ≡ none) × IsWithinScope q grant × IsWithinLimits opened_at now grant)
check_usable_iff q opened_at now grant none h =
    let both =
      >>_iff (check_scope q grant) (check_limits q opened_at now grant) (check_scope_iff q grant)
        (check_limits_iff q opened_at now grant h) in
    (λ passed. (refl, (both.0 passed).0, (both.0 passed).1), λ within. both.1 (within.1, within.2))
check_usable_iff q opened_at now grant (some reason) h = ground arith

unequal : (a b : String) → a ≢ b → (a == b) ≡ false
unequal a b h = ground (arith, eq_iff a b)

-- The check under the grant that is bound to the run.
authorize_run_grant-bound :
    (e : Envelope) (now : ℕ) (s : Store) (d : Run) (grant : Grant)
    → run_id_in e.run_id e.command ≢ ""
    → lookup (run_id_in e.run_id e.command) s.runs ≡ some d
    → d.run_authorization_grant_id ≢ ""
    → lookup d.run_authorization_grant_id s.grants ≡ some grant
    → authorize_run_grant e now s
      ≡ check_usable
          (request_of e)
          d.created_at
          now
          grant
          (unusable_reason grant now (type_of e.command))
unfolding authorize_run_grant authorize_existing_run_command
authorize_run_grant-bound e now s d grant named found bound granted =
    rw (run_scoped_lem e.command, unequal _ _ named, found, unequal _ _ bound, granted)

-- A command that is no emergency close, under a run whose grant is bound, passes exactly when the
-- grant is usable for it, its scope takes in the command, and no limit is reached.
pub authorize_run_grant_iff :
    (e : Envelope) (now : ℕ) (s : Store) (d : Run) (grant : Grant)
    → run_id_in e.run_id e.command ≢ ""
    → lookup (run_id_in e.run_id e.command) s.runs ≡ some d
    → d.run_authorization_grant_id ≢ ""
    → lookup d.run_authorization_grant_id s.grants ≡ some grant
    → is_emergency_close e.command ≡ false
    → (authorize_run_grant e now s ≡ ok tt) ↔ IsAdmitted (request_of e) d.created_at now grant
unfolding authorize_run_grant authorize_existing_run_command
authorize_run_grant_iff e now s d grant named found bound granted calm =
    subst (λ r. (r ≡ ok tt) ↔ IsAdmitted (request_of e) d.created_at now grant)
      (sym (authorize_run_grant-bound e now s d grant named found bound granted))
      (check_usable_iff (request_of e) d.created_at now grant
        (unusable_reason grant now (type_of e.command)) calm)

id_iff : (r : Result (Unit {0})) → (r ≡ ok tt) ↔ (r ≡ ok tt)
id_iff r = (λ h. h, λ h. h)

limits_pass :
    (q : Request) (opened_at : Option ℕ) (now : ℕ) (grant : Grant)
    → q.emergency_close ≡ true
    → check_limits q opened_at now grant ≡ ok tt
unfolding check_limits
limits_pass q opened_at now grant h = ground arith

check_usable-emergency :
    (q : Request) (opened_at : Option ℕ) (now : ℕ) (grant : Grant) (reason : Option String)
    → q.emergency_close ≡ true
    → (check_usable q opened_at now grant reason ≡ ok tt)
      ↔ ((reason ≢ none) ⊎ IsWithinScope q grant)
check_usable-emergency q opened_at now grant (some reason) h = (λ _. inl (λ same. cc), λ _. rw h)
check_usable-emergency q opened_at now grant none h =
    let both =
      >>_iff (check_scope q grant) (check_limits q opened_at now grant) (check_scope_iff q grant)
        (id_iff (check_limits q opened_at now grant)) in
    (
      λ passed. inr (both.0 passed).0,
      λ either. elim either [
        | inl unusable ↦ absurd (unusable refl)
        | inr within ↦ both.1 (within, limits_pass q opened_at now grant h)
      ],
    )

-- An emergency close, under a run whose grant is bound, passes exactly when the grant is revoked,
-- expired or excludes it, or else its scope takes in the command; no limit stops it.
pub emergency_close_iff :
    (e : Envelope) (now : ℕ) (s : Store) (d : Run) (grant : Grant)
    → run_id_in e.run_id e.command ≢ ""
    → lookup (run_id_in e.run_id e.command) s.runs ≡ some d
    → d.run_authorization_grant_id ≢ ""
    → lookup d.run_authorization_grant_id s.grants ≡ some grant
    → is_emergency_close e.command ≡ true
    → (authorize_run_grant e now s ≡ ok tt) ↔ (
        (unusable_reason grant now (type_of e.command) ≢ none) ⊎ IsWithinScope (request_of e) grant)
emergency_close_iff e now s d grant named found bound granted closes =
    let reason = unusable_reason grant now (type_of e.command) in
    subst (λ r. (r ≡ ok tt) ↔ ((reason ≢ none) ⊎ IsWithinScope (request_of e) grant))
      (sym (authorize_run_grant-bound e now s d grant named found bound granted))
      (check_usable-emergency (request_of e) d.created_at now grant reason closes)
