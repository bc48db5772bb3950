-- ===== src/Gateway/Interrupted.antt =====
-- core/commands/gateway.py: the process stops between `transaction.commit()` and
-- `self._idempotency.store(…)`, and the command is sent again.
use governed_ai_dev_team_fra.Common.{
  Option, ◌∙◌, refl, sym, true, none, some, List, ◌≡◌, ◌≢◌, ap, subst, inl, inr, arith,
  Option-cases,
}
use governed_ai_dev_team_fra.Common.Dict.{lookup}
use governed_ai_dev_team_fra.Errors.{Result, ok, err, GatewayError, Result-cases}
use governed_ai_dev_team_fra.Documents.{Run}
use governed_ai_dev_team_fra.Documents.Store.{Store, Write, apply_writes}
use governed_ai_dev_team_fra.Run.Close.{CloseRun, handle_close_run, is_stopping, closed}
use governed_ai_dev_team_fra.Run.Close.Revoked.{accepted_revision, stopped_run}
use governed_ai_dev_team_fra.Gateway.Envelopes.{
  Envelope, Command, transition_work_unit, acquire_worker_lease, record_worker_heartbeat,
  release_worker_lease, tighten_execution_ceiling, escalate_work_unit_risk, write_checkpoint,
  record_integration_merge, record_execution_attempt, close_run, handle, as_sent,
}
use governed_ai_dev_team_fra.Gateway.Idempotency.{
  Receipt, material_of, payload_fingerprint, find_receipt,
}
use governed_ai_dev_team_fra.Gateway.{
  Workspace, Environment, Parts, perform, try_command, respond, execute_command,
}
use governed_ai_dev_team_fra.Gateway.Replay.{perform-IsPerformed, try_command-cases, cached_receipt}

accepted_run :
    (c : CloseRun) (s : Store) (ws : List Write)
    → handle_close_run c s ≡ ok ws
    → (d : Run) × (lookup c.id s.runs ≡ some d)
unfolding handle_close_run
accepted_run c s ws accepted = elim (Option-cases (lookup c.id s.runs)) [
  | inl missing ↦ ground (arith, missing, accepted)
  | inr found ↦ found
]

-- A stop of a run is accepted once: the revision that another CloseRun of it names is past.
stopped_once :
    (c resent : CloseRun) (s : Store) (ws again : List Write)
    → is_stopping c ≡ true
    → resent.id ≡ c.id
    → resent.expected_revision ≡ c.expected_revision
    → handle_close_run c s ≡ ok ws
    → handle_close_run resent (apply_writes ws s) ≢ ok again
stopped_once c resent s ws again stopping same_id same_revision accepted twice =
    let (d, stored) = accepted_run c s ws accepted in
    let bumped = accepted_revision resent (apply_writes ws s) again (closed c d) twice (
      ap (λ id. lookup id (apply_writes ws s).runs) same_id
      ∙ stopped_run c s ws d accepted stored stopping) in
    ground (arith, bumped, same_revision)

-- The command that is sent again: what its sender writes is the same, the clock may have moved.
IsResent : CloseRun → Command → Type 0
IsResent c command =
    (resent : CloseRun) × (command ≡ close_run resent)
    × (resent.id ≡ c.id)
    × (resent.expected_revision ≡ c.expected_revision)

close_of : CloseRun → Command → CloseRun
close_of other (close_run c) = c
close_of other command = other

resent_lem :
    (c : CloseRun) (command : Command)
    → as_sent command ≡ as_sent (close_run c)
    → IsResent c command
unfolding as_sent IsResent close_of
resent_lem c (close_run resent) h =
    (resent, refl, ap (λ x. (close_of c x).id) h, ap (λ x. (close_of c x).expected_revision) h)
resent_lem c (transition_work_unit x) h = cc
resent_lem c (acquire_worker_lease x) h = cc
resent_lem c (record_worker_heartbeat x) h = cc
resent_lem c (release_worker_lease x) h = cc
resent_lem c (tighten_execution_ceiling x) h = cc
resent_lem c (escalate_work_unit_risk x) h = cc
resent_lem c (write_checkpoint x) h = cc
resent_lem c (record_integration_merge x) h = cc
resent_lem c (record_execution_attempt x) h = cc

performed_once :
    (parts : Parts) (env again : Environment) (e resent : Envelope) (w done twice : Workspace)
    (c : CloseRun)
    → e.command ≡ close_run c
    → is_stopping c ≡ true
    → IsResent c resent.command
    → perform parts env e w ≡ ok done
    → perform parts again resent done ≢ ok twice
unfolding handle IsResent
performed_once parts env again e resent w done twice c closes stopping (c', closes', id, rev) first
      second =
    let (writes, (_, handled, committed)) = perform-IsPerformed parts env e w done first in
    let (more, (_, handled_again, _)) = perform-IsPerformed parts again resent done twice second in
    let documents : done.documents ≡ apply_writes writes w.documents =
      ap (λ x. x.documents) committed in
    stopped_once c c' w.documents writes more stopping id rev
      (subst (λ x. handle parts.checks x w.documents ≡ ok writes) closes handled)
      (subst (λ s. handle parts.checks (close_run c') s ≡ ok more) documents
        (subst (λ x. handle parts.checks x done.documents ≡ ok more) closes' handled_again))

none_ne_some : (receipt : Receipt) → ◌≢◌ {A = Result (Option Receipt)} (ok none) (ok (some receipt))
none_ne_some receipt h = cc

-- A CloseRun that stops or fails a run, whose process ends when the documents are committed and the
-- receipt is not stored, is refused when it is sent again next, with the same idempotency key and
-- the same contents, at whatever time: its key has no receipt, so that the handler runs again, and
-- refuses it.
pub interrupted_stop_is_refused :
    (parts : Parts) (env again : Environment) (e resent : Envelope) (w done : Workspace)
    (c : CloseRun)
    → e.command ≡ close_run c
    → is_stopping c ≡ true
    → cached_receipt parts e w ≡ ok none
    → perform parts env e w ≡ ok done
    → resent.idempotency_key ≡ e.idempotency_key
    → material_of resent ≡ material_of e
    → (error : GatewayError) × (execute_command parts again resent done
        ≡ respond resent done (err error))
unfolding execute_command material_of payload_fingerprint
interrupted_stop_is_refused parts env again e resent w done c closes stopping missing first same_key
      same =
    elim (Result-cases (try_command parts again resent done)) [
      | inr (error, refused) ↦ (error, ap (respond resent done) refused)
      | inl ((after, receipt), passed) ↦
          elim (try_command-cases parts again resent done after receipt passed) [
            | inl (_, cached) ↦
                let (writes, (_, _, committed)) = perform-IsPerformed parts env e w done first in
                let before : cached_receipt parts e done ≡ cached_receipt parts e w =
                  ap (λ x. cached_receipt parts e x) committed in
                let one : find_receipt parts.digests done.index resent.idempotency_key
                      (parts.digests.of_material (material_of resent))
                    ≡ find_receipt parts.digests done.index e.idempotency_key
                        (parts.digests.of_material (material_of e)) =
                  rw (same_key, same) in
                absurd (none_ne_some receipt (sym missing ∙ sym before ∙ sym one ∙ cached))
            | inr (_, (twice, second, _)) ↦ absurd (
                performed_once parts env again e resent w done twice c closes stopping
                  (resent_lem c resent.command (ap (λ m. m.command) same ∙ ap as_sent closes)) first
                  second)
          ]
    ]
