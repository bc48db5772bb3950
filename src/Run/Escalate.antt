-- ===== src/Run/Escalate.antt =====
-- core/commands/handlers/escalate_work_unit_risk.py
pub mod Upward
pub mod Paused
mod Samples
use governed_ai_dev_team_fra.Common.{
  ℕ, ◌+◌, String, Bool, true, false, not, ◌&&◌, ◌||◌, Option, none, some, get_or, List, [], ◌∷◌,
  ◌++◌, string_eq, nat_eq, ◌==◌, elem, any, leb, ltb, if◌then◌else◌,
}
use governed_ai_dev_team_fra.Common.Dict.{Dict, lookup, remove}
use governed_ai_dev_team_fra.Errors.{
  Result, ok, err, raise, raise_if, ◌>>=◌, ◌>>◌, not_found, conflict, unauthorized, invalid_schema,
  invariant_violation, internal_error,
}
use governed_ai_dev_team_fra.Documents.{
  WorkUnit, Run, Lease, LeaseRef, Event, Revision, absent, integer, malformed,
}
use governed_ai_dev_team_fra.Documents.Store.{Store, Write, work_unit, run, lease, event}
use governed_ai_dev_team_fra.Run.Leases.{is_critical}
use governed_ai_dev_team_fra.Run.Ceiling.Tighten.{load_run}

pub record EscalateWorkUnitRisk : Type 0 where
  pub id : String
  pub expected_revision : ℕ
  pub work_unit_id : String
  pub new_risk_class : String
  pub reason : String
  pub event_id : String
  pub now : ℕ

-- RISK_ORDER
unfoldable pub risk_order : String → Option ℕ
risk_order risk_class =
    if risk_class == "low"
    then some 0
    else if risk_class == "medium"
    then some 1
    else if risk_class == "high"
    then some 2
    else if risk_class == "critical"
    then some 3
    else none

abbrev pub active_critical_statuses : List String
active_critical_statuses =
    "in_progress" ∷ "verification" ∷ "review" ∷ "audit" ∷ "remediation_required" ∷ []

-- `run.get("revision") != expected_revision`: no default here
abbrev pub has_revision : Revision → ℕ → Bool
has_revision absent n = false
has_revision (integer m) n = m == n
has_revision malformed n = false

abbrev pub load_work_unit : Option WorkUnit → Result WorkUnit
load_work_unit none = raise not_found "/payload/work_unit_id"
load_work_unit (some document) = ok document

abbrev pub load_rank : Option ℕ → Result ℕ
load_rank none = raise invalid_schema "/payload/new_risk_class"
load_rank (some rank) = ok rank

-- `previous_class not in RISK_ORDER or RISK_ORDER[new_class] <= RISK_ORDER[previous_class]`
abbrev pub is_not_above : ℕ → Option ℕ → Bool
is_not_above new none = true
is_not_above new (some previous) = leb new previous

-- `int(work_unit.get("revision", 1))`; `internal_error` stands for the ValueError of a text that
-- is no number, and texts that are numbers are not modelled.
abbrev pub load_revision : Revision → Result ℕ
load_revision absent = ok 1
load_revision (integer n) = ok n
load_revision malformed = raise internal_error ""

-- `RISK_ORDER.get(str(maximum), 3)`, with "critical" for an absent maximum
unfoldable pub exceeds_maximum : ℕ → Run → Bool
unfolding risk_order
exceeds_maximum new run_document =
    let maximum =
      if run_document.maximum_risk_class == ""
      then "critical"
      else run_document.maximum_risk_class in
    ltb (get_or (risk_order maximum) 3) new

abbrev pub is_leased : Option LeaseRef → Bool
is_leased none = false
is_leased (some ref) = true

abbrev pub is_busy : Option WorkUnit → Bool
is_busy none = false
is_busy (some other) = elem other.status active_critical_statuses

-- Another Work Unit of the run is critical, and is active or leased.
unfoldable pub critical_conflict : EscalateWorkUnitRisk → Run → Store → Bool
critical_conflict c run_document s =
    c.new_risk_class == "critical"
    && any
        (λ other_id.
          not (other_id == c.work_unit_id)
          && (is_critical (lookup other_id s.work_units)
              && (is_busy (lookup other_id s.work_units)
                  || is_leased (lookup other_id run_document.leases_by_work_unit))))
        run_document.work_unit_ids

abbrev pub is_closed : WorkUnit → Bool
is_closed document = elem document.status ("done" ∷ "cancelled" ∷ [])

abbrev pub released_for_review : ℕ → Lease → Lease
released_for_review now document = record document {
  status = "released";
  released_at = some now;
  release_reason = "risk escalation requires human review";
}

abbrev pub release_ref : ℕ → String → Option Lease → List Write
release_ref now lease_id none = []
release_ref now lease_id (some document) = lease lease_id (released_for_review now document) ∷ []

abbrev pub release_held : ℕ → Option LeaseRef → Store → List Write
release_held now none s = []
release_held now (some ref) s = release_ref now ref.lease_id (lookup ref.lease_id s.leases)

abbrev pub escalated : EscalateWorkUnitRisk → ℕ → Bool → WorkUnit → WorkUnit
escalated c current pausing document = record document {
  status = if pausing then "waiting_decision" else document.status;
  risk_class = c.new_risk_class;
  risk_reasons = document.risk_reasons ++ c.reason ∷ [];
  revision = integer (current + 1);
  updated_at = some c.now;
}

abbrev pub escalated_run : EscalateWorkUnitRisk → Bool → Run → Run
escalated_run c pausing document = record document {
  leases_by_work_unit =
      if pausing
      then remove c.work_unit_id document.leases_by_work_unit
      else document.leases_by_work_unit;
  revision = integer (c.expected_revision + 1);
  updated_at = some c.now;
}

abbrev pub risk_event : EscalateWorkUnitRisk → Bool → Event
risk_event c paused = record {
  event_type = "RISK_ESCALATION";
  subject = c.work_unit_id;
  requires_human = paused;
}

unfoldable pub must_pause : EscalateWorkUnitRisk → ℕ → Run → Store → Bool
unfolding exceeds_maximum critical_conflict
must_pause c new run_document s =
    exceeds_maximum new run_document || critical_conflict c run_document s

unfoldable pub handle_escalate_work_unit_risk : EscalateWorkUnitRisk → Store → Result (List Write)
unfolding risk_order must_pause
handle_escalate_work_unit_risk c s = do
  run_document ← load_run (lookup c.id s.runs)
  raise_if (not (has_revision run_document.revision c.expected_revision)) conflict
      "/target/expected_revision"
  raise_if (not (elem c.work_unit_id run_document.work_unit_ids)) unauthorized
      "/payload/work_unit_id"
  new ← load_rank (risk_order c.new_risk_class)
  document ← load_work_unit (lookup c.work_unit_id s.work_units)
  raise_if (is_not_above new (risk_order document.risk_class)) invariant_violation
      "/payload/new_risk_class"
  let paused = must_pause c new run_document s
  let pausing = paused && not (is_closed document)
  current ← load_revision document.revision
  let released =
      if pausing
      then release_held c.now (lookup c.work_unit_id run_document.leases_by_work_unit) s
      else []
  ok (
      released
      ++ work_unit c.work_unit_id (escalated c current pausing document)
        ∷ run c.id (escalated_run c pausing run_document)
        ∷ event c.event_id (risk_event c paused)
        ∷ [])
