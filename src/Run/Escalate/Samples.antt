-- ===== src/Run/Escalate/Samples.antt =====
-- Two Work Units of a run, one escalated, and the theorems at them.
use governed_ai_dev_team_fra.Common.{
  true, false, some, List, [], ◌∷◌, ◌≡◌, refl, arith, eq_iff, string_eq,
}
use governed_ai_dev_team_fra.Common.Dict.{lookup, remove}
use governed_ai_dev_team_fra.Errors.{ok}
use governed_ai_dev_team_fra.Documents.{WorkUnit, Run}
use governed_ai_dev_team_fra.Documents.Store.{Store, Write, work_unit, run, event, apply_writes}
use governed_ai_dev_team_fra.WorkUnit.Status.{is_transition_allowed}
use governed_ai_dev_team_fra.Run.Leases.Samples.{night, night_run, unit_of}
use governed_ai_dev_team_fra.Run.Escalate.{
  EscalateWorkUnitRisk, handle_escalate_work_unit_risk, risk_order, exceeds_maximum,
  critical_conflict, must_pause, escalated, escalated_run, risk_event,
}
use governed_ai_dev_team_fra.Run.Escalate.Upward.{IsAbove, run_escalations, run_escalations-IsAbove}
use governed_ai_dev_team_fra.Run.Escalate.Paused.{
  HasOneCriticalLease, IsStaffed, escalation-HasOneCriticalLease, pause_skips_table,
}

-- WU-1 is critical and leased; WU-2 waits for review and becomes critical.
abbrev review_unit : WorkUnit
review_unit = record (unit_of "WU-2" "low") { status = "review" }

abbrev staffed_night : Store
staffed_night = record night {
  work_units = ("WU-1", unit_of "WU-1" "critical") ∷ ("WU-2", review_unit) ∷ [];
}

abbrev found_risk : EscalateWorkUnitRisk
found_risk = record {
  id = "RUN-1";
  expected_revision = 1;
  work_unit_id = "WU-2";
  new_risk_class = "critical";
  reason = "touches payments";
  event_id = "EVT-2";
  now = 9;
}

abbrev found_writes : List Write
found_writes =
    work_unit "WU-2" (escalated found_risk 1 true review_unit)
    ∷ run "RUN-1" (escalated_run found_risk true night_run)
    ∷ event "EVT-2" (risk_event found_risk true)
    ∷ []

found-accepted : handle_escalate_work_unit_risk found_risk staffed_night ≡ ok found_writes
unfolding handle_escalate_work_unit_risk risk_order exceeds_maximum critical_conflict must_pause
    lookup remove
found-accepted = refl

found-pauses : must_pause found_risk 3 night_run staffed_night ≡ true
unfolding risk_order exceeds_maximum critical_conflict must_pause lookup
found-pauses = refl

critical-known : risk_order "critical" ≡ some 3
unfolding risk_order
critical-known = refl

night_run-stored : lookup "RUN-1" staffed_night.runs ≡ some night_run
unfolding lookup
night_run-stored = refl

review-stored : lookup "WU-2" staffed_night.work_units ≡ some review_unit
unfolding lookup
review-stored = refl

run_escalations-IsAbove_example :
    (u' : WorkUnit) × (lookup "WU-2"
        (run_escalations (found_risk ∷ found_risk ∷ []) staffed_night).work_units
      ≡ some u')
    × IsAbove review_unit u'
run_escalations-IsAbove_example =
    run_escalations-IsAbove (found_risk ∷ found_risk ∷ []) staffed_night "WU-2" review_unit
      review-stored

pause_skips_table_example :
    ((u' : WorkUnit) × (lookup "WU-2" (apply_writes found_writes staffed_night).work_units
        ≡ some u')
      × (u'.status ≡ "waiting_decision"))
    × (is_transition_allowed "review" "waiting_decision" ≡ false)
pause_skips_table_example =
    pause_skips_table found_risk staffed_night found_writes night_run review_unit 3 found-accepted
      night_run-stored review-stored critical-known found-pauses refl

night_run-IsStaffed : IsStaffed night_run
unfolding lookup
night_run-IsStaffed w ref held = ground (arith, held, eq_iff "WU-1" w, eq_iff w "WU-1")

night_run-HasOneCriticalLease : HasOneCriticalLease staffed_night.work_units night_run
unfolding lookup
night_run-HasOneCriticalLease v w ref ref' hv hw crit =
    ground (arith, hv, hw, eq_iff "WU-1" v, eq_iff "WU-1" w)

escalation-HasOneCriticalLease_example :
    (d' : Run) × (lookup "RUN-1" (apply_writes found_writes staffed_night).runs ≡ some d')
    × HasOneCriticalLease (apply_writes found_writes staffed_night).work_units d'
escalation-HasOneCriticalLease_example =
    escalation-HasOneCriticalLease found_risk staffed_night found_writes night_run review_unit
      found-accepted night_run-stored review-stored refl night_run-IsStaffed
      night_run-HasOneCriticalLease
