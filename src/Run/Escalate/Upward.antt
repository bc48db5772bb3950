-- ===== src/Run/Escalate/Upward.antt =====
-- What an escalation does: the risk only goes up, and a conflict pauses the Work Unit.
use governed_ai_dev_team_fra.Common.{
  ℕ, ◌≤◌, String, Bool, true, false, not, ◌&&◌, Option, none, some, get_or, List, [], ◌∷◌, ◌++◌,
  ◌≡◌, inl, inr, refl, ◌∙◌, subst, Bool-cases, Option-cases, string_eq, nat_eq, ◌==◌, arith, eq_iff,
  if◌then◌else◌,
}
use governed_ai_dev_team_fra.Common.Dict.{lookup, put, lookup-put}
use governed_ai_dev_team_fra.Errors.{Result, ok, err, Result-cases}
use governed_ai_dev_team_fra.Documents.{WorkUnit, Run, Lease, LeaseRef}
use governed_ai_dev_team_fra.Documents.Store.{
  Store, Write, work_unit, run, event, apply_writes, apply_writes-append,
}
use governed_ai_dev_team_fra.Run.Escalate.{
  EscalateWorkUnitRisk, handle_escalate_work_unit_risk, risk_order, must_pause, is_closed,
  escalated, escalated_run, risk_event, release_held, release_ref, is_not_above, load_revision,
}

-- The writes of an accepted command, with what it read
pub record WasAccepted (c : EscalateWorkUnitRisk) (s : Store) (ws : List Write) (d : Run)
    (u : WorkUnit) : Type 0 where
  pub new_rank : ℕ
  pub current : ℕ
  pub pausing : Bool
  pub known : risk_order c.new_risk_class ≡ some new_rank
  pub above : is_not_above new_rank (risk_order u.risk_class) ≡ false
  pub revision : load_revision u.revision ≡ ok current
  pub pausing_lem : pausing ≡ (must_pause c new_rank d s && not (is_closed u))
  pub written :
      ws
      ≡ (if pausing then release_held c.now (lookup c.work_unit_id d.leases_by_work_unit) s else [])
        ++ work_unit c.work_unit_id (escalated c current pausing u)
          ∷ run c.id (escalated_run c pausing d)
          ∷ event c.event_id (risk_event c (must_pause c new_rank d s))
          ∷ []

module _ (c : EscalateWorkUnitRisk) (s : Store) (ws : List Write)
    (h : handle_escalate_work_unit_risk c s ≡ ok ws) where
  accepted_in :
      (d : Run) (u : WorkUnit) (new current : ℕ)
      → lookup c.id s.runs ≡ some d
      → lookup c.work_unit_id s.work_units ≡ some u
      → risk_order c.new_risk_class ≡ some new
      → load_revision u.revision ≡ ok current
      → WasAccepted c s ws d u
  unfolding handle_escalate_work_unit_risk
  accepted_in d u new current held stored known revision = record {
    new_rank = new;
    current = current;
    pausing = must_pause c new d s && not (is_closed u);
    known = known;
    above = ground (arith, h, held, stored, known);
    revision = revision;
    pausing_lem = refl;
    written = ground (arith, h, held, stored, known, revision);
  }

  pub accepted_lem :
      (d : Run) × (u : WorkUnit) × (lookup c.id s.runs ≡ some d)
      × (lookup c.work_unit_id s.work_units ≡ some u)
      × WasAccepted c s ws d u
  unfolding handle_escalate_work_unit_risk
  accepted_lem = elim (Option-cases (lookup c.id s.runs)) [
    | inl missing ↦ ground (arith, h, missing)
    | inr (d, held) ↦ elim (Option-cases (lookup c.work_unit_id s.work_units)) [
      | inl missing ↦ ground (arith, h, held, missing)
      | inr (u, stored) ↦ elim (Option-cases (risk_order c.new_risk_class)) [
        | inl unknown ↦ ground (arith, h, held, unknown)
        | inr (new, known) ↦ elim (Result-cases (load_revision u.revision)) [
          | inl (current, revision) ↦
              (d, u, held, stored, accepted_in d u new current held stored known revision)
          | inr (e, malformed) ↦ ground (arith, h, held, stored, known, malformed)
        ]
      ]
    ]
  ]

-- The release touches no document but the lease's.
abbrev IsLeaseOnly : Store → Store → Type 0
IsLeaseOnly t t' = (t'.work_units ≡ t.work_units) × (t'.runs ≡ t.runs)

release_ref-IsLeaseOnly :
    (now : ℕ) (id : String) (o : Option Lease) (t : Store)
    → IsLeaseOnly t (apply_writes (release_ref now id o) t)
release_ref-IsLeaseOnly now id none t = (refl, refl)
release_ref-IsLeaseOnly now id (some l) t = (refl, refl)

release_if-IsLeaseOnly :
    (pausing : Bool) (now : ℕ) (o : Option LeaseRef) (s t : Store)
    → IsLeaseOnly t (apply_writes (if pausing then release_held now o s else []) t)
release_if-IsLeaseOnly false now o s t = (refl, refl)
release_if-IsLeaseOnly true now none s t = (refl, refl)
release_if-IsLeaseOnly true now (some ref) s t =
    release_ref-IsLeaseOnly now ref.lease_id (lookup ref.lease_id s.leases) t

-- The documents of the store afterwards
module _ (c : EscalateWorkUnitRisk) (s : Store) (ws : List Write) (d : Run) (u : WorkUnit)
    (a : WasAccepted c s ws d u) where
  pub work_units_after :
      (apply_writes ws s).work_units
      ≡ put c.work_unit_id (escalated c a.current a.pausing u) s.work_units
  work_units_after =
      let released =
        if a.pausing
        then release_held c.now (lookup c.work_unit_id d.leases_by_work_unit) s
        else [] in
      let only =
        release_if-IsLeaseOnly a.pausing c.now (lookup c.work_unit_id d.leases_by_work_unit) s s in
      rw (a.written, apply_writes-append released _ s, only.0) refl

  pub runs_after : (apply_writes ws s).runs ≡ put c.id (escalated_run c a.pausing d) s.runs
  runs_after =
      let released =
        if a.pausing
        then release_held c.now (lookup c.work_unit_id d.leases_by_work_unit) s
        else [] in
      let only =
        release_if-IsLeaseOnly a.pausing c.now (lookup c.work_unit_id d.leases_by_work_unit) s s in
      rw (a.written, apply_writes-append released _ s, only.1) refl

abbrev pub rank_of : WorkUnit → ℕ
rank_of u = get_or (risk_order u.risk_class) 0

-- The Work Unit afterwards: at least the rank, and the same evidence and outcomes.
pub record IsAbove (before after : WorkUnit) : Type 0 where
  pub rank : rank_of before ≤ rank_of after
  pub same_evidence : after.evidence ≡ before.evidence
  pub same_outcomes : after.outcomes ≡ before.outcomes

rank_above : (new : ℕ) (old : Option ℕ) → is_not_above new old ≡ false → get_or old 0 ≤ new
rank_above new none h = cc
rank_above new (some p) h = ground arith

escalated-IsAbove :
    (c : EscalateWorkUnitRisk) (s : Store) (ws : List Write) (d : Run) (u : WorkUnit)
    (a : WasAccepted c s ws d u)
    → IsAbove u (escalated c a.current a.pausing u)
escalated-IsAbove c s ws d u a = record {
  rank = rw a.known (rank_above a.new_rank (risk_order u.risk_class) a.above);
  same_evidence = refl;
  same_outcomes = refl;
}

step-IsAbove :
    (c : EscalateWorkUnitRisk) (s : Store) (ws : List Write) (id : String) (u : WorkUnit)
    → handle_escalate_work_unit_risk c s ≡ ok ws
    → lookup id s.work_units ≡ some u
    → (u' : WorkUnit) × (lookup id (apply_writes ws s).work_units ≡ some u') × IsAbove u u'
step-IsAbove c s ws id u h stored =
    let (d, u0, held, stored0, a) = accepted_lem c s ws h in
    let new = escalated c a.current a.pausing u0 in
    elim (Bool-cases (c.work_unit_id == id)) [
      | inl same ↦
          let name : c.work_unit_id ≡ id = (eq_iff c.work_unit_id id).0 same in
          let here : lookup c.work_unit_id s.work_units ≡ some u = rw name stored in
          let one : u0 ≡ u = cc (here, stored0) in
          (
            new,
            rw (work_units_after c s ws d u0 a, lookup-put c.work_unit_id id new s.work_units, same)
                refl,
            subst (λ x. IsAbove x new) one (escalated-IsAbove c s ws d u0 a),
          )
      | inr other ↦ (
        u,
        rw (work_units_after c s ws d u0 a, lookup-put c.work_unit_id id new s.work_units, other)
            stored,
        record { rank = omega arith; same_evidence = refl; same_outcomes = refl },
      )
    ]

abbrev pub after_escalation : Result (List Write) → Store → Store
after_escalation (ok ws) s = apply_writes ws s
after_escalation (err e) s = s

-- A sequence of escalations; a refused one writes nothing.
unfoldable pub run_escalations : List EscalateWorkUnitRisk → Store → Store
run_escalations [] s = s
run_escalations (c ∷ cs) s =
    run_escalations cs (after_escalation (handle_escalate_work_unit_risk c s) s)

-- Whatever escalations run, a stored Work Unit stays stored, its risk class is at least as high as
-- before, and its evidence and its outcomes are as they were.
pub run_escalations-IsAbove :
    (cs : List EscalateWorkUnitRisk) (s : Store) (id : String) (u : WorkUnit)
    → lookup id s.work_units ≡ some u
    → (u' : WorkUnit) × (lookup id (run_escalations cs s).work_units ≡ some u') × IsAbove u u'
unfolding run_escalations
run_escalations-IsAbove [] s id u stored =
    (u, stored, record { rank = omega arith; same_evidence = refl; same_outcomes = refl })
run_escalations-IsAbove (c ∷ cs) s id u stored =
    elim (Result-cases (handle_escalate_work_unit_risk c s)) [
      | inl (ws, accepted) ↦
          let (mid, stored', first) = step-IsAbove c s ws id u accepted stored in
          let (after, stored'', rest) =
            run_escalations-IsAbove cs (apply_writes ws s) id mid stored' in
          rw (accepted, run_escalations)
            (
              after,
              stored'',
              record {
                rank = omega (arith, first.rank, rest.rank);
                same_evidence = rest.same_evidence ∙ first.same_evidence;
                same_outcomes = rest.same_outcomes ∙ first.same_outcomes;
              },
            )
      | inr (e, refused) ↦ rw (refused, run_escalations) (run_escalations-IsAbove cs s id u stored)
    ]
