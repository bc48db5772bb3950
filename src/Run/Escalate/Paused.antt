-- ===== src/Run/Escalate/Paused.antt =====
-- What the pause of an escalation brings about.
use governed_ai_dev_team_fra.Common.{
  ℕ, String, Bool, true, false, not, ◌&&◌, ◌||◌, some, List, [], ◌∷◌, ◌≡◌, refl, &&-both,
  Bool-cases, inl, inr, string_eq, ◌==◌, elem, any-elem, arith, eq_iff, eq_refl, subst, sym, ◌∙◌,
  all-elem,
}
use governed_ai_dev_team_fra.Common.Dict.{Dict, lookup, put, remove, lookup-put, lookup-remove}
use governed_ai_dev_team_fra.Errors.{ok}
use governed_ai_dev_team_fra.Documents.{WorkUnit, Run, LeaseRef}
use governed_ai_dev_team_fra.Documents.Store.{Store, Write, apply_writes}
use governed_ai_dev_team_fra.WorkUnit.Status.{is_transition_allowed}
use governed_ai_dev_team_fra.Machine
use governed_ai_dev_team_fra.Run.Leases.{is_critical}
use governed_ai_dev_team_fra.Run.Escalate.{
  EscalateWorkUnitRisk, handle_escalate_work_unit_risk, must_pause, risk_order, critical_conflict,
  is_closed, is_leased, is_busy, escalated, escalated_run,
}
use governed_ai_dev_team_fra.Run.Escalate.Upward.{
  WasAccepted, accepted_lem, work_units_after, runs_after,
}

-- The leased Work Units of a run of which two are not critical at once
abbrev pub HasOneCriticalLease : Dict WorkUnit → Run → Type 0
HasOneCriticalLease units d =
    (v w : String) (ref ref' : LeaseRef)
    → lookup v d.leases_by_work_unit ≡ some ref
    → lookup w d.leases_by_work_unit ≡ some ref'
    → (is_critical (lookup v units) && is_critical (lookup w units)) ≡ true
    → v ≡ w

-- Only Work Units of the run are leased.
abbrev pub IsStaffed : Run → Type 0
IsStaffed d =
    (w : String) (ref : LeaseRef)
    → lookup w d.leases_by_work_unit ≡ some ref
    → elem w d.work_unit_ids ≡ true

module _ (c : EscalateWorkUnitRisk) (s : Store) (ws : List Write) (d : Run) (u : WorkUnit)
    (a : WasAccepted c s ws d u) where
  abbrev new_unit : WorkUnit
  new_unit = escalated c a.current a.pausing u

  -- Without a pause, no other leased Work Unit is critical if the escalated one is now.
  alone :
      (v : String) (ref : LeaseRef)
      → a.pausing ≡ false
      → is_closed u ≡ false
      → IsStaffed d
      → lookup v d.leases_by_work_unit ≡ some ref
      → (v == c.work_unit_id) ≡ false
      → (c.new_risk_class == "critical") ≡ true
      → is_critical (lookup v s.work_units) ≡ false
  unfolding must_pause critical_conflict
  alone v ref going open_unit staffed held other crit =
      let calm : critical_conflict c d s ≡ false =
        ground (arith, a.pausing_lem, going, open_unit) in
      let none_has =
        any-elem
          (λ other_id.
            not (other_id == c.work_unit_id)
            && (is_critical (lookup other_id s.work_units)
                && (is_busy (lookup other_id s.work_units)
                    || is_leased (lookup other_id d.leases_by_work_unit))))
          v d.work_unit_ids (ground (arith, calm, crit)) (staffed v ref held) in
      ground (arith, none_has, held, other)

  abbrev new_units : Dict WorkUnit
  new_units = put c.work_unit_id new_unit s.work_units

  -- What is leased and critical afterwards is the escalated Work Unit, or was leased and critical.
  calm_pair :
      (v w : String) (ref ref' : LeaseRef)
      → a.pausing ≡ false
      → is_closed u ≡ false
      → IsStaffed d
      → lookup w d.leases_by_work_unit ≡ some ref'
      → (c.work_unit_id == v) ≡ true
      → (c.work_unit_id == w) ≡ false
      → (is_critical (lookup v new_units) && is_critical (lookup w new_units)) ≡ true
      → v ≡ w
  calm_pair v w ref ref' going open_unit staffed held here there crit =
      let both =
        &&-both (is_critical (lookup v new_units)) (is_critical (lookup w new_units)) crit in
      let at_v : (c.new_risk_class == "critical") ≡ true =
        ground (arith, both.0, here, lookup-put c.work_unit_id v new_unit s.work_units) in
      let at_w : is_critical (lookup w s.work_units) ≡ true =
        ground (arith, both.1, there, lookup-put c.work_unit_id w new_unit s.work_units) in
      cc (
        at_w,
        alone w ref' going open_unit staffed held
            (ground (arith, there, eq_iff c.work_unit_id w, eq_iff w c.work_unit_id)) at_v,
      )

  old_pair :
      (v w : String) (ref ref' : LeaseRef)
      → HasOneCriticalLease s.work_units d
      → lookup v d.leases_by_work_unit ≡ some ref
      → lookup w d.leases_by_work_unit ≡ some ref'
      → (c.work_unit_id == v) ≡ false
      → (c.work_unit_id == w) ≡ false
      → (is_critical (lookup v new_units) && is_critical (lookup w new_units)) ≡ true
      → v ≡ w
  old_pair v w ref ref' k hv hw not_v not_w crit =
      let both =
        &&-both (is_critical (lookup v new_units)) (is_critical (lookup w new_units)) crit in
      let at_v : is_critical (lookup v s.work_units) ≡ true =
        ground (arith, both.0, not_v, lookup-put c.work_unit_id v new_unit s.work_units) in
      let at_w : is_critical (lookup w s.work_units) ≡ true =
        ground (arith, both.1, not_w, lookup-put c.work_unit_id w new_unit s.work_units) in
      k v w ref ref' hv hw (rw (at_v, at_w) refl)

  going-HasOneCriticalLease :
      a.pausing ≡ false
      → is_closed u ≡ false
      → IsStaffed d
      → HasOneCriticalLease s.work_units d
      → HasOneCriticalLease new_units d
  going-HasOneCriticalLease going open_unit staffed k v w ref ref' hv hw crit =
      elim (Bool-cases (c.work_unit_id == v)) [
        | inl here ↦ elim (Bool-cases (c.work_unit_id == w)) [
          | inl also ↦ sym ((eq_iff c.work_unit_id v).0 here) ∙ (eq_iff c.work_unit_id w).0 also
          | inr there ↦ calm_pair v w ref ref' going open_unit staffed hw here there crit
        ]
        | inr not_v ↦ elim (Bool-cases (c.work_unit_id == w)) [
          | inl here ↦
              sym (
                calm_pair w v ref' ref going open_unit staffed hv here not_v (ground (arith, crit)))
          | inr not_w ↦ old_pair v w ref ref' k hv hw not_v not_w crit
        ]
      ]

  was_leased :
      (v : String) (ref : LeaseRef)
      → lookup v (remove c.work_unit_id d.leases_by_work_unit) ≡ some ref
      → ((c.work_unit_id == v) ≡ false) × (lookup v d.leases_by_work_unit ≡ some ref)
  was_leased v ref held = (
    ground (arith, held, lookup-remove c.work_unit_id v d.leases_by_work_unit),
    ground (arith, held, lookup-remove c.work_unit_id v d.leases_by_work_unit),
  )

  after-HasOneCriticalLease :
      is_closed u ≡ false
      → IsStaffed d
      → HasOneCriticalLease s.work_units d
      → HasOneCriticalLease new_units (escalated_run c a.pausing d)
  after-HasOneCriticalLease open_unit staffed k = elim (Bool-cases a.pausing) [
    | inr going ↦
        subst (λ p. HasOneCriticalLease new_units (escalated_run c p d)) (sym going)
          (going-HasOneCriticalLease going open_unit staffed k)
    | inl paused ↦
        subst (λ p. HasOneCriticalLease new_units (escalated_run c p d)) (sym paused)
          (λ v w ref ref' hv hw crit.
            let (not_v, old_v) = was_leased v ref hv in
            let (not_w, old_w) = was_leased w ref' hw in
            old_pair v w ref ref' k old_v old_w not_v not_w crit)
  ]

-- An accepted escalation of a Work Unit that is neither done nor cancelled leaves its run with at
-- most one critical Work Unit that is leased, if it had at most one and leases its own Work Units
-- only: the escalated one, or else the other, is without a lease.
pub escalation-HasOneCriticalLease :
    (c : EscalateWorkUnitRisk) (s : Store) (ws : List Write) (d : Run) (u : WorkUnit)
    → handle_escalate_work_unit_risk c s ≡ ok ws
    → lookup c.id s.runs ≡ some d
    → lookup c.work_unit_id s.work_units ≡ some u
    → is_closed u ≡ false
    → IsStaffed d
    → HasOneCriticalLease s.work_units d
    → (d' : Run) × (lookup c.id (apply_writes ws s).runs ≡ some d')
      × HasOneCriticalLease (apply_writes ws s).work_units d'
escalation-HasOneCriticalLease c s ws d u h held stored open_unit staffed k =
    let (d₁, u₁, held₁, stored₁, a) = accepted_lem c s ws h in
    let run_same : d₁ ≡ d = cc (held, held₁) in
    let unit_same : u₁ ≡ u = cc (stored, stored₁) in
    (
      escalated_run c a.pausing d₁,
      rw
          (
            runs_after c s ws d₁ u₁ a,
            lookup-put c.id c.id (escalated_run c a.pausing d₁) s.runs,
            eq_refl c.id,
          )
          refl,
      subst (λ units. HasOneCriticalLease units (escalated_run c a.pausing d₁))
          (sym (work_units_after c s ws d₁ u₁ a))
          (after-HasOneCriticalLease c s ws d₁ u₁ a (rw unit_same open_unit) (rw run_same staffed)
            (rw run_same k)),
    )

-- Every status but in_progress and waiting_decision, of a Work Unit that is not closed
abbrev pub other_statuses : List String
other_statuses =
    "draft" ∷ "ready" ∷ "blocked" ∷ "verification" ∷ "review" ∷ "audit" ∷ "human_test"
    ∷ "remediation_required" ∷ []

abbrev is_open_and_stuck : String → Bool
is_open_and_stuck status =
    not (elem status ("done" ∷ "cancelled" ∷ []))
    && not (is_transition_allowed status "waiting_decision")

open_and_stuck :
    (status : String)
    → elem status other_statuses ≡ true
    → (elem status ("done" ∷ "cancelled" ∷ []) ≡ false)
      × (is_transition_allowed status "waiting_decision" ≡ false)
unfolding is_transition_allowed Machine.is_transition_allowed Machine.allowed_targets lookup
open_and_stuck status listed =
    let p = all-elem is_open_and_stuck status other_statuses refl listed in
    let both =
      &&-both (not (elem status ("done" ∷ "cancelled" ∷ [])))
        (not (is_transition_allowed status "waiting_decision")) p in
    (unnegated _ both.0, unnegated _ both.1)
  where
    unnegated : (b : Bool) → not b ≡ true → b ≡ false
    unnegated b h = ground arith

-- An accepted escalation that has to pause writes the status waiting_decision to a Work Unit in any
-- open status; from every open status but in_progress and waiting_decision itself the state machine
-- of Work Units does not permit this move.
pub pause_skips_table :
    (c : EscalateWorkUnitRisk) (s : Store) (ws : List Write) (d : Run) (u : WorkUnit) (new : ℕ)
    → handle_escalate_work_unit_risk c s ≡ ok ws
    → lookup c.id s.runs ≡ some d
    → lookup c.work_unit_id s.work_units ≡ some u
    → risk_order c.new_risk_class ≡ some new
    → must_pause c new d s ≡ true
    → elem u.status other_statuses ≡ true
    → ((u' : WorkUnit) × (lookup c.work_unit_id (apply_writes ws s).work_units ≡ some u')
        × (u'.status ≡ "waiting_decision"))
      × (is_transition_allowed u.status "waiting_decision" ≡ false)
pause_skips_table c s ws d u new h held stored known pause listed =
    let (d₁, u₁, held₁, stored₁, a) = accepted_lem c s ws h in
    let (is_open, stuck) = open_and_stuck u.status listed in
    let run_same : d₁ ≡ d = cc (held, held₁) in
    let unit_same : u₁ ≡ u = cc (stored, stored₁) in
    let rank_same : a.new_rank ≡ new = cc (known, a.known) in
    let open₁ : is_closed u₁ ≡ false = rw unit_same is_open in
    let pause₁ : must_pause c a.new_rank d₁ s ≡ true = rw (run_same, rank_same) pause in
    let pausing : a.pausing ≡ true = rw (a.pausing_lem, open₁, pause₁) refl in
    let u' = escalated c a.current a.pausing u₁ in
    (
      (
        u',
        rw
            (
              work_units_after c s ws d₁ u₁ a,
              lookup-put c.work_unit_id c.work_unit_id u' s.work_units,
              eq_refl c.work_unit_id,
            )
            refl,
        ground (arith, pausing),
      ),
      stuck,
    )
