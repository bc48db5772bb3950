-- ===== src/WorkUnit/Transition/History.antt =====
-- What any sequence of TransitionWorkUnit commands, accepted or refused, does to a Work Unit.
use governed_ai_dev_team_fra.Common.{
  true, String, Bool, Option, some, List, [], ◌∷◌, ◌≡◌, refl, string_eq, ◌==◌, eq_iff, Bool-cases,
  inl, inr, ◌⊎◌, subst,
}
use governed_ai_dev_team_fra.Common.Dict.{lookup, lookup-put}
use governed_ai_dev_team_fra.Errors.{Result-cases}
use governed_ai_dev_team_fra.Documents.{WorkUnit}
use governed_ai_dev_team_fra.Documents.Store.{Store}
use governed_ai_dev_team_fra.Machine.Passage.{Reach, here, next}
use governed_ai_dev_team_fra.WorkUnit.Status.{normative_transitions, is_transition_allowed}
use governed_ai_dev_team_fra.WorkUnit.Done.{IsComplete}
use governed_ai_dev_team_fra.WorkUnit.Transition.{
  TransitionWorkUnit, handle_transition_work_unit, committed, run_transitions,
}
use governed_ai_dev_team_fra.WorkUnit.Transition.Exact.{
  IsPermitted, moved, transition_exact, stored_of_accepted,
}

-- How a document stands to what it was before some commands.
pub record Continues (conforms : WorkUnit → Bool) (before after : WorkUnit) : Type 0 where
  pub reached : Reach normative_transitions before.status after.status
  pub same_evidence : after.evidence ≡ before.evidence
  pub same_outcomes : after.outcomes ≡ before.outcomes
  pub same_required : after.required_verification ≡ before.required_verification
  pub finished :
      after.status ≡ "done"
      → (before.status ≡ "done")
        ⊎ ((last : WorkUnit) × IsComplete conforms last
            × (is_transition_allowed last.status "done" ≡ true)
            × (last ≡ record after {
              status = last.status;
              revision = last.revision;
              updated_at = last.updated_at;
            }))

Continues-refl : (conforms : WorkUnit → Bool) (d : WorkUnit) → Continues conforms d d
Continues-refl conforms d = record {
  reached = here;
  same_evidence = refl;
  same_outcomes = refl;
  same_required = refl;
  finished = λ done. inl done;
}

module _ (conforms : WorkUnit → Bool) (before : WorkUnit) where
  Continues-moved :
      (c : TransitionWorkUnit) (mid : WorkUnit)
      → IsPermitted conforms c mid
      → Continues conforms before mid
      → Continues conforms before (moved c mid)
  unfolding is_transition_allowed
  Continues-moved c mid p k = record {
    reached = next c.to_status k.reached p.allowed;
    same_evidence = k.same_evidence;
    same_outcomes = k.same_outcomes;
    same_required = k.same_required;
    finished = λ done. inr (
      mid,
      p.complete done,
      subst (λ s. is_transition_allowed mid.status s ≡ true) done p.allowed,
      refl,
    );
  }

  abbrev Continued : Option WorkUnit → Type 0
  Continued o = (after : WorkUnit) × (o ≡ some after) × Continues conforms before after

  Continued-committed :
      (id : String) (c : TransitionWorkUnit) (s : Store)
      → Continued (lookup id s.work_units)
      → Continued (lookup id (committed (handle_transition_work_unit conforms c s) s).work_units)
  Continued-committed id c s (mid, stored, k) =
      elim (Result-cases (handle_transition_work_unit conforms c s)) [
        | inr (e, refused) ↦ rw refused (mid, stored, k)
        | inl (ws, accepted) ↦
            let (document, found) = stored_of_accepted conforms c s ws accepted in
            let (p, written) = (transition_exact conforms c s document ws found).0 accepted in
            rw (accepted, written, lookup-put)
              (elim (Bool-cases (c.id == id)) [
                | inl same ↦
                    let one : mid ≡ document = cc ((eq_iff c.id id).0 same) in
                    rw same (
                      moved c document,
                      refl,
                      Continues-moved c document p (subst (Continues conforms before) one k),
                    )
                | inr other ↦ rw other (mid, stored, k)
              ])
      ]

  Continued-run :
      (id : String) (cs : List TransitionWorkUnit) (s : Store)
      → Continued (lookup id s.work_units)
      → Continued (lookup id (run_transitions conforms cs s).work_units)
  unfolding run_transitions
  Continued-run id [] s k = k
  Continued-run id (c ∷ cs) s k =
      Continued-run id cs (committed (handle_transition_work_unit conforms c s) s)
        (Continued-committed id c s k)

-- After any sequence of TransitionWorkUnit commands, accepted or refused, every stored Work Unit is
-- still stored, its status was reached by permitted transitions only, its evidence, outcomes and
-- required verification are untouched, and if it has become `done` then a complete document was
-- checked that differs from it in status, revision and time alone.
pub run_transitions-Continues :
    (conforms : WorkUnit → Bool) (cs : List TransitionWorkUnit) (s : Store) (id : String)
    (before : WorkUnit)
    → lookup id s.work_units ≡ some before
    → (after : WorkUnit) × (lookup id (run_transitions conforms cs s).work_units ≡ some after)
      × Continues conforms before after
run_transitions-Continues conforms cs s id before stored =
    Continued-run conforms before id cs s (before, stored, Continues-refl conforms before)
