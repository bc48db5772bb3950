-- ===== src/WorkUnit/Samples.antt =====
-- A small store of Work Units, and the theorems at it.
use governed_ai_dev_team_fra.Common.{
  String, Bool, true, false, none, some, List, [], ◌∷◌, ◌≡◌, ◌↔◌, refl, elem, string_eq,
}
use governed_ai_dev_team_fra.Common.Dict.{lookup, put}
use governed_ai_dev_team_fra.Errors.{ok, raise, conflict}
use governed_ai_dev_team_fra.Documents.{WorkUnit, integer}
use governed_ai_dev_team_fra.Documents.Store.{Store, Write, work_unit}
use governed_ai_dev_team_fra.Machine
use governed_ai_dev_team_fra.Machine.Passage.{follow}
use governed_ai_dev_team_fra.WorkUnit.Status.{
  normative_transitions, is_transition_allowed, done_passes_gates,
}
use governed_ai_dev_team_fra.WorkUnit.Done.{
  missing_done_prerequisites, IsComplete, missing_done_prerequisites-nil,
}
use governed_ai_dev_team_fra.WorkUnit.Transition.{
  TransitionWorkUnit, current_revision, handle_transition_work_unit, committed, run_transitions,
}
use governed_ai_dev_team_fra.WorkUnit.Transition.Exact.{
  IsPermitted, moved, transition_exact, no_lost_update,
}
use governed_ai_dev_team_fra.WorkUnit.Transition.History.{Continues, run_transitions-Continues}

program : Unit {0}
unfolding follow Machine.is_transition_allowed Machine.allowed_targets is_transition_allowed
    missing_done_prerequisites current_revision handle_transition_work_unit run_transitions lookup
    put
program = tt

abbrev happy_path : List String
happy_path = "ready" ∷ "in_progress" ∷ "verification" ∷ "review" ∷ "done" ∷ []

happy_path-done : follow normative_transitions "draft" happy_path ≡ some "done"
unfolding program
happy_path-done = refl

done_passes_gates_example :
    (elem "in_progress" happy_path ≡ true) × (elem "verification" happy_path ≡ true)
done_passes_gates_example = done_passes_gates happy_path happy_path-done

abbrev reviewed_unit : WorkUnit
reviewed_unit = record {
  id = "WU-1";
  status = "review";
  revision = integer 4;
  evidence = "EV-1" ∷ [];
  required_verification = record { review = true; audit = false; human_acceptance = false };
  outcomes = record {
    review_status = "approved";
    audit_status = "";
    human_acceptance = "";
    critical_open_items = [];
  };
  design_mode = "";
  risk_class = "low";
  risk_reasons = [];
  area = "backend";
  dependencies = [];
  updated_at = none;
}

abbrev conforms : WorkUnit → Bool
conforms d = false

missing_done_prerequisites-nil_example :
    (missing_done_prerequisites (some conforms) reviewed_unit ≡ [])
    ↔ IsComplete conforms reviewed_unit
missing_done_prerequisites-nil_example = missing_done_prerequisites-nil conforms reviewed_unit

abbrev store : Store
store = record {
  work_units = ("WU-1", reviewed_unit) ∷ [];
  runs = [];
  leases = [];
  escalations = [];
  events = [];
  attempts = [];
  checkpoints = [];
  merges = [];
  grants = [];
}

abbrev to_done : TransitionWorkUnit
to_done = record { id = "WU-1"; expected_revision = 4; to_status = "done"; now = 7 }

stored : lookup "WU-1" store.work_units ≡ some reviewed_unit
unfolding program
stored = refl

to_done-accepted :
    handle_transition_work_unit conforms to_done store
    ≡ ok (work_unit "WU-1" (moved to_done reviewed_unit) ∷ [])
unfolding program
to_done-accepted = refl

transition_exact_example :
    (handle_transition_work_unit conforms to_done store
      ≡ ok (work_unit "WU-1" (moved to_done reviewed_unit) ∷ []))
    ↔ (IsPermitted conforms to_done reviewed_unit
        × (◌≡◌ {A = List Write}
            (work_unit "WU-1" (moved to_done reviewed_unit) ∷ [])
            (work_unit "WU-1" (moved to_done reviewed_unit) ∷ [])))
transition_exact_example =
    transition_exact conforms to_done store reviewed_unit
      (work_unit "WU-1" (moved to_done reviewed_unit) ∷ []) stored

abbrev to_audit : TransitionWorkUnit
to_audit = record { id = "WU-1"; expected_revision = 4; to_status = "audit"; now = 8 }

no_lost_update_example :
    handle_transition_work_unit conforms to_audit
      (committed (ok (work_unit "WU-1" (moved to_done reviewed_unit) ∷ [])) store)
    ≡ raise conflict "/target/expected_revision"
no_lost_update_example =
    no_lost_update conforms to_done to_audit store
      (work_unit "WU-1" (moved to_done reviewed_unit) ∷ []) to_done-accepted refl refl

run_transitions-Continues_example :
    (after : WorkUnit) × (lookup "WU-1"
        (run_transitions conforms (to_done ∷ to_audit ∷ []) store).work_units
      ≡ some after)
    × Continues conforms reviewed_unit after
run_transitions-Continues_example =
    run_transitions-Continues conforms (to_done ∷ to_audit ∷ []) store "WU-1" reviewed_unit stored
