-- ===== src/WorkUnit/Transition.antt =====
-- core/commands/handlers/transition_work_unit.py and core/domain/work_unit/revision.py
pub mod Exact
pub mod History
use governed_ai_dev_team_fra.Common.{
  ℕ, ◌+◌, String, Bool, not, Option, none, some, List, [], ◌∷◌, string_eq, nat_eq, ◌==◌, ◌&&◌,
  is_nil, if◌then◌else◌,
}
use governed_ai_dev_team_fra.Common.Dict.{lookup}
use governed_ai_dev_team_fra.Errors.{
  Result, ok, err, raise, raise_if, ◌>>=◌, ◌>>◌, not_found, invariant_violation, invalid_schema,
  conflict, invalid_transition,
}
use governed_ai_dev_team_fra.Documents.{WorkUnit, Revision, absent, integer, malformed}
use governed_ai_dev_team_fra.Documents.Store.{Store, Write, work_unit, apply_writes}
use governed_ai_dev_team_fra.WorkUnit.Status.{is_transition_allowed}
use governed_ai_dev_team_fra.WorkUnit.Done.{missing_done_prerequisites}

-- revision.current_revision; its RevisionError becomes the handler's error
unfoldable pub current_revision : Revision → Result ℕ
current_revision absent = ok 1
current_revision (integer n) = ok n
current_revision malformed = raise invalid_schema "/revision"

-- The parts of the envelope that the handler reads, and the time at which it runs.
pub record TransitionWorkUnit : Type 0 where
  pub id : String
  pub expected_revision : ℕ
  pub to_status : String
  pub now : ℕ

-- `workspace_root.ai_team / "work-units" / f"{id}.yaml"`, if it is a file
abbrev pub load_work_unit : Option WorkUnit → Result WorkUnit
load_work_unit none = raise not_found "/target/id"
load_work_unit (some document) = ok document

-- `conforms` stands for the visual check of design_authority that `done` asks for.
unfoldable pub handle_transition_work_unit :
    (WorkUnit → Bool) → TransitionWorkUnit → Store → Result (List Write)
handle_transition_work_unit conforms c s = do
  document ← load_work_unit (lookup c.id s.work_units)
  raise_if (not (document.id == c.id)) invariant_violation "/target/id"
  current ← current_revision document.revision
  raise_if (not (c.expected_revision == current)) conflict "/target/expected_revision"
  raise_if (not (is_transition_allowed document.status c.to_status)) invalid_transition
      "/payload/to_status"
  raise_if
      (c.to_status == "done" && not (is_nil (missing_done_prerequisites (some conforms) document)))
      invariant_violation "/payload/to_status"
  let document' = record document {
    status = c.to_status;
    revision = integer (current + 1);
    updated_at = some c.now;
  }
  ok (work_unit c.id document' ∷ [])

-- The store after the command: a rejected command plans nothing that is committed.
abbrev pub committed : Result (List Write) → Store → Store
committed (ok ws) s = apply_writes ws s
committed (err e) s = s

unfoldable pub run_transitions : (WorkUnit → Bool) → List TransitionWorkUnit → Store → Store
run_transitions conforms [] s = s
run_transitions conforms (c ∷ cs) s =
    run_transitions conforms cs (committed (handle_transition_work_unit conforms c s) s)
