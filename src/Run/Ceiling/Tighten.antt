-- ===== src/Run/Ceiling/Tighten.antt =====
-- core/commands/handlers/tighten_execution_ceiling.py. `validate` stands for
-- `validate_against_schema` at the schema of an escalation document.
use governed_ai_dev_team_fra.Common.{
  ℕ, ◌+◌, String, not, Option, none, some, List, [], ◌∷◌, string_eq, nat_eq, option_eq, ◌==◌, elem,
}
use governed_ai_dev_team_fra.Common.Dict.{lookup, put}
use governed_ai_dev_team_fra.Errors.{
  Result, ok, err, raise, raise_if, ◌>>=◌, ◌>>◌, not_found, conflict, invalid_schema,
  invariant_violation, internal_error,
}
use governed_ai_dev_team_fra.Documents.{
  Run, Ceiling, Escalation, Revision, absent, integer, malformed,
}
use governed_ai_dev_team_fra.Documents.Store.{Store, Write, run, escalation, apply_writes}
use governed_ai_dev_team_fra.Run.Ceiling.{ceiling_dimensions, ceiling_states, can_tighten}

-- The parts of the envelope that the handler reads, the time at which it runs, and the id that it
-- makes of the time, the Work Unit and the dimension.
pub record TightenExecutionCeiling : Type 0 where
  pub id : String
  pub expected_revision : ℕ
  pub work_unit_id : String
  pub dimension : String
  pub new_state : String
  pub reason : String
  pub escalation_id : String
  pub now : ℕ

-- `dimension not in CEILING_DIMENSIONS`, `new_state not in CEILING_STATES`
unfoldable pub check_names : String → String → Result (Unit {0})
check_names dimension new_state =
    raise_if (not (elem dimension ceiling_dimensions)) invalid_schema "/payload/dimension"
    >> raise_if (not (elem new_state ceiling_states)) invalid_schema "/payload/new_state"

abbrev pub load_run : Option Run → Result Run
load_run none = raise not_found "/target/id"
load_run (some document) = ok document

abbrev pub load_ceiling : Option Ceiling → Result Ceiling
load_ceiling none = raise not_found "/payload/work_unit_id"
load_ceiling (some ceiling) = ok ceiling

-- `ceiling[dimension]`; `internal_error` stands for the KeyError
abbrev pub load_state : Option String → Result String
load_state none = raise internal_error ""
load_state (some state) = ok state

-- `document.get("revision", 1)`, if it is an integer
abbrev pub integer_revision : Revision → Option ℕ
integer_revision absent = some 1
integer_revision (integer n) = some n
integer_revision malformed = none

-- The run with the tightened ceiling
abbrev pub tightened_run : TightenExecutionCeiling → Ceiling → Run → Run
tightened_run c ceiling document = record document {
  execution_ceilings_by_work_unit =
      put c.work_unit_id (put c.dimension c.new_state ceiling)
        document.execution_ceilings_by_work_unit;
  revision = integer (c.expected_revision + 1);
  updated_at = some c.now;
}

abbrev pub escalation_of : TightenExecutionCeiling → String → Escalation
escalation_of c current_state = record {
  run_id = c.id;
  work_unit_id = c.work_unit_id;
  dimension = c.dimension;
  previous_state = current_state;
  new_state = c.new_state;
  reason = c.reason;
  escalated_at = c.now;
}

unfoldable pub handle_tighten_execution_ceiling :
    (Escalation → Result (Unit {0})) → TightenExecutionCeiling → Store → Result (List Write)
handle_tighten_execution_ceiling validate c s = do
  document ← load_run (lookup c.id s.runs)
  raise_if (not (integer_revision document.revision == some c.expected_revision)) conflict
      "/target/expected_revision"
  check_names c.dimension c.new_state
  ceiling ← load_ceiling (lookup c.work_unit_id document.execution_ceilings_by_work_unit)
  current_state ← load_state (lookup c.dimension ceiling)
  raise_if (not (can_tighten current_state c.new_state)) invariant_violation "/payload/new_state"
  validate (escalation_of c current_state)
  ok (
      run c.id (tightened_run c ceiling document)
      ∷ escalation c.escalation_id (escalation_of c current_state)
      ∷ [])

abbrev pub after_tighten : Result (List Write) → Store → Store
after_tighten (ok ws) s = apply_writes ws s
after_tighten (err e) s = s

-- A sequence of commands; a refused one writes nothing.
unfoldable pub run_tightenings :
    (Escalation → Result (Unit {0})) → List TightenExecutionCeiling → Store → Store
run_tightenings validate [] s = s
run_tightenings validate (c ∷ cs) s =
    run_tightenings validate cs (after_tighten (handle_tighten_execution_ceiling validate c s) s)
