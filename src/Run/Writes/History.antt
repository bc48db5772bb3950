-- ===== src/Run/Writes/History.antt =====
-- What any sequence of RecordExecutionAttempt commands does to an attempt.
use governed_ai_dev_team_fra.Common.{
  String, Bool, true, false, ◌&&◌, Option, some, get_or, List, [], ◌∷◌, ◌≡◌, ◌⊎◌, inl, inr, refl,
  ◌∙◌, not, Bool-cases, Option-cases, string_eq, ◌==◌, arith, eq_iff,
}
use governed_ai_dev_team_fra.Common.Dict.{lookup}
use governed_ai_dev_team_fra.Errors.{Result, ok, err, Result-cases, raise_if-eq-ok, unauthorized}
use governed_ai_dev_team_fra.Documents.{Run, Attempt, Ceiling}
use governed_ai_dev_team_fra.Documents.Store.{Store, Write, apply_writes}
use governed_ai_dev_team_fra.Run.Ceiling.{
  default_execution_ceiling, is_step_permitted, capability_for_step,
}
use governed_ai_dev_team_fra.Run.Writes.Attempts.{
  RecordExecutionAttempt, handle_record_execution_attempt, check_ceiling,
}
use governed_ai_dev_team_fra.Run.Writes.Lifecycle.{
  Finalises, accepted_lem, other_kept, may_finalise, finalised,
}

-- An attempt is as it was before some commands, or was finalised once.
abbrev pub Follows : Attempt → Option Attempt → Type 0
Follows before now =
    (now ≡ some before) ⊎ ((after : Attempt) × (now ≡ some after) × Finalises before after)

module _ (validate : Attempt → Result (Unit {0})) where
  abbrev pub after_attempt : Result (List Write) → Store → Store
  after_attempt (ok ws) s = apply_writes ws s
  after_attempt (err e) s = s

  -- A sequence of commands; a refused one writes nothing.
  unfoldable pub run_attempts : List RecordExecutionAttempt → Store → Store
  run_attempts [] s = s
  run_attempts (c ∷ cs) s =
      run_attempts cs (after_attempt (handle_record_execution_attempt validate c s) s)

  -- One accepted command
  step-Follows :
      (c : RecordExecutionAttempt) (s : Store) (ws : List Write) (id : String) (before : Attempt)
      → handle_record_execution_attempt validate c s ≡ ok ws
      → lookup id s.attempts ≡ some before
      → Follows before (lookup id (apply_writes ws s).attempts)
  step-Follows c s ws id before h stored = elim (Bool-cases (c.id == id)) [
    | inl same ↦
        let name : c.id ≡ id = (eq_iff c.id id).0 same in
        rw (← name) (inr (finalised validate c s ws h before (rw name stored)))
    | inr other ↦ inl (other_kept validate c s ws h id other ∙ stored)
  ]

  terminal_kept :
      (c : RecordExecutionAttempt) (s : Store) (ws : List Write) (id : String) (before : Attempt)
      → handle_record_execution_attempt validate c s ≡ ok ws
      → lookup id s.attempts ≡ some before
      → (before.status == "started") ≡ false
      → lookup id (apply_writes ws s).attempts ≡ some before
  terminal_kept c s ws id before h stored terminal = elim (step-Follows c s ws id before h stored) [
    | inl kept ↦ kept
    | inr (after, now, f) ↦ ground (arith, f.was_started, eq_iff before.status "started")
  ]

  terminal_forever :
      (cs : List RecordExecutionAttempt) (s : Store) (id : String) (before : Attempt)
      → lookup id s.attempts ≡ some before
      → (before.status == "started") ≡ false
      → lookup id (run_attempts cs s).attempts ≡ some before
  unfolding run_attempts
  terminal_forever [] s id before stored terminal = stored
  terminal_forever (c ∷ cs) s id before stored terminal =
      elim (Result-cases (handle_record_execution_attempt validate c s)) [
        | inl (ws, accepted) ↦
            rw (accepted, run_attempts)
              (terminal_forever cs (apply_writes ws s) id before
                (terminal_kept c s ws id before accepted stored terminal) terminal)
        | inr (e, refused) ↦
            rw (refused, run_attempts) (terminal_forever cs s id before stored terminal)
      ]

  -- Whatever RecordExecutionAttempt commands run, by workers or as orphan recovery, a stored attempt
  -- is afterwards as it was, or it was started and was finalised exactly once: a status other than
  -- started, the next revision, and the run, execution, Work Unit, lease, epoch and step it had. An
  -- attempt that has ended never changes.
  pub run_attempts-Follows :
      (cs : List RecordExecutionAttempt) (s : Store) (id : String) (before : Attempt)
      → lookup id s.attempts ≡ some before
      → Follows before (lookup id (run_attempts cs s).attempts)
  unfolding run_attempts
  run_attempts-Follows [] s id before stored = inl stored
  run_attempts-Follows (c ∷ cs) s id before stored =
      elim (Result-cases (handle_record_execution_attempt validate c s)) [
        | inl (ws, accepted) ↦ elim (step-Follows c s ws id before accepted stored) [
          | inl kept ↦
              rw (accepted, run_attempts)
                (run_attempts-Follows cs (apply_writes ws s) id before kept)
          | inr (after, now, f) ↦
              rw (accepted, run_attempts)
                (inr (after, terminal_forever cs (apply_writes ws s) id after now f.is_terminal, f))
        ]
        | inr (e, refused) ↦ rw (refused, run_attempts) (run_attempts-Follows cs s id before stored)
      ]

-- Whether a run forbids a step to a Work Unit, even to its integration steward
abbrev pub is_forbidden_in : Run → String → String → Bool
is_forbidden_in d work_unit_id step =
    not
      (is_step_permitted
        (get_or (lookup work_unit_id d.execution_ceilings_by_work_unit) default_execution_ceiling)
        step true).0

permitted_with_more :
    (ceiling : Ceiling) (step : String) (authorized : Bool)
    → (is_step_permitted ceiling step authorized).0 ≡ true
    → (is_step_permitted ceiling step true).0 ≡ true
unfolding is_step_permitted
permitted_with_more ceiling step authorized h = elim (Option-cases (capability_for_step step)) [
  | inl free ↦ rw free refl
  | inr (dimension, governed) ↦ ground arith
]

unnegated : (b : Bool) → not b ≡ false → b ≡ true
unnegated b h = ground arith

check_ceiling-is_forbidden_in :
    (c : RecordExecutionAttempt) (d : Run)
    → check_ceiling c d ≡ ok tt
    → is_forbidden_in d c.work_unit_id c.step ≡ false
unfolding check_ceiling
check_ceiling-is_forbidden_in c d h =
    let ceiling =
      get_or (lookup c.work_unit_id d.execution_ceilings_by_work_unit) default_execution_ceiling in
    let authorized = c.step == "integration_review" && c.actor_role == "integration-steward" in
    let permitted = unnegated _ (
      raise_if-eq-ok (not (is_step_permitted ceiling c.step authorized).0) unauthorized
        "/payload/step" h) in
    rw (permitted_with_more ceiling c.step authorized permitted) refl

module _ (validate : Attempt → Result (Unit {0})) (id : String) (before : Attempt) (d : Run)
    (forbidden : is_forbidden_in d before.work_unit_id before.step ≡ true) where
  stranded_step :
      (c : RecordExecutionAttempt) (s : Store) (ws : List Write)
      → handle_record_execution_attempt validate c s ≡ ok ws
      → lookup id s.attempts ≡ some before
      → lookup before.run_id s.runs ≡ some d
      → (lookup id (apply_writes ws s).attempts ≡ some before)
        × (lookup before.run_id (apply_writes ws s).runs ≡ some d)
  stranded_step c s ws h stored held =
      let (d', a) = accepted_lem validate c s ws h in
      (
        elim (Bool-cases (c.id == id)) [
          | inl same ↦
              let name : c.id ≡ id = (eq_iff c.id id).0 same in
              let (was, terminal, fields) =
                may_finalise validate c s ws h before (rw name stored) in
              let here : lookup before.run_id s.runs ≡ some d' = rw fields.run_id a.stored in
              let one : d' ≡ d = cc (here, held) in
              let open_to : is_forbidden_in d before.work_unit_id before.step ≡ false =
                rw (fields.work_unit_id, fields.step, ← one)
                  (check_ceiling-is_forbidden_in c d' a.within_ceiling) in
              cc (forbidden, open_to)
          | inr other ↦ other_kept validate c s ws h id other ∙ stored
        ],
        rw a.same_runs held,
      )

  -- An attempt whose step its run has come to forbid to its Work Unit, even to the integration
  -- steward, stays as it is under every sequence of RecordExecutionAttempt commands: if it was
  -- started, neither its worker nor an orphan recovery can finalise it.
  pub forbidden_step_strands :
      (cs : List RecordExecutionAttempt) (s : Store)
      → lookup id s.attempts ≡ some before
      → lookup before.run_id s.runs ≡ some d
      → lookup id (run_attempts validate cs s).attempts ≡ some before
  unfolding run_attempts
  forbidden_step_strands [] s stored held = stored
  forbidden_step_strands (c ∷ cs) s stored held =
      elim (Result-cases (handle_record_execution_attempt validate c s)) [
        | inl (ws, accepted) ↦
            let (stored', held') = stranded_step c s ws accepted stored held in
            rw (accepted, run_attempts)
              (forbidden_step_strands cs (apply_writes ws s) stored' held')
        | inr (e, refused) ↦ rw (refused, run_attempts) (forbidden_step_strands cs s stored held)
      ]
