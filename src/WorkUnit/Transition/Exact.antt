-- ===== src/WorkUnit/Transition/Exact.antt =====
-- When TransitionWorkUnit succeeds, and what it writes.
use governed_ai_dev_team_fra.Common.{
  ◌+◌, String, Bool, true, false, not, ◌&&◌, some, List, [], ◌∷◌, ◌≡◌, ◌↔◌, refl, Option-cases,
  string_eq, nat_eq, ◌==◌, is_nil, arith, eq_iff, Bool-cases, inl, inr,
}
use governed_ai_dev_team_fra.Common.Dict.{lookup, lookup-put}
use governed_ai_dev_team_fra.Errors.{ok, raise, conflict}
use governed_ai_dev_team_fra.Documents.{WorkUnit, integer}
use governed_ai_dev_team_fra.Documents.Store.{Store, Write, work_unit}
use governed_ai_dev_team_fra.WorkUnit.Status.{is_transition_allowed}
use governed_ai_dev_team_fra.WorkUnit.Done.{
  missing_done_prerequisites, IsComplete, missing_done_prerequisites-nil,
}
use governed_ai_dev_team_fra.WorkUnit.Transition.{
  TransitionWorkUnit, current_revision, handle_transition_work_unit, committed,
}

-- What the handler asks for before it moves the stored document.
pub record IsPermitted (conforms : WorkUnit → Bool) (c : TransitionWorkUnit) (document : WorkUnit)
    : Type 0 where
  pub same_id : document.id ≡ c.id
  pub current : current_revision document.revision ≡ ok c.expected_revision
  pub allowed : is_transition_allowed document.status c.to_status ≡ true
  pub complete : c.to_status ≡ "done" → IsComplete conforms document

-- The document that the command writes.
abbrev pub moved : TransitionWorkUnit → WorkUnit → WorkUnit
moved c document = record document {
  status = c.to_status;
  revision = integer (c.expected_revision + 1);
  updated_at = some c.now;
}

nil-is_nil {ℓ} : {A : Type ℓ} (xs : List A) → is_nil xs ≡ true → xs ≡ []
nil-is_nil [] h = refl
nil-is_nil (x ∷ xs) h = cc

module _ (conforms : WorkUnit → Bool) (to_status : String) (document : WorkUnit) where
  abbrev is_refused : Bool
  is_refused =
      to_status == "done" && not (is_nil (missing_done_prerequisites (some conforms) document))

  complete-accepted : (to_status ≡ "done" → IsComplete conforms document) → is_refused ≡ false
  complete-accepted complete = elim (Bool-cases (to_status == "done")) [
    | inl done ↦
        let empty =
          (missing_done_prerequisites-nil conforms document).1
            (complete ((eq_iff to_status "done").0 done)) in
        rw (done, empty)
    | inr other ↦ rw other
  ]

  accepted-complete : is_refused ≡ false → to_status ≡ "done" → IsComplete conforms document
  accepted-complete accepted done = (missing_done_prerequisites-nil conforms document).0 (
      nil-is_nil (missing_done_prerequisites (some conforms) document)
        (ground (arith, accepted, eq_iff to_status "done")))

module _ (conforms : WorkUnit → Bool) (c : TransitionWorkUnit) (s : Store) (document : WorkUnit)
    (stored : lookup c.id s.work_units ≡ some document) where
  pub permitted-writes :
      IsPermitted conforms c document
      → handle_transition_work_unit conforms c s ≡ ok (work_unit c.id (moved c document) ∷ [])
  unfolding handle_transition_work_unit
  permitted-writes p = ground (
    arith,
    stored,
    p.same_id,
    p.current,
    p.allowed,
    eq_iff document.id c.id,
    complete-accepted conforms c.to_status document p.complete,
  )

  pub move_is_legal :
      (ws : List Write)
      → handle_transition_work_unit conforms c s ≡ ok ws
      → IsPermitted conforms c document
  unfolding handle_transition_work_unit
  move_is_legal ws h = record {
    same_id = ground (arith, eq_iff document.id c.id);
    current = ground arith;
    allowed = ground arith;
    complete = accepted-complete conforms c.to_status document (ground arith);
  }

-- A command on a stored Work Unit is accepted with writes `ws` exactly if the document carries the
-- command's id and expected revision, the move is permitted, and a move to `done` finds the
-- document complete; `ws` is then the one write of the document with the new status, the next
-- revision and the time, and every other field as it was.
pub transition_exact :
    (conforms : WorkUnit → Bool) (c : TransitionWorkUnit) (s : Store) (document : WorkUnit)
    (ws : List Write)
    → lookup c.id s.work_units ≡ some document
    → (handle_transition_work_unit conforms c s ≡ ok ws)
      ↔ (IsPermitted conforms c document × (ws ≡ work_unit c.id (moved c document) ∷ []))
transition_exact conforms c s document ws stored = (
  λ h.
      let p = move_is_legal conforms c s document stored ws h in
      (p, cc (h, permitted-writes conforms c s document stored p)),
  λ (p, e). rw e (permitted-writes conforms c s document stored p),
)

pub stored_of_accepted :
    (conforms : WorkUnit → Bool) (c : TransitionWorkUnit) (s : Store) (ws : List Write)
    → handle_transition_work_unit conforms c s ≡ ok ws
    → (document : WorkUnit) × (lookup c.id s.work_units ≡ some document)
unfolding handle_transition_work_unit
stored_of_accepted conforms c s ws h = elim (Option-cases (lookup c.id s.work_units)) [
  | inl missing ↦ ground arith
  | inr found ↦ found
]

stale-refused :
    (conforms : WorkUnit → Bool) (d : TransitionWorkUnit) (s : Store) (current : WorkUnit)
    → lookup d.id s.work_units ≡ some current
    → current.id ≡ d.id
    → current_revision current.revision ≡ ok (d.expected_revision + 1)
    → handle_transition_work_unit conforms d s ≡ raise conflict "/target/expected_revision"
unfolding handle_transition_work_unit
stale-refused conforms d s current stored same next = ground (arith, eq_iff current.id d.id)

-- Of two commands on one Work Unit with the same expected revision, the second is refused with
-- CONFLICT once the first was accepted and committed: no update is lost.
pub no_lost_update :
    (conforms : WorkUnit → Bool) (c d : TransitionWorkUnit) (s : Store) (ws : List Write)
    → handle_transition_work_unit conforms c s ≡ ok ws
    → d.id ≡ c.id
    → d.expected_revision ≡ c.expected_revision
    → handle_transition_work_unit conforms d (committed (ok ws) s)
      ≡ raise conflict "/target/expected_revision"
no_lost_update conforms c d s ws h same_id same_revision =
    let (document, stored) = stored_of_accepted conforms c s ws h in
    let (p, written) = (transition_exact conforms c s document ws stored).0 h in
    rw written (
      stale-refused conforms d (committed (ok (work_unit c.id (moved c document) ∷ [])) s)
        (moved c document)
        (ground (arith, lookup-put c.id d.id (moved c document) s.work_units, eq_iff c.id d.id))
        (cc (p.same_id)) (unfold current_revision in cc))
