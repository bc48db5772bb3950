-- ===== src/Run/Leases/Bounds.antt =====
-- How many leases a run holds, and for which Work Units.
use governed_ai_dev_team_fra.Common.{
  ◌≤◌, ◌+◌, String, Bool, true, false, ◌&&◌, some, List, [], ◌∷◌, ◌≡◌, sym, ◌∙◌, &&-both,
  Bool-cases, inl, inr, string_eq, ◌==◌, arith, eq_iff, length, any,
}
use governed_ai_dev_team_fra.Common.Dict.{
  Dict, lookup, put, remove, keys, lookup-put, lookup-remove, length-put_old, length-put_new,
  length-remove-le,
}
use governed_ai_dev_team_fra.Errors.{Result}
use governed_ai_dev_team_fra.Documents.{WorkUnit, Run, Lease, LeaseRef}
use governed_ai_dev_team_fra.Documents.Store.{Store}
use governed_ai_dev_team_fra.Run.Leases.{
  LeaseCommand, is_critical, any_critical, maximum_of, leased_run, freed_run, run_lease_commands,
}
use governed_ai_dev_team_fra.Run.Leases.Step.{LeaseStep, staffed, reassigned, beaten, freed}
use governed_ai_dev_team_fra.Run.Leases.Fenced.{run_lease_commands-keeps}

-- No run has more entries than its maximum of parallel workers.
abbrev pub IsWithinMaximum : Store → Type 0
IsWithinMaximum s =
    (run_id : String) (d : Run)
    → lookup run_id s.runs ≡ some d
    → length d.leases_by_work_unit ≤ maximum_of d

-- Writing one run whose count is within its maximum
put-IsWithin :
    (s : Store) (r : String) (d : Run)
    → length d.leases_by_work_unit ≤ maximum_of d
    → IsWithinMaximum s
    → IsWithinMaximum (record s { runs = put r d s.runs })
put-IsWithin s r d within k r' d' stored' = elim (Bool-cases (r == r')) [
  | inl same ↦ let new : d ≡ d' = ground (arith, lookup-put r r' d s.runs) in rw (← new) within
  | inr other ↦ k r' d' (ground (arith, lookup-put r r' d s.runs))
]

LeaseStep-IsWithin : (s s' : Store) → LeaseStep s s' → IsWithinMaximum s → IsWithinMaximum s'
LeaseStep-IsWithin s _ (staffed c d stored fresh free below alone) k =
    put-IsWithin s c.run_id (leased_run c 1 d)
      (omega (
        arith,
        below,
        length-put_new c.work_unit_id (record { lease_id = c.id; epoch = 1 }) d.leases_by_work_unit
            free,
      ))
      k
LeaseStep-IsWithin s _ (reassigned c d ref stale stored fresh held found old) k =
    put-IsWithin s c.run_id (leased_run c (ref.epoch + 1) d)
      (omega (
        arith,
        k c.run_id d stored,
        length-put_old c.work_unit_id (record { lease_id = c.id; epoch = ref.epoch + 1 }) ref
            d.leases_by_work_unit held,
      ))
      k
LeaseStep-IsWithin s _ (beaten c d l ref stored found active held same epoch) k = k
LeaseStep-IsWithin s _ (freed c d l ref stored found active held same epoch) k =
    put-IsWithin s c.run_id (freed_run c d)
      (omega (arith, k c.run_id d stored, length-remove-le c.work_unit_id d.leases_by_work_unit)) k

-- No run holds leases of two critical Work Units.
abbrev pub HasOneCritical : Store → Type 0
HasOneCritical s =
    (run_id : String) (d : Run) (v w : String) (ref ref' : LeaseRef)
    → lookup run_id s.runs ≡ some d
    → lookup v d.leases_by_work_unit ≡ some ref
    → lookup w d.leases_by_work_unit ≡ some ref'
    → (is_critical (lookup v s.work_units) && is_critical (lookup w s.work_units)) ≡ true
    → v ≡ w

any-lookup :
    (p : String → Bool) (w : String) (refs : Dict LeaseRef) (ref : LeaseRef)
    → any p (keys refs) ≡ false
    → lookup w refs ≡ some ref
    → p w ≡ false
unfolding lookup
any-lookup p w [] ref none_has held = cc
any-lookup p w ((v, r) ∷ refs) ref none_has held = elim (Bool-cases (v == w)) [
  | inl here ↦ rw (← (eq_iff v w).0 here) (ground arith)
  | inr there ↦ any-lookup p w refs ref (ground arith) (ground arith)
]

-- The entries of the run's leases after an entry was written, among Work Units of which none is
-- critical if the new one is
abbrev OneOf : Dict WorkUnit → Dict LeaseRef → Type 0
OneOf units refs =
    (v w : String) (ref ref' : LeaseRef)
    → lookup v refs ≡ some ref
    → lookup w refs ≡ some ref'
    → (is_critical (lookup v units) && is_critical (lookup w units)) ≡ true
    → v ≡ w

put-HasOneCritical :
    (s : Store) (r : String) (d : Run)
    → OneOf s.work_units d.leases_by_work_unit
    → HasOneCritical s
    → HasOneCritical (record s { runs = put r d s.runs })
put-HasOneCritical s r d one k r' d' v w ref ref' stored' hv hw crit = elim (Bool-cases (r == r')) [
  | inl same ↦
      let new : d ≡ d' = ground (arith, lookup-put r r' d s.runs) in
      one v w ref ref' (rw new hv) (rw new hw) crit
  | inr other ↦ k r' d' v w ref ref' (ground (arith, lookup-put r r' d s.runs)) hv hw crit
]

was_held :
    (refs : Dict LeaseRef) (u v : String) (new old ref : LeaseRef)
    → lookup u refs ≡ some old
    → lookup v (put u new refs) ≡ some ref
    → (before : LeaseRef) × (lookup v refs ≡ some before)
was_held refs u v new old ref held hv = elim (Bool-cases (u == v)) [
  | inl same ↦ let name : u ≡ v = (eq_iff u v).0 same in (old, rw (← name) held)
  | inr other ↦ (ref, ground (arith, lookup-put u v new refs))
]

put-OneOf_old :
    (units : Dict WorkUnit) (refs : Dict LeaseRef) (u : String) (new old : LeaseRef)
    → lookup u refs ≡ some old
    → OneOf units refs
    → OneOf units (put u new refs)
put-OneOf_old units refs u new old held one v w ref ref' hv hw crit =
    let (a, ha) = was_held refs u v new old ref held hv in
    let (b, hb) = was_held refs u w new old ref' held hw in one v w a b ha hb crit

-- The new Work Unit is critical, and so is another one that is leased.
not_alone :
    (units : Dict WorkUnit) (refs : Dict LeaseRef) (u w : String) (new ref : LeaseRef)
    → (is_critical (lookup u units) && any_critical units refs) ≡ false
    → (u == w) ≡ false
    → lookup w (put u new refs) ≡ some ref
    → is_critical (lookup u units) ≡ true
    → is_critical (lookup w units) ≡ false
not_alone units refs u w new ref alone other hw crit =
    any-lookup (λ id. is_critical (lookup id units)) w refs ref (ground arith)
      (ground (arith, lookup-put u w new refs))

put-OneOf_new :
    (units : Dict WorkUnit) (refs : Dict LeaseRef) (u : String) (new : LeaseRef)
    → (is_critical (lookup u units) && any_critical units refs) ≡ false
    → OneOf units refs
    → OneOf units (put u new refs)
put-OneOf_new units refs u new alone one v w ref ref' hv hw crit = elim (Bool-cases (u == v)) [
  | inl here ↦ elim (Bool-cases (u == w)) [
    | inl there ↦ sym ((eq_iff u v).0 here) ∙ (eq_iff u w).0 there
    | inr other ↦
        let name : u ≡ v = (eq_iff u v).0 here in
        let calm = not_alone units refs u w new ref' alone other hw (
          rw name (&&-both (is_critical (lookup v units)) (is_critical (lookup w units)) crit).0) in
        ground arith
  ]
  | inr other ↦ elim (Bool-cases (u == w)) [
    | inl here ↦
        let name : u ≡ w = (eq_iff u w).0 here in
        let calm = not_alone units refs u v new ref alone other hv (
          rw name (&&-both (is_critical (lookup v units)) (is_critical (lookup w units)) crit).1) in
        ground arith
    | inr also ↦
        one v w ref ref' (ground (arith, lookup-put u v new refs))
          (ground (arith, lookup-put u w new refs)) crit
  ]
]

remove-OneOf :
    (units : Dict WorkUnit) (refs : Dict LeaseRef) (u : String)
    → OneOf units refs
    → OneOf units (remove u refs)
remove-OneOf units refs u one v w ref ref' hv hw crit =
    one v w ref ref' (ground (arith, lookup-remove u v refs))
      (ground (arith, lookup-remove u w refs)) crit

LeaseStep-HasOneCritical : (s s' : Store) → LeaseStep s s' → HasOneCritical s → HasOneCritical s'
LeaseStep-HasOneCritical s _ (staffed c d stored fresh free below alone) k =
    put-HasOneCritical s c.run_id (leased_run c 1 d)
      (put-OneOf_new s.work_units d.leases_by_work_unit c.work_unit_id
        (record { lease_id = c.id; epoch = 1 }) alone
        (λ v w ref ref' hv hw crit. k c.run_id d v w ref ref' stored hv hw crit))
      k
LeaseStep-HasOneCritical s _ (reassigned c d ref stale stored fresh held found old) k =
    put-HasOneCritical s c.run_id (leased_run c (ref.epoch + 1) d)
      (put-OneOf_old s.work_units d.leases_by_work_unit c.work_unit_id
        (record { lease_id = c.id; epoch = ref.epoch + 1 }) ref held
        (λ v w r r' hv hw crit. k c.run_id d v w r r' stored hv hw crit))
      k
LeaseStep-HasOneCritical s _ (beaten c d l ref stored found active held same epoch) k = k
LeaseStep-HasOneCritical s _ (freed c d l ref stored found active held same epoch) k =
    put-HasOneCritical s c.run_id (freed_run c d)
      (remove-OneOf s.work_units d.leases_by_work_unit c.work_unit_id
        (λ v w r r' hv hw crit. k c.run_id d v w r r' stored hv hw crit))
      k

module _ (validate : Lease → Result (Unit {0})) where
  -- If no run holds more leases than its maximum of parallel workers (4 where the run names none),
  -- then no run does after any sequence of lease commands.
  pub run_lease_commands-IsWithinMaximum :
      (cs : List LeaseCommand) (s : Store)
      → IsWithinMaximum s
      → IsWithinMaximum (run_lease_commands validate cs s)
  run_lease_commands-IsWithinMaximum =
      run_lease_commands-keeps validate IsWithinMaximum LeaseStep-IsWithin

  -- If no run holds leases of two critical Work Units, then no run does after any sequence of lease
  -- commands, the Work Units being as they were.
  pub run_lease_commands-HasOneCritical :
      (cs : List LeaseCommand) (s : Store)
      → HasOneCritical s
      → HasOneCritical (run_lease_commands validate cs s)
  run_lease_commands-HasOneCritical =
      run_lease_commands-keeps validate HasOneCritical LeaseStep-HasOneCritical
