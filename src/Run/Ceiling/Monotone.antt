-- ===== src/Run/Ceiling/Monotone.antt =====
-- A ceiling is only ever tightened.
use governed_ai_dev_team_fra.Common.{
  ◌≤◌, ◌<◌, String, true, some, List, [], ◌∷◌, ◌≡◌, Bool-cases, Option-cases, inl, inr, string_eq,
  nat_eq, option_eq, ◌==◌, arith, eq_iff, subst, eq_refl, ltb→lt,
}
use governed_ai_dev_team_fra.Common.Dict.{lookup, put, lookup-put}
use governed_ai_dev_team_fra.Errors.{Result, ok, Result-cases}
use governed_ai_dev_team_fra.Documents.{Run, Ceiling, Escalation}
use governed_ai_dev_team_fra.Documents.Store.{Store, Write, run, escalation, apply_writes}
use governed_ai_dev_team_fra.Run.Ceiling.{state_of, state_rank, can_tighten}
use governed_ai_dev_team_fra.Run.Ceiling.Tighten.{
  TightenExecutionCeiling, handle_tighten_execution_ceiling, tightened_run, escalation_of,
  run_tightenings,
}

-- `c'` is at least as restrictive as `c` in every dimension.
abbrev pub IsTighter : Ceiling → Ceiling → Type 0
IsTighter c c' =
    (dimension : String) → state_rank (state_of c dimension) ≤ state_rank (state_of c' dimension)

-- The ceiling that a run of the store gives a Work Unit
abbrev pub Governs : Store → String → String → Ceiling → Type 0
Governs s run_id work_unit_id ceiling =
    (d : Run) × (lookup run_id s.runs ≡ some d)
    × (lookup work_unit_id d.execution_ceilings_by_work_unit ≡ some ceiling)

put-IsTighter :
    (ceiling : Ceiling) (dimension old new : String)
    → lookup dimension ceiling ≡ some old
    → state_rank old < state_rank new
    → IsTighter ceiling (put dimension new ceiling)
put-IsTighter ceiling dimension old new found up other = elim (Bool-cases (dimension == other)) [
  | inl same ↦
      let name : dimension ≡ other = (eq_iff dimension other).0 same in
      let here : lookup other ceiling ≡ some old = rw (← name) found in
      rw (lookup-put dimension other new ceiling, same, here) (omega (arith, up))
  | inr there ↦ rw (lookup-put dimension other new ceiling, there) (omega arith)
]

can_tighten-lt : (old new : String) → can_tighten old new ≡ true → state_rank old < state_rank new
unfolding can_tighten
can_tighten-lt old new h = ltb→lt (state_rank old) (state_rank new) h

module _ (validate : Escalation → Result (Unit {0})) where
  -- What an accepted command found, and what it writes
  accepted_lem :
      (c : TightenExecutionCeiling) (s : Store) (ws : List Write) (d : Run) (ceiling : Ceiling)
      (old : String)
      → handle_tighten_execution_ceiling validate c s ≡ ok ws
      → lookup c.id s.runs ≡ some d
      → lookup c.work_unit_id d.execution_ceilings_by_work_unit ≡ some ceiling
      → lookup c.dimension ceiling ≡ some old
      → (state_rank old < state_rank c.new_state)
        × (ws
            ≡ run c.id (tightened_run c ceiling d)
              ∷ escalation c.escalation_id (escalation_of c old)
              ∷ [])
  unfolding handle_tighten_execution_ceiling
  accepted_lem c s ws d ceiling old h stored held found =
      (can_tighten-lt old c.new_state (ground arith), ground arith)

-- The same ceiling, or a tighter one
abbrev pub GovernsTighter : Store → String → String → Ceiling → Type 0
GovernsTighter s run_id work_unit_id before =
    (after : Ceiling) × Governs s run_id work_unit_id after × IsTighter before after

module _ (c : TightenExecutionCeiling) (s : Store) (d₀ : Run) (ceiling₀ : Ceiling) (old : String)
    (stored₀ : lookup c.id s.runs ≡ some d₀)
    (held₀ : lookup c.work_unit_id d₀.execution_ceilings_by_work_unit ≡ some ceiling₀)
    (found₀ : lookup c.dimension ceiling₀ ≡ some old)
    (up : state_rank old < state_rank c.new_state) where
  abbrev tightened_store : Store
  tightened_store =
      apply_writes
        (run c.id (tightened_run c ceiling₀ d₀)
          ∷ escalation c.escalation_id (escalation_of c old)
          ∷ [])
        s

  in_run :
      (w : String) (ceiling : Ceiling)
      → lookup w d₀.execution_ceilings_by_work_unit ≡ some ceiling
      → GovernsTighter tightened_store c.id w ceiling
  in_run w ceiling held = elim (Bool-cases (c.work_unit_id == w)) [
    | inl same ↦
        let name : c.work_unit_id ≡ w = (eq_iff c.work_unit_id w).0 same in
        let there : lookup w d₀.execution_ceilings_by_work_unit ≡ some ceiling₀ =
          rw (← name) held₀ in
        let one : ceiling₀ ≡ ceiling = cc (held, there) in
        (
          put c.dimension c.new_state ceiling₀,
          (
            tightened_run c ceiling₀ d₀,
            ground (arith, lookup-put c.id c.id (tightened_run c ceiling₀ d₀) s.runs, eq_refl c.id),
            ground (
              arith,
              same,
              lookup-put c.work_unit_id w (put c.dimension c.new_state ceiling₀)
                  d₀.execution_ceilings_by_work_unit,
            ),
          ),
          subst (λ x. IsTighter x (put c.dimension c.new_state ceiling₀)) one
              (put-IsTighter ceiling₀ c.dimension old c.new_state found₀ up),
        )
    | inr other ↦ (
      ceiling,
      (
        tightened_run c ceiling₀ d₀,
        ground (arith, lookup-put c.id c.id (tightened_run c ceiling₀ d₀) s.runs, eq_refl c.id),
        ground (
          arith,
          held,
          other,
          lookup-put c.work_unit_id w (put c.dimension c.new_state ceiling₀)
              d₀.execution_ceilings_by_work_unit,
        ),
      ),
      λ dimension. omega arith,
    )
  ]

  in_store :
      (r w : String) (ceiling : Ceiling)
      → Governs s r w ceiling
      → GovernsTighter tightened_store r w ceiling
  in_store r w ceiling (d, stored, held) = elim (Bool-cases (c.id == r)) [
    | inl same ↦
        let name : c.id ≡ r = (eq_iff c.id r).0 same in
        let here : lookup c.id s.runs ≡ some d = rw name stored in
        let one : d ≡ d₀ = cc (here, stored₀) in
        subst (λ x. GovernsTighter tightened_store x w ceiling) name
          (in_run w ceiling (rw (← one) held))
    | inr other ↦ (
      ceiling,
      (
        d,
        ground (arith, stored, other, lookup-put c.id r (tightened_run c ceiling₀ d₀) s.runs),
        held,
      ),
      λ dimension. omega arith,
    )
  ]

module _ (validate : Escalation → Result (Unit {0})) where
  -- An accepted command found a run, a ceiling and a state.
  found_by :
      (c : TightenExecutionCeiling) (s : Store) (ws : List Write)
      → handle_tighten_execution_ceiling validate c s ≡ ok ws
      → (d : Run) × (ceiling : Ceiling) × (old : String) × (lookup c.id s.runs ≡ some d)
        × (lookup c.work_unit_id d.execution_ceilings_by_work_unit ≡ some ceiling)
        × (lookup c.dimension ceiling ≡ some old)
  unfolding handle_tighten_execution_ceiling
  found_by c s ws h = elim (Option-cases (lookup c.id s.runs)) [
    | inl missing ↦ ground arith
    | inr (d, stored) ↦
        elim (Option-cases (lookup c.work_unit_id d.execution_ceilings_by_work_unit)) [
          | inl missing ↦ ground arith
          | inr (ceiling, held) ↦ elim (Option-cases (lookup c.dimension ceiling)) [
            | inl missing ↦ ground arith
            | inr (old, found) ↦ (d, ceiling, old, stored, held, found)
          ]
        ]
  ]

  accepted-GovernsTighter :
      (c : TightenExecutionCeiling) (s : Store) (ws : List Write) (r w : String) (ceiling : Ceiling)
      → handle_tighten_execution_ceiling validate c s ≡ ok ws
      → Governs s r w ceiling
      → GovernsTighter (apply_writes ws s) r w ceiling
  accepted-GovernsTighter c s ws r w ceiling h g =
      let (d, before, old, stored, held, found) = found_by c s ws h in
      let (up, written) = accepted_lem validate c s ws d before old h stored held found in
      rw written (in_store c s d before old stored held found up r w ceiling g)

  -- Whatever commands run, a Work Unit that a run gives a ceiling keeps one in that run, and every
  -- dimension of it is then at least as restrictive as before.
  pub run_tightenings-IsTighter :
      (cs : List TightenExecutionCeiling) (s : Store) (r w : String) (ceiling : Ceiling)
      → Governs s r w ceiling
      → GovernsTighter (run_tightenings validate cs s) r w ceiling
  unfolding run_tightenings
  run_tightenings-IsTighter [] s r w ceiling g = (ceiling, g, λ dimension. omega arith)
  run_tightenings-IsTighter (c ∷ cs) s r w ceiling g =
      elim (Result-cases (handle_tighten_execution_ceiling validate c s)) [
        | inl (ws, accepted) ↦
            let (mid, governs, tighter) = accepted-GovernsTighter c s ws r w ceiling accepted g in
            let (after, governs', tighter') =
              run_tightenings-IsTighter cs (apply_writes ws s) r w mid governs in
            rw (run_tightenings, accepted)
              (after, governs', λ dimension. omega (arith, tighter dimension, tighter' dimension))
        | inr (e, refused) ↦
            rw (run_tightenings, refused) (run_tightenings-IsTighter cs s r w ceiling g)
      ]
