-- ===== src/Persistence/Crash/Recovery.antt =====
-- A crash of `commit` followed by `recover_transactions` makes all of the writes or none.
use governed_ai_dev_team_fra.Common.{
  ℕ, suc, String, true, Option, some, List, [], ◌∷◌, ◌++◌, ◌≡◌, refl, sym, inl, inr, All,
  All-append, All-left, All-right, map, elem, arith, eq_iff, eq_refl, string_eq, ◌==◌, Bool-cases,
  subst,
}
use governed_ai_dev_team_fra.Common.Dict.{lookup}
use governed_ai_dev_team_fra.Errors.{ok}
use governed_ai_dev_team_fra.Persistence.Transaction.{
  Files, PlannedWrite, Transaction, Hashing, entry_of, prepared_journal,
}
use governed_ai_dev_team_fra.Persistence.Commit.{Disk}
use governed_ai_dev_team_fra.Persistence.Recover.{
  verify_journal_integrity, verify_staging_hashes, apply_pending_writes,
  apply_pending_domain_events, finish_prepared,
}
use governed_ai_dev_team_fra.Persistence.Crash.Plan.{
  IsPlanned, lookup-apply_all, apply_all_unplanned,
}
use governed_ai_dev_team_fra.Persistence.Crash.Toward.{Toward, Toward-trans, Toward-final}
use governed_ai_dev_team_fra.Persistence.Crash.Finish.{
  IsCollisionFree, IsStaged, apply_pending_writes-AllFinished,
  apply_pending_domain_events-AllFinished,
}
use governed_ai_dev_team_fra.Persistence.Crash.Phases.{final, Pending}

pub verify_journal_integrity-prepared :
    (h : Hashing) (t : Transaction) → verify_journal_integrity h (prepared_journal h t) ≡ ok tt
unfolding verify_journal_integrity
verify_journal_integrity-prepared h t = ground (
  arith,
  eq_refl (
      h.journal_integrity_hash (map (entry_of h) t.planned)
        (map (entry_of h) t.planned_domain_events)),
)

verify_staging_hashes-IsStaged :
    (h : Hashing) (stages : ℕ → Option String) (path : String) (i : ℕ) (ws : List PlannedWrite)
    → IsStaged stages i ws
    → verify_staging_hashes h stages path i (map (entry_of h) ws) ≡ ok tt
unfolding verify_staging_hashes
verify_staging_hashes-IsStaged h stages path i [] s = refl
verify_staging_hashes-IsStaged h stages path i (w ∷ ws) s = ground (
  arith,
  s.0,
  eq_refl (h.sha256 w.content),
  verify_staging_hashes-IsStaged h stages path (suc i) ws s.1,
)

All-elem :
    (P : String → Type 0) (path : String) (ws : List PlannedWrite)
    → All (λ w. P w.relative_path) ws
    → elem path (map (λ w. w.relative_path) ws) ≡ true
    → P path
All-elem P path [] a m = cc
All-elem P path (w ∷ ws) a m = elim (Bool-cases (path == w.relative_path)) [
  | inl here ↦ subst P (sym ((eq_iff path w.relative_path).0 here)) a.0
  | inr there ↦ All-elem P path ws a.1 (ground arith)
]

-- Equal as far as any read can tell.
abbrev pub SameFiles : Files → Files → Type 0
SameFiles a b = (path : String) → lookup path a ≡ lookup path b

module _ (h : Hashing) (injective : IsCollisionFree h) (t : Transaction) (start : Files)
    (plan : IsPlanned h start t) where
  abbrev all_writes : List PlannedWrite
  all_writes = t.planned ++ t.planned_domain_events

  abbrev IsFinal : Files → PlannedWrite → Type 0
  IsFinal files w = lookup w.relative_path files ≡ lookup w.relative_path (final h t start)

  settled :
      (files : Files)
      → Toward (final h t start) start files
      → All (IsFinal files) all_writes
      → SameFiles files (final h t start)
  settled files way every path =
      elim (Bool-cases (elem path (map (λ w. w.relative_path) all_writes))) [
        | inl planned ↦
            All-elem (λ p. lookup p files ≡ lookup p (final h t start)) path all_writes every
              planned
        | inr other ↦ ground (arith, way path, apply_all_unplanned path all_writes start other)
      ]

  fits : All (λ w. lookup w.relative_path (final h t start) ≡ some w.content) all_writes
  fits = lookup-apply_all all_writes start plan.distinct

  abbrev Fits : PlannedWrite → Type 0
  Fits w = lookup w.relative_path (final h t start) ≡ some w.content

  All-Toward :
      (a b : Files) (ws : List PlannedWrite)
      → Toward (final h t start) a b
      → All (IsFinal a) ws
      → All (IsFinal b) ws
  All-Toward a b [] way every = tt
  All-Toward a b (w ∷ ws) way every = (
    Toward-final (final h t start) a b w.relative_path way every.0,
    All-Toward a b ws way every.1,
  )

  -- The recovery of a pending transaction makes the writes that are missing.
  pub finish-Pending :
      (d : Disk)
      → Pending h t start d
      → ((finish_prepared h (prepared_journal h t) d.dir d.files).0 ≡ ok tt)
        × SameFiles (finish_prepared h (prepared_journal h t) d.dir d.files).1 (final h t start)
  unfolding finish_prepared
  finish-Pending d p =
      let one =
        apply_pending_writes-AllFinished h injective start (final h t start) d.dir.stages 0
          t.planned d.files plan.before (All-left Fits t.planned t.planned_domain_events fits)
          p.stages p.way in
      let files = (apply_pending_writes h d.dir.stages 0 (map (entry_of h) t.planned) d.files).1 in
      let way = Toward-trans (final h t start) start d.files files p.way one.1 in
      let two =
        apply_pending_domain_events-AllFinished h injective start (final h t start)
          d.dir.event_stages 0 t.planned_domain_events files plan.new_events
          (All-right Fits t.planned t.planned_domain_events fits) p.event_stages way in
      let files' =
        (apply_pending_domain_events h d.dir.event_stages 0
          (map (entry_of h) t.planned_domain_events) files).1 in
      let every =
        All-append (IsFinal files') t.planned t.planned_domain_events
          (All-Toward files files' t.planned two.1 one.2) two.2 in
      rw
        (
          verify_journal_integrity-prepared h t,
          verify_staging_hashes-IsStaged h d.dir.stages "/writes" 0 t.planned p.stages,
          verify_staging_hashes-IsStaged h d.dir.event_stages "/domain_events" 0
              t.planned_domain_events p.event_stages,
          one.0,
        )
        (two.0, settled files' (Toward-trans (final h t start) start files files' way two.1) every)
