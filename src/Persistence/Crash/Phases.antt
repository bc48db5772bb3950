-- ===== src/Persistence/Crash/Phases.antt =====
-- The three phases of `commit` at which a crash may find the disk.
use governed_ai_dev_team_fra.Common.{
  ℕ, zero, suc, none, some, List, [], ◌∷◌, ◌++◌, ◌≡◌, refl, sym, ◌∙◌, ap, inl, inr, All, All-take,
  All-append, All-left, All-right, take, take-append, subst,
}
use mathlib.Core.List.{append_assoc}
use governed_ai_dev_team_fra.Common.Dict.{lookup}
use governed_ai_dev_team_fra.Persistence.Transaction.{
  Files, PlannedWrite, Transaction, Journal, Hashing, prepared_journal,
}
use governed_ai_dev_team_fra.Persistence.Commit.{
  Disk, TransactionDir, FileStep, readable, stage, event_stage, write_journal, replace,
  replace_event, run_step, run_steps, stage_steps, replace_steps, commit_steps, empty_dir,
}
use governed_ai_dev_team_fra.Persistence.Crash.Plan.{
  apply_all, IsDistinct, lookup-apply_all, apply_all-append,
}
use governed_ai_dev_team_fra.Persistence.Crash.Toward.{Toward}
use governed_ai_dev_team_fra.Persistence.Crash.Finish.{IsStaged}
use governed_ai_dev_team_fra.Persistence.Crash.Prefix.{
  run_steps-append, IsStaging, run_steps-IsStaging, stage_steps-IsStaging, stage_steps-IsStaged,
  IsCopy, run_steps-IsCopy, replace_steps-IsCopy, replace_event_steps-IsCopy,
  replace_steps-apply_all, replace_event_steps-apply_all, stages-event_stage_steps,
}

module _ (h : Hashing) (t : Transaction) (start : Files) where
  -- The files once the transaction is through.
  abbrev pub final : Files
  final = apply_all (t.planned ++ t.planned_domain_events) start

  abbrev pub committed_journal : Journal
  committed_journal = record (prepared_journal h t) { status = "committed" }

  -- Before the journal: only staging files were written.
  pub record Untouched (d : Disk) : Type 0 where
    pub files : d.files ≡ start
    pub journal : d.dir.journal ≡ none

  -- With the journal written: every staging file is there, and the files are on their way.
  pub record Pending (d : Disk) : Type 0 where
    pub journal : d.dir.journal ≡ some (readable (prepared_journal h t))
    pub stages : IsStaged d.dir.stages 0 t.planned
    pub event_stages : IsStaged d.dir.event_stages 0 t.planned_domain_events
    pub way : Toward final start d.files

  -- With the journal committed: every write was made.
  pub record Committed (d : Disk) : Type 0 where
    pub journal : d.dir.journal ≡ some (readable committed_journal)
    pub files : d.files ≡ final

  pub data Phase (d : Disk) : Type 0 where
    untouched : Untouched d → Phase d
    pending : Pending d → Phase d
    committed : Committed d → Phase d

  abbrev begun : Disk
  begun = record { files = start; dir = empty_dir }

  abbrev staging : List FileStep
  staging = stage_steps stage 0 t.planned ++ stage_steps event_stage 0 t.planned_domain_events

  abbrev copies : List FileStep
  copies =
      replace_steps replace 0 t.planned ++ replace_steps replace_event 0 t.planned_domain_events

  staging-IsStaging : All IsStaging staging
  staging-IsStaging =
      All-append IsStaging (stage_steps stage 0 t.planned)
        (stage_steps event_stage 0 t.planned_domain_events)
        (stage_steps-IsStaging stage 0 t.planned (λ j c. tt))
        (stage_steps-IsStaging event_stage 0 t.planned_domain_events (λ j c. tt))

  -- The disk when all staging files and then the journal have been written.
  abbrev staged : Disk
  staged = run_steps staging begun

  abbrev prepared_dir : TransactionDir
  prepared_dir = record staged.dir { journal = some (readable (prepared_journal h t)) }

  staged_twice :
      staged
      ≡ run_steps
          (stage_steps event_stage 0 t.planned_domain_events)
          (run_steps (stage_steps stage 0 t.planned) begun)
  staged_twice =
      run_steps-append (stage_steps stage 0 t.planned)
        (stage_steps event_stage 0 t.planned_domain_events) begun

  stages-hold : IsStaged staged.dir.stages 0 t.planned
  stages-hold =
      subst (λ d. IsStaged d.dir.stages 0 t.planned) (sym staged_twice)
        (subst (λ f. IsStaged f 0 t.planned)
          (sym (
            stages-event_stage_steps 0 t.planned_domain_events
              (run_steps (stage_steps stage 0 t.planned) begun)))
          (stage_steps-IsStaged stage (λ d. d.stages) (λ i c d. refl) 0 t.planned begun))

  event_stages-hold : IsStaged staged.dir.event_stages 0 t.planned_domain_events
  event_stages-hold =
      subst (λ d. IsStaged d.dir.event_stages 0 t.planned_domain_events) (sym staged_twice)
        (stage_steps-IsStaged event_stage (λ d. d.event_stages) (λ i c d. refl) 0
          t.planned_domain_events (run_steps (stage_steps stage 0 t.planned) begun))

  -- A crash among the copies.
  copying-Pending :
      (n : ℕ)
      → IsDistinct (t.planned ++ t.planned_domain_events)
      → Pending (run_steps (take n copies) (record { files = start; dir = prepared_dir }))
  copying-Pending n distinct =
      let fits = lookup-apply_all (t.planned ++ t.planned_domain_events) start distinct in
      let fit = λ (w : PlannedWrite). lookup w.relative_path final ≡ some w.content in
      let all_copies =
        All-append (IsCopy final prepared_dir) (replace_steps replace 0 t.planned)
          (replace_steps replace_event 0 t.planned_domain_events)
          (replace_steps-IsCopy final prepared_dir 0 t.planned stages-hold
            (All-left fit t.planned t.planned_domain_events fits))
          (replace_event_steps-IsCopy final prepared_dir 0 t.planned_domain_events event_stages-hold
            (All-right fit t.planned t.planned_domain_events fits)) in
      let (files, ran, way) =
        run_steps-IsCopy final prepared_dir (take n copies) start
          (All-take (IsCopy final prepared_dir) n copies all_copies) in
      rw ran (record {
        journal = refl;
        stages = stages-hold;
        event_stages = event_stages-hold;
        way = way;
      })

  copies-final :
      run_steps copies (record { files = start; dir = prepared_dir })
      ≡ record { files = final; dir = prepared_dir }
  copies-final =
      run_steps-append (replace_steps replace 0 t.planned)
        (replace_steps replace_event 0 t.planned_domain_events)
        (record { files = start; dir = prepared_dir })
      ∙ ap (run_steps (replace_steps replace_event 0 t.planned_domain_events))
          (replace_steps-apply_all prepared_dir 0 t.planned start stages-hold)
      ∙ replace_event_steps-apply_all prepared_dir 0 t.planned_domain_events
          (apply_all t.planned start) event_stages-hold
      ∙ ap (λ f. record { files = f; dir = prepared_dir })
          (apply_all-append t.planned t.planned_domain_events start)

  abbrev close : List FileStep
  close = write_journal committed_journal ∷ []

  abbrev rest_steps : List FileStep
  rest_steps = write_journal (prepared_journal h t) ∷ (copies ++ close)

  regrouped : commit_steps h t ≡ staging ++ rest_steps
  unfolding commit_steps
  regrouped = simp append_assoc

  staged-files : (staged.files ≡ start) × (staged.dir.journal ≡ none)
  staged-files = run_steps-IsStaging staging begun staging-IsStaging

  journal_written :
      run_step (write_journal (prepared_journal h t)) staged
      ≡ record { files = start; dir = prepared_dir }
  journal_written = ap (λ f. record { files = f; dir = prepared_dir }) staged-files.0

  after_copies :
      (ss : List FileStep)
      → run_steps (copies ++ ss) (record { files = start; dir = prepared_dir })
        ≡ run_steps ss (record { files = final; dir = prepared_dir })
  after_copies ss =
      run_steps-append copies ss (record { files = start; dir = prepared_dir })
      ∙ ap (run_steps ss) copies-final

  finished-Phase :
      (n : ℕ) → Phase (run_steps (take n close) (record { files = final; dir = prepared_dir }))
  unfolding run_steps
  finished-Phase zero = pending (record {
    journal = refl;
    stages = stages-hold;
    event_stages = event_stages-hold;
    way = λ path. inr refl;
  })
  finished-Phase (suc zero) = committed (record { journal = refl; files = refl })
  finished-Phase (suc (suc n)) = committed (record { journal = refl; files = refl })

  after_journal-Phase :
      (n : ℕ)
      → IsDistinct (t.planned ++ t.planned_domain_events)
      → Phase (run_steps (take n (copies ++ close)) (record { files = start; dir = prepared_dir }))
  after_journal-Phase n distinct = elim (take-append n copies close) [
    | inl (m, e) ↦ rw e (pending (copying-Pending m distinct))
    | inr (m, e) ↦ subst Phase (sym (ap ran e ∙ after_copies (take m close))) (finished-Phase m)
  ]
    where
      ran : List FileStep → Disk
      ran ss = run_steps ss (record { files = start; dir = prepared_dir })

  from_staged-Phase :
      (n : ℕ)
      → IsDistinct (t.planned ++ t.planned_domain_events)
      → Phase (run_steps (take n rest_steps) staged)
  unfolding run_steps
  from_staged-Phase zero distinct =
      untouched (record { files = staged-files.0; journal = staged-files.1 })
  from_staged-Phase (suc n) distinct =
      subst (λ d. Phase (run_steps (take n (copies ++ close)) d)) (sym journal_written)
        (after_journal-Phase n distinct)

  -- Wherever a crash interrupts `commit`, the disk is in one of the three phases.
  pub crash-Phase :
      (n : ℕ)
      → IsDistinct (t.planned ++ t.planned_domain_events)
      → Phase (run_steps (take n (commit_steps h t)) begun)
  crash-Phase n distinct =
      subst (λ ss. Phase (run_steps (take n ss) begun)) (sym regrouped)
        (elim (take-append n staging rest_steps) [
          | inl (m, e) ↦
              let kept =
                run_steps-IsStaging (take m staging) begun
                  (All-take IsStaging m staging staging-IsStaging) in
              rw e (untouched (record { files = kept.0; journal = kept.1 }))
          | inr (m, e) ↦ rw e (
              subst Phase (sym (run_steps-append staging (take m rest_steps) begun))
                (from_staged-Phase m distinct))
        ])

  -- A commit that no crash interrupts.
  pub commit-Committed : Committed (run_steps (commit_steps h t) begun)
  unfolding run_steps
  commit-Committed =
      subst (λ ss. Committed (run_steps ss begun)) (sym regrouped)
        (subst Committed (sym (run_steps-append staging rest_steps begun)) (
          subst (λ d. Committed (run_steps (copies ++ close) d)) (sym journal_written)
            (subst Committed (sym (after_copies close)) (record { journal = refl; files = refl }))))
