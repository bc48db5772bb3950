-- ===== src/Persistence/Crash/Prefix.antt =====
-- The states in which a crash of `commit` may leave the disk.
use governed_ai_dev_team_fra.Common.{
  ℕ, suc, ◌<◌, String, Option, some, List, [], ◌∷◌, ◌++◌, ◌≡◌, refl, ◌∙◌, ap, All, arith, nat_eq,
}
use governed_ai_dev_team_fra.Common.Dict.{lookup, put}
use governed_ai_dev_team_fra.Persistence.Transaction.{Files, PlannedWrite}
use governed_ai_dev_team_fra.Persistence.Commit.{
  Disk, TransactionDir, FileStep, stage, event_stage, replace, replace_event, copy_to, set_stage,
  run_step, run_steps, stage_steps, replace_steps,
}
use governed_ai_dev_team_fra.Persistence.Crash.Plan.{apply_all}
use governed_ai_dev_team_fra.Persistence.Crash.Toward.{
  Toward, Toward-refl, Toward-trans, Toward-put,
}
use governed_ai_dev_team_fra.Persistence.Crash.Finish.{IsStaged}

pub run_steps-append :
    (xs ys : List FileStep) (d : Disk) → run_steps (xs ++ ys) d ≡ run_steps ys (run_steps xs d)
unfolding run_steps
run_steps-append [] ys d = refl
run_steps-append (x ∷ xs) ys d = run_steps-append xs ys (run_step x d)

-- A step that writes a staging file only.
abbrev pub IsStaging : FileStep → Type 0
IsStaging (stage i c) = Unit
IsStaging (event_stage i c) = Unit
IsStaging _ = ⊥

run_step-IsStaging :
    (s : FileStep) (d : Disk)
    → IsStaging s
    → ((run_step s d).files ≡ d.files) × ((run_step s d).dir.journal ≡ d.dir.journal)
run_step-IsStaging (stage i c) d h = (refl, refl)
run_step-IsStaging (event_stage i c) d h = (refl, refl)
run_step-IsStaging (replace p i) d h = elim h [ ]
run_step-IsStaging _ d h = elim h [ ]

-- Staging changes neither the workspace nor the journal.
pub run_steps-IsStaging :
    (ss : List FileStep) (d : Disk)
    → All IsStaging ss
    → ((run_steps ss d).files ≡ d.files) × ((run_steps ss d).dir.journal ≡ d.dir.journal)
unfolding run_steps
run_steps-IsStaging [] d h = (refl, refl)
run_steps-IsStaging (s ∷ ss) d h =
    let one = run_step-IsStaging s d h.0 in
    let rest = run_steps-IsStaging ss (run_step s d) h.1 in (rest.0 ∙ one.0, rest.1 ∙ one.1)

pub stage_steps-IsStaging :
    (make : ℕ → String → FileStep) (i : ℕ) (ws : List PlannedWrite)
    → ((j : ℕ) (c : String) → IsStaging (make j c))
    → All IsStaging (stage_steps make i ws)
unfolding stage_steps
stage_steps-IsStaging make i [] h = tt
stage_steps-IsStaging make i (w ∷ ws) h = (h i w.content, stage_steps-IsStaging make (suc i) ws h)

-- The staging files of one kind: `make` writes into `get`, and nothing below its number.
module _ (make : ℕ → String → FileStep) (get : TransactionDir → ℕ → Option String)
    (writes : (i : ℕ) (c : String) (d : Disk)
      → get (run_step (make i c) d).dir ≡ set_stage i c (get d.dir)) where
  stage_steps-below :
      (j i : ℕ) (ws : List PlannedWrite) (d : Disk)
      → j < i
      → get (run_steps (stage_steps make i ws) d).dir j ≡ get d.dir j
  unfolding run_steps stage_steps
  stage_steps-below j i [] d lt = refl
  stage_steps-below j i (w ∷ ws) d lt =
      stage_steps-below j (suc i) ws (run_step (make i w.content) d) (omega arith)
      ∙ rw writes (ground arith)

  pub stage_steps-IsStaged :
      (i : ℕ) (ws : List PlannedWrite) (d : Disk)
      → IsStaged (get (run_steps (stage_steps make i ws) d).dir) i ws
  unfolding run_steps stage_steps
  stage_steps-IsStaged i [] d = tt
  stage_steps-IsStaged i (w ∷ ws) d = (
    stage_steps-below i (suc i) ws (run_step (make i w.content) d) (omega arith)
        ∙ rw writes (ground arith),
    stage_steps-IsStaged (suc i) ws (run_step (make i w.content) d),
  )

-- A copy of a staged content to its final place.
pub data IsCopy (final : Files) (dir : TransactionDir) : FileStep → Type 0 where
  of_stage :
      (path : String) (i : ℕ) (content : String)
      → dir.stages i ≡ some content
      → lookup path final ≡ some content
      → IsCopy final dir (replace path i)
  of_event_stage :
      (path : String) (i : ℕ) (content : String)
      → dir.event_stages i ≡ some content
      → lookup path final ≡ some content
      → IsCopy final dir (replace_event path i)

module _ (final : Files) (dir : TransactionDir) where
  abbrev at : Files → Disk
  at files = record { files = files; dir = dir }

  -- A copy leaves the transaction's directory, and brings the files nearer to the end.
  run_step-IsCopy :
      (s : FileStep) (files : Files)
      → IsCopy final dir s
      → (files' : Files) × (run_step s (at files) ≡ at files') × Toward final files files'
  run_step-IsCopy s files (of_stage path i content staged fits) =
      (put path content files, rw staged, Toward-put final path content files fits)
  run_step-IsCopy s files (of_event_stage path i content staged fits) =
      (put path content files, rw staged, Toward-put final path content files fits)

  pub run_steps-IsCopy :
      (ss : List FileStep) (files : Files)
      → All (IsCopy final dir) ss
      → (files' : Files) × (run_steps ss (at files) ≡ at files') × Toward final files files'
  unfolding run_steps
  run_steps-IsCopy [] files h = (files, refl, Toward-refl final files)
  run_steps-IsCopy (s ∷ ss) files h =
      let (mid, one, near) = run_step-IsCopy s files h.0 in
      let (end, rest, nearer) = run_steps-IsCopy ss mid h.1 in
      (end, rw one rest, Toward-trans final files mid end near nearer)

module _ (final : Files) (dir : TransactionDir) where
  pub replace_steps-IsCopy :
      (i : ℕ) (ws : List PlannedWrite)
      → IsStaged dir.stages i ws
      → All (λ w. lookup w.relative_path final ≡ some w.content) ws
      → All (IsCopy final dir) (replace_steps replace i ws)
  unfolding replace_steps
  replace_steps-IsCopy i [] staged fits = tt
  replace_steps-IsCopy i (w ∷ ws) staged fits = (
    of_stage w.relative_path i w.content staged.0 fits.0,
    replace_steps-IsCopy (suc i) ws staged.1 fits.1,
  )

  pub replace_event_steps-IsCopy :
      (i : ℕ) (ws : List PlannedWrite)
      → IsStaged dir.event_stages i ws
      → All (λ w. lookup w.relative_path final ≡ some w.content) ws
      → All (IsCopy final dir) (replace_steps replace_event i ws)
  unfolding replace_steps
  replace_event_steps-IsCopy i [] staged fits = tt
  replace_event_steps-IsCopy i (w ∷ ws) staged fits = (
    of_event_stage w.relative_path i w.content staged.0 fits.0,
    replace_event_steps-IsCopy (suc i) ws staged.1 fits.1,
  )

-- The disk after the remaining copies, if the first one has found `content`.
abbrev copied :
    (String → ℕ → FileStep)
    → TransactionDir
    → ℕ
    → PlannedWrite
    → List PlannedWrite
    → Files
    → Option String
    → Disk
copied make dir i w ws files content =
    run_steps (replace_steps make (suc i) ws)
      (record { files = copy_to w.relative_path content files; dir = dir })

-- All the copies together make every planned write.
pub replace_steps-apply_all :
    (dir : TransactionDir) (i : ℕ) (ws : List PlannedWrite) (files : Files)
    → IsStaged dir.stages i ws
    → run_steps (replace_steps replace i ws) (record { files = files; dir = dir })
      ≡ record { files = apply_all ws files; dir = dir }
unfolding run_steps replace_steps apply_all
replace_steps-apply_all dir i [] files staged = refl
replace_steps-apply_all dir i (w ∷ ws) files staged =
    ap (copied replace dir i w ws files) staged.0
    ∙ replace_steps-apply_all dir (suc i) ws (put w.relative_path w.content files) staged.1

pub replace_event_steps-apply_all :
    (dir : TransactionDir) (i : ℕ) (ws : List PlannedWrite) (files : Files)
    → IsStaged dir.event_stages i ws
    → run_steps (replace_steps replace_event i ws) (record { files = files; dir = dir })
      ≡ record { files = apply_all ws files; dir = dir }
unfolding run_steps replace_steps apply_all
replace_event_steps-apply_all dir i [] files staged = refl
replace_event_steps-apply_all dir i (w ∷ ws) files staged =
    ap (copied replace_event dir i w ws files) staged.0
    ∙ replace_event_steps-apply_all dir (suc i) ws (put w.relative_path w.content files) staged.1

-- The staging files of the domain events are not those of the writes.
pub stages-event_stage_steps :
    (i : ℕ) (ws : List PlannedWrite) (d : Disk)
    → (run_steps (stage_steps event_stage i ws) d).dir.stages ≡ d.dir.stages
unfolding run_steps stage_steps
stages-event_stage_steps i [] d = refl
stages-event_stage_steps i (w ∷ ws) d =
    stages-event_stage_steps (suc i) ws (run_step (event_stage i w.content) d)
