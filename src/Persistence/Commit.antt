-- ===== src/Persistence/Commit.antt =====
-- core/persistence/transaction.py: `commit`, as the sequence of its atomic file replacements. A crash
-- may fall between any two of them.
use governed_ai_dev_team_fra.Common.{
  ℕ, suc, String, Option, none, some, List, [], ◌∷◌, ◌++◌, nat_eq, ◌==◌, if◌then◌else◌, is_nil,
  ◌&&◌,
}
use governed_ai_dev_team_fra.Common.Dict.{put}
use governed_ai_dev_team_fra.Errors.{Result, ok, raise, internal_error}
use governed_ai_dev_team_fra.Persistence.Transaction.{
  Files, PlannedWrite, Transaction, Journal, Hashing, prepared_journal,
}

-- The file journal.json: text that is no JSON object, or a journal.
pub data JournalFile : Type 0 where
  unreadable : JournalFile
  readable : Journal → JournalFile

-- A directory TX-*: `stage-<i>.tmp`, `event-stage-<i>.tmp` and journal.json.
pub record TransactionDir : Type 0 where
  pub stages : ℕ → Option String
  pub event_stages : ℕ → Option String
  pub journal : Option JournalFile

abbrev pub empty_dir : TransactionDir
empty_dir = record { stages = λ _. none; event_stages = λ _. none; journal = none }

pub record Disk : Type 0 where
  pub files : Files
  pub dir : TransactionDir

abbrev pub set_stage : ℕ → String → (ℕ → Option String) → ℕ → Option String
set_stage i content stages j = if j == i then some content else stages j

-- One atomic replacement.
pub data FileStep : Type 0 where
  stage : ℕ → String → FileStep
  event_stage : ℕ → String → FileStep
  write_journal : Journal → FileStep
  replace : String → ℕ → FileStep
  replace_event : String → ℕ → FileStep

-- `atomic_write_bytes(target, staging.read_bytes())`
abbrev pub copy_to : String → Option String → Files → Files
copy_to path none files = files
copy_to path (some content) files = put path content files

abbrev pub run_step : FileStep → Disk → Disk
run_step (stage i content) d = record d {
  dir = record d.dir { stages = set_stage i content d.dir.stages };
}
run_step (event_stage i content) d = record d {
  dir = record d.dir { event_stages = set_stage i content d.dir.event_stages };
}
run_step (write_journal j) d = record d { dir = record d.dir { journal = some (readable j) } }
run_step (replace path i) d = record d { files = copy_to path (d.dir.stages i) d.files }
run_step (replace_event path i) d = record d { files = copy_to path (d.dir.event_stages i) d.files }

unfoldable pub run_steps : List FileStep → Disk → Disk
run_steps [] d = d
run_steps (s ∷ ss) d = run_steps ss (run_step s d)

unfoldable pub stage_steps : (ℕ → String → FileStep) → ℕ → List PlannedWrite → List FileStep
stage_steps make i [] = []
stage_steps make i (item ∷ items) = make i item.content ∷ stage_steps make (suc i) items

unfoldable pub replace_steps : (String → ℕ → FileStep) → ℕ → List PlannedWrite → List FileStep
replace_steps make i [] = []
replace_steps make i (item ∷ items) = make item.relative_path i ∷ replace_steps make (suc i) items

-- The replacements of `commit`, in its order.
unfoldable pub commit_steps : Hashing → Transaction → List FileStep
unfolding stage_steps replace_steps
commit_steps h t =
    stage_steps stage 0 t.planned
    ++ (stage_steps event_stage 0 t.planned_domain_events
        ++ (write_journal (prepared_journal h t)
            ∷ (replace_steps replace 0 t.planned
                ++ (replace_steps replace_event 0 t.planned_domain_events
                    ++ write_journal (record (prepared_journal h t) { status = "committed" })
                      ∷ []))))

unfoldable pub commit : Hashing → Transaction → Disk → Result Disk
unfolding commit_steps run_steps
commit h t d =
    if is_nil t.planned && is_nil t.planned_domain_events
    then raise internal_error ""
    else ok (run_steps (commit_steps h t) d)
