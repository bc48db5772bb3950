-- ===== src/Persistence/Crash/Samples.antt =====
-- A small transaction, its crashes, and the theorems at them.
use governed_ai_dev_team_fra.Common.{none, some, List, [], ◌∷◌, ◌++◌, ◌≡◌, refl, arith, eq_iff}
use governed_ai_dev_team_fra.Common.Dict.{Dict, lookup, put}
use governed_ai_dev_team_fra.Errors.{ok, raise, transaction_recovery_required}
use governed_ai_dev_team_fra.Persistence.Transaction.{
  Files, Transaction, Hashing, begin, prepared_journal, plan_write, plan_domain_event,
}
use governed_ai_dev_team_fra.Persistence.Commit.{
  Disk, TransactionDir, readable, commit, commit_steps, run_steps, stage_steps, replace_steps,
  empty_dir,
}
use governed_ai_dev_team_fra.Persistence.Recover.{
  recover_transactions, recover_dir, recover_journal, finish_prepared, verify_journal_integrity,
  verify_staging_hashes, apply_pending_write, apply_pending_writes, apply_pending_domain_events,
  recovered_transaction,
}
use governed_ai_dev_team_fra.Persistence.Crash.Plan.{IsPlanned}
use governed_ai_dev_team_fra.Persistence.Crash.Phases.{Committed}
use governed_ai_dev_team_fra.Persistence.Crash.Atomic.{crashed, Restored, crash_recovery}
use governed_ai_dev_team_fra.Persistence.Crash.Planning.{
  PlanCall, plan_file, plan_event, plan_call, plan_calls, plan_calls-IsPlanned,
}
use governed_ai_dev_team_fra.Persistence.Crash.Again.{recover_twice, commit_lem}
use governed_ai_dev_team_fra.Persistence.Crash.Doubled.{double_write_unrecoverable, twice}

program : Unit {0}
unfolding begin plan_write plan_domain_event plan_call plan_calls commit commit_steps run_steps
    stage_steps replace_steps recover_transactions recover_dir recover_journal finish_prepared
    verify_journal_integrity verify_staging_hashes apply_pending_write apply_pending_writes
    apply_pending_domain_events crashed lookup put
program = tt

-- A hash without collisions.
abbrev plain : Hashing
plain = record { sha256 = λ s. s; journal_integrity_hash = λ writes events. "journal" }

abbrev start : Files
start = ("runs/R.yaml", "active") ∷ ("other.yaml", "kept") ∷ []

abbrev calls : List PlanCall
calls =
    plan_file "runs/R.yaml" "stopped"
    ∷ plan_file "report.json" "{}"
    ∷ plan_event "events/E.json" "stop"
    ∷ []

abbrev stop_run : Transaction
stop_run = record {
  transaction_id = "TX-1";
  planned =
      record { relative_path = "runs/R.yaml"; content = "stopped"; before_hash = some "active" }
      ∷ record { relative_path = "report.json"; content = "{}"; before_hash = none }
      ∷ [];
  planned_domain_events =
      record { relative_path = "events/E.json"; content = "stop"; before_hash = none } ∷ [];
}

-- What the planning calls make.
plan_calls-stop_run : plan_calls plain start calls (begin "TX-1") ≡ ok stop_run
unfolding program
plan_calls-stop_run = refl

plan_calls-IsPlanned_example : IsPlanned plain start stop_run
plan_calls-IsPlanned_example =
    plan_calls-IsPlanned plain start "TX-1" calls stop_run plan_calls-stop_run (
      (
        ground (arith, eq_iff "report.json" "runs/R.yaml"),
        (ground (arith, eq_iff "events/E.json" "runs/R.yaml"), tt),
      ),
      ((ground (arith, eq_iff "events/E.json" "report.json"), tt), (tt, tt)),
    )

-- The fifth replacement of the commit is the first file of the workspace.
crash_after_first_copy :
    (recover_transactions plain
      (("TX-1", (crashed plain stop_run start 5).dir) ∷ [])
      (crashed plain stop_run start 5).files).files
    ≡ ("runs/R.yaml", "stopped")
      ∷ ("other.yaml", "kept")
      ∷ ("report.json", "{}")
      ∷ ("events/E.json", "stop")
      ∷ []
unfolding program
crash_after_first_copy = refl

crash_before_journal : (crashed plain stop_run start 3).files ≡ start
unfolding program
crash_before_journal = refl

crash_recovery_example : Restored plain stop_run start (crashed plain stop_run start 5) (
    recover_transactions plain
      ([] ++ ("TX-1", (crashed plain stop_run start 5).dir) ∷ [])
      (crashed plain stop_run start 5).files)
crash_recovery_example =
    crash_recovery plain stop_run start 5 "TX-1" [] [] (λ a b e. e) plan_calls-IsPlanned_example tt
      tt

abbrev pending_dirs : Dict TransactionDir
pending_dirs = ("TX-1", (crashed plain stop_run start 5).dir) ∷ []

abbrev once_files : Files
once_files = (crashed plain stop_run start 5).files

recovered_once :
    (recover_transactions plain pending_dirs once_files).result
    ≡ ok (recovered_transaction "TX-1" ∷ [])
unfolding program
recovered_once = refl

recover_twice_example :
    let first = recover_transactions plain pending_dirs once_files in
    ((recover_transactions plain first.dirs first.files).files ≡ first.files)
    × ((recover_transactions plain first.dirs first.files).result ≡ ok [])
recover_twice_example =
    recover_twice plain pending_dirs once_files (recovered_transaction "TX-1" ∷ []) recovered_once

commit_lem_example :
    (d : Disk) × (commit plain stop_run (record { files = start; dir = empty_dir }) ≡ ok d)
    × Committed plain stop_run start d
commit_lem_example = commit_lem plain stop_run start (λ e. cc)

abbrev doubled : TransactionDir
doubled = record {
  stages = λ _. none;
  event_stages = λ _. none;
  journal = some (readable (prepared_journal plain (twice plain "TX-2" "a" "zero" "one" "two")));
}

abbrev two_files : Files
two_files = ("a", "two") ∷ []

two-made : lookup "a" two_files ≡ some "two"
unfolding lookup
two-made = refl

double_write_unrecoverable_example :
    (recover_transactions plain (("TX-2", doubled) ∷ []) two_files).result
    ≡ raise transaction_recovery_required "/writes"
double_write_unrecoverable_example =
    double_write_unrecoverable plain "TX-2" "a" "zero" "one" "two" doubled two_files []
      (ground (arith, eq_iff "two" "one")) (ground (arith, eq_iff "two" "zero"))
      (ground (arith, eq_iff "zero" "")) two-made refl
