-- ===== src/Persistence/Crash/Atomic.antt =====
-- All or nothing: the recovery of a workspace in which one transaction was interrupted.
use governed_ai_dev_team_fra.Common.{
  ℕ, String, Bool, true, false, Option, none, some, List, [], ◌∷◌, ◌++◌, ◌≡◌, refl, sym, ◌∙◌, ap,
  ◌⊎◌, inl, inr, All, take, string_eq, ◌==◌, subst,
}
use governed_ai_dev_team_fra.Common.Dict.{Dict}
use governed_ai_dev_team_fra.Errors.{Result, ok, err}
use governed_ai_dev_team_fra.Persistence.Transaction.{Files, Transaction, Hashing, prepared_journal}
use governed_ai_dev_team_fra.Persistence.Commit.{
  Disk, TransactionDir, JournalFile, unreadable, readable, commit_steps, run_steps, empty_dir,
}
use governed_ai_dev_team_fra.Persistence.Recover.{
  finish_prepared, after_finish, recover_journal, recover_dir, recover_file, recover_transactions,
  DirResult, Recovery, Message, recovered_transaction, go_on, extend_messages,
}
use governed_ai_dev_team_fra.Persistence.Crash.Plan.{IsPlanned}
use governed_ai_dev_team_fra.Persistence.Crash.Finish.{IsCollisionFree}
use governed_ai_dev_team_fra.Persistence.Crash.Phases.{
  final, Pending, Phase, untouched, pending, committed, crash-Phase,
}
use governed_ai_dev_team_fra.Persistence.Crash.Recovery.{SameFiles, finish-Pending}

-- No journal, or a committed one.
abbrev pub is_settled : Option JournalFile → Bool
is_settled none = true
is_settled (some unreadable) = false
is_settled (some (readable j)) = j.status == "committed"

abbrev pub AreSettled : Dict TransactionDir → Type 0
AreSettled = All (λ entry. is_settled entry.1.journal ≡ true)

abbrev untouched_dir : TransactionDir → Files → DirResult
untouched_dir dir files = record { result = ok []; dir = dir; files = files }

recover_dir-settled :
    (h : Hashing) (dir : TransactionDir) (files : Files)
    → is_settled dir.journal ≡ true
    → recover_dir h dir files ≡ untouched_dir dir files
unfolding recover_dir recover_journal
recover_dir-settled h dir files s = go dir.journal s
  where
    go :
        (o : Option JournalFile)
        → is_settled o ≡ true
        → recover_file h o dir files ≡ untouched_dir dir files
    go none e = refl
    go (some unreadable) e = cc
    go (some (readable j)) e = rw e

extend_nil : (r : Result (List Message)) → extend_messages [] r ≡ r
extend_nil (ok ms) = refl
extend_nil (err e) = refl

-- Settled directories change neither the files nor the result.
recover-settled :
    (h : Hashing) (settled rest : Dict TransactionDir) (files : Files)
    → AreSettled settled
    → ((recover_transactions h (settled ++ rest) files).files
        ≡ (recover_transactions h rest files).files)
      × ((recover_transactions h (settled ++ rest) files).result
          ≡ (recover_transactions h rest files).result)
unfolding recover_transactions
recover-settled h [] rest files s = (refl, refl)
recover-settled h ((id, dir) ∷ settled) rest files s =
    let (same_files, same_result) = recover-settled h settled rest files s.1 in
    rw (recover_dir-settled h dir files s.0)
      (same_files, extend_nil (recover_transactions h (settled ++ rest) files).result ∙ same_result)

pub recover-all_settled :
    (h : Hashing) (settled : Dict TransactionDir) (files : Files)
    → AreSettled settled
    → ((recover_transactions h settled files).files ≡ files)
      × ((recover_transactions h settled files).result ≡ ok [])
unfolding recover_transactions
recover-all_settled h [] files s = (refl, refl)
recover-all_settled h ((id, dir) ∷ settled) files s =
    let (same_files, same_result) = recover-all_settled h settled files s.1 in
    rw (recover_dir-settled h dir files s.0) (same_files, cc (same_result))

module _ (h : Hashing) (t : Transaction) (start : Files) where
  -- The disk after the first `n` file replacements of the commit.
  unfoldable pub crashed : ℕ → Disk
  crashed n = run_steps (take n (commit_steps h t)) (record { files = start; dir = empty_dir })

  -- None of the writes were made, and only if the journal was never written, or all of them.
  abbrev pub IsAtomic : Disk → Files → Type 0
  IsAtomic d files =
      (d.dir.journal ≡ none) × SameFiles files start ⊎ SameFiles files (final h t start)

  -- The outcome for the interrupted directory.
  abbrev Recovered : Disk → DirResult → Type 0
  Recovered d r = (ms : List Message) × (r.result ≡ ok ms) × IsAtomic d r.files

  recover_dir-Pending :
      (d : Disk)
      → Pending h t start d
      → recover_dir h d.dir d.files
        ≡ after_finish
            (prepared_journal h t)
            d.dir
            (finish_prepared h (prepared_journal h t) d.dir d.files)
  unfolding recover_dir recover_journal
  recover_dir-Pending d p = ap (λ o. recover_file h o d.dir d.files) p.journal

  after_finish-Recovered :
      (d : Disk) (r : Result (Unit {0}) × Files)
      → r.0 ≡ ok tt
      → SameFiles r.1 (final h t start)
      → Recovered d (after_finish (prepared_journal h t) d.dir r)
  after_finish-Recovered d (ok u, files) e same =
      (recovered_transaction t.transaction_id ∷ [], refl, inr same)
  after_finish-Recovered d (err x, files) e same = cc

  recover_dir-Phase :
      IsCollisionFree h
      → IsPlanned h start t
      → (d : Disk) → Phase h t start d
      → Recovered d (recover_dir h d.dir d.files)
  unfolding recover_dir recover_journal
  recover_dir-Phase injective plan d (untouched u) =
      rw u.journal ([], refl, inl (refl, λ path. rw u.files))
  recover_dir-Phase injective plan d (committed c) =
      rw c.journal ([], refl, inr (λ path. rw c.files))
  recover_dir-Phase injective plan d (pending p) =
      let (done, same) = finish-Pending h injective t start plan d p in
      subst (Recovered d) (sym (recover_dir-Pending d p)) (
        after_finish-Recovered d (finish_prepared h (prepared_journal h t) d.dir d.files) done same)

  -- The workspace's outcome: the recovery returned, and the files are as `IsAtomic` says.
  abbrev pub Restored : Disk → Recovery → Type 0
  Restored d r = (ms : List Message) × (r.result ≡ ok ms) × IsAtomic d r.files

  go_on-Restored :
      (d : Disk) (id : String) (settled : Dict TransactionDir) (r : DirResult)
      → AreSettled settled
      → Recovered d r
      → Restored d (go_on id settled r (recover_transactions h settled))
  go_on-Restored d id settled r s (ms, returned, outcome) =
      let (same_files, same_result) = recover-all_settled h settled r.files s in
      rw returned (ms ++ [], rw same_result, subst (IsAtomic d) (sym same_files) outcome)

-- All or nothing. A transaction that plans no path twice was planned over the files `start`, its commit was cut off after any
-- number `n` of file replacements, and `recover_transactions` runs over a directory in which every
-- other transaction is settled. If SHA-256 does not collide, the recovery returns without an error,
-- and the files are as before the commit, and then the journal was never written, or they hold every
-- planned write and domain event and are otherwise as before.
pub crash_recovery :
    (h : Hashing) (t : Transaction) (start : Files) (n : ℕ) (id : String)
    (before others : Dict TransactionDir)
    → IsCollisionFree h
    → IsPlanned h start t
    → AreSettled before
    → AreSettled others
    → Restored h t start (crashed h t start n) (
        recover_transactions h
          (before ++ (id, (crashed h t start n).dir) ∷ others)
          (crashed h t start n).files)
unfolding recover_transactions crashed
crash_recovery h t start n id before others injective plan s s' =
    let d = crashed h t start n in
    let (same_files, same_result) = recover-settled h before ((id, d.dir) ∷ others) d.files s in
    let (ms, returned, outcome) =
      go_on-Restored h t start d id others (recover_dir h d.dir d.files) s'
        (recover_dir-Phase h t start injective plan d (crash-Phase h t start n plan.distinct)) in
    (ms, same_result ∙ returned, subst (IsAtomic h t start d) (sym same_files) outcome)
