-- ===== src/Persistence/Crash/Again.antt =====
-- Recovering twice, and committing without a crash.
use governed_ai_dev_team_fra.Common.{
  String, true, false, Option, none, some, List, [], ◌∷◌, ◌++◌, ◌≡◌, ◌≢◌, refl, inl, inr, arith,
  string_eq, ◌==◌, Bool-cases, is_nil, ◌&&◌,
}
use governed_ai_dev_team_fra.Common.Dict.{Dict}
use governed_ai_dev_team_fra.Errors.{Result, ok, err, Result-cases}
use governed_ai_dev_team_fra.Persistence.Transaction.{
  Files, PlannedWrite, Transaction, Journal, Hashing,
}
use governed_ai_dev_team_fra.Persistence.Commit.{
  Disk, TransactionDir, JournalFile, unreadable, readable, commit, commit_steps, run_steps,
  empty_dir,
}
use governed_ai_dev_team_fra.Persistence.Recover.{
  recover_dir, recover_journal, recover_file, recover_transactions, DirResult, Recovery, Message,
  finish_prepared, after_finish, go_on, extend_messages,
}
use governed_ai_dev_team_fra.Persistence.Crash.Phases.{Committed, commit-Committed}
use governed_ai_dev_team_fra.Persistence.Crash.Atomic.{is_settled, AreSettled, recover-all_settled}

Settles : DirResult → Type 0
Settles r = (e : List Message) → r.result ≡ ok e → is_settled r.dir.journal ≡ true

after_finish-settled :
    (j : Journal) (dir : TransactionDir) (r : Result (Unit {0}) × Files)
    → Settles (after_finish j dir r)
unfolding Settles
after_finish-settled j dir (ok u, files) ms e = refl
after_finish-settled j dir (err x, files) ms e = cc

recover_file-settled :
    (h : Hashing) (o : Option JournalFile) (dir : TransactionDir) (files : Files)
    → dir.journal ≡ o
    → Settles (recover_file h o dir files)
unfolding Settles recover_journal
recover_file-settled h none dir files at ms e = rw at
recover_file-settled h (some unreadable) dir files at ms e = refl
recover_file-settled h (some (readable j)) dir files at ms e =
    elim (Bool-cases (j.status == "committed")) [
      | inl committed ↦ rw committed (rw at committed)
      | inr other ↦ elim (Bool-cases (j.status == "prepared")) [
        | inr unknown ↦ rw (other, unknown)
        | inl prepared ↦
            rw (other, prepared)
              (after_finish-settled j dir (finish_prepared h j dir files) ms (ground arith))
      ]
    ]

extend-eq-ok :
    (first ms : List Message) (r : Result (List Message))
    → extend_messages first r ≡ ok ms
    → (others : List Message) × (r ≡ ok others)
extend-eq-ok first ms (ok others) e = (others, refl)
extend-eq-ok first ms (err x) e = cc

go_on-AreSettled :
    (id : String) (dirs : Dict TransactionDir) (r : DirResult) (rest : Files → Recovery)
    (ms : List Message)
    → Settles r
    → ((others : List Message) → (rest r.files).result ≡ ok others → AreSettled (rest r.files).dirs)
    → (go_on id dirs r rest).result ≡ ok ms
    → AreSettled (go_on id dirs r rest).dirs
unfolding Settles
go_on-AreSettled id dirs r rest ms settles settled e = elim (Result-cases r.result) [
  | inr (x, raised) ↦ absurd (ground arith)
  | inl (first, returned) ↦
      let (others, rest_ok) =
        extend-eq-ok first ms (rest r.files).result (ground (arith, returned)) in
      rw returned (settles first returned, settled others rest_ok)
]

recover-AreSettled :
    (h : Hashing) (dirs : Dict TransactionDir) (files : Files) (ms : List Message)
    → (recover_transactions h dirs files).result ≡ ok ms
    → AreSettled (recover_transactions h dirs files).dirs
unfolding recover_transactions recover_dir
recover-AreSettled h [] files ms e = tt
recover-AreSettled h ((id, dir) ∷ dirs) files ms e =
    let r = recover_file h dir.journal dir files in
    go_on-AreSettled id dirs r (recover_transactions h dirs) ms
      (recover_file-settled h dir.journal dir files refl) (recover-AreSettled h dirs r.files) e

-- A recovery that returned leaves nothing to recover: a second one returns no message and changes no
-- file.
pub recover_twice :
    (h : Hashing) (dirs : Dict TransactionDir) (files : Files) (ms : List Message)
    → (recover_transactions h dirs files).result ≡ ok ms
    → let first = recover_transactions h dirs files in
      ((recover_transactions h first.dirs first.files).files ≡ first.files)
      × ((recover_transactions h first.dirs first.files).result ≡ ok [])
recover_twice h dirs files ms e =
    let first = recover_transactions h dirs files in
    recover-all_settled h first.dirs first.files (recover-AreSettled h dirs files ms e)

-- A commit with something planned that no crash interrupts leaves a committed journal and the files
-- with every planned write.
pub commit_lem :
    (h : Hashing) (t : Transaction) (start : Files)
    → t.planned ++ t.planned_domain_events ≢ []
    → (d : Disk) × (commit h t (record { files = start; dir = empty_dir }) ≡ ok d)
      × Committed h t start d
unfolding commit
commit_lem h t start some_write = (
  run_steps (commit_steps h t) (record { files = start; dir = empty_dir }),
  rw (not_both_nil t.planned t.planned_domain_events some_write),
  commit-Committed h t start,
)
  where
    not_both_nil : (xs ys : List PlannedWrite) → xs ++ ys ≢ [] → (is_nil xs && is_nil ys) ≡ false
    not_both_nil [] [] ne = absurd (ne refl)
    not_both_nil [] (y ∷ ys) ne = refl
    not_both_nil (x ∷ xs) ys ne = refl
