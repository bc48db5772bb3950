-- ===== src/Persistence/Crash/Doubled.antt =====
-- core/persistence/transaction.py: a plan that no recovery finishes.
use governed_ai_dev_team_fra.Common.{
  subst, sym, ◌⊎◌, suc, ℕ, String, Option, some, List, [], ◌∷◌, ◌≡◌, ◌≢◌, refl, inl, inr, arith,
  eq_iff, string_eq, Bool-cases, map,
}
use governed_ai_dev_team_fra.Common.Dict.{Dict, lookup}
use governed_ai_dev_team_fra.Errors.{
  Result, GatewayError, ok, err, raise, transaction_recovery_required,
}
use governed_ai_dev_team_fra.Persistence.Transaction.{
  Files, Transaction, Journal, Hashing, Entry, entry_of, prepared_journal,
}
use governed_ai_dev_team_fra.Persistence.Commit.{TransactionDir, readable}
use governed_ai_dev_team_fra.Persistence.Recover.{
  recover_dir, recover_journal, recover_file, recover_transactions, DirResult, Recovery,
  finish_prepared, after_finish, go_on, apply_pending_writes, apply_pending_write,
  verify_staging_hashes, stage_matches, and_then,
}
use governed_ai_dev_team_fra.Persistence.Crash.Recovery.{verify_journal_integrity-prepared}

-- A transaction that plans two writes of one file, whose hash is that of `old`.
abbrev pub twice : Hashing → String → String → String → String → String → Transaction
twice h id path old first second = record {
  transaction_id = id;
  planned =
      record { relative_path = path; content = first; before_hash = some (h.sha256 old) }
      ∷ record { relative_path = path; content = second; before_hash = some (h.sha256 old) }
      ∷ [];
  planned_domain_events = [];
}

second_write_refused :
    (h : Hashing) (path old first second : String) (stages : ℕ → Option String) (files : Files)
    → h.sha256 second ≢ h.sha256 first
    → h.sha256 second ≢ h.sha256 old
    → h.sha256 old ≢ ""
    → lookup path files ≡ some second
    → (apply_pending_writes h stages 0
        (map (entry_of h) (twice h "" path old first second).planned)
        files).0
      ≡ raise transaction_recovery_required "/writes"
unfolding apply_pending_writes apply_pending_write
second_write_refused h path old first second stages files other_first other_old some_hash made =
    ground (
      arith,
      made,
      eq_iff (h.sha256 second) (h.sha256 first),
      eq_iff (h.sha256 second) (h.sha256 old),
      eq_iff (h.sha256 old) "",
    )

staging_outcome :
    (h : Hashing) (stages : ℕ → Option String) (path : String) (i : ℕ) (entries : List Entry)
    → (verify_staging_hashes h stages path i entries ≡ ok tt)
      ⊎ (verify_staging_hashes h stages path i entries ≡ raise transaction_recovery_required path)
unfolding verify_staging_hashes
staging_outcome h stages path i [] = inl refl
staging_outcome h stages path i (entry ∷ entries) =
    elim (Bool-cases (stage_matches h entry (stages i))) [
      | inl same ↦ rw same (staging_outcome h stages path (suc i) entries)
      | inr other ↦ rw other (inr refl)
    ]

first_fails :
    (r : Result (Unit {0}) × Files) (next : Files → Result (Unit {0}) × Files) {e : GatewayError}
    → r.0 ≡ err e
    → (and_then r.0 next r.1).0 ≡ err e
first_fails r next failed = rw failed

finish-twice :
    (h : Hashing) (id path old first second : String) (dir : TransactionDir) (files : Files)
    → h.sha256 second ≢ h.sha256 first
    → h.sha256 second ≢ h.sha256 old
    → h.sha256 old ≢ ""
    → lookup path files ≡ some second
    → (finish_prepared h (prepared_journal h (twice h id path old first second)) dir files).0
      ≡ raise transaction_recovery_required "/writes"
unfolding finish_prepared verify_staging_hashes
finish-twice h id path old first second dir files other_first other_old some_hash made =
    let t = twice h id path old first second in
    let entries = map (entry_of h) t.planned in
    let refused =
      second_write_refused h path old first second dir.stages files other_first other_old some_hash
        made in
    elim (staging_outcome h dir.stages "/writes" 0 entries) [
      | inr failed ↦ rw (verify_journal_integrity-prepared h t, failed)
      | inl staged ↦
          rw (verify_journal_integrity-prepared h t, staged)
            (first_fails (apply_pending_writes h dir.stages 0 entries files) _ refused)
    ]

-- A prepared transaction with two writes of one existing file cannot be recovered once the second is
-- made, if the hash of its content differs from those of the first and of the old content, and the
-- old hash is no empty text: whatever the staged files, the other files and the later transactions,
-- recovery raises TRANSACTION_RECOVERY_REQUIRED.
pub double_write_unrecoverable :
    (h : Hashing) (id path old first second : String) (dir : TransactionDir) (files : Files)
    (others : Dict TransactionDir)
    → h.sha256 second ≢ h.sha256 first
    → h.sha256 second ≢ h.sha256 old
    → h.sha256 old ≢ ""
    → lookup path files ≡ some second
    → dir.journal ≡ some (readable (prepared_journal h (twice h id path old first second)))
    → (recover_transactions h ((id, dir) ∷ others) files).result
      ≡ raise transaction_recovery_required "/writes"
unfolding recover_transactions recover_dir recover_journal
double_write_unrecoverable h id path old first second dir files others other_first other_old
      some_hash made prepared =
    let j = prepared_journal h (twice h id path old first second) in
    let failed =
      finish-twice h id path old first second dir files other_first other_old some_hash made in
    subst
      (λ o.
        (go_on id others (recover_file h o dir files) (recover_transactions h others)).result
        ≡ raise transaction_recovery_required "/writes")
      (sym prepared)
      (go_on-failed id others (after_finish j dir (finish_prepared h j dir files))
        (recover_transactions h others)
        (after_finish-failed j dir (finish_prepared h j dir files) failed))
  where
    after_finish-failed :
        (j : Journal) (dir : TransactionDir) (r : Result (Unit {0}) × Files) {e : GatewayError}
        → r.0 ≡ err e
        → (after_finish j dir r).result ≡ err e
    after_finish-failed j dir (ok u, files) h = cc
    after_finish-failed j dir (err x, files) h = cc

    go_on-failed :
        (id : String) (others : Dict TransactionDir) (r : DirResult) (rest : Files → Recovery)
        {e : GatewayError}
        → r.result ≡ err e
        → (go_on id others r rest).result ≡ err e
    go_on-failed id others r rest h = rw h
