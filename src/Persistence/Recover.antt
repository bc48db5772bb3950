-- ===== src/Persistence/Recover.antt =====
-- core/persistence/transaction.py: `recover_transactions` and what it calls. A raised error leaves the
-- files that were written before it. A JSON pointer leaves out the index of the entry, and a journal
-- that is JSON but no object is not modelled.
use governed_ai_dev_team_fra.Common.{
  ℕ, suc, String, Bool, true, false, not, ◌&&◌, Option, none, some, List, [], ◌∷◌, ◌++◌, string_eq,
  option_eq, ◌==◌, if◌then◌else◌,
}
use governed_ai_dev_team_fra.Common.Dict.{Dict, lookup, put}
use governed_ai_dev_team_fra.Errors.{Result, ok, err, raise, transaction_recovery_required}
use governed_ai_dev_team_fra.Persistence.Transaction.{Files, Entry, Journal, Hashing}
use governed_ai_dev_team_fra.Persistence.Commit.{JournalFile, unreadable, readable, TransactionDir}

-- A method that writes files and may raise.
abbrev pub Action : Type 0
Action = Files → Result (Unit {0}) × Files

abbrev pub and_then : Result (Unit {0}) → Action → Action
and_then (ok _) next files = next files
and_then (err e) next files = (err e, files)

abbrev pub recovery_error : String → Result (Unit {0})
recovery_error path = raise transaction_recovery_required path

-- _verify_journal_integrity; an absent or empty hash is not checked
unfoldable pub verify_journal_integrity : Hashing → Journal → Result (Unit {0})
verify_journal_integrity h j = elim j.integrity_hash [
  | none ↦ ok tt
  | some expected ↦
      if expected == ""
      then ok tt
      else if h.journal_integrity_hash j.writes j.domain_events == expected
      then ok tt
      else recovery_error "/integrity_hash"
]

-- One of the two loops of _verify_staging_hashes
abbrev pub stage_matches : Hashing → Entry → Option String → Bool
stage_matches h entry none = true
stage_matches h entry (some content) = h.sha256 content == entry.after_hash

unfoldable pub verify_staging_hashes :
    Hashing → (ℕ → Option String) → String → ℕ → List Entry → Result (Unit {0})
verify_staging_hashes h stages path i [] = ok tt
verify_staging_hashes h stages path i (entry ∷ entries) =
    let rest = verify_staging_hashes h stages path (suc i) entries in
    if stage_matches h entry (stages i) then rest else recovery_error path

-- _target_matches_hash for an `after_hash`
abbrev pub target_matches_hash : Hashing → Option String → String → Bool
target_matches_hash h none expected = false
target_matches_hash h (some content) expected = h.sha256 content == expected

-- `target.is_file() and before_hash` and the current hash is another
abbrev pub was_changed : Hashing → Option String → Option String → Bool
was_changed h none before = false
was_changed h (some content) none = false
was_changed h (some content) (some before) = not (before == "") && not (h.sha256 content == before)

abbrev pub write_staged : String → Option String → String → Action
write_staged path none missing files = (recovery_error missing, files)
write_staged path (some content) missing files = (ok tt, put path content files)

-- The body of the loop of _apply_pending_writes
unfoldable pub apply_pending_write : Hashing → Option String → Entry → Action
apply_pending_write h staged entry files =
    let target = lookup entry.relative_path files in
    if target_matches_hash h target entry.after_hash
    then (ok tt, files)
    else if was_changed h target entry.before_hash
    then (recovery_error "/writes", files)
    else write_staged entry.relative_path staged "/writes" files

unfoldable pub apply_pending_writes : Hashing → (ℕ → Option String) → ℕ → List Entry → Action
apply_pending_writes h stages i [] files = (ok tt, files)
apply_pending_writes h stages i (entry ∷ entries) files =
    let (result, files') = apply_pending_write h (stages i) entry files in
    and_then result (apply_pending_writes h stages (suc i) entries) files'

-- The body of the loop of _apply_pending_domain_events
abbrev pub apply_event_at : Hashing → Option String → Option String → Entry → Action
apply_event_at h (some content) staged entry files =
    if h.sha256 content == entry.after_hash
    then (ok tt, files)
    else (recovery_error "/domain_events", files)
apply_event_at h none staged entry files =
    write_staged entry.relative_path staged "/domain_events" files

unfoldable pub apply_pending_domain_events : Hashing → (ℕ → Option String) → ℕ → List Entry → Action
apply_pending_domain_events h stages i [] files = (ok tt, files)
apply_pending_domain_events h stages i (entry ∷ entries) files =
    let (result, files') =
      apply_event_at h (lookup entry.relative_path files) (stages i) entry files in
    and_then result (apply_pending_domain_events h stages (suc i) entries) files'

-- What is done with one `prepared` journal before it is marked as committed.
unfoldable pub finish_prepared : Hashing → Journal → TransactionDir → Action
finish_prepared h j dir files =
    and_then (verify_journal_integrity h j)
      (λ f0.
        and_then (verify_staging_hashes h dir.stages "/writes" 0 j.writes)
          (λ f1.
            and_then (verify_staging_hashes h dir.event_stages "/domain_events" 0 j.domain_events)
              (λ f2.
                let (written, f3) = apply_pending_writes h dir.stages 0 j.writes f2 in
                and_then written (apply_pending_domain_events h dir.event_stages 0 j.domain_events)
                  f3)
              f1)
          f0)
      files

pub data Message : Type 0 where
  removed_invalid : Message
  removed_unknown_status : String → Message
  recovered_transaction : String → Message

-- What a step of the loop over TX-*/journal.json leaves.
pub record DirResult : Type 0 where
  pub result : Result (List Message)
  pub dir : TransactionDir
  pub files : Files

abbrev pub marked_committed : Journal → TransactionDir → TransactionDir
marked_committed j dir = record dir {
  journal = some (readable (record j { status = "committed"; recovered = true }));
}

abbrev pub after_finish : Journal → TransactionDir → Result (Unit {0}) × Files → DirResult
after_finish j dir (ok _, files) = record {
  result = ok (recovered_transaction j.transaction_id ∷ []);
  dir = marked_committed j dir;
  files = files;
}
after_finish j dir (err e, files) = record { result = err e; dir = dir; files = files }

unfoldable pub recover_journal : Hashing → Journal → TransactionDir → Files → DirResult
unfolding finish_prepared
recover_journal h j dir files =
    if j.status == "committed"
    then record { result = ok []; dir = dir; files = files }
    else if not (j.status == "prepared")
    then (record {
      result = ok (removed_unknown_status j.transaction_id ∷ []);
      dir = record dir { journal = none };
      files = files;
    })
    else after_finish j dir (finish_prepared h j dir files)

-- A directory without journal.json is not listed.
abbrev pub recover_file : Hashing → Option JournalFile → TransactionDir → Files → DirResult
recover_file h none dir files = record { result = ok []; dir = dir; files = files }
recover_file h (some unreadable) dir files = record {
  result = ok (removed_invalid ∷ []);
  dir = record dir { journal = none };
  files = files;
}
recover_file h (some (readable j)) dir files = recover_journal h j dir files

unfoldable pub recover_dir : Hashing → TransactionDir → Files → DirResult
unfolding recover_journal
recover_dir h dir files = recover_file h dir.journal dir files

-- The state after `recover_transactions`, whether it returned or raised.
pub record Recovery : Type 0 where
  pub result : Result (List Message)
  pub dirs : Dict TransactionDir
  pub files : Files

abbrev pub extend_messages : List Message → Result (List Message) → Result (List Message)
extend_messages first (ok others) = ok (first ++ others)
extend_messages first (err e) = err e

-- The rest of the loop, or the raised error.
abbrev pub go_on : String → Dict TransactionDir → DirResult → (Files → Recovery) → Recovery
go_on id others r rest = elim r.result [
  | err e ↦ record { result = err e; dirs = (id, r.dir) ∷ others; files = r.files }
  | ok first ↦ record {
    result = extend_messages first (rest r.files).result;
    dirs = (id, r.dir) ∷ (rest r.files).dirs;
    files = (rest r.files).files;
  }
]

unfoldable pub recover_transactions : Hashing → Dict TransactionDir → Files → Recovery
unfolding recover_dir
recover_transactions h [] files = record { result = ok []; dirs = []; files = files }
recover_transactions h ((id, dir) ∷ dirs) files =
    go_on id dirs (recover_dir h dir files) (recover_transactions h dirs)
