-- ===== src/Persistence/Transaction.antt =====
-- core/persistence/transaction.py: planned writes and the journal. A file's bytes are a text, and the
-- workspace is a dictionary from relative paths to them. `hashlib.sha256` and the JSON text that the
-- journal's integrity hash is taken of are the argument `Hashing`.
use governed_ai_dev_team_fra.Common.{
  String, Bool, false, Option, none, some, List, [], ◌∷◌, ◌++◌, string_eq, map,
}
use governed_ai_dev_team_fra.Common.Dict.{Dict, lookup}
use governed_ai_dev_team_fra.Errors.{Result, ok, raise, already_exists}

abbrev pub Files : Type 0
Files = Dict String

pub record PlannedWrite : Type 0 where
  pub relative_path : String
  pub content : String
  pub before_hash : Option String

pub record Transaction : Type 0 where
  pub transaction_id : String
  pub planned : List PlannedWrite
  pub planned_domain_events : List PlannedWrite

-- A write as the journal records it.
pub record Entry : Type 0 where
  pub relative_path : String
  pub before_hash : Option String
  pub after_hash : String

pub record Journal : Type 0 where
  pub transaction_id : String
  pub status : String
  pub writes : List Entry
  pub domain_events : List Entry
  pub integrity_hash : Option String
  pub recovered : Bool

pub record Hashing : Type 0 where
  pub sha256 : String → String
  pub journal_integrity_hash : List Entry → List Entry → String

abbrev pub hash_of : Hashing → Option String → Option String
hash_of h none = none
hash_of h (some content) = some (h.sha256 content)

-- Transaction.begin
unfoldable pub begin : String → Transaction
begin transaction_id = record {
  transaction_id = transaction_id;
  planned = [];
  planned_domain_events = [];
}

-- plan_yaml_write, plan_json_write and plan_bytes_write, for the bytes that each makes
unfoldable pub plan_write : Hashing → Files → String → String → Transaction → Transaction
plan_write h files path content t =
    let item : PlannedWrite = record {
      relative_path = path;
      content = content;
      before_hash = hash_of h (lookup path files);
    } in
    record t { planned = t.planned ++ item ∷ [] }

abbrev pub plan_event_unless : Option String → String → String → Transaction → Result Transaction
plan_event_unless (some _) path content t = raise already_exists "/domain_events"
plan_event_unless none path content t =
    let item : PlannedWrite = record {
      relative_path = path;
      content = content;
      before_hash = none;
    } in
    ok (record t { planned_domain_events = t.planned_domain_events ++ item ∷ [] })

unfoldable pub plan_domain_event : Files → String → String → Transaction → Result Transaction
plan_domain_event files path content t = plan_event_unless (lookup path files) path content t

abbrev pub entry_of : Hashing → PlannedWrite → Entry
entry_of h item = record {
  relative_path = item.relative_path;
  before_hash = item.before_hash;
  after_hash = h.sha256 item.content;
}

-- _build_journal_writes and the payload of `commit`
abbrev pub prepared_journal : Hashing → Transaction → Journal
prepared_journal h t =
    let writes = map (entry_of h) t.planned in
    let domain_events = map (entry_of h) t.planned_domain_events in
    record {
      transaction_id = t.transaction_id;
      status = "prepared";
      writes = writes;
      domain_events = domain_events;
      integrity_hash = some (h.journal_integrity_hash writes domain_events);
      recovered = false;
    }
