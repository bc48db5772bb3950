-- ===== src/Supervisor/Queue/Holder.antt =====
-- core/supervisor/queue.py: what the holder of a lease does, and the dead letters.
use governed_ai_dev_team_fra.Common.{
  ℕ, ◌+◌, String, Bool, ◌&&◌, Option, none, some, string_eq, nat_eq, option_eq, ◌==◌, leb,
  if◌then◌else◌,
}
use governed_ai_dev_team_fra.Common.Dict.{lookup, remove}
use governed_ai_dev_team_fra.Common.Directory.{write}
use governed_ai_dev_team_fra.Supervisor.Queue.Items.{
  Item, Queue, Outcome, returned, raised, key_error, permission_error,
}

-- The arguments that `acknowledge`, `complete` and `fail` share, with the time.
pub record HolderArgs : Type 0 where
  pub item_id : String
  pub lease_id : String
  pub lease_epoch : ℕ
  pub worker_attempt_state : String
  pub now : ℕ

abbrev pub holds_lease : HolderArgs → Item → Bool
holds_lease a document =
    document.lease_id == some a.lease_id && document.lease_epoch == a.lease_epoch

-- The two checks that open each of the three operations.
abbrev pub for_holder : HolderArgs → Option Item → (Item → Outcome) → Outcome
for_holder a none k = raised key_error
for_holder a (some document) k =
    if holds_lease a document then k document else raised permission_error

abbrev pub save : String → Item → Queue → Outcome
save id document q = returned document (record q { items = write id document q.items })

abbrev pub acknowledged_item : HolderArgs → Item → Item
acknowledged_item a document = record document {
  state = "acknowledged";
  worker_attempt_state = a.worker_attempt_state;
  updated_at = a.now;
}

unfoldable pub acknowledge : HolderArgs → Queue → Outcome
acknowledge a q =
    for_holder a (lookup a.item_id q.items)
      λ document. save a.item_id (acknowledged_item a document) q

abbrev pub completed_item : HolderArgs → String → Item → Item
completed_item a result document = record document {
  state = "completed";
  worker_attempt_state = a.worker_attempt_state;
  result = some result;
  updated_at = a.now;
}

unfoldable pub complete : HolderArgs → String → Queue → Outcome
complete a result q =
    for_holder a (lookup a.item_id q.items)
      λ document. save a.item_id (completed_item a result document) q

abbrev pub dead_item : String → ℕ → Item → Item
dead_item error now document = record document {
  state = "dead_letter";
  worker_attempt_state = "failed";
  last_error = some error;
  updated_at = now;
}

abbrev pub bury : String → Item → Queue → Queue
bury id document q = record {
  items = remove id q.items;
  dead_letters = write id document q.dead_letters;
}

-- `source or _read_item(path)`
abbrev pub source_or : Option Item → Option Item → Option Item
source_or (some source) read = some source
source_or none read = read

abbrev pub dead_letter_of : Option Item → String → String → ℕ → Queue → Outcome
dead_letter_of none id error now q = raised key_error
dead_letter_of (some document) id error now q =
    returned (dead_item error now document) (bury id (dead_item error now document) q)

unfoldable pub dead_letter : String → String → Option Item → ℕ → Queue → Outcome
dead_letter id error source now q =
    dead_letter_of (source_or source (lookup id q.items)) id error now q

abbrev pub requeued_item : HolderArgs → String → ℕ → Item → Item
requeued_item a error retry_delay document = record document {
  last_error = some error;
  updated_at = a.now;
  state = "queued";
  worker_attempt_state = "queued";
  lease_id = none;
  next_attempt_at = some (a.now + retry_delay);
  worker_attempt_state_on_fail = some a.worker_attempt_state;
}

-- `int(document.get("max_attempts") or 1)`
abbrev pub or_one : ℕ → ℕ
or_one n = if n == 0 then 1 else n

unfoldable pub fail : HolderArgs → String → ℕ → Queue → Outcome
unfolding dead_letter
fail a error retry_delay q = for_holder a (lookup a.item_id q.items) λ document.
    if leb (or_one document.max_attempts) document.attempt_count
    then dead_letter a.item_id error
        (some (record document { last_error = some error; updated_at = a.now })) a.now q
    else save a.item_id (requeued_item a error retry_delay document) q
