-- ===== src/Supervisor/Queue/Items.antt =====
-- core/supervisor/queue.py: the items, the two directories, and `enqueue`.
use governed_ai_dev_team_fra.Common.{
  ℕ, ◌+◌, ◌*◌, max, String, Bool, false, not, ◌&&◌, Option, none, some, [], ◌∷◌, elem, string_eq,
  nat_eq, option_eq, ◌==◌, if◌then◌else◌,
}
use governed_ai_dev_team_fra.Common.Dict.{Dict}
use governed_ai_dev_team_fra.Common.Directory.{write}

pub record Item : Type 0 where
  pub id : String
  pub run_id : String
  pub kind : String
  pub state : String
  pub worker_attempt_state : String
  pub payload : String
  pub attempt_count : ℕ
  pub max_attempts : ℕ
  pub next_attempt_at : Option ℕ
  pub lease_id : Option String
  pub lease_epoch : ℕ
  pub leased_by : Option String
  pub lease_expires_at : Option ℕ
  pub updated_at : ℕ
  pub dedupe_key : Option String
  pub last_error : Option String
  pub result : Option String
  pub worker_attempt_state_on_fail : Option String

-- The two directories of the queue.
pub record Queue : Type 0 where
  pub items : Dict Item
  pub dead_letters : Dict Item

pub data Error : Type 0 where
  key_error permission_error : Error

pub data Outcome : Type 0 where
  returned : Item → Queue → Outcome
  raised : Error → Outcome

abbrev pub seconds : ℕ → ℕ
seconds n = n * 1000000

abbrev pub write_item : Item → Queue → Queue
write_item item q = record q { items = write item.id item q.items }

-- The arguments of `enqueue`, with the id and the time that it draws.
pub record EnqueueArgs : Type 0 where
  pub item_id : String
  pub now : ℕ
  pub run_id : String
  pub kind : String
  pub payload : String
  pub delay : ℕ
  pub dedupe_key : Option String
  pub max_attempts : ℕ

abbrev pub is_duplicate : Option String → Item → Bool
is_duplicate none existing = false
is_duplicate (some key) existing =
    not (key == "")
    && (existing.dedupe_key == some key
        && elem existing.state ("queued" ∷ "leased" ∷ "acknowledged" ∷ []))

unfoldable pub find_duplicate : Option String → Dict Item → Option Item
find_duplicate key [] = none
find_duplicate key ((id, existing) ∷ d) =
    let rest = find_duplicate key d in if is_duplicate key existing then some existing else rest

abbrev pub new_item : EnqueueArgs → Item
new_item a = record {
  id = a.item_id;
  run_id = a.run_id;
  kind = a.kind;
  state = "queued";
  worker_attempt_state = "queued";
  payload = a.payload;
  attempt_count = 0;
  max_attempts = max 1 a.max_attempts;
  next_attempt_at = some (a.now + a.delay);
  lease_id = none;
  lease_epoch = 0;
  leased_by = none;
  lease_expires_at = none;
  updated_at = a.now;
  dedupe_key = a.dedupe_key;
  last_error = none;
  result = none;
  worker_attempt_state_on_fail = none;
}

abbrev pub enqueue_unless : Option Item → EnqueueArgs → Queue → Outcome
enqueue_unless (some existing) a q = returned existing q
enqueue_unless none a q = returned (new_item a) (write_item (new_item a) q)

unfoldable pub enqueue : EnqueueArgs → Queue → Outcome
unfolding find_duplicate
enqueue a q = enqueue_unless (find_duplicate a.dedupe_key q.items) a q
