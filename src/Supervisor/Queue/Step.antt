-- ===== src/Supervisor/Queue/Step.antt =====
-- The queue's contract: the ways in which a single file may change, in words of the documents.
use governed_ai_dev_team_fra.Common.{
  ℕ, ◌+◌, ◌≤◌, ◌<◌, max, Bool, true, String, none, some, ◌≡◌, ◌⊎◌,
}
use governed_ai_dev_team_fra.Common.Dict.{lookup, remove}
use governed_ai_dev_team_fra.Common.Directory.{write}
use governed_ai_dev_team_fra.Supervisor.Queue.Items.{Item, Queue, EnqueueArgs}
use governed_ai_dev_team_fra.Supervisor.Queue.Leases.{LeaseArgs}
use governed_ai_dev_team_fra.Supervisor.Queue.Holder.{HolderArgs}

-- Queued, and its time has come.
pub record IsReady (now : ℕ) (item : Item) : Type 0 where
  pub queued : item.state ≡ "queued"
  pub due : (t : ℕ) → item.next_attempt_at ≡ some t → t ≤ now

-- The caller shows the id and the epoch of the item's lease.
pub record Holds (a : HolderArgs) (item : Item) : Type 0 where
  pub same_lease : item.lease_id ≡ some a.lease_id
  pub same_epoch : item.lease_epoch ≡ a.lease_epoch

-- Leased or acknowledged, under a lease whose time is over.
pub record IsOverdue (now : ℕ) (item : Item) : Type 0 where
  pub held : (item.state ≡ "leased") ⊎ (item.state ≡ "acknowledged")
  pub expires_at : ℕ
  pub expires : item.lease_expires_at ≡ some expires_at
  pub over : expires_at ≤ now

-- What may happen to an item that stays in the queue.
pub data Update (item : Item) : Item → Type 0 where
  lease :
      (a : LeaseArgs)
      → IsReady a.now item
      → Update item (record item {
        state = "leased";
        worker_attempt_state = "leased";
        lease_id = some a.lease_id;
        lease_epoch = item.lease_epoch + 1;
        leased_by = some a.worker_id;
        attempt_count = item.attempt_count + 1;
        lease_expires_at = some (a.now + max 1000000 a.visibility);
        updated_at = a.now;
      })
  acknowledge :
      (a : HolderArgs)
      → Holds a item
      → Update item (record item {
        state = "acknowledged";
        worker_attempt_state = a.worker_attempt_state;
        updated_at = a.now;
      })
  complete :
      (a : HolderArgs) (result : String)
      → Holds a item
      → Update item (record item {
        state = "completed";
        worker_attempt_state = a.worker_attempt_state;
        result = some result;
        updated_at = a.now;
      })
  requeue :
      (a : HolderArgs) (error : String) (delay : ℕ)
      → Holds a item
      → item.attempt_count < max 1 item.max_attempts
      → Update item (record item {
        last_error = some error;
        updated_at = a.now;
        state = "queued";
        worker_attempt_state = "queued";
        lease_id = none;
        next_attempt_at = some (a.now + delay);
        worker_attempt_state_on_fail = some a.worker_attempt_state;
      })
  reclaim :
      (now : ℕ)
      → IsOverdue now item
      → Update item (record item {
        state = "queued";
        worker_attempt_state = "orphaned";
        lease_id = none;
        next_attempt_at = some now;
        last_error = some "lease_expired";
        updated_at = now;
      })

-- A new item, with a limit of one attempt at least.
pub record IsNew (a : EnqueueArgs) (item : Item) : Type 0 where
  pub named : item.id ≡ a.item_id
  pub queued : item.state ≡ "queued"
  pub unleased : item.lease_id ≡ none
  pub first_epoch : item.lease_epoch ≡ 0
  pub unattempted : item.attempt_count ≡ 0
  pub limit : item.max_attempts ≡ max 1 a.max_attempts
  pub due : item.next_attempt_at ≡ some (a.now + a.delay)
  pub requested_as : (item.run_id ≡ a.run_id) × (item.kind ≡ a.kind) × (item.payload ≡ a.payload)

-- One change of one file: a new item, an update, or a dead letter for an item whose attempts are
-- used up and whose holder reports a failure. Only where `discards` is true may an item be made a
-- dead letter without lease or limit.
pub data Step (discards : Bool) (q : Queue) : Queue → Type 0 where
  create :
      (a : EnqueueArgs) (item : Item)
      → lookup a.item_id q.items ≡ none
      → lookup a.item_id q.dead_letters ≡ none
      → IsNew a item
      → Step discards q (record q { items = write a.item_id item q.items })
  update :
      (id : String) (item : Item) {item' : Item}
      → lookup id q.items ≡ some item
      → Update item item'
      → Step discards q (record q { items = write id item' q.items })
  bury :
      (a : HolderArgs) (item : Item) (error : String)
      → lookup a.item_id q.items ≡ some item
      → Holds a item
      → max 1 item.max_attempts ≤ item.attempt_count
      → Step discards q (record {
        items = remove a.item_id q.items;
        dead_letters =
            write a.item_id
              (record item {
                state = "dead_letter";
                worker_attempt_state = "failed";
                last_error = some error;
                updated_at = a.now;
              })
              q.dead_letters;
      })
  discard :
      (id : String) (document : Item) (error : String) (now : ℕ)
      → discards ≡ true
      → Step discards q (record {
        items = remove id q.items;
        dead_letters =
            write id
              (record document {
                state = "dead_letter";
                worker_attempt_state = "failed";
                last_error = some error;
                updated_at = now;
              })
              q.dead_letters;
      })

pub data Steps (discards : Bool) (q : Queue) : Queue → Type 0 where
  done : Steps discards q q
  after : {q' q'' : Queue} → Steps discards q q' → Step discards q' q'' → Steps discards q q''
