-- ===== src/Supervisor/Queue/Sound.antt =====
-- What holds of every item at any time.
use governed_ai_dev_team_fra.Common.{
  Bool, ◌≤◌, ◌<◌, String, true, none, some, List, [], ◌∷◌, ◌≡◌, ◌≢◌, refl, elem, arith, eq_iff,
  ◌==◌, string_eq, nat_eq, option_eq, Bool-cases, inl, inr, subst,
}
use governed_ai_dev_team_fra.Common.Dict.{Dict, lookup, lookup-remove}
use governed_ai_dev_team_fra.Common.Directory.{write, lookup-write}
use governed_ai_dev_team_fra.Supervisor.Queue.Items.{Item, Queue}
use governed_ai_dev_team_fra.Supervisor.Queue.Step.{
  Update, lease, requeue, reclaim, Step, create, update, bury, discard, Steps, done, after,
}
use governed_ai_dev_team_fra.Supervisor.Queue.Step
use governed_ai_dev_team_fra.Supervisor.Queue.Refines.{IsStored}
use governed_ai_dev_team_fra.Supervisor.Queue.Trace.{Op, run_ops, AreFresh, run_ops-Steps}

pub record IsSound (item : Item) : Type 0 where
  pub counted : item.attempt_count ≡ item.lease_epoch
  pub positive : 1 ≤ item.max_attempts
  pub known_state : elem item.state ("queued" ∷ "leased" ∷ "acknowledged" ∷ "completed" ∷ []) ≡ true
  pub unleased : item.state ≡ "queued" → item.lease_id ≡ none
  pub attempts_left :
      item.state ≡ "queued"
      → item.worker_attempt_state ≢ "orphaned"
      → item.attempt_count < item.max_attempts

queued_ne_orphaned : ◌≢◌ {A = String} "queued" "orphaned"
queued_ne_orphaned = ground (arith, eq_iff "queued" "orphaned")

leased_ne_queued : ◌≢◌ {A = String} "leased" "queued"
leased_ne_queued = ground (arith, eq_iff "leased" "queued")

acknowledged_ne_queued : ◌≢◌ {A = String} "acknowledged" "queued"
acknowledged_ne_queued = ground (arith, eq_iff "acknowledged" "queued")

completed_ne_queued : ◌≢◌ {A = String} "completed" "queued"
completed_ne_queued = ground (arith, eq_iff "completed" "queued")

Update-IsSound : {item item' : Item} → Update item item' → IsSound item → IsSound item'
Update-IsSound (lease a v) s = record {
  counted = omega (arith, s.counted);
  positive = s.positive;
  known_state = refl;
  unleased = λ e. absurd (leased_ne_queued e);
  attempts_left = λ e. absurd (leased_ne_queued e);
}
Update-IsSound (Step.acknowledge a h) s = record {
  counted = s.counted;
  positive = s.positive;
  known_state = refl;
  unleased = λ e. absurd (acknowledged_ne_queued e);
  attempts_left = λ e. absurd (acknowledged_ne_queued e);
}
Update-IsSound (Step.complete a r h) s = record {
  counted = s.counted;
  positive = s.positive;
  known_state = refl;
  unleased = λ e. absurd (completed_ne_queued e);
  attempts_left = λ e. absurd (completed_ne_queued e);
}
Update-IsSound (requeue a e d h m) s = record {
  counted = s.counted;
  positive = s.positive;
  known_state = refl;
  unleased = λ _. refl;
  attempts_left = λ _ _. ground (arith, s.positive, m);
}
Update-IsSound (reclaim now e) s = record {
  counted = s.counted;
  positive = s.positive;
  known_state = refl;
  unleased = λ _. refl;
  attempts_left = λ _ other. absurd (other refl);
}

-- Every item of the queue is sound.
abbrev pub AllSound : Queue → Type 0
AllSound q = (id : String) (item : Item) → lookup id q.items ≡ some item → IsSound item

write-AllSound :
    (k : String) (v : Item) (d : Dict Item)
    → IsSound v
    → ((id : String) (item : Item) → lookup id d ≡ some item → IsSound item)
    → (id : String) (item : Item) → lookup id (write k v d) ≡ some item
    → IsSound item
write-AllSound k v d sound others id item h = elim (Bool-cases (k == id)) [
  | inl here ↦
      let same : v ≡ item = ground (arith, lookup-write k id v d) in subst IsSound same sound
  | inr there ↦ others id item (ground (arith, lookup-write k id v d))
]

Step-AllSound : {b : Bool} {q q' : Queue} → Step b q q' → AllSound q → AllSound q'
Step-AllSound {q} (create a item fresh unburied new) s =
    write-AllSound a.item_id item q.items
      (record {
        counted = cc (new.unattempted, new.first_epoch);
        positive = omega (arith, new.limit);
        known_state = rw new.queued;
        unleased = λ _. new.unleased;
        attempts_left = λ _ _. omega (arith, new.unattempted, new.limit);
      })
      s
Step-AllSound {q} (update id item {item' = i} found u) s =
    write-AllSound id i q.items (Update-IsSound u (s id item found)) s
Step-AllSound {q} (bury a item e found h m) s =
    λ id i f. s id i (ground (arith, lookup-remove a.item_id id q.items))
Step-AllSound {q} (discard k document e now may) s =
    λ id i f. s id i (ground (arith, lookup-remove k id q.items))

Steps-AllSound : {b : Bool} {q q' : Queue} → Steps b q q' → AllSound q → AllSound q'
Steps-AllSound done s = s
Steps-AllSound (after ss st) s = Step-AllSound st (Steps-AllSound ss s)

-- Whatever operations run on a queue of sound items, every item keeps as many attempts as lease
-- epochs, a known state and a limit of at least one attempt; while queued it has no lease; and one
-- that was queued by `enqueue` or `fail`, and not by the reclaim of an expired lease, has attempts
-- left.
pub run_ops-AllSound :
    (ops : List Op) (q : Queue)
    → IsStored q
    → AreFresh ops q
    → AllSound q
    → AllSound (run_ops ops q)
run_ops-AllSound ops q stored fresh s = Steps-AllSound (run_ops-Steps ops q stored fresh).0 s
