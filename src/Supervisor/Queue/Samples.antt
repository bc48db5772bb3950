-- ===== src/Supervisor/Queue/Samples.antt =====
-- A small queue, what the operations do on it, and the theorems at it.
use governed_ai_dev_team_fra.Common.{
  false, ℕ, ◌≤◌, String, some, List, [], ◌∷◌, ◌≡◌, refl, arith, true,
}
use governed_ai_dev_team_fra.Common.Dict.{lookup, put, remove}
use governed_ai_dev_team_fra.Common.Directory.{insert_sorted, write}
use governed_ai_dev_team_fra.Supervisor.Queue.Items.{
  Item, Queue, EnqueueArgs, new_item, enqueue, find_duplicate,
}
use governed_ai_dev_team_fra.Supervisor.Queue.Leases.{
  LeaseArgs, leased_item, try_lease, lease_scan, lease_next, is_visible, reclaim_one, reclaim_scan,
  reclaim_expired_leases,
}
use governed_ai_dev_team_fra.Supervisor.Queue.Holder.{
  HolderArgs, acknowledge, complete, fail, dead_letter,
}
use governed_ai_dev_team_fra.Supervisor.Queue.Step.{Steps}
use governed_ai_dev_team_fra.Supervisor.Queue.Refines.{IsStored}
use governed_ai_dev_team_fra.Supervisor.Queue.Trace.{
  Op, enqueue_op, lease_op, acknowledge_op, fail_op, reclaim_op, run_op, run_ops, AreFresh,
  run_ops-Steps,
}
use governed_ai_dev_team_fra.Supervisor.Queue.Sound.{AllSound, run_ops-AllSound}
use governed_ai_dev_team_fra.Supervisor.Queue.Fencing.{
  Traced, run_ops-Traced, AreRefused, old_lease_fenced,
}
use governed_ai_dev_team_fra.Supervisor.Queue.Exact.{reclaim_ignores_limit}

program : Unit {0}
unfolding enqueue find_duplicate lease_next lease_scan try_lease acknowledge complete fail
    dead_letter reclaim_one reclaim_scan reclaim_expired_leases run_op run_ops lookup put remove
    insert_sorted write
program = tt

abbrev empty : Queue
empty = record { items = []; dead_letters = [] }

empty-IsStored : IsStored empty
unfolding lookup
empty-IsStored = record { unique = tt; named = λ id item h. cc }

empty-AllSound : AllSound empty
unfolding lookup
empty-AllSound id item h = cc

abbrev job : String → ℕ → EnqueueArgs
job id limit = record {
  item_id = id;
  now = 10;
  run_id = "RUN-1";
  kind = "tick";
  payload = "{}";
  delay = 0;
  dedupe_key = some id;
  max_attempts = limit;
}

abbrev take : String → ℕ → LeaseArgs
take lease_id now = record { worker_id = "w1"; lease_id = lease_id; now = now; visibility = 5 }

abbrev holder : ℕ → String → ℕ → HolderArgs
holder epoch lease_id now = record {
  item_id = "Q-1";
  lease_id = lease_id;
  lease_epoch = epoch;
  worker_attempt_state = "failed";
  now = now;
}

-- Two jobs; the first is leased, expires, is leased again, and fails.
abbrev script : List Op
script =
    enqueue_op (job "Q-1" 1)
    ∷ enqueue_op (job "Q-2" 3)
    ∷ lease_op (take "L-1" 20)
    ∷ reclaim_op 2000020
    ∷ lease_op (take "L-2" 2000030)
    ∷ []

abbrev one_leased : List Op
one_leased = enqueue_op (job "Q-1" 1) ∷ lease_op (take "L-1" 20) ∷ []

script-AreFresh : AreFresh script empty
unfolding program
script-AreFresh = ((refl, refl), ((refl, refl), (tt, (tt, (tt, tt)))))

one_leased-AreFresh : AreFresh one_leased empty
unfolding program
one_leased-AreFresh = ((refl, refl), (tt, tt))

abbrev leased_once : Queue
leased_once = run_ops one_leased empty

leased_once-IsStored : IsStored leased_once
leased_once-IsStored = (run_ops-Steps one_leased empty empty-IsStored one_leased-AreFresh).1

abbrev first_lease : Item
first_lease = leased_item (take "L-1" 20) (new_item (job "Q-1" 1))

-- The second lease of the first item is its second attempt, one more than its limit.
second_attempt :
    (attempts : ℕ) × (lookup "Q-1" (run_ops script empty).items
      ≡ some (record (leased_item (take "L-2" 2000030) first_lease) {
        next_attempt_at = some 2000020;
        last_error = some "lease_expired";
        attempt_count = attempts;
      }))
unfolding program
second_attempt = (2, refl)

run_ops-Steps_example : Steps false empty (run_ops script empty) × IsStored (run_ops script empty)
run_ops-Steps_example = run_ops-Steps script empty empty-IsStored script-AreFresh

run_ops-AllSound_example : AllSound (run_ops script empty)
run_ops-AllSound_example =
    run_ops-AllSound script empty empty-IsStored script-AreFresh empty-AllSound

first-found : lookup "Q-1" leased_once.items ≡ some first_lease
unfolding program
first-found = refl

run_ops-Traced_example :
    Traced "Q-1" 1 (run_ops (fail_op (holder 1 "L-1" 30) "boom" 5 ∷ []) leased_once)
run_ops-Traced_example =
    run_ops-Traced (fail_op (holder 1 "L-1" 30) "boom" 5 ∷ []) leased_once "Q-1" first_lease
      leased_once-IsStored (tt, tt) first-found

abbrev requeued : Queue
requeued = run_ops (reclaim_op 2000020 ∷ []) leased_once

requeued-IsStored : IsStored requeued
requeued-IsStored =
    (run_ops-Steps (reclaim_op 2000020 ∷ []) leased_once leased_once-IsStored (tt, tt)).1

abbrev second_lease : Item
second_lease = record (leased_item (take "L-2" 2000030) first_lease) {
  next_attempt_at = some 2000020;
  last_error = some "lease_expired";
}

retaken :
    lease_next (take "L-2" 2000030) requeued
    ≡ (some second_lease, (lease_next (take "L-2" 2000030) requeued).1)
unfolding program
retaken = refl

-- The first worker comes back after the second one took over.
old_lease_fenced_example : AreRefused (holder 1 "L-1" 2000040) "done" "boom" 5 (
    run_ops
      (acknowledge_op (holder 2 "L-2" 2000035) ∷ [])
      (lease_next (take "L-2" 2000030) requeued).1)
old_lease_fenced_example =
    old_lease_fenced (take "L-2" 2000030) requeued (acknowledge_op (holder 2 "L-2" 2000035) ∷ [])
      (holder 1 "L-1" 2000040) "done" "boom" 5 second_lease
      (lease_next (take "L-2" 2000030) requeued).1 requeued-IsStored retaken (tt, tt) refl
      (omega arith)

reclaim_ignores_limit_example :
    (after : Item) × (lookup "Q-1" (reclaim_expired_leases 2000020 leased_once).1.items
      ≡ some after)
    × (is_visible 2000020 after ≡ true)
    × (after.max_attempts ≤ after.attempt_count)
    × ((reclaim_expired_leases 2000020 leased_once).1.dead_letters ≡ leased_once.dead_letters)
reclaim_ignores_limit_example =
    reclaim_ignores_limit 2000020 leased_once "Q-1" first_lease leased_once-IsStored first-found
      refl (omega arith)
