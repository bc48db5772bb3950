-- ===== src/Supervisor/Queue/Trace.antt =====
-- Any sequence of queue operations is a sequence of steps of the queue's contract.
use governed_ai_dev_team_fra.Common.{
  refl, Bool, true, false, Option, any, subst, sym, arith, ℕ, String, none, some, List, [], ◌∷◌,
  ◌≡◌, inl, inr, string_eq, Bool-cases,
}
use governed_ai_dev_team_fra.Common.Dict.{Dict, lookup}
use governed_ai_dev_team_fra.Common.Directory.{
  write, IsUnique, IsListed, IsUnique-IsListed, IsListed-write,
}
use governed_ai_dev_team_fra.Supervisor.Queue.Items.{Item, Queue, EnqueueArgs, enqueue}
use governed_ai_dev_team_fra.Supervisor.Queue.Leases.{
  LeaseArgs, reclaimed_item, is_expired, lease_next, reclaim_scan, reclaim_expired_leases,
}
use governed_ai_dev_team_fra.Supervisor.Queue.Holder.{
  HolderArgs, acknowledge, complete, fail, dead_letter,
}
use governed_ai_dev_team_fra.Supervisor.Queue.Guards.{is_expired-IsOverdue}
use governed_ai_dev_team_fra.Supervisor.Queue.Step.{reclaim, update, Steps, done, after}
use governed_ai_dev_team_fra.Supervisor.Queue.Refines.{
  IsStored, Step-IsStored, Steps-IsStored, queue_of, lease_next-Steps, enqueue-Steps,
  acknowledge-Steps, complete-Steps, fail-Steps, dead_letter-Steps,
}

pub Steps-trans : {b : Bool} {p q r : Queue} → Steps b p q → Steps b q r → Steps b p r
Steps-trans s done = s
Steps-trans s (after t st) = after (Steps-trans s t) st

reclaim_scan-Steps :
    {b : Bool} (now : ℕ) (d : Dict Item) (q : Queue)
    → IsStored q
    → IsUnique d
    → IsListed q.items d
    → Steps b q (reclaim_scan now d q).1
unfolding reclaim_scan
reclaim_scan-Steps now [] q s u l = done
reclaim_scan-Steps now ((name, item) ∷ d) q s u l = elim (Bool-cases (is_expired now item)) [
  | inr fresh ↦ rw fresh (reclaim_scan-Steps now d q s u.1 l.1)
  | inl expired ↦
      let same : item.id ≡ name = s.named name item l.0 in
      let found : lookup item.id q.items ≡ some item = cc (l.0, same) in
      let absent : lookup item.id d ≡ none = cc (u.0, same) in
      let step = update item.id item found (reclaim now (is_expired-IsOverdue now item expired)) in
      rw (expired, found)
        (Steps-trans (after done step) (
          reclaim_scan-Steps now d
            (record q { items = write item.id (reclaimed_item now item) q.items })
            (Step-IsStored step s) u.1
            (IsListed-write item.id (reclaimed_item now item) q.items d absent l.1)))
]

-- The operations with their arguments.
pub data Op : Type 0 where
  enqueue_op : EnqueueArgs → Op
  lease_op : LeaseArgs → Op
  acknowledge_op : HolderArgs → Op
  complete_op : HolderArgs → String → Op
  fail_op : HolderArgs → String → ℕ → Op
  reclaim_op : ℕ → Op
  dead_letter_op : String → String → Option Item → ℕ → Op

unfoldable pub run_op : Op → Queue → Queue
run_op (enqueue_op a) q = queue_of q (enqueue a q)
run_op (lease_op a) q = (lease_next a q).1
run_op (acknowledge_op a) q = queue_of q (acknowledge a q)
run_op (complete_op a result) q = queue_of q (complete a result q)
run_op (fail_op a error delay) q = queue_of q (fail a error delay q)
run_op (reclaim_op now) q = (reclaim_expired_leases now q).1
run_op (dead_letter_op id error source now) q = queue_of q (dead_letter id error source now q)

unfoldable pub run_ops : List Op → Queue → Queue
unfolding run_op
run_ops [] q = q
run_ops (op ∷ ops) q = run_ops ops (run_op op q)

-- A drawn item id is new.
abbrev pub IsFresh : Op → Queue → Type 0
IsFresh (enqueue_op a) q =
    (lookup a.item_id q.items ≡ none) × (lookup a.item_id q.dead_letters ≡ none)
IsFresh _ q = Unit

abbrev pub AreFresh : List Op → Queue → Type 0
AreFresh [] q = Unit
AreFresh (op ∷ ops) q = IsFresh op q × AreFresh ops (run_op op q)

-- Whether `dead_letter` is called directly
abbrev pub is_direct : Op → Bool
is_direct (dead_letter_op id error source now) = true
is_direct _ = false

run_op-Steps :
    (op : Op) (b : Bool) (q : Queue)
    → IsStored q
    → IsFresh op q
    → (is_direct op ≡ true → b ≡ true)
    → Steps b q (run_op op q)
unfolding run_op reclaim_expired_leases
run_op-Steps (enqueue_op a) b q s f direct = enqueue-Steps q s a f.0 f.1
run_op-Steps (lease_op a) b q s f direct = lease_next-Steps q s a
run_op-Steps (acknowledge_op a) b q s f direct = acknowledge-Steps q s a
run_op-Steps (complete_op a result) b q s f direct = complete-Steps q s a result
run_op-Steps (fail_op a error delay) b q s f direct = fail-Steps q s a error delay
run_op-Steps (reclaim_op now) b q s f direct =
    reclaim_scan-Steps now q.items q s s.unique (IsUnique-IsListed q.items s.unique)
run_op-Steps (dead_letter_op id error source now) b q s f direct =
    subst (λ x. Steps x q (queue_of q (dead_letter id error source now q))) (sym (direct refl))
      (dead_letter-Steps q id error source now)

run_all_lem :
    (ops : List Op) (b : Bool) (q : Queue)
    → IsStored q
    → AreFresh ops q
    → (any is_direct ops ≡ true → b ≡ true)
    → Steps b q (run_ops ops q) × IsStored (run_ops ops q)
unfolding run_ops
run_all_lem [] b q s f direct = (done, s)
run_all_lem (op ∷ ops) b q s f direct =
    let first = run_op-Steps op b q s f.0 (λ h. direct (ground (arith, h))) in
    let (others, stored) =
      run_all_lem ops b (run_op op q) (Steps-IsStored first s) f.1
        (λ h. direct (ground (arith, h))) in
    (Steps-trans first others, stored)

-- The operations of the queue refine its contract: whatever operations run, in whatever order, each
-- raising or not, the queue changes only by steps of the contract, and stays well stored. The steps
-- that discard an item without lease or limit are among them only if `dead_letter` is called
-- directly. New items have ids that are not in use.
pub run_ops-Steps :
    (ops : List Op) (q : Queue)
    → IsStored q
    → AreFresh ops q
    → Steps (any is_direct ops) q (run_ops ops q) × IsStored (run_ops ops q)
run_ops-Steps ops q s f = run_all_lem ops (any is_direct ops) q s f (λ h. h)
