-- ===== src/Supervisor/Queue/Fencing.antt =====
-- A lease epoch never comes back, so a worker whose lease was superseded can do no more.
use governed_ai_dev_team_fra.Common.{
  Bool, ℕ, ◌≤◌, ◌<◌, String, false, none, some, List, ◌≡◌, ◌⊎◌, arith, eq_iff, eq_refl, ◌==◌,
  string_eq, nat_eq, option_eq, Bool-cases, inl, inr, subst, sym,
}
use governed_ai_dev_team_fra.Common.Dict.{lookup, lookup-remove}
use governed_ai_dev_team_fra.Common.Directory.{lookup-write}
use governed_ai_dev_team_fra.Supervisor.Queue.Items.{
  Item, Queue, Outcome, raised, key_error, permission_error,
}
use governed_ai_dev_team_fra.Supervisor.Queue.Leases.{LeaseArgs, leased_item, lease_next}
use governed_ai_dev_team_fra.Supervisor.Queue.Holder.{
  HolderArgs, holds_lease, dead_item, acknowledge, complete, fail,
}
use governed_ai_dev_team_fra.Supervisor.Queue.Guards.{is_visible-IsReady}
use governed_ai_dev_team_fra.Supervisor.Queue.Step.{
  Update, lease, requeue, reclaim, Step, create, update, bury, discard, Steps, done, after,
}
use governed_ai_dev_team_fra.Supervisor.Queue.Step
use governed_ai_dev_team_fra.Supervisor.Queue.Refines.{IsStored, Step-IsStored, lease_next-Leased}
use governed_ai_dev_team_fra.Supervisor.Queue.Trace.{Op, run_ops, AreFresh, run_ops-Steps}

Update-epoch : {item item' : Item} → Update item item' → item.lease_epoch ≤ item'.lease_epoch
Update-epoch (lease a v) = omega arith
Update-epoch (Step.acknowledge a h) = omega arith
Update-epoch (Step.complete a r h) = omega arith
Update-epoch (requeue a e d h m) = omega arith
Update-epoch (reclaim now e) = omega arith

module _ (id : String) (epoch : ℕ) where
  -- The item has reached `epoch` and is queued or leased, or it is a dead letter.
  pub data Traced (q : Queue) : Type 0 where
    present : (item : Item) → lookup id q.items ≡ some item → epoch ≤ item.lease_epoch → Traced q
    dead :
        (item : Item) → lookup id q.items ≡ none → lookup id q.dead_letters ≡ some item → Traced q

  Step-Traced : {b : Bool} {q q' : Queue} → Step b q q' → Traced q → Traced q'
  Step-Traced {q} (create a made fresh unburied new) (present item found le) =
      present item (ground (arith, lookup-write a.item_id id made q.items, eq_iff a.item_id id)) le
  Step-Traced {q} (create a made fresh unburied new) (dead item gone buried) =
      dead item (ground (arith, lookup-write a.item_id id made q.items, eq_iff a.item_id id)) buried
  Step-Traced {q} (update k old {item' = i} found u) (present item there le) =
      elim (Bool-cases (k == id)) [
        | inl same ↦
            present i (ground (arith, lookup-write k id i q.items))
              (ground (arith, Update-epoch u, eq_iff k id))
        | inr other ↦ present item (ground (arith, lookup-write k id i q.items)) le
      ]
  Step-Traced {q} (update k old {item' = i} found u) (dead item gone buried) =
      dead item (ground (arith, lookup-write k id i q.items, eq_iff k id)) buried
  Step-Traced {q} (bury a old e found h m) (present item there le) =
      elim (Bool-cases (a.item_id == id)) [
        | inl same ↦
            dead (dead_item e a.now old) (ground (arith, lookup-remove a.item_id id q.items))
              (ground (arith, lookup-write a.item_id id (dead_item e a.now old) q.dead_letters))
        | inr other ↦ present item (ground (arith, lookup-remove a.item_id id q.items)) le
      ]
  Step-Traced {q} (bury a old e found h m) (dead item gone buried) =
      dead item (ground (arith, lookup-remove a.item_id id q.items, eq_iff a.item_id id)) (
        ground (
          arith,
          lookup-write a.item_id id (dead_item e a.now old) q.dead_letters,
          eq_iff a.item_id id,
        ))
  Step-Traced {q} (discard k document e now may) (present item there le) =
      elim (Bool-cases (k == id)) [
        | inl same ↦
            dead (dead_item e now document) (ground (arith, lookup-remove k id q.items))
              (ground (arith, lookup-write k id (dead_item e now document) q.dead_letters))
        | inr other ↦ present item (ground (arith, lookup-remove k id q.items)) le
      ]
  Step-Traced {q} (discard k document e now may) (dead item gone buried) =
      elim (Bool-cases (k == id)) [
        | inl same ↦
            dead (dead_item e now document) (ground (arith, lookup-remove k id q.items))
              (ground (arith, lookup-write k id (dead_item e now document) q.dead_letters))
        | inr other ↦
            dead item (ground (arith, lookup-remove k id q.items))
              (ground (arith, lookup-write k id (dead_item e now document) q.dead_letters))
      ]

  Steps-Traced : {b : Bool} {q q' : Queue} → Steps b q q' → Traced q → Traced q'
  Steps-Traced done t = t
  Steps-Traced (after ss st) t = Step-Traced st (Steps-Traced ss t)

-- No item is lost and no lease epoch comes back: after any operations an item of the queue is still
-- in the queue, with an epoch at least as high, or it is among the dead letters.
pub run_ops-Traced :
    (ops : List Op) (q : Queue) (id : String) (item : Item)
    → IsStored q
    → AreFresh ops q
    → lookup id q.items ≡ some item
    → Traced id item.lease_epoch (run_ops ops q)
run_ops-Traced ops q id item stored fresh found =
    Steps-Traced id item.lease_epoch (run_ops-Steps ops q stored fresh).0
      (present item found (omega arith))

abbrev pub IsRefused : Outcome → Type 0
IsRefused o = (o ≡ raised key_error) ⊎ (o ≡ raised permission_error)

module _ (h : HolderArgs) (result error : String) (delay : ℕ) (q : Queue) where
  -- None of the three operations of a holder goes through.
  pub record AreRefused : Type 0 where
    pub acknowledge_refused : IsRefused (acknowledge h q)
    pub complete_refused : IsRefused (complete h result q)
    pub fail_refused : IsRefused (fail h error delay q)

  absent-AreRefused : lookup h.item_id q.items ≡ none → AreRefused
  unfolding acknowledge complete fail
  absent-AreRefused gone = record {
    acknowledge_refused = inl (rw gone);
    complete_refused = inl (rw gone);
    fail_refused = inl (rw gone);
  }

  stale-AreRefused :
      (item : Item) → lookup h.item_id q.items ≡ some item → holds_lease h item ≡ false → AreRefused
  unfolding acknowledge complete fail
  stale-AreRefused item found stale = record {
    acknowledge_refused = inr (rw (found, stale));
    complete_refused = inr (rw (found, stale));
    fail_refused = inr (rw (found, stale));
  }

  Traced-AreRefused : (epoch : ℕ) → h.lease_epoch < epoch → Traced h.item_id epoch q → AreRefused
  Traced-AreRefused epoch lt (present item found le) = stale-AreRefused item found (ground arith)
  Traced-AreRefused epoch lt (dead item gone buried) = absent-AreRefused gone

-- Once an item is leased, every holder of an earlier epoch is refused for good: whatever operations
-- run after the lease, its acknowledge, complete and fail raise `KeyError` or `PermissionError`.
pub old_lease_fenced :
    (a : LeaseArgs) (q : Queue) (ops : List Op) (h : HolderArgs) (result error : String) (delay : ℕ)
    (leased : Item) (q' : Queue)
    → IsStored q
    → lease_next a q ≡ (some leased, q')
    → AreFresh ops q'
    → h.item_id ≡ leased.id
    → h.lease_epoch < leased.lease_epoch
    → AreRefused h result error delay (run_ops ops q')
old_lease_fenced a q ops h result error delay leased q' stored taken fresh same older =
    let l = lease_next-Leased a q leased q' stored taken in
    let stored' : IsStored q' = subst IsStored (sym l.queue) (
      Step-IsStored {b = false}
        (update l.item.id l.item l.found (lease a (is_visible-IsReady a.now l.item l.visible)))
        stored) in
    let found : lookup leased.id q'.items ≡ some leased =
      rw (l.queue, l.result)
        (ground (
          arith,
          lookup-write l.item.id l.item.id (leased_item a l.item) q.items,
          eq_refl l.item.id,
        )) in
    Traced-AreRefused h result error delay (run_ops ops q') leased.lease_epoch older
      (rw same (run_ops-Traced ops q' leased.id leased stored' fresh found))
