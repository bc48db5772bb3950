-- ===== src/Supervisor/Queue/Refines.antt =====
-- The operations of queue.py implement the queue's contract.
use governed_ai_dev_team_fra.Common.{
  Bool, ◌∙◌, ℕ, String, true, false, Option, none, some, [], ◌∷◌, ◌≡◌, refl, sym, ap, leb, ◌⊎◌, inl,
  inr, arith, eq_iff, eq_refl, ◌==◌, string_eq, nat_eq, option_eq, Bool-cases, Option-cases, All,
}
use governed_ai_dev_team_fra.Common.Dict.{Dict, lookup, lookup-remove}
use governed_ai_dev_team_fra.Common.Directory.{
  write, lookup-write, IsUnique, IsUnique-write, IsUnique-remove, IsListed, IsUnique-IsListed,
}
use governed_ai_dev_team_fra.Supervisor.Queue.Items.{
  Item, Queue, Outcome, returned, raised, EnqueueArgs, new_item, enqueue, find_duplicate,
}
use governed_ai_dev_team_fra.Supervisor.Queue.Leases.{
  LeaseArgs, leased_item, is_visible, try_lease, lease_scan, lease_next,
}
use governed_ai_dev_team_fra.Supervisor.Queue.Holder.{
  HolderArgs, holds_lease, or_one, acknowledge, complete, fail, dead_letter, source_or,
}
use governed_ai_dev_team_fra.Supervisor.Queue.Guards.{
  is_visible-IsReady, holds_lease-Holds, or_one-max,
}
use governed_ai_dev_team_fra.Supervisor.Queue.Step.{
  IsNew, Update, lease, requeue, reclaim, Step, create, update, bury, discard, Steps, done, after,
}
use governed_ai_dev_team_fra.Supervisor.Queue.Step

-- A directory in which each file is named after its item.
pub record IsStored (q : Queue) : Type 0 where
  pub unique : IsUnique q.items
  pub named : (id : String) (item : Item) → lookup id q.items ≡ some item → item.id ≡ id

Update-id : {item item' : Item} → Update item item' → item'.id ≡ item.id
Update-id (lease a v) = refl
Update-id (Step.acknowledge a h) = refl
Update-id (Step.complete a r h) = refl
Update-id (requeue a e d h m) = refl
Update-id (reclaim now e) = refl

write-named :
    (k : String) (v : Item) (d : Dict Item)
    → v.id ≡ k
    → ((id : String) (item : Item) → lookup id d ≡ some item → item.id ≡ id)
    → (id : String) (item : Item) → lookup id (write k v d) ≡ some item
    → item.id ≡ id
write-named k v d same named id item h = elim (Bool-cases (k == id)) [
  | inl here ↦ ground (arith, lookup-write k id v d, eq_iff k id)
  | inr there ↦ named id item (ground (arith, lookup-write k id v d))
]

pub Step-IsStored : {b : Bool} {q q' : Queue} → Step b q q' → IsStored q → IsStored q'
Step-IsStored {q} (create a item fresh unburied new) s = record {
  unique = IsUnique-write a.item_id item q.items s.unique;
  named = write-named a.item_id item q.items new.named s.named;
}
Step-IsStored {q} (update id item {item' = i} found u) s = record {
  unique = IsUnique-write id i q.items s.unique;
  named = write-named id i q.items (cc (Update-id u, s.named id item found)) s.named;
}
Step-IsStored {q} (bury a item e found h m) s = record {
  unique = IsUnique-remove a.item_id q.items s.unique;
  named = λ id i f. s.named id i (ground (arith, lookup-remove a.item_id id q.items));
}
Step-IsStored {q} (discard k document e now may) s = record {
  unique = IsUnique-remove k q.items s.unique;
  named = λ id i f. s.named id i (ground (arith, lookup-remove k id q.items));
}

pub Steps-IsStored : {b : Bool} {q q' : Queue} → Steps b q q' → IsStored q → IsStored q'
Steps-IsStored done s = s
Steps-IsStored (after ss st) s = Step-IsStored st (Steps-IsStored ss s)

module _ (a : LeaseArgs) (q : Queue) where
  -- What `lease_next` gives when it finds an item.
  pub record Leases (r : Option Item × Queue) : Type 0 where
    pub item : Item
    pub found : lookup item.id q.items ≡ some item
    pub visible : is_visible a.now item ≡ true
    pub leased : r ≡ (
      some (leased_item a item),
      record q { items = write item.id (leased_item a item) q.items },
    )

  try_lease_lem :
      (item : Item) (rest : Queue → Option Item × Queue)
      → is_visible a.now item ≡ true
      → try_lease a item.id (some item) q rest ≡ (
        some (leased_item a item),
        record q { items = write item.id (leased_item a item) q.items },
      )
  unfolding try_lease
  try_lease_lem item rest v = ground (
    arith,
    lookup-write item.id item.id (leased_item a item) q.items,
    eq_refl item.id,
    eq_refl a.lease_id,
  )

  pub lease_scan_cases :
      (d : Dict Item)
      → ((id : String) (item : Item) → lookup id q.items ≡ some item → item.id ≡ id)
      → IsListed q.items d
      → Leases (lease_scan a d q)
        ⊎ ((lease_scan a d q ≡ (none, q)) × All (λ e. is_visible a.now e.1 ≡ false) d)
  unfolding lease_scan
  lease_scan_cases [] named l = inr (refl, tt)
  lease_scan_cases ((name, item) ∷ d) named l = elim (Bool-cases (is_visible a.now item)) [
    | inl v ↦
        let found : lookup item.id q.items ≡ some item = cc (l.0, named name item l.0) in
        inl (record {
          item = item;
          found = found;
          visible = v;
          leased = rw (v, found) (try_lease_lem item (lease_scan a d) v);
        })
    | inr hidden ↦ elim (lease_scan_cases d named l.1) [
      | inl r ↦ inl (rw hidden r)
      | inr (e, others) ↦ inr (rw hidden e, (hidden, others))
    ]
  ]

new_item-IsNew : (a : EnqueueArgs) → IsNew a (new_item a)
new_item-IsNew a = record {
  named = refl;
  queued = refl;
  unleased = refl;
  first_epoch = refl;
  unattempted = refl;
  limit = refl;
  due = refl;
  requested_as = (refl, refl, refl);
}

-- The queue after an outcome: an operation that raises has written nothing.
abbrev pub queue_of : Queue → Outcome → Queue
queue_of q (returned item q') = q'
queue_of q (raised e) = q

module _ {b : Bool} (q : Queue) (stored : IsStored q) where
  pub lease_next-Steps : (a : LeaseArgs) → Steps b q (lease_next a q).1
  unfolding lease_next
  lease_next-Steps a =
      elim (lease_scan_cases a q q.items stored.named (IsUnique-IsListed q.items stored.unique)) [
        | inl r ↦ rw r.leased (
            after done (
              update r.item.id r.item r.found
                (lease a (is_visible-IsReady a.now r.item r.visible))))
        | inr (e, _) ↦ rw e done
      ]

  pub enqueue-Steps :
      (a : EnqueueArgs)
      → lookup a.item_id q.items ≡ none
      → lookup a.item_id q.dead_letters ≡ none
      → Steps b q (queue_of q (enqueue a q))
  unfolding enqueue
  enqueue-Steps a fresh unburied = elim (Option-cases (find_duplicate a.dedupe_key q.items)) [
    | inl new ↦ rw new (after done (create a (new_item a) fresh unburied (new_item-IsNew a)))
    | inr (existing, old) ↦ rw old done
  ]

  pub acknowledge-Steps : (a : HolderArgs) → Steps b q (queue_of q (acknowledge a q))
  unfolding acknowledge
  acknowledge-Steps a = elim (Option-cases (lookup a.item_id q.items)) [
    | inl gone ↦ rw gone done
    | inr (item, found) ↦ elim (Bool-cases (holds_lease a item)) [
      | inl held ↦
          rw (found, held)
            (after done
              (update a.item_id item found (Step.acknowledge a (holds_lease-Holds a item held))))
      | inr stale ↦ rw (found, stale) done
    ]
  ]

  pub complete-Steps :
      (a : HolderArgs) (result : String) → Steps b q (queue_of q (complete a result q))
  unfolding complete
  complete-Steps a result = elim (Option-cases (lookup a.item_id q.items)) [
    | inl gone ↦ rw gone done
    | inr (item, found) ↦ elim (Bool-cases (holds_lease a item)) [
      | inl held ↦
          rw (found, held)
            (after done (
              update a.item_id item found (Step.complete a result (holds_lease-Holds a item held))))
      | inr stale ↦ rw (found, stale) done
    ]
  ]

  pub fail-Steps :
      (a : HolderArgs) (error : String) (delay : ℕ) → Steps b q (queue_of q (fail a error delay q))
  unfolding fail
  fail-Steps a error delay = elim (Option-cases (lookup a.item_id q.items)) [
    | inl gone ↦ rw gone done
    | inr (item, found) ↦ elim (Bool-cases (holds_lease a item)) [
      | inr stale ↦ rw (found, stale) done
      | inl held ↦ elim (Bool-cases (leb (or_one item.max_attempts) item.attempt_count)) [
        | inl used ↦
            rw (found, held, used)
              (after done (
                bury a item error found (holds_lease-Holds a item held)
                  (ground (arith, used, or_one-max item.max_attempts))))
        | inr left ↦
            rw (found, held, left)
              (after done (
                update a.item_id item found (
                  requeue a error delay (holds_lease-Holds a item held)
                    (ground (arith, left, or_one-max item.max_attempts)))))
      ]
    ]
  ]

-- A direct call of `dead_letter`
pub dead_letter-Steps :
    (q : Queue) (id error : String) (source : Option Item) (now : ℕ)
    → Steps true q (queue_of q (dead_letter id error source now q))
unfolding dead_letter
dead_letter-Steps q id error source now =
    elim (Option-cases (source_or source (lookup id q.items))) [
      | inl gone ↦ rw gone done
      | inr (document, found) ↦ rw found (after done (discard id document error now refl))
    ]

-- What a successful `lease_next` did.
pub record Leased (a : LeaseArgs) (q : Queue) (leased : Item) (q' : Queue) : Type 0 where
  pub item : Item
  pub found : lookup item.id q.items ≡ some item
  pub visible : is_visible a.now item ≡ true
  pub result : leased ≡ leased_item a item
  pub queue : q' ≡ record q { items = write item.id (leased_item a item) q.items }

pub lease_next-Leased :
    (a : LeaseArgs) (q : Queue) (leased : Item) (q' : Queue)
    → IsStored q
    → lease_next a q ≡ (some leased, q')
    → Leased a q leased q'
unfolding lease_next
lease_next-Leased a q leased q' stored taken =
    elim (lease_scan_cases a q q.items stored.named (IsUnique-IsListed q.items stored.unique)) [
      | inl r ↦
          let e = sym taken ∙ r.leased in
          record {
            item = r.item;
            found = r.found;
            visible = r.visible;
            result = some_eq (ap (λ (p : Option Item × Queue). p.0) e);
            queue = ap (λ (p : Option Item × Queue). p.1) e;
          }
      | inr (e, _) ↦ absurd (none_ne_some (ap (λ (p : Option Item × Queue). p.0) (sym e ∙ taken)))
    ]
  where
    none_ne_some : none ≡ some leased → ⊥
    none_ne_some h = cc

    some_eq : {x y : Item} → some x ≡ some y → x ≡ y
    some_eq h = cc
