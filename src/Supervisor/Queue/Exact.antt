-- ===== src/Supervisor/Queue/Exact.antt =====
-- What `lease_next` finds, and what `reclaim_expired_leases` does to every item.
use governed_ai_dev_team_fra.Common.{
  Option-cases, ℕ, ◌≤◌, String, Bool, true, false, Option, none, some, [], ◌∷◌, ◌≡◌, refl, ◌⊎◌,
  arith, eq_iff, ◌==◌, string_eq, if◌then◌else◌, Bool-cases, inl, inr, All, ◌∙◌,
}
use governed_ai_dev_team_fra.Common.Dict.{Dict, lookup}
use governed_ai_dev_team_fra.Common.Directory.{
  write, lookup-write, IsUnique, IsListed, IsUnique-IsListed, IsListed-write,
}
use governed_ai_dev_team_fra.Supervisor.Queue.Items.{Item, Queue}
use governed_ai_dev_team_fra.Supervisor.Queue.Leases.{
  LeaseArgs, leased_item, is_visible, is_expired, reclaimed_item, lease_next, reclaim_one,
  reclaim_scan, reclaim_expired_leases,
}
use governed_ai_dev_team_fra.Supervisor.Queue.Guards.{is_expired-IsOverdue}
use governed_ai_dev_team_fra.Supervisor.Queue.Step.{update, reclaim}
use governed_ai_dev_team_fra.Supervisor.Queue.Refines.{
  IsStored, Step-IsStored, Leased, lease_scan_cases,
}

All-lookup :
    (p : Item → Bool) (id : String) (item : Item) (d : Dict Item)
    → All (λ e. p e.1 ≡ false) d
    → lookup id d ≡ some item
    → p item ≡ false
unfolding lookup
All-lookup p id item [] h f = cc
All-lookup p id item ((j, i) ∷ d) h f = elim (Bool-cases (j == id)) [
  | inl here ↦ let same : i ≡ item = ground arith in rw (← same) h.0
  | inr there ↦ All-lookup p id item d h.1 (ground arith)
]

-- `lease_next` leases an item that was queued and visible, or it changes nothing, and then no
-- stored item is queued and visible.
lease_next_exact :
    (a : LeaseArgs) (q : Queue)
    → IsStored q
    → ((leased : Item) × (q' : Queue) × (lease_next a q ≡ (some leased, q')) × Leased a q leased q')
      ⊎ ((lease_next a q ≡ (none, q))
          × ((id : String) (item : Item)
              → lookup id q.items ≡ some item
              → is_visible a.now item ≡ false))
unfolding lease_next
lease_next_exact a q stored =
    elim (lease_scan_cases a q q.items stored.named (IsUnique-IsListed q.items stored.unique)) [
      | inl r ↦ inl (
        leased_item a r.item,
        record q { items = write r.item.id (leased_item a r.item) q.items },
        r.leased,
        record { item = r.item; found = r.found; visible = r.visible; result = refl; queue = refl },
      )
      | inr (e, hidden) ↦
          inr (e, λ id item found. All-lookup (is_visible a.now) id item q.items hidden found)
    ]

-- The item after a reclaim.
abbrev pub reclaimed_at : ℕ → Item → Item
reclaimed_at now item = if is_expired now item then reclaimed_item now item else item

abbrev merge : ℕ → Option Item → Option Item → Option Item
merge now none stored = stored
merge now (some item) stored = some (reclaimed_at now item)

reclaim_scan-lookup :
    (now : ℕ) (id : String) (d : Dict Item) (q : Queue)
    → IsStored q
    → IsUnique d
    → IsListed q.items d
    → lookup id (reclaim_scan now d q).1.items ≡ merge now (lookup id d) (lookup id q.items)
unfolding reclaim_scan lookup
reclaim_scan-lookup now id [] q s u l = refl
reclaim_scan-lookup now id ((name, item) ∷ d) q s u l = elim (Bool-cases (is_expired now item)) [
  | inr fresh ↦
      ground (arith, fresh, reclaim_scan-lookup now id d q s u.1 l.1, eq_iff name id, u.0, l.0)
  | inl expired ↦
      let same : item.id ≡ name = s.named name item l.0 in
      let found : lookup item.id q.items ≡ some item = cc (l.0, same) in
      let absent : lookup item.id d ≡ none = cc (u.0, same) in
      let q' = record q { items = write item.id (reclaimed_item now item) q.items } in
      let others =
        reclaim_scan-lookup now id d q'
          (Step-IsStored {b = false}
            (update item.id item found (reclaim now (is_expired-IsOverdue now item expired))) s)
          u.1 (IsListed-write item.id (reclaimed_item now item) q.items d absent l.1) in
      rw (expired, found)
        (ground (
          arith,
          expired,
          others,
          lookup-write item.id id (reclaimed_item now item) q.items,
          eq_iff name id,
          eq_iff item.id id,
          u.0,
          same,
        ))
]

-- `reclaim_expired_leases` puts every leased or acknowledged item whose lease has expired back in
-- the queue, without its lease and visible from now on, and leaves every other item as it is.
reclaim_exact :
    (now : ℕ) (q : Queue) (id : String) (item : Item)
    → IsStored q
    → lookup id q.items ≡ some item
    → lookup id (reclaim_expired_leases now q).1.items ≡ some (reclaimed_at now item)
unfolding reclaim_expired_leases
reclaim_exact now q id item stored found =
    reclaim_scan-lookup now id q.items q stored stored.unique
      (IsUnique-IsListed q.items stored.unique)
    ∙ rw found

reclaim_scan-dead_letters :
    (now : ℕ) (d : Dict Item) (q : Queue) → (reclaim_scan now d q).1.dead_letters ≡ q.dead_letters
unfolding reclaim_scan reclaim_one
reclaim_scan-dead_letters now [] q = refl
reclaim_scan-dead_letters now ((name, item) ∷ d) q = elim (Bool-cases (is_expired now item)) [
  | inr fresh ↦ rw fresh (reclaim_scan-dead_letters now d q)
  | inl expired ↦ elim (Option-cases (lookup item.id q.items)) [
    | inl gone ↦ rw (expired, gone) (reclaim_scan-dead_letters now d q)
    | inr (current, found) ↦
        rw (expired, found)
          (reclaim_scan-dead_letters now d
            (record q { items = write item.id (reclaimed_item now current) q.items }))
  ]
]

-- The reclaim of an expired lease does not look at the limit: an item with no attempt left is
-- queued and visible again, and the dead letters are as before.
pub reclaim_ignores_limit :
    (now : ℕ) (q : Queue) (id : String) (item : Item)
    → IsStored q
    → lookup id q.items ≡ some item
    → is_expired now item ≡ true
    → item.max_attempts ≤ item.attempt_count
    → (after : Item) × (lookup id (reclaim_expired_leases now q).1.items ≡ some after)
      × (is_visible now after ≡ true)
      × (after.max_attempts ≤ after.attempt_count)
      × ((reclaim_expired_leases now q).1.dead_letters ≡ q.dead_letters)
unfolding reclaim_expired_leases
reclaim_ignores_limit now q id item stored found expired used = (
  reclaimed_item now item,
  reclaim_exact now q id item stored found ∙ rw expired,
  ground arith,
  used,
  reclaim_scan-dead_letters now q.items q,
)
