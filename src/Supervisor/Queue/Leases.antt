-- ===== src/Supervisor/Queue/Leases.antt =====
-- core/supervisor/queue.py: `lease_next` and `reclaim_expired_leases`.
use governed_ai_dev_team_fra.Common.{
  ℕ, ◌+◌, max, String, Bool, false, not, ◌&&◌, Option, none, some, List, [], ◌∷◌, ◌++◌, elem,
  string_eq, nat_eq, option_eq, ◌==◌, leb, if◌then◌else◌,
}
use governed_ai_dev_team_fra.Common.Dict.{Dict, lookup}
use governed_ai_dev_team_fra.Common.Directory.{write}
use governed_ai_dev_team_fra.Supervisor.Queue.Items.{Item, Queue, seconds}

-- The arguments of `lease_next`, with the lease id and the time that it draws.
pub record LeaseArgs : Type 0 where
  pub worker_id : String
  pub lease_id : String
  pub now : ℕ
  pub visibility : ℕ

abbrev pub visible_at : Option ℕ → ℕ → ℕ
visible_at none observed = observed
visible_at (some t) observed = t

abbrev pub is_visible : ℕ → Item → Bool
is_visible now item = item.state == "queued" && leb (visible_at item.next_attempt_at now) now

abbrev pub leased_item : LeaseArgs → Item → Item
leased_item a current = record current {
  state = "leased";
  worker_attempt_state = "leased";
  lease_id = some a.lease_id;
  lease_epoch = current.lease_epoch + 1;
  leased_by = some a.worker_id;
  attempt_count = current.attempt_count + 1;
  lease_expires_at = some (a.now + max (seconds 1) a.visibility);
  updated_at = a.now;
}

-- The read-back after the write of a lease.
abbrev pub is_verified : LeaseArgs → ℕ → Option Item → Bool
is_verified a epoch none = false
is_verified a epoch (some verify) =
    verify.lease_id == some a.lease_id && verify.lease_epoch == epoch

-- The body of the loop from the second read on; `rest` is the loop over the remaining files.
unfoldable pub try_lease :
    LeaseArgs → String → Option Item → Queue → (Queue → Option Item × Queue) → Option Item × Queue
try_lease a id none q rest = rest q
try_lease a id (some current) q rest =
    let q' = record q { items = write id (leased_item a current) q.items } in
    let verify = lookup id q'.items in
    if not (current.state == "queued")
    then rest q
    else if is_verified a (current.lease_epoch + 1) verify
    then (verify, q')
    else rest q'

unfoldable pub lease_scan : LeaseArgs → Dict Item → Queue → Option Item × Queue
unfolding try_lease
lease_scan a [] q = (none, q)
lease_scan a ((name, item) ∷ d) q =
    let rest = lease_scan a d q in
    if is_visible a.now item
    then try_lease a item.id (lookup item.id q.items) q (lease_scan a d)
    else rest

unfoldable pub lease_next : LeaseArgs → Queue → Option Item × Queue
unfolding lease_scan
lease_next a q = lease_scan a q.items q

abbrev pub is_due : Option ℕ → ℕ → Bool
is_due none observed = false
is_due (some t) observed = leb t observed

abbrev pub is_expired : ℕ → Item → Bool
is_expired now item =
    elem item.state ("leased" ∷ "acknowledged" ∷ []) && is_due item.lease_expires_at now

abbrev pub reclaimed_item : ℕ → Item → Item
reclaimed_item now current = record current {
  state = "queued";
  worker_attempt_state = "orphaned";
  lease_id = none;
  next_attempt_at = some now;
  last_error = some "lease_expired";
  updated_at = now;
}

unfoldable pub reclaim_one : ℕ → String → Option Item → Queue → List Item × Queue
reclaim_one now id none q = ([], q)
reclaim_one now id (some current) q =
    let item = reclaimed_item now current in (item ∷ [], record q { items = write id item q.items })

unfoldable pub reclaim_scan : ℕ → Dict Item → Queue → List Item × Queue
unfolding reclaim_one
reclaim_scan now [] q = ([], q)
reclaim_scan now ((name, item) ∷ d) q =
    let (first, q') =
      if is_expired now item then reclaim_one now item.id (lookup item.id q.items) q else ([], q) in
    let (others, q'') = reclaim_scan now d q' in (first ++ others, q'')

unfoldable pub reclaim_expired_leases : ℕ → Queue → List Item × Queue
unfolding reclaim_scan
reclaim_expired_leases now q = reclaim_scan now q.items q
