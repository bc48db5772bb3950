-- ===== src/Supervisor/Queue/Guards.antt =====
-- The tests of core/supervisor/queue.py decide what the queue's contract asks.
use governed_ai_dev_team_fra.Common.{
  ℕ, ◌≤◌, max, String, true, Option, none, some, ◌≡◌, refl, ◌⊎◌, elem, arith, eq_iff, ◌==◌,
  string_eq, nat_eq, option_eq, option_beq_iff, nat_beq_iff, &&-both, [], ◌∷◌,
}
use governed_ai_dev_team_fra.Supervisor.Queue.Items.{Item}
use governed_ai_dev_team_fra.Supervisor.Queue.Leases.{is_visible, is_expired, is_due}
use governed_ai_dev_team_fra.Supervisor.Queue.Holder.{HolderArgs, holds_lease, or_one}
use governed_ai_dev_team_fra.Supervisor.Queue.Step.{IsReady, Holds, IsOverdue}

pub is_visible-IsReady : (now : ℕ) (item : Item) → is_visible now item ≡ true → IsReady now item
is_visible-IsReady now item h = record {
  queued = (eq_iff item.state "queued").0 (&&-both _ _ h).0;
  due = λ t e. ground (arith, h, e);
}

pub holds_lease-Holds : (a : HolderArgs) (item : Item) → holds_lease a item ≡ true → Holds a item
holds_lease-Holds a item h =
    let (lease, epoch) =
      &&-both (item.lease_id == some a.lease_id) (item.lease_epoch == a.lease_epoch) h in
    record {
      same_lease = (option_beq_iff item.lease_id (some a.lease_id)).0 lease;
      same_epoch = (nat_beq_iff item.lease_epoch a.lease_epoch).0 epoch;
    }

held_lem :
    (state : String)
    → elem state ("leased" ∷ "acknowledged" ∷ []) ≡ true
    → (state ≡ "leased") ⊎ (state ≡ "acknowledged")
held_lem state h = ground (arith, eq_iff state "leased", eq_iff state "acknowledged")

due_lem : (o : Option ℕ) (now : ℕ) → is_due o now ≡ true → (t : ℕ) × (o ≡ some t) × (t ≤ now)
due_lem none now h = cc
due_lem (some t) now h = (t, refl, ground (arith, h))

pub is_expired-IsOverdue : (now : ℕ) (item : Item) → is_expired now item ≡ true → IsOverdue now item
is_expired-IsOverdue now item h =
    let (held, due) =
      &&-both (elem item.state ("leased" ∷ "acknowledged" ∷ [])) (is_due item.lease_expires_at now)
        h in
    let (t, expires, over) = due_lem item.lease_expires_at now due in
    record { held = held_lem item.state held; expires_at = t; expires = expires; over = over }

pub or_one-max : (n : ℕ) → or_one n ≡ max 1 n
or_one-max n = ground arith
