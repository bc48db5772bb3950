-- ===== src/Run/Leases/Held.antt =====
-- The leases that the runs name are active ones of that run and Work Unit, at that epoch; and a
-- lease that has ended is fenced off for good.
use governed_ai_dev_team_fra.Common.{
  ℕ, ◌+◌, String, Bool, true, false, not, ◌&&◌, Option, none, some, ◌≡◌, subst, Bool-cases, inl,
  inr, string_eq, nat_eq, ◌==◌, arith, eq_iff, eq_refl,
}
use governed_ai_dev_team_fra.Common.Dict.{lookup, put, remove, lookup-put, lookup-remove}
use governed_ai_dev_team_fra.Documents.{Run, Lease, LeaseRef}
use governed_ai_dev_team_fra.Documents.Store.{Store}
use governed_ai_dev_team_fra.Run.Leases.{
  AcquireWorkerLease, ReleaseWorkerLease, superseded, released, new_lease, leased_run, freed_run,
}
use governed_ai_dev_team_fra.Run.Leases.Step.{
  LeaseStep, staffed, reassigned, beaten, freed, install, set_lease,
}

unfoldable pub is_holder : Option Lease → String → String → ℕ → Bool
is_holder none run_id work_unit_id epoch = false
is_holder (some l) run_id work_unit_id epoch =
    l.status == "active"
    && (l.run_id == run_id && (l.work_unit_id == work_unit_id && l.epoch == epoch))

-- Every entry of `leases_by_work_unit` names an active lease document of that run and Work Unit,
-- with the entry's epoch.
abbrev pub IsLeased : Store → Type 0
IsLeased s =
    (run_id : String) (d : Run) (work_unit_id : String) (ref : LeaseRef)
    → lookup run_id s.runs ≡ some d
    → lookup work_unit_id d.leases_by_work_unit ≡ some ref
    → is_holder (lookup ref.lease_id s.leases) run_id work_unit_id ref.epoch ≡ true

-- The same, but for the entry of one Work Unit in one run.
abbrev IsLeasedBut : String → String → Store → Type 0
IsLeasedBut r w s =
    (run_id : String) (d : Run) (work_unit_id : String) (ref : LeaseRef)
    → lookup run_id s.runs ≡ some d
    → lookup work_unit_id d.leases_by_work_unit ≡ some ref
    → (run_id == r && work_unit_id == w) ≡ false
    → is_holder (lookup ref.lease_id s.leases) run_id work_unit_id ref.epoch ≡ true

holder_unique :
    (o : Option Lease) (r w r' w' : String) (e e' : ℕ)
    → is_holder o r w e ≡ true
    → is_holder o r' w' e' ≡ true
    → (r' == r && w' == w) ≡ true
unfolding is_holder
holder_unique none r w r' w' e e' h h' = cc
holder_unique (some l) r w r' w' e e' h h' = ground (
  arith,
  eq_iff l.run_id r,
  eq_iff l.run_id r',
  eq_iff l.work_unit_id w,
  eq_iff l.work_unit_id w',
  eq_iff r' r,
  eq_iff w' w,
)

-- The current lease of a Work Unit may be replaced by anything, as far as the others go.
set_lease-IsLeasedBut :
    (s : Store) (r w : String) (d : Run) (ref : LeaseRef) (l : Lease)
    → IsLeased s
    → lookup r s.runs ≡ some d
    → lookup w d.leases_by_work_unit ≡ some ref
    → IsLeasedBut r w (set_lease ref.lease_id l s)
set_lease-IsLeasedBut s r w d ref l k stored held r' d' w' ref' stored' held' other = ground (
  arith,
  lookup-put ref.lease_id ref'.lease_id l s.leases,
  eq_iff ref.lease_id ref'.lease_id,
  k r' d' w' ref' stored' held',
  k r d w ref stored held,
  holder_unique (lookup ref.lease_id s.leases) r w r' w' ref.epoch ref'.epoch,
)

-- A document under a new id leaves every holder where it is.
new-is_holder :
    (s : Store) (id x r w : String) (l : Lease) (e : ℕ)
    → lookup id s.leases ≡ none
    → is_holder (lookup x s.leases) r w e ≡ true
    → is_holder (lookup x (put id l s.leases)) r w e ≡ true
unfolding is_holder
new-is_holder s id x r w l e fresh holds = elim (Bool-cases (id == x)) [
  | inl same ↦ ground (arith, eq_iff id x)
  | inr other ↦ rw (lookup-put id x l s.leases, other) holds
]

module _ (c : AcquireWorkerLease) (epoch : ℕ) (d : Run) (s : Store)
    (k : IsLeasedBut c.run_id c.work_unit_id s) (stored : lookup c.run_id s.runs ≡ some d)
    (fresh : lookup c.id s.leases ≡ none) where
  new_holder :
      is_holder (lookup c.id (put c.id (new_lease c epoch) s.leases)) c.run_id c.work_unit_id epoch
      ≡ true
  unfolding is_holder
  new_holder =
      rw (lookup-put c.id c.id (new_lease c epoch) s.leases, eq_refl c.id)
        (ground (arith, eq_refl c.run_id, eq_refl c.work_unit_id))

  -- In the run that the lease is installed in
  here-IsLeased :
      (w' : String) (ref' : LeaseRef)
      → lookup w' (leased_run c epoch d).leases_by_work_unit ≡ some ref'
      → is_holder
          (lookup ref'.lease_id (put c.id (new_lease c epoch) s.leases))
          c.run_id
          w'
          ref'.epoch
        ≡ true
  here-IsLeased w' ref' held' = elim (Bool-cases (c.work_unit_id == w')) [
    | inl same ↦
        let new : record { lease_id = c.id; epoch = epoch } ≡ ref' = ground (
          arith,
          lookup-put c.work_unit_id w' (record { lease_id = c.id; epoch = epoch })
              d.leases_by_work_unit,
        ) in
        let unit : c.work_unit_id ≡ w' = (eq_iff c.work_unit_id w').0 same in
        rw (← new, ← unit) new_holder
    | inr other ↦
        let old : lookup w' d.leases_by_work_unit ≡ some ref' = ground (
          arith,
          lookup-put c.work_unit_id w' (record { lease_id = c.id; epoch = epoch })
              d.leases_by_work_unit,
        ) in
        new-is_holder s c.id ref'.lease_id c.run_id w' (new_lease c epoch) ref'.epoch fresh (
          k c.run_id d w' ref' stored old
            (ground (arith, eq_iff c.work_unit_id w', eq_iff w' c.work_unit_id)))
  ]

  install-IsLeased : IsLeased (install c epoch d s)
  install-IsLeased r' d' w' ref' stored' held' = elim (Bool-cases (c.run_id == r')) [
    | inl same ↦
        let new : leased_run c epoch d ≡ d' =
          ground (arith, lookup-put c.run_id r' (leased_run c epoch d) s.runs) in
        let name : c.run_id ≡ r' = (eq_iff c.run_id r').0 same in
        rw (← name) (here-IsLeased w' ref' (rw (← new) at held'))
    | inr other ↦
        let old : lookup r' s.runs ≡ some d' =
          ground (arith, lookup-put c.run_id r' (leased_run c epoch d) s.runs) in
        new-is_holder s c.id ref'.lease_id r' w' (new_lease c epoch) ref'.epoch fresh
          (k r' d' w' ref' old held' (ground (arith, eq_iff c.run_id r', eq_iff r' c.run_id)))
  ]

free-IsLeased :
    (c : ReleaseWorkerLease) (d : Run) (s : Store)
    → IsLeasedBut c.run_id c.work_unit_id s
    → lookup c.run_id s.runs ≡ some d
    → IsLeased (record s { runs = put c.run_id (freed_run c d) s.runs })
free-IsLeased c d s k stored r' d' w' ref' stored' held' = elim (Bool-cases (c.run_id == r')) [
  | inl same ↦
      let new : freed_run c d ≡ d' =
        ground (arith, lookup-put c.run_id r' (freed_run c d) s.runs) in
      let kept : lookup w' (remove c.work_unit_id d.leases_by_work_unit) ≡ some ref' =
        rw (← new) at held' in
      let name : c.run_id ≡ r' = (eq_iff c.run_id r').0 same in
      let other : (c.work_unit_id == w') ≡ false =
        ground (arith, lookup-remove c.work_unit_id w' d.leases_by_work_unit) in
      let old : lookup w' d.leases_by_work_unit ≡ some ref' =
        ground (arith, lookup-remove c.work_unit_id w' d.leases_by_work_unit) in
      k r' d w' ref' (rw (← name) stored) old
        (ground (arith, eq_iff c.work_unit_id w', eq_iff w' c.work_unit_id))
  | inr other ↦
      let old : lookup r' s.runs ≡ some d' =
        ground (arith, lookup-put c.run_id r' (freed_run c d) s.runs) in
      k r' d' w' ref' old held' (ground (arith, eq_iff c.run_id r', eq_iff r' c.run_id))
]

beat-IsLeased :
    (id : String) (l : Lease) (now : Option ℕ) (s : Store)
    → lookup id s.leases ≡ some l
    → IsLeased s
    → IsLeased (set_lease id (record l { heartbeat_at = now }) s)
unfolding is_holder
beat-IsLeased id l now s found k r d w ref stored held = ground (
  arith,
  lookup-put id ref.lease_id (record l { heartbeat_at = now }) s.leases,
  eq_iff id ref.lease_id,
  k r d w ref stored held,
)

but : (s : Store) → IsLeased s → (r w : String) → IsLeasedBut r w s
but s k r w r' d' w' ref' stored held other = k r' d' w' ref' stored held

still_fresh :
    (s : Store) (id old : String) (l stale : Lease)
    → lookup id s.leases ≡ none
    → lookup old s.leases ≡ some stale
    → lookup id (put old l s.leases) ≡ none
still_fresh s id old l stale fresh found =
    ground (arith, lookup-put old id l s.leases, eq_iff old id)

pub LeaseStep-IsLeased : (s s' : Store) → LeaseStep s s' → IsLeased s → IsLeased s'
LeaseStep-IsLeased s _ (staffed c d stored fresh free below alone) k =
    install-IsLeased c 1 d s (but s k c.run_id c.work_unit_id) stored fresh
LeaseStep-IsLeased s _ (reassigned c d ref stale stored fresh held found old) k =
    let l = superseded c.id stale in
    install-IsLeased c (ref.epoch + 1) d (set_lease ref.lease_id l s)
      (set_lease-IsLeasedBut s c.run_id c.work_unit_id d ref l k stored held) stored
      (still_fresh s c.id ref.lease_id l stale fresh found)
LeaseStep-IsLeased s _ (beaten c d l ref stored found active held same epoch) k =
    beat-IsLeased c.id l (some c.now) s found k
LeaseStep-IsLeased s _ (freed c d l ref stored found active held same epoch) k =
    free-IsLeased c d (set_lease c.id (released c l) s)
      (subst (λ id. IsLeasedBut c.run_id c.work_unit_id (set_lease id (released c l) s)) same
        (set_lease-IsLeasedBut s c.run_id c.work_unit_id d ref (released c l) k stored held))
      stored

-- A lease document that is stored and no longer active.
unfoldable pub has_ended : Option Lease → Bool
has_ended none = false
has_ended (some l) = not (l.status == "active")

pub LeaseStep-has_ended :
    (s s' : Store) (id : String)
    → LeaseStep s s'
    → has_ended (lookup id s.leases) ≡ true
    → has_ended (lookup id s'.leases) ≡ true
unfolding has_ended
LeaseStep-has_ended s _ id (staffed c d stored fresh free below alone) h =
    ground (arith, lookup-put c.id id (new_lease c 1) s.leases, eq_iff c.id id)
LeaseStep-has_ended s _ id (reassigned c d ref stale stored fresh held found old) h =
    let l = superseded c.id stale in
    ground (
      arith,
      lookup-put c.id id (new_lease c (ref.epoch + 1)) (put ref.lease_id l s.leases),
      lookup-put ref.lease_id id l s.leases,
      eq_iff c.id id,
    )
LeaseStep-has_ended s _ id (beaten c d l ref stored found active held same epoch) h =
    ground
      (arith, lookup-put c.id id (record l { heartbeat_at = some c.now }) s.leases, eq_iff c.id id)
LeaseStep-has_ended s _ id (freed c d l ref stored found active held same epoch) h =
    ground (arith, lookup-put c.id id (released c l) s.leases, eq_iff c.id id)
