-- ===== src/Gateway/Replay.antt =====
-- core/commands/gateway.py: what a receipt that is stored means for the commands that follow.
use governed_ai_dev_team_fra.Common.{
  ℕ, String, Option, none, some, List, [], ◌∷◌, string_eq, ◌==◌, ◌≡◌, refl, sym, ap, subst, ◌∙◌,
  ◌⊎◌, inl, inr, if◌then◌else◌, arith, eq_iff, eq_refl, Bool-cases,
}
use governed_ai_dev_team_fra.Common.Dict.{Dict, lookup, put, lookup-put}
use governed_ai_dev_team_fra.Errors.{
  Result, ok, raise, ◌>>=◌, >>=-eq-ok, >>-both, Result-cases, idempotency_mismatch,
}
use governed_ai_dev_team_fra.Documents.Store.{Write, apply_writes}
use governed_ai_dev_team_fra.Gateway.Envelopes.{Envelope, handle}
use governed_ai_dev_team_fra.Gateway.Idempotency.{
  Receipt, IdempotencyRecord, payload_fingerprint, find_receipt, receipt_in, store_receipt,
}
use governed_ai_dev_team_fra.Gateway.Roles.{authorize_command}
use governed_ai_dev_team_fra.Gateway.{
  Workspace, Environment, Parts, enter, commit_writes, perform, conclude, unless_cached,
  try_command, respond, execute_command, execute_commands,
}

-- What the workspace holds after a command that was performed.
abbrev pub IsPerformed :
    Parts → Environment → Envelope → Workspace → List Write → Workspace → Type 0
IsPerformed parts env e w writes done =
    (authorize_command env.bundle w.authorizations e env.now w.documents ≡ ok tt)
    × (handle parts.checks e.command w.documents ≡ ok writes)
    × (done ≡ record w { documents = apply_writes writes w.documents })

commit_writes-eq :
    (writes : List Write) (w done : Workspace)
    → commit_writes writes w ≡ ok done
    → done ≡ record w { documents = apply_writes writes w.documents }
unfolding commit_writes
commit_writes-eq [] w done h = cc
commit_writes-eq (write ∷ writes) w done h = cc

pub perform-IsPerformed :
    (parts : Parts) (env : Environment) (e : Envelope) (w done : Workspace)
    → perform parts env e w ≡ ok done
    → (writes : List Write) × (IsPerformed parts env e w writes done)
unfolding perform
perform-IsPerformed parts env e w done h =
    let passes = authorize_command env.bundle w.authorizations e env.now w.documents in
    let (passed, rest) =
      >>-both passes
        (handle parts.checks e.command w.documents >>= λ writes. commit_writes writes w) h in
    let (writes, handled, committed) =
      >>=-eq-ok (handle parts.checks e.command w.documents) (λ writes. commit_writes writes w)
        rest in
    (writes, (passed, handled, commit_writes-eq writes w done committed))

abbrev pub cached_receipt : Parts → Envelope → Workspace → Result (Option Receipt)
cached_receipt parts e w =
    find_receipt parts.digests w.index e.idempotency_key (payload_fingerprint parts.digests e)

-- The command ran, and its receipt was stored.
abbrev pub IsConcluded : Parts → Environment → Envelope → Workspace → Workspace → Receipt → Type 0
IsConcluded parts env e w after receipt =
    (done : Workspace) × (perform parts env e w ≡ ok done)
    × ((after, receipt) ≡ conclude parts env e done)

unless_cached-cases :
    (parts : Parts) (env : Environment) (e : Envelope) (w after : Workspace) (receipt : Receipt)
    (cached : Option Receipt)
    → unless_cached parts env e w cached ≡ ok (after, receipt)
    → ((after ≡ w) × (cached ≡ some receipt))
      ⊎ ((cached ≡ none) × IsConcluded parts env e w after receipt)
unless_cached-cases parts env e w after receipt (some r) h = inl (cc, cc)
unless_cached-cases parts env e w after receipt none h =
    let (done, performed, concluded) = >>=-eq-ok (perform parts env e w) _ h in
    inr (refl, (done, performed, cc))

-- A command that succeeds was answered from the index, or was performed.
pub try_command-cases :
    (parts : Parts) (env : Environment) (e : Envelope) (w after : Workspace) (receipt : Receipt)
    → try_command parts env e w ≡ ok (after, receipt)
    → ((after ≡ w) × (cached_receipt parts e w ≡ ok (some receipt)))
      ⊎ ((cached_receipt parts e w ≡ ok none) × IsConcluded parts env e w after receipt)
unfolding try_command
try_command-cases parts env e w after receipt h =
    let (_, rest) = >>-both (enter env e.command) _ h in
    let (cached, found, concluded) = >>=-eq-ok (cached_receipt parts e w) _ rest in
    elim (unless_cached-cases parts env e w after receipt cached concluded) [
      | inl (same, hit) ↦ inl (same, found ∙ ap ok hit)
      | inr (miss, ran) ↦ inr (found ∙ ap ok miss, ran)
    ]

-- The index has the receipt under the key of the envelope.
abbrev pub IsStored : Parts → Envelope → Receipt → Workspace → Type 0
IsStored parts e receipt w =
    lookup (parts.digests.of_key e.idempotency_key) w.index
    ≡ some (record { payload_hash = payload_fingerprint parts.digests e; receipt = receipt })

receipt_in-eq :
    (payload_hash : String) (entry : Option IdempotencyRecord) (receipt : Receipt)
    → receipt_in payload_hash entry ≡ ok (some receipt)
    → entry ≡ some (record { payload_hash = payload_hash; receipt = receipt })
receipt_in-eq payload_hash none receipt h = cc
receipt_in-eq payload_hash (some entry) receipt h =
    let (matches, found) = >>-both _ (ok (some entry.receipt)) h in
    let same : entry.payload_hash ≡ payload_hash =
      (string_eq.beq_iff entry.payload_hash payload_hash).0 (ground arith) in
    let kept : entry.receipt ≡ receipt = cc in rw (sym same, sym kept)

cached-IsStored :
    (parts : Parts) (e : Envelope) (receipt : Receipt) (w : Workspace)
    → cached_receipt parts e w ≡ ok (some receipt)
    → IsStored parts e receipt w
unfolding find_receipt
cached-IsStored parts e receipt w h =
    receipt_in-eq (payload_fingerprint parts.digests e)
      (lookup (parts.digests.of_key e.idempotency_key) w.index) receipt h

concluded-IsStored :
    (parts : Parts) (env : Environment) (e : Envelope) (w after : Workspace) (receipt : Receipt)
    → IsConcluded parts env e w after receipt
    → IsStored parts e receipt after
unfolding store_receipt
concluded-IsStored parts env e w after receipt (done, _, same) =
    let key = parts.digests.of_key e.idempotency_key in
    subst (λ pair. IsStored parts e pair.1 pair.0) (sym same) (rw (lookup-put, eq_refl key))

pub accepted-IsStored :
    (parts : Parts) (env : Environment) (e : Envelope) (w after : Workspace) (receipt : Receipt)
    → try_command parts env e w ≡ ok (after, receipt)
    → IsStored parts e receipt after
accepted-IsStored parts env e w after receipt h =
    elim (try_command-cases parts env e w after receipt h) [
      | inl (same, cached) ↦
          subst (IsStored parts e receipt) (sym same) (cached-IsStored parts e receipt w cached)
      | inr (_, ran) ↦ concluded-IsStored parts env e w after receipt ran
    ]

receipt_in-none :
    (payload_hash : String) (entry : Option IdempotencyRecord)
    → receipt_in payload_hash entry ≡ ok none
    → entry ≡ none
receipt_in-none payload_hash none h = refl
receipt_in-none payload_hash (some entry) h =
    let (_, found) = >>-both _ (ok (some entry.receipt)) h in cc

-- A command that ran had no entry.
cached-none :
    (parts : Parts) (e : Envelope) (w : Workspace)
    → cached_receipt parts e w ≡ ok none
    → lookup (parts.digests.of_key e.idempotency_key) w.index ≡ none
unfolding find_receipt
cached-none parts e w h = receipt_in-none (payload_fingerprint parts.digests e) _ h

concluded_index :
    (parts : Parts) (env : Environment) (e : Envelope) (w after : Workspace) (receipt : Receipt)
    → IsConcluded parts env e w after receipt
    → after.index
      ≡ put
          (parts.digests.of_key e.idempotency_key)
          (record { payload_hash = payload_fingerprint parts.digests e; receipt = receipt })
          w.index
unfolding store_receipt
concluded_index parts env e w after receipt (done, performed, same) =
    let (writes, (_, _, committed)) = perform-IsPerformed parts env e w done performed in
    let kept : done.index ≡ w.index = ap (λ x. x.index) committed in
    subst
      (λ pair.
        pair.0.index
        ≡ put (parts.digests.of_key e.idempotency_key)
            (record { payload_hash = payload_fingerprint parts.digests e; receipt = pair.1 })
            w.index)
      (sym same) (rw kept)

-- A new entry leaves the others.
lookup-put_new {ℓ} :
    {V : Type ℓ} (k j : String) (v u : V) (d : Dict V)
    → lookup k d ≡ none
    → lookup j d ≡ some u
    → lookup j (put k v d) ≡ some u
lookup-put_new k j v u d missing stored = ground (arith, lookup-put k j v d, eq_iff k j)

-- No later command changes an entry of the index.
pub entry_stays :
    (parts : Parts) (env : Environment) (e : Envelope) (w : Workspace) (key : String)
    (entry : IdempotencyRecord)
    → lookup key w.index ≡ some entry
    → lookup key (execute_command parts env e w).0.index ≡ some entry
unfolding execute_command
entry_stays parts env e w key entry stored = elim (Result-cases (try_command parts env e w)) [
  | inr (error, failed) ↦ rw (failed, stored)
  | inl ((after, receipt), passed) ↦
      subst (λ r. lookup key (respond e w r).0.index ≡ some entry) (sym passed)
        (elim (try_command-cases parts env e w after receipt passed) [
          | inl (same, _) ↦ rw (same, stored)
          | inr (missed, ran) ↦
              subst (λ index. lookup key index ≡ some entry)
                (sym (concluded_index parts env e w after receipt ran))
                (lookup-put_new _ key _ entry w.index (cached-none parts e w missed) stored)
        ])
]

entries_stay :
    (parts : Parts) (later : List (Environment × Envelope)) (w : Workspace) (key : String)
    (entry : IdempotencyRecord)
    → lookup key w.index ≡ some entry
    → lookup key (execute_commands parts later w).index ≡ some entry
unfolding execute_commands
entries_stay parts [] w key entry stored = stored
entries_stay parts ((env, e) ∷ later) w key entry stored =
    entries_stay parts later (execute_command parts env e w).0 key entry
      (entry_stays parts env e w key entry stored)

-- What is answered when the key of the envelope is in the index.
abbrev pub answer : Parts → Envelope → Workspace → IdempotencyRecord → Workspace × Receipt × ℕ
answer parts e w entry =
    if entry.payload_hash == payload_fingerprint parts.digests e
    then (w, entry.receipt, 0)
    else respond e w (raise idempotency_mismatch "/idempotency_key")

answer_lem :
    (parts : Parts) (env : Environment) (e : Envelope) (w : Workspace) (entry : IdempotencyRecord)
    → enter env e.command ≡ ok tt
    → lookup (parts.digests.of_key e.idempotency_key) w.index ≡ some entry
    → execute_command parts env e w ≡ answer parts e w entry
unfolding execute_command try_command find_receipt
answer_lem parts env e w entry entered stored =
    rw (entered, stored)
      (elim (Bool-cases (entry.payload_hash == payload_fingerprint parts.digests e)) [
        | inl same ↦ rw same
        | inr differs ↦ rw differs
      ])

-- After a command that succeeds, and any commands after it, a command with the same idempotency key
-- that gets the lock is never performed: the workspace stays as it is, and the answer is the first
-- receipt and 0 if the fingerprints are equal, and else a rejection with IDEMPOTENCY_MISMATCH.
pub accepted_once :
    (parts : Parts) (env : Environment) (e : Envelope) (w after : Workspace) (receipt : Receipt)
    (later : List (Environment × Envelope)) (again : Environment) (copy : Envelope)
    → try_command parts env e w ≡ ok (after, receipt)
    → copy.idempotency_key ≡ e.idempotency_key
    → enter again copy.command ≡ ok tt
    → execute_command parts again copy (execute_commands parts later after)
      ≡ answer parts copy
          (execute_commands parts later after)
          (record { payload_hash = payload_fingerprint parts.digests e; receipt = receipt })
accepted_once parts env e w after receipt later again copy accepted same entered =
    answer_lem parts again copy (execute_commands parts later after) _ entered (
      rw same (
        entries_stay parts later after _ _
          (accepted-IsStored parts env e w after receipt accepted)))
