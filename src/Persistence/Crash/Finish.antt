-- ===== src/Persistence/Crash/Finish.antt =====
-- Recovery finishes a prepared transaction from any files on the way from planning to the end.
use governed_ai_dev_team_fra.Common.{
  ℕ, suc, String, false, Option, none, some, List, [], ◌∷◌, ◌≡◌, refl, inl, inr, All, map, arith,
  eq_iff, eq_refl, string_eq, ◌==◌, Bool-cases, Option-cases,
}
use governed_ai_dev_team_fra.Common.Dict.{lookup, put, lookup-put}
use governed_ai_dev_team_fra.Errors.{Result, ok, err}
use governed_ai_dev_team_fra.Persistence.Transaction.{
  Files, PlannedWrite, Hashing, hash_of, entry_of,
}
use governed_ai_dev_team_fra.Persistence.Recover.{
  apply_pending_write, apply_pending_writes, apply_event_at, apply_pending_domain_events,
  was_changed, Action, and_then,
}
use governed_ai_dev_team_fra.Persistence.Crash.Toward.{
  Toward, Toward-refl, Toward-trans, Toward-put, Toward-final,
}

-- The hash tells any two contents apart.
abbrev pub IsCollisionFree : Hashing → Type 0
IsCollisionFree h = (a b : String) → h.sha256 a ≡ h.sha256 b → a ≡ b

-- The staging files from number `i` on hold the contents of the writes.
abbrev pub IsStaged : (ℕ → Option String) → ℕ → List PlannedWrite → Type 0
IsStaged stages i [] = Unit
IsStaged stages i (w ∷ ws) = (stages i ≡ some w.content) × IsStaged stages (suc i) ws

module _ (h : Hashing) (injective : IsCollisionFree h) (start final : Files) where
  -- A write that is finished: the result, and how the files have moved.
  abbrev pub Finished : String → Files → Result (Unit {0}) × Files → Type 0
  Finished path files r =
      (r.0 ≡ ok tt) × Toward final files r.1 × (lookup path r.1 ≡ lookup path final)

  Finished-put :
      (w : PlannedWrite) (files : Files)
      → lookup w.relative_path final ≡ some w.content
      → Finished w.relative_path files (ok tt, put w.relative_path w.content files)
  Finished-put w files at = (
    refl,
    Toward-put final w.relative_path w.content files at,
    ground (
      arith,
      lookup-put w.relative_path w.relative_path w.content files,
      eq_refl w.relative_path,
    ),
  )

  module _ (w : PlannedWrite) (files : Files) (staged : Option String)
      (before : w.before_hash ≡ hash_of h (lookup w.relative_path start))
      (at : lookup w.relative_path final ≡ some w.content) (has : staged ≡ some w.content)
      (way : Toward final start files) where
    unchanged :
        (c : String)
        → lookup w.relative_path files ≡ some c
        → (h.sha256 c == h.sha256 w.content) ≡ false
        → was_changed h (some c) w.before_hash ≡ false
    unchanged c there other = ground (
      arith,
      way w.relative_path,
      before,
      at,
      eq_refl (h.sha256 c),
      eq_iff (h.sha256 c) (h.sha256 w.content),
    )

    apply_pending_write-Finished :
        Finished w.relative_path files (apply_pending_write h staged (entry_of h w) files)
    unfolding apply_pending_write
    apply_pending_write-Finished = elim (Option-cases (lookup w.relative_path files)) [
      | inl gone ↦ rw (gone, has) (Finished-put w files at)
      | inr (c, there) ↦ elim (Bool-cases (h.sha256 c == h.sha256 w.content)) [
        | inl same ↦
            let content : c ≡ w.content =
              injective c w.content ((eq_iff (h.sha256 c) (h.sha256 w.content)).0 same) in
            rw (there, same) (refl, Toward-refl final files, cc (there, at, content))
        | inr other ↦ rw (there, other, unchanged c there other, has) (Finished-put w files at)
      ]
    ]

  apply_event-Finished :
      (w : PlannedWrite) (files : Files) (staged : Option String)
      → lookup w.relative_path start ≡ none
      → lookup w.relative_path final ≡ some w.content
      → staged ≡ some w.content
      → Toward final start files
      → Finished w.relative_path files
          (apply_event_at h (lookup w.relative_path files) staged (entry_of h w) files)
  apply_event-Finished w files staged new at has way =
      elim (Option-cases (lookup w.relative_path files)) [
        | inl gone ↦ rw (gone, has) (Finished-put w files at)
        | inr (c, there) ↦
            let content : c ≡ w.content = ground (arith, way w.relative_path) in
            rw (there, content, eq_refl (h.sha256 w.content))
              (refl, Toward-refl final files, cc (there, at, content))
      ]

  -- A loop that has finished its writes.
  abbrev pub AllFinished : List PlannedWrite → Files → Result (Unit {0}) × Files → Type 0
  AllFinished ws files r =
      (r.0 ≡ ok tt)
      × Toward final files r.1
      × All (λ w. lookup w.relative_path r.1 ≡ lookup w.relative_path final) ws

  and_then-AllFinished :
      (w : PlannedWrite) (ws : List PlannedWrite) (files files' : Files)
      (result : Result (Unit {0})) (next : Action)
      → result ≡ ok tt
      → Toward final files files'
      → lookup w.relative_path files' ≡ lookup w.relative_path final
      → AllFinished ws files' (next files')
      → AllFinished (w ∷ ws) files (and_then result next files')
  and_then-AllFinished w ws files files' (ok u) next e way at rest = (
    rest.0,
    Toward-trans final files files' (next files').1 way rest.1,
    (Toward-final final files' (next files').1 w.relative_path rest.1 at, rest.2),
  )
  and_then-AllFinished w ws files files' (err x) next e way at rest = cc

  pub apply_pending_writes-AllFinished :
      (stages : ℕ → Option String) (i : ℕ) (ws : List PlannedWrite) (files : Files)
      → All (λ w. w.before_hash ≡ hash_of h (lookup w.relative_path start)) ws
      → All (λ w. lookup w.relative_path final ≡ some w.content) ws
      → IsStaged stages i ws
      → Toward final start files
      → AllFinished ws files (apply_pending_writes h stages i (map (entry_of h) ws) files)
  unfolding apply_pending_writes
  apply_pending_writes-AllFinished stages i [] files before at staged way =
      (refl, Toward-refl final files, tt)
  apply_pending_writes-AllFinished stages i (w ∷ ws) files before at staged way =
      let one = apply_pending_write-Finished w files (stages i) before.0 at.0 staged.0 way in
      let files' = (apply_pending_write h (stages i) (entry_of h w) files).1 in
      let rest =
        apply_pending_writes-AllFinished stages (suc i) ws files' before.1 at.1 staged.1
          (Toward-trans final start files files' way one.1) in
      and_then-AllFinished w ws files files'
        (apply_pending_write h (stages i) (entry_of h w) files).0
        (apply_pending_writes h stages (suc i) (map (entry_of h) ws)) one.0 one.1 one.2 rest

  pub apply_pending_domain_events-AllFinished :
      (stages : ℕ → Option String) (i : ℕ) (ws : List PlannedWrite) (files : Files)
      → All (λ w. lookup w.relative_path start ≡ none) ws
      → All (λ w. lookup w.relative_path final ≡ some w.content) ws
      → IsStaged stages i ws
      → Toward final start files
      → AllFinished ws files (apply_pending_domain_events h stages i (map (entry_of h) ws) files)
  unfolding apply_pending_domain_events
  apply_pending_domain_events-AllFinished stages i [] files new at staged way =
      (refl, Toward-refl final files, tt)
  apply_pending_domain_events-AllFinished stages i (w ∷ ws) files new at staged way =
      let one = apply_event-Finished w files (stages i) new.0 at.0 staged.0 way in
      let files' =
        (apply_event_at h (lookup w.relative_path files) (stages i) (entry_of h w) files).1 in
      let rest =
        apply_pending_domain_events-AllFinished stages (suc i) ws files' new.1 at.1 staged.1
          (Toward-trans final start files files' way one.1) in
      and_then-AllFinished w ws files files'
        (apply_event_at h (lookup w.relative_path files) (stages i) (entry_of h w) files).0
        (apply_pending_domain_events h stages (suc i) (map (entry_of h) ws)) one.0 one.1 one.2 rest
