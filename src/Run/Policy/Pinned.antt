-- ===== src/Run/Policy/Pinned.antt =====
-- What overrides cannot change: the invariants of every policy that resolves.
use governed_ai_dev_team_fra.Common.{
  ℕ, String, Bool, true, false, not, ◌&&◌, ◌||◌, Option, none, some, string_eq, nat_eq, option_eq,
  ◌==◌, ◌≡◌, refl, subst, ap, ◌⊎◌, arith, eq_iff,
}
use governed_ai_dev_team_fra.Run.Ceiling.{
  IsValid, validate_execution_ceiling, Violation, validate_execution_ceiling-none,
}
use governed_ai_dev_team_fra.Run.Status.{is_unattended_preset}
use governed_ai_dev_team_fra.Run.Policy.Values.{
  Json, Fields, null, bool, num, text, array, object, get, section, is_text, lists_text,
}
use governed_ai_dev_team_fra.Run.Policy.Merge.{merge}
use governed_ai_dev_team_fra.Run.Policy.Presets.{base_policy}
use governed_ai_dev_team_fra.Run.Policy.Invariants
use governed_ai_dev_team_fra.Run.Policy.Invariants.{
  Outcome, returned, refuse_if, refuse_ceiling, check_environments, check_menu, check_execution,
  check_decisions, check_feedback, check_timeouts, validate_invariants, allows_protected,
  forbids_protected, ceiling_of, is_one, is_no_object, is_default_timeout,
}
use governed_ai_dev_team_fra.Run.Policy.{
  resolve_effective_policy, is_empty, resolve_step_timeout_seconds,
}
use governed_ai_dev_team_fra.Run.Policy.Timeouts.{
  refuse_if-returned, check_timeouts-returned, check_timeouts-IsTimeout, HasTimeouts, HasTimeout,
  HasNullDefault, timeout-cases,
}

-- What has to stand in every policy of an unattended run.
pub record IsPinned (policy : Fields) : Type 0 where
  pub staging : lists_text "staging" (get "allowed" (section "environments" policy)) ≡ false
  pub production : lists_text "production" (get "allowed" (section "environments" policy)) ≡ false
  pub fencing : get "worker_lease_fencing" (section "execution" policy) ≡ some (text "required")
  pub one_critical : is_one (get "maximum_parallel_critical_wu" (section "execution" policy)) ≡ true
  pub forks :
      get "unmatched_or_unvalidated_fork_behavior" (section "decision_menu" policy)
      ≡ some (text "block_dependent_subgraph")
  pub production_actions :
      get "production_actions" (section "decisions" policy) ≡ some (text "human_only")
  pub ceiling : IsValid (ceiling_of (section "execution_ceiling_default" policy))
  pub timeouts : HasTimeouts (section "execution" policy)

is_text-eq : (s : String) (o : Option Json) → is_text s o ≡ true → o ≡ some (text s)
is_text-eq s none h = cc
is_text-eq s (some (text t)) h = ap (λ x. some (text x)) ((eq_iff t s).0 h)
is_text-eq s (some null) h = cc
is_text-eq s (some (bool b)) h = cc
is_text-eq s (some (num n)) h = cc
is_text-eq s (some (array items)) h = cc
is_text-eq s (some (object d)) h = cc

unnegated : (b : Bool) → not b ≡ false → b ≡ true
unnegated b h = ground arith

neither : (a b : Bool) → (a || b) ≡ false → (a ≡ false) × (b ≡ false)
neither a b h = ground arith

environments_lem :
    (d : Fields) (rest : Outcome Fields) (p : Fields)
    → check_environments d rest ≡ returned p
    → (allows_protected (get "allowed" d) ≡ false) × (rest ≡ returned p)
unfolding check_environments
environments_lem d rest p h =
    let (allowed, others) =
      refuse_if-returned (allows_protected (get "allowed" d)) Invariants.environments_allowed _ h in
    (
      allowed,
      (refuse_if-returned (not (forbids_protected (get "forbidden" d)))
          Invariants.environments_forbidden rest others).1,
    )

menu_lem :
    (d : Fields) (rest : Outcome Fields) (p : Fields)
    → check_menu d rest ≡ returned p
    → (get "unmatched_or_unvalidated_fork_behavior" d ≡ some (text "block_dependent_subgraph"))
      × (rest ≡ returned p)
unfolding check_menu
menu_lem d rest p h =
    let forks = get "unmatched_or_unvalidated_fork_behavior" d in
    let (_, others) =
      refuse_if-returned (not (is_text "agent_proposes_core_validates" (get "resolution_mode" d)))
        Invariants.resolution_mode _ h in
    let (blocks, last) =
      refuse_if-returned (not (is_text "block_dependent_subgraph" forks)) Invariants.fork_behavior
        rest others in
    (is_text-eq _ forks (unnegated _ blocks), last)

execution_lem :
    (d : Fields) (rest : Outcome Fields) (p : Fields)
    → check_execution d rest ≡ returned p
    → (get "worker_lease_fencing" d ≡ some (text "required"))
      × (is_one (get "maximum_parallel_critical_wu" d) ≡ true)
      × HasTimeouts d
      × (rest ≡ returned p)
unfolding check_execution
execution_lem d rest p h =
    let fencing = get "worker_lease_fencing" d in
    let one = is_one (get "maximum_parallel_critical_wu" d) in
    let default = is_default_timeout (get "default_timeout_seconds" d) in
    let (fenced, h1) =
      refuse_if-returned (not (is_text "required" fencing)) Invariants.lease_fencing _ h in
    let (single, h2) = refuse_if-returned (not one) Invariants.parallel_critical _ h1 in
    let (_, h3) =
      refuse_if-returned (is_no_object (get "timeouts_seconds_by_step" d))
        Invariants.timeouts_object _ h2 in
    let timeouts = section "timeouts_seconds_by_step" d in
    let h4 = check_timeouts-returned timeouts _ p h3 in
    let (defaults, last) = refuse_if-returned (not default) Invariants.default_timeout rest h4 in
    (
      is_text-eq "required" fencing (unnegated _ fenced),
      unnegated one single,
      (
        λ step v found. check_timeouts-IsTimeout timeouts _ p step v h3 found,
        unnegated default defaults,
      ),
      last,
    )

ceiling_lem :
    (found : Option Violation) (rest : Outcome Fields) (p : Fields)
    → refuse_ceiling found rest ≡ returned p
    → (found ≡ none) × (rest ≡ returned p)
ceiling_lem none rest p h = (refl, h)
ceiling_lem (some v) rest p h = cc

decisions_lem :
    (d : Fields) (rest : Outcome Fields) (p : Fields)
    → check_decisions d rest ≡ returned p
    → (get "production_actions" d ≡ some (text "human_only")) × (rest ≡ returned p)
unfolding check_decisions
decisions_lem d rest p h =
    let (humans, last) = refuse_if-returned _ Invariants.human_only rest h in
    (is_text-eq "human_only" (get "production_actions" d) (ground (arith, humans)), last)

feedback_lem :
    (d : Fields) (rest : Outcome Fields) (p : Fields)
    → check_feedback d rest ≡ returned p
    → rest ≡ returned p
unfolding check_feedback
feedback_lem d rest p h =
    let (_, h1) = refuse_if-returned _ Invariants.visual_checkpoints _ h in
    let (_, h2) = refuse_if-returned _ Invariants.pending_feedback _ h1 in
    let (_, h3) = refuse_if-returned _ Invariants.unaffected_work _ h2 in
    (refuse_if-returned _ Invariants.reduced_ceiling rest h3).1

returned-inj : {a b : Fields} → ◌≡◌ {A = Outcome Fields} (returned a) (returned b) → a ≡ b
returned-inj h = cc

validated-IsPinned :
    (policy p : Fields) → validate_invariants policy ≡ returned p → (policy ≡ p) × IsPinned policy
unfolding validate_invariants
validated-IsPinned policy p h =
    let (allowed, h1) = environments_lem (section "environments" policy) _ p h in
    let (forks, h2) = menu_lem (section "decision_menu" policy) _ p h1 in
    let (fencing, one, timeouts, h3) = execution_lem (section "execution" policy) _ p h2 in
    let (valid, h4) =
      ceiling_lem
        (validate_execution_ceiling (ceiling_of (section "execution_ceiling_default" policy))) _ p
        h3 in
    let (humans, h5) = decisions_lem (section "decisions" policy) _ p h4 in
    let (_, h6) = refuse_if-returned _ Invariants.stop_behavior _ h5 in
    let h7 : returned policy ≡ returned p = feedback_lem (section "human_feedback" policy) _ p h6 in
    let environments = neither _ _ allowed in
    (
      returned-inj h7,
      record {
        staging = environments.0;
        production = environments.1;
        fencing = fencing;
        one_critical = one;
        forks = forks;
        production_actions = humans;
        ceiling = (validate_execution_ceiling-none _).0 valid;
        timeouts = timeouts;
      },
    )

-- A policy that resolves is pinned, whatever the overrides: staging and production are not allowed,
-- lease fencing is required, one critical Work Unit runs at a time, unmatched forks block, production
-- actions are for humans, the default ceiling is valid, and every listed timeout is positive and up
-- to the hard maximum.
pub resolve_effective_policy-IsPinned :
    (preset : String) (parallel attempts cycles : ℕ) (overrides policy : Fields)
    → resolve_effective_policy preset parallel attempts cycles overrides ≡ returned policy
    → IsPinned policy
unfolding resolve_effective_policy
resolve_effective_policy-IsPinned preset parallel attempts cycles overrides policy h =
    let merged = merge (base_policy preset parallel attempts cycles) overrides in
    let (_, chosen) =
      refuse_if-returned (not (is_unattended_preset preset)) Invariants.supported_preset _ h in
    let (_, valid) =
      refuse_if-returned (preset == "custom" && is_empty overrides) Invariants.explicit_overrides
        (validate_invariants merged) chosen in
    let (same, pinned) = validated-IsPinned merged policy valid in subst IsPinned same pinned

-- Under a policy that resolves, a step has a timeout from one second to the hard maximum, and to what
-- remains of the grant if that is a second or more; or the policy does not list the step and has an
-- explicit null for its default, and then the function fails.
pub resolved_timeout :
    (preset : String) (parallel attempts cycles : ℕ) (overrides policy : Fields) (step : String)
    (remaining : Option ℕ)
    → resolve_effective_policy preset parallel attempts cycles overrides ≡ returned policy
    → HasTimeout step remaining policy
      ⊎ (HasNullDefault step (section "execution" policy)
          × (resolve_step_timeout_seconds policy step remaining ≡ none))
resolved_timeout preset parallel attempts cycles overrides policy step remaining h =
    let pinned =
      resolve_effective_policy-IsPinned preset parallel attempts cycles overrides policy h in
    timeout-cases policy step remaining pinned.timeouts
