-- ===== src/Persistence/Crash/Planning.antt =====
-- What the planning methods establish, and a transaction that they let through and that no recovery
-- can finish.
use governed_ai_dev_team_fra.Common.{
  String, none, List, [], ◌∷◌, ◌++◌, ◌≡◌, refl, inl, inr, All, All-append, string_eq, Option-cases,
  subst,
}
use governed_ai_dev_team_fra.Common.Dict.{lookup}
use governed_ai_dev_team_fra.Errors.{Result, ok, ◌>>=◌, >>=-eq-ok}
use governed_ai_dev_team_fra.Persistence.Transaction.{
  Files, Transaction, Hashing, hash_of, begin, plan_write, plan_domain_event,
}
use governed_ai_dev_team_fra.Persistence.Crash.Plan.{IsPlanned, IsDistinct}

-- A call of one of the planning methods.
pub data PlanCall : Type 0 where
  plan_file : String → String → PlanCall
  plan_event : String → String → PlanCall

unfoldable pub plan_call : Hashing → Files → PlanCall → Transaction → Result Transaction
unfolding plan_write plan_domain_event
plan_call h files (plan_file path content) t = ok (plan_write h files path content t)
plan_call h files (plan_event path content) t = plan_domain_event files path content t

-- The calls of a handler on a transaction that has begun.
unfoldable pub plan_calls : Hashing → Files → List PlanCall → Transaction → Result Transaction
unfolding plan_call
plan_calls h files [] t = ok t
plan_calls h files (c ∷ cs) t = plan_call h files c t >>= plan_calls h files cs

record HasHashes (h : Hashing) (files : Files) (t : Transaction) : Type 0 where
  before : All (λ w. w.before_hash ≡ hash_of h (lookup w.relative_path files)) t.planned
  new_events : All (λ w. lookup w.relative_path files ≡ none) t.planned_domain_events

plan_call-HasHashes :
    (h : Hashing) (files : Files) (c : PlanCall) (t t' : Transaction)
    → HasHashes h files t
    → plan_call h files c t ≡ ok t'
    → HasHashes h files t'
unfolding plan_call plan_write plan_domain_event
plan_call-HasHashes h files (plan_file path content) t t' k e =
    subst (HasHashes h files) (ok_eq e) (record {
      before =
          All-append (λ w. w.before_hash ≡ hash_of h (lookup w.relative_path files)) t.planned
            (record {
              relative_path = path;
              content = content;
              before_hash = hash_of h (lookup path files);
            }
              ∷ [])
            k.before (refl, tt);
      new_events = k.new_events;
    })
  where
    ok_eq : {x y : Transaction} → ok x ≡ ok y → x ≡ y
    ok_eq q = cc
plan_call-HasHashes h files (plan_event path content) t t' k e =
    elim (Option-cases (lookup path files)) [
      | inr (old, there) ↦ cc (there)
      | inl new ↦ subst (HasHashes h files) (planned new) (record {
        before = k.before;
        new_events =
            All-append (λ w. lookup w.relative_path files ≡ none) t.planned_domain_events
              (record { relative_path = path; content = content; before_hash = none } ∷ [])
              k.new_events (new, tt);
      })
    ]
  where
    planned :
        lookup path files ≡ none
        → record t {
          planned_domain_events =
              t.planned_domain_events
              ++ record { relative_path = path; content = content; before_hash = none } ∷ [];
        }
          ≡ t'
    planned new = cc (new, e)

plan_calls-HasHashes :
    (h : Hashing) (files : Files) (cs : List PlanCall) (t t' : Transaction)
    → HasHashes h files t
    → plan_calls h files cs t ≡ ok t'
    → HasHashes h files t'
unfolding plan_calls
plan_calls-HasHashes h files [] t t' k e = subst (HasHashes h files) (ok_eq e) k
  where
    ok_eq : {x y : Transaction} → ok x ≡ ok y → x ≡ y
    ok_eq q = cc
plan_calls-HasHashes h files (c ∷ cs) t t' k e =
    let (mid, one, rest) = >>=-eq-ok (plan_call h files c t) (plan_calls h files cs) e in
    plan_calls-HasHashes h files cs mid t' (plan_call-HasHashes h files c t mid k one) rest

-- Whatever planning calls succeed over one state of the workspace, the transaction is planned over
-- it as `crash_recovery` asks, if no path is planned twice.
pub plan_calls-IsPlanned :
    (h : Hashing) (files : Files) (id : String) (cs : List PlanCall) (t : Transaction)
    → plan_calls h files cs (begin id) ≡ ok t
    → IsDistinct (t.planned ++ t.planned_domain_events)
    → IsPlanned h files t
unfolding begin
plan_calls-IsPlanned h files id cs t e distinct =
    let k =
      plan_calls-HasHashes h files cs (begin id) t (record { before = tt; new_events = tt }) e in
    record { before = k.before; new_events = k.new_events; distinct = distinct }
