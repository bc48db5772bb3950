-- ===== src/Run/Policy/Timeouts.antt =====
-- The timeout of a step under a policy whose timeouts were validated.
use governed_ai_dev_team_fra.Common.{
  ◌<◌, ℕ, ◌≤◌, String, Bool, true, false, not, Option, none, some, get_or, string_eq, ◌==◌, ◌≡◌,
  refl, subst, ◌⊎◌, inl, inr, arith, Bool-cases, Option-cases, max,
}
use governed_ai_dev_team_fra.Run.Policy.Values.{
  Json, Fields, null, bool, num, text, array, object, no_fields, field, get, section, number_of,
}
use governed_ai_dev_team_fra.Run.Policy.Presets.{
  hard_max_timeout_seconds, default_unknown_step_timeout_seconds,
}
use governed_ai_dev_team_fra.Run.Policy.Invariants.{
  Rule, Outcome, returned, refuse_if, check_timeouts, is_positive, is_above_maximum,
  is_default_timeout, step_name, positive_timeout, hard_maximum,
}
use governed_ai_dev_team_fra.Run.Policy.{clamped, raw_timeout, resolve_step_timeout_seconds}

-- A check that is passed.
pub refuse_if-returned {ℓ} :
    {A : Type ℓ} (bad : Bool) (rule : Rule) (rest : Outcome A) {a : A}
    → refuse_if bad rule rest ≡ returned a
    → (bad ≡ false) × (rest ≡ returned a)
refuse_if-returned true rule rest h = cc
refuse_if-returned false rule rest h = (refl, h)

-- A number of seconds
abbrev pub IsSeconds : Json → Type 0
IsSeconds v = (n : ℕ) × (number_of v ≡ some n)

positive_lem : (v : Json) → is_positive (number_of v) ≡ true → IsSeconds v
positive_lem v h = elim (Option-cases (number_of v)) [
  | inl missing ↦ ground (arith, missing, h)
  | inr found ↦ found
]

-- A positive number of seconds up to the hard maximum
abbrev pub IsTimeout : Json → Type 0
IsTimeout v = (n : ℕ) × (number_of v ≡ some n) × (0 < n) × (n ≤ hard_max_timeout_seconds)

timeout_lem :
    (v : Json)
    → is_positive (number_of v) ≡ true
    → is_above_maximum (number_of v) ≡ false
    → IsTimeout v
timeout_lem v positive below = elim (Option-cases (number_of v)) [
  | inl missing ↦ ground (arith, missing, positive)
  | inr (n, number) ↦ (n, number, ground (arith, number, positive), ground (arith, number, below))
]

pub check_timeouts-returned :
    (timeouts : Fields) (rest : Outcome Fields) (policy : Fields)
    → check_timeouts timeouts rest ≡ returned policy
    → rest ≡ returned policy
unfolding check_timeouts
check_timeouts-returned no_fields rest policy h = h
check_timeouts-returned (field step seconds timeouts) rest policy h =
    let (_, named) = refuse_if-returned (step == "") step_name _ h in
    let (_, positive) =
      refuse_if-returned (not (is_positive (number_of seconds))) positive_timeout _ named in
    let (_, others) =
      refuse_if-returned (is_above_maximum (number_of seconds)) hard_maximum _ positive in
    check_timeouts-returned timeouts rest policy others

pub check_timeouts-IsTimeout :
    (timeouts : Fields) (rest : Outcome Fields) (policy : Fields) (step : String) (v : Json)
    → check_timeouts timeouts rest ≡ returned policy
    → get step timeouts ≡ some v
    → IsTimeout v
unfolding check_timeouts get
check_timeouts-IsTimeout no_fields rest policy step v h found = cc
check_timeouts-IsTimeout (field name seconds timeouts) rest policy step v h found =
    let (_, named) = refuse_if-returned (name == "") step_name _ h in
    let (number, positive) =
      refuse_if-returned (not (is_positive (number_of seconds))) positive_timeout _ named in
    let (below, others) =
      refuse_if-returned (is_above_maximum (number_of seconds)) hard_maximum _ positive in
    elim (Bool-cases (name == step)) [
      | inl same ↦
          let one : seconds ≡ v = ground (arith, same, found) in
          subst IsTimeout one (timeout_lem seconds (ground (arith, number)) below)
      | inr other ↦
          check_timeouts-IsTimeout timeouts rest policy step v others (ground (arith, other, found))
    ]

-- Between one second and the hard maximum, and below what remains, if that is a second at least
abbrev pub IsWithin : Option ℕ → ℕ → Type 0
IsWithin none t = (1 ≤ t) × (t ≤ hard_max_timeout_seconds)
IsWithin (some remaining) t = (1 ≤ t) × ((t ≤ hard_max_timeout_seconds) × (t ≤ max 1 remaining))

clamped-IsWithin :
    (remaining : Option ℕ) (n : ℕ)
    → (t : ℕ) × ((clamped remaining (some n) ≡ some t) × IsWithin remaining t)
clamped-IsWithin none n = (_, (refl, (omega arith, omega arith)))
clamped-IsWithin (some r) n = (_, (refl, (omega arith, (omega arith, omega arith))))

-- The timeouts of a step that a policy may hold
abbrev pub HasTimeouts : Fields → Type 0
HasTimeouts execution =
    ((step : String) (v : Json)
      → get step (section "timeouts_seconds_by_step" execution) ≡ some v
      → IsTimeout v)
    × (is_default_timeout (get "default_timeout_seconds" execution) ≡ true)

-- The step is not listed, and the default is an explicit null.
abbrev pub HasNullDefault : String → Fields → Type 0
HasNullDefault step execution =
    (get step (section "timeouts_seconds_by_step" execution) ≡ none)
    × (get "default_timeout_seconds" execution ≡ some null)

abbrev pub HasTimeout : String → Option ℕ → Fields → Type 0
HasTimeout step remaining policy =
    (t : ℕ) × ((resolve_step_timeout_seconds policy step remaining ≡ some t) × IsWithin remaining t)

seconds-HasTimeout :
    (policy : Fields) (step : String) (remaining : Option ℕ)
    → IsSeconds (raw_timeout step (section "execution" policy))
    → HasTimeout step remaining policy
unfolding resolve_step_timeout_seconds
seconds-HasTimeout policy step remaining (n, number) =
    let (t, (clamps, within)) = clamped-IsWithin remaining n in (t, (rw number clamps, within))

default-cases :
    (found : Option Json)
    → is_default_timeout found ≡ true
    → (found ≡ some null) ⊎ IsSeconds (get_or found (num default_unknown_step_timeout_seconds))
default-cases none h = inr (600, refl)
default-cases (some null) h = inl refl
default-cases (some (num n)) h = inr (positive_lem (num n) h)
default-cases (some (bool b)) h = inr (positive_lem (bool b) h)
default-cases (some (text s)) h = inr (positive_lem (text s) h)
default-cases (some (array items)) h = inr (positive_lem (array items) h)
default-cases (some (object d)) h = inr (positive_lem (object d) h)

pub timeout-cases :
    (policy : Fields) (step : String) (remaining : Option ℕ)
    → HasTimeouts (section "execution" policy)
    → HasTimeout step remaining policy
      ⊎ (HasNullDefault step (section "execution" policy)
          × (resolve_step_timeout_seconds policy step remaining ≡ none))
unfolding resolve_step_timeout_seconds
timeout-cases policy step remaining (listed, default) =
    let execution = section "execution" policy in
    elim (Option-cases (get step (section "timeouts_seconds_by_step" execution))) [
      | inr (v, found) ↦
          let (n, number, _, _) = listed step v found in
          inl (seconds-HasTimeout policy step remaining (rw found (n, number)))
      | inl missing ↦ elim (default-cases (get "default_timeout_seconds" execution) default) [
        | inr seconds ↦ inl (seconds-HasTimeout policy step remaining (rw missing seconds))
        | inl empty ↦ inr ((missing, empty), rw (missing, empty))
      ]
    ]
