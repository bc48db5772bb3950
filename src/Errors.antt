-- ===== src/Errors.antt =====
-- core/commands/errors.py: the error codes, the exit codes, and a command handler's result.
-- A `GatewayError` keeps its code and its JSON pointer; the message text is not modelled.
use governed_ai_dev_team_fra.Common.{ℕ, String, Bool, true, false, ◌≡◌, refl, ◌⊎◌, inl, inr, arith}

pub data ErrorCode : Type 0 where
  invalid_schema unauthorized human_auth_required conflict invalid_transition : ErrorCode
  invariant_violation not_found already_exists idempotency_mismatch : ErrorCode
  unsupported_contract capability_not_enforceable transaction_recovery_required : ErrorCode
  internal_error : ErrorCode

abbrev pub exit_ok : ℕ
exit_ok = 0

unfoldable pub exit_code_for : ErrorCode → ℕ
exit_code_for invalid_schema = 3
exit_code_for unauthorized = 4
exit_code_for human_auth_required = 4
exit_code_for conflict = 5
exit_code_for idempotency_mismatch = 5
exit_code_for unsupported_contract = 6
exit_code_for capability_not_enforceable = 6
exit_code_for invalid_transition = 3
exit_code_for invariant_violation = 3
exit_code_for not_found = 3
exit_code_for already_exists = 3
exit_code_for transaction_recovery_required = 7
exit_code_for internal_error = 10

pub record GatewayError : Type 0 where
  pub code : ErrorCode
  pub path : String

-- A pure function that may raise `GatewayError`.
pub data Result {ℓ} (A : Type ℓ) : Type ℓ where
  ok : A → Result A
  err : GatewayError → Result A

abbrev pub raise {ℓ} : {A : Type ℓ} → ErrorCode → String → Result A
raise code path = err (record { code = code; path = path })

infixl 5 ◌>>=◌ ◌>>◌
abbrev pub ◌>>=◌ {ℓ κ} : {A : Type ℓ} {B : Type κ} → Result A → (A → Result B) → Result B
err failure >>= _ = err failure
ok value >>= next = next value

abbrev pub ◌>>◌ {ℓ} : {B : Type ℓ} → Result (Unit {0}) → Result B → Result B
m >> k = m >>= λ _. k

-- `if bad: raise GatewayError(code, …, path)`
abbrev pub raise_if : Bool → ErrorCode → String → Result (Unit {0})
raise_if true code path = raise code path
raise_if false code path = ok tt

-- Inversion of a successful bind.
pub >>=-eq-ok {ℓ κ} :
    {A : Type ℓ} {B : Type κ} (first : Result A) (next : A → Result B) {result : B}
    → (first >>= next) ≡ ok result
    → (value : A) × (first ≡ ok value) × (next value ≡ ok result)
>>=-eq-ok (ok value) next h = (value, refl, h)
>>=-eq-ok (err e) next h = cc

pub raise_if-eq-ok :
    (bad : Bool) (code : ErrorCode) (path : String) → raise_if bad code path ≡ ok tt → bad ≡ false
raise_if-eq-ok bad code path h = ground arith

pub Result-cases {ℓ} :
    {A : Type ℓ} (r : Result A) → ((a : A) × (r ≡ ok a)) ⊎ ((e : GatewayError) × (r ≡ err e))
Result-cases (ok a) = inl (a, refl)
Result-cases (err e) = inr (e, refl)

-- A check that is passed.
pub >>-both {ℓ} :
    {A : Type ℓ} (check : Result (Unit {0})) (rest : Result A) {a : A}
    → (check >> rest) ≡ ok a
    → (check ≡ ok tt) × (rest ≡ ok a)
>>-both (ok tt) rest h = (refl, h)
>>-both (err failure) rest h = cc
