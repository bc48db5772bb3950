-- ===== src/Machine/Passage.antt =====
-- Sequences of permitted transitions, and what every such sequence has to pass.
use governed_ai_dev_team_fra.Common.{
  String, Bool, true, false, ◌||◌, not, Option, none, some, List, [], ◌∷◌, ◌≡◌, arith, elem,
  Bool-cases, string_eq, if◌then◌else◌, ◌==◌, eq_iff, inl, inr,
}
use governed_ai_dev_team_fra.Machine.{Table, is_transition_allowed, holds_on, holds_on-allowed}

-- Moves to each status of `path` in turn; `none` if a move is not permitted.
unfoldable pub follow : Table → String → List String → Option String
follow table status [] = some status
follow table status (next ∷ path) =
    let rest = follow table next path in
    if is_transition_allowed table status next then rest else none

-- `b` may be reached from `a`.
pub data Reach (table : Table) (a : String) : String → Type 0 where
  here : Reach table a a
  next :
      {b : String} (c : String)
      → Reach table a b
      → is_transition_allowed table b c ≡ true
      → Reach table a c

-- `region` can be left only into `gate`.
abbrev pub guards : Table → (String → Bool) → String → Bool
guards table region gate = holds_on (λ a b. not (region a) || (region b || b == gate)) table

-- A path that starts in a guarded region and ends outside passes the gate.
pub follow-passes :
    (table : Table) (region : String → Bool) (gate : String)
    → guards table region gate ≡ true
    → (a b : String) (path : List String) → region a ≡ true
    → region b ≡ false
    → follow table a path ≡ some b
    → elem gate path ≡ true
unfolding follow
follow-passes table region gate g a b [] ra rb f = ground arith
follow-passes table region gate g a b (c ∷ path) ra rb f =
    elim (Bool-cases (is_transition_allowed table a c)) [
      | inl step ↦ ground (
        arith,
        eq_iff c gate,
        eq_iff gate c,
        holds_on-allowed (λ x y. not (region x) || (region y || y == gate)) table a c g step,
        follow-passes table region gate g c b path,
      )
      | inr stuck ↦ ground arith
    ]

-- An invariant of every row of the table holds wherever a permitted sequence leads.
pub Reach-invariant :
    (table : Table) (inv : String → Bool)
    → holds_on (λ a b. not (inv a) || inv b) table ≡ true
    → {a b : String} → inv a ≡ true
    → Reach table a b
    → inv b ≡ true
Reach-invariant table inv g i here = i
Reach-invariant table inv g i (next {b = m} c r step) = ground (
  arith,
  Reach-invariant table inv g i r,
  holds_on-allowed (λ x y. not (inv x) || inv y) table m c g step,
)
