-- ===== src/Machine.antt =====
-- The shape that the state machines of core/domain share: a constant `NORMATIVE_TRANSITIONS`, a
-- dictionary from a status to the set of its targets. A `frozenset` is a list without order.
pub mod Passage
use governed_ai_dev_team_fra.Common.{
  String, Bool, true, false, ◌&&◌, Option, none, some, List, [], ◌∷◌, ◌≡◌, ap, arith, elem, all,
  all-elem, &&-both, Bool-cases, string_eq, if◌then◌else◌, ◌==◌, eq_iff, not, ◌||◌, inl, inr, map,
  ◌++◌, select, is_nil, refl,
}
use governed_ai_dev_team_fra.Common.Dict.{Dict, lookup, keys}

abbrev pub Table : Type 0
Table = Dict (List String)

-- `NORMATIVE_TRANSITIONS.get(from_status, frozenset())`
abbrev pub or_empty : Option (List String) → List String
or_empty none = []
or_empty (some targets) = targets

unfoldable pub allowed_targets : Table → String → List String
unfolding lookup
allowed_targets table from_status = or_empty (lookup from_status table)

unfoldable pub is_transition_allowed : Table → String → String → Bool
unfolding allowed_targets
is_transition_allowed table from_status to_status =
    elem to_status (allowed_targets table from_status)

-- A relation that holds on every entry of a table holds on every permitted transition.
abbrev pub holds_on : (String → String → Bool) → Table → Bool
holds_on p table = all (λ row. all (p row.0) row.1) table

pub holds_on-allowed :
    (p : String → String → Bool) (table : Table) (a b : String)
    → holds_on p table ≡ true
    → is_transition_allowed table a b ≡ true
    → p a b ≡ true
unfolding is_transition_allowed
holds_on-allowed p [] a b h m = cc
holds_on-allowed p ((c, ts) ∷ table) a b h m = elim (Bool-cases (c == a)) [
  | inl here ↦
      rw (← (eq_iff c a).0 here) (all-elem (p c) b ts (&&-both _ _ h).0 (rw (here, or_empty) at m))
  | inr there ↦ holds_on-allowed p table a b (&&-both _ _ h).1 (ground arith)
]

-- A status with no targets is one that no permitted transition leaves.
pub stuck_of_nil :
    (table : Table) (a b : String)
    → is_nil (allowed_targets table a) ≡ true
    → is_transition_allowed table a b ≡ false
unfolding is_transition_allowed
stuck_of_nil table a b h = elem_of_nil b (allowed_targets table a) h
  where
    elem_of_nil : (x : String) (xs : List String) → is_nil xs ≡ true → elem x xs ≡ false
    elem_of_nil x [] e = refl
    elem_of_nil x (y ∷ ys) e = cc
