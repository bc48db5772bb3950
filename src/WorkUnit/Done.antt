-- ===== src/WorkUnit/Done.antt =====
-- core/domain/work_unit/done.py. Whether the latest visual report of design_authority holds for a
-- Work Unit is the argument `conforms`; a caller that gives no workspace gives `none`.
use governed_ai_dev_team_fra.Common.{
  String, Bool, true, false, ◌&&◌, not, Option, none, some, List, [], ◌∷◌, ◌++◌, ◌≡◌, refl, ◌⊎◌,
  ◌↔◌, elem, is_nil, string_eq, ◌==◌, if◌then◌else◌, arith, eq_iff,
}
use governed_ai_dev_team_fra.Documents.{WorkUnit}

abbrev pub label_if : Bool → String → List String
label_if missing label = if missing then label ∷ [] else []

abbrev pub visual_report_missing : Option (WorkUnit → Bool) → WorkUnit → Bool
visual_report_missing none d = false
visual_report_missing (some conforms) d =
    elem d.design_mode ("conform" ∷ "adapt" ∷ []) && not (conforms d)

-- Each test appends its label.
unfoldable pub missing_done_prerequisites : Option (WorkUnit → Bool) → WorkUnit → List String
missing_done_prerequisites conforms d =
    label_if (is_nil d.evidence) "evidence"
    ++ (label_if (required.review && not (outcomes.review_status == "approved")) "approved review"
        ++ (label_if (required.audit && not (outcomes.audit_status == "passed")) "required audit"
            ++ (label_if
                  (required.human_acceptance
                    && not (elem outcomes.human_acceptance ("passed" ∷ "accepted" ∷ [])))
                  "human acceptance"
                ++ (label_if (not (is_nil outcomes.critical_open_items))
                      "resolution/decision for critical open items"
                    ++ label_if (visual_report_missing conforms d)
                        "valid visual conformance report"))))
  where
    open d use {required_verification as required, outcomes}

-- What a Work Unit has to show before it is done, in words of the document alone.
pub record IsComplete (conforms : WorkUnit → Bool) (d : WorkUnit) : Type 0 where
  pub evidence : is_nil d.evidence ≡ false
  pub reviewed : d.required_verification.review ≡ true → d.outcomes.review_status ≡ "approved"
  pub audited : d.required_verification.audit ≡ true → d.outcomes.audit_status ≡ "passed"
  pub accepted :
      d.required_verification.human_acceptance ≡ true
      → (d.outcomes.human_acceptance ≡ "passed") ⊎ (d.outcomes.human_acceptance ≡ "accepted")
  pub settled : d.outcomes.critical_open_items ≡ []
  pub conformant : (d.design_mode ≡ "conform") ⊎ (d.design_mode ≡ "adapt") → conforms d ≡ true

str_neq_eq : (a b : String) → not (a == b) ≡ false → a ≡ b
str_neq_eq a b h = ground (arith, eq_iff a b)

elem_pair : (a b c : String) → elem a (b ∷ c ∷ []) ≡ true → (a ≡ b) ⊎ (a ≡ c)
elem_pair a b c h = ground (arith, eq_iff a b, eq_iff a c)

is_nil-nil {ℓ} : {A : Type ℓ} (xs : List A) → not (is_nil xs) ≡ false → xs ≡ []
is_nil-nil [] h = refl
is_nil-nil (x ∷ xs) h = cc

-- The list of missing prerequisites is empty exactly for a complete Work Unit.
pub missing_done_prerequisites-nil :
    (conforms : WorkUnit → Bool) (d : WorkUnit)
    → (missing_done_prerequisites (some conforms) d ≡ []) ↔ IsComplete conforms d
unfolding missing_done_prerequisites
missing_done_prerequisites-nil conforms d = (
  λ h. record {
    evidence = ground arith;
    reviewed = λ r. str_neq_eq d.outcomes.review_status "approved" (ground arith);
    audited = λ r. str_neq_eq d.outcomes.audit_status "passed" (ground arith);
    accepted = λ r. elem_pair d.outcomes.human_acceptance "passed" "accepted" (ground arith);
    settled = is_nil-nil d.outcomes.critical_open_items (ground arith);
    conformant = λ m. ground (arith, eq_iff d.design_mode "conform", eq_iff d.design_mode "adapt");
  },
  λ c. ground (
    arith,
    c.evidence,
    c.reviewed,
    c.audited,
    c.accepted,
    c.settled,
    c.conformant,
    eq_iff d.outcomes.review_status "approved",
    eq_iff d.outcomes.audit_status "passed",
    eq_iff d.outcomes.human_acceptance "passed",
    eq_iff d.outcomes.human_acceptance "accepted",
    eq_iff d.design_mode "conform",
    eq_iff d.design_mode "adapt",
  ),
)
