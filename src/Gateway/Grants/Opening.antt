-- ===== src/Gateway/Grants/Opening.antt =====
-- `_authorize_open_run` of core/commands/run_authorization.py, with domain/run/area_filter.py.
-- `lower` stands for Python's `str.lower`.
use governed_ai_dev_team_fra.Common.{
  ◌∙◌, elem_self, all-elem, ℕ, ◌<◌, String, Bool, true, false, not, ◌&&◌, Option, none, some,
  get_or, List, [], ◌∷◌, ◌≡◌, ◌↔◌, refl, map, string_eq, ◌==◌, elem, all, leb, arith, if◌then◌else◌,
  subst, sym, Option-cases, inl, inr,
}
use governed_ai_dev_team_fra.Common.Dict.{lookup}
use governed_ai_dev_team_fra.Errors.{Result, ok, raise, raise_if, ◌>>◌, not_found, unauthorized}
use governed_ai_dev_team_fra.Documents.{WorkUnit, Grant}
use governed_ai_dev_team_fra.Documents.Store.{Store}
use governed_ai_dev_team_fra.Gateway.Grants.{is_revoked, is_expired, unusable_reason}

-- FILTERABLE_AREAS
abbrev pub filterable_areas : List String
filterable_areas = "frontend" ∷ "backend" ∷ "fullstack" ∷ "mobile" ∷ "infra" ∷ "data" ∷ []

abbrev pub area_or_unknown : String → String
area_or_unknown area = if area == "" then "unknown" else area

abbrev pub work_unit_area : (String → String) → WorkUnit → String
work_unit_area lower work_unit = area_or_unknown (lower (area_or_unknown work_unit.area))

abbrev pub is_listed : (String → String) → String → Option (List String) → Bool
is_listed lower area none = true
is_listed lower area (some allowed) =
    not (area == "unknown") && elem area filterable_areas && elem area (map lower allowed)

-- is_area_eligible
unfoldable pub is_area_eligible : (String → String) → WorkUnit → Grant → Bool
is_area_eligible lower work_unit grant =
    is_listed lower (work_unit_area lower work_unit) grant.allowed_areas

abbrev pub is_eligible_file : (String → String) → Grant → Option WorkUnit → Bool
is_eligible_file lower grant none = false
is_eligible_file lower grant (some work_unit) = is_area_eligible lower work_unit grant

-- The loop over the Work Units; a missing one and one of another area are refused alike.
abbrev pub is_in_areas :
    (String → String) → Grant → Store → List String → Option (List String) → Bool
is_in_areas lower grant s work_unit_ids none = true
is_in_areas lower grant s work_unit_ids (some areas) =
    all (λ id. is_eligible_file lower grant (lookup id s.work_units)) work_unit_ids

abbrev pub is_unusable : Option String → Bool
is_unusable none = false
is_unusable (some reason) = true

-- is_exhausted
abbrev pub is_exhausted : Grant → Bool
is_exhausted grant = leb (get_or grant.maximum_uses 1) grant.uses_count

unfoldable pub check_opening :
    (String → String) → List String → ℕ → Store → Option Grant → Result (Unit {0})
check_opening lower work_unit_ids now s none = raise not_found "/run_authorization/grant_id"
check_opening lower work_unit_ids now s (some grant) =
    raise_if (is_unusable (unusable_reason grant now "OpenRun")) unauthorized
      "/run_authorization/grant_id"
    >> (raise_if (is_exhausted grant) unauthorized "/run_authorization/grant_id"
        >> (raise_if (not (all (λ id. elem id grant.work_unit_ids) work_unit_ids)) unauthorized
              "/payload/work_unit_ids"
            >> raise_if (not (is_in_areas lower grant s work_unit_ids grant.allowed_areas))
                unauthorized "/payload/work_unit_ids"))

-- _authorize_open_run
unfoldable pub authorize_open_run :
    (String → String) → String → List String → ℕ → Store → Result (Unit {0})
authorize_open_run lower grant_id work_unit_ids now s =
    check_opening lower work_unit_ids now s (lookup grant_id s.grants)

-- The Work Unit is stored, with an area that can be listed and that is listed.
abbrev pub HasListedArea : (String → String) → Store → List String → String → Type 0
HasListedArea lower s areas id =
    (work_unit : WorkUnit) × (lookup id s.work_units ≡ some work_unit)
    × (elem (work_unit_area lower work_unit)
          ("frontend" ∷ "backend" ∷ "fullstack" ∷ "mobile" ∷ "infra" ∷ "data" ∷ [])
        ≡ true)
    × (elem (work_unit_area lower work_unit) (map lower areas) ≡ true)

-- What the grant of a run that opens has to be, in words of its entries.
pub record Opens (lower : String → String) (work_unit_ids : List String) (now : ℕ) (s : Store)
    (grant : Grant) : Type 0 where
  pub unrevoked : grant.revoked_at ≡ none
  pub unexpired : (expires_at : ℕ) → grant.expires_at ≡ some expires_at → now < expires_at
  pub included : elem "OpenRun" grant.excluded_actions ≡ false
  pub unused : grant.uses_count < get_or grant.maximum_uses 1
  pub covered : (id : String) → elem id work_unit_ids ≡ true → elem id grant.work_unit_ids ≡ true
  pub eligible :
      (areas : List String) (id : String)
      → grant.allowed_areas ≡ some areas
      → elem id work_unit_ids ≡ true
      → HasListedArea lower s areas id

gates_lem :
    (a b c d : Bool) (p q : String)
    → ((raise_if a unauthorized p
          >> (raise_if b unauthorized p
              >> (raise_if c unauthorized q >> raise_if d unauthorized q)))
        ≡ ok tt)
      ↔ ((a ≡ false) × ((b ≡ false) × ((c ≡ false) × (d ≡ false))))
gates_lem a b c d p q = ground arith

-- A test of every element holds exactly if it holds of each member.
all_iff :
    (p : String → Bool) (xs : List String)
    → (all p xs ≡ true) ↔ ((x : String) → elem x xs ≡ true → p x ≡ true)
all_iff p xs = (λ h x m. all-elem p x xs h m, λ h. go xs h)
  where
    go : (ys : List String) → ((y : String) → elem y ys ≡ true → p y ≡ true) → all p ys ≡ true
    go [] h = refl
    go (y ∷ ys) h = ground (arith, h y (elem_self y ys), go ys (λ x m. h x (ground (arith, m))))

unrevoked_lem : (revoked_at : Option ℕ) → (is_revoked revoked_at ≡ false) ↔ (revoked_at ≡ none)
unrevoked_lem none = (λ h. refl, λ h. refl)
unrevoked_lem (some t) = (λ h. cc, λ h. cc)

unexpired_lem :
    (expires_at : Option ℕ) (now : ℕ)
    → (is_expired expires_at now ≡ false) ↔ ((t : ℕ) → expires_at ≡ some t → now < t)
unexpired_lem none now = (λ h t e. cc, λ h. refl)
unexpired_lem (some t) now = (λ h u e. ground (arith, e, h), λ h. ground (arith, h t refl))

usable_lem :
    (grant : Grant) (now : ℕ)
    → (is_unusable (unusable_reason grant now "OpenRun") ≡ false) ↔ (
        (is_revoked grant.revoked_at ≡ false)
        × ((is_expired grant.expires_at now ≡ false)
            × (elem "OpenRun" grant.excluded_actions ≡ false)))
unfolding unusable_reason
usable_lem grant now = ground arith

unused_lem : (maximum used : ℕ) → (leb maximum used ≡ false) ↔ (used < maximum)
unused_lem maximum used = ground arith

true_lem : (b : Bool) → (not b ≡ false) ↔ (b ≡ true)
true_lem b = ground arith

area_test :
    (area : String) (listed : Bool)
    → ((not (area == "unknown") && elem area filterable_areas && listed) ≡ true)
      ↔ ((elem area filterable_areas ≡ true) × (listed ≡ true))
area_test area listed =
    let known : elem area filterable_areas ≡ true → not (area == "unknown") ≡ true =
      λ h. all-elem (λ a. not (a == "unknown")) area filterable_areas refl h in
    let test : (a b c : Bool)
        → (b ≡ true → a ≡ true)
        → ((a && b && c) ≡ true) ↔ ((b ≡ true) × (c ≡ true)) =
      λ a b c k. ground (arith, k) in
    test (not (area == "unknown")) (elem area filterable_areas) listed known

listed_lem :
    (lower : String → String) (grant : Grant) (s : Store) (areas : List String) (id : String)
    → grant.allowed_areas ≡ some areas
    → (is_eligible_file lower grant (lookup id s.work_units) ≡ true)
      ↔ HasListedArea lower s areas id
unfolding is_area_eligible
listed_lem lower grant s areas id given = elim (Option-cases (lookup id s.work_units)) [
  | inl missing ↦ (
    λ h.
        let none_is : is_eligible_file lower grant (lookup id s.work_units) ≡ false = rw missing in
        cc,
    λ (w, found, _, _). cc,
  )
  | inr (w, found) ↦
      let area = work_unit_area lower w in
      let test = area_test area (elem area (map lower areas)) in
      let computed : is_eligible_file lower grant (lookup id s.work_units)
          ≡ (not (area == "unknown") && elem area filterable_areas && elem area (map lower areas)) =
        rw (found, given) in
      (
        λ h. let (listable, listed) = test.0 (sym computed ∙ h) in (w, found, listable, listed),
        λ (v, stored, listable, listed).
            let same : v ≡ w = cc in
            computed
            ∙ test.1 (
              subst (λ x. elem (work_unit_area lower x) filterable_areas ≡ true) same listable,
              subst (λ x. elem (work_unit_area lower x) (map lower areas) ≡ true) same listed,
            ),
      )
]

areas_lem :
    (lower : String → String) (grant : Grant) (s : Store) (ids : List String)
    → (is_in_areas lower grant s ids grant.allowed_areas ≡ true) ↔ (
        (areas : List String) (id : String)
        → grant.allowed_areas ≡ some areas
        → elem id ids ≡ true
        → HasListedArea lower s areas id)
areas_lem lower grant s ids = elim (Option-cases grant.allowed_areas) [
  | inl free ↦ (
    λ _ areas id given _. cc,
    λ _. subst (λ o. is_in_areas lower grant s ids o ≡ true) (sym free) refl,
  )
  | inr (listed, given) ↦
      let is_eligible : String → Bool =
        λ id. is_eligible_file lower grant (lookup id s.work_units) in
      let every = all_iff is_eligible ids in
      (
        λ h areas id given' m.
            (listed_lem lower grant s areas id given').0
              (every.0 (subst (λ o. is_in_areas lower grant s ids o ≡ true) given h) id m),
        λ h.
            subst (λ o. is_in_areas lower grant s ids o ≡ true) (sym given)
              (every.1
                (λ id m. (listed_lem lower grant s listed id given).1 (h listed id given m))),
      )
]

check_opening_lem :
    (lower : String → String) (ids : List String) (now : ℕ) (s : Store) (grant : Grant)
    → (check_opening lower ids now s (some grant) ≡ ok tt) ↔ Opens lower ids now s grant
unfolding check_opening
check_opening_lem lower ids now s grant =
    let reason = unusable_reason grant now "OpenRun" in
    let is_covered : String → Bool = λ id. elem id grant.work_unit_ids in
    let covered = all is_covered ids in
    let eligible = is_in_areas lower grant s ids grant.allowed_areas in
    let gates =
      gates_lem (is_unusable reason) (is_exhausted grant) (not covered) (not eligible)
        "/run_authorization/grant_id" "/payload/work_unit_ids" in
    (
      λ h.
          let (usable, (unused, (covers, areas))) = gates.0 h in
          let (alive, (current, included)) = (usable_lem grant now).0 usable in
          record {
            unrevoked = (unrevoked_lem grant.revoked_at).0 alive;
            unexpired = (unexpired_lem grant.expires_at now).0 current;
            included = included;
            unused = (unused_lem (get_or grant.maximum_uses 1) grant.uses_count).0 unused;
            covered = (all_iff is_covered ids).0 ((true_lem covered).0 covers);
            eligible = (areas_lem lower grant s ids).0 ((true_lem eligible).0 areas);
          },
      λ o. gates.1 (
        (usable_lem grant now).1 (
          (unrevoked_lem grant.revoked_at).1 o.unrevoked,
          ((unexpired_lem grant.expires_at now).1 o.unexpired, o.included),
        ),
        (
          (unused_lem (get_or grant.maximum_uses 1) grant.uses_count).1 o.unused,
          (
            (true_lem covered).1 ((all_iff is_covered ids).1 o.covered),
            (true_lem eligible).1 ((areas_lem lower grant s ids).1 o.eligible),
          ),
        ),
      ),
    )

-- The grant check lets an OpenRun pass exactly when its grant is stored, is not revoked nor expired
-- and does not exclude OpenRun, has a use left and names every Work Unit, and, if it lists areas,
-- every Work Unit is stored with one of them that is an area that can be listed.
pub authorize_open_run_iff :
    (lower : String → String) (grant_id : String) (ids : List String) (now : ℕ) (s : Store)
    → (authorize_open_run lower grant_id ids now s ≡ ok tt)
      ↔ ((grant : Grant) × (lookup grant_id s.grants ≡ some grant) × Opens lower ids now s grant)
unfolding authorize_open_run check_opening
authorize_open_run_iff lower grant_id ids now s = elim (Option-cases (lookup grant_id s.grants)) [
  | inl missing ↦
      (λ h. ground (arith, missing, h), λ (grant, found, _). ground (arith, missing, found))
  | inr (grant, present) ↦ (
    λ h. (
      grant,
      present,
      (check_opening_lem lower ids now s grant).0
          (subst (λ o. check_opening lower ids now s o ≡ ok tt) present h),
    ),
    λ (other, found, opens).
        subst (λ o. check_opening lower ids now s o ≡ ok tt) (sym found)
          ((check_opening_lem lower ids now s other).1 opens),
  )
]
