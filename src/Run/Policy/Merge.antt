-- ===== src/Run/Policy/Merge.antt =====
-- `_merge` of core/domain/run/autonomy_policy.py: overrides laid over a base, object by object.
use governed_ai_dev_team_fra.Common.{
  ap, String, Bool, true, false, Option, none, some, List, [], ◌∷◌, string_eq, ◌==◌, ◌≡◌, refl, sym,
  ◌∙◌, arith, inl, inr, subst, Bool-cases, Option-cases,
}
use governed_ai_dev_team_fra.Run.Policy.Values.{
  Json, Fields, null, bool, num, text, array, object, no_fields, field, get, set, get-set,
}

unfoldable mutual
  pub merge : Fields → Fields → Fields
  merge base no_fields = base
  merge base (field key value rest) = merge (set key (merged_value (get key base) value) base) rest

  -- The value for a key of the overrides, by what the base has there
  pub merged_value : Option Json → Json → Json
  merged_value (some (object base)) (object overrides) = object (merge base overrides)
  merged_value old value = value

-- No key stands twice, as in every Python dict.
unfoldable mutual
  pub HasDistinctKeys : Fields → Type 0
  HasDistinctKeys no_fields = Unit
  HasDistinctKeys (field key value rest) =
      (get key rest ≡ none) × (HasDistinctWithin value × HasDistinctKeys rest)

  pub HasDistinctWithin : Json → Type 0
  HasDistinctWithin (object d) = HasDistinctKeys d
  HasDistinctWithin null = Unit
  HasDistinctWithin (bool b) = Unit
  HasDistinctWithin (num n) = Unit
  HasDistinctWithin (text s) = Unit
  HasDistinctWithin (array items) = Unit

-- What a key holds after the merge
abbrev pub merged_at : Option Json → Option Json → Option Json
merged_at old none = old
merged_at old (some value) = some (merged_value old value)

pub get-merge :
    (key : String) (base overrides : Fields)
    → HasDistinctKeys overrides
    → get key (merge base overrides) ≡ merged_at (get key base) (get key overrides)
unfolding merge get HasDistinctKeys
get-merge key base no_fields h = refl
get-merge key base (field name value rest) (fresh, (_, others)) =
    let here = merged_value (get name base) value in
    elim (Bool-cases (name == key)) [
      | inl same ↦
          let one : name ≡ key = (string_eq.beq_iff name key).0 same in
          let absent : get key rest ≡ none = subst (λ k. get k rest ≡ none) one fresh in
          get-merge key (set name here base) rest others
          ∙ rw (absent, get-set name key here base, same, one)
      | inr other ↦
          get-merge key (set name here base) rest others ∙ rw (get-set name key here base, other)
    ]

-- The value at a path of keys
unfoldable pub at : List String → Option Json → Option Json
at [] found = found
at (key ∷ path) (some (object d)) = at path (get key d)
at (key ∷ path) found = none

abbrev pub is_object : Json → Bool
is_object (object d) = true
is_object value = false

at-none : (path : List String) → at path none ≡ none
unfolding at
at-none [] = refl
at-none (key ∷ path) = refl

within_of :
    (key : String) (d : Fields) (value : Json)
    → HasDistinctKeys d
    → get key d ≡ some value
    → HasDistinctWithin value
unfolding get HasDistinctKeys
within_of key no_fields value h found = cc
within_of key (field name first rest) value (_, (within, others)) found =
    elim (Bool-cases (name == key)) [
      | inl same ↦
          let one : first ≡ value = ground (arith, same, found) in
          subst HasDistinctWithin one within
      | inr other ↦ within_of key rest value others (ground (arith, other, found))
    ]

merged_value-at :
    (path : List String) (old : Option Json) (value leaf : Json)
    → HasDistinctWithin value
    → is_object leaf ≡ false
    → at path (some value) ≡ some leaf
    → at path (some (merged_value old value)) ≡ some leaf
unfolding at merge HasDistinctKeys
merged_value-at [] (some (object base)) (object d) leaf h plain found = cc
merged_value-at (key ∷ path) (some (object base)) (object d) leaf h plain found =
    subst (λ entry. at path entry ≡ some leaf) (sym (get-merge key base d h))
      (elim (Option-cases (get key d)) [
        | inl missing ↦ let empty : at path (get key d) ≡ none = rw missing (at-none path) in cc
        | inr (v, present) ↦ rw present (
            merged_value-at path (get key base) v leaf (within_of key d v h present) plain
              (subst (λ entry. at path entry ≡ some leaf) present found))
      ])
merged_value-at path old value leaf h plain found = found

abbrev pub AreDistinctWithin : Option Json → Type 0
AreDistinctWithin none = Unit
AreDistinctWithin (some value) = HasDistinctWithin value

within_get : (key : String) (d : Fields) → HasDistinctKeys d → AreDistinctWithin (get key d)
within_get key d h = elim (Option-cases (get key d)) [
  | inl missing ↦ subst AreDistinctWithin (sym missing) tt
  | inr (v, present) ↦ subst AreDistinctWithin (sym present) (within_of key d v h present)
]

-- On the path, the overrides come to an object that lacks the next key.
unfoldable pub is_untouched : List String → Option Json → Bool
is_untouched path none = true
is_untouched (key ∷ path) (some (object d)) = is_untouched path (get key d)
is_untouched path (some value) = false

untouched-at-none :
    (path : List String) (new : Option Json) → is_untouched path new ≡ true → at path new ≡ none
unfolding is_untouched at
untouched-at-none path none h = at-none path
untouched-at-none (key ∷ path) (some (object d)) h = untouched-at-none path (get key d) h
untouched-at-none path (some value) h = cc

merged_at-untouched :
    (path : List String) (old new : Option Json)
    → AreDistinctWithin new
    → is_untouched path new ≡ true
    → at path (merged_at old new) ≡ at path old
unfolding is_untouched at merge HasDistinctKeys
merged_at-untouched path old none h free = refl
merged_at-untouched (key ∷ path) (some (object base)) (some (object d)) h free =
    ap (at path) (get-merge key base d h)
    ∙ merged_at-untouched path (get key base) (get key d) (within_get key d h) free
merged_at-untouched (key ∷ path) none (some (object d)) h free =
    untouched-at-none path (get key d) free
merged_at-untouched (key ∷ path) (some null) (some (object d)) h free =
    untouched-at-none path (get key d) free
merged_at-untouched (key ∷ path) (some (bool b)) (some (object d)) h free =
    untouched-at-none path (get key d) free
merged_at-untouched (key ∷ path) (some (num n)) (some (object d)) h free =
    untouched-at-none path (get key d) free
merged_at-untouched (key ∷ path) (some (text s)) (some (object d)) h free =
    untouched-at-none path (get key d) free
merged_at-untouched (key ∷ path) (some (array items)) (some (object d)) h free =
    untouched-at-none path (get key d) free
merged_at-untouched path old (some value) h free = cc

-- Where the value at a path of a merge comes from.
pub data Source (base overrides : Fields) (path : List String) : Option Json → Type 0 where
  from_overrides :
      (leaf : Json)
      → is_object leaf ≡ false
      → at path (some (object overrides)) ≡ some leaf
      → Source base overrides path (some leaf)
  from_base :
      is_untouched path (some (object overrides)) ≡ true
      → Source base overrides path (at path (some (object base)))

-- For overrides without double keys, at every depth: what they hold at a path, if it is no object,
-- stands there in the merge; and at a path on which they come to an object that lacks the next key,
-- the merge holds what the base holds.
pub merge-at :
    (base overrides : Fields) (path : List String) (found : Option Json)
    → HasDistinctKeys overrides
    → Source base overrides path found
    → at path (some (object (merge base overrides))) ≡ found
unfolding merge HasDistinctKeys
merge-at base overrides path found h (from_overrides leaf plain there) =
    merged_value-at path (some (object base)) (object overrides) leaf h plain there
merge-at base overrides path found h (from_base free) =
    merged_at-untouched path (some (object base)) (some (object overrides)) h free
