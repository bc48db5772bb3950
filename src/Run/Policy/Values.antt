-- ===== src/Run/Policy/Values.antt =====
-- The values that YAML and JSON documents hold, as core/domain/run/autonomy_policy.py reads them.
-- Numbers are whole and not negative.
use governed_ai_dev_team_fra.Common.{
  ℕ, String, Bool, true, false, ◌||◌, Option, none, some, List, [], ◌∷◌, string_eq, ◌==◌,
  if◌then◌else◌, ◌≡◌, refl, arith, eq_iff,
}

mutual
  pub data Json : Type 0 where
    null : Json
    bool : Bool → Json
    num : ℕ → Json
    text : String → Json
    array : Items → Json
    object : Fields → Json

  pub data Items : Type 0 where
    no_items : Items
    item : Json → Items → Items

  pub data Fields : Type 0 where
    no_fields : Fields
    field : String → Json → Fields → Fields

-- d.get(key)
unfoldable pub get : String → Fields → Option Json
get key no_fields = none
get key (field name value rest) = if name == key then some value else get key rest

-- d[key] = value
unfoldable pub set : String → Json → Fields → Fields
set key value no_fields = field key value no_fields
set key value (field name old rest) =
    let others = set key value rest in
    if name == key then field key value rest else field name old others

pub get-set :
    (key name : String) (value : Json) (d : Fields)
    → get name (set key value d) ≡ (if key == name then some value else get name d)
unfolding get set
get-set key name value no_fields = refl
get-set key name value (field other old rest) =
    ground
      (arith, eq_iff key name, eq_iff other key, eq_iff other name, get-set key name value rest)

-- `d.get(key) or {}`, where an entry that is no object has no entries
abbrev pub fields_of : Option Json → Fields
fields_of (some (object d)) = d
fields_of _ = no_fields

abbrev pub section : String → Fields → Fields
section key d = fields_of (get key d)

-- isinstance(value, (int, float)) and its value; a Boolean is an integer
abbrev pub number_of : Json → Option ℕ
number_of (num n) = some n
number_of (bool true) = some 1
number_of (bool false) = some 0
number_of _ = none

abbrev pub is_text : String → Option Json → Bool
is_text expected (some (text actual)) = actual == expected
is_text expected _ = false

abbrev pub is_bool : Bool → Option Json → Bool
is_bool true (some (bool b)) = b
is_bool false (some (bool true)) = false
is_bool false (some (bool false)) = true
is_bool _ _ = false

unfoldable pub has_text : String → Items → Bool
has_text expected no_items = false
has_text expected (item value rest) = is_text expected (some value) || has_text expected rest

abbrev pub has_key : Option Json → Bool
has_key none = false
has_key (some value) = true

-- `expected in set(d.get(key) or [])`; the set of a dict is that of its keys
abbrev pub lists_text : String → Option Json → Bool
lists_text expected (some (array items)) = has_text expected items
lists_text expected (some (object d)) = has_key (get expected d)
lists_text expected _ = false

abbrev pub texts : List String → Items
texts [] = no_items
texts (s ∷ rest) = item (text s) (texts rest)
