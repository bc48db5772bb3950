-- ===== src/Common/Directory.antt =====
-- A directory of `<id>.json` files, in the order in which `sorted(directory.glob("*.json"))` lists
-- them. A write replaces the file of that name or adds one.
use Prim.Native.String.{compare, ◌++◌}
use Prim.Native.Nat.{Ordering}
use Prim.Native.String.{String}
use mathlib.Core.Path.{◌≡◌, refl}
use mathlib.Core.Bool.{Bool, true, false}
use mathlib.Core.Option.{Option, none, some}
use mathlib.Core.Logic.{inl, inr}
use mathlib.Core.List.{[], ◌∷◌}
use native.Mathlib.Omega.{arith}
use text.Mathlib.TextEquality.{eq_iff}
use text.Mathlib.TextPositions.{eq_refl}
use governed_ai_dev_team_fra.Common.Tests.{◌==◌, if◌then◌else◌, string_eq, Option-cases, Bool-cases}
use governed_ai_dev_team_fra.Common.Lists.{All}
use governed_ai_dev_team_fra.Common.Dict.{Dict, lookup, put, remove, lookup-put, lookup-remove}

-- The order of the file names: by code points, which is the order of their UTF-8 bytes.
abbrev pub name_lt : String → String → Bool
name_lt a b = elim (compare (a ++ ".json") (b ++ ".json")) [ Ordering.lt ↦ true | _ ↦ false ]

module _ {ℓ} {V : Type ℓ} where
  unfoldable pub insert_sorted : String → V → Dict V → Dict V
  insert_sorted k v [] = (k, v) ∷ []
  insert_sorted k v ((j, w) ∷ d) =
      let rest = insert_sorted k v d in if name_lt k j then (k, v) ∷ (j, w) ∷ d else (j, w) ∷ rest

  abbrev pub write_as : Option V → String → V → Dict V → Dict V
  write_as none k v d = insert_sorted k v d
  write_as (some _) k v d = put k v d

  unfoldable pub write : String → V → Dict V → Dict V
  write k v d = write_as (lookup k d) k v d

  lookup-insert_sorted :
      (k j : String) (v : V) (d : Dict V)
      → lookup k d ≡ none
      → lookup j (insert_sorted k v d) ≡ (if k == j then some v else lookup j d)
  unfolding lookup insert_sorted
  lookup-insert_sorted k j v [] h = refl
  lookup-insert_sorted k j v ((i, w) ∷ d) h =
      ground (arith, eq_iff k j, eq_iff i k, eq_iff i j, lookup-insert_sorted k j v d)

  pub lookup-write :
      (k j : String) (v : V) (d : Dict V)
      → lookup j (write k v d) ≡ (if k == j then some v else lookup j d)
  unfolding write
  lookup-write k j v d = elim (Option-cases (lookup k d)) [
    | inl new ↦ rw new (lookup-insert_sorted k j v d new)
    | inr (w, old) ↦ rw old (lookup-put k j v d)
  ]

  -- No name stands twice.
  abbrev pub IsUnique : Dict V → Type ℓ
  IsUnique [] = Unit
  IsUnique ((k, v) ∷ d) = (lookup k d ≡ none) × IsUnique d

  IsUnique-put : (k : String) (v : V) (d : Dict V) → IsUnique d → IsUnique (put k v d)
  unfolding put lookup
  IsUnique-put k v [] u = (refl, tt)
  IsUnique-put k v ((j, w) ∷ d) u = elim (Bool-cases (j == k)) [
    | inl same ↦ rw same (rw (← (eq_iff j k).0 same) u)
    | inr other ↦
        rw other
          (ground (arith, lookup-put k j v d, eq_iff k j, eq_iff j k), IsUnique-put k v d u.1)
  ]

  IsUnique-insert_sorted :
      (k : String) (v : V) (d : Dict V)
      → lookup k d ≡ none
      → IsUnique d
      → IsUnique (insert_sorted k v d)
  unfolding insert_sorted lookup
  IsUnique-insert_sorted k v [] new u = (refl, tt)
  IsUnique-insert_sorted k v ((j, w) ∷ d) new u = elim (Bool-cases (name_lt k j)) [
    | inl before ↦ rw before (new, u)
    | inr after ↦ rw after (
      ground (arith, lookup-insert_sorted k j v d, eq_iff k j, eq_iff j k),
      IsUnique-insert_sorted k v d (ground arith) u.1,
    )
  ]

  pub IsUnique-write : (k : String) (v : V) (d : Dict V) → IsUnique d → IsUnique (write k v d)
  unfolding write
  IsUnique-write k v d u = elim (Option-cases (lookup k d)) [
    | inl new ↦ rw new (IsUnique-insert_sorted k v d new u)
    | inr (w, old) ↦ rw old (IsUnique-put k v d u)
  ]

  pub IsUnique-remove : (k : String) (d : Dict V) → IsUnique d → IsUnique (remove k d)
  unfolding remove
  IsUnique-remove k [] u = tt
  IsUnique-remove k ((j, w) ∷ d) u = elim (Bool-cases (j == k)) [
    | inl same ↦ rw same (IsUnique-remove k d u.1)
    | inr other ↦
        rw other
          (ground (arith, lookup-remove k j d, eq_iff k j, eq_iff j k), IsUnique-remove k d u.1)
  ]

  -- Each listed entry is the one that a read of its name finds.
  abbrev pub IsListed : Dict V → Dict V → Type ℓ
  IsListed d = All (λ entry. lookup entry.0 d ≡ some entry.1)

  IsListed-cons :
      (k : String) (v : V) (full part : Dict V)
      → lookup k full ≡ none
      → IsListed full part
      → IsListed ((k, v) ∷ full) part
  unfolding lookup
  IsListed-cons k v full [] new l = tt
  IsListed-cons k v full ((j, w) ∷ part) new l =
      (ground (arith, eq_iff k j), IsListed-cons k v full part new l.1)

  pub IsUnique-IsListed : (d : Dict V) → IsUnique d → IsListed d d
  unfolding lookup
  IsUnique-IsListed [] u = tt
  IsUnique-IsListed ((k, v) ∷ d) u =
      (rw (eq_refl k), IsListed-cons k v d d u.0 (IsUnique-IsListed d u.1))

  -- A write under another name leaves a listing right.
  pub IsListed-write :
      (k : String) (v : V) (full part : Dict V)
      → lookup k part ≡ none
      → IsListed full part
      → IsListed (write k v full) part
  unfolding lookup
  IsListed-write k v full [] new l = tt
  IsListed-write k v full ((j, w) ∷ part) new l = (
    ground (arith, lookup-write k j v full, eq_iff k j, eq_iff j k),
    IsListed-write k v full part (ground arith) l.1,
  )

pub ruleset directory_laws = (lookup-write, lookup-remove)
