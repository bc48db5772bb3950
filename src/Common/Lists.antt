-- ===== src/Common/Lists.antt =====
-- Lists over the native numbers, and the Boolean searches that the code makes.
use Prim.Native.Nat.{ℕ, zero, suc, ◌+◌}
use mathlib.Core.Path.{◌≡◌, refl, ap}
use mathlib.Core.Logic.{◌⊎◌, inl, inr}
use mathlib.Core.Bool.{Bool, true, false, ◌&&◌, ◌||◌}
use mathlib.Core.List.{List, [], ◌∷◌, ◌++◌}
use native.Mathlib.Omega.{arith}
use governed_ai_dev_team_fra.Common.Tests.{Eq, ◌==◌, if◌then◌else◌, Bool-cases, &&-both}

module _ {ℓ} {A : Type ℓ} where
  abbrev pub length : List A → ℕ
  length [] = 0
  length (x ∷ xs) = suc (length xs)

  pub length-append : (xs ys : List A) → length (xs ++ ys) ≡ length xs + length ys
  length-append [] ys = omega arith
  length-append (x ∷ xs) ys = omega (arith, length-append xs ys)

  abbrev pub is_nil : List A → Bool
  is_nil [] = true
  is_nil (x ∷ xs) = false

  abbrev pub all : (A → Bool) → List A → Bool
  all p [] = true
  all p (x ∷ xs) = p x && all p xs

  abbrev pub any : (A → Bool) → List A → Bool
  any p [] = false
  any p (x ∷ xs) = p x || any p xs

  -- A comprehension `[x for x in xs if p(x)]`.
  abbrev pub select : (A → Bool) → List A → List A
  select p [] = []
  select p (x ∷ xs) = let rest = select p xs in if p x then x ∷ rest else rest

  -- A predicate by recursion: it computes to a tuple, which the tactics read.
  abbrev pub All {κ} : (A → Type κ) → List A → Type κ
  All P [] = Unit
  All P (x ∷ xs) = P x × All P xs

  pub All-append {κ} : (P : A → Type κ) (xs ys : List A) → All P xs → All P ys → All P (xs ++ ys)
  All-append P [] ys hx hy = hy
  All-append P (x ∷ xs) ys (here, rest) hy = (here, All-append P xs ys rest hy)

  pub All-left {κ} : (P : A → Type κ) (xs ys : List A) → All P (xs ++ ys) → All P xs
  All-left P [] ys h = tt
  All-left P (x ∷ xs) ys h = (h.0, All-left P xs ys h.1)

  pub All-right {κ} : (P : A → Type κ) (xs ys : List A) → All P (xs ++ ys) → All P ys
  All-right P [] ys h = h
  All-right P (x ∷ xs) ys h = All-right P xs ys h.1

  abbrev pub take : ℕ → List A → List A
  take zero xs = []
  take (suc n) [] = []
  take (suc n) (x ∷ xs) = x ∷ take n xs

  pub All-take {κ} : (P : A → Type κ) (n : ℕ) (xs : List A) → All P xs → All P (take n xs)
  All-take P zero xs h = tt
  All-take P (suc n) [] h = tt
  All-take P (suc n) (x ∷ xs) h = (h.0, All-take P n xs h.1)

  -- A prefix of `xs ++ ys` ends in `xs` or in `ys`.
  pub take-append :
      (n : ℕ) (xs ys : List A)
      → ((m : ℕ) × (take n (xs ++ ys) ≡ take m xs))
        ⊎ ((m : ℕ) × (take n (xs ++ ys) ≡ xs ++ take m ys))
  take-append n [] ys = inr (n, refl)
  take-append zero (x ∷ xs) ys = inl (0, refl)
  take-append (suc n) (x ∷ xs) ys = elim (take-append n xs ys) [
    | inl (m, e) ↦ inl (suc m, ap (λ l. x ∷ l) e)
    | inr (m, e) ↦ inr (m, ap (λ l. x ∷ l) e)
  ]

module _ {ℓ} {A : Type ℓ} ⦃e : Eq A⦄ where
  -- `x in xs`
  abbrev pub elem : A → List A → Bool
  elem x [] = false
  elem x (y ∷ ys) = x == y || elem x ys

  -- What a test says of every element, it says of a member.
  pub all-elem :
      (p : A → Bool) (x : A) (xs : List A) → all p xs ≡ true → elem x xs ≡ true → p x ≡ true
  all-elem p x [] h m = cc
  all-elem p x (y ∷ ys) h m = elim (Bool-cases (x == y)) [
    | inl here ↦ let same : x ≡ y = (e.beq_iff x y).0 here in rw same (&&-both (p y) (all p ys) h).0
    | inr there ↦ all-elem p x ys (&&-both (p y) (all p ys) h).1 (ground arith)
  ]

  pub any-elem :
      (p : A → Bool) (x : A) (xs : List A) → any p xs ≡ false → elem x xs ≡ true → p x ≡ false
  any-elem p x [] h m = cc
  any-elem p x (y ∷ ys) h m = elim (Bool-cases (x == y)) [
    | inl here ↦ let same : x ≡ y = (e.beq_iff x y).0 here in rw same (ground arith)
    | inr there ↦ any-elem p x ys (ground arith) (ground arith)
  ]

  pub elem_self : (x : A) (xs : List A) → elem x (x ∷ xs) ≡ true
  elem_self x xs = rw ((e.beq_iff x x).1 refl)
