-- ===== src/Common/Lists.antt =====
-- The length of a list over the native numbers, and the parts of a list by position.
use Prim.Native.Nat.{ℕ, zero, suc, ◌+◌}
use mathlib.Core.Path.{◌≡◌, refl, ap}
use mathlib.Core.Bool.{Bool}
use mathlib.Core.Option.{Option, none, some}
use mathlib.Core.List.{List, [], ◌∷◌, ◌++◌}
use rita.Common.Tests.{Option-cases, if◌then◌else◌}
use mathlib.Core.Logic.{inl, inr}
use native.Mathlib.Omega.{arith}

module _ {ℓ} {A : Type ℓ} where
  abbrev pub length : List A → ℕ
  length [] = 0
  length (x ∷ xs) = suc (length xs)

  -- The first n items, and the others: `none` where the list is too short.
  unfoldable pub split_at : ℕ → List A → Option (List A × List A)
  split_at zero xs = some ([], xs)
  split_at (suc n) [] = none
  split_at (suc n) (x ∷ xs) = elim (split_at n xs) [
    | none ↦ none
    | some (front, back) ↦ some (x ∷ front, back)
  ]

  unfoldable pub filter : (A → Bool) → List A → List A
  filter p [] = []
  filter p (x ∷ xs) = let rest = filter p xs in if p x then x ∷ rest else rest

  pub length-++ : (xs ys : List A) → length (xs ++ ys) ≡ length xs + length ys
  length-++ [] ys = omega arith
  length-++ (x ∷ xs) ys = ground (arith, length-++ xs ys)

  pub ++_assoc : (xs ys zs : List A) → (xs ++ ys) ++ zs ≡ xs ++ (ys ++ zs)
  ++_assoc [] ys zs = refl
  ++_assoc (x ∷ xs) ys zs = ground (arith, ++_assoc xs ys zs)

  pub split_at-length : (xs ys : List A) → split_at (length xs) (xs ++ ys) ≡ some (xs, ys)
  unfolding split_at
  split_at-length [] ys = refl
  split_at-length (x ∷ xs) ys = ground (arith, split_at-length xs ys)

  pub ++_nil : (xs : List A) → xs ++ [] ≡ xs
  ++_nil [] = refl
  ++_nil (x ∷ xs) = ap (λ ys. x ∷ ys) (++_nil xs)

  pub split_at-++ :
      (n : ℕ) (xs front back : List A) → split_at n xs ≡ some (front, back) → xs ≡ front ++ back
  unfolding split_at
  split_at-++ zero xs front back e = ground (arith, e)
  split_at-++ (suc n) [] front back e = ground arith
  split_at-++ (suc n) (x ∷ xs) front back e = elim (Option-cases (split_at n xs)) [
    | inl h ↦ ground (arith, e, h)
    | inr ((f, b), h) ↦ ground (arith, e, h, split_at-++ n xs f b h)
  ]
