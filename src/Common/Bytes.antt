-- ===== src/Common/Bytes.antt =====
-- Numbers as bytes, the most significant one first (`to_be_bytes` and `from_be_bytes`), and slices of
-- bytes. A byte is a number.
use Prim.Native.Nat.{ℕ, zero, suc, ◌+◌, ◌-◌, ◌*◌, ◌/◌, ◌%◌, ◌<◌}
use mathlib.Core.Path.{◌≡◌, refl}
use mathlib.Core.Option.{Option, none, some}
use mathlib.Core.List.{List, [], ◌∷◌, ◌++◌}
use native.Mathlib.Omega.{arith}
use rita.Common.Tests.{leb, if◌then◌else◌}
use rita.Common.Lists.{length, length-++, split_at, split_at-length}

unfoldable pub be_bytes : ℕ → ℕ → List ℕ
be_bytes zero x = []
be_bytes (suc k) x = be_bytes k (x / 256) ++ x % 256 ∷ []

unfoldable pub from_be_onto : ℕ → List ℕ → ℕ
from_be_onto a [] = a
from_be_onto a (x ∷ xs) = from_be_onto (a * 256 + x) xs

abbrev pub from_be : List ℕ → ℕ
from_be xs = from_be_onto 0 xs

-- How many numbers fit k bytes.
abbrev pub capacity : ℕ → ℕ
capacity zero = 1
capacity (suc k) = 256 * capacity k

-- `xs[a..b]`, `none` where that panics.
unfoldable pub slice : ℕ → ℕ → List ℕ → Option (List ℕ)
slice a b xs =
    if leb a b
    then elim (split_at a xs) [
      | none ↦ none
      | some (front, back) ↦ elim (split_at (b - a) back) [
        | none ↦ none
        | some (middle, rest) ↦ some middle
      ]
    ]
    else none

pub length-be_bytes : (k x : ℕ) → length (be_bytes k x) ≡ k
unfolding be_bytes
length-be_bytes zero x = refl
length-be_bytes (suc k) x =
    omega (arith, length-++ (be_bytes k (x / 256)) (x % 256 ∷ []), length-be_bytes k (x / 256))

from_be_onto-snoc :
    (a : ℕ) (xs : List ℕ) (x : ℕ) → from_be_onto a (xs ++ x ∷ []) ≡ from_be_onto a xs * 256 + x
unfolding from_be_onto
from_be_onto-snoc a [] x = refl
from_be_onto-snoc a (y ∷ xs) x = from_be_onto-snoc (a * 256 + y) xs x

pub from_be-be_bytes : (k x : ℕ) → x < capacity k → from_be (be_bytes k x) ≡ x
unfolding be_bytes from_be_onto
from_be-be_bytes zero x h = omega arith
from_be-be_bytes (suc k) x h = omega (
  arith,
  from_be_onto-snoc 0 (be_bytes k (x / 256)) (x % 256),
  from_be-be_bytes k (x / 256) (omega arith),
)

pub slice-middle :
    (a b : ℕ) (xs ys zs : List ℕ)
    → a ≡ length xs
    → b ≡ a + length ys
    → slice a b (xs ++ (ys ++ zs)) ≡ some ys
unfolding slice
slice-middle a b xs ys zs h k = ground (arith, split_at-length xs (ys ++ zs), split_at-length ys zs)
