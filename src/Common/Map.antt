-- ===== src/Common/Map.antt =====
-- HashMap as an association list. The order of the list stands for the order of iteration, which
-- the program does not fix: what is proved of every list holds for every order.
use Prim.Native.Nat.{ℕ}
use mathlib.Core.Path.{◌≡◌, refl}
use mathlib.Core.Bool.{Bool, true, false}
use mathlib.Core.Option.{Option, none, some}
use mathlib.Core.List.{List, [], ◌∷◌}
use native.Mathlib.Omega.{arith}
use mathlib.Core.List.{◌++◌}
use rita.Common.Tests.{◌==◌, if◌then◌else◌}

-- The equality by which a key is looked up. It need not be the identity of the keys: it is an
-- equivalence under which equal keys are interchangeable.
pub record Key {ℓ} (K : Type ℓ) : Type ℓ where
  pub eqb : K → K → Bool
  pub eqb_refl : (a : K) → eqb a a ≡ true
  pub eqb_congr : (a b c : K) → eqb a b ≡ true → eqb a c ≡ eqb b c
  pub eqb_comm : (a b : K) → eqb a b ≡ eqb b a

pub nat_eq_refl : (a : ℕ) → (a == a) ≡ true
nat_eq_refl a = ground arith

pub nat_eq_congr : (a b c : ℕ) → (a == b) ≡ true → (a == c) ≡ (b == c)
nat_eq_congr a b c h = ground arith

pub nat_eq_comm : (a b : ℕ) → (a == b) ≡ (b == a)
nat_eq_comm a b = ground arith

-- A number as a key.
abbrev pub nat_key : Key ℕ
nat_key = record {
  eqb = λ a b. a == b;
  eqb_refl = nat_eq_refl;
  eqb_congr = nat_eq_congr;
  eqb_comm = nat_eq_comm;
}

module _ {ℓ κ} {K : Type ℓ} {V : Type κ} (key : Key K) where
  unfoldable pub lookup : K → List (K × V) → Option V
  lookup k [] = none
  lookup k ((j, v) ∷ m) = if key.eqb j k then some v else lookup k m

  -- `insert` keeps the key that is there, as HashMap does.
  unfoldable pub insert : K → V → List (K × V) → List (K × V)
  insert k v [] = (k, v) ∷ []
  insert k v ((j, w) ∷ m) = if key.eqb j k then (j, v) ∷ m else (j, w) ∷ insert k v m

  pub lookup-insert :
      (k j : K) (v : V) (m : List (K × V))
      → lookup j (insert k v m) ≡ (if key.eqb k j then some v else lookup j m)
  unfolding lookup insert
  lookup-insert k j v [] = refl
  lookup-insert k j v ((i, w) ∷ m) = ground (
    arith,
    key.eqb_congr i k j,
    key.eqb_comm i k,
    key.eqb_congr k j i,
    key.eqb_comm i j,
    lookup-insert k j v m,
  )

  pub lookup-insert_self : (k : K) (v : V) (m : List (K × V)) → lookup k (insert k v m) ≡ some v
  lookup-insert_self k v m = rw (lookup-insert k k v m, key.eqb_refl k)

  pub lookup-insert_ne :
      (k j : K) (v : V) (m : List (K × V))
      → key.eqb k j ≡ false
      → lookup j (insert k v m) ≡ lookup j m
  lookup-insert_ne k j v m h = rw (lookup-insert k j v m, h)

  -- Equal keys find the same value.
  pub lookup-congr : (k j : K) (m : List (K × V)) → key.eqb k j ≡ true → lookup k m ≡ lookup j m
  unfolding lookup
  lookup-congr k j [] h = refl
  lookup-congr k j ((i, w) ∷ m) h =
      ground
        (arith, lookup-congr k j m h, key.eqb_congr k j i h, key.eqb_comm i k, key.eqb_comm i j)

  pub lookup-cons :
      (k j : K) (v : V) (m : List (K × V))
      → lookup k ((j, v) ∷ m) ≡ (if key.eqb j k then some v else lookup k m)
  unfolding lookup
  lookup-cons k j v m = refl

  pub lookup-nil : (k : K) → lookup k [] ≡ none
  unfolding lookup
  lookup-nil k = refl

  -- In `done ++ (k, v) ∷ m`, where `done` does not have the key `k`.
  pub lookup-middle :
      (k : K) (v : V) (done m : List (K × V))
      → lookup k done ≡ none
      → lookup k (done ++ (k, v) ∷ m) ≡ some v
  unfolding lookup
  lookup-middle k v [] m h = ground (arith, key.eqb_refl k)
  lookup-middle k v ((j, w) ∷ done) m h = ground (arith, lookup-middle k v done m)

  pub insert-middle :
      (k : K) (v w : V) (done m : List (K × V))
      → lookup k done ≡ none
      → insert k w (done ++ (k, v) ∷ m) ≡ done ++ (k, w) ∷ m
  unfolding lookup insert
  insert-middle k v w [] m h = ground (arith, key.eqb_refl k)
  insert-middle k v w ((j, x) ∷ done) m h = ground (arith, insert-middle k v w done m)

  pub lookup-snoc_none :
      (j k : K) (v : V) (done : List (K × V))
      → lookup j done ≡ none
      → key.eqb k j ≡ false
      → lookup j (done ++ (k, v) ∷ []) ≡ none
  unfolding lookup
  lookup-snoc_none j k v [] h e = ground arith
  lookup-snoc_none j k v ((i, w) ∷ done) h e = ground (arith, lookup-snoc_none j k v done)
