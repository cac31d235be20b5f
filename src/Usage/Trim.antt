-- ===== src/Usage/Trim.antt =====
-- The loop that drops the oldest entries: its bound, and what it drops.
use rita.Common.{
  ℕ, zero, suc, ◌+◌, ◌≤◌, ◌<◌, ◌≡◌, refl, Bool, true, none, some, List, [], ◌∷◌, arith, leb,
  Option-cases, inl, inr,
}
use rita.Validator.State.{member, remove_item}
use rita.Validator.State.Consistent.{one_if}
use rita.Usage.{length, min_by, remove_oldest, trim}

-- How many entries are of index `k` or later.
module _ {A : Type 0} (index : A → ℕ) where
  unfoldable pub newer : ℕ → List A → ℕ
  newer k [] = 0
  newer k (x ∷ xs) = one_if (leb k (index x)) + newer k xs

module _ {A : Type 0} (index : A → ℕ) (eqb : A → A → Bool) (eqb_refl : (x : A) → eqb x x ≡ true)
    (alike : (x y : A) → eqb x y ≡ true → index x ≡ index y) where
  newer-length : (xs : List A) → newer index 0 xs ≡ length index eqb xs
  unfolding newer
  newer-length [] = refl
  newer-length (x ∷ xs) = ground (arith, newer-length xs)

  min_by-none : (xs : List A) → min_by index eqb xs ≡ none → xs ≡ []
  unfolding min_by
  min_by-none [] e = refl
  min_by-none (x ∷ xs) e = elim (Option-cases (min_by index eqb xs)) [
    | inl none_left ↦ ground arith
    | inr (m, found) ↦ ground arith
  ]

  newer-min_by :
      (k : ℕ) (m : A) (xs : List A)
      → min_by index eqb xs ≡ some m
      → k ≤ index m
      → newer index k xs ≡ length index eqb xs
  unfolding min_by newer
  newer-min_by k m [] e h = ground arith
  newer-min_by k m (x ∷ xs) e h = elim (Option-cases (min_by index eqb xs)) [
    | inl none_left ↦ ground (arith, min_by-none xs none_left, newer-length xs)
    | inr (m', found) ↦ ground (arith, newer-min_by k m' xs found)
  ]

  min_by-member : (m : A) (xs : List A) → min_by index eqb xs ≡ some m → member eqb m xs ≡ true
  unfolding min_by member
  min_by-member m [] e = ground arith
  min_by-member m (x ∷ xs) e = elim (Option-cases (min_by index eqb xs)) [
    | inl none_left ↦ ground (arith, eqb_refl x)
    | inr (m', found) ↦ ground (arith, eqb_refl x, min_by-member m' xs found)
  ]

  newer-remove_item :
      (k : ℕ) (m : A) (xs : List A)
      → member eqb m xs ≡ true
      → one_if (leb k (index m)) + newer index k (remove_item eqb m xs) ≡ newer index k xs
  unfolding member remove_item newer
  newer-remove_item k m [] h = ground arith
  newer-remove_item k m (x ∷ xs) h = ground (arith, newer-remove_item k m xs, alike x m)

  remove_oldest-newer :
      (k : ℕ) (xs : List A)
      → newer index k xs < length index eqb xs
      → newer index k (remove_oldest index eqb xs) ≡ newer index k xs
  unfolding remove_oldest
  remove_oldest-newer k xs short = elim (Option-cases (min_by index eqb xs)) [
    | inl none_left ↦ ground arith
    | inr (m, found) ↦
        ground
          (arith, newer-min_by k m xs found, newer-remove_item k m xs (min_by-member m xs found))
  ]

  remove_oldest-length :
      (xs : List A)
      → 0 < length index eqb xs
      → suc (newer index 0 (remove_oldest index eqb xs)) ≡ newer index 0 xs
  unfolding remove_oldest
  remove_oldest-length xs some_left = elim (Option-cases (min_by index eqb xs)) [
    | inl none_left ↦ ground (arith, min_by-none xs none_left)
    | inr (m, found) ↦ ground (arith, newer-remove_item 0 m xs (min_by-member m xs found))
  ]

  pub trim-fits :
      (max rounds : ℕ) (xs : List A)
      → length index eqb xs ≤ max + rounds
      → length index eqb (trim index eqb max rounds xs) ≤ max
  unfolding trim
  trim-fits max zero xs enough = omega arith
  trim-fits max (suc rounds) xs enough = ground (
    arith,
    trim-fits max rounds (remove_oldest index eqb xs),
    newer-length xs,
    newer-length (remove_oldest index eqb xs),
    remove_oldest-length xs,
  )

  pub trim-newer :
      (k max rounds : ℕ) (xs : List A)
      → newer index k xs ≤ max
      → newer index k (trim index eqb max rounds xs) ≡ newer index k xs
  unfolding trim
  trim-newer k max zero xs few = refl
  trim-newer k max (suc rounds) xs few =
      ground (arith, trim-newer k max rounds (remove_oldest index eqb xs), remove_oldest-newer k xs)

  pub trim_few :
      (max rounds : ℕ) (xs : List A) → length index eqb xs ≤ max → trim index eqb max rounds xs ≡ xs
  unfolding trim
  trim_few max zero xs few = refl
  trim_few max (suc rounds) xs few = ground arith
