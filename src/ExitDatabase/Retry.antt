-- ===== src/ExitDatabase/Retry.antt =====
-- The loops of rita_exit/src/database/in_memory_database.rs that ask for an address: how the answer
-- depends on the attempts.
use rita.Common.{
  ℕ, zero, suc, ◌+◌, ◌%◌, ◌<◌, ◌≡◌, Option, none, some, arith, ◌⊎◌, inl, inr, Option-cases,
}
use rita.Outcome.{ResultOf, ok}
use rita.ExitDatabase.{RitaExitError, retry}

-- The index that is asked after k rounds.
abbrev pub index_after : ℕ → ℕ → ℕ → ℕ
index_after zero total index = index
index_after (suc k) total index = index_after k total ((index + 1) % total)

module _ {A : Type 0} (total : ℕ) where
  -- An answer is that of one of the attempts.
  pub retry-attempt :
      (rounds : ℕ) (attempt : ℕ → Option (ResultOf RitaExitError A)) (index : ℕ) (a : A)
      → retry rounds total attempt index ≡ ok a
      → (k : ℕ) × (k < rounds) × (attempt (index_after k total index) ≡ some (ok a))
  unfolding retry
  retry-attempt zero attempt index a e = ground (arith, e)
  retry-attempt (suc rounds) attempt index a e = elim (Option-cases (attempt index)) [
    | inl h ↦
        let (k, l, f) =
          retry-attempt rounds attempt ((index + 1) % total) a (ground (arith, e, h)) in
        (suc k, ground arith, f)
    | inr (r, h) ↦ (0, ground arith, ground (arith, e, h))
  ]

  -- The answer stays where the attempts that went on do so again, and the one that answered answers
  -- the same.
  pub retry-same :
      (f g : ℕ → Option (ResultOf RitaExitError A)) (a : A)
      → ((i : ℕ) → f i ≡ none → g i ≡ none)
      → ((i : ℕ) → f i ≡ some (ok a) → g i ≡ some (ok a))
      → (rounds index : ℕ) → retry rounds total f index ≡ ok a
      → retry rounds total g index ≡ ok a
  unfolding retry
  retry-same f g a goes answers zero index e = ground (arith, e)
  retry-same f g a goes answers (suc rounds) index e = elim (Option-cases (f index)) [
    | inl h ↦ ground (
      arith,
      goes index h,
      retry-same f g a goes answers rounds ((index + 1) % total) (ground (arith, e, h)),
    )
    | inr (r, h) ↦ ground (arith, answers index (ground (arith, e, h)))
  ]

  -- The loop finds an answer where one of its attempts has one and none fails.
  pub retry-finds :
      (rounds k : ℕ) (attempt : ℕ → Option (ResultOf RitaExitError A)) (index : ℕ) (a : A)
      → ((i : ℕ) → (attempt i ≡ none) ⊎ ((b : A) × (attempt i ≡ some (ok b))))
      → k < rounds
      → attempt (index_after k total index) ≡ some (ok a)
      → (b : A) × (retry rounds total attempt index ≡ ok b)
  unfolding retry
  retry-finds zero k attempt index a sound l e = elim l [ ]
  retry-finds (suc rounds) zero attempt index a sound l e = (a, ground (arith, e))
  retry-finds (suc rounds) (suc k) attempt index a sound l e = elim (sound index) [
    | inl h ↦
        let (b, r) = retry-finds rounds k attempt ((index + 1) % total) a sound (ground arith) e in
        (b, ground (arith, h, r))
    | inr (b, h) ↦ (b, ground (arith, h))
  ]
