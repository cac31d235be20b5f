-- ===== src/Usage/Save/Writes.antt =====
-- When the usage is written, and for how many attempts a full disk keeps the loop going.
use rita.Common.{
  ℕ, zero, suc, ◌*◌, ◌^◌, ◌/◌, ◌≤◌, ◌<◌, ◌≡◌, refl, ◌↔◌, inl, inr, Bool, true, false, Option, none,
  some, arith, Option-cases,
}
use rita.Usage.{UsageTrackerStorage, max_tx_entries}
use rita.Usage.Save.{
  Attempt, written, out_of_space, not_encoded, Saved, saved, unsaved_payments, check_unsaved_usage,
  check_unsaved_payments, trim_payments, save_loop, save,
}

abbrev has_ended : Option (Saved × UsageTrackerStorage) → Bool
has_ended none = false
has_ended (some _) = true

half : (a b : ℕ) → a < b * 2 → a / 2 < b
half a b h = omega arith

module _ (write : ℕ → UsageTrackerStorage → Attempt) where
  loop-step :
      (rounds newsize : ℕ) (s : UsageTrackerStorage) (attempt : Attempt)
      → write rounds s ≡ attempt
      → (1000 ≤ newsize
          → has_ended (save_loop write rounds (newsize / 2) (trim_payments (newsize / 2) s)) ≡ true)
      → has_ended (save_loop write (suc rounds) newsize s) ≡ true
  unfolding save_loop
  loop-step rounds newsize s written e next = ground arith
  loop-step rounds newsize s not_encoded e next = ground arith
  loop-step rounds newsize s out_of_space e next = ground arith

  loop-ends :
      (rounds newsize : ℕ) (s : UsageTrackerStorage)
      → newsize < 1000 * 2 ^ rounds
      → has_ended (save_loop write (suc rounds) newsize s) ≡ true
  loop-ends zero newsize s small = loop-step zero newsize s (write zero s) refl (λ h. ground arith)
  loop-ends (suc rounds) newsize s small =
      loop-step (suc rounds) newsize s (write (suc rounds) s) refl (λ h.
        loop-ends rounds (newsize / 2) (trim_payments (newsize / 2) s)
          (grind (arith, half newsize (1000 * 2 ^ rounds))))

  -- However the writes go, four attempts are enough, at 5000, 2500, 1250 and 625 payments: after the
  -- fourth the call has returned.
  pub save_ends :
      (minimum : ℕ) (s : UsageTrackerStorage)
      → (r : Saved) × (s' : UsageTrackerStorage) × (save write 4 minimum s ≡ some (r, s'))
  unfolding save
  save_ends minimum s = elim (Option-cases (save write 4 minimum s)) [
    | inl stuck ↦ ground (arith, loop-ends 3 max_tx_entries s)
    | inr (result, found) ↦ (result.0, result.1, found)
  ]

  -- With a disk that takes every write, the usage is written exactly when at most the minimum of
  -- payments and at most 10 GB are unsaved.
  pub save_inverted :
      (rounds minimum : ℕ) (s : UsageTrackerStorage)
      → ((attempt : ℕ) (s' : UsageTrackerStorage) → write attempt s' ≡ written)
      → (save write (suc rounds) minimum s ≡ some (saved, s)) ↔ (
          (unsaved_payments s.last_save_hour s.payments ≤ minimum)
          × (check_unsaved_usage s ≡ false))
  unfolding save save_loop check_unsaved_payments
  save_inverted rounds minimum s fine =
      (ground (arith, fine rounds s), ground (arith, fine rounds s))
