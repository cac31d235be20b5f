-- ===== src/Usage/Save.antt =====
-- `UsageTrackerStorage::save`, and what makes it write. `write` says how an attempt goes, by its number
-- and what it has to store; `minimum` is the number of payments that is not worth a write.
pub mod Writes
use rita.Common.{
  ℕ, zero, suc, ◌+◌, ◌/◌, ◌≤◌, ◌<◌, ◌≡◌, refl, ◌↔◌, ◌⊎◌, inl, inr, Bool, true, false, ◌||◌, Option,
  none, some, List, [], ◌∷◌, arith, ltb, leb, if◌then◌else◌, Bool-cases,
}
use rita.Usage.{
  History, UsageTrackerPayment, UsageTrackerStorage, length, trim, add_u64, tracker_payment_eq,
  payment_index, max_tx_entries, max_unsaved_usage,
}

pub data Attempt : Type 0 where
  written out_of_space not_encoded : Attempt

pub data Saved : Type 0 where
  saved too_little failed : Saved

unfoldable pub unsaved_bytes : ℕ → History → ℕ → ℕ
unfolding add_u64
unsaved_bytes last_save_hour [] total = total
unsaved_bytes last_save_hour ((hour, usage) ∷ history) total =
    unsaved_bytes last_save_hour history
      (if ltb last_save_hour hour then add_u64 (add_u64 total usage.up) usage.down else total)

unfoldable pub check_unsaved_usage : UsageTrackerStorage → Bool
unfolding unsaved_bytes
check_unsaved_usage s = ltb max_unsaved_usage (
    unsaved_bytes s.last_save_hour s.exit_bandwidth (
      unsaved_bytes s.last_save_hour s.relay_bandwidth
        (unsaved_bytes s.last_save_hour s.client_bandwidth 0)))

unfoldable pub unsaved_payments : ℕ → List UsageTrackerPayment → ℕ
unsaved_payments last_save_hour [] = 0
unsaved_payments last_save_hour (p ∷ ps) =
    let rest = unsaved_payments last_save_hour ps in
    if ltb last_save_hour p.index then suc rest else rest

unfoldable pub check_unsaved_payments : ℕ → UsageTrackerStorage → Bool
unfolding unsaved_payments
check_unsaved_payments minimum s = ltb minimum (unsaved_payments s.last_save_hour s.payments)

unfoldable pub trim_payments : ℕ → UsageTrackerStorage → UsageTrackerStorage
trim_payments newsize s = record s {
  payments =
      trim payment_index tracker_payment_eq newsize
        (length payment_index tracker_payment_eq s.payments) s.payments;
}

module _ (write : ℕ → UsageTrackerStorage → Attempt) where
  -- For at most so many rounds: `none` where it has not ended by then.
  unfoldable pub save_loop : ℕ → ℕ → UsageTrackerStorage → Option (Saved × UsageTrackerStorage)
  unfolding trim_payments
  save_loop zero newsize s = none
  save_loop (suc rounds) newsize s = elim (write rounds s) [
    | written ↦ some (saved, s)
    | not_encoded ↦ some (failed, s)
    | out_of_space ↦ elim (leb 1000 newsize) [
      | true ↦ save_loop rounds (newsize / 2) (trim_payments (newsize / 2) s)
      | false ↦ some (failed, s)
    ]
  ]

  unfoldable pub save : ℕ → ℕ → UsageTrackerStorage → Option (Saved × UsageTrackerStorage)
  unfolding check_unsaved_payments check_unsaved_usage save_loop
  save rounds minimum s =
      if check_unsaved_payments minimum s || check_unsaved_usage s
      then some (too_little, s)
      else save_loop rounds max_tx_entries s
