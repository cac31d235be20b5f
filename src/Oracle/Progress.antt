-- ===== src/Oracle/Progress.antt =====
-- The last block seen over runs of updates, and the time of the alarm.
use rita.Common.{
  ℕ, ◌+◌, ◌≤◌, ◌<◌, ◌≡◌, refl, ◌↔◌, inl, inr, true, false, Option, none, some, List, [], ◌∷◌, arith,
  Option-cases, Bool-cases,
}
use rita.Types.{Identity, Denom, is_althea_l1}
use rita.Num256.{Num256}
use rita.Settings.{PaymentSettings}
use rita.Validator.Althea.{ChainStatus, moving, syncing, waiting_to_start}
use rita.Oracle.{
  BlockchainOracle, Answers, is_stale, see_block, update_balance, update_blockchain_info_gnosis,
  update_balance_althea, update_blockchain_info_althea, update_oracle,
  potential_payment_issues_detected,
}

-- The first block is not past the second; an oracle that has seen none is before all.
abbrev pub NotPast : Option ℕ → Option ℕ → Type 0
NotPast none b = Unit
NotPast (some a) none = ⊥
NotPast (some a) (some b) = a ≤ b

NotPast-refl : (a : Option ℕ) → NotPast a a
NotPast-refl none = tt
NotPast-refl (some a) = omega arith

NotPast-trans : (a b c : Option ℕ) → NotPast a b → NotPast b c → NotPast a c
NotPast-trans none b c h k = tt
NotPast-trans (some a) none c h k = elim h [ ]
NotPast-trans (some a) (some b) none h k = k
NotPast-trans (some a) (some b) (some c) h k = omega arith

stale-NotPast :
    (latest : ℕ) (seen : Option ℕ) → is_stale latest seen ≡ false → NotPast seen (some latest)
unfolding is_stale
stale-NotPast latest none h = tt
stale-NotPast latest (some seen) h = ground arith

update_balance-block :
    (balance : Option ℕ) (o : BlockchainOracle)
    → (update_balance balance o).last_seen_block ≡ o.last_seen_block
unfolding update_balance
update_balance-block none o = refl
update_balance-block (some b) o = refl

gnosis-NotPast :
    (now : ℕ) (block balance : Option ℕ) (o : BlockchainOracle)
    → NotPast o.last_seen_block (update_blockchain_info_gnosis now block balance o).last_seen_block
unfolding update_blockchain_info_gnosis see_block
gnosis-NotPast now none balance o = NotPast-refl o.last_seen_block
gnosis-NotPast now (some latest) balance o = elim (Bool-cases (is_stale latest o.last_seen_block)) [
  | inl stale ↦ rw (update_blockchain_info_gnosis, stale) (NotPast-refl o.last_seen_block)
  | inr fresh ↦
      rw
        (
          update_blockchain_info_gnosis,
          fresh,
          update_balance-block balance (see_block now latest o),
        )
        (stale-NotPast latest o.last_seen_block fresh)
]

module _ (n : Num256) where
  balance_althea-block :
      (denom : Denom) (balance : Option (Option ℕ)) (o : BlockchainOracle)
      → (update_balance_althea n denom balance o).1.last_seen_block ≡ o.last_seen_block
  unfolding update_balance_althea update_balance
  balance_althea-block denom none o = refl
  balance_althea-block denom (some none) o = refl
  balance_althea-block denom (some (some amount)) o = ground arith

  althea-NotPast :
      (now : ℕ) (denom : Denom) (status : Option ChainStatus) (balance : Option (Option ℕ))
      (o : BlockchainOracle)
      → NotPast o.last_seen_block
          (update_blockchain_info_althea n now denom status balance o).1.last_seen_block
  unfolding update_blockchain_info_althea see_block
  althea-NotPast now denom none balance o = NotPast-refl o.last_seen_block
  althea-NotPast now denom (some syncing) balance o = NotPast-refl o.last_seen_block
  althea-NotPast now denom (some waiting_to_start) balance o = NotPast-refl o.last_seen_block
  althea-NotPast now denom (some (moving height)) balance o =
      elim (Bool-cases (is_stale height o.last_seen_block)) [
        | inl stale ↦ rw (update_blockchain_info_althea, stale) (NotPast-refl o.last_seen_block)
        | inr fresh ↦
            rw
              (
                update_blockchain_info_althea,
                fresh,
                balance_althea-block denom balance (see_block now height o),
              )
              (stale-NotPast height o.last_seen_block fresh)
      ]

module _ (n : Num256) (payment : PaymentSettings) (our_id : Option Identity)
    (althea_denom : Denom) where
  -- Each answer with the time at which it came.
  abbrev pub updates : List (ℕ × Answers) → BlockchainOracle → BlockchainOracle
  updates [] o = o
  updates ((now, answers) ∷ rest) o =
      updates rest (update_oracle n payment our_id althea_denom now answers o).1

  update-NotPast :
      (now : ℕ) (answers : Answers) (o : BlockchainOracle)
      → NotPast o.last_seen_block
          (update_oracle n payment our_id althea_denom now answers o).1.last_seen_block
  unfolding update_oracle
  update-NotPast now answers o = elim (Option-cases payment.eth_address) [
    | inl missing ↦ rw (update_oracle, missing) (NotPast-refl o.last_seen_block)
    | inr (our, known) ↦ elim (Option-cases our_id) [
      | inl missing ↦ rw (update_oracle, known, missing) (NotPast-refl o.last_seen_block)
      | inr (id, found) ↦ elim (Bool-cases (is_althea_l1 payment.system_chain)) [
        | inl althea ↦
            rw (update_oracle, known, found, althea)
              (althea-NotPast n now althea_denom answers.status answers.althea_balance o)
        | inr gnosis ↦
            rw (update_oracle, known, found, gnosis)
              (gnosis-NotPast now answers.block_number answers.gnosis_balance o)
      ]
    ]
  ]

  -- Over any run of updates, on either chain and whatever the nodes answer, the last block seen never
  -- goes back.
  pub updates_never_back :
      (run : List (ℕ × Answers)) (o : BlockchainOracle)
      → NotPast o.last_seen_block (updates run o).last_seen_block
  updates_never_back [] o = NotPast-refl o.last_seen_block
  updates_never_back ((now, answers) ∷ rest) o =
      let next = (update_oracle n payment our_id althea_denom now answers o).1 in
      NotPast-trans o.last_seen_block next.last_seen_block (updates rest next).last_seen_block
        (update-NotPast now answers o) (updates_never_back rest next)

update_balance-updated :
    (balance : Option ℕ) (o : BlockchainOracle)
    → (update_balance balance o).last_updated ≡ o.last_updated
unfolding update_balance
update_balance-updated none o = refl
update_balance-updated (some b) o = refl

-- After an xDai update at `now` that brought a block not behind the last one, the alarm is on at
-- `later` exactly when more than 300 seconds have passed, whether or not the balance came too.
pub alarm_after_update :
    (now later latest : ℕ) (balance : Option ℕ) (o : BlockchainOracle)
    → is_stale latest o.last_seen_block ≡ false
    → (potential_payment_issues_detected later
          (update_blockchain_info_gnosis now (some latest) balance o)
        ≡ true)
      ↔ (now + 300 < later)
unfolding potential_payment_issues_detected update_blockchain_info_gnosis see_block
alarm_after_update now later latest balance o fresh =
    rw
      (
        update_blockchain_info_gnosis,
        fresh,
        update_balance-updated balance (see_block now latest o),
      )
      (ground arith, ground arith)
