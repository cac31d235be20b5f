-- ===== src/Oracle.antt =====
-- rita_common/src/blockchain_oracle/mod.rs: the balance and the last block that a node has told us.
-- What a node answers is a parameter, `none` where a request fails; the answers of Althea L1 are a
-- status of the chain and a balance, which is itself missing where the account is not known.
pub mod Progress
mod Tests
use rita.Common.{ℕ, ◌-◌, Bool, true, false, Option, none, some, ltb, if◌then◌else◌}
use rita.Types.{Identity, Denom, SystemChain, is_althea_l1}
use rita.Num256.{Num256}
use rita.Settings.{PaymentSettings, wei_denom}
use rita.Outcome.{Action, ok, panic}
use rita.DebtKeeper.Normalize.{normalize_payment_amount}
use rita.Validator.Althea.{ChainStatus, moving, syncing, waiting_to_start}

pub record BlockchainOracle : Type 0 where
  pub balance : Option ℕ
  pub last_seen_block : Option ℕ
  pub last_updated : Option ℕ

abbrev pub new_oracle : BlockchainOracle
new_oracle = record { balance = none; last_seen_block = none; last_updated = none }

-- Whether a block lies behind the last one seen.
unfoldable pub is_stale : ℕ → Option ℕ → Bool
is_stale latest_block none = false
is_stale latest_block (some last_seen_block) = ltb latest_block last_seen_block

unfoldable pub see_block : ℕ → ℕ → BlockchainOracle → BlockchainOracle
see_block now latest_block o = record o {
  last_seen_block = some latest_block;
  last_updated = some now;
}

unfoldable pub update_balance : Option ℕ → BlockchainOracle → BlockchainOracle
update_balance none o = o
update_balance (some new_balance) o = record o { balance = some new_balance }

unfoldable pub update_blockchain_info_gnosis :
    ℕ → Option ℕ → Option ℕ → BlockchainOracle → BlockchainOracle
unfolding is_stale see_block update_balance
update_blockchain_info_gnosis now none balance o = o
update_blockchain_info_gnosis now (some latest_block) balance o =
    if is_stale latest_block o.last_seen_block
    then o
    else update_balance balance (see_block now latest_block o)

module _ (n : Num256) where
  -- The balance in wei; the second `none` is a panic of the conversion.
  unfoldable pub update_balance_althea :
      Denom → Option (Option ℕ) → Action BlockchainOracle (Unit {0})
  unfolding update_balance
  update_balance_althea denom none o = (ok tt, o)
  update_balance_althea denom (some none) o = (ok tt, update_balance (some 0) o)
  update_balance_althea denom (some (some amount)) o =
      elim (normalize_payment_amount n amount denom wei_denom) [
        | none ↦ (panic, o)
        | some wei ↦ (ok tt, update_balance (some wei) o)
      ]

  unfoldable pub update_blockchain_info_althea :
      ℕ → Denom → Option ChainStatus → Option (Option ℕ) → Action BlockchainOracle (Unit {0})
  unfolding is_stale see_block update_balance_althea
  update_blockchain_info_althea now denom none balance o = (ok tt, o)
  update_blockchain_info_althea now denom (some (moving block_height)) balance o =
      if is_stale block_height o.last_seen_block
      then (ok tt, o)
      else update_balance_althea denom balance (see_block now block_height o)
  update_blockchain_info_althea now denom (some syncing) balance o = (ok tt, o)
  update_blockchain_info_althea now denom (some waiting_to_start) balance o = (ok tt, o)

-- What the nodes of either chain answer to one update.
pub record Answers : Type 0 where
  pub block_number : Option ℕ
  pub gnosis_balance : Option ℕ
  pub status : Option ChainStatus
  pub althea_balance : Option (Option ℕ)

module _ (n : Num256) (payment : PaymentSettings) (our_id : Option Identity)
    (althea_denom : Denom) where
  unfoldable pub update_oracle : ℕ → Answers → Action BlockchainOracle (Unit {0})
  unfolding update_blockchain_info_gnosis update_blockchain_info_althea
  update_oracle now answers o = elim payment.eth_address [
    | none ↦ (panic, o)
    | some our_address ↦ elim our_id [
      | none ↦ (panic, o)
      | some id ↦
          if is_althea_l1 payment.system_chain
          then update_blockchain_info_althea n now althea_denom answers.status
              answers.althea_balance o
          else (
            ok tt,
            update_blockchain_info_gnosis now answers.block_number answers.gnosis_balance o,
          )
    ]
  ]

abbrev pub outdated_time : ℕ
outdated_time = 300

abbrev is_outdated : ℕ → Option ℕ → Bool
is_outdated now none = true
is_outdated now (some time) = ltb outdated_time (now - time)

unfoldable pub potential_payment_issues_detected : ℕ → BlockchainOracle → Bool
potential_payment_issues_detected now o = is_outdated now o.last_updated

abbrev is_below : ℕ → Option ℕ → Bool
is_below level none = false
is_below level (some val) = ltb val level

unfoldable pub low_balance : PaymentSettings → BlockchainOracle → Bool
low_balance payment o = is_below payment.balance_warning_level o.balance
