-- ===== src/Settings.antt =====
-- settings/src/payment.rs and settings/src/lib.rs: the payment settings that the billing code reads.
use rita.Common.{ℕ, String, Bool, List, Option}
use rita.Common.Int.{ℤ}
use rita.Types.{Denom, SystemChain}

pub record PaymentSettings : Type 0 where
  pub balance_warning_level : ℕ
  pub payment_threshold : ℤ
  pub enable_enforcement : Bool
  pub eth_address : Option ℕ
  pub althea_l1_accepted_denoms : List Denom
  pub system_chain : SystemChain
  pub apply_incoming_credit_immediately : Bool
  pub debt_limit_enabled : Bool
  pub simulated_transaction_fee : ℕ
  pub forgive_on_reboot : Bool

abbrev pub debt_keeper_denom : String
debt_keeper_denom = "wei"

abbrev pub debt_keeper_denom_decimal : ℕ
debt_keeper_denom_decimal = 1_000_000_000_000_000_000

abbrev pub wei_denom : Denom
wei_denom = record { denom = debt_keeper_denom; decimal = debt_keeper_denom_decimal }
