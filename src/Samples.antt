-- ===== src/Samples.antt =====
-- Two nodes, our own identity, and payment settings, for the examples.
use rita.Common.{true, false, none, some, []}
use rita.Common.Int.{pos}
use rita.Types.{Identity, v6, xdai}
use rita.Settings.{PaymentSettings}

abbrev pub alice : Identity
alice = record { mesh_ip = v6 1; eth_address = 11; wg_public_key = 21; nickname = none }

abbrev pub bob : Identity
bob = record { mesh_ip = v6 2; eth_address = 12; wg_public_key = 22; nickname = none }

abbrev pub us : Identity
us = record { mesh_ip = v6 9; eth_address = 19; wg_public_key = 29; nickname = none }

abbrev pub settings : PaymentSettings
settings = record {
  balance_warning_level = 10;
  payment_threshold = pos 100;
  enable_enforcement = true;
  eth_address = some 19;
  althea_l1_accepted_denoms = [];
  system_chain = xdai;
  apply_incoming_credit_immediately = false;
  debt_limit_enabled = true;
  simulated_transaction_fee = 10;
  forgive_on_reboot = true;
}
