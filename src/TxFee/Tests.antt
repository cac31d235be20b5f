-- ===== src/TxFee/Tests.antt =====
-- The fee's theorems at concrete amounts.
use rita.Common.{ℕ, ◌≡◌, refl, true, none, some, [], ◌∷◌, arith, false}
use rita.Common.Int.{pos}
use rita.Types.{Identity, v6, xdai}
use rita.Settings.{PaymentSettings}
use rita.Num256.{uint256_limit, int256_limit}
use rita.Num256.Checked.{checked}
use rita.Outcome.{ok}
use rita.TxFee.{Chain, tick_simulated_tx}
use rita.TxFee.Owed.{tick_simulated_tx_pays}

abbrev node : ℕ → Identity
node k = record { mesh_ip = v6 k; eth_address = k; wg_public_key = k; nickname = none }

abbrev settings : ℕ → PaymentSettings
settings fee = record {
  balance_warning_level = 10;
  payment_threshold = pos 100;
  enable_enforcement = true;
  eth_address = some 19;
  althea_l1_accepted_denoms = [];
  system_chain = xdai;
  apply_incoming_credit_immediately = false;
  debt_limit_enabled = true;
  simulated_transaction_fee = fee;
  forgive_on_reboot = true;
}

abbrev chain : Chain
chain = record {
  has_key = true;
  our_id = some (node 1);
  txfee_identity = node 7;
  prepared = true;
  sent = some 99;
}

tick_simulated_tx_pays_example :
    tick_simulated_tx checked (settings 10) chain (500 ∷ 47 ∷ []) 150
    ≡ (ok (some (record { to = node 7; from = node 1; amount = 150; txid = 99 })), 54)
unfolding uint256_limit int256_limit
tick_simulated_tx_pays_example =
    tick_simulated_tx_pays checked (settings 10) chain (node 1) 100 150 99 (500 ∷ 47 ∷ [])
      (omega arith) (omega arith) refl (omega arith) (omega arith) refl refl refl refl
