-- ===== src/TxFee/Owed.antt =====
-- What is owed to the maintainers, across payments of the fee.
use rita.Common.{ℕ, ◌+◌, ◌/◌, ◌<◌, ◌≡◌, true, List, [], ◌∷◌, some, arith}
use rita.Common.Int.{pos}
use rita.Types.{Identity}
use rita.Num256.{Num256, uint256_limit, int256_limit}
use rita.Settings.{PaymentSettings}
use rita.Outcome.{ok, panic}
use rita.TxFee.{Chain, add_tx_to_total, add_all, settle, pay_fee, tick_simulated_tx}

-- The fees on a list of amounts, each rounded down.
abbrev pub fees : ℕ → List ℕ → ℕ
fees divisor [] = 0
fees divisor (amount ∷ amounts) = amount / divisor + fees divisor amounts

module _ (n : Num256) (payment : PaymentSettings) where
  pub add_tx_to_total_lem :
      (amount owed : ℕ)
      → 0 < payment.simulated_transaction_fee
      → owed + amount / payment.simulated_transaction_fee < uint256_limit
      → add_tx_to_total n payment amount owed
        ≡ (ok tt, owed + amount / payment.simulated_transaction_fee)
  unfolding add_tx_to_total
  add_tx_to_total_lem amount owed divisor fits = ground (
    arith,
    n.udiv_pos amount payment.simulated_transaction_fee,
    n.uadd_fits owed (amount / payment.simulated_transaction_fee),
  )

  add_all_lem :
      (amounts : List ℕ) (owed : ℕ)
      → 0 < payment.simulated_transaction_fee
      → owed + fees payment.simulated_transaction_fee amounts < uint256_limit
      → add_all n payment amounts owed
        ≡ (ok tt, owed + fees payment.simulated_transaction_fee amounts)
  unfolding add_all
  add_all_lem [] owed divisor fits = ground arith
  add_all_lem (amount ∷ amounts) owed divisor fits =
      let fee = amount / payment.simulated_transaction_fee in
      ground
        (arith, add_tx_to_total_lem amount owed divisor, add_all_lem amounts (owed + fee) divisor)

  -- A fee setting of zero, which is documented to turn the fee off, makes every payment panic here.
  pub add_tx_to_total_zero :
      (amount owed : ℕ)
      → payment.simulated_transaction_fee ≡ 0
      → add_tx_to_total n payment amount owed ≡ (panic, owed)
  unfolding add_tx_to_total
  add_tx_to_total_zero amount owed off = rw (off, n.udiv_zero amount)

  -- Where our key and our identity are set, the fee setting is not zero, and what is owed at the
  -- start and added during the tick fits in 256 bits: when more than the payment threshold is owed
  -- and the transaction is sent, exactly the amount that was owed at the start of the tick is paid,
  -- and what other payments added in the meantime stays owed.
  pub tick_simulated_tx_pays :
      (chain : Chain) (us : Identity) (p owed txid : ℕ) (during : List ℕ)
      → 0 < payment.simulated_transaction_fee
      → owed + fees payment.simulated_transaction_fee during < uint256_limit
      → payment.payment_threshold ≡ pos p
      → p < int256_limit
      → p < owed
      → chain.has_key ≡ true
      → chain.our_id ≡ some us
      → chain.prepared ≡ true
      → chain.sent ≡ some txid
      → tick_simulated_tx n payment chain during owed ≡ (
        ok (some (record { to = chain.txfee_identity; from = us; amount = owed; txid = txid })),
        fees payment.simulated_transaction_fee during,
      )
  unfolding tick_simulated_tx pay_fee settle
  tick_simulated_tx_pays chain us p owed txid during divisor fits threshold small due key id
        prepared sent =
      let total = owed + fees payment.simulated_transaction_fee during in
      ground (
        arith,
        n.iabs_fits (pos p),
        n.to_uint256_pos p,
        add_all_lem during owed divisor fits,
        n.usub_fits total owed,
      )
