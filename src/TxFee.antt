-- ===== src/TxFee.antt =====
-- rita_common/src/simulated_txfee_manager/mod.rs: the maintainers' share of what we pay. The state
-- is the amount owed so far.
pub mod Owed
mod Tests
use rita.Common.{
  ℕ, Bool, true, false, not, Option, none, some, List, [], ◌∷◌, ltb, leb, if◌then◌else◌,
}
use rita.Common.Int.{ℤ}
use rita.Types.{Identity, PaymentTx}
use rita.Num256.{Num256}
use rita.Settings.{PaymentSettings}
use rita.Outcome.{Action, ok, panic, pure, or_panic, gets, modify, ◌>>=◌, ◌>>◌}

-- What a tick reads beside the amount: whether our private key is set, our identity, the identity
-- that the fee is paid to, and how the transaction went, with the txid if it was sent.
pub record Chain : Type 0 where
  pub has_key : Bool
  pub our_id : Option Identity
  pub txfee_identity : Identity
  pub prepared : Bool
  pub sent : Option ℕ

module _ (n : Num256) (payment : PaymentSettings) where
  open n use {uadd, usub, udiv, iabs, to_uint256}

  unfoldable pub add_tx_to_total : ℕ → Action ℕ (Unit {0})
  add_tx_to_total amount = do
    to_add ← or_panic (udiv amount payment.simulated_transaction_fee)
    amount_owed ← gets (λ owed. owed)
    total ← or_panic (uadd amount_owed to_add)
    modify (λ _. total)

  -- What other tasks add while a tick waits for the chain.
  unfoldable pub add_all : List ℕ → Action ℕ (Unit {0})
  add_all [] = pure tt
  add_all (amount ∷ amounts) = add_tx_to_total amount >> add_all amounts

  -- The billing after the payment has gone through.
  unfoldable pub settle : ℕ → Action ℕ (Unit {0})
  settle payment_amount = do
    amount_owed ← gets (λ owed. owed)
    left ←
        (if leb payment_amount amount_owed
          then or_panic (usub amount_owed payment_amount)
          else pure amount_owed)
    modify (λ _. left)

  -- The payment that is reported to the usage tracker, if one was sent. The code reports it before
  -- it settles the amount, which does not tell here, since the tracker is not part of the state.
  -- `during` is what is added between the reading of the amount and its settlement.
  unfoldable pub pay_fee : Chain → Identity → ℕ → List ℕ → Action ℕ (Option PaymentTx)
  pay_fee chain our_id amount_to_pay during = do
    add_all during
    (if chain.prepared
        then elim chain.sent [
          | none ↦ pure none
          | some txid ↦
              (settle amount_to_pay
                >> pure (
                    some (record {
                      to = chain.txfee_identity;
                      from = our_id;
                      amount = amount_to_pay;
                      txid = txid;
                    })))
        ]
        else pure none)

  unfoldable pub tick_simulated_tx : Chain → List ℕ → Action ℕ (Option PaymentTx)
  tick_simulated_tx chain during =
      if not chain.has_key then (λ owed. (panic, owed)) else elim chain.our_id [
        | none ↦ pure none
        | some our_id ↦ do
          amount_to_pay ← gets (λ owed. owed)
          size ← or_panic (iabs payment.payment_threshold)
          threshold ← or_panic (to_uint256 size)
          (if ltb threshold amount_to_pay
              then pay_fee chain our_id amount_to_pay during
              else pure none)
      ]
