-- ===== src/Billing.antt =====
-- The functions of rita_common/src/debt_keeper/mod.rs that other modules call when a payment is
-- settled. The state is what they lock: the keeper and the amount owed to the maintainers.
use rita.Common.{ℕ}
use rita.Types.{Identity, Denom}
use rita.Num256.{Num256}
use rita.Settings.{PaymentSettings, wei_denom}
use rita.Outcome.{Action, or_panic, ◌>>=◌, ◌>>◌}
use rita.DebtKeeper.Node
use rita.DebtKeeper.Normalize.{normalize_payment_amount}
use rita.DebtKeeper.Keeper.{DebtKeeper, with_entry}
use rita.TxFee.{add_tx_to_total}

pub record Billing : Type 0 where
  pub debt_keeper : DebtKeeper
  pub amount_owed : ℕ

unfoldable pub on_keeper : {A : Type 0} → Action DebtKeeper A → Action Billing A
on_keeper f s = let (r, dk) = f s.debt_keeper in (r, record s { debt_keeper = dk })

unfoldable pub on_amount : {A : Type 0} → Action ℕ A → Action Billing A
on_amount f s = let (r, owed) = f s.amount_owed in (r, record s { amount_owed = owed })

unfoldable pub payment_failed : Identity → Action Billing (Unit {0})
payment_failed to = on_keeper (with_entry to Node.payment_failed)

module _ (n : Num256) (payment : PaymentSettings) where
  unfoldable pub payment_received : Identity → ℕ → Denom → Action Billing (Unit {0})
  payment_received from amount denom = do
    wei ← or_panic (normalize_payment_amount n amount denom wei_denom)
    on_keeper (with_entry from (Node.payment_received n wei))

  unfoldable pub payment_succeeded : ℕ → Identity → ℕ → Denom → Action Billing (Unit {0})
  payment_succeeded now to amount denom = do
    wei ← or_panic (normalize_payment_amount n amount denom wei_denom)
    on_amount (add_tx_to_total n payment wei)
    on_keeper (with_entry to (Node.payment_succeeded n now wei))
