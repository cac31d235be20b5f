-- ===== src/Validator/Chain/Credit.antt =====
-- What is booked for a good payment to us.
use rita.Common.{ℕ, ◌+◌, ◌≤◌, ◌<◌, ◌≡◌, ◌≢◌, refl, true, false, Option, some, ◌∷◌, arith}
use rita.Common.Int.{pos, ◌+ℤ◌}
use rita.Types.{Identity, identity_eq, identity_eq_refl}
use rita.Num256.{Num256, uint256_limit}
use rita.Settings.{PaymentSettings, wei_denom}
use rita.Outcome.{ok}
use rita.Billing
use rita.Billing.{Billing, on_keeper}
use rita.DebtKeeper.Node
use rita.DebtKeeper.Node.Credit.{Fits, payment_received-settled, payment_received_conserves}
use rita.DebtKeeper.Normalize.{normalize_payment_amount}
use rita.DebtKeeper.Keeper.{entry, with_entry}
use rita.DebtKeeper.Keeper.Frame.{entry-with_entry, entry-with_entry_ne}
use rita.Validator.State.{ToValidate}
use rita.Validator.Chain.{
  Books, TransactionFields, TransactionResponse, get_xdai_transaction_details, judge_xdai,
  judge_destination, handle_tx_messaging_xdai, paid_us, ignore_error, update_payments,
}
use rita.Validator.Chain.Verdict.{IsGood, in_chain_lem, is_old_lem, handle_at}

module _ (n : Num256) (payment : PaymentSettings) (now : ℕ) where
  abbrev paid_books : ToValidate → Books → Books
  paid_books ts b = record b {
    billing = record b.billing {
      debt_keeper =
          (with_entry ts.payment.from (Node.payment_received n ts.payment.amount)
            b.billing.debt_keeper).1;
    };
    reported = ts.payment ∷ b.reported;
  }

  received_lem :
      (ts : ToValidate) (b : Books)
      → Fits ts.payment.amount (entry ts.payment.from b.billing.debt_keeper.debt_data)
      → Billing.payment_received n payment ts.payment.from ts.payment.amount wei_denom b.billing
        ≡ (ok tt, (paid_books ts b).billing)
  unfolding Billing.payment_received on_keeper normalize_payment_amount with_entry
  received_lem ts b fits = rw (
      payment_received-settled n ts.payment.amount
        (entry ts.payment.from b.billing.debt_keeper.debt_data) fits)

  paid_us_lem :
      (ts : ToValidate) (b : Books)
      → Fits ts.payment.amount (entry ts.payment.from b.billing.debt_keeper.debt_data)
      → paid_us n payment now wei_denom ts b ≡ (ok (some (ts, true)), paid_books ts b)
  unfolding paid_us ignore_error update_payments
  paid_us_lem ts b fits = ground (arith, received_lem ts b fits)

  judge_good :
      (our : ℕ) (tx : TransactionFields) (ts : ToValidate) (height block : ℕ) (to : Option ℕ)
      (b : Books)
      → to ≡ some our
      → tx.block_number ≡ some block
      → height < uint256_limit
      → tx.value ≡ ts.payment.amount
      → block + 4 ≤ height
      → height ≤ block + 1440
      → tx.from ≢ our
      → judge_destination n payment now our tx ts height to b ≡ paid_us n payment now wei_denom ts b
  unfolding judge_destination judge_xdai
  judge_good our tx ts height block to b et eb h same confirmed young sender =
      ground (arith, in_chain_lem n height block h, is_old_lem n height block h)

  -- With an address of our own and a chain height below 2^256, a good payment to us that fits is
  -- accepted and credited to the node that it names: that node's debt and credit together grow by
  -- its amount, no other node's account changes, and it is reported once.
  pub good_payment_credits :
      (transaction : TransactionResponse) (ts : ToValidate) (our height : ℕ) (j : Identity)
      (b : Books)
      → payment.eth_address ≡ some our
      → height < uint256_limit
      → IsGood n payment now our (get_xdai_transaction_details transaction) ts height
      → (get_xdai_transaction_details transaction).to ≡ some our
      → Fits ts.payment.amount (entry ts.payment.from b.billing.debt_keeper.debt_data)
      → identity_eq ts.payment.from j ≡ false
      → let (r, c) = handle_tx_messaging_xdai n payment now transaction ts height b in
        let before = entry ts.payment.from b.billing.debt_keeper.debt_data in
        let after = entry ts.payment.from c.billing.debt_keeper.debt_data in
        (r ≡ ok (some (ts, true)))
        × (after.debt +ℤ pos after.incoming_payments
            ≡ before.debt +ℤ pos before.incoming_payments +ℤ pos ts.payment.amount)
        × (entry j c.billing.debt_keeper.debt_data ≡ entry j b.billing.debt_keeper.debt_data)
        × (c.reported ≡ ts.payment ∷ b.reported)
  good_payment_credits transaction ts our height j b address h
        (same, (block, eb, confirmed, young), way) to_us fits other =
      let tx = get_xdai_transaction_details transaction in
      let sender : tx.from ≢ our = ground (arith, way, to_us) in
      let found : handle_tx_messaging_xdai n payment now transaction ts height b
          ≡ (ok (some (ts, true)), paid_books ts b) =
        rw (
          handle_at n payment now transaction ts our height b address,
          judge_good our tx ts height block tx.to b to_us eb h same confirmed young sender,
          paid_us_lem ts b fits,
        ) in
      let before = b.billing.debt_keeper in
      let pay = Node.payment_received n ts.payment.amount in
      let from = ts.payment.from in
      let (_, sum, _, _) =
        payment_received_conserves n ts.payment.amount (entry from before.debt_data) fits in
      rw found (
        refl,
        rw (entry-with_entry from from pay before (identity_eq_refl from)) sum,
        entry-with_entry_ne from j pay before other,
        refl,
      )
