-- ===== src/Validator/Chain.antt =====
-- The judgement of one payment by what the chain says of it, and what is booked for it. The state
-- is the books: the billing, and the payments handed to `update_payments`, newest first.
pub mod Verdict
pub mod Credit
use text.Mathlib.Text.{◌==◌ as str_eq}
use rita.Common.{
  ℕ, ◌-◌, Bool, true, false, not, ◌&&◌, Option, none, some, String, List, [], ◌∷◌, ltb, leb, ◌==◌,
  if◌then◌else◌,
}
use rita.Types.{Identity, PaymentTx, Denom}
use rita.Num256.{Num256}
use rita.Settings.{PaymentSettings, wei_denom}
use rita.Outcome.{Action, ok, err, panic, pure, or_panic, modify, ◌>>=◌, ◌>>◌}
use rita.Billing
use rita.Billing.{Billing}
use rita.Validator.State.{ToValidate}

pub record Books : Type 0 where
  pub billing : Billing
  pub reported : List PaymentTx

-- `let _ = …`: an error is dropped, a panic is not.
unfoldable pub ignore_error : {A : Type 0} → Action Billing A → Action Books (Unit {0})
ignore_error f b =
    let (r, s) = f b.billing in
    let b' = record b { billing = s } in
    elim r [ ok _ ↦ (ok tt, b') | err _ ↦ (ok tt, b') | panic ↦ (panic, b') ]

-- `.unwrap()`: an error is a panic.
unfoldable pub unwrap : {A : Type 0} → Action Billing A → Action Books (Unit {0})
unwrap f b =
    let (r, s) = f b.billing in
    let b' = record b { billing = s } in
    elim r [ ok _ ↦ (ok tt, b') | err _ ↦ (panic, b') | panic ↦ (panic, b') ]

unfoldable pub update_payments : PaymentTx → Action Books (Unit {0})
update_payments p = modify λ b. record b { reported = p ∷ b.reported }

-- What a full node answers, as the web30 crate gives it.
pub record TransactionFields : Type 0 where
  pub to : Option ℕ
  pub from : ℕ
  pub value : ℕ
  pub block_number : Option ℕ

pub data TransactionResponse : Type 0 where
  eip1559 eip2930 legacy : TransactionFields → TransactionResponse

unfoldable pub get_xdai_transaction_details : TransactionResponse → TransactionFields
get_xdai_transaction_details (eip1559 t) = t
get_xdai_transaction_details (eip2930 t) = t
get_xdai_transaction_details (legacy t) = t

abbrev pub blocks_to_confirm : ℕ
blocks_to_confirm = 4

abbrev pub blocks_to_old : ℕ
blocks_to_old = 1440

abbrev pub Verdict : Type 0
Verdict = Option (ToValidate × Bool)

module _ (n : Num256) where
  -- `none` is a panic of the subtraction.
  unfoldable pub payment_in_chain_xdai : ℕ → Option ℕ → Option Bool
  payment_in_chain_xdai chain_height none = some false
  payment_in_chain_xdai chain_height (some tx_block) =
      if ltb chain_height tx_block then some false else elim (n.usub chain_height tx_block) [
        | none ↦ none
        | some d ↦ some (leb blocks_to_confirm d)
      ]

  unfoldable pub payment_is_old : ℕ → Option ℕ → Option Bool
  payment_is_old chain_height none = some false
  payment_is_old chain_height (some tx_block) =
      if ltb chain_height tx_block
      then some false
      else elim (n.usub chain_height tx_block) [ none ↦ none | some d ↦ some (ltb blocks_to_old d) ]

module _ (n : Num256) (payment : PaymentSettings) (now : ℕ) where
  unfoldable pub paid_us : Denom → ToValidate → Action Books Verdict
  unfolding ignore_error update_payments
  paid_us denom ts = do
    ignore_error (Billing.payment_received n payment ts.payment.from ts.payment.amount denom)
    update_payments ts.payment
    pure (some (ts, true))

  -- The match on (to_us, from_us, is_in_chain).
  unfoldable pub judge_xdai : Bool → Bool → Bool → ToValidate → Action Books Verdict
  unfolding paid_us ignore_error update_payments
  judge_xdai true false true ts = paid_us wei_denom ts
  judge_xdai false true true ts = do
    ignore_error (Billing.payment_succeeded n payment now ts.payment.to ts.payment.amount wei_denom)
    update_payments ts.payment
    pure (some (ts, true))
  judge_xdai true true _ ts = pure (some (ts, false))
  judge_xdai false false _ ts = pure (some (ts, false))
  judge_xdai _ _ false ts = pure none

  unfoldable pub judge_destination :
      ℕ → TransactionFields → ToValidate → ℕ → Option ℕ → Action Books Verdict
  judge_destination our_address tx ts current_block none = pure (some (ts, false))
  judge_destination our_address tx ts current_block (some to) = do
    is_in_chain ← or_panic (payment_in_chain_xdai n current_block tx.block_number)
    is_old ← or_panic (payment_is_old n current_block tx.block_number)
    (if not (tx.value == ts.payment.amount)
        then pure (some (ts, false))
        else if is_old
        then pure (some (ts, false))
        else judge_xdai (to == our_address) (tx.from == our_address) is_in_chain ts)

  unfoldable pub handle_tx_messaging_xdai :
      TransactionResponse → ToValidate → ℕ → Action Books Verdict
  unfolding get_xdai_transaction_details
  handle_tx_messaging_xdai transaction ts current_block = do
    our_address ← or_panic payment.eth_address
    let tx = get_xdai_transaction_details transaction
    judge_destination our_address tx ts current_block tx.to
