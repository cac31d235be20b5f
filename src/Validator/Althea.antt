-- ===== src/Validator/Althea.antt =====
-- The judgement of one payment on Althea L1. Its transaction is a list of microtransactions, as the
-- decoder gives them, of which only the first is looked at. `parse` is the parser of an
-- address and `althea_address` the address that belongs to an identity; both stand in the
-- deep_space crate. `development` is set in the builds that panic where the others report.
pub mod Accept
use text.Mathlib.Text.{◌==◌ as str_eq}
use rita.Common.{
  ℕ, Bool, true, false, not, Option, none, some, String, List, [], ◌∷◌, ltb, ◌==◌, if◌then◌else◌,
}
use rita.Types.{Identity, Denom}
use rita.Num256.{Num256}
use rita.Settings.{PaymentSettings}
use rita.Outcome.{Action, ok, err, panic, pure, or_panic, ◌>>=◌, ◌>>◌}
use rita.Billing
use rita.Validator.State.{ToValidate}
use rita.Validator.Chain.{Books, Verdict, paid_us, unwrap, update_payments}

pub record Coin : Type 0 where
  pub amount : ℕ
  pub denom : String

pub record MsgMicrotx : Type 0 where
  pub sender : String
  pub receiver : String
  pub amount : Option Coin

-- What the chain says of its own progress.
pub data ChainStatus : Type 0 where
  moving : ℕ → ChainStatus
  syncing waiting_to_start : ChainStatus

-- The two answers of a node: the transaction and the status, each `none` where the request fails.
pub record AltheaAnswer : Type 0 where
  pub transactions : Option (List MsgMicrotx)
  pub status : Option ChainStatus

unfoldable pub accepted_denom : String → List Denom → Option Denom
accepted_denom name [] = none
accepted_denom name (d ∷ denoms) =
    let rest = accepted_denom name denoms in if str_eq name d.denom then some d else rest

module _ (n : Num256) (payment : PaymentSettings) (now : ℕ) (our_id : Option Identity)
    (parse : String → Option ℕ) (althea_address : Identity → ℕ) (development : Bool) where
  -- An invalid transaction.
  unfoldable pub invalid : ToValidate → Action Books Verdict
  invalid ts b = if development then (panic, b) else (ok (some (ts, false)), b)

  -- The match on (to_us, from_us).
  unfoldable pub judge_althea : Bool → Bool → Denom → ToValidate → Action Books Verdict
  unfolding paid_us unwrap update_payments
  judge_althea true false denom ts = paid_us n payment now denom ts
  judge_althea false true denom ts = do
    unwrap (Billing.payment_succeeded n payment now ts.payment.to ts.payment.amount denom)
    update_payments ts.payment
    pure (some (ts, true))
  judge_althea true true denom ts = pure (some (ts, false))
  judge_althea false false denom ts = pure (some (ts, false))

  -- From the denomination on.
  unfoldable pub judge_coin : ℕ → ℕ → Coin → Option Denom → ToValidate → Action Books Verdict
  judge_coin receiver sender coin none ts = pure (some (ts, false))
  judge_coin receiver sender coin (some denom) ts = do
    us ← or_panic our_id
    (if not (coin.amount == ts.payment.amount)
        then pure (some (ts, false))
        else judge_althea (receiver == althea_address us) (sender == althea_address us) denom ts)

  -- From the amount on.
  unfoldable pub judge_microtx : MsgMicrotx → Option Coin → ToValidate → Action Books Verdict
  unfolding invalid
  judge_microtx transaction none ts = invalid ts
  judge_microtx transaction (some coin) ts = elim (parse transaction.receiver) [
    | none ↦ invalid ts
    | some receiver ↦ elim (parse transaction.sender) [
      | none ↦ invalid ts
      | some sender ↦
          judge_coin receiver sender coin
            (accepted_denom coin.denom payment.althea_l1_accepted_denoms) ts
    ]
  ]

  unfoldable pub handle_tx_messaging_althea : List MsgMicrotx → ToValidate → Action Books Verdict
  unfolding invalid
  handle_tx_messaging_althea [] ts = invalid ts
  handle_tx_messaging_althea (transaction ∷ transactions) ts =
      judge_microtx transaction transaction.amount ts

  -- A transaction that the node does not know: has its last block passed?
  unfoldable pub timed_out : ToValidate → Option ℕ → ℕ → Verdict
  timed_out ts none block_height = none
  timed_out ts (some timeout_block) block_height =
      if ltb timeout_block block_height then some (ts, false) else none

  unfoldable pub handle_althea_tx_checking : AltheaAnswer → ToValidate → Action Books Verdict
  unfolding timed_out
  handle_althea_tx_checking answer ts = elim answer.transactions [
    | some transactions ↦ handle_tx_messaging_althea transactions ts
    | none ↦ elim answer.status [
      | none ↦ pure none
      | some status ↦ elim status [
        | moving block_height ↦ pure (timed_out ts ts.timeout_block block_height)
        | syncing ↦ pure none
        | waiting_to_start ↦ pure none
      ]
    ]
  ]
