-- ===== src/DebtKeeper/Update.antt =====
-- `DebtKeeper::send_update` on the entry of one node. `now` is `Instant::now()`, in seconds, which
-- each branch reads at most once.
pub mod Decision
pub mod InFlight
use rita.Common.{ℕ, ◌-◌, ◌&&◌, Bool, true, false, Option, none, some, ltb, if◌then◌else◌}
use rita.Common.Int.{ℤ, pos, ltb_ℤ}
use rita.Types.{Identity}
use rita.Num256.{Num256}
use rita.Settings.{PaymentSettings}
use rita.Outcome.{
  Action, pure, or_panic, or_fail, gets, modify, conversion_error, panic, ◌>>=◌, ◌>>◌,
}
use rita.DebtKeeper.Node.{
  NodeDebtData, DebtAction, suspend_tunnel, open_tunnel, make_payment, payment_received,
}
use rita.DebtKeeper.Limit.{calculate_close_thresh, get_pay_thresh, debt_limit}

-- ETH_PAYMENT_SEND_TIMEOUT of rita_common/src/payment_validator/mod.rs, in seconds.
abbrev pub eth_payment_send_timeout : ℕ
eth_payment_send_timeout = 600

abbrev set_action : DebtAction → Action NodeDebtData DebtAction
set_action a d = pure a (record d { action = a })

-- A payment in flight is given up after the timeout, or if its start is not known.
unfoldable pub time_out : ℕ → Option ℕ → NodeDebtData → NodeDebtData
time_out now (some start) d =
    if ltb eth_payment_send_timeout (now - start)
    then record d { payment_in_flight = false; payment_in_flight_start = none }
    else d
time_out now none d = record d { payment_in_flight = false }

module _ (n : Num256) (payment : PaymentSettings) (ident : Identity) (now : ℕ) where
  -- The action is set, and a zero payment applies the pool.
  unfoldable pub apply_credit : Action NodeDebtData DebtAction
  apply_credit = do
    modify (λ d. record d { action = open_tunnel })
    payment_received n 0
    pure open_tunnel

  unfoldable pub enforce : Action NodeDebtData DebtAction
  enforce = do
    incoming ← gets (λ d. d.incoming_payments)
    if ltb 0 incoming
        then apply_credit
        else if payment.enable_enforcement
        then set_action suspend_tunnel
        else set_action open_tunnel

  unfoldable pub pay : Action NodeDebtData DebtAction
  pay = do
    debt ← gets (λ d. d.debt)
    to_pay ←
        or_fail (n.to_uint256 debt)
          (conversion_error "Unable to convert debt data into unsigned 256 bit integer")
    modify (λ d. record d { payment_in_flight = true; payment_in_flight_start = some now })
    set_action (make_payment ident to_pay)

  unfoldable pub rest : Action NodeDebtData DebtAction
  rest = do
    incoming ← gets (λ d. d.incoming_payments)
    if payment.apply_incoming_credit_immediately && ltb 0 incoming
        then apply_credit
        else set_action open_tunnel

  unfoldable pub await_payment : Action NodeDebtData DebtAction
  unfolding time_out
  await_payment = do modify (λ d. time_out now d.payment_in_flight_start d); set_action open_tunnel

  -- The match on (should_close, should_pay, payment_in_flight).
  unfoldable pub decide : Bool → Bool → Bool → Action NodeDebtData DebtAction
  unfolding enforce pay rest await_payment
  decide true true _ = λ d. (panic, d)
  decide true false _ = enforce
  decide false true false = pay
  decide false true true = await_payment
  decide false false _ = rest

  unfoldable pub send_update : Action NodeDebtData DebtAction
  send_update = do
    debt ← gets (λ d. d.debt)
    close_threshold ← or_panic (calculate_close_thresh n payment)
    payment_in_flight ← gets (λ d. d.payment_in_flight)
    limited ←
        or_panic
          (if payment.debt_limit_enabled then debt_limit n debt close_threshold else some debt)
    modify (λ d. record d { debt = limited })
    decide (ltb_ℤ debt close_threshold) (ltb_ℤ (get_pay_thresh payment) debt) payment_in_flight
