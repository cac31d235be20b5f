-- ===== src/DebtKeeper/Node.antt =====
-- The account of one node, and the methods of `DebtKeeper` as they act on the entry that each of
-- them looks up first. `now` is `Instant::now()`, in seconds; a difference of instants stops at 0.
pub mod Credit
use rita.Common.{ℕ, ◌-◌, Bool, true, false, Option, none, some, ltb, if◌then◌else◌}
use rita.Common.Int.{ℤ, pos, ltb_ℤ}
use rita.Types.{Identity}
use rita.Num256.{Num256}
use rita.Outcome.{
  Action, pure, or_panic, or_fail, gets, modify, conversion_error, misc_string_error, ◌>>=◌, ◌>>◌,
}

pub data DebtAction : Type 0 where
  suspend_tunnel open_tunnel : DebtAction
  make_payment : Identity → ℕ → DebtAction

-- `debt` is what we owe the node, negative where it owes us.
pub record NodeDebtData : Type 0 where
  pub total_payment_received : ℕ
  pub total_payment_sent : ℕ
  pub debt : ℤ
  pub incoming_payments : ℕ
  pub action : DebtAction
  pub payment_in_flight : Bool
  pub payment_in_flight_start : Option ℕ
  pub last_successful_payment : Option ℕ

abbrev pub new : NodeDebtData
new = record {
  total_payment_received = 0;
  total_payment_sent = 0;
  debt = pos 0;
  incoming_payments = 0;
  action = open_tunnel;
  payment_in_flight = false;
  payment_in_flight_start = none;
  last_successful_payment = none;
}

unfoldable pub payment_failed : Action NodeDebtData (Unit {0})
payment_failed = modify λ d. record d { payment_in_flight = false; payment_in_flight_start = none }

module _ (n : Num256) where
  open n use {uadd, usub, iadd, isub, iabs, to_int256, to_uint256}

  unfoldable pub payment_succeeded : ℕ → ℕ → Action NodeDebtData (Unit {0})
  payment_succeeded now amount = do
    modify (λ d. record d { payment_in_flight = false; payment_in_flight_start = none })
    sent ← gets (λ d. d.total_payment_sent)
    total ← or_panic (uadd sent amount)
    modify (λ d. record d { total_payment_sent = total; last_successful_payment = some now })
    paid ← or_fail (to_int256 amount) (conversion_error "Failed to convert amount paid to Int256!")
    debt ← gets (λ d. d.debt)
    left ← or_panic (isub debt paid)
    modify (λ d. record d { debt = left })

  -- `debt.abs().to_uint256().unwrap()`
  unfoldable pub debt_magnitude : Action NodeDebtData ℕ
  debt_magnitude = do
    debt ← gets (λ d. d.debt)
    size ← or_panic (iabs debt)
    or_panic (to_uint256 size)

  -- The match on (they_owe_us, incoming_greater_than_debt).
  unfoldable pub apply_incoming : Bool → Bool → Action NodeDebtData (Unit {0})
  unfolding debt_magnitude
  apply_incoming true true = do
    owed ← debt_magnitude
    incoming ← gets (λ d. d.incoming_payments)
    left ← or_panic (usub incoming owed)
    modify (λ d. record d { incoming_payments = left; debt = pos 0 })
  apply_incoming true false = do
    incoming ← gets (λ d. d.incoming_payments)
    signed_incoming ←
        or_fail (to_int256 incoming)
          (misc_string_error "Unsigned payment int too big! You're super rich now")
    debt ← gets (λ d. d.debt)
    left ← or_panic (iadd debt signed_incoming)
    modify (λ d. record d { debt = left; incoming_payments = 0 })
  apply_incoming false _ = pure tt

  unfoldable pub payment_received : ℕ → Action NodeDebtData (Unit {0})
  unfolding debt_magnitude apply_incoming
  payment_received amount = do
    received ← gets (λ d. d.total_payment_received)
    total ← or_panic (uadd received amount)
    modify (λ d. record d { total_payment_received = total })
    before ← gets (λ d. d.incoming_payments)
    incoming ← or_panic (uadd before amount)
    modify (λ d. record d { incoming_payments = incoming })
    they_owe_us ← gets (λ d. ltb_ℤ d.debt (pos 0))
    owed ← debt_magnitude
    apply_incoming they_owe_us (ltb owed incoming)

  unfoldable pub traffic_update : ℤ → Action NodeDebtData (Unit {0})
  traffic_update amount = do
    debt ← gets (λ d. d.debt)
    total ← or_panic (iadd debt amount)
    modify (λ d. record d { debt = total })

-- The match on (payment_in_flight, last_successful_payment).
unfoldable pub replaces : ℕ → Bool → Option ℕ → Bool
replaces now true last = false
replaces now false (some val) = ltb 15 (now - val)
replaces now false none = true

unfoldable pub traffic_replace : ℕ → ℤ → Action NodeDebtData (Unit {0})
unfolding replaces
traffic_replace now amount = modify λ d.
    if replaces now d.payment_in_flight d.last_successful_payment
    then record d { debt = amount }
    else d
