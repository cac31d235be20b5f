-- ===== src/DebtKeeper/Update/Decision.antt =====
-- What `send_update` decides, branch by branch, where the settings are sane and the account fits.
use rita.Common.{ℕ, ◌+◌, ◌*◌, ◌≤◌, ◌≡◌, ◌↔◌, true, false, some, arith, ltb, ◌&&◌, if◌then◌else◌}
use rita.Common.Int.{ℤ, pos, negsuc, magnitude, ltb_ℤ, pos_part, ◌<ℤ◌}
use rita.Types.{Identity}
use rita.Num256.{Num256}
use rita.Settings.{PaymentSettings}
use rita.Outcome.{Result, ok, err, panic}
use rita.DebtKeeper.Node.{NodeDebtData, DebtAction, suspend_tunnel, open_tunnel, make_payment}
use rita.DebtKeeper.Node.Credit.{Fits, debt_after, settled, payment_received-settled}
use rita.DebtKeeper.Limit.{get_pay_thresh}
use rita.DebtKeeper.Limit.Bounds.{IsSane, minus, clamped, close_thresh_lem, debt_limit-clamped}
use rita.DebtKeeper.Update.{send_update, decide, time_out, apply_credit}

-- The debt that the decision's branch works on.
abbrev pub limited : PaymentSettings → ℕ → ℤ → ℤ
limited payment p debt = if payment.debt_limit_enabled then clamped (10 * p) debt else debt

abbrev pub opened : NodeDebtData → Result DebtAction × NodeDebtData
opened d = (ok open_tunnel, record d { action = open_tunnel })

abbrev pub action_of : Result DebtAction → DebtAction
action_of (ok a) = a
action_of (err e) = open_tunnel
action_of panic = open_tunnel

limited-le :
    (payment : PaymentSettings) (p : ℕ) (debt : ℤ)
    → payment.debt_limit_enabled ≡ true
    → magnitude (limited payment p debt) ≤ 10 * p + 1
limited-le payment p debt on = ground arith

debt_after-le : (debt : ℤ) (pool : ℕ) → magnitude (debt_after debt pool) ≤ magnitude debt
debt_after-le (pos owed) pool = omega arith
debt_after-le (negsuc k) pool = ground arith

module _ (n : Num256) (payment : PaymentSettings) (ident : Identity) (now p : ℕ) where
  -- The decision as a table over the debt that the call finds and the account with the limit
  -- applied, with no machine arithmetic.
  abbrev pub decided : ℤ → NodeDebtData → Result DebtAction × NodeDebtData
  decided debt e =
      if ltb_ℤ debt (minus (10 * p))
      then (if ltb 0 e.incoming_payments
          then opened (settled 0 e)
          else if payment.enable_enforcement
          then (ok suspend_tunnel, record e { action = suspend_tunnel })
          else opened e)
      else if ltb_ℤ (pos p) debt
      then (if e.payment_in_flight
          then opened (time_out now e.payment_in_flight_start e)
          else (let a = make_payment ident (pos_part e.debt) in
              (
                ok a,
                record e {
                  payment_in_flight = true;
                  payment_in_flight_start = some now;
                  action = a;
                },
              )))
      else if payment.apply_incoming_credit_immediately && ltb 0 e.incoming_payments
      then opened (settled 0 e)
      else opened e

  abbrev pub decision : NodeDebtData → Result DebtAction × NodeDebtData
  decision d = decided d.debt (record d { debt = limited payment p d.debt })

  apply_credit-opened :
      (d : NodeDebtData) → Fits 0 d → apply_credit n payment ident now d ≡ opened (settled 0 d)
  unfolding apply_credit
  apply_credit-opened d f =
      ground (arith, payment_received-settled n 0 (record d { action = open_tunnel }))

  limited-Fits :
      (d : NodeDebtData)
      → IsSane payment p
      → Fits 0 d
      → Fits 0 (record d { debt = limited payment p d.debt })
  limited-Fits d v f = ground arith

  -- The code comes to the table.
  pub send_update-decision :
      (d : NodeDebtData)
      → IsSane payment p
      → Fits 0 d
      → send_update n payment ident now d ≡ decision d
  unfolding send_update decide get_pay_thresh
  send_update-decision d v f = ground (
    arith,
    close_thresh_lem n payment p v,
    debt_limit-clamped n (10 * p) d.debt,
    limited-Fits d v f,
    apply_credit-opened (record d { debt = limited payment p d.debt }),
    n.to_uint256_pos (pos_part (limited payment p d.debt)),
  )

  -- With sane settings and an account that fits, a tunnel is suspended exactly when the node owes
  -- us more than ten payment thresholds, has no credit left with us, and enforcement is on.
  pub suspends_iff :
      (d : NodeDebtData)
      → IsSane payment p
      → Fits 0 d
      → ((send_update n payment ident now d).0 ≡ ok suspend_tunnel) ↔ (
          (d.debt <ℤ minus (10 * p))
          × (d.incoming_payments ≡ 0)
          × (payment.enable_enforcement ≡ true))
  suspends_iff d v f = rw (send_update-decision d v f) (ground arith, ground arith)

  -- With sane settings and an account that fits, a payment is asked for exactly when we owe the
  -- node more than the payment threshold and none is in flight. It goes to that node, for the whole
  -- debt, or for one more than ten thresholds where the debt limit is on and the debt is larger.
  pub pays_iff :
      (d : NodeDebtData) (to : Identity) (amount : ℕ)
      → IsSane payment p
      → Fits 0 d
      → ((send_update n payment ident now d).0 ≡ ok (make_payment to amount)) ↔ (
          (pos p <ℤ d.debt)
          × (d.payment_in_flight ≡ false)
          × (to ≡ ident)
          × (pos amount ≡ limited payment p d.debt))
  pays_iff d to amount v f = rw (send_update-decision d v f) (ground arith, ground arith)

  pub pays :
      (d : NodeDebtData)
      → IsSane payment p
      → Fits 0 d
      → pos p <ℤ d.debt
      → d.payment_in_flight ≡ false
      → (send_update n payment ident now d).0
        ≡ ok (make_payment ident (pos_part (limited payment p d.debt)))
  pays d v f owes free = rw (send_update-decision d v f) (ground arith)

  decided-le : (debt : ℤ) (e : NodeDebtData) → magnitude (decided debt e).1.debt ≤ magnitude e.debt
  unfolding time_out
  decided-le debt e = ground (arith, debt_after-le e.debt (e.incoming_payments + 0))

  -- With sane settings, an account that fits and the debt limit on, a call neither fails nor
  -- panics, and it leaves a debt of at most one more than ten payment thresholds, in either
  -- direction, whichever way it runs.
  pub send_update_total :
      (d : NodeDebtData)
      → IsSane payment p
      → Fits 0 d
      → payment.debt_limit_enabled ≡ true
      → (a : DebtAction) × ((send_update n payment ident now d).0 ≡ ok a)
        × (magnitude (send_update n payment ident now d).1.debt ≤ 10 * p + 1)
  send_update_total d v f on = rw (send_update-decision d v f) (
    action_of (decision d).0,
    ground arith,
    omega (
      arith,
      decided-le d.debt (record d { debt = limited payment p d.debt }),
      limited-le payment p d.debt on,
    ),
  )
