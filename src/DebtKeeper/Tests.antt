-- ===== src/DebtKeeper/Tests.antt =====
-- The debt keeper's theorems at concrete accounts, and runs of its functions.
use text.Mathlib.TextEquality.{eq_iff}
use rita.Common.{
  ◌+◌, ◌*◌, ◌≤◌, ◌≡◌, refl, ◌↔◌, inl, true, false, none, some, List, [], ◌∷◌, arith, ◌≢◌,
}
use rita.Common.Int.{pos, negsuc, magnitude, ◌+ℤ◌, ◌<ℤ◌}
use rita.Common.Map.{lookup, insert}
use rita.Types.{Denom, identity_key, identity_eq}
use rita.Settings.{wei_denom}
use rita.Samples.{alice, bob, us, settings}
use rita.Num256.{uint256_limit, int256_limit}
use rita.Num256.Checked.{checked}
use rita.Outcome.{ok, err, misc_string_error}
use rita.DebtKeeper.Node.{
  NodeDebtData, new, open_tunnel, suspend_tunnel, make_payment, payment_received, payment_succeeded,
}
use rita.DebtKeeper.Node.Credit.{Fits, payment_received_conserves}
use rita.DebtKeeper.Limit.Bounds.{IsSane, minus}
use rita.DebtKeeper.Update.{send_update}
use rita.DebtKeeper.Update.Decision.{suspends_iff, pays_iff, send_update_total, limited}
use rita.DebtKeeper.Update.InFlight.{Event, updates, receives, passes, payments, no_second_payment}
use rita.DebtKeeper.Keeper.{DebtKeeper, Traffic, Surroundings, entry, send_debt_update}
use rita.DebtKeeper.Keeper.Frame.{Bounded, billed}
use rita.DebtKeeper.Keeper.Round.{
  IsDistinct, send_debt_update_lem, accounts_after, changes_for, payments_for,
}
use rita.DebtKeeper.Keeper.Stopped.{send_debt_update_stopped}
use rita.DebtKeeper.Load.{restored, admit, ser_loop, ser_to_debt_data, debt_data_to_ser}
use rita.DebtKeeper.Load.Forgive.{restarted, restart_honours}

sane : IsSane settings 100
unfolding int256_limit
sane = record { threshold = refl; fits = omega arith }

-- Owes us 40, with 15 of credit.
abbrev owing : NodeDebtData
owing = record new { debt = negsuc 39; incoming_payments = 15 }

-- We owe it 250.
abbrev owed : NodeDebtData
owed = record new { debt = pos 250 }

-- Far over the close threshold of 1000.
abbrev overdue : NodeDebtData
overdue = record new { debt = negsuc 1999 }

owing-Fits : Fits 30 owing
unfolding int256_limit uint256_limit
owing-Fits = omega arith

payment_received_conserves_example :
    let (r, e) = payment_received checked 30 owing in
    (r ≡ ok tt)
    × (e.debt +ℤ pos e.incoming_payments ≡ owing.debt +ℤ pos owing.incoming_payments +ℤ pos 30)
    × (e.total_payment_received ≡ owing.total_payment_received + 30)
    × (e ≡ record owing {
      total_payment_received = e.total_payment_received;
      debt = e.debt;
      incoming_payments = e.incoming_payments;
    })
payment_received_conserves_example = payment_received_conserves checked 30 owing owing-Fits

overdue-Fits : Fits 0 overdue
unfolding int256_limit uint256_limit
overdue-Fits = omega arith

owed-Fits : Fits 0 owed
unfolding int256_limit uint256_limit
owed-Fits = omega arith

suspends_iff_example : ((send_update checked settings bob 5 overdue).0 ≡ ok suspend_tunnel) ↔ (
    (overdue.debt <ℤ minus 1000)
    × (overdue.incoming_payments ≡ 0)
    × (settings.enable_enforcement ≡ true))
suspends_iff_example = suspends_iff checked settings bob 5 100 overdue sane overdue-Fits

pays_iff_example : ((send_update checked settings bob 5 owed).0 ≡ ok (make_payment bob 250)) ↔ (
    (pos 100 <ℤ owed.debt)
    × (owed.payment_in_flight ≡ false)
    × (bob ≡ bob)
    × (pos 250 ≡ limited settings 100 owed.debt))
pays_iff_example = pays_iff checked settings bob 5 100 owed bob 250 sane owed-Fits

send_update_total_example :
    (a : rita.DebtKeeper.Node.DebtAction) × ((send_update checked settings bob 5 overdue).0 ≡ ok a)
    × (magnitude (send_update checked settings bob 5 overdue).1.debt ≤ 10 * 100 + 1)
send_update_total_example =
    send_update_total checked settings bob 5 100 overdue sane overdue-Fits refl

pays_bob : (send_update checked settings bob 5 owed).0 ≡ ok (make_payment bob 250)
pays_bob = pays_iff_example.1 (omega arith, refl, refl, refl)

abbrev later : List Event
later = updates 10 ∷ passes (pos 500) ∷ receives 3 ∷ updates 605 ∷ []

no_second_payment_example :
    payments checked settings bob later (send_update checked settings bob 5 owed).1 ≡ []
no_second_payment_example =
    no_second_payment checked settings bob 5 250 bob owed later pays_bob (omega arith)

abbrev keeper : DebtKeeper
keeper = record { last_save = none; debt_data = (alice, overdue) ∷ (bob, owed) ∷ [] }

distinct : IsDistinct keeper.debt_data
unfolding identity_eq
distinct = ((refl, tt), (tt, tt))

abbrev traffic : List Traffic
traffic =
    record { from = bob; amount = pos 7 }
    ∷ record { from = alice; amount = negsuc 3 }
    ∷ record { from = bob; amount = negsuc 1 }
    ∷ []

abbrev around : Surroundings
around = record { payment = settings; now = 5; issues = false; our_id = some us }

abbrev in_trouble : Surroundings
in_trouble = record { payment = settings; now = 5; issues = true; our_id = some us }

send_debt_update_lem_example : send_debt_update checked around keeper ≡ (
  ok (record {
    debts_message = changes_for checked around keeper.debt_data;
    payments_to_send = payments_for checked around us keeper.debt_data;
  }),
  record keeper { debt_data = accounts_after checked around keeper.debt_data },
)
send_debt_update_lem_example =
    send_debt_update_lem checked around 100 us keeper sane refl refl distinct
      (overdue-Fits, (owed-Fits, tt))

send_debt_update_stopped_example :
    let (r, dk) =
      send_debt_update checked in_trouble (record keeper { debt_data = (bob, owed) ∷ [] }) in
    (r ≡ err (misc_string_error "Potential payment issue detected"))
    × ((entry bob dk.debt_data).payment_in_flight ≡ true)
    × ((entry bob dk.debt_data).payment_in_flight_start ≡ some 5)
send_debt_update_stopped_example =
    send_debt_update_stopped checked in_trouble 100 bob owed []
      (record keeper { debt_data = (bob, owed) ∷ [] }) sane owed-Fits refl refl refl (omega arith)
      refl

bob_restarts : lookup identity_key bob (restarted settings keeper.debt_data) ≡ some owed
unfolding identity_eq lookup insert ser_to_debt_data ser_loop admit debt_data_to_ser restored
bob_restarts = refl

restart_honours_example :
    (e : NodeDebtData) × (lookup identity_key bob (restarted settings keeper.debt_data) ≡ some e)
    × (e.incoming_payments ≡ owed.incoming_payments)
    × (e.debt ≡ pos 250)
unfolding identity_eq lookup
restart_honours_example =
    restart_honours settings keeper.debt_data bob owed distinct refl refl (inl (omega arith))

traffic-Bounded : Bounded 2000 keeper.debt_data
unfolding entry lookup
traffic-Bounded k = ground arith

billed-bob : billed bob traffic ≡ pos 5
unfolding identity_eq ◌+ℤ◌
billed-bob = refl

abbrev usdc : Denom
usdc = record { denom = "ibc/usdc"; decimal = 1_000_000 }

differ : usdc.denom ≢ wei_denom.denom
differ = ground (arith, eq_iff "ibc/usdc" "wei")
