-- ===== src/DebtKeeper/Update/InFlight.antt =====
-- A payment in flight, over runs of events on one account.
use rita.Common.{ℕ, ◌+◌, ◌≤◌, ◌≡◌, refl, Bool, true, List, [], ◌∷◌, ◌++◌, some, arith}
use rita.Common.Int.{ℤ}
use rita.Types.{Identity}
use rita.Num256.{Num256}
use rita.Settings.{PaymentSettings}
use rita.Outcome.{Result, ok, err, panic}
use rita.DebtKeeper.Node.{
  NodeDebtData, DebtAction, suspend_tunnel, open_tunnel, make_payment, payment_received,
  payment_failed, payment_succeeded, traffic_update, traffic_replace,
}
use rita.DebtKeeper.Update.{send_update, decide, apply_credit, eth_payment_send_timeout}

-- What happens to the account of one node.
pub data Event : Type 0 where
  updates : ℕ → Event
  receives : ℕ → Event
  fails : Event
  succeeds : ℕ → ℕ → Event
  passes : ℤ → Event
  replaces : ℕ → ℤ → Event

abbrev pub InFlight : ℕ → NodeDebtData → Type 0
InFlight start d = (d.payment_in_flight ≡ true) × (d.payment_in_flight_start ≡ some start)

-- The payments that a call of `send_update` asks for.
abbrev pub asked : Result DebtAction → List ℕ
asked (ok suspend_tunnel) = []
asked (ok open_tunnel) = []
asked (ok (make_payment to amount)) = amount ∷ []
asked (err e) = []
asked panic = []

-- An event that neither settles a payment nor comes later than `limit`.
abbrev pub Quiet : ℕ → Event → Type 0
Quiet limit (updates now) = now ≤ limit
Quiet limit (receives amount) = Unit
Quiet limit fails = ⊥
Quiet limit (succeeds now amount) = ⊥
Quiet limit (passes amount) = Unit
Quiet limit (replaces now amount) = Unit

abbrev pub AllQuiet : ℕ → List Event → Type 0
AllQuiet limit [] = Unit
AllQuiet limit (e ∷ es) = Quiet limit e × AllQuiet limit es

module _ (n : Num256) (payment : PaymentSettings) (ident : Identity) where
  unfoldable pub after : Event → NodeDebtData → NodeDebtData
  after (updates now) d = (send_update n payment ident now d).1
  after (receives amount) d = (payment_received n amount d).1
  after fails d = (payment_failed d).1
  after (succeeds now amount) d = (payment_succeeded n now amount d).1
  after (passes amount) d = (traffic_update n amount d).1
  after (replaces now amount) d = (traffic_replace now amount d).1

  unfoldable pub asks : Event → NodeDebtData → List ℕ
  asks (updates now) d = asked (send_update n payment ident now d).0
  asks _ d = []

  -- The amounts that a run of events asks to be paid, in order.
  unfoldable pub payments : List Event → NodeDebtData → List ℕ
  payments [] d = []
  payments (e ∷ es) d = asks e d ++ payments es (after e d)

  payment_received-InFlight :
      (start amount : ℕ) (d : NodeDebtData)
      → InFlight start d
      → InFlight start (payment_received n amount d).1
  unfolding payment_received
  payment_received-InFlight start amount d f = ground arith

  apply_credit-InFlight :
      (start now : ℕ) (d : NodeDebtData)
      → InFlight start d
      → (asked (apply_credit n payment ident now d).0 ≡ [])
        × InFlight start (apply_credit n payment ident now d).1
  unfolding apply_credit
  apply_credit-InFlight start now d f =
      ground (arith, payment_received-InFlight start 0 (record d { action = open_tunnel }))

  decide-InFlight :
      (start now : ℕ) (close pay : Bool) (d : NodeDebtData)
      → InFlight start d
      → now ≤ start + eth_payment_send_timeout
      → (asked (decide n payment ident now close pay true d).0 ≡ [])
        × InFlight start (decide n payment ident now close pay true d).1
  unfolding decide
  decide-InFlight start now true true d f h = ground arith
  decide-InFlight start now _ _ d f h = ground (arith, apply_credit-InFlight start now d f)

  send_update-InFlight :
      (start now : ℕ) (d : NodeDebtData)
      → InFlight start d
      → now ≤ start + eth_payment_send_timeout
      → (asked (send_update n payment ident now d).0 ≡ [])
        × InFlight start (send_update n payment ident now d).1
  unfolding send_update
  send_update-InFlight start now d f h = grind (arith, decide-InFlight start now)

  -- A quiet event leaves the payment in flight, and asks for none.
  after-InFlight :
      (start : ℕ) (e : Event) (d : NodeDebtData)
      → InFlight start d
      → Quiet (start + eth_payment_send_timeout) e
      → (asks e d ≡ []) × InFlight start (after e d)
  unfolding after asks
  after-InFlight start (updates now) d f q = send_update-InFlight start now d f q
  after-InFlight start (receives amount) d f q = (refl, payment_received-InFlight start amount d f)
  after-InFlight start fails d f q = absurd q
  after-InFlight start (succeeds now amount) d f q = absurd q
  after-InFlight start (passes amount) d f q = unfold traffic_update in ground arith
  after-InFlight start (replaces now amount) d f q = unfold traffic_replace in ground arith

  payments-InFlight :
      (start : ℕ) (es : List Event) (d : NodeDebtData)
      → InFlight start d
      → AllQuiet (start + eth_payment_send_timeout) es
      → payments es d ≡ []
  unfolding payments
  payments-InFlight start [] d f q = refl
  payments-InFlight start (e ∷ es) d f q =
      let (none_asked, kept) = after-InFlight start e d f q.0 in
      rw none_asked (payments-InFlight start es (after e d) kept q.1)

  -- A call that asks for a payment leaves it in flight from this moment.
  pub make_payment-InFlight :
      (now amount : ℕ) (to : Identity) (d : NodeDebtData)
      → (send_update n payment ident now d).0 ≡ ok (make_payment to amount)
      → InFlight now (send_update n payment ident now d).1
  unfolding send_update decide apply_credit
  make_payment-InFlight now amount to d h = ground arith

  -- After a call of `send_update` that asks for a payment, no run of traffic, credit and further
  -- calls asks for another one to this node, as long as no success or failure is reported and no
  -- call comes more than 600 seconds after the first. This holds for all settings and whatever the
  -- 256 bit arithmetic does.
  pub no_second_payment :
      (now amount : ℕ) (to : Identity) (d : NodeDebtData) (es : List Event)
      → (send_update n payment ident now d).0 ≡ ok (make_payment to amount)
      → AllQuiet (now + eth_payment_send_timeout) es
      → payments es (send_update n payment ident now d).1 ≡ []
  no_second_payment now amount to d es h q =
      payments-InFlight now es _ (make_payment-InFlight now amount to d h) q
