-- ===== src/DebtKeeper/Keeper.antt =====
-- The methods of `DebtKeeper` on the whole map, and the loops that call them.
pub mod Frame
pub mod Round
pub mod Stopped
use rita.Common.{
  ℕ, ◌-◌, Bool, true, false, ◌&&◌, Option, none, some, List, [], ◌∷◌, ◌++◌, ltb, if◌then◌else◌,
  String,
}
use rita.Common.Int.{ℤ}
use rita.Common.Map.{lookup, insert}
use rita.Types.{Identity, identity_key, identity_eq, UnpublishedPaymentTx, is_xdai}
use rita.Num256.{Num256}
use rita.Settings.{PaymentSettings}
use rita.Outcome.{
  Action, Result, ok, err, panic, pure, fail, gets, modify, misc_string_error, ◌>>=◌, ◌>>◌,
}
use rita.DebtKeeper.Node.{NodeDebtData, DebtAction, suspend_tunnel, open_tunnel, make_payment, new}
use rita.DebtKeeper.Node
use rita.DebtKeeper.Update

abbrev pub DebtData : Type 0
DebtData = List (Identity × NodeDebtData)

pub record DebtKeeper : Type 0 where
  pub last_save : Option ℕ
  pub debt_data : DebtData

abbrev pub keys : DebtData → List Identity
keys [] = []
keys ((k, _) ∷ m) = k ∷ keys m

-- `entry(ident).or_default()`
unfoldable pub entry : Identity → DebtData → NodeDebtData
entry ident m = elim (lookup identity_key ident m) [ none ↦ new | some d ↦ d ]

-- A method that looks up the entry of `ident`, which is made where there is none, and changes it.
unfoldable pub with_entry : {A : Type 0} → Identity → Action NodeDebtData A → Action DebtKeeper A
unfolding entry
with_entry ident f dk =
    let (r, d) = f (entry ident dk.debt_data) in
    (r, record dk { debt_data = insert identity_key ident d dk.debt_data })

pub record Traffic : Type 0 where
  pub from : Identity
  pub amount : ℤ

pub data TunnelAction : Type 0 where
  payment_overdue paid_on_time : TunnelAction

pub record TunnelChange : Type 0 where
  pub identity : Identity
  pub action : TunnelAction

-- `save_if_needed`: `saved` says whether the write to the disk went well, `now` and `later` are the
-- two readings of the clock.
unfoldable pub save_if_needed : ℕ → ℕ → ℕ → Bool → DebtKeeper → DebtKeeper
save_if_needed now later frequency saved dk = elim dk.last_save [
  | some val ↦
      if ltb frequency (now - val) && saved then record dk { last_save = some later } else dk
  | none ↦ if saved then record dk { last_save = some now } else dk
]

module _ (n : Num256) where
  unfoldable pub traffic_update : List Traffic → Action DebtKeeper (Unit {0})
  traffic_update [] = pure tt
  traffic_update (t ∷ ts) = with_entry t.from (Node.traffic_update n t.amount) >> traffic_update ts

  -- The node that is billed is the first whose identity is the exit's; there is none to bill
  -- where the exit has no entry.
  unfoldable pub gateway_loop : Traffic → List Identity → Action DebtKeeper (Unit {0})
  gateway_loop traffic [] = pure tt
  gateway_loop traffic (id ∷ ids) =
      let others = gateway_loop traffic ids in
      if identity_eq id traffic.from
      then with_entry id (Node.traffic_update n traffic.amount)
      else others

  unfoldable pub gateway_traffic_update : Traffic → Action DebtKeeper (Unit {0})
  unfolding gateway_loop
  gateway_traffic_update traffic dk = gateway_loop traffic (keys dk.debt_data) dk

-- What `send_debt_update` reads beside the keeper: the settings, the clock, whether the blockchain
-- oracle sees a problem, and our own identity.
pub record Surroundings : Type 0 where
  pub payment : PaymentSettings
  pub now : ℕ
  pub issues : Bool
  pub our_id : Option Identity

-- The tunnel changes and the payments collected so far.
pub record Batch : Type 0 where
  pub debts_message : List TunnelChange
  pub payments_to_send : List UnpublishedPaymentTx

module _ (n : Num256) (s : Surroundings) where
  open s use {payment, issues, our_id}

  -- The match on the action that `send_update` returns.
  unfoldable pub collect : Identity → DebtAction → Batch → Action DebtKeeper Batch
  collect k suspend_tunnel b = pure (record b {
    debts_message = b.debts_message ++ record { identity = k; action = payment_overdue } ∷ [];
  })
  collect k open_tunnel b = pure (record b {
    debts_message = b.debts_message ++ record { identity = k; action = paid_on_time } ∷ [];
  })
  collect k (make_payment to amount) b =
      if is_xdai payment.system_chain && issues
      then fail (misc_string_error "Potential payment issue detected")
      else elim our_id [
        | none ↦ fail (misc_string_error "Identity has no mesh IP ready yet")
        | some id ↦ pure (record b {
          payments_to_send =
              b.payments_to_send ++ record { to = to; from = id; amount = amount } ∷ [];
        })
      ]

  unfoldable pub send_loop : List Identity → Batch → Action DebtKeeper Batch
  send_loop [] b = pure b
  send_loop (k ∷ ks) b = do
    action ← with_entry k (Update.send_update n payment k s.now)
    b' ← collect k action b
    send_loop ks b'

  -- The batch is handed to the tunnel manager and to the payment controller.
  unfoldable pub send_debt_update : Action DebtKeeper Batch
  send_debt_update dk =
      send_loop (keys dk.debt_data) (record { debts_message = []; payments_to_send = [] }) dk
