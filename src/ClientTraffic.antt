-- ===== src/ClientTraffic.antt =====
-- rita_client/src/traffic_watcher/mod.rs: what a client owes its exit for a round, by its own
-- counters and by what the exit answers; and `get_installed_route` of babel_monitor/src/parsing.rs.
-- A product of a price and a number of bytes has 128 bits, and is taken not to overflow; the one of
-- the exit price and the bytes that were sent has 64, and wraps around.
pub mod Bills
pub mod Answers
mod Tests
use rita.Common.{
  ℕ, ◌+◌, ◌-◌, ◌*◌, ◌/◌, ◌%◌, ◌^◌, Bool, true, false, not, ◌&&◌, ◌||◌, Option, none, some, List, [],
  ◌∷◌, ltb, ◌==◌, if◌then◌else◌,
}
use rita.Common.Int.{ℤ, pos, leb_ℤ}
use rita.Outcome.{
  ResultOf, ok, err, panic, ActionOf, Action, pure, fail, modify, or_fail, or_panic, gets, ◌>>=◌,
  ◌>>◌,
}
use rita.Types.{IpAddr, v6, ip_eq, IpNetwork, v4_network, v6_network, Identity}
use rita.Num256.{Num256}
use rita.DebtKeeper.Node
use rita.DebtKeeper.Keeper.{DebtKeeper, Traffic, with_entry, traffic_update, gateway_traffic_update}
use rita.Usage.{UsageTrackerStorage, client, process_usage_update}
use rita.TrafficWatcher.{BabelRoute, System, on_debt_keeper}
use rita.ExitTraffic.{WgUsage, Usages}
use rita.ExitManager.{RitaClientError, misc_string_error, no_route, kernel_interface_error}

pub record TrafficWatcher : Type 0 where
  pub last_read_input : ℕ
  pub last_read_output : ℕ
  pub last_exit_dest_price : ℕ

pub record ClientSystem : Type 0 where
  pub watcher : TrafficWatcher
  pub system : System

abbrev pub is_route_to : IpAddr → BabelRoute → Bool
is_route_to mesh_ip route = elim route.prefix [
  | v4_network addr prefix ↦ false
  | v6_network addr prefix ↦ prefix == 128 && route.installed && ip_eq (v6 addr) mesh_ip
]

-- The first installed route to the host.
unfoldable pub get_installed_route : IpAddr → List BabelRoute → Option BabelRoute
get_installed_route mesh_ip [] = none
get_installed_route mesh_ip (route ∷ routes) =
    let rest = get_installed_route mesh_ip routes in
    if is_route_to mesh_ip route then some route else rest

unfoldable pub find_exit_route_capped : ℕ → IpAddr → List BabelRoute → Option BabelRoute
find_exit_route_capped max_fee exit_mesh_ip routes =
    elim (get_installed_route exit_mesh_ip routes) [
      | none ↦ none
      | some exit_route ↦
          if ltb max_fee exit_route.price
          then some (record exit_route { price = max_fee })
          else some exit_route
    ]

abbrev pub last_usage : Usages → Option WgUsage
last_usage [] = none
last_usage ((key, usage) ∷ []) = some usage
last_usage (first ∷ second ∷ counters) = last_usage (second ∷ counters)

-- The counters of the tunnel to the exit; `none` where they cannot be read.
unfoldable pub read_counter : Option Usages → ResultOf RitaClientError WgUsage
read_counter none = err kernel_interface_error
read_counter (some counters) = elim (last_usage counters) [
  | none ↦ err (misc_string_error "No peers on wg_exit")
  | some usage ↦ ok usage
]

-- Where a counter is below what was read last, the tunnel has been reset.
unfoldable pub reset_if_lower : WgUsage → TrafficWatcher → TrafficWatcher
reset_if_lower counter history =
    if ltb counter.download history.last_read_input || ltb counter.upload history.last_read_output
    then record history { last_read_input = 0; last_read_output = 0 }
    else history

abbrev pub input_value : ℕ → ℕ → ℕ → ℕ
input_value input exit_dest_price tx_fee_percentage =
    input * exit_dest_price + input * exit_dest_price / tx_fee_percentage

abbrev pub output_value : ℕ → ℕ → ℕ
output_value exit_price output = exit_price * output % 2 ^ 64

module _ (tx_fee_percentage current_hour : ℕ) where
  -- From the counter on. The division panics where the percentage is 0; the amount is not negative,
  -- so the assertion at the end holds.
  unfoldable pub bill_counter : ℕ → BabelRoute → WgUsage → ActionOf RitaClientError ClientSystem ℕ
  unfolding reset_if_lower
  bill_counter exit_price exit_route counter s =
      let history = reset_if_lower counter s.watcher in
      let input = counter.download - history.last_read_input in
      let output = counter.upload - history.last_read_output in
      let exit_dest_price = exit_route.price + exit_price in
      let s' : ClientSystem = record {
        watcher = record {
          last_read_input = counter.download;
          last_read_output = counter.upload;
          last_exit_dest_price = exit_dest_price;
        };
        system = s.system;
      } in
      let owes_exit =
        input_value input exit_dest_price tx_fee_percentage + output_value exit_price output in
      if tx_fee_percentage == 0
      then (panic, s')
      else if ltb 0 owes_exit
      then (
        ok owes_exit,
        record s' {
          system = record {
            debt_keeper = s.system.debt_keeper;
            usage =
                process_usage_update current_hour
                  (record {
                    kind = client;
                    up = output;
                    down = input;
                    price = exit_dest_price % 2 ^ 32;
                  })
                  s.system.usage;
          };
        },
      )
      else (ok owes_exit, s')

module _ (max_fee tx_fee_percentage current_hour : ℕ) where
  unfoldable pub local_traffic_calculation :
      Identity → ℕ → List BabelRoute → Option Usages → ActionOf RitaClientError ClientSystem ℕ
  local_traffic_calculation exit exit_price routes counters = do
    exit_route ← or_fail (find_exit_route_capped max_fee exit.mesh_ip routes) no_route
    counter ← (λ s. (read_counter counters, s))
    bill_counter tx_fee_percentage current_hour exit_price exit_route counter

-- What the exit answers: nothing in time, something that is no debt, or a debt.
pub data Answer : Type 0 where
  unreachable malformed : Answer
  debt : ℤ → Answer

abbrev pub on_system :
    {A : Type 0} → Action DebtKeeper A → ActionOf RitaClientError ClientSystem (Unit {0})
on_system f s =
    let (r, system) = on_debt_keeper f s.system in
    (
      elim r [ ok x ↦ ok tt | err e ↦ ok tt | panic ↦ panic ],
      record { watcher = s.watcher; system = system },
    )

-- What is read beside the state in a round.
pub record Query : Type 0 where
  pub exit_id : Identity
  pub exit_price : ℕ
  pub routes : List BabelRoute
  pub counters : Option Usages
  pub is_gateway : Bool
  pub answer : Answer
  pub now : ℕ

abbrev pub bill_of : Query → ℤ → Traffic
bill_of q amount = record { from = q.exit_id; amount = amount }

module _ (n : Num256) (q : Query) where
  open q use {exit_id, is_gateway, now}

  unfoldable pub update_locally : Option ℕ → ActionOf RitaClientError ClientSystem (Unit {0})
  update_locally none = pure tt
  update_locally (some val) = on_system (traffic_update n (bill_of q (pos val) ∷ []))

  unfoldable pub update_as_gateway : Option ℕ → ActionOf RitaClientError ClientSystem (Unit {0})
  update_as_gateway none = pure tt
  update_as_gateway (some val) = on_system (gateway_traffic_update n (bill_of q (pos val)))

  unfoldable pub use_answer : Option ℕ → Answer → ActionOf RitaClientError ClientSystem (Unit {0})
  use_answer local_debt unreachable = update_locally local_debt
  use_answer local_debt malformed = update_locally local_debt
  use_answer local_debt (debt amount) =
      if is_gateway
      then update_as_gateway local_debt
      else if leb_ℤ (pos 0) amount
      then on_system (with_entry exit_id (Node.traffic_replace now amount))
      else pure tt

module _ (n : Num256) (max_fee tx_fee_percentage current_hour : ℕ) (q : Query) where
  unfoldable pub query_exit_debts : ActionOf RitaClientError ClientSystem (Unit {0})
  query_exit_debts s =
      let (result, s') =
        local_traffic_calculation max_fee tx_fee_percentage current_hour q.exit_id q.exit_price
          q.routes q.counters s in
      elim result [
        | ok val ↦ use_answer n q (some val) q.answer s'
        | err e ↦ use_answer n q none q.answer s'
        | panic ↦ (panic, s')
      ]
