-- ===== src/ExitTraffic/Tests.antt =====
-- Examples of a round of an exit with two clients, of which alice has a route.
use rita.Common.{◌≡◌, refl, some, List, [], ◌∷◌, true, arith}
use rita.Common.Int.{pos, negsuc, ◌+ℤ◌, ◌-ℤ◌}
use rita.Common.Map.{lookup, insert, nat_key}
use rita.Outcome.{ok, panic}
use rita.Types.{v6, v6_network, Identity, ip_eq, identity_eq}
use rita.Samples.{alice, bob, us}
use rita.Num256.{int256_limit}
use rita.Num256.Checked.{checked}
use rita.DebtKeeper.Keeper.{entry}
use rita.DebtKeeper.Keeper.Frame.{Bounded, volume}
use rita.TrafficWatcher.{BabelRoute}
use rita.TrafficWatcher.Samples.{empty}
use rita.Debts.{traffic_vec, setup, add_to}
use rita.ExitTraffic.{
  Usages, ExitSettings, ExitSystem, watch_exit_traffic, get_babel_info, generate_helper_maps,
  merge_counters, prepare_usage_history, counters_logging, values, entry_of, output_loop,
  output_one, input_one, input_loop,
}
use rita.ExitTraffic.Billed.{Distinct, input_owed, output_owed}
use rita.ExitTraffic.Free.{watch_exit_traffic-panics}
use rita.ExitTraffic.Owed.{final_round, maps_of, watch_exit_traffic_bills}

abbrev exit_settings : ExitSettings
exit_settings = record {
  our_id = some us;
  mesh_ip = some (v6 9);
  exit_price = 10;
  local_fee = 5;
  max_fee = 50;
  tx_fee_percentage = 10;
}

abbrev routes : List BabelRoute
routes = record { prefix = v6_network 1 128; installed = true; price = 30 } ∷ []

abbrev clients : List Identity
clients = alice ∷ bob ∷ []

abbrev counters : Usages
counters =
    (21, record { upload = 1000; download = 500 })
    ∷ (22, record { upload = 70; download = 80 })
    ∷ []

abbrev before : ExitSystem
before = record {
  usage_history = (21, record { upload = 900; download = 400 }) ∷ [];
  system = empty;
}

-- The debts of the round: 100 bytes received at 10, and 100 sent at 40 with 300 for the fee.
round_debts :
    (final_round exit_settings
      (maps_of clients (v6 9) us).0
      (get_babel_info exit_settings routes us (maps_of clients (v6 9) us).1)
      (merge_counters counters [])
      (prepare_usage_history (merge_counters counters []) before.usage_history)).debts
    ≡ (alice, negsuc 5299) ∷ (bob, pos 0) ∷ []
unfolding output_loop output_one input_one input_loop entry_of lookup insert setup add_to
    merge_counters prepare_usage_history generate_helper_maps get_babel_info ip_eq identity_eq ◌+ℤ◌
    ◌-ℤ◌
round_debts = refl

volume_lem :
    volume (
      traffic_vec
        (final_round exit_settings
          (maps_of clients (v6 9) us).0
          (get_babel_info exit_settings routes us (maps_of clients (v6 9) us).1)
          (merge_counters counters [])
          (prepare_usage_history (merge_counters counters []) before.usage_history)).debts)
    ≡ 5300
unfolding traffic_vec
volume_lem = rw round_debts refl

empty-Bounded : Bounded 0 before.system.debt_keeper.debt_data
unfolding entry lookup
empty-Bounded k = omega arith

counters-Distinct : Distinct counters
unfolding lookup
counters-Distinct = (refl, (refl, tt))

watch_exit_traffic_bills_example :
    let maps = maps_of clients (v6 9) us in
    let prices = get_babel_info exit_settings routes us maps.1 in
    let merged = merge_counters counters [] in
    let history = prepare_usage_history merged before.usage_history in
    let peers = values maps.0 in
    let result =
      watch_exit_traffic checked exit_settings 3 routes clients (some counters) (some []) before in
    (result.0 ≡ ok tt)
    × (result.1.system.usage ≡ counters_logging 3 merged history 10 before.system.usage)
    × ((j : Identity)
        → (entry j result.1.system.debt_keeper.debt_data).debt
          ≡ (entry j before.system.debt_keeper.debt_data).debt
            +ℤ (input_owed exit_settings maps.0 prices peers j history merged
                +ℤ output_owed exit_settings maps.0 prices peers j history merged))
unfolding int256_limit
watch_exit_traffic_bills_example =
    watch_exit_traffic_bills checked exit_settings 3 routes clients counters [] before us (v6 9)
      refl refl 0 (omega arith) counters-Distinct empty-Bounded (omega (arith, volume_lem))

-- The documented way to switch the fee off.
abbrev no_fee : ExitSettings
no_fee = record exit_settings { tx_fee_percentage = 0 }

alice_known : lookup nat_key 21 (maps_of clients (v6 9) us).0 ≡ some alice
unfolding generate_helper_maps lookup insert
alice_known = refl

alice_priced :
    lookup nat_key 21 (get_babel_info no_fee routes us (maps_of clients (v6 9) us).1) ≡ some 30
unfolding get_babel_info generate_helper_maps lookup insert ip_eq
alice_priced = refl

alice_counted :
    lookup nat_key 21 (merge_counters counters []) ≡ some (record { upload = 1000; download = 500 })
unfolding merge_counters lookup
alice_counted = refl

watch_exit_traffic-panics_example :
    let result =
      watch_exit_traffic checked no_fee 3 routes clients (some counters) (some []) before in
    (result.0 ≡ panic) × (result.1.system.debt_keeper ≡ before.system.debt_keeper)
watch_exit_traffic-panics_example =
    watch_exit_traffic-panics checked no_fee 3 routes clients counters [] before us (v6 9) refl refl
      refl 21 alice 30 (record { upload = 1000; download = 500 }) alice_known alice_priced
      alice_counted
