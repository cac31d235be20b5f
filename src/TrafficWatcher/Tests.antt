-- ===== src/TrafficWatcher/Tests.antt =====
-- Examples of a round of the traffic watcher, with two neighbours and a destination behind bob.
use rita.Common.{ℕ, ◌≡◌, refl, none, some, List, [], ◌∷◌, true, false, arith}
use rita.Common.Int.{pos, negsuc, ◌+ℤ◌, ◌-ℤ◌, ◌*ℤ◌}
use rita.Common.Map.{lookup, insert}
use rita.Outcome.{ok}
use rita.Types.{v6, v6_network, Identity, ip_eq, identity_eq}
use rita.Samples.{alice, bob}
use rita.Num256.{int256_limit}
use rita.Num256.Checked.{checked}
use rita.DebtKeeper.Keeper.{entry}
use rita.DebtKeeper.Keeper.Frame.{Bounded, volume}
use rita.Debts.{Debts, traffic_vec, setup, add_to}
use rita.TrafficWatcher.{
  Neighbor, BabelRoute, NetworkSettings, Counters, Readings, Destinations, watch, get_babel_info,
  get_input_counters, get_output_counters, prepare_helper_maps, values, collate, update_usage,
  input_amount, output_amount,
}
use rita.TrafficWatcher.Samples.{empty}
use rita.TrafficWatcher.Owed.{owed, bill, watch_bills}

abbrev neighbor : Identity → ℕ → Neighbor
neighbor id iface = record {
  identity = record { wg_port = 51820; have_tunnel = none; global = id };
  iface_name = iface;
  tunnel_ip = v6 iface;
  speed_limit = none;
}

abbrev neighbors : List Neighbor
neighbors = neighbor alice 1 ∷ neighbor bob 2 ∷ []

abbrev routes : List BabelRoute
routes =
    record { prefix = v6_network 2 128; installed = true; price = 40 }
    ∷ record { prefix = v6_network 7 128; installed = false; price = 10 }
    ∷ []

abbrev network : NetworkSettings
network = record { mesh_ip = some (v6 9); local_fee = 5; max_fee = 30 }

-- Alice sends 100 bytes to bob, which we pass on.
abbrev readings : Readings
readings = record {
  input = some [];
  forward_input = some (((v6 2, 1), 100) ∷ []);
  output = some [];
  forward_output = some (((v6 2, 2), 100) ∷ []);
}

abbrev received : Counters
received = ((v6 2, 1), 100) ∷ []

abbrev sent : Counters
sent = ((v6 2, 2), 100) ∷ []

abbrev destinations : Destinations
destinations = (v6 2, pos 35) ∷ (v6 9, pos 0) ∷ []

babel : get_babel_info network routes ≡ ok (destinations, 5)
unfolding get_babel_info insert ip_eq
babel = refl

inputs : get_input_counters readings.input readings.forward_input ≡ ok received
unfolding get_input_counters lookup insert
inputs = refl

outputs : get_output_counters readings.output readings.forward_output ≡ ok sent
unfolding get_output_counters lookup insert
outputs = refl

-- Alice pays 35 for a byte, and bob is paid 30: we keep our fee.
abbrev collated : Debts
collated = bill neighbors destinations 5 received sent

collated_lem : collated ≡ (alice, negsuc 3499) ∷ (bob, pos 3000) ∷ []
unfolding collate setup add_to lookup insert prepare_helper_maps ip_eq identity_eq ◌+ℤ◌ ◌-ℤ◌ ◌*ℤ◌
collated_lem = refl

empty-Bounded : Bounded 0 empty.debt_keeper.debt_data
unfolding entry lookup
empty-Bounded k = omega arith

volume_lem : volume (traffic_vec collated) ≡ 6500
unfolding traffic_vec
volume_lem = rw collated_lem refl

watch_bills_example :
    let maps = prepare_helper_maps neighbors in
    let peers = values maps.0 in
    let result = watch checked network 3 routes neighbors readings empty in
    (result.0 ≡ ok tt)
    × (result.1.usage ≡ update_usage 3 received sent 5 empty.usage)
    × ((j : Identity)
        → (entry j result.1.debt_keeper.debt_data).debt
          ≡ (entry j empty.debt_keeper.debt_data).debt
            +ℤ (owed input_amount destinations maps.1 peers j received
                +ℤ owed (output_amount 5) destinations maps.1 peers j sent))
unfolding int256_limit
watch_bills_example =
    watch_bills checked network 3 routes neighbors readings empty destinations 5 received sent babel
      inputs outputs 0 empty-Bounded (omega (arith, volume_lem))
