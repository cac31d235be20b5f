-- ===== src/TrafficWatcher/Owed.antt =====
-- rita_common/src/traffic_watcher/mod.rs: what a round bills to each neighbour.
use rita.Common.{
  ℕ, ◌+◌, ◌<◌, ◌≡◌, refl, sym, ◌∙◌, ap, none, some, List, [], ◌∷◌, arith, if◌then◌else◌,
  Option-cases, inl, inr,
}
use rita.Common.Int.{ℤ, pos, ◌+ℤ◌, +ℤ_assoc}
use rita.Common.Map.{lookup, nat_key}
use rita.Outcome.{ok}
use rita.Types.{IpAddr, ip_key, Identity}
use rita.Num256.{Num256, int256_limit}
use rita.DebtKeeper.Keeper.{entry, traffic_update}
use rita.DebtKeeper.Keeper.Frame.{billed, volume, Bounded, traffic_update_bills}
use rita.Debts.{
  Debts, add_to, setup, traffic_vec, is_in, share, is_among, billed-add_to, is_in-add_to,
  billed-setup, is_in-setup, +ℤ_zero, nobody, zero_add,
}
use rita.TrafficWatcher.{
  BabelRoute, Neighbor, NetworkSettings, Destinations, Counters, Readings, System, values,
  prepare_helper_maps, get_babel_info, get_input_counters, get_output_counters, input_amount,
  output_amount, collate, update_usage, watch,
}

-- What one counter bills to `j`: something where the address has a price, and the interface is that
-- of `j` and `j` is a peer.
abbrev pub counted :
    (ℤ → ℕ → ℤ) → Destinations → List (ℕ × Identity) → List Identity → Identity → IpAddr → ℕ → ℕ → ℤ
counted amount destinations if_to_id peers j ip interface bytes =
    elim (lookup ip_key ip destinations) [
      | none ↦ pos 0
      | some dest ↦ elim (lookup nat_key interface if_to_id) [
        | none ↦ pos 0
        | some id ↦ if is_among id peers then share id j (amount dest bytes) else pos 0
      ]
    ]

abbrev pub owed :
    (ℤ → ℕ → ℤ) → Destinations → List (ℕ × Identity) → List Identity → Identity → Counters → ℤ
owed amount destinations if_to_id peers j [] = pos 0
owed amount destinations if_to_id peers j (((ip, interface), bytes) ∷ counters) =
    counted amount destinations if_to_id peers j ip interface bytes
    +ℤ owed amount destinations if_to_id peers j counters

module _ (amount : ℤ → ℕ → ℤ) (destinations : Destinations) (if_to_id : List (ℕ × Identity))
    (peers : List Identity) where
  abbrev Same : Debts → Type 0
  Same debts = (j : Identity) → is_in j debts ≡ is_among j peers

  collate_one : IpAddr → ℕ → ℕ → Debts → Debts
  collate_one ip interface bytes debts = elim (lookup ip_key ip destinations) [
    | none ↦ debts
    | some dest ↦ elim (lookup nat_key interface if_to_id) [
      | none ↦ debts
      | some id_from_if ↦ add_to id_from_if (amount dest bytes) debts
    ]
  ]

  module _ (ip : IpAddr) (interface bytes : ℕ) (debts : Debts) (same : Same debts) where
    one-Same : Same (collate_one ip interface bytes debts)
    unfolding collate_one
    one-Same j = elim (Option-cases (lookup ip_key ip destinations)) [
      | inl h ↦ ground (arith, h, same j)
      | inr (dest, h) ↦ elim (Option-cases (lookup nat_key interface if_to_id)) [
        | inl k ↦ ground (arith, h, k, same j)
        | inr (id, k) ↦ ground (arith, h, k, is_in-add_to id j (amount dest bytes) debts, same j)
      ]
    ]

    one-billed :
        (j : Identity)
        → billed j (traffic_vec (collate_one ip interface bytes debts))
          ≡ billed j (traffic_vec debts)
            +ℤ counted amount destinations if_to_id peers j ip interface bytes
    unfolding collate_one
    one-billed j = elim (Option-cases (lookup ip_key ip destinations)) [
      | inl h ↦ ground (arith, h, +ℤ_zero (billed j (traffic_vec debts)))
      | inr (dest, h) ↦ elim (Option-cases (lookup nat_key interface if_to_id)) [
        | inl k ↦ ground (arith, h, k, +ℤ_zero (billed j (traffic_vec debts)))
        | inr (id, k) ↦ ground (arith, h, k, billed-add_to id j (amount dest bytes) debts, same id)
      ]
    ]

  collate-Same :
      (counters : Counters) (debts : Debts)
      → Same debts
      → Same (collate amount destinations if_to_id counters debts)
  unfolding collate collate_one
  collate-Same [] debts same = same
  collate-Same (((ip, interface), bytes) ∷ counters) debts same =
      collate-Same counters (collate_one ip interface bytes debts)
        (one-Same ip interface bytes debts same)

  collate-billed :
      (j : Identity) (counters : Counters) (debts : Debts)
      → Same debts
      → billed j (traffic_vec (collate amount destinations if_to_id counters debts))
        ≡ billed j (traffic_vec debts) +ℤ owed amount destinations if_to_id peers j counters
  unfolding collate collate_one
  collate-billed j [] debts same = sym (+ℤ_zero (billed j (traffic_vec debts)))
  collate-billed j (((ip, interface), bytes) ∷ counters) debts same =
      collate-billed j counters (collate_one ip interface bytes debts)
        (one-Same ip interface bytes debts same)
      ∙ ap (λ z. z +ℤ owed amount destinations if_to_id peers j counters)
          (one-billed ip interface bytes debts same j)
      ∙ +ℤ_assoc (billed j (traffic_vec debts))
          (counted amount destinations if_to_id peers j ip interface bytes)
          (owed amount destinations if_to_id peers j counters)

-- The bill of a round.
abbrev pub bill : List Neighbor → Destinations → ℕ → Counters → Counters → Debts
bill neighbors destinations local_fee input output =
    let maps = prepare_helper_maps neighbors in
    collate (output_amount local_fee) destinations maps.1 output
      (collate input_amount destinations maps.1 input (setup (values maps.0) []))

bill_lem :
    (neighbors : List Neighbor) (destinations : Destinations) (local_fee : ℕ)
    (input output : Counters) (j : Identity)
    → let maps = prepare_helper_maps neighbors in
      let peers = values maps.0 in
      billed j (traffic_vec (bill neighbors destinations local_fee input output))
      ≡ owed input_amount destinations maps.1 peers j input
        +ℤ owed (output_amount local_fee) destinations maps.1 peers j output
bill_lem neighbors destinations local_fee input output j =
    let maps = prepare_helper_maps neighbors in
    let peers = values maps.0 in
    let start = setup peers [] in
    let known : Same input_amount destinations maps.1 peers start = λ i. is_in-setup i peers in
    let first = collate input_amount destinations maps.1 input start in
    let zero = billed-setup j peers in
    let received = collate-billed input_amount destinations maps.1 peers j input start known in
    let sent =
      collate-billed (output_amount local_fee) destinations maps.1 peers j output first
        (collate-Same input_amount destinations maps.1 peers input start known) in
    sent
    ∙ ap (λ z. z +ℤ owed (output_amount local_fee) destinations maps.1 peers j output)
        (received
          ∙ ap (λ z. z +ℤ owed input_amount destinations maps.1 peers j input) zero
          ∙ zero_add (owed input_amount destinations maps.1 peers j input))

module _ (n : Num256) (settings : NetworkSettings) (current_hour : ℕ) (routes : List BabelRoute)
    (neighbors : List Neighbor) (readings : Readings) (s : System) where
  module _ (destinations : Destinations) (local_fee : ℕ) (input output : Counters)
      (babel : get_babel_info settings routes ≡ ok (destinations, local_fee))
      (inputs : get_input_counters readings.input readings.forward_input ≡ ok input)
      (outputs : get_output_counters readings.output readings.forward_output ≡ ok output) where
    watch_lem :
        let after =
          traffic_update n
            (traffic_vec (bill neighbors destinations local_fee input output))
            s.debt_keeper in
        watch n settings current_hour routes neighbors readings s ≡ (
          after.0,
          record {
            debt_keeper = after.1;
            usage = update_usage current_hour input output local_fee s.usage;
          },
        )
    unfolding watch
    watch_lem = ground (arith, babel, inputs, outputs)

    -- Where the node has a mesh address, the counters can be read, and the debts and the bill of
    -- the round together fit in an Int256, a round succeeds. The debt of every node moves by what
    -- its counters bill: for each input counter less the price of the destination times the bytes,
    -- for each output counter that price less the own fee, times the bytes. A counter counts for the
    -- node whose interface it names, where that is a peer and babel has a price for the address.
    -- The bytes of all counters are given to the usage tracker.
    pub watch_bills :
        (b : ℕ)
        → Bounded b s.debt_keeper.debt_data
        → b + volume (traffic_vec (bill neighbors destinations local_fee input output))
          < int256_limit
        → let maps = prepare_helper_maps neighbors in
          let peers = values maps.0 in
          let result = watch n settings current_hour routes neighbors readings s in
          (result.0 ≡ ok tt)
          × (result.1.usage ≡ update_usage current_hour input output local_fee s.usage)
          × ((j : Identity)
              → (entry j result.1.debt_keeper.debt_data).debt
                ≡ (entry j s.debt_keeper.debt_data).debt
                  +ℤ (owed input_amount destinations maps.1 peers j input
                      +ℤ owed (output_amount local_fee) destinations maps.1 peers j output))
    watch_bills b small fits =
        let bills = traffic_vec (bill neighbors destinations local_fee input output) in
        rw watch_lem (
          (traffic_update_bills n b bills s.debt_keeper nobody small fits).0,
          refl,
          λ j.
              (traffic_update_bills n b bills s.debt_keeper j small fits).1
              ∙ ap (λ z. (entry j s.debt_keeper.debt_data).debt +ℤ z)
                  (bill_lem neighbors destinations local_fee input output j),
        )
