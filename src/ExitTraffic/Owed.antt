-- ===== src/ExitTraffic/Owed.antt =====
-- rita_exit/src/traffic_watcher/mod.rs: what a round bills to the clients of an exit.
use rita.Common.{ℕ, ◌+◌, ◌<◌, ◌≡◌, ◌∙◌, refl, ap, some, List, [], ◌∷◌, arith}
use rita.Common.Int.{◌+ℤ◌}
use rita.Outcome.{ok}
use rita.Types.{IpAddr, Identity}
use rita.Num256.{Num256, int256_limit}
use rita.DebtKeeper.Keeper.{entry, traffic_update}
use rita.DebtKeeper.Keeper.Frame.{billed, volume, Bounded, traffic_update_bills}
use rita.TrafficWatcher.{BabelRoute}
use rita.Debts.{setup, traffic_vec, billed-setup, is_in-setup, nobody, zero_add}
use rita.ExitTraffic.{
  Usages, Prices, ExitSettings, ExitSystem, Round, prepare_usage_history, merge_counters,
  generate_helper_maps, get_babel_info, counters_logging, input_loop, output_loop, values,
  hand_over, account, watch_exit_traffic,
}
use rita.ExitTraffic.Billed.{Distinct, input_owed, output_owed, output_owed-SameUploads}
use rita.ExitTraffic.Loops.{
  input_loop-Same, input_loop-SameUploads, input_loop-billed, output_loop-billed,
}
use rita.ExitTraffic.Merge.{merge_counters-Distinct}

-- The debts and the history after the two loops.
abbrev pub final_round : ExitSettings → List (ℕ × Identity) → Prices → Usages → Usages → Round
final_round settings identities destinations counters history =
    (output_loop settings identities destinations counters (
      input_loop settings identities destinations counters
        (record { debts = setup (values identities) []; history = history }))).1

module _ (settings : ExitSettings) (identities : List (ℕ × Identity)) (destinations : Prices)
    (counters history : Usages) (positive : 0 < settings.tx_fee_percentage)
    (distinct : Distinct counters) where
  loops_lem :
      (j : Identity)
      → let peers = values identities in
        let start : Round = record { debts = setup peers []; history = history } in
        let middle = input_loop settings identities destinations counters start in
        ((output_loop settings identities destinations counters middle).0 ≡ ok tt)
        × (billed j
              (traffic_vec (final_round settings identities destinations counters history).debts)
            ≡ input_owed settings identities destinations peers j history counters
              +ℤ output_owed settings identities destinations peers j history counters)
  loops_lem j =
      let peers = values identities in
      let start : Round = record { debts = setup peers []; history = history } in
      let known = λ (i : Identity). is_in-setup i peers in
      let middle = input_loop settings identities destinations counters start in
      let first =
        input_loop-billed settings identities destinations peers j counters start distinct known in
      let after = input_loop-Same settings identities destinations peers j counters start known in
      let uploads =
        input_loop-SameUploads settings identities destinations peers j counters start known in
      let (fine, second) =
        output_loop-billed settings identities destinations peers j counters middle positive
          distinct after in
      let received = input_owed settings identities destinations peers j history counters in
      let out = λ (h : Usages). output_owed settings identities destinations peers j h counters in
      (
        fine,
        second
            ∙ ap (λ z. z +ℤ out middle.history)
                (first ∙ ap (λ z. z +ℤ received) (billed-setup j peers) ∙ zero_add received)
            ∙ ap (λ z. received +ℤ z)
                (output_owed-SameUploads settings identities destinations peers j history
                  middle.history counters uploads),
      )

account_lem :
    (n : Num256) (settings : ExitSettings) (current_hour : ℕ) (s : ExitSystem)
    (identities : List (ℕ × Identity)) (destinations : Prices) (counters : Usages)
    → let history = prepare_usage_history counters s.usage_history in
      let start : Round = record { debts = setup (values identities) []; history = history } in
      let middle = input_loop settings identities destinations counters start in
      let round = final_round settings identities destinations counters history in
      let after = traffic_update n (traffic_vec round.debts) s.system.debt_keeper in
      (output_loop settings identities destinations counters middle).0 ≡ ok tt
      → after.0 ≡ ok tt
      → account n settings current_hour identities destinations counters s ≡ (
        ok tt,
        record {
          usage_history = round.history;
          system = record {
            debt_keeper = after.1;
            usage =
                counters_logging current_hour counters history settings.exit_price s.system.usage;
          };
        },
      )
unfolding account hand_over
account_lem n settings current_hour s identities destinations counters e f = ground (arith, e, f)

module _ (n : Num256) (settings : ExitSettings) (current_hour : ℕ) (s : ExitSystem)
    (identities : List (ℕ × Identity)) (destinations : Prices) (counters : Usages)
    (positive : 0 < settings.tx_fee_percentage) (distinct : Distinct counters) where
  account_bills :
      (b : ℕ)
      → let history = prepare_usage_history counters s.usage_history in
        let round = final_round settings identities destinations counters history in
        let peers = values identities in
        let result = account n settings current_hour identities destinations counters s in
        Bounded b s.system.debt_keeper.debt_data
        → b + volume (traffic_vec round.debts) < int256_limit
        → (result.0 ≡ ok tt)
          × (result.1.usage_history ≡ round.history)
          × (result.1.system.usage
              ≡ counters_logging current_hour counters history settings.exit_price s.system.usage)
          × ((j : Identity)
              → (entry j result.1.system.debt_keeper.debt_data).debt
                ≡ (entry j s.system.debt_keeper.debt_data).debt
                  +ℤ (input_owed settings identities destinations peers j history counters
                      +ℤ output_owed settings identities destinations peers j history counters))
  account_bills b small fits =
      let history = prepare_usage_history counters s.usage_history in
      let round = final_round settings identities destinations counters history in
      let loops = loops_lem settings identities destinations counters history positive distinct in
      let bills = λ (j : Identity).
        traffic_update_bills n b (traffic_vec round.debts) s.system.debt_keeper j small fits in
      let whole =
        account_lem n settings current_hour s identities destinations counters (loops nobody).0
          (bills nobody).0 in
      rw whole (
        refl,
        refl,
        refl,
        λ j. (bills j).1 ∙ ap (λ z. (entry j s.system.debt_keeper.debt_data).debt +ℤ z) (loops j).1,
      )

-- The clients of an exit by key, and by mesh address with the exit itself.
abbrev pub maps_of :
    List Identity → IpAddr → Identity → List (ℕ × Identity) × List (IpAddr × Identity)
maps_of clients mesh_ip our_id = generate_helper_maps clients [] ((mesh_ip, our_id) ∷ [])

module _ (n : Num256) (settings : ExitSettings) (current_hour : ℕ) (routes : List BabelRoute)
    (clients : List Identity) (old new : Usages) (s : ExitSystem) (our_id : Identity)
    (mesh_ip : IpAddr) (identity : settings.our_id ≡ some our_id)
    (address : settings.mesh_ip ≡ some mesh_ip) where
  pub watch_lem :
      let maps = maps_of clients mesh_ip our_id in
      watch_exit_traffic n settings current_hour routes clients (some old) (some new) s
      ≡ account n settings current_hour maps.0
          (get_babel_info settings routes our_id maps.1)
          (merge_counters old new)
          s
  unfolding watch_exit_traffic
  watch_lem = ground (arith, identity, address)

  -- Where the identity and the mesh address are set, the counters of both interfaces can be read
  -- and the old ones name each key once, the percentage of the transaction fee is not 0, and the
  -- debts and the bill of the round together fit in an Int256, a round succeeds and the debt of
  -- every node moves by what the counters bill to it. A counter counts for the client whose key it
  -- names, where that has a route: less the exit price for each byte that was received since the
  -- history, and less the exit price, the price of the route and the share of the fee for each byte
  -- that was sent. The usage of the round is given to the usage tracker.
  pub watch_exit_traffic_bills :
      (b : ℕ)
      → let maps = maps_of clients mesh_ip our_id in
        let prices = get_babel_info settings routes our_id maps.1 in
        let counters = merge_counters old new in
        let history = prepare_usage_history counters s.usage_history in
        let round = final_round settings maps.0 prices counters history in
        let peers = values maps.0 in
        let result =
          watch_exit_traffic n settings current_hour routes clients (some old) (some new) s in
        0 < settings.tx_fee_percentage
        → Distinct old
        → Bounded b s.system.debt_keeper.debt_data
        → b + volume (traffic_vec round.debts) < int256_limit
        → (result.0 ≡ ok tt)
          × (result.1.system.usage
              ≡ counters_logging current_hour counters history settings.exit_price s.system.usage)
          × ((j : Identity)
              → (entry j result.1.system.debt_keeper.debt_data).debt
                ≡ (entry j s.system.debt_keeper.debt_data).debt
                  +ℤ (input_owed settings maps.0 prices peers j history counters
                      +ℤ output_owed settings maps.0 prices peers j history counters))
  watch_exit_traffic_bills b positive distinct small fits =
      let maps = maps_of clients mesh_ip our_id in
      let (fine, history, usage, debts) =
        account_bills n settings current_hour s maps.0
          (get_babel_info settings routes our_id maps.1) (merge_counters old new) positive
          (merge_counters-Distinct old new distinct) b small fits in
      rw watch_lem (fine, usage, debts)
