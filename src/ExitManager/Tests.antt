-- ===== src/ExitManager/Tests.antt =====
-- Examples of the exit switcher: three exits of a cluster.
use rita.Common.{ℕ, zero, suc, ◌≡◌, ◌≢◌, ◌≤◌, refl, true, false, none, some, List, [], ◌∷◌, arith}
use mathlib.Core.List.{Memᴰ}
use rita.Common.Map.{lookup}
use rita.Outcome.{ok, panic}
use rita.Types.{IpAddr, v6, Identity, ip_eq}
use rita.ExitManager.{
  ExitBlacklist, contains, blacklist_strike_ip, hard_warning, reset_blacklist_warnings,
}
use rita.ExitManager.Switcher.{Route, is_far_below}
use rita.ExitManager.Switcher.Tick.{Switcher, set_best_exit, metrics_of, update_metric_value}
use rita.ExitManager.Switcher.Safe.{IsReady, set_best_exit-IsReady}
use rita.ExitManager.Switcher.Stay.{Routes}
use rita.ExitManager.Switcher.Best.{IsFound}
use rita.ExitManager.Switcher.Failover.{HasMoved, set_best_exit-failover}

abbrev exit_at : ℕ → Identity
exit_at n = record { mesh_ip = v6 n; eth_address = n; wg_public_key = n; nickname = none }

abbrev route_to : ℕ → ℕ → IpAddr × Route
route_to n metric = (v6 n, record { prefix = v6 n; metric = metric })

abbrev cluster : List Identity
cluster = exit_at 1 ∷ exit_at 2 ∷ exit_at 3 ∷ []

abbrev tick : ℕ → ℕ → ℕ → Routes
tick a b c = (cluster, route_to 1 a ∷ route_to 2 b ∷ route_to 3 c ∷ [])

abbrev nothing_blacklisted : ExitBlacklist
nothing_blacklisted = record { blacklisted_exits = []; potential_blacklists = [] }

abbrev at_start : Switcher
at_start = record {
  selected_exit = record {
    selected_id = none;
    selected_id_metric = none;
    selected_id_degradation = none;
    tracking_exit = none;
  };
  exit_blacklist = nothing_blacklisted;
  window = ([], []);
}

abbrev filled : ℕ → List ℕ
filled zero = []
filled (suc n) = 300 ∷ filled n

-- On exit 1, with exit 2 tracked for n ticks.
abbrev tracking_two : ℕ → Switcher
tracking_two n = record {
  selected_exit = record {
    selected_id = some (v6 1);
    selected_id_metric = some 400;
    selected_id_degradation = none;
    tracking_exit = some (v6 2);
  };
  exit_blacklist = nothing_blacklisted;
  window = (filled n, []);
}

-- Far below is more than by half.
half_is_not_far : is_far_below 150 300 ≡ false
unfolding is_far_below
half_is_not_far = refl

below_half_is_far : is_far_below 149 300 ≡ true
unfolding is_far_below
below_half_is_far = refl

-- The first tick takes the best exit, and a worse one that is up is not taken.
first_tick : (set_best_exit (tick 500 300 400).0 (tick 500 300 400).1 at_start).0 ≡ ok (v6 2)
unfolding set_best_exit lookup ip_eq contains update_metric_value
first_tick = refl

stays_on_one :
    (set_best_exit (tick 500 300 400).0 (tick 500 300 400).1 (tracking_two 5)).0 ≡ ok (v6 1)
unfolding set_best_exit lookup ip_eq contains update_metric_value
stays_on_one = refl

-- A hard warning counts at once, and is forgotten once the exit answers.
hard_warning_counts :
    contains (v6 2) (blacklist_strike_ip (v6 2) hard_warning nothing_blacklisted).blacklisted_exits
    ≡ true
unfolding contains blacklist_strike_ip ip_eq
hard_warning_counts = refl

answer_forgives :
    reset_blacklist_warnings (v6 2) (blacklist_strike_ip (v6 2) hard_warning nothing_blacklisted)
    ≡ nothing_blacklisted
unfolding blacklist_strike_ip reset_blacklist_warnings contains ip_eq
answer_forgives = refl

set_best_exit-IsReady_example :
    ((set_best_exit cluster (tick 500 300 400).1 at_start).0 ≢ panic)
    × IsReady (set_best_exit cluster (tick 500 300 400).1 at_start).1
set_best_exit-IsReady_example =
    set_best_exit-IsReady cluster (tick 500 300 400).1 at_start
      (record { initial = λ p. refl; bounded = omega arith })

set_best_exit-failover_example :
    HasMoved (v6 2) 300 (set_best_exit cluster (tick 65535 300 400).1 (tracking_two 5))
    × (IsFound [] (tick 65535 300 400).1 cluster (v6 2) 300 × (300 ≤ 400))
unfolding metrics_of lookup ip_eq contains
set_best_exit-failover_example =
    set_best_exit-failover (tick 65535 300 400) (tracking_two 5) (v6 2) (exit_at 3)
      (record { prefix = v6 3; metric = 400 })
      (record { initial = λ p. ground arith; bounded = omega arith }) refl refl
      (Memᴰ.tail (Memᴰ.tail (Memᴰ.head refl))) (refl, refl)
