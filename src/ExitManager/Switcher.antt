-- ===== src/ExitManager/Switcher.antt =====
-- rita_client/src/exit_manager/exit_switcher.rs: when to move from one exit of the cluster to
-- another. The state is that of the three globals that the file and its parent lock. A metric is a
-- u16 and the sums are u64, which wrap around in the release build; 65535 is the metric of no route.
-- A route is what babel reports of it, as far as this file reads it.
pub mod Tick
pub mod Known
pub mod Safe
pub mod Stay
pub mod Move
pub mod Best
pub mod Failover
use rita.Common.{
  ℕ, ◌+◌, ◌-◌, ◌*◌, ◌/◌, ◌%◌, ◌^◌, Bool, true, false, not, ◌&&◌, ◌||◌, Option, none, some, List, [],
  ◌∷◌, ltb, leb, ◌==◌, if◌then◌else◌,
}
use rita.Common.Map.{lookup, insert}
use rita.Types.{IpAddr, ip_eq, ip_key, Identity}
use rita.Common.Lists.{length}
use rita.ExitManager.{contains}

-- METRIC_ENTRIES, one entry for each 5 seconds of 15 minutes.
abbrev pub metric_entries : ℕ
metric_entries = 15 * 60 / 5

abbrev pub max_metric : ℕ
max_metric = 65_535

pub record Route : Type 0 where
  pub prefix : IpAddr
  pub metric : ℕ

pub record ExitTracker : Type 0 where
  pub last_added_metric : ℕ
  pub running_total : ℕ
  pub ticker_len : ℕ

abbrev pub ExitMap : Type 0
ExitMap = List (IpAddr × ExitTracker)

pub record ExitMetrics : Type 0 where
  pub is_exit_down : Bool
  pub cur_exit : Option IpAddr
  pub cur_exit_babel_met : ℕ
  pub tracking_exit : Option IpAddr
  pub tracking_met : ℕ
  pub best_exit : Option IpAddr
  pub best_exit_met : ℕ

abbrev add_u64 : ℕ → ℕ → ℕ
add_u64 a b = (a + b) % 2 ^ 64

abbrev sub_u64 : ℕ → ℕ → ℕ
sub_u64 a b = (a + 2 ^ 64 - b) % 2 ^ 64

unfoldable pub observe : ℕ → ExitTracker → ExitTracker
observe met exit =
    if exit.last_added_metric == 0
    then record {
      last_added_metric = met;
      running_total = add_u64 exit.running_total met;
      ticker_len = (exit.ticker_len + 1) % 2 ^ 16;
    }
    else if ltb met exit.last_added_metric
    then record exit {
      last_added_metric = met;
      running_total = add_u64 (sub_u64 exit.running_total exit.last_added_metric) met;
    }
    else exit

unfoldable pub observe_cluster_metrics : ExitMap → IpAddr → ℕ → ExitMap
unfolding observe
observe_cluster_metrics exit_map ip met = elim (lookup ip_key ip exit_map) [
  | none ↦
      insert ip_key ip (record { last_added_metric = met; running_total = met; ticker_len = 1 })
        exit_map
  | some exit ↦ insert ip_key ip (observe met exit) exit_map
]

unfoldable pub set_last_added_to_zero : ExitMap → ExitMap
set_last_added_to_zero [] = []
set_last_added_to_zero ((ip, v) ∷ exit_map) =
    (ip, record v { last_added_metric = 0 }) ∷ set_last_added_to_zero exit_map

unfoldable pub reset_exit_tracking : ExitMap → ExitMap
reset_exit_tracking [] = []
reset_exit_tracking ((ip, v) ∷ exit_map) =
    (ip, record { last_added_metric = 0; running_total = 0; ticker_len = 0 })
    ∷ reset_exit_tracking exit_map

-- What the loop over the exits carries along.
pub record Search : Type 0 where
  pub best : Option IpAddr
  pub best_metric : ℕ
  pub current_exit_down : Bool
  pub current_exit_metric : ℕ
  pub tracking_metric : ℕ
  pub all_exits_blacklisted : Bool
  pub exit_map : ExitMap

abbrev pub start_search : ExitMap → Search
start_search exit_map = record {
  best = none;
  best_metric = max_metric;
  current_exit_down = true;
  current_exit_metric = max_metric;
  tracking_metric = max_metric;
  all_exits_blacklisted = true;
  exit_map = exit_map;
}

abbrev pub is_exit : Option IpAddr → IpAddr → Bool
is_exit none ip = false
is_exit (some exit_ip) ip = ip_eq exit_ip ip

abbrev pub smaller : ℕ → ℕ → ℕ
smaller a b = if ltb b a then b else a

module _ (current tracking : Option IpAddr) (initial_best_metric : ℕ)
    (blacklisted : List IpAddr) where
  -- The body of the loop, for a route to an exit that is not blacklisted.
  unfoldable pub consider : Route → Search → Search
  unfolding observe_cluster_metrics
  consider route s =
      let is_up =
        is_exit current route.prefix
        && not (route.metric == max_metric)
        && not (initial_best_metric == max_metric) in
      let is_tracked = is_exit tracking route.prefix && not (route.metric == max_metric) in
      let is_better = ltb route.metric s.best_metric in
      record {
        best = if is_better then some route.prefix else s.best;
        best_metric = if is_better then route.metric else s.best_metric;
        current_exit_down = if is_up then false else s.current_exit_down;
        current_exit_metric =
            if is_up then smaller s.current_exit_metric route.metric else s.current_exit_metric;
        tracking_metric =
            if is_tracked then smaller s.tracking_metric route.metric else s.tracking_metric;
        all_exits_blacklisted = false;
        exit_map = observe_cluster_metrics s.exit_map route.prefix route.metric;
      }

  unfoldable pub visit : Option Route → Search → Search
  unfolding consider
  visit none s = s
  visit (some route) s = if contains route.prefix blacklisted then s else consider route s

  unfoldable pub search_exits : List (IpAddr × Route) → List Identity → Search → Search
  unfolding visit
  search_exits routes [] s = s
  search_exits routes (exit ∷ exit_list) s =
      search_exits routes exit_list (visit (lookup ip_key exit.mesh_ip routes) s)

  -- The metrics, with whether the blacklist is to be cleared and the observed exits.
  unfoldable pub get_exit_metrics :
      List (IpAddr × Route) → List Identity → ExitMap → ExitMetrics × Bool × ExitMap
  unfolding search_exits set_last_added_to_zero
  get_exit_metrics routes exit_list exit_map =
      let s = search_exits routes exit_list (start_search exit_map) in
      let stays = not s.current_exit_down && ltb initial_best_metric s.best_metric in
      (
        record {
          is_exit_down = s.current_exit_down;
          cur_exit = current;
          cur_exit_babel_met = s.current_exit_metric;
          tracking_exit = tracking;
          tracking_met = s.tracking_metric;
          best_exit = if stays then current else s.best;
          best_exit_met = if stays then initial_best_metric else s.best_metric;
        },
        s.all_exits_blacklisted,
        set_last_added_to_zero s.exit_map,
      )

abbrev sum : List ℕ → ℕ
sum [] = 0
sum (x ∷ xs) = x + sum xs

-- `none` is the panic. The sum of at most 180 metrics fits u64.
unfoldable pub calculate_average : List ℕ → Option ℕ
calculate_average [] = none
calculate_average (x ∷ xs) = some (sum (x ∷ xs) / length (x ∷ xs) % 2 ^ 16)

-- (tracking - best) / tracking > 0.5 in f64: with both numbers of 16 bits the quotient is above 0.5
-- just if it is so before it is rounded.
unfoldable pub is_far_below : ℕ → ℕ → Bool
is_far_below avg_best_metric avg_tracking_metric =
    not (ltb avg_tracking_metric avg_best_metric || avg_best_metric == 0)
    && ltb avg_tracking_metric (2 * (avg_tracking_metric - avg_best_metric))

-- `none` is the panic of a missing tracker, or of the average.
unfoldable pub worth_switching_tracking_exit : List ℕ → IpAddr → ExitMap → Option Bool
unfolding calculate_average is_far_below
worth_switching_tracking_exit [] best_ip exit_map = some false
worth_switching_tracking_exit (x ∷ xs) best_ip exit_map = elim (calculate_average (x ∷ xs)) [
  | none ↦ none
  | some avg_tracking_metric ↦ elim (lookup ip_key best_ip exit_map) [
    | none ↦ none
    | some exit_tracker ↦
        if exit_tracker.ticker_len == 0
        then some false
        else some (
            is_far_below (exit_tracker.running_total / exit_tracker.ticker_len % 2 ^ 16)
              avg_tracking_metric)
  ]
]
