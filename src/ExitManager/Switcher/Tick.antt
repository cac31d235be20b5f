-- ===== src/ExitManager/Switcher/Tick.antt =====
-- One call of `set_best_exit` of rita_client/src/exit_manager/exit_switcher.rs.
use rita.Common.{
  ℕ, ◌-◌, Bool, true, false, Option, none, some, List, [], ◌∷◌, ◌++◌, leb, ◌==◌, if◌then◌else◌,
}
use rita.Common.Lists.{length}
use rita.Outcome.{ResultOf, ActionOf, ok, err, panic, or_panic}
use rita.Types.{IpAddr, ip_eq, Identity}
use rita.ExitManager.{
  SelectedExit, ExitBlacklist, ExitSwitchingCode, RitaClientError, misc_string_error,
  initial_exit_setup, continue_current_reset, continue_current, switch_exit, continue_tracking,
  reset_tracking, reset_exit_blacklist,
}
use rita.ExitManager.Switcher.{
  Route, ExitMap, ExitMetrics, metric_entries, max_metric, get_exit_metrics, reset_exit_tracking,
  calculate_average, worth_switching_tracking_exit,
}

-- METRIC_VALUES and EXIT_TRACKER.
abbrev pub Window : Type 0
Window = List ℕ × ExitMap

-- The branch where the best exit is the tracked one.
unfoldable pub continue_with : IpAddr → IpAddr → ℕ → Window → ExitSwitchingCode × Window
unfolding reset_exit_tracking
continue_with current_exit tracking_exit best_metric (metric_vec, exit_map) =
    if ip_eq current_exit tracking_exit
    then if length metric_vec == metric_entries
      then (continue_current_reset, (best_metric ∷ [], reset_exit_tracking exit_map))
      else (continue_current, (metric_vec ++ best_metric ∷ [], exit_map))
    else if length metric_vec == metric_entries
    then (switch_exit, (best_metric ∷ [], reset_exit_tracking exit_map))
    else (continue_tracking, (metric_vec ++ best_metric ∷ [], exit_map))

-- The recursive call of the source has the tracked exit for the best one, and so takes the branch
-- of `continue_with`.
unfoldable pub track :
    ExitMetrics → IpAddr → IpAddr → IpAddr → ActionOf RitaClientError Window ExitSwitchingCode
unfolding continue_with reset_exit_tracking worth_switching_tracking_exit
track m current_exit tracking_exit best_exit (metric_vec, exit_map) =
    if ip_eq best_exit tracking_exit
    then (let (code, w) =
          continue_with current_exit tracking_exit m.best_exit_met (metric_vec, exit_map) in
        (ok code, w))
    else elim (worth_switching_tracking_exit metric_vec best_exit exit_map) [
      | none ↦ (panic, (metric_vec, exit_map))
      | some true ↦ (ok reset_tracking, (m.best_exit_met ∷ [], reset_exit_tracking exit_map))
      | some false ↦
          (let (code, w) =
              continue_with current_exit tracking_exit m.tracking_met (metric_vec, exit_map) in
            (ok code, w))
    ]

abbrev pub or_else : Option IpAddr → IpAddr → IpAddr
or_else none b = b
or_else (some a) b = a

unfoldable pub update_metric_value : ExitMetrics → ActionOf RitaClientError Window ExitSwitchingCode
unfolding track
update_metric_value m (metric_vec, exit_map) = elim m.cur_exit [
  | none ↦ elim metric_vec [
    | [] ↦ (ok initial_exit_setup, ([], exit_map))
    | x ∷ xs ↦ (panic, (x ∷ xs, exit_map))
  ]
  | some current_exit ↦ elim m.best_exit [
    | none ↦ (panic, (metric_vec, exit_map))
    | some best_exit ↦
        track m current_exit (or_else m.tracking_exit best_exit) best_exit (metric_vec, exit_map)
  ]
]

unfoldable pub checked_sub : ℕ → ℕ → Option ℕ
checked_sub a b = if leb b a then some (a - b) else none

abbrev pub new_degradation : ℕ → ℕ → SelectedExit → SelectedExit
new_degradation metric advertised s = record s {
  selected_id_degradation = checked_sub metric advertised;
}

-- The selected exit that the match leaves, and `none` where it panics on a missing metric.
unfoldable pub next_selected :
    ExitSwitchingCode → ExitMetrics → List ℕ → SelectedExit → Option SelectedExit
unfolding checked_sub calculate_average
next_selected initial_exit_setup m metric_vec s = none
next_selected continue_current_reset m metric_vec s = elim s.selected_id_metric [
  | none ↦ none
  | some advertised ↦ some (new_degradation m.cur_exit_babel_met advertised s)
]
next_selected continue_current m metric_vec s = elim s.selected_id_degradation [
  | none ↦ elim (calculate_average metric_vec) [
    | none ↦ none
    | some average_metric ↦ elim s.selected_id_metric [
      | none ↦ none
      | some advertised ↦ some (new_degradation average_metric advertised s)
    ]
  ]
  | some degradation ↦ elim (checked_sub m.cur_exit_babel_met degradation) [
    | none ↦ some s
    | some res ↦ some (record s { selected_id_metric = some res })
  ]
]
next_selected switch_exit m metric_vec s = some (record {
  selected_id = m.best_exit;
  selected_id_metric = some m.best_exit_met;
  selected_id_degradation = none;
  tracking_exit = m.best_exit;
})
next_selected continue_tracking m metric_vec s = some s
next_selected reset_tracking m metric_vec s = some (record s { tracking_exit = m.best_exit })

abbrev pub chosen : ExitSwitchingCode → ExitMetrics → Option IpAddr
chosen switch_exit m = m.best_exit
chosen _ m = m.cur_exit

unfoldable pub set_exit_state :
    ExitSwitchingCode → ExitMetrics → List ℕ → ActionOf RitaClientError SelectedExit IpAddr
unfolding next_selected
set_exit_state code m metric_vec s = elim (next_selected code m metric_vec s) [
  | none ↦ (panic, s)
  | some s' ↦ or_panic (chosen code m) s'
]

pub record Switcher : Type 0 where
  pub selected_exit : SelectedExit
  pub exit_blacklist : ExitBlacklist
  pub window : Window

abbrev pub metric_or_max : Option ℕ → ℕ
metric_or_max none = max_metric
metric_or_max (some metric) = metric

unfoldable pub metrics_of :
    List Identity → List (IpAddr × Route) → Switcher → ExitMetrics × Bool × ExitMap
unfolding get_exit_metrics
metrics_of exit_list routes s =
    get_exit_metrics s.selected_exit.selected_id s.selected_exit.tracking_exit
      (metric_or_max s.selected_exit.selected_id_metric) s.exit_blacklist.blacklisted_exits routes
      exit_list s.window.1

-- What is selected where there was no exit that works.
abbrev pub fresh_exit : ExitMetrics → SelectedExit
fresh_exit m = record {
  selected_id = m.best_exit;
  selected_id_metric = some m.best_exit_met;
  selected_id_degradation = none;
  tracking_exit = m.best_exit;
}

-- What follows the update of the window, with its exit code and the window.
unfoldable pub conclude :
    ExitMetrics
    → IpAddr
    → Switcher
    → ResultOf RitaClientError ExitSwitchingCode × Window
    → ResultOf RitaClientError IpAddr × Switcher
unfolding set_exit_state reset_exit_tracking
conclude m best s (ok code, w) =
    if m.is_exit_down
    then (
      ok best,
      record s { selected_exit = fresh_exit m; window = ([], reset_exit_tracking w.1) },
    )
    else (let (res, selected) = set_exit_state code m w.0 s.selected_exit in
        (res, record s { selected_exit = selected; window = w }))
conclude m best s (err e, w) = (err e, record s { window = w })
conclude m best s (panic, w) = (panic, record s { window = w })

-- From the update of the window on, where the best exit is `best`.
unfoldable pub settle : ExitMetrics → IpAddr → ActionOf RitaClientError Switcher IpAddr
unfolding conclude
settle m best s = conclude m best s (update_metric_value m s.window)

-- The state once the metrics are found.
unfoldable pub observed : List Identity → List (IpAddr × Route) → Switcher → Switcher
unfolding metrics_of reset_exit_blacklist
observed exit_list routes s =
    let (m, all_exits_blacklisted, exit_map) = metrics_of exit_list routes s in
    record s {
      exit_blacklist =
          if all_exits_blacklisted then reset_exit_blacklist s.exit_blacklist else s.exit_blacklist;
      window = (s.window.0, exit_map);
    }

unfoldable pub set_best_exit :
    List Identity → List (IpAddr × Route) → ActionOf RitaClientError Switcher IpAddr
unfolding metrics_of observed settle
set_best_exit exit_list [] s = (err (misc_string_error "No routes are found"), s)
set_best_exit exit_list (route ∷ routes) s =
    let m = (metrics_of exit_list (route ∷ routes) s).0 in
    let s' = observed exit_list (route ∷ routes) s in
    elim m.best_exit [
      | none ↦ (
        err (misc_string_error "No exit routes found, likely because routing table is empty"),
        s',
      )
      | some best ↦ settle m best s'
    ]
