-- ===== src/ExitManager/Switcher/Move.antt =====
-- When rita_client/src/exit_manager/exit_switcher.rs moves from an exit that works to another.
use rita.Common.{ℕ, ◌≡◌, ap, refl, ◌∙◌, false, Option, none, some, List, [], ◌∷◌, arith}
use rita.Common.Map.{lookup}
use rita.Common.Lists.{length}
use rita.Outcome.{ok}
use rita.Types.{IpAddr, ip_eq, Identity}
use rita.ExitManager.{switch_exit}
use rita.ExitManager.Switcher.{
  ExitMetrics, get_exit_metrics, Search, search_exits, visit, start_search, metric_entries,
  reset_exit_tracking, worth_switching_tracking_exit,
}
use rita.ExitManager.Switcher.Tick.{
  Window, Switcher, continue_with, track, update_metric_value, next_selected, set_exit_state,
  conclude, settle, set_best_exit, metrics_of, observed, metric_or_max, fresh_exit,
}
use rita.ExitManager.Switcher.Safe.{set_best_exit-settle, update-track}
use rita.ExitManager.Switcher.Stay.{Routes, metrics_at}

-- At every tick of a run the current exit is up and `best` is the best one.
abbrev pub AllLead : IpAddr → List Routes → Switcher → Type 0
AllLead best [] s = Unit {0}
AllLead best (tick ∷ ticks) s =
    ((metrics_at tick s).is_exit_down ≡ false)
    × (((metrics_at tick s).best_exit ≡ some best)
        × AllLead best ticks (set_best_exit tick.0 tick.1 s).1)

conclude-moves :
    (m : ExitMetrics) (best : IpAddr) (s : Switcher) (w : Window)
    → m.is_exit_down ≡ false
    → (conclude m best s (ok switch_exit, w)).1.selected_exit ≡ fresh_exit m
unfolding conclude set_exit_state next_selected
conclude-moves m best s w d = ground (arith, d)

same-exits :
    (tick : Routes) (s : Switcher)
    → ((metrics_at tick s).cur_exit ≡ s.selected_exit.selected_id)
      × ((metrics_at tick s).tracking_exit ≡ s.selected_exit.tracking_exit)
unfolding metrics_of get_exit_metrics
same-exits (exit_list, routes) s = (refl, refl)

-- An update where the tracked exit is the best one, and not the current one.
update-lead :
    (m : ExitMetrics) (c t b : IpAddr) (w : Window)
    → m.cur_exit ≡ some c
    → m.tracking_exit ≡ some t
    → m.best_exit ≡ some b
    → update_metric_value m w ≡ track m c t b w
update-lead m c t b w e y h = update-track m c b w e h ∙ rw (y) refl

search-no_routes :
    (c t : Option IpAddr) (n : ℕ) (blacklisted : List IpAddr) (exit_list : List Identity)
    (s : Search)
    → search_exits c t n blacklisted [] exit_list s ≡ s
unfolding search_exits visit lookup
search-no_routes c t n blacklisted [] s = refl
search-no_routes c t n blacklisted (exit ∷ exit_list) s =
    search-no_routes c t n blacklisted exit_list s

pub no_routes-no_best :
    (exit_list : List Identity) (s : Switcher) → (metrics_at (exit_list, []) s).best_exit ≡ none
unfolding metrics_of get_exit_metrics
no_routes-no_best exit_list s =
    rw
      (search-no_routes s.selected_exit.selected_id s.selected_exit.tracking_exit
        (metric_or_max s.selected_exit.selected_id_metric) s.exit_blacklist.blacklisted_exits
        exit_list (start_search s.window.1))
      refl

module _ (c b : IpAddr) (away : ip_eq c b ≡ false) where
  abbrev IsTracking : Switcher → Type 0
  IsTracking s = (s.selected_exit.selected_id ≡ some c) × (s.selected_exit.tracking_exit ≡ some b)

-- A full window whose exit is neither the current one nor, in this tick, the best.
module _ (c t b : IpAddr) (away : ip_eq c t ≡ false) (other : ip_eq b t ≡ false) where
  track-momentary :
      (m : ExitMetrics) (w : Window)
      → length w.0 ≡ metric_entries
      → worth_switching_tracking_exit w.0 b w.1 ≡ some false
      → track m c t b w ≡ (ok switch_exit, (m.tracking_met ∷ [], reset_exit_tracking w.1))
  unfolding track continue_with
  track-momentary m w k v = rw (other, v) (rw (away) (ground (arith, k)))

  settle-momentary :
      (m : ExitMetrics) (s : Switcher)
      → m.is_exit_down ≡ false
      → m.cur_exit ≡ some c
      → m.tracking_exit ≡ some t
      → m.best_exit ≡ some b
      → length s.window.0 ≡ metric_entries
      → worth_switching_tracking_exit s.window.0 b s.window.1 ≡ some false
      → (settle m b s).1.selected_exit.selected_id ≡ some b
  unfolding settle
  settle-momentary m s d e y h k v =
      rw (update-lead m c t b s.window e y h, track-momentary m s.window k v)
        (ap (λ selected. selected.selected_id) (conclude-moves m b s _ d) ∙ h)

  -- Where the window is full, the current exit is up and is not the tracked one, and the best exit
  -- of this tick is not the tracked one either and not far enough below it to be tracked, the exit
  -- that is selected is the best one of this tick, not the tracked one.
  pub moves_to_momentary_best :
      (tick : Routes) (s : Switcher)
      → s.selected_exit.selected_id ≡ some c
      → s.selected_exit.tracking_exit ≡ some t
      → (metrics_at tick s).is_exit_down ≡ false
      → (metrics_at tick s).best_exit ≡ some b
      → length s.window.0 ≡ metric_entries
      → worth_switching_tracking_exit s.window.0 b (metrics_of tick.0 tick.1 s).2 ≡ some false
      → (set_best_exit tick.0 tick.1 s).1.selected_exit.selected_id ≡ some b
  unfolding observed
  moves_to_momentary_best (exit_list, []) s x y d h k v =
      ground (arith, no_routes-no_best exit_list s)
  moves_to_momentary_best (exit_list, route ∷ routes) s x y d h k v =
      let m = metrics_at (exit_list, route ∷ routes) s in
      let (e, z) = same-exits (exit_list, route ∷ routes) s in
      rw (set_best_exit-settle exit_list route routes s b h)
        (settle-momentary m (observed exit_list (route ∷ routes) s) d (e ∙ x) (z ∙ y) h k v)
