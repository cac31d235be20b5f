-- ===== src/ExitManager/Switcher/Failover.antt =====
-- The move to another exit where the current one is down, in
-- rita_client/src/exit_manager/exit_switcher.rs.
use rita.Common.{
  ℕ, ◌≡◌, ◌≤◌, refl, sym, ◌∙◌, true, Option, some, List, [], ◌∷◌, arith, Option-cases, inl, inr,
}
use mathlib.Core.List.{Memᴰ}
use rita.Outcome.{ResultOf, ok}
use rita.Types.{IpAddr, Identity}
use rita.ExitManager.{RitaClientError, ExitSwitchingCode, initial_exit_setup}
use rita.ExitManager.Switcher.{
  Route, Search, ExitMap, ExitMetrics, get_exit_metrics, reset_exit_tracking, start_search,
}
use rita.ExitManager.Switcher.Best.{search, IsOffered, IsFound, search-minimal, search-IsFound}
use rita.ExitManager.Switcher.Tick.{
  Window, Switcher, conclude, settle, set_best_exit, metrics_of, observed, fresh_exit, or_else,
  metric_or_max,
}
use rita.ExitManager.Switcher.Safe.{
  IsReady, IsGathered, update-initial, update-track, track-IsFilled, observed-IsReady,
  observed-IsGathered, set_best_exit-settle,
}
use rita.ExitManager.Switcher.Move.{no_routes-no_best}
use rita.ExitManager.Switcher.Stay.{metrics_at, Routes}

module _ (current tracking : Option IpAddr) (initial : ℕ) (blacklisted : List IpAddr)
    (routes : List (IpAddr × Route)) (exit_list : List Identity) (exit_map : ExitMap) where
  abbrev found : ExitMetrics
  found = (get_exit_metrics current tracking initial blacklisted routes exit_list exit_map).0

  abbrev searched : Search
  searched = search current tracking initial blacklisted routes exit_list (start_search exit_map)

  down-searched :
      found.is_exit_down ≡ true
      → (found.best_exit ≡ searched.best) × (found.best_exit_met ≡ searched.best_metric)
  unfolding get_exit_metrics
  down-searched d = (ground (arith, d), ground (arith, d))

  -- The exit that is found, where the current one is down.
  down-IsFound :
      (b : IpAddr)
      → found.is_exit_down ≡ true
      → found.best_exit ≡ some b
      → IsFound blacklisted routes exit_list b found.best_exit_met
  down-IsFound b d h =
      let (e, m) = down-searched d in
      elim (search-IsFound current tracking initial blacklisted routes exit_list
        (start_search exit_map) b (sym e ∙ h)) [ inl (p, q) ↦ ground arith | inr f ↦ rw (m) f ]

  down-minimal :
      (exit : Identity) (route : Route)
      → found.is_exit_down ≡ true
      → Memᴰ exit exit_list
      → IsOffered blacklisted routes exit route
      → found.best_exit_met ≤ route.metric
  down-minimal exit route d mem o =
      let (e, m) = down-searched d in
      rw (m) (
        search-minimal current tracking initial blacklisted routes exit_list (start_search exit_map)
          exit route mem o)

conclude-down :
    (m : ExitMetrics) (best : IpAddr) (s : Switcher) (code : ExitSwitchingCode) (w : Window)
    → m.is_exit_down ≡ true
    → conclude m best s (ok code, w)
      ≡ (ok best, record s { selected_exit = fresh_exit m; window = ([], reset_exit_tracking w.1) })
unfolding conclude
conclude-down m best s code w d = ground (arith, d)

-- The states in which `b` is the exit, and nothing is yet known of another.
abbrev pub HasMoved : IpAddr → ℕ → ResultOf RitaClientError IpAddr × Switcher → Type 0
HasMoved b met (res, s) =
    (res ≡ ok b)
    × ((s.selected_exit.selected_id ≡ some b)
        × ((s.selected_exit.selected_id_metric ≡ some met) × (s.window.0 ≡ [])))

settle-down :
    (m : ExitMetrics) (best : IpAddr) (s : Switcher)
    → IsGathered m best s
    → IsReady s
    → m.is_exit_down ≡ true
    → HasMoved best m.best_exit_met (settle m best s)
unfolding settle
settle-down m best s o r d = elim (Option-cases m.cur_exit) [
  | inl e ↦
      rw
        (
          update-initial m s.window.0 s.window.1 e (r.initial (sym o.same ∙ e)),
          conclude-down m best s initial_exit_setup ([], s.window.1) d,
        )
        (refl, (o.found, (refl, refl)))
  | inr (c, e) ↦
      (let (code, (w, (p, f))) =
          track-IsFilled m c (or_else m.tracking_exit best) best s.window.0 s.window.1 o.tracked
            r.bounded in
        rw (update-track m c best s.window e o.found, p, conclude-down m best s code w d)
          (refl, (o.found, (refl, refl))))
]

-- In a state that is ready, where the current exit is down or not chosen and a best exit is found,
-- `set_best_exit` returns that exit and selects it with its metric, and the window is empty. The
-- exit is one of the list with a route and is not blacklisted, and its metric is at most that of
-- any such exit.
pub set_best_exit-failover :
    (tick : Routes) (s : Switcher) (b : IpAddr) (exit : Identity) (route : Route)
    → IsReady s
    → (metrics_at tick s).is_exit_down ≡ true
    → (metrics_at tick s).best_exit ≡ some b
    → Memᴰ exit tick.0
    → IsOffered s.exit_blacklist.blacklisted_exits tick.1 exit route
    → HasMoved b (metrics_at tick s).best_exit_met (set_best_exit tick.0 tick.1 s)
      × (IsFound s.exit_blacklist.blacklisted_exits tick.1 tick.0 b
            (metrics_at tick s).best_exit_met
          × ((metrics_at tick s).best_exit_met ≤ route.metric))
unfolding metrics_of
set_best_exit-failover (exit_list, []) s b exit route r d h mem o =
    ground (arith, no_routes-no_best exit_list s)
set_best_exit-failover (exit_list, e ∷ routes) s b exit route r d h mem o = (
  rw (set_best_exit-settle exit_list e routes s b h) (
      settle-down (metrics_at (exit_list, e ∷ routes) s) b (observed exit_list (e ∷ routes) s)
        (observed-IsGathered exit_list e routes s b h) (observed-IsReady exit_list e routes s r) d),
  (
    down-IsFound s.selected_exit.selected_id s.selected_exit.tracking_exit
        (metric_or_max s.selected_exit.selected_id_metric) s.exit_blacklist.blacklisted_exits
        (e ∷ routes) exit_list s.window.1 b d h,
    down-minimal s.selected_exit.selected_id s.selected_exit.tracking_exit
        (metric_or_max s.selected_exit.selected_id_metric) s.exit_blacklist.blacklisted_exits
        (e ∷ routes) exit_list s.window.1 exit route d mem o,
  ),
)
