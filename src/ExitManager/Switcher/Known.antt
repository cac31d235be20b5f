-- ===== src/ExitManager/Switcher/Known.antt =====
-- The loop of `get_exit_metrics` in rita_client/src/exit_manager/exit_switcher.rs: every exit that it
-- reports has a tracker.
use rita.Common.{
  ℕ, ◌≡◌, refl, Bool, true, false, not, ◌&&◌, ◌||◌, Option, none, some, List, [], ◌∷◌, arith, ◌==◌,
  Option-cases, Bool-cases, inl, inr, if◌then◌else◌,
}
use rita.Common.Map.{lookup, lookup-insert}
use rita.Types.{IpAddr, ip_eq, ip_key, Identity, ip_eq_comm, ip_eq_refl}
use rita.ExitManager.{contains}
use rita.ExitManager.Switcher.{
  Route, ExitMap, ExitMetrics, Search, max_metric, observe, observe_cluster_metrics, consider,
  visit, search_exits, start_search, get_exit_metrics, set_last_added_to_zero, is_exit,
}

-- Whether an exit has a tracker; no exit at all is known.
abbrev pub is_some {ℓ} : {A : Type ℓ} → Option A → Bool
is_some none = false
is_some (some a) = true

abbrev pub has_tracker : IpAddr → ExitMap → Bool
has_tracker ip exit_map = is_some (lookup ip_key ip exit_map)

abbrev pub is_known : Option IpAddr → ExitMap → Bool
is_known none exit_map = true
is_known (some ip) exit_map = has_tracker ip exit_map

observe-has_tracker :
    (exit_map : ExitMap) (ip j : IpAddr) (met : ℕ)
    → has_tracker j (observe_cluster_metrics exit_map ip met)
      ≡ (ip_eq ip j || has_tracker j exit_map)
unfolding observe_cluster_metrics
observe-has_tracker exit_map ip j met = elim (Option-cases (lookup ip_key ip exit_map)) [
  | inl e ↦ ground (
    arith,
    e,
    lookup-insert ip_key ip j
        (record { last_added_metric = met; running_total = met; ticker_len = 1 }) exit_map,
  )
  | inr (exit, e) ↦ ground (arith, e, lookup-insert ip_key ip j (observe met exit) exit_map)
]

observe-is_known :
    (exit_map : ExitMap) (ip : IpAddr) (met : ℕ) (o : Option IpAddr)
    → is_known o exit_map ≡ true
    → is_known o (observe_cluster_metrics exit_map ip met) ≡ true
observe-is_known exit_map ip met none h = refl
observe-is_known exit_map ip met (some j) h = ground (arith, observe-has_tracker exit_map ip j met)

observe-is_exit :
    (exit_map : ExitMap) (ip : IpAddr) (met : ℕ) (o : Option IpAddr)
    → is_exit o ip ≡ true
    → (is_some o && is_known o (observe_cluster_metrics exit_map ip met)) ≡ true
observe-is_exit exit_map ip met none h = h
observe-is_exit exit_map ip met (some j) h =
    ground (arith, observe-has_tracker exit_map ip j met, ip_eq_comm j ip)

pub zero-has_tracker :
    (exit_map : ExitMap) (ip : IpAddr)
    → has_tracker ip (set_last_added_to_zero exit_map) ≡ has_tracker ip exit_map
unfolding set_last_added_to_zero lookup
zero-has_tracker [] ip = refl
zero-has_tracker ((j, v) ∷ exit_map) ip = ground (arith, zero-has_tracker exit_map ip)

zero-is_known :
    (exit_map : ExitMap) (o : Option IpAddr)
    → is_known o (set_last_added_to_zero exit_map) ≡ is_known o exit_map
zero-is_known exit_map none = refl
zero-is_known exit_map (some ip) = zero-has_tracker exit_map ip

module _ (current tracking : Option IpAddr) (initial : ℕ) (blacklisted : List IpAddr) where
  -- The best exit of a search has a tracker, and so has the current one where it is up.
  abbrev IsSound : Search → Type 0
  IsSound s =
      (is_known s.best s.exit_map ≡ true)
      × ((s.current_exit_down
            || (is_some current && is_known current s.exit_map && not (initial == max_metric)))
          ≡ true)

  consider-IsSound :
      (route : Route) (s : Search)
      → IsSound s
      → IsSound (consider current tracking initial blacklisted route s)
  unfolding consider
  consider-IsSound route s (h, k) = (
    ground (
      arith,
      observe-has_tracker s.exit_map route.prefix route.prefix route.metric,
      ip_eq_refl route.prefix,
      observe-is_known s.exit_map route.prefix route.metric s.best h,
    ),
    ground (
      arith,
      observe-is_exit s.exit_map route.prefix route.metric current,
      observe-is_known s.exit_map route.prefix route.metric current,
    ),
  )

  visit-IsSound :
      (found : Option Route) (s : Search)
      → IsSound s
      → IsSound (visit current tracking initial blacklisted found s)
  unfolding visit
  visit-IsSound none s h = h
  visit-IsSound (some route) s h = elim (Bool-cases (contains route.prefix blacklisted)) [
    | inl e ↦ rw (e) h
    | inr e ↦ rw (e) (consider-IsSound route s h)
  ]

  search-IsSound :
      (routes : List (IpAddr × Route)) (exit_list : List Identity) (s : Search)
      → IsSound s
      → IsSound (search_exits current tracking initial blacklisted routes exit_list s)
  unfolding search_exits
  search-IsSound routes [] s h = h
  search-IsSound routes (exit ∷ exit_list) s h =
      search-IsSound routes exit_list _ (visit-IsSound (lookup ip_key exit.mesh_ip routes) s h)

  chosen-is_known :
      (s : Search) (stays : Bool)
      → IsSound s
      → (stays ≡ true → s.current_exit_down ≡ false)
      → is_known (if stays then current else s.best) (set_last_added_to_zero s.exit_map) ≡ true
  chosen-is_known s true (h, k) up = ground (arith, up refl, zero-is_known s.exit_map current)
  chosen-is_known s false (h, k) up = ground (arith, zero-is_known s.exit_map s.best)

  module _ (routes : List (IpAddr × Route)) (exit_list : List Identity) (exit_map : ExitMap) where
    abbrev found : ExitMetrics × Bool × ExitMap
    found = get_exit_metrics current tracking initial blacklisted routes exit_list exit_map

    searched-IsSound :
        IsSound (
          search_exits current tracking initial blacklisted routes exit_list
            (start_search exit_map))
    searched-IsSound = search-IsSound routes exit_list (start_search exit_map) (refl, refl)

    pub metrics-is_known : is_known found.0.best_exit found.2 ≡ true
    unfolding get_exit_metrics
    metrics-is_known =
        let s =
          search_exits current tracking initial blacklisted routes exit_list
            (start_search exit_map) in
        chosen-is_known s _ searched-IsSound (λ h. ground arith)

    pub metrics-up :
        found.0.is_exit_down ≡ false → (is_some current && not (initial == max_metric)) ≡ true
    unfolding get_exit_metrics
    metrics-up h = let (a, b) = searched-IsSound in ground arith
