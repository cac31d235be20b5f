-- ===== src/ExitManager/Switcher/Safe.antt =====
-- The window and the selected exit across calls of `set_best_exit` in
-- rita_client/src/exit_manager/exit_switcher.rs.
use rita.Common.{
  ℕ, ◌≡◌, ◌≢◌, ◌∙◌, ◌≤◌, refl, sym, subst, true, false, not, ◌&&◌, none, some, List, [], ◌∷◌, arith,
  ◌==◌, Option-cases, Bool-cases, inl, inr,
}
use rita.Common.Lists.{length, length-++}
use rita.Outcome.{ResultOf, ok, panic}
use rita.Types.{IpAddr, ip_eq, Identity}
use rita.ExitManager.{
  SelectedExit, ExitSwitchingCode, RitaClientError, initial_exit_setup, continue_current_reset,
  continue_current, switch_exit, continue_tracking, reset_tracking,
}
use rita.ExitManager.Switcher.{
  Route, ExitMap, ExitMetrics, metric_entries, max_metric, calculate_average,
  worth_switching_tracking_exit,
}
use rita.ExitManager.Switcher.Known.{is_some, is_known, has_tracker, metrics-is_known, metrics-up}
use rita.ExitManager.Switcher.Tick.{
  Window, Switcher, continue_with, track, update_metric_value, next_selected, set_exit_state,
  settle, set_best_exit, metrics_of, observed, conclude, or_else, metric_or_max,
}

-- No exit is tracked before there is one, and the window does not outgrow its 180 entries.
pub record IsReady (s : Switcher) : Type 0 where
  pub initial : s.selected_exit.selected_id ≡ none → s.window.0 ≡ []
  pub bounded : length s.window.0 ≤ metric_entries

worth-total :
    (xs : List ℕ) (best : IpAddr) (exit_map : ExitMap)
    → has_tracker best exit_map ≡ true
    → worth_switching_tracking_exit xs best exit_map ≢ none
unfolding worth_switching_tracking_exit calculate_average
worth-total [] best exit_map h p = ground arith
worth-total (x ∷ xs) best exit_map h p = ground arith

-- What the window holds after an update: at least the new entry, and at most 180.
pub record IsFilled (code : ExitSwitchingCode) (w : Window) : Type 0 where
  started : code ≢ initial_exit_setup
  pub held : 1 ≤ length w.0
  bounded : length w.0 ≤ metric_entries

continue-IsFilled :
    (c t : IpAddr) (met : ℕ) (w : Window)
    → length w.0 ≤ metric_entries
    → IsFilled (continue_with c t met w).0 (continue_with c t met w).1
unfolding continue_with
continue-IsFilled c t met (xs, exit_map) h = record {
  started = λ p. ground arith;
  held = ground (arith, length-++ xs (met ∷ []));
  bounded = ground (arith, length-++ xs (met ∷ []));
}

-- How an update ends where it does not panic.
abbrev pub Fills : ResultOf RitaClientError ExitSwitchingCode × Window → Type 0
Fills u = (code : ExitSwitchingCode) × ((w : Window) × ((u ≡ (ok code, w)) × IsFilled code w))

pub track-IsFilled :
    (m : ExitMetrics) (c t best : IpAddr) (xs : List ℕ) (exit_map : ExitMap)
    → has_tracker best exit_map ≡ true
    → length xs ≤ metric_entries
    → Fills (track m c t best (xs, exit_map))
unfolding track
track-IsFilled m c t best xs exit_map h k = elim (Bool-cases (ip_eq best t)) [
  | inl e ↦ rw (e) (_, (_, (refl, continue-IsFilled c t m.best_exit_met (xs, exit_map) k)))
  | inr e ↦ elim (Option-cases (worth_switching_tracking_exit xs best exit_map)) [
    | inl w ↦ absurd (worth-total xs best exit_map h w)
    | inr (true, w) ↦
        rw (e, w)
          (
            _,
            (
              _,
              (
                refl,
                record { started = λ p. ground arith; held = ground arith; bounded = ground arith },
              ),
            ),
          )
    | inr (false, w) ↦
        rw (e, w) (_, (_, (refl, continue-IsFilled c t m.tracking_met (xs, exit_map) k)))
  ]
]

-- The exits that an update starts from: the current one, which is selected and has a metric, and
-- the best one.
record IsUp (m : ExitMetrics) (s : SelectedExit) : Type 0 where
  current : is_some m.cur_exit ≡ true
  best : is_some m.best_exit ≡ true
  selected : is_some s.selected_id ≡ true
  advertised : is_some s.selected_id_metric ≡ true

set_exit_state-total :
    (code : ExitSwitchingCode) (m : ExitMetrics) (w : Window) (s : SelectedExit)
    → IsFilled code w
    → IsUp m s
    → ((set_exit_state code m w.0 s).0 ≢ panic)
      × (is_some (set_exit_state code m w.0 s).1.selected_id ≡ true)
unfolding set_exit_state next_selected calculate_average
set_exit_state-total initial_exit_setup m w s f u = absurd (f.started refl)
set_exit_state-total continue_current_reset m w s f u = (λ p. ground arith, ground arith)
set_exit_state-total continue_current m (x ∷ xs, e) s f u = (λ p. ground arith, ground arith)
set_exit_state-total continue_current m ([], e) s f u = (λ p. ground arith, ground arith)
set_exit_state-total switch_exit m w s f u = (λ p. ground arith, ground arith)
set_exit_state-total continue_tracking m w s f u = (λ p. ground arith, ground arith)
set_exit_state-total reset_tracking m w s f u = (λ p. ground arith, ground arith)

-- What `settle` is called with.
pub record IsGathered (m : ExitMetrics) (best : IpAddr) (s : Switcher) : Type 0 where
  pub same : m.cur_exit ≡ s.selected_exit.selected_id
  pub found : m.best_exit ≡ some best
  pub tracked : has_tracker best s.window.1 ≡ true
  up :
      m.is_exit_down ≡ false
      → (is_some m.cur_exit && not (metric_or_max s.selected_exit.selected_id_metric == max_metric))
        ≡ true

conclude-total :
    (m : ExitMetrics) (best : IpAddr) (s : Switcher) (code : ExitSwitchingCode) (w : Window)
    → IsGathered m best s
    → is_some m.cur_exit ≡ true
    → IsFilled code w
    → ((conclude m best s (ok code, w)).0 ≢ panic) × IsReady (conclude m best s (ok code, w)).1
unfolding conclude
conclude-total m best s code w o c f = elim (Bool-cases m.is_exit_down) [
  | inl d ↦ simp (d) (λ p. ground arith, record { initial = λ p. refl; bounded = ground arith })
  | inr d ↦
      (let (a, b) = set_exit_state-total code m w s.selected_exit f (record {
        current = c;
        best = rw (o.found) refl;
        selected = rw (sym o.same) c;
        advertised = ground (arith, o.up d);
      }) in
        simp (d) (a, record { initial = λ p. ground arith; bounded = f.bounded }))
]

conclude-initial :
    (m : ExitMetrics) (best : IpAddr) (s : Switcher) (w : Window)
    → m.is_exit_down ≡ true
    → ((conclude m best s (ok initial_exit_setup, w)).0 ≢ panic)
      × IsReady (conclude m best s (ok initial_exit_setup, w)).1
unfolding conclude
conclude-initial m best s w d =
    simp (d) (λ p. ground arith, record { initial = λ p. refl; bounded = ground arith })

pub update-initial :
    (m : ExitMetrics) (xs : List ℕ) (exit_map : ExitMap)
    → m.cur_exit ≡ none
    → xs ≡ []
    → update_metric_value m (xs, exit_map) ≡ (ok initial_exit_setup, ([], exit_map))
unfolding update_metric_value
update-initial m xs exit_map e h = ground arith

pub update-track :
    (m : ExitMetrics) (c best : IpAddr) (w : Window)
    → m.cur_exit ≡ some c
    → m.best_exit ≡ some best
    → update_metric_value m w ≡ track m c (or_else m.tracking_exit best) best w
unfolding update_metric_value
update-track m c best w e h = ground arith

settle-total :
    (m : ExitMetrics) (best : IpAddr) (s : Switcher)
    → IsGathered m best s
    → IsReady s
    → ((settle m best s).0 ≢ panic) × IsReady (settle m best s).1
unfolding settle
settle-total m best s o r = elim (Option-cases m.cur_exit) [
  | inl e ↦
      rw (update-initial m s.window.0 s.window.1 e (r.initial (sym o.same ∙ e)))
        (conclude-initial m best s _ (ground (arith, o.up)))
  | inr (c, e) ↦
      (let (code, (w, (p, f))) =
          track-IsFilled m c (or_else m.tracking_exit best) best s.window.0 s.window.1 o.tracked
            r.bounded in
        rw (update-track m c best s.window e o.found, p)
          (conclude-total m best s code w o (rw (e) refl) f))
]

module _ (exit_list : List Identity) (route : IpAddr × Route) (routes : List (IpAddr × Route))
    (s : Switcher) where
  abbrev pub m : ExitMetrics
  m = (metrics_of exit_list (route ∷ routes) s).0

  abbrev pub s' : Switcher
  s' = observed exit_list (route ∷ routes) s

  pub set_best_exit-none : m.best_exit ≡ none → (set_best_exit exit_list (route ∷ routes) s).1 ≡ s'
  unfolding set_best_exit
  set_best_exit-none e = ground (arith, e)

  set_best_exit-no_panic :
      m.best_exit ≡ none → (set_best_exit exit_list (route ∷ routes) s).0 ≢ panic
  unfolding set_best_exit
  set_best_exit-no_panic e p = ground (arith, e)

  pub set_best_exit-settle :
      (best : IpAddr)
      → m.best_exit ≡ some best
      → set_best_exit exit_list (route ∷ routes) s ≡ settle m best s'
  unfolding set_best_exit
  set_best_exit-settle best e = ground (arith, e)

  pub observed-IsReady : IsReady s → IsReady s'
  unfolding observed
  observed-IsReady r = record { initial = r.initial; bounded = r.bounded }

  pub observed-IsGathered : (best : IpAddr) → m.best_exit ≡ some best → IsGathered m best s'
  unfolding observed metrics_of
  observed-IsGathered best e = record {
    same = refl;
    found = e;
    tracked =
        subst (λ o. is_known o s'.window.1 ≡ true) e
          (metrics-is_known s.selected_exit.selected_id s.selected_exit.tracking_exit
            (metric_or_max s.selected_exit.selected_id_metric) s.exit_blacklist.blacklisted_exits
            (route ∷ routes) exit_list s.window.1);
    up =
        metrics-up s.selected_exit.selected_id s.selected_exit.tracking_exit
          (metric_or_max s.selected_exit.selected_id_metric) s.exit_blacklist.blacklisted_exits
          (route ∷ routes) exit_list s.window.1;
  }

  pub set_best_exit-IsReady_by :
      IsReady s
      → ((set_best_exit exit_list (route ∷ routes) s).0 ≢ panic)
        × IsReady (set_best_exit exit_list (route ∷ routes) s).1
  set_best_exit-IsReady_by r = elim (Option-cases m.best_exit) [
    | inl e ↦ (set_best_exit-no_panic e, rw (set_best_exit-none e) (observed-IsReady r))
    | inr (best, e) ↦
        rw (set_best_exit-settle best e)
          (settle-total m best s' (observed-IsGathered best e) (observed-IsReady r))
  ]

-- From a state that is ready, in which no exit is tracked before one is selected and the window
-- holds at most 180 entries, a call of `set_best_exit` does not panic, whatever the exits and the
-- routes, and the state that it leaves is ready again.
pub set_best_exit-IsReady :
    (exit_list : List Identity) (routes : List (IpAddr × Route)) (s : Switcher)
    → IsReady s
    → ((set_best_exit exit_list routes s).0 ≢ panic) × IsReady (set_best_exit exit_list routes s).1
unfolding set_best_exit
set_best_exit-IsReady exit_list [] s r = (λ p. ground arith, r)
set_best_exit-IsReady exit_list (route ∷ routes) s r =
    set_best_exit-IsReady_by exit_list route routes s r
