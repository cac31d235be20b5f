-- ===== src/ExitManager/Switcher/Stay.antt =====
-- How long an exit that works is kept, over the ticks of rita_client/src/exit_manager/exit_loop.rs,
-- each of which calls `set_best_exit` of exit_switcher.rs.
use rita.Common.{
  ℕ, suc, ◌+◌, ◌≡◌, ◌≢◌, ◌≤◌, refl, ap, ◌∙◌, false, List, [], ◌∷◌, arith, Option-cases, inl, inr,
}
use rita.Common.Lists.{length, length-++}
use rita.Outcome.{ResultOf, ok, err, panic}
use rita.Types.{IpAddr, Identity}
use rita.ExitManager.{
  SelectedExit, RitaClientError, ExitSwitchingCode, initial_exit_setup, continue_current_reset,
  continue_current, switch_exit, continue_tracking, reset_tracking,
}
use rita.ExitManager.Switcher.{Route, ExitMap, ExitMetrics, metric_entries}
use rita.ExitManager.Switcher.Tick.{
  Window, Switcher, continue_with, track, update_metric_value, next_selected, set_exit_state,
  conclude, settle, set_best_exit, metrics_of, observed, or_else,
}
use rita.ExitManager.Switcher.Safe.{set_best_exit-none, set_best_exit-settle, update-track}

abbrev pub Routes : Type 0
Routes = List Identity × List (IpAddr × Route)

unfoldable pub run : List Routes → Switcher → Switcher
run [] s = s
run ((exit_list, routes) ∷ ticks) s = run ticks (set_best_exit exit_list routes s).1

abbrev pub metrics_at : Routes → Switcher → ExitMetrics
metrics_at (exit_list, routes) s = (metrics_of exit_list routes s).0

-- The current exit is up at every tick of a run.
abbrev pub AllUp : List Routes → Switcher → Type 0
AllUp [] s = Unit {0}
AllUp (tick ∷ ticks) s =
    ((metrics_at tick s).is_exit_down ≡ false) × AllUp ticks (set_best_exit tick.0 tick.1 s).1

-- A window that is not full does not switch, and one update adds one entry at most.
track-stays :
    (m : ExitMetrics) (c t best : IpAddr) (xs : List ℕ) (exit_map : ExitMap)
    → length xs ≢ metric_entries
    → (track m c t best (xs, exit_map)).0 ≢ ok switch_exit
unfolding track continue_with
track-stays m c t best xs exit_map h p = ground arith

track-grows :
    (m : ExitMetrics) (c t best : IpAddr) (xs : List ℕ) (exit_map : ExitMap)
    → length (track m c t best (xs, exit_map)).1.0 ≤ suc (length xs)
unfolding track continue_with
track-grows m c t best xs exit_map =
    ground (arith, length-++ xs (m.best_exit_met ∷ []), length-++ xs (m.tracking_met ∷ []))

set_exit_state-stays :
    (code : ExitSwitchingCode) (m : ExitMetrics) (xs : List ℕ) (s : SelectedExit)
    → code ≢ switch_exit
    → (set_exit_state code m xs s).1.selected_id ≡ s.selected_id
unfolding set_exit_state next_selected
set_exit_state-stays initial_exit_setup m xs s h = refl
set_exit_state-stays continue_current_reset m xs s h = ground arith
set_exit_state-stays continue_current m [] s h = ground arith
set_exit_state-stays continue_current m (x ∷ xs) s h = ground arith
set_exit_state-stays switch_exit m xs s h = absurd (h refl)
set_exit_state-stays continue_tracking m xs s h = ground arith
set_exit_state-stays reset_tracking m xs s h = ground arith

-- The same of an update as a whole.
update-stays :
    (m : ExitMetrics) (w : Window)
    → length w.0 ≢ metric_entries
    → (update_metric_value m w).0 ≢ ok switch_exit
unfolding update_metric_value
update-stays m (xs, exit_map) h p = elim (Option-cases m.cur_exit) [
  | inl e ↦ ground (arith, e)
  | inr (c, e) ↦ elim (Option-cases m.best_exit) [
    | inl b ↦ ground (arith, e, b)
    | inr (best, b) ↦
        track-stays m c (or_else m.tracking_exit best) best xs exit_map h
          (rw⁻¹ (update-track m c best (xs, exit_map) e b) p)
  ]
]

update-grows :
    (m : ExitMetrics) (w : Window) → length (update_metric_value m w).1.0 ≤ suc (length w.0)
unfolding update_metric_value
update-grows m (xs, exit_map) = elim (Option-cases m.cur_exit) [
  | inl e ↦ ground (arith, e)
  | inr (c, e) ↦ elim (Option-cases m.best_exit) [
    | inl b ↦ ground (arith, e, b)
    | inr (best, b) ↦
        rw (update-track m c best (xs, exit_map) e b)
          (track-grows m c (or_else m.tracking_exit best) best xs exit_map)
  ]
]

conclude-stays :
    (m : ExitMetrics) (best : IpAddr) (s : Switcher)
    (r : ResultOf RitaClientError ExitSwitchingCode) (w : Window)
    → m.is_exit_down ≡ false
    → r ≢ ok switch_exit
    → (conclude m best s (r, w)).1.selected_exit.selected_id ≡ s.selected_exit.selected_id
unfolding conclude
conclude-stays m best s (ok code) w d h =
    simp (d) (set_exit_state-stays code m w.0 s.selected_exit (λ e. h (ap ok e)))
conclude-stays m best s (err e) w d h = refl
conclude-stays m best s panic w d h = refl

conclude-window :
    (m : ExitMetrics) (best : IpAddr) (s : Switcher)
    (r : ResultOf RitaClientError ExitSwitchingCode) (w : Window)
    → m.is_exit_down ≡ false
    → (conclude m best s (r, w)).1.window ≡ w
unfolding conclude
conclude-window m best s (ok code) w d = simp (d) refl
conclude-window m best s (err e) w d = refl
conclude-window m best s panic w d = refl

abbrev Steps : Switcher → Switcher → Type 0
Steps s s' =
    (s'.selected_exit.selected_id ≡ s.selected_exit.selected_id)
    × (length s'.window.0 ≤ suc (length s.window.0))

settle-Steps :
    (m : ExitMetrics) (best : IpAddr) (s : Switcher)
    → m.is_exit_down ≡ false
    → length s.window.0 ≢ metric_entries
    → Steps s (settle m best s).1
unfolding settle
settle-Steps m best s d h =
    let u = update_metric_value m s.window in
    (
      conclude-stays m best s u.0 u.1 d (update-stays m s.window h),
      rw (conclude-window m best s u.0 u.1 d) (update-grows m s.window),
    )

observed-Steps :
    (exit_list : List Identity) (routes : List (IpAddr × Route)) (s : Switcher)
    → Steps s (observed exit_list routes s)
unfolding observed
observed-Steps exit_list routes s = (refl, omega arith)

-- One tick keeps an exit that is up, while the window is not full, and adds one entry at most.
tick-Steps :
    (exit_list : List Identity) (routes : List (IpAddr × Route)) (s : Switcher)
    → (metrics_at (exit_list, routes) s).is_exit_down ≡ false
    → length s.window.0 ≢ metric_entries
    → Steps s (set_best_exit exit_list routes s).1
unfolding set_best_exit
tick-Steps exit_list [] s d h = (refl, omega arith)
tick-Steps exit_list (route ∷ routes) s d h =
    elim (Option-cases (metrics_at (exit_list, route ∷ routes) s).best_exit) [
      | inl e ↦
          rw (set_best_exit-none exit_list route routes s e)
            (observed-Steps exit_list (route ∷ routes) s)
      | inr (best, e) ↦ rw (set_best_exit-settle exit_list route routes s best e) (
          settle-Steps (metrics_at (exit_list, route ∷ routes) s) best
            (observed exit_list (route ∷ routes) s) d h)
    ]

-- Over ticks at each of which the current exit is up, and that do not outnumber the free entries of
-- the window of 180, the selected exit stays the same.
pub run-stays :
    (ticks : List Routes) (s : Switcher)
    → AllUp ticks s
    → length s.window.0 + length ticks ≤ metric_entries
    → (run ticks s).selected_exit.selected_id ≡ s.selected_exit.selected_id
unfolding run
run-stays [] s h k = refl
run-stays ((exit_list, routes) ∷ ticks) s (up, h) k =
    let (same, grows) = tick-Steps exit_list routes s up (λ e. omega arith) in
    run-stays ticks _ h (omega arith) ∙ same
