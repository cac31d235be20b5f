-- ===== src/ExitManager/Switcher/Best.antt =====
-- Which exit `get_exit_metrics` of rita_client/src/exit_manager/exit_switcher.rs finds to be the
-- best one, and the move to it where the current exit is down.
use rita.Common.{
  ℕ, ◌≡◌, ◌≤◌, refl, sym, subst, ◌∙◌, false, Option, none, some, List, [], ◌∷◌, arith, ltb,
  Bool-cases, inl, inr, ◌⊎◌,
}
use mathlib.Core.List.{Memᴰ}
use rita.Common.Map.{lookup}
use rita.Types.{IpAddr, ip_key, Identity}
use rita.ExitManager.{contains}
use rita.ExitManager.Switcher.{Route, Search, consider, visit, search_exits}

module _ (blacklisted : List IpAddr) (routes : List (IpAddr × Route)) where
  -- An exit that may be chosen: babel has a route to it, and it is not blacklisted.
  abbrev pub IsOffered : Identity → Route → Type 0
  IsOffered exit route =
      (lookup ip_key exit.mesh_ip routes ≡ some route) × (contains route.prefix blacklisted ≡ false)

  -- An exit of a list that may be chosen, with its metric.
  abbrev pub IsFound : List Identity → IpAddr → ℕ → Type 0
  IsFound exit_list b met =
      (exit : Identity) × ((route : Route) × (Memᴰ exit exit_list
          × (IsOffered exit route × ((route.prefix ≡ b) × (route.metric ≡ met)))))

  IsFound-there :
      (x : Identity) (exit_list : List Identity) (b : IpAddr) (met : ℕ)
      → IsFound exit_list b met
      → IsFound (x ∷ exit_list) b met
  IsFound-there x exit_list b met (exit, (route, (mem, rest))) =
      (exit, (route, (Memᴰ.tail mem, rest)))

module _ (current tracking : Option IpAddr) (initial : ℕ) (blacklisted : List IpAddr)
    (routes : List (IpAddr × Route)) where
  abbrev pub search : List Identity → Search → Search
  search exit_list s = search_exits current tracking initial blacklisted routes exit_list s

  visit-decreases :
      (found : Option Route) (s : Search)
      → (visit current tracking initial blacklisted found s).best_metric ≤ s.best_metric
  unfolding visit consider
  visit-decreases none s = omega arith
  visit-decreases (some route) s = ground arith

  search-decreases :
      (exit_list : List Identity) (s : Search) → (search exit_list s).best_metric ≤ s.best_metric
  unfolding search_exits
  search-decreases [] s = omega arith
  search-decreases (exit ∷ exit_list) s =
      let found = lookup ip_key exit.mesh_ip routes in
      omega (
        arith,
        visit-decreases found s,
        search-decreases exit_list (visit current tracking initial blacklisted found s),
      )

  visit-minimal :
      (route : Route) (s : Search)
      → contains route.prefix blacklisted ≡ false
      → (visit current tracking initial blacklisted (some route) s).best_metric ≤ route.metric
  unfolding visit consider
  visit-minimal route s h = ground (arith, h)

  pub search-minimal :
      (exit_list : List Identity) (s : Search) (exit : Identity) (route : Route)
      → Memᴰ exit exit_list
      → IsOffered blacklisted routes exit route
      → (search exit_list s).best_metric ≤ route.metric
  unfolding search_exits
  search-minimal [] s exit route mem o = elim mem [ ]
  search-minimal (x ∷ exit_list) s exit route (Memᴰ.head e) (l, c) =
      let found = lookup ip_key x.mesh_ip routes in
      omega (
        arith,
        search-decreases exit_list (visit current tracking initial blacklisted found s),
        subst (λ r. (visit current tracking initial blacklisted r s).best_metric ≤ route.metric)
            (sym (subst (λ y. lookup ip_key y.mesh_ip routes ≡ some route) e l))
            (visit-minimal route s c),
      )
  search-minimal (x ∷ exit_list) s exit route (Memᴰ.tail mem) o =
      search-minimal exit_list _ exit route mem o

  visit-found :
      (found : Option Route) (s : Search) (b : IpAddr)
      → (visit current tracking initial blacklisted found s).best ≡ some b
      → ((s.best ≡ some b)
          × ((visit current tracking initial blacklisted found s).best_metric ≡ s.best_metric))
        ⊎ ((route : Route) × ((found ≡ some route)
              × ((contains route.prefix blacklisted ≡ false)
                  × ((route.prefix ≡ b)
                      × (route.metric
                          ≡ (visit current tracking initial blacklisted found s).best_metric)))))
  unfolding visit consider
  visit-found none s b h = inl (h, refl)
  visit-found (some route) s b h = elim (Bool-cases (contains route.prefix blacklisted)) [
    | inl e ↦ inl (ground (arith, e, h), ground (arith, e))
    | inr e ↦ elim (Bool-cases (ltb route.metric s.best_metric)) [
      | inl l ↦ inr (route, (refl, (e, (ground (arith, e, l, h), ground (arith, e, l)))))
      | inr l ↦ inl (ground (arith, e, l, h), ground (arith, e, l))
    ]
  ]

  pub search-IsFound :
      (exit_list : List Identity) (s : Search) (b : IpAddr)
      → (search exit_list s).best ≡ some b
      → ((s.best ≡ some b) × ((search exit_list s).best_metric ≡ s.best_metric))
        ⊎ IsFound blacklisted routes exit_list b (search exit_list s).best_metric
  unfolding search_exits
  search-IsFound [] s b h = inl (h, refl)
  search-IsFound (x ∷ exit_list) s b h =
      let found = lookup ip_key x.mesh_ip routes in
      let s' = visit current tracking initial blacklisted found s in
      elim (search-IsFound exit_list s' b h) [
        | inr f ↦ inr (IsFound-there blacklisted routes x exit_list b _ f)
        | inl (e, m) ↦ elim (visit-found found s b e) [
          | inl (e', m') ↦ inl (e', m ∙ m')
          | inr (route, (l, (c, (p, n)))) ↦
              inr (x, (route, (Memᴰ.head refl, ((l, c), (p, n ∙ sym m)))))
        ]
      ]
