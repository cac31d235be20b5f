-- ===== src/TunnelManager/Gc/Keeps.antt =====
-- What the garbage collection of rita_common/src/tunnel_manager/gc.rs keeps.
use rita.Common.{
  ℕ, ◌-◌, ◌≡◌, refl, sym, ap, ◌∙◌, Bool, true, false, ◌&&◌, ◌||◌, none, List, [], ◌∷◌, ◌++◌, arith,
  ltb, if◌then◌else◌, Option-cases, Bool-cases, inl, inr,
}
use rita.Common.Map.{lookup, lookup-insert, lookup-congr}
use rita.Common.Lists.{filter, ++_nil, ++_assoc}
use rita.Types.{Identity, identity_eq, identity_key, identity_eq_congr}
use rita.Validator.Tick.{elapsed}
use rita.TunnelManager.{Tunnel, Tunnels, insert_into_tunnel_list, tunnels_at}
use rita.TunnelManager.Gc.{
  Handshakes, Interface, check_handshake_time, into_interfaces_hashmap, tunnel_up, is_good,
  tunnel_should_be_kept, sort_row, sort_rows, tunnel_gc,
}

tunnels_at-insert :
    (j : Identity) (t : Tunnel) (m : Tunnels)
    → tunnels_at j (insert_into_tunnel_list t m)
      ≡ (if identity_eq t.neigh_id.global j then tunnels_at j m ++ t ∷ [] else tunnels_at j m)
unfolding insert_into_tunnel_list
tunnels_at-insert j t m = elim (Option-cases (lookup identity_key t.neigh_id.global m)) [
  | inl e ↦ ground (
    arith,
    e,
    lookup-insert identity_key t.neigh_id.global j (t ∷ []) m,
    lookup-congr identity_key t.neigh_id.global j m,
  )
  | inr (v, e) ↦ ground (
    arith,
    e,
    lookup-insert identity_key t.neigh_id.global j (v ++ t ∷ []) m,
    lookup-congr identity_key t.neigh_id.global j m,
  )
]

-- The keys of a map differ from each other.
abbrev pub IsMap : Tunnels → Type 0
IsMap [] = Unit {0}
IsMap ((id, tunnels) ∷ rows) = (lookup identity_key id rows ≡ none) × IsMap rows

module _ (now handshake_timeout tunnel_timeout : ℕ) (handshakes : ℕ → Handshakes)
    (interfaces : List (ℕ × Bool)) where
  abbrev kept : Identity → Tunnel → Bool
  kept id t = tunnel_should_be_kept now handshake_timeout tunnel_timeout handshakes interfaces id t

  pub tunnel_should_be_kept_lem :
      (id : Identity) (t : Tunnel)
      → kept id t ≡ (
          identity_eq id t.neigh_id.global
          && (ltb now t.created
              || ltb now t.last_contact
              || ltb (now - t.created) tunnel_timeout
              || (check_handshake_time handshake_timeout (handshakes t.iface_name)
                  && tunnel_up interfaces t.iface_name)))
  unfolding tunnel_should_be_kept elapsed is_good
  tunnel_should_be_kept_lem id t = ground arith

  kept-filed :
      (id : Identity) (t : Tunnel) → kept id t ≡ true → identity_eq id t.neigh_id.global ≡ true
  kept-filed id t h = ground (arith, tunnel_should_be_kept_lem id t)

  kept-congr : (i j : Identity) (t : Tunnel) → identity_eq i j ≡ true → kept i t ≡ kept j t
  kept-congr i j t h = ground (
    arith,
    tunnel_should_be_kept_lem i t,
    tunnel_should_be_kept_lem j t,
    identity_eq_congr i j t.neigh_id.global h,
  )

  abbrev row : Identity → List Tunnel → Tunnels × Tunnels → Tunnels × Tunnels
  row id ts sorted =
      sort_row now handshake_timeout tunnel_timeout handshakes interfaces id ts sorted

  sort_row-cons :
      (id : Identity) (t : Tunnel) (ts : List Tunnel) (good to_delete : Tunnels) (b : Bool)
      → kept id t ≡ b
      → row id (t ∷ ts) (good, to_delete)
        ≡ row id ts (
            if b
            then (insert_into_tunnel_list t good, to_delete)
            else (good, insert_into_tunnel_list t to_delete))
  unfolding sort_row
  sort_row-cons id t ts good to_delete b k =
      ap
        (λ b. row id ts (
          if b
          then (insert_into_tunnel_list t good, to_delete)
          else (good, insert_into_tunnel_list t to_delete)))
        k

  sort_row-tunnels_at :
      (j id : Identity) (ts : List Tunnel) (good to_delete : Tunnels)
      → tunnels_at j (row id ts (good, to_delete)).0
        ≡ tunnels_at j good ++ (if identity_eq id j then filter (kept j) ts else [])
  unfolding sort_row filter
  sort_row-tunnels_at j id [] good to_delete = ground (arith, ++_nil (tunnels_at j good))
  sort_row-tunnels_at j id (t ∷ ts) good to_delete = elim (Bool-cases (kept id t)) [
    | inl k ↦
        ap (λ sorted. tunnels_at j sorted.0) (sort_row-cons id t ts good to_delete true k)
        ∙ (sort_row-tunnels_at j id ts (insert_into_tunnel_list t good) to_delete
            ∙ ground (
              arith,
              k,
              tunnels_at-insert j t good,
              kept-filed id t k,
              kept-congr id j t,
              identity_eq_congr id t.neigh_id.global j,
              ++_assoc (tunnels_at j good) (t ∷ []) (filter (kept j) ts),
            ))
    | inr k ↦
        ap (λ sorted. tunnels_at j sorted.0) (sort_row-cons id t ts good to_delete false k)
        ∙ (sort_row-tunnels_at j id ts good (insert_into_tunnel_list t to_delete)
            ∙ ground (arith, k, kept-congr id j t))
  ]

  abbrev rows_of : Tunnels → Tunnels × Tunnels → Tunnels × Tunnels
  rows_of rows sorted =
      sort_rows now handshake_timeout tunnel_timeout handshakes interfaces rows sorted

  sort_rows-none :
      (j : Identity) (rows good to_delete : Tunnels)
      → lookup identity_key j rows ≡ none
      → tunnels_at j (rows_of rows (good, to_delete)).0 ≡ tunnels_at j good
  unfolding sort_rows lookup
  sort_rows-none j [] good to_delete h = refl
  sort_rows-none j ((id, ts) ∷ rows) good to_delete h =
      let sorted = row id ts (good, to_delete) in
      sort_rows-none j rows sorted.0 sorted.1 (ground (arith, h))
      ∙ sort_row-tunnels_at j id ts good to_delete
      ∙ ground (arith, h, ++_nil (tunnels_at j good))

  sort_rows-tunnels_at :
      (j : Identity) (rows good to_delete : Tunnels)
      → IsMap rows
      → tunnels_at j (rows_of rows (good, to_delete)).0
        ≡ tunnels_at j good ++ filter (kept j) (tunnels_at j rows)
  unfolding sort_rows lookup filter
  sort_rows-tunnels_at j [] good to_delete h = ground (arith, ++_nil (tunnels_at j good))
  sort_rows-tunnels_at j ((id, ts) ∷ rows) good to_delete (h, k) =
      let sorted = row id ts (good, to_delete) in
      elim (Bool-cases (identity_eq id j)) [
        | inl e ↦
            sort_rows-none j rows sorted.0 sorted.1
              (sym (lookup-congr identity_key id j rows e) ∙ h)
            ∙ sort_row-tunnels_at j id ts good to_delete
            ∙ ground (arith, e)
        | inr e ↦
            sort_rows-tunnels_at j rows sorted.0 sorted.1 k
            ∙ ap (λ front. front ++ filter (kept j) (tunnels_at j rows))
                (sort_row-tunnels_at j id ts good to_delete)
            ∙ ground (arith, e, ++_nil (tunnels_at j good))
      ]

-- After a collection of tunnels whose identities differ from each other, each identity has exactly
-- those of its tunnels that `tunnel_should_be_kept` keeps, in their order.
pub tunnel_gc-filter :
    (now tunnel_timeout handshake_timeout : ℕ) (handshakes : ℕ → Handshakes)
    (interfaces : List Interface) (tunnels : Tunnels) (j : Identity)
    → IsMap tunnels
    → tunnels_at j (tunnel_gc now tunnel_timeout handshake_timeout handshakes interfaces tunnels).0
      ≡ filter
          (λ t.
            tunnel_should_be_kept now handshake_timeout tunnel_timeout handshakes
              (into_interfaces_hashmap interfaces)
              j
              t)
          (tunnels_at j tunnels)
unfolding tunnel_gc lookup
tunnel_gc-filter now tunnel_timeout handshake_timeout handshakes interfaces tunnels j h =
    sort_rows-tunnels_at now handshake_timeout tunnel_timeout handshakes
      (into_interfaces_hashmap interfaces) j tunnels [] [] h
