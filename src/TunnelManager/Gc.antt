-- ===== src/TunnelManager/Gc.antt =====
-- rita_common/src/tunnel_manager/gc.rs: which tunnels are kept. `elapsed` is what the kernel answers
-- for the handshakes of an interface: nothing where it fails, and for each handshake the seconds
-- since, or nothing where it lies in the future.
pub mod Keeps
use rita.Common.{
  ℕ, ◌≡◌, refl, Bool, true, false, not, ◌&&◌, ◌||◌, Option, none, some, List, [], ◌∷◌, ◌++◌, ltb,
  ◌==◌, if◌then◌else◌, arith,
}
use rita.Common.Map.{Key, lookup, insert, nat_key}
use rita.Types.{Identity, identity_eq}
use rita.Validator.Tick.{elapsed}
use rita.TunnelManager.{Tunnel, Tunnels, insert_into_tunnel_list}

abbrev pub Handshakes : Type 0
Handshakes = Option (List (Option ℕ))

abbrev pub any_recent : ℕ → List (Option ℕ) → Bool
any_recent handshake_timeout [] = false
any_recent handshake_timeout (none ∷ times) = true
any_recent handshake_timeout (some time ∷ times) =
    let rest = any_recent handshake_timeout times in
    if ltb time handshake_timeout then true else rest

unfoldable pub check_handshake_time : ℕ → Handshakes → Bool
check_handshake_time handshake_timeout none = false
check_handshake_time handshake_timeout (some handshakes) = any_recent handshake_timeout handshakes

-- An interface that babel reports, with whether it is up.
pub record Interface : Type 0 where
  pub name : ℕ
  pub up : Bool

abbrev name_key : Key ℕ
name_key = nat_key

abbrev into_interfaces_onto : List (ℕ × Bool) → List Interface → List (ℕ × Bool)
into_interfaces_onto ret [] = ret
into_interfaces_onto ret (interface ∷ interfaces) =
    into_interfaces_onto (insert name_key interface.name interface.up ret) interfaces

unfoldable pub into_interfaces_hashmap : List Interface → List (ℕ × Bool)
into_interfaces_hashmap interfaces = into_interfaces_onto [] interfaces

unfoldable pub tunnel_up : List (ℕ × Bool) → ℕ → Bool
tunnel_up interfaces tunnel_name = elim (lookup name_key tunnel_name interfaces) [
  | none ↦ true
  | some up ↦ up
]

-- The match on created_recently, contact_timeout, handshake_timeout and tunnel_up.
unfoldable pub is_good :
    (created_recently contact_timeout handshake_timeout tunnel_up : Bool) → Bool
is_good true contact_timeout handshake_timeout tunnel_up = true
is_good false false false true = true
is_good false true false true = true
is_good false true true tunnel_up = false
is_good false false true tunnel_up = false
is_good false false false false = false
is_good false true false false = false

module _ (now handshake_timeout tunnel_timeout : ℕ) (handshakes : ℕ → Handshakes)
    (interfaces : List (ℕ × Bool)) where
  unfoldable pub tunnel_should_be_kept : Identity → Tunnel → Bool
  unfolding is_good check_handshake_time tunnel_up
  tunnel_should_be_kept category_id tunnel =
      if not (identity_eq category_id tunnel.neigh_id.global)
      then false
      else elim (elapsed now tunnel.created) [
        | none ↦ true
        | some since_created ↦ elim (elapsed now tunnel.last_contact) [
          | none ↦ true
          | some since_last_contact ↦
              is_good (ltb since_created tunnel_timeout) (ltb tunnel_timeout since_last_contact)
                (not (check_handshake_time handshake_timeout (handshakes tunnel.iface_name)))
                (tunnel_up interfaces tunnel.iface_name)
        ]
      ]

  -- The good tunnels, and those to delete.
  unfoldable pub sort_row : Identity → List Tunnel → Tunnels × Tunnels → Tunnels × Tunnels
  unfolding insert_into_tunnel_list
  sort_row identity [] (good, to_delete) = (good, to_delete)
  sort_row identity (tunnel ∷ tunnels) (good, to_delete) = sort_row identity tunnels (
      if tunnel_should_be_kept identity tunnel
      then (insert_into_tunnel_list tunnel good, to_delete)
      else (good, insert_into_tunnel_list tunnel to_delete))

  unfoldable pub sort_rows : Tunnels → Tunnels × Tunnels → Tunnels × Tunnels
  unfolding sort_row
  sort_rows [] sorted = sorted
  sort_rows ((identity, tunnels) ∷ rows) sorted = sort_rows rows (sort_row identity tunnels sorted)

-- What becomes of the tunnels, and those that are to be taken from babel and the kernel.
unfoldable pub tunnel_gc :
    (now tunnel_timeout handshake_timeout : ℕ)
    → (ℕ → Handshakes)
    → List Interface
    → Tunnels
    → Tunnels × Tunnels
unfolding sort_rows into_interfaces_hashmap
tunnel_gc now tunnel_timeout handshake_timeout handshakes babel_interfaces tunnels =
    sort_rows now handshake_timeout tunnel_timeout handshakes
      (into_interfaces_hashmap babel_interfaces) tunnels ([], [])
