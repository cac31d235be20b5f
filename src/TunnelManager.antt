-- ===== src/TunnelManager.antt =====
-- rita_common/src/tunnel_manager/mod.rs: the WireGuard tunnels to the neighbours, by identity. The
-- name of an interface is a number, since it is only compared, and time is in seconds. What the
-- kernel and babel answer are parameters.
pub mod Gc
pub mod Ports
pub mod Open
pub mod Payment
mod Tests
use rita.Common.{
  ℕ, suc, zero, ◌+◌, ◌-◌, Bool, true, false, not, ◌&&◌, ◌||◌, Option, none, some, String, List, [],
  ◌∷◌, ◌++◌, ◌==◌, if◌then◌else◌,
}
use rita.Common.Map.{lookup, insert}
use rita.Types.{IpAddr, ip_eq, Identity, identity_eq, identity_key}

pub record LocalIdentity : Type 0 where
  pub wg_port : ℕ
  pub have_tunnel : Option Bool
  pub global : Identity

pub data PaymentState : Type 0 where
  paid overdue : PaymentState

pub record Tunnel : Type 0 where
  pub ip : IpAddr
  pub iface_name : ℕ
  pub listen_ifidx : ℕ
  pub listen_port : ℕ
  pub neigh_id : LocalIdentity
  pub last_contact : ℕ
  pub created : ℕ
  pub speed_limit : Option ℕ
  pub payment_state : PaymentState

abbrev pub Tunnels : Type 0
Tunnels = List (Identity × List Tunnel)

unfoldable pub insert_into_tunnel_list : Tunnel → Tunnels → Tunnels
insert_into_tunnel_list tunnel tunnels = elim (lookup identity_key tunnel.neigh_id.global tunnels) [
  | none ↦ insert identity_key tunnel.neigh_id.global (tunnel ∷ []) tunnels
  | some v ↦ insert identity_key tunnel.neigh_id.global (v ++ tunnel ∷ []) tunnels
]

-- The tunnels that are filed under an identity.
abbrev pub or_empty : Option (List Tunnel) → List Tunnel
or_empty none = []
or_empty (some tunnels) = tunnels

abbrev pub tunnels_at : Identity → Tunnels → List Tunnel
tunnels_at id tunnels = or_empty (lookup identity_key id tunnels)
