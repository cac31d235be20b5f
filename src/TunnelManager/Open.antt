-- ===== src/TunnelManager/Open.antt =====
-- `open_tunnel` of rita_common/src/tunnel_manager/mod.rs. What `Tunnel::new` makes of the kernel and
-- of babel is a parameter: the name of the interface, or nothing where a step fails. That babel and
-- the kernel let go of a tunnel that is dropped is left out; the code goes on where it fails.
pub mod Listeners
pub mod Distinct
use rita.Common.{
  ℕ, zero, suc, ◌+◌, Bool, true, false, not, ◌&&◌, Option, none, some, List, [], ◌∷◌, ◌++◌, ◌==◌,
  String, if◌then◌else◌,
}
use rita.Outcome.{ResultOf, ok, err, panic}
use rita.Types.{IpAddr, ip_eq, Identity, identity_eq}
use rita.TunnelManager.{
  Tunnel, Tunnels, LocalIdentity, PaymentState, paid, overdue, insert_into_tunnel_list,
}
use rita.TunnelManager.Ports.{
  TunnelError, kernel_interface_error, misc_string_error, get_next_available_port,
}

-- The peer that we heard from, by the interface and the address.
pub record Peer : Type 0 where
  pub ifidx : ℕ
  pub contact_ip : IpAddr

abbrev with_nickname : Option String → Tunnel → Tunnel
with_nickname nickname t = record t {
  neigh_id = record t.neigh_id { global = record t.neigh_id.global { nickname = nickname } };
}

-- What a contact changes in a tunnel.
unfoldable pub touch : ℕ → Option String → Tunnel → Tunnel
touch now nickname t = with_nickname nickname (record t { last_contact = now })

unfoldable pub is_match : ℕ → IpAddr → Identity → Identity → Tunnel → Bool
is_match ifidx ip id index_id t =
    t.listen_ifidx == ifidx
    && identity_eq t.neigh_id.global id
    && identity_eq index_id id
    && ip_eq t.ip ip

module _ (ifidx : ℕ) (ip : IpAddr) (id : Identity) (change : Tunnel → Tunnel) where
  -- The first match, changed, with the tunnels that hold it.
  unfoldable pub get_in_row : Identity → List Tunnel → Option (Tunnel × List Tunnel)
  unfolding is_match
  get_in_row index_id [] = none
  get_in_row index_id (t ∷ tunnels) =
      let rest = get_in_row index_id tunnels in
      if is_match ifidx ip id index_id t
      then some (change t, change t ∷ tunnels)
      else elim rest [ none ↦ none | some (found, tunnels') ↦ some (found, t ∷ tunnels') ]

  unfoldable pub get_tunnel_mut : Tunnels → Option (Tunnel × Tunnels)
  unfolding get_in_row
  get_tunnel_mut [] = none
  get_tunnel_mut ((index_id, tunnels) ∷ rows) = elim (get_in_row index_id tunnels) [
    | some (found, tunnels') ↦ some (found, (index_id, tunnels') ∷ rows)
    | none ↦ elim (get_tunnel_mut rows) [
      | none ↦ none
      | some (found, rows') ↦ some (found, (index_id, tunnels) ∷ rows')
    ]
  ]

abbrev option_eq : {A : Type 0} → (A → A → Bool) → Option A → Option A → Bool
option_eq eqb none none = true
option_eq eqb none (some b) = false
option_eq eqb (some a) none = false
option_eq eqb (some a) (some b) = eqb a b

abbrev bool_eq : Bool → Bool → Bool
bool_eq true b = b
bool_eq false b = not b

abbrev state_eq : PaymentState → PaymentState → Bool
state_eq paid paid = true
state_eq paid overdue = false
state_eq overdue paid = false
state_eq overdue overdue = true

-- The derived equality.
unfoldable pub tunnel_eq : Tunnel → Tunnel → Bool
tunnel_eq a b =
    ip_eq a.ip b.ip
    && a.iface_name == b.iface_name
    && a.listen_ifidx == b.listen_ifidx
    && a.listen_port == b.listen_port
    && a.neigh_id.wg_port == b.neigh_id.wg_port
    && option_eq bool_eq a.neigh_id.have_tunnel b.neigh_id.have_tunnel
    && identity_eq a.neigh_id.global b.neigh_id.global
    && a.last_contact == b.last_contact
    && a.created == b.created
    && option_eq (λ x y. x == y) a.speed_limit b.speed_limit
    && state_eq a.payment_state b.payment_state

unfoldable pub is_same : Tunnel → Tunnel → Bool
is_same target t =
    target.listen_ifidx == t.listen_ifidx
    && ip_eq target.ip t.ip
    && identity_eq target.neigh_id.global t.neigh_id.global

unfoldable pub tunnels_to_delete : Tunnel → List Tunnel → List Tunnel
unfolding is_same
tunnels_to_delete target [] = []
tunnels_to_delete target (t ∷ tunnels) =
    let rest = tunnels_to_delete target tunnels in if is_same target t then t ∷ rest else rest

-- `retain` of what differs from one tunnel, and from each of a list.
unfoldable pub retain_others : Tunnel → List Tunnel → List Tunnel
unfolding tunnel_eq
retain_others to_del [] = []
retain_others to_del (t ∷ tunnels) =
    let rest = retain_others to_del tunnels in if tunnel_eq t to_del then rest else t ∷ rest

unfoldable pub delete_all : List Tunnel → List Tunnel → List Tunnel
unfolding retain_others
delete_all [] tunnels = tunnels
delete_all (to_del ∷ to_dels) tunnels = delete_all to_dels (retain_others to_del tunnels)

unfoldable pub del_tunnel : Tunnel → Tunnels → Tunnels
unfolding tunnels_to_delete delete_all
del_tunnel target [] = []
del_tunnel target ((id, tunnels) ∷ rows) =
    (id, delete_all (tunnels_to_delete target tunnels) tunnels) ∷ del_tunnel target rows

-- With whether there was a tunnel.
abbrev pub with_flag :
    Bool → ResultOf TunnelError Tunnel × Tunnels → ResultOf TunnelError (Tunnel × Bool) × Tunnels
with_flag had (ok tunnel, tunnels) = (ok (tunnel, had), tunnels)
with_flag had (err e, tunnels) = (err e, tunnels)
with_flag had (panic, tunnels) = (panic, tunnels)

abbrev pub or_true : Option Bool → Bool
or_true none = true
or_true (some have_tunnel) = have_tunnel

module _ (now : ℕ) (mesh_ip : Option IpAddr)
    (create : IpAddr → ℕ → ℕ → LocalIdentity → Option ℕ) where
  unfoldable pub new_tunnel : IpAddr → ℕ → ℕ → LocalIdentity → ResultOf TunnelError Tunnel
  new_tunnel ip our_listen_port ifidx neigh_id = elim mesh_ip [
    | none ↦ err (misc_string_error "No mesh IP configured yet")
    | some own_ip ↦ elim (create ip our_listen_port ifidx neigh_id) [
      | none ↦ err kernel_interface_error
      | some iface_name ↦ ok (record {
        ip = ip;
        iface_name = iface_name;
        listen_ifidx = ifidx;
        listen_port = our_listen_port;
        neigh_id = neigh_id;
        last_contact = now;
        created = now;
        speed_limit = none;
        payment_state = paid;
      })
    ]
  ]

  module _ (wg_start_port : ℕ) (udp_table : Option (List ℕ)) where
    unfoldable pub add_new_tunnel_to_list :
        IpAddr → ℕ → LocalIdentity → Tunnels → ResultOf TunnelError Tunnel × Tunnels
    unfolding new_tunnel insert_into_tunnel_list get_next_available_port
    add_new_tunnel_to_list peer_ip ifidx their_localid tunnels =
        elim (get_next_available_port wg_start_port udp_table tunnels) [
          | err e ↦ (err e, tunnels)
          | panic ↦ (panic, tunnels)
          | ok our_port ↦ elim (new_tunnel peer_ip our_port ifidx their_localid) [
            | err e ↦ (err e, tunnels)
            | panic ↦ (panic, tunnels)
            | ok tunnel ↦ (ok tunnel, insert_into_tunnel_list tunnel tunnels)
          ]
        ]

    unfoldable pub open_tunnel :
        LocalIdentity → Peer → Tunnels → ResultOf TunnelError (Tunnel × Bool) × Tunnels
    open_tunnel their_localid peer tunnels =
        elim (get_tunnel_mut peer.ifidx peer.contact_ip their_localid.global
          (touch now their_localid.global.nickname) tunnels) [
            | none ↦
                with_flag false
                  (add_new_tunnel_to_list peer.contact_ip peer.ifidx their_localid tunnels)
            | some (our_tunnel, tunnels') ↦
                if or_true their_localid.have_tunnel
                then (ok (our_tunnel, true), tunnels')
                else with_flag true (
                    add_new_tunnel_to_list peer.contact_ip peer.ifidx their_localid
                      (del_tunnel our_tunnel tunnels'))
          ]
