-- ===== src/TunnelManager/Tests.antt =====
-- Examples of the tunnel manager: one tunnel to each of two nodes.
use rita.Common.{
  ℕ, ◌≡◌, ◌↔◌, ◌≤◌, refl, ap, subst, Bool, true, false, none, some, List, [], ◌∷◌, arith, ◌==◌,
  if◌then◌else◌,
}
use mathlib.Core.List.{Memᴰ}
use rita.Common.Map.{lookup, insert}
use rita.Common.Lists.{filter}
use rita.Types.{Identity, v4, identity_eq}
use rita.Samples.{alice, bob}
use rita.Validator.State.{contains}
use rita.DebtKeeper.Keeper.{TunnelChange, payment_overdue}
use rita.TunnelManager.{Tunnel, Tunnels, LocalIdentity, paid, overdue, tunnels_at}
use rita.TunnelManager.Gc.{
  Handshakes, Interface, tunnel_should_be_kept, tunnel_gc, into_interfaces_hashmap,
}
use rita.TunnelManager.Gc.Keeps.{tunnel_gc-filter}
use rita.Outcome.{ok}
use rita.TunnelManager.Ports.{get_next_available_port, IsFirstFree, next_port-free}
use rita.TunnelManager.Open.{open_tunnel}
use rita.TunnelManager.Open.Listeners.{listeners}
use rita.TunnelManager.Open.Distinct.{open_tunnel-listeners}
use rita.TunnelManager.Payment.{
  Kernel, limit_one, tunnel_payment_state_change, state_change-limits, change_state,
}

abbrev local : Identity → LocalIdentity
local id = record { wg_port = 51820; have_tunnel = some false; global = id }

abbrev tunnel_to : Identity → ℕ → Tunnel
tunnel_to id port = record {
  ip = v4 port;
  iface_name = port;
  listen_ifidx = 2;
  listen_port = port;
  neigh_id = local id;
  last_contact = 50;
  created = 10;
  speed_limit = none;
  payment_state = paid;
}

abbrev tunnels : Tunnels
tunnels = (alice, tunnel_to alice 60000 ∷ []) ∷ (bob, tunnel_to bob 60001 ∷ []) ∷ []

-- The first has a handshake ten seconds old, the second none.
abbrev handshakes : ℕ → Handshakes
handshakes name = if name == 60000 then some (some 10 ∷ []) else none

abbrev interfaces : List Interface
interfaces = record { name = 60000; up = true } ∷ []

-- A kernel whose state is the limits.
abbrev kernel : Kernel (ℕ → Bool)
kernel = record {
  has_limit = λ i s. some (s i);
  set_classless_limit = λ i bw s. (true, λ j. if i == j then true else s j);
  set_codel_shaping = λ i s. (true, λ j. if i == j then false else s j);
}

if_some : (b c d : Bool) → some (if b then c else d) ≡ (if b then some c else some d)
if_some true c d = refl
if_some false c d = refl

set_limit_lem :
    (b : Bool) (i j : ℕ) (s s' : ℕ → Bool)
    → ◌≡◌ {A = Bool × (ℕ → Bool)} (true, λ k. if i == k then b else s k) (true, s')
    → some (s' j) ≡ (if i == j then some b else some (s j))
set_limit_lem b i j s s' e =
    subst (λ f. some (f j) ≡ (if i == j then some b else some (s j))) (ap (λ p. p.1) e)
      (if_some (i == j) b (s j))

tunnel_gc-filter_example :
    tunnels_at bob (tunnel_gc 5000 900 900 handshakes interfaces tunnels).0
    ≡ filter
        (λ t.
          tunnel_should_be_kept 5000 900 900 handshakes (into_interfaces_hashmap interfaces) bob t)
        (tunnels_at bob tunnels)
unfolding lookup identity_eq
tunnel_gc-filter_example =
    tunnel_gc-filter 5000 900 900 handshakes interfaces tunnels bob (refl, (refl, tt))

start_port_free : get_next_available_port 61000 (some (60002 ∷ [])) tunnels ≡ ok 61000
unfolding get_next_available_port contains
start_port_free = refl

start_port_in_kernel : get_next_available_port 61000 (some (61000 ∷ [])) tunnels ≡ ok 61001
unfolding get_next_available_port contains
start_port_in_kernel = refl

-- 60000 and 60001 are taken by tunnels, 60002 by the kernel.
next_port-free_example :
    (get_next_available_port 60000 (some (60002 ∷ [])) tunnels ≡ ok 60003)
    ↔ IsFirstFree 60000 (60002 ∷ []) tunnels 60003
next_port-free_example = next_port-free 60000 60003 (60002 ∷ []) tunnels

open_tunnel-listeners_example :
    listeners 60002
      (open_tunnel 5000
        (some (v4 1))
        (λ ip port ifidx id. some 7)
        60000
        (some [])
        (local alice)
        (record { ifidx = 2; contact_ip = v4 60000 })
        tunnels).1
    ≤ 1
unfolding listeners
open_tunnel-listeners_example =
    open_tunnel-listeners 5000 (some (v4 1)) (λ ip port ifidx id. some 7) 60000 (some [])
      (local alice) (record { ifidx = 2; contact_ip = v4 60000 }) tunnels 60002 (omega arith)

abbrev overdue_message : TunnelChange
overdue_message = record { identity = bob; action = payment_overdue }

abbrev overdue_tunnel : Tunnel
overdue_tunnel = change_state payment_overdue (tunnel_to bob 60001)

state_change-limits_example :
    (overdue_tunnel.payment_state ≡ overdue)
    × (kernel.has_limit 60001
          (tunnel_payment_state_change kernel 500 false overdue_message (tunnels, λ i. false)).1
        ≡ some true)
unfolding lookup identity_eq change_state tunnel_payment_state_change limit_one insert
state_change-limits_example =
    state_change-limits kernel 500 (set_limit_lem true) (set_limit_lem false) overdue_message
      tunnels (tunnel_to bob 60001 ∷ []) (λ i. false) refl overdue_tunnel refl (Memᴰ.head refl)
