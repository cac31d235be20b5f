-- ===== src/TrafficWatcher.antt =====
-- rita_common/src/traffic_watcher/mod.rs: what the neighbours owe for the traffic of a round, from
-- the counters of the kernel and the prices of babel. Reading a counter resets it, and what is read
-- is a parameter; sums of bytes wrap around at 64 bits and fees at 32, as in the release build.
pub mod Counted
pub mod Owed
pub mod Samples
mod Tests
use rita.Common.{
  ℕ, ◌+◌, ◌/◌, ◌%◌, ◌^◌, ◌≡◌, Bool, true, false, ◌&&◌, ◌||◌, Option, none, some, List, [], ◌∷◌,
  arith, ltb, ◌==◌, if◌then◌else◌,
}
use rita.Common.Int.{ℤ, pos, ◌-ℤ◌, ◌*ℤ◌}
use rita.Common.Map.{Key, lookup, insert, nat_key}
use rita.Outcome.{
  ResultOf, Result, ok, err, panic, ActionOf, Action, RitaCommonError, misc_string_error,
  kernel_interface_error, pure, try, modify, ◌>>=◌, ◌>>◌,
}
use rita.Types.{
  IpAddr, v4, v6, ip_key, ip_eq, ip_eq_refl, ip_eq_congr, ip_eq_comm, IpNetwork, v4_network,
  v6_network, Identity,
}
use rita.Num256.{Num256}
use rita.DebtKeeper.Keeper.{DebtKeeper, traffic_update}
use rita.TunnelManager.{LocalIdentity}
use rita.Usage.{UsageTrackerStorage, relay, process_usage_update, add_u64}
use rita.Debts.{Debts, add_to, setup, traffic_vec}

pub record Neighbor : Type 0 where
  pub identity : LocalIdentity
  pub iface_name : ℕ
  pub tunnel_ip : IpAddr
  pub speed_limit : Option ℕ

-- The fields of a route of babel that are read here.
pub record BabelRoute : Type 0 where
  pub prefix : IpNetwork
  pub installed : Bool
  pub price : ℕ

-- The settings that are read.
pub record NetworkSettings : Type 0 where
  pub mesh_ip : Option IpAddr
  pub local_fee : ℕ
  pub max_fee : ℕ

abbrev pub Destinations : Type 0
Destinations = List (IpAddr × ℤ)

-- The bytes by address and interface.
abbrev pub Counters : Type 0
Counters = List ((IpAddr × ℕ) × ℕ)

abbrev pub counter_eq : IpAddr × ℕ → IpAddr × ℕ → Bool
counter_eq (ip, iface) (ip', iface') = ip_eq ip ip' && iface == iface'

pub counter_eq_refl : (a : IpAddr × ℕ) → counter_eq a a ≡ true
counter_eq_refl (ip, iface) = ground (arith, ip_eq_refl ip)

pub counter_eq_congr :
    (a b c : IpAddr × ℕ) → counter_eq a b ≡ true → counter_eq a c ≡ counter_eq b c
counter_eq_congr (a, i) (b, j) (c, k) h = ground (arith, ip_eq_congr a b c)

pub counter_eq_comm : (a b : IpAddr × ℕ) → counter_eq a b ≡ counter_eq b a
counter_eq_comm (a, i) (b, j) = ground (arith, ip_eq_comm a b)

abbrev pub counter_key : Key (IpAddr × ℕ)
counter_key = record {
  eqb = counter_eq;
  eqb_refl = counter_eq_refl;
  eqb_congr = counter_eq_congr;
  eqb_comm = counter_eq_comm;
}

-- The loop of `prepare_helper_maps`: identities by mesh address and by interface.
unfoldable pub helper_maps :
    List Neighbor
    → List (IpAddr × Identity)
    → List (ℕ × Identity)
    → List (IpAddr × Identity) × List (ℕ × Identity)
helper_maps [] identities if_to_id = (identities, if_to_id)
helper_maps (neigh ∷ neighbors) identities if_to_id =
    let id = neigh.identity.global in
    helper_maps neighbors (insert ip_key id.mesh_ip id identities)
      (insert nat_key neigh.iface_name id if_to_id)

unfoldable pub prepare_helper_maps : List Neighbor → List (IpAddr × Identity) × List (ℕ × Identity)
unfolding helper_maps
prepare_helper_maps neighbors = helper_maps neighbors [] []

abbrev pub add_u32 : ℕ → ℕ → ℕ
add_u32 a b = (a + b) % 2 ^ 32

unfoldable pub babel_loop : NetworkSettings → List BabelRoute → Destinations → Destinations
babel_loop settings [] destinations = destinations
babel_loop settings (route ∷ routes) destinations = babel_loop settings routes (elim route.prefix [
  | v4_network addr prefix ↦ destinations
  | v6_network addr prefix ↦
      if prefix == 128 && route.installed
      then (let price =
            if ltb settings.max_fee route.price then settings.max_fee else route.price in
          insert ip_key (v6 addr) (pos (add_u32 price settings.local_fee)) destinations)
      else destinations
])

unfoldable pub get_babel_info : NetworkSettings → List BabelRoute → Result (Destinations × ℕ)
unfolding babel_loop
get_babel_info settings routes = elim settings.mesh_ip [
  | none ↦ err (misc_string_error "No mesh IP configured yet")
  | some ip ↦ ok (insert ip_key ip (pos 0) (babel_loop settings routes []), settings.local_fee)
]

-- fe80::/10
unfoldable pub is_link_local : IpAddr → Bool
is_link_local (v4 addr) = false
is_link_local (v6 addr) = addr / 2 ^ 118 == 1018

-- 224.0.0.0/4 and ff00::/8, as the standard library has it.
unfoldable pub is_multicast : IpAddr → Bool
is_multicast (v4 addr) = addr / 2 ^ 28 == 14
is_multicast (v6 addr) = addr / 2 ^ 120 == 255

abbrev pub or_zero : Option ℕ → ℕ
or_zero none = 0
or_zero (some v) = v

-- `*total.entry(k).or_insert(0) += v`
unfoldable pub add_counter : IpAddr × ℕ → ℕ → Counters → Counters
unfolding add_u64
add_counter k v total =
    insert counter_key k (add_u64 (or_zero (lookup counter_key k total)) v) total

unfoldable pub add_local : Counters → Counters → Counters
unfolding add_counter is_link_local is_multicast
add_local [] total = total
add_local (((ip, iface), v) ∷ counters) total =
    add_local counters
      (if is_link_local ip || is_multicast ip then total else add_counter (ip, iface) v total)

unfoldable pub add_forwarded : Counters → Counters → Counters
unfolding add_counter
add_forwarded [] total = total
add_forwarded ((k, v) ∷ counters) total = add_forwarded counters (add_counter k v total)

-- The counters of the chain that ends or starts here, and those of the forwarded traffic; `none`
-- where they cannot be read.
unfoldable pub get_input_counters : Option Counters → Option Counters → Result Counters
unfolding add_local add_forwarded
get_input_counters none fwd_input_counters = err kernel_interface_error
get_input_counters (some input_counters) none = err kernel_interface_error
get_input_counters (some input_counters) (some fwd_input_counters) =
    ok (add_forwarded fwd_input_counters (add_local input_counters []))

unfoldable pub get_output_counters : Option Counters → Option Counters → Result Counters
unfolding add_local add_forwarded
get_output_counters none fwd_output_counters = err kernel_interface_error
get_output_counters (some output_counters) none = err kernel_interface_error
get_output_counters (some output_counters) (some fwd_output_counters) =
    ok (add_forwarded fwd_output_counters (add_local output_counters []))

unfoldable pub total_bytes : Counters → ℕ → ℕ
unfolding add_u64
total_bytes [] total = total
total_bytes ((k, count) ∷ counters) total = total_bytes counters (add_u64 total count)

unfoldable pub update_usage :
    ℕ → Counters → Counters → ℕ → UsageTrackerStorage → UsageTrackerStorage
unfolding total_bytes
update_usage current_hour input output our_fee usage =
    process_usage_update current_hour
      (record {
        kind = relay;
        up = total_bytes output 0;
        down = total_bytes input 0;
        price = our_fee;
      })
      usage

-- What a neighbour owes us is negative: it pays for what it sends, by the price of the destination,
-- and is paid for what it is sent, by that price less our fee.
abbrev pub input_amount : ℤ → ℕ → ℤ
input_amount dest bytes = pos 0 -ℤ dest *ℤ pos bytes

abbrev pub output_amount : ℕ → ℤ → ℕ → ℤ
output_amount local_fee dest bytes = (dest -ℤ pos local_fee) *ℤ pos bytes

-- The loops over the counters.
unfoldable pub collate : (ℤ → ℕ → ℤ) → Destinations → List (ℕ × Identity) → Counters → Debts → Debts
collate amount destinations if_to_id [] debts = debts
collate amount destinations if_to_id (((ip, interface), bytes) ∷ counters) debts =
    collate amount destinations if_to_id counters (elim (lookup ip_key ip destinations) [
      | none ↦ debts
      | some dest ↦ elim (lookup nat_key interface if_to_id) [
        | none ↦ debts
        | some id_from_if ↦ add_to id_from_if (amount dest bytes) debts
      ]
    ])

abbrev pub values : List (IpAddr × Identity) → List Identity
values [] = []
values ((ip, id) ∷ m) = id ∷ values m

-- The two components that a round changes.
pub record System : Type 0 where
  pub debt_keeper : DebtKeeper
  pub usage : UsageTrackerStorage

abbrev pub on_debt_keeper : {A : Type 0} → Action DebtKeeper A → Action System A
on_debt_keeper f s =
    let (r, dk) = f s.debt_keeper in (r, record { debt_keeper = dk; usage = s.usage })

-- What is read from the kernel in a round.
pub record Readings : Type 0 where
  pub input : Option Counters
  pub forward_input : Option Counters
  pub output : Option Counters
  pub forward_output : Option Counters

module _ (n : Num256) (settings : NetworkSettings) (current_hour : ℕ) where
  unfoldable pub watch : List BabelRoute → List Neighbor → Readings → Action System (Unit {0})
  unfolding update_usage
  watch routes neighbors readings = do
    let (identities, if_to_id) = prepare_helper_maps neighbors
    (destinations, local_fee) ← try (get_babel_info settings routes)
    total_input_counters ← try (get_input_counters readings.input readings.forward_input)
    total_output_counters ← try (get_output_counters readings.output readings.forward_output)
    modify (λ s. record s {
      usage =
          update_usage current_hour total_input_counters total_output_counters local_fee s.usage;
    })
    let inputs =
        collate input_amount destinations if_to_id total_input_counters
          (setup (values identities) [])
    let debts = collate (output_amount local_fee) destinations if_to_id total_output_counters inputs
    on_debt_keeper (traffic_update n (traffic_vec debts))
