-- ===== src/ExitDatabase/Tests.antt =====
-- Examples of the addresses of an exit with the network 172.168.0.100/30 and the subnet ::1000/126.
use rita.Common.{
  ℕ, ◌+◌, ◌-◌, ◌*◌, ◌/◌, ◌^◌, ◌≤◌, ◌≡◌, ◌≢◌, refl, true, Option, none, some, [], ◌∷◌, arith, leb,
  ltb, if◌then◌else◌,
}
use rita.Common.Map.{lookup, insert}
use rita.Outcome.{ok}
use rita.Types.{v4, Identity, ip_eq, IpNetwork, v6_network}
use rita.Samples.{alice, bob}
use rita.ExitDatabase.{
  IpNetworkCrate, IpAssignmentMap, ExitNetworkSettings, ExitClient, to_exit_client,
  get_client_internal_ip, generate_iterative_client_subnet, ip_of, retry, get_client_ipv6,
  add_new_ipv6_assignment, add_new_internal_ip_assignement, ipv6_attempt, internal_ip_attempt,
}
use rita.ExitDatabase.Subnets.{subnets_disjoint, pow_le}
use rita.ExitDatabase.Stable.{serve, to_exit_client-again, to_exit_client-apart}
use rita.ExitDatabase.Hosts.{IsHost, get_client_internal_ip-IsHost}

-- The start of the block of `size` addresses that holds the address, where it fits 128 bits.
abbrev start6 : ℕ → ℕ → ℕ
start6 addr size = if leb (addr / size * size + size) (2 ^ 128) then addr / size * size else 0

abbrev start4 : ℕ → ℕ → ℕ
start4 addr prefix = addr / 2 ^ (32 - prefix) * 2 ^ (32 - prefix)

abbrev nth : ℕ → ℕ → ℕ → Option ℕ
nth addr prefix n = if ltb n (2 ^ (32 - prefix)) then some (start4 addr prefix + n) else none

leb_le : (prefix : ℕ) → leb prefix 128 ≡ true → prefix ≤ 128
leb_le prefix e = ground (arith, e)

start6_bound :
    (addr prefix : ℕ)
    → prefix ≤ 128
    → start6 addr (2 ^ (128 - prefix)) + 2 ^ (128 - prefix) ≤ 2 ^ 128
start6_bound addr prefix l = ground (arith, pow_le (128 - prefix) 128 (omega arith))

nth_bounds :
    (addr prefix n x : ℕ)
    → nth addr prefix n ≡ some x
    → (start4 addr prefix ≤ x) × (x ≤ start4 addr prefix + 2 ^ (32 - prefix) - 1)
nth_bounds addr prefix n x e = ground (arith, e)

abbrev crate : IpNetworkCrate
crate = record {
  new4 = λ prefix. leb prefix 32;
  new6 = λ prefix. leb prefix 128;
  network4 = start4;
  network6 = λ addr prefix. start6 addr (2 ^ (128 - prefix));
  broadcast4 = λ addr prefix. start4 addr prefix + 2 ^ (32 - prefix) - 1;
  size6 = λ prefix. 2 ^ (128 - prefix);
  nth4 = nth;
  new6_le = leb_le;
  size6_lem = λ prefix l k. refl;
  network6_bound = start6_bound;
  nth4_bounds = nth_bounds;
}

abbrev hash : ℕ → ℕ
hash key = key

abbrev gateway : ℕ
gateway = 2896691300

abbrev exit_network : ExitNetworkSettings
exit_network = record {
  subnet = some (v6_network 4096 126);
  client_subnet_size = some 128;
  netmask = 30;
  own_internal_ip = gateway;
}

abbrev fresh : IpAssignmentMap
fresh = record { ipv6_assignments = []; internal_ip_assignments = [] }

abbrev client : Identity → ℕ → ℕ → ExitClient
client id ip subnet = record {
  mesh_ip = id.mesh_ip;
  internal_ip = v4 ip;
  port = 59999;
  public_key = id.wg_public_key;
  internet_ipv6 = some (v6_network subnet 128);
}

alice_given :
    (to_exit_client crate hash exit_network alice fresh).0 ≡ ok (client alice (gateway + 1) 4097)
unfolding to_exit_client get_client_ipv6 get_client_internal_ip retry ipv6_attempt
    internal_ip_attempt lookup add_new_ipv6_assignment
alice_given = refl

abbrev after_alice : IpAssignmentMap
after_alice = (to_exit_client crate hash exit_network alice fresh).1

bob_given :
    (to_exit_client crate hash exit_network bob (serve crate hash exit_network [] after_alice)).0
    ≡ ok (client bob (gateway + 2) 4098)
unfolding to_exit_client get_client_ipv6 get_client_internal_ip retry ipv6_attempt
    internal_ip_attempt lookup add_new_ipv6_assignment insert add_new_internal_ip_assignement ip_eq
bob_given = refl

to_exit_client-again_example :
    (to_exit_client crate hash exit_network alice
      (serve crate hash exit_network (bob ∷ alice ∷ []) after_alice)).0
    ≡ ok (client alice (gateway + 1) 4097)
to_exit_client-again_example =
    to_exit_client-again crate hash exit_network alice fresh (client alice (gateway + 1) 4097)
      alice_given (bob ∷ alice ∷ [])

to_exit_client-apart_example :
    (v4 (gateway + 1) ≢ v4 (gateway + 2))
    × ((a b : IpNetwork)
        → some (v6_network 4097 128) ≡ some a
        → some (v6_network 4098 128) ≡ some b
        → ip_of a ≢ ip_of b)
to_exit_client-apart_example =
    to_exit_client-apart crate hash exit_network alice bob fresh (client alice (gateway + 1) 4097)
      (client bob (gateway + 2) 4098) [] (λ e. ground (arith, e)) alice_given bob_given

first_subnet :
    generate_iterative_client_subnet crate (v6_network 4919 120) 1 124 ≡ ok (v6_network 4880 124)
unfolding generate_iterative_client_subnet
first_subnet = refl

third_subnet :
    generate_iterative_client_subnet crate (v6_network 4919 120) 3 124 ≡ ok (v6_network 4912 124)
unfolding generate_iterative_client_subnet
third_subnet = refl

subnets_disjoint_example :
    (a : ℕ) × (b : ℕ) × (v6_network 4880 124 ≡ v6_network a 124)
    × (v6_network 4912 124 ≡ v6_network b 124)
    × (crate.network6 4919 120 ≤ a)
    × (a + 2 ^ (128 - 124) ≤ b)
    × (b + 2 ^ (128 - 124) ≤ crate.network6 4919 120 + 2 ^ (128 - 120))
subnets_disjoint_example =
    subnets_disjoint crate 4919 120 1 3 124 (v6_network 4880 124) (v6_network 4912 124)
      (omega arith) (omega arith) first_subnet third_subnet

alice_internal : (get_client_internal_ip crate hash 21 30 gateway fresh).0 ≡ ok (v4 (gateway + 1))
unfolding get_client_internal_ip retry internal_ip_attempt lookup add_new_internal_ip_assignement
alice_internal = refl

get_client_internal_ip-IsHost_example :
    (a : ℕ) × (v4 (gateway + 1) ≡ v4 a) × IsHost crate 30 gateway 21 fresh a
get_client_internal_ip-IsHost_example =
    get_client_internal_ip-IsHost crate 30 gateway 21 fresh hash (v4 (gateway + 1)) alice_internal
