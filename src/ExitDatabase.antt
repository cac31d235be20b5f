-- ===== src/ExitDatabase.antt =====
-- rita_exit/src/database/in_memory_database.rs: which addresses the exit gives to its clients.
-- Sums and shifts of fixed width wrap around, as in the release build. The ipnetwork crate and the
-- hash of a key are third-party code, and parameters. An error has its text without the values that
-- are formatted into it.
pub mod Retry
pub mod Subnets
pub mod Assign
pub mod Request
pub mod Stable
pub mod Hosts
mod Tests
use rita.Common.{
  ℕ, zero, suc, ◌+◌, ◌-◌, ◌*◌, ◌%◌, ◌^◌, ◌≤◌, ◌<◌, ◌≡◌, Bool, true, false, Option, none, some,
  String, List, ltb, ◌==◌, ◌||◌, if◌then◌else◌,
}
use rita.Common.Map.{lookup, insert}
use rita.Outcome.{ResultOf, ok, err, panic, ActionOf, gets, pure, fail, ◌>>=◌}
use rita.Types.{IpAddr, v4, v6, Identity, ip_key, IpNetwork, v4_network, v6_network}

abbrev pub client_wg_port : ℕ
client_wg_port = 59999

abbrev pub max_ip_retries : ℕ
max_ip_retries = 10

abbrev pub default_client_subnet_size : ℕ
default_client_subnet_size = 56

pub data RitaExitError : Type 0 where
  misc_string_error : String → RitaExitError
  kernel_interface_error : RitaExitError

abbrev pub prefix_of : IpNetwork → ℕ
prefix_of (v4_network addr prefix) = prefix
prefix_of (v6_network addr prefix) = prefix

abbrev pub ip_of : IpNetwork → IpAddr
ip_of (v4_network addr prefix) = v4 addr
ip_of (v6_network addr prefix) = v6 addr

-- The ipnetwork crate, as it is documented. `new` fails where the prefix is longer than an address.
-- `size6` is the number of addresses, and does not fit for the prefix 0. The addresses of a network
-- are those from `network` on, and `nth4` gives one that is not above `broadcast4`.
pub record IpNetworkCrate : Type 0 where
  pub new4 : (prefix : ℕ) → Bool
  pub new6 : (prefix : ℕ) → Bool
  pub network4 : (addr prefix : ℕ) → ℕ
  pub network6 : (addr prefix : ℕ) → ℕ
  pub broadcast4 : (addr prefix : ℕ) → ℕ
  pub size6 : (prefix : ℕ) → ℕ
  pub nth4 : (addr prefix n : ℕ) → Option ℕ
  pub new6_le : (prefix : ℕ) → new6 prefix ≡ true → prefix ≤ 128
  pub size6_lem : (prefix : ℕ) → 0 < prefix → prefix ≤ 128 → size6 prefix ≡ 2 ^ (128 - prefix)
  pub network6_bound :
      (addr prefix : ℕ) → prefix ≤ 128 → network6 addr prefix + 2 ^ (128 - prefix) ≤ 2 ^ 128
  pub nth4_bounds :
      (addr prefix n x : ℕ)
      → nth4 addr prefix n ≡ some x
      → (network4 addr prefix ≤ x) × (x ≤ broadcast4 addr prefix)

pub record IpAssignmentMap : Type 0 where
  pub ipv6_assignments : List (IpAddr × ℕ)
  pub internal_ip_assignments : List (IpAddr × ℕ)

-- `1 << k` at 64 bits, where k has 8 bits.
abbrev pub shl_u64 : ℕ → ℕ
shl_u64 k = 2 ^ (k % 64)

abbrev pub sub_u8 : ℕ → ℕ → ℕ
sub_u8 a b = (a + 256 - b) % 256

-- The loops that ask for an address until one is found: `none` goes on with the next index.
unfoldable pub retry :
    {A : Type 0} → ℕ → ℕ → (ℕ → Option (ResultOf RitaExitError A)) → ℕ → ResultOf RitaExitError A
retry zero total attempt index = err (misc_string_error "Unable to get an address")
retry (suc rounds) total attempt index = elim (attempt index) [
  | some result ↦ result
  | none ↦ retry rounds total attempt ((index + 1) % total)
]

-- The address is ours, or nobody's.
unfoldable pub is_ours : ℕ → Option ℕ → Bool
is_ours our_wgkey none = true
is_ours our_wgkey (some a) = a == our_wgkey

unfoldable pub validate_internet_ipv6 : IpNetwork → ℕ → IpAssignmentMap → Bool
unfolding is_ours
validate_internet_ipv6 client_subnet our_wgkey s =
    is_ours our_wgkey (lookup ip_key (ip_of client_subnet) s.ipv6_assignments)

unfoldable pub add_new_ipv6_assignment : IpAddr → ℕ → IpAssignmentMap → IpAssignmentMap
add_new_ipv6_assignment addr key s = record s {
  ipv6_assignments = insert ip_key addr key s.ipv6_assignments;
}

unfoldable pub add_new_internal_ip_assignement : IpAddr → ℕ → IpAssignmentMap → IpAssignmentMap
add_new_internal_ip_assignement addr key s = record s {
  internal_ip_assignments = insert ip_key addr key s.internal_ip_assignments;
}

module _ (ipnetwork : IpNetworkCrate) where
  open ipnetwork use {new4, new6, network4, network6, broadcast4, size6, nth4}

  unfoldable pub generate_iterative_client_subnet :
      IpNetwork → ℕ → ℕ → ResultOf RitaExitError IpNetwork
  generate_iterative_client_subnet (v4_network addr prefix) ind subprefix =
      err (misc_string_error "Exit subnet expected to be ipv6!!")
  generate_iterative_client_subnet (v6_network addr prefix) ind subprefix =
      if new6 subprefix
      then if ltb subprefix prefix
        then err (misc_string_error "Client subnet larger than exit subnet")
        else if ltb ind (shl_u64 (subprefix - prefix))
        then ok (v6_network ((network6 addr prefix + ind * size6 subprefix) % 2 ^ 128) subprefix)
        else err (misc_string_error "Index larger than available subnets")
      else panic

  unfoldable pub ipv6_attempt :
      IpNetwork → ℕ → ℕ → IpAssignmentMap → ℕ → Option (ResultOf RitaExitError IpNetwork)
  unfolding generate_iterative_client_subnet validate_internet_ipv6
  ipv6_attempt exit_sub client_subnet_size our_wgkey s generative_index =
      elim (generate_iterative_client_subnet exit_sub generative_index client_subnet_size) [
        | err e ↦ some (err e)
        | panic ↦ some panic
        | ok client_subnet ↦
            if validate_internet_ipv6 client_subnet our_wgkey s
            then some (ok client_subnet)
            else none
      ]

  unfoldable pub validate_internal_ip : ℕ → ℕ → ℕ → ℕ → IpAssignmentMap → Bool
  unfolding is_ours
  validate_internal_ip netmask assigned_ip our_ip our_wgkey s =
      if assigned_ip == our_ip
      then false
      else if assigned_ip == network4 our_ip netmask
      then false
      else if assigned_ip == broadcast4 our_ip netmask
      then false
      else is_ours our_wgkey (lookup ip_key (v4 assigned_ip) s.internal_ip_assignments)

  -- An index above 32 bits is passed over.
  unfoldable pub internal_ip_attempt :
      ℕ → ℕ → ℕ → IpAssignmentMap → ℕ → Option (ResultOf RitaExitError ℕ)
  unfolding validate_internal_ip
  internal_ip_attempt netmask gateway_ip our_wgkey s generative_index =
      if ltb generative_index (2 ^ 32)
      then elim (nth4 gateway_ip netmask generative_index) [
        | none ↦ none
        | some internal_ip ↦
            if validate_internal_ip netmask internal_ip gateway_ip our_wgkey s
            then some (ok internal_ip)
            else none
      ]
      else none

  module _ (hash_wgkey : ℕ → ℕ) where
    unfoldable pub get_client_ipv6 :
        ℕ → Option IpNetwork → ℕ → ActionOf RitaExitError IpAssignmentMap (Option IpNetwork)
    get_client_ipv6 their_key none client_subnet_size s = (ok none, s)
    get_client_ipv6 their_key (some exit_sub) client_subnet_size s =
        let total_subnets = shl_u64 (sub_u8 client_subnet_size (prefix_of exit_sub)) in
        elim (retry (max_ip_retries + 1) total_subnets
          (ipv6_attempt exit_sub client_subnet_size their_key s)
          (hash_wgkey their_key % total_subnets)) [
            | err e ↦ (err e, s)
            | panic ↦ (panic, s)
            | ok client_subnet ↦
                (ok (some client_subnet), add_new_ipv6_assignment (ip_of client_subnet) their_key s)
          ]

    -- A remainder by 0 panics.
    unfoldable pub get_client_internal_ip :
        ℕ → ℕ → ℕ → ActionOf RitaExitError IpAssignmentMap IpAddr
    get_client_internal_ip their_key netmask gateway_ip s =
        let total_addresses = 2 ^ sub_u8 32 netmask % 2 ^ 64 in
        if total_addresses == 0
        then (panic, s)
        else if new4 netmask
        then elim (retry (max_ip_retries + 1) total_addresses
            (internal_ip_attempt netmask gateway_ip their_key s)
            (hash_wgkey their_key % total_addresses)) [
              | err e ↦ (err e, s)
              | panic ↦ (panic, s)
              | ok internal_ip ↦ (
                ok (v4 internal_ip),
                add_new_internal_ip_assignement (v4 internal_ip) their_key s,
              )
            ]
        else (err (misc_string_error "Unable to setup an ipnetwork to generate internal ip"), s)

pub record ExitNetworkSettings : Type 0 where
  pub subnet : Option IpNetwork
  pub client_subnet_size : Option ℕ
  pub netmask : ℕ
  pub own_internal_ip : ℕ

pub record ExitClient : Type 0 where
  pub mesh_ip : IpAddr
  pub internal_ip : IpAddr
  pub port : ℕ
  pub public_key : ℕ
  pub internet_ipv6 : Option IpNetwork

abbrev pub or_default : Option ℕ → ℕ
or_default none = default_client_subnet_size
or_default (some size) = size

module _ (ipnetwork : IpNetworkCrate) (hash_wgkey : ℕ → ℕ) (settings : ExitNetworkSettings) where
  unfoldable pub to_exit_client : Identity → ActionOf RitaExitError IpAssignmentMap ExitClient
  to_exit_client client = do
    internet_ipv6 ←
        get_client_ipv6 ipnetwork hash_wgkey client.wg_public_key settings.subnet
          (or_default settings.client_subnet_size)
    internal_ip ←
        get_client_internal_ip ipnetwork hash_wgkey client.wg_public_key settings.netmask
          settings.own_internal_ip
    pure (record {
      mesh_ip = client.mesh_ip;
      internal_ip = internal_ip;
      port = client_wg_port;
      public_key = client.wg_public_key;
      internet_ipv6 = internet_ipv6;
    })
