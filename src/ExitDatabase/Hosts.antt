-- ===== src/ExitDatabase/Hosts.antt =====
-- rita_exit/src/database/in_memory_database.rs: which internal addresses are given, and when.
use rita.Common.{
  ℕ, ◌+◌, ◌%◌, ◌^◌, ◌<◌, ◌≡◌, ◌≢◌, Option, some, false, inl, inr, arith, ◌==◌, Option-cases,
}
use rita.Outcome.{ResultOf, ok}
use rita.Types.{IpAddr, v4}
use rita.ExitDatabase.{
  RitaExitError, IpAssignmentMap, IpNetworkCrate, internal_ip_attempt, validate_internal_ip,
  get_client_internal_ip, max_ip_retries, sub_u8,
}
use rita.ExitDatabase.Retry.{index_after, retry-attempt}
use rita.ExitDatabase.Request.{get4-cases}

module _ (ipnetwork : IpNetworkCrate) (netmask gateway_ip key : ℕ) (s : IpAssignmentMap) where
  open ipnetwork use {network4, broadcast4, nth4, nth4_bounds, new4}

  -- An address of the network that is not its first or last one, nor the gateway's.
  abbrev pub IsHost : ℕ → Type 0
  IsHost a =
      (network4 gateway_ip netmask < a) × (a < broadcast4 gateway_ip netmask) × (a ≢ gateway_ip)

  attempt-valid :
      (i a : ℕ)
      → internal_ip_attempt ipnetwork netmask gateway_ip key s i ≡ some (ok a)
      → (nth4 gateway_ip netmask i ≡ some a)
        × ((a == gateway_ip) ≡ false)
        × ((a == network4 gateway_ip netmask) ≡ false)
        × ((a == broadcast4 gateway_ip netmask) ≡ false)
  unfolding internal_ip_attempt validate_internal_ip
  attempt-valid i a e = elim (Option-cases (nth4 gateway_ip netmask i)) [
    | inl h ↦ ground (arith, e, h)
    | inr (b, h) ↦ ground (arith, e, h)
  ]

  attempt-IsHost :
      (i a : ℕ) → internal_ip_attempt ipnetwork netmask gateway_ip key s i ≡ some (ok a) → IsHost a
  attempt-IsHost i a e =
      let (found, g, n, b) = attempt-valid i a e in
      let (low, high) = nth4_bounds gateway_ip netmask i a found in
      ground (arith, low, high, g, n, b)

  module _ (hash_wgkey : ℕ → ℕ) where
    -- An internal address that is given is that of a host in the network of the gateway: it is not
    -- the first or the last address of the network, nor the gateway's.
    pub get_client_internal_ip-IsHost :
        (x : IpAddr)
        → (get_client_internal_ip ipnetwork hash_wgkey key netmask gateway_ip s).0 ≡ ok x
        → (a : ℕ) × (x ≡ v4 a) × IsHost a
    get_client_internal_ip-IsHost x e =
        elim (get4-cases ipnetwork hash_wgkey key netmask gateway_ip s) [
          | inl (a, h, f) ↦
              let total = 2 ^ sub_u8 32 netmask % 2 ^ 64 in
              let (k, l, found) =
                retry-attempt total (max_ip_retries + 1)
                  (internal_ip_attempt ipnetwork netmask gateway_ip key s) (hash_wgkey key % total)
                  a h in
              (a, ground (arith, e, f), attempt-IsHost _ a found)
          | inr (f, fails) ↦ absurd (fails x e)
        ]

    -- The attempt that is made after k rounds.
    abbrev pub attempt_after : ℕ → Option (ResultOf RitaExitError ℕ)
    attempt_after k =
        let total = 2 ^ sub_u8 32 netmask % 2 ^ 64 in
        internal_ip_attempt ipnetwork netmask gateway_ip key s
          (index_after k total (hash_wgkey key % total))
