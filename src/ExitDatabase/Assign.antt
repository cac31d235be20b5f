-- ===== src/ExitDatabase/Assign.antt =====
-- rita_exit/src/database/in_memory_database.rs: one client's request for an address.
-- Assignments are only added, and the address that is given is recorded.
use rita.Common.{ℕ, ◌≡◌, inl, inr, Bool-cases, true, false, none, some, arith, List, Option-cases}
use rita.Common.Map.{lookup, insert, lookup-insert, lookup-congr}
use rita.Outcome.{ResultOf-cases, ok}
use rita.Types.{IpAddr, v4, ip_key, ip_eq, IpNetwork}
use rita.ExitDatabase.{
  IpAssignmentMap, IpNetworkCrate, ip_of, is_ours, validate_internet_ipv6, validate_internal_ip,
  generate_iterative_client_subnet, ipv6_attempt, internal_ip_attempt,
}

abbrev pub Assignments : Type 0
Assignments = List (IpAddr × ℕ)

-- Every assignment is still there.
abbrev pub Grows : Assignments → Assignments → Type 0
Grows m m' =
    (addr : IpAddr) (key : ℕ) → lookup ip_key addr m ≡ some key → lookup ip_key addr m' ≡ some key

pub is_ours-insert :
    (m : Assignments) (addr : IpAddr) (key : ℕ)
    → is_ours key (lookup ip_key addr m) ≡ true
    → Grows m (insert ip_key addr key m)
unfolding is_ours
is_ours-insert m addr key e a k h = elim (Bool-cases (ip_eq addr a)) [
  | inl same ↦
      ground
        (arith, h, e, same, lookup-insert ip_key addr a key m, lookup-congr ip_key addr a m same)
  | inr other ↦ ground (arith, h, other, lookup-insert ip_key addr a key m)
]

-- An address that somebody else has stays so.
is_ours-Grows :
    (m m' : Assignments) (addr : IpAddr) (key : ℕ)
    → Grows m m'
    → is_ours key (lookup ip_key addr m) ≡ false
    → is_ours key (lookup ip_key addr m') ≡ false
unfolding is_ours
is_ours-Grows m m' addr key grows e = elim (Option-cases (lookup ip_key addr m)) [
  | inl h ↦ ground (arith, e, h)
  | inr (k, h) ↦ ground (arith, e, h, grows addr k h)
]

pub is_ours_self :
    (m : Assignments) (addr : IpAddr) (key : ℕ)
    → lookup ip_key addr m ≡ some key
    → is_ours key (lookup ip_key addr m) ≡ true
unfolding is_ours
is_ours_self m addr key e = ground (arith, e)

module _ (ipnetwork : IpNetworkCrate) where
  module _ (exit_sub : IpNetwork) (size key : ℕ) where
    pub attempt6-ours :
        (s : IpAssignmentMap) (i : ℕ) (a : IpNetwork)
        → ipv6_attempt ipnetwork exit_sub size key s i ≡ some (ok a)
        → (generate_iterative_client_subnet ipnetwork exit_sub i size ≡ ok a)
          × (is_ours key (lookup ip_key (ip_of a) s.ipv6_assignments) ≡ true)
    unfolding ipv6_attempt validate_internet_ipv6
    attempt6-ours s i a e = ground (arith, e)

    pub attempt6-taken :
        (s t : IpAssignmentMap) (i : ℕ)
        → Grows s.ipv6_assignments t.ipv6_assignments
        → ipv6_attempt ipnetwork exit_sub size key s i ≡ none
        → ipv6_attempt ipnetwork exit_sub size key t i ≡ none
    unfolding ipv6_attempt validate_internet_ipv6
    attempt6-taken s t i grows e =
        elim (ResultOf-cases (generate_iterative_client_subnet ipnetwork exit_sub i size)) [
          | inl (a, h) ↦
              elim (Bool-cases (is_ours key (lookup ip_key (ip_of a) s.ipv6_assignments))) [
                | inl f ↦ ground (arith, e, h, f)
                | inr f ↦ ground (
                  arith,
                  e,
                  h,
                  f,
                  is_ours-Grows s.ipv6_assignments t.ipv6_assignments (ip_of a) key grows f,
                )
              ]
          | inr (inl (x, h)) ↦ ground (arith, e, h)
          | inr (inr h) ↦ ground (arith, e, h)
        ]

    pub attempt6-given :
        (s t : IpAssignmentMap) (i : ℕ) (a : IpNetwork)
        → lookup ip_key (ip_of a) t.ipv6_assignments ≡ some key
        → ipv6_attempt ipnetwork exit_sub size key s i ≡ some (ok a)
        → ipv6_attempt ipnetwork exit_sub size key t i ≡ some (ok a)
    unfolding ipv6_attempt validate_internet_ipv6
    attempt6-given s t i a found e =
        ground (arith, attempt6-ours s i a e, is_ours_self t.ipv6_assignments (ip_of a) key found)

  module _ (netmask gateway_ip key : ℕ) where
    pub attempt4-ours :
        (s : IpAssignmentMap) (i a : ℕ)
        → internal_ip_attempt ipnetwork netmask gateway_ip key s i ≡ some (ok a)
        → is_ours key (lookup ip_key (v4 a) s.internal_ip_assignments) ≡ true
    unfolding internal_ip_attempt validate_internal_ip
    attempt4-ours s i a e = ground (arith, e)

    pub attempt4-given :
        (s t : IpAssignmentMap) (i a : ℕ)
        → lookup ip_key (v4 a) t.internal_ip_assignments ≡ some key
        → internal_ip_attempt ipnetwork netmask gateway_ip key s i ≡ some (ok a)
        → internal_ip_attempt ipnetwork netmask gateway_ip key t i ≡ some (ok a)
    unfolding internal_ip_attempt validate_internal_ip
    attempt4-given s t i a found e =
        ground (arith, is_ours_self t.internal_ip_assignments (v4 a) key found)

    pub attempt4-taken :
        (s t : IpAssignmentMap) (i : ℕ)
        → Grows s.internal_ip_assignments t.internal_ip_assignments
        → internal_ip_attempt ipnetwork netmask gateway_ip key s i ≡ none
        → internal_ip_attempt ipnetwork netmask gateway_ip key t i ≡ none
    unfolding internal_ip_attempt validate_internal_ip
    attempt4-taken s t i grows e = elim (Option-cases (ipnetwork.nth4 gateway_ip netmask i)) [
      | inl h ↦ ground (arith, e, h)
      | inr (a, h) ↦
          elim (Bool-cases (is_ours key (lookup ip_key (v4 a) s.internal_ip_assignments))) [
            | inl f ↦ ground (arith, e, h, f)
            | inr f ↦ ground (
              arith,
              e,
              h,
              f,
              is_ours-Grows s.internal_ip_assignments t.internal_ip_assignments (v4 a) key grows f,
            )
          ]
    ]
