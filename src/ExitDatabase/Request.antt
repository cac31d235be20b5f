-- ===== src/ExitDatabase/Request.antt =====
-- rita_exit/src/database/in_memory_database.rs: the addresses of one kind that a client asks for are
-- recorded for it, and it gets them again.
use rita.Common.{
  ℕ, ◌+◌, ◌%◌, ◌≡◌, ◌⊎◌, inl, inr, Bool-cases, true, Option, none, some, arith, ◌==◌, ◌^◌, ap,
}
use rita.Common.Map.{lookup, lookup-insert_self}
use rita.Outcome.{ResultOf-cases, ResultOf, ok, err, panic}
use rita.Types.{IpAddr, v4, ip_key, IpNetwork}
use rita.ExitDatabase.{
  RitaExitError, retry, IpAssignmentMap, IpNetworkCrate, ip_of, is_ours, add_new_ipv6_assignment,
  add_new_internal_ip_assignement, ipv6_attempt, internal_ip_attempt, get_client_ipv6,
  get_client_internal_ip, max_ip_retries, shl_u64, sub_u8, prefix_of,
}
use rita.ExitDatabase.Retry.{retry-attempt, retry-same}
use rita.ExitDatabase.Assign.{
  Grows, is_ours-insert, attempt6-ours, attempt6-taken, attempt6-given, attempt4-ours,
  attempt4-taken, attempt4-given,
}

-- Every assignment is still there.
abbrev pub GrowsBoth : IpAssignmentMap → IpAssignmentMap → Type 0
GrowsBoth s t =
    Grows s.ipv6_assignments t.ipv6_assignments
    × Grows s.internal_ip_assignments t.internal_ip_assignments

abbrev pub ip_of_subnet : Option IpNetwork → Option IpAddr
ip_of_subnet none = none
ip_of_subnet (some a) = some (ip_of a)

-- The addresses that are given are recorded for the key.
abbrev pub Has6 : ℕ → Option IpNetwork → IpAssignmentMap → Type 0
Has6 key none s = Unit {0}
Has6 key (some a) s = lookup ip_key (ip_of a) s.ipv6_assignments ≡ some key

module _ (ipnetwork : IpNetworkCrate) (hash_wgkey : ℕ → ℕ) where
  module _ (key size : ℕ) where
    abbrev search6 : IpNetwork → IpAssignmentMap → ResultOf RitaExitError IpNetwork
    search6 exit_sub s =
        let total = shl_u64 (sub_u8 size (prefix_of exit_sub)) in
        retry (max_ip_retries + 1) total (ipv6_attempt ipnetwork exit_sub size key s)
          (hash_wgkey key % total)

    abbrev pub get6 :
        Option IpNetwork
        → IpAssignmentMap
        → ResultOf RitaExitError (Option IpNetwork) × IpAssignmentMap
    get6 sub s = get_client_ipv6 ipnetwork hash_wgkey key sub size s

    pub get6-ok :
        (exit_sub a : IpNetwork) (s : IpAssignmentMap)
        → search6 exit_sub s ≡ ok a
        → get6 (some exit_sub) s ≡ (ok (some a), add_new_ipv6_assignment (ip_of a) key s)
    unfolding get_client_ipv6
    get6-ok exit_sub a s e = ground (arith, e)

    pub get6-err :
        (exit_sub : IpNetwork) (s : IpAssignmentMap) (e : RitaExitError)
        → search6 exit_sub s ≡ err e
        → get6 (some exit_sub) s ≡ (err e, s)
    unfolding get_client_ipv6
    get6-err exit_sub s e h = ground (arith, h)

    pub get6-panic :
        (exit_sub : IpNetwork) (s : IpAssignmentMap)
        → search6 exit_sub s ≡ panic
        → get6 (some exit_sub) s ≡ (panic, s)
    unfolding get_client_ipv6
    get6-panic exit_sub s h = ground (arith, h)

    search6-ours :
        (exit_sub a : IpNetwork) (s : IpAssignmentMap)
        → search6 exit_sub s ≡ ok a
        → is_ours key (lookup ip_key (ip_of a) s.ipv6_assignments) ≡ true
    search6-ours exit_sub a s e =
        let total = shl_u64 (sub_u8 size (prefix_of exit_sub)) in
        let (k, l, found) =
          retry-attempt total (max_ip_retries + 1) (ipv6_attempt ipnetwork exit_sub size key s)
            (hash_wgkey key % total) a e in
        (attempt6-ours ipnetwork exit_sub size key s _ a found).1

    pub get6-Grows : (sub : Option IpNetwork) (s : IpAssignmentMap) → GrowsBoth s (get6 sub s).1
    unfolding add_new_ipv6_assignment
    get6-Grows none s = unfold get_client_ipv6 in ((λ a k h. h), (λ a k h. h))
    get6-Grows (some exit_sub) s = elim (ResultOf-cases (search6 exit_sub s)) [
      | inl (a, h) ↦ rw (get6-ok exit_sub a s h) (
        is_ours-insert s.ipv6_assignments (ip_of a) key (search6-ours exit_sub a s h),
        (λ a k h. h),
      )
      | inr (inl (x, h)) ↦ rw (get6-err exit_sub s x h) ((λ a k h. h), (λ a k h. h))
      | inr (inr h) ↦ rw (get6-panic exit_sub s h) ((λ a k h. h), (λ a k h. h))
    ]

    pub get6-found :
        (exit_sub b : IpNetwork) (s : IpAssignmentMap)
        → (get6 (some exit_sub) s).0 ≡ ok (some b)
        → search6 exit_sub s ≡ ok b
    get6-found exit_sub b s e = elim (ResultOf-cases (search6 exit_sub s)) [
      | inl (a, h) ↦ ground (arith, e, h, get6-ok exit_sub a s h)
      | inr (inl (x, h)) ↦ ground (arith, e, get6-err exit_sub s x h)
      | inr (inr h) ↦ ground (arith, e, get6-panic exit_sub s h)
    ]

    pub get6-some :
        (exit_sub : IpNetwork) (s : IpAssignmentMap) → ¬ ((get6 (some exit_sub) s).0 ≡ ok none)
    get6-some exit_sub s e = elim (ResultOf-cases (search6 exit_sub s)) [
      | inl (a, h) ↦ ground (arith, e, get6-ok exit_sub a s h)
      | inr (inl (x, h)) ↦ ground (arith, e, get6-err exit_sub s x h)
      | inr (inr h) ↦ ground (arith, e, get6-panic exit_sub s h)
    ]

    pub get6-Has6 :
        (sub x : Option IpNetwork) (s : IpAssignmentMap)
        → (get6 sub s).0 ≡ ok x
        → Has6 key x (get6 sub s).1
    unfolding add_new_ipv6_assignment
    get6-Has6 sub none s e = tt
    get6-Has6 none (some b) s e = unfold get_client_ipv6 in ground (arith, e)
    get6-Has6 (some exit_sub) (some b) s e =
        rw (get6-ok exit_sub b s (get6-found exit_sub b s e))
          (lookup-insert_self ip_key (ip_of b) key s.ipv6_assignments)

    pub get6-again :
        (sub x : Option IpNetwork) (s t : IpAssignmentMap)
        → (get6 sub s).0 ≡ ok x
        → GrowsBoth s t
        → Has6 key x t
        → (get6 sub t).0 ≡ ok x
    get6-again none x s t e grows has = unfold get_client_ipv6 in ground (arith, e)
    get6-again (some exit_sub) none s t e grows has = absurd (get6-some exit_sub s e)
    get6-again (some exit_sub) (some b) s t e grows has =
        let total = shl_u64 (sub_u8 size (prefix_of exit_sub)) in
        let same : search6 exit_sub t ≡ ok b =
          retry-same total (ipv6_attempt ipnetwork exit_sub size key s)
            (ipv6_attempt ipnetwork exit_sub size key t) b
            (λ i. attempt6-taken ipnetwork exit_sub size key s t i grows.0)
            (λ i. attempt6-given ipnetwork exit_sub size key s t i b has) (max_ip_retries + 1)
            (hash_wgkey key % total) (get6-found exit_sub b s e) in
        ap (λ r. r.0) (get6-ok exit_sub b t same)

  module _ (key netmask gateway_ip : ℕ) where
    abbrev pub search4 : IpAssignmentMap → ResultOf RitaExitError ℕ
    search4 s =
        let total = 2 ^ sub_u8 32 netmask % 2 ^ 64 in
        retry (max_ip_retries + 1) total (internal_ip_attempt ipnetwork netmask gateway_ip key s)
          (hash_wgkey key % total)

    abbrev pub get4 : IpAssignmentMap → ResultOf RitaExitError IpAddr × IpAssignmentMap
    get4 s = get_client_internal_ip ipnetwork hash_wgkey key netmask gateway_ip s

    search4-ours :
        (a : ℕ) (s : IpAssignmentMap)
        → search4 s ≡ ok a
        → is_ours key (lookup ip_key (v4 a) s.internal_ip_assignments) ≡ true
    search4-ours a s e =
        let total = 2 ^ sub_u8 32 netmask % 2 ^ 64 in
        let (k, l, found) =
          retry-attempt total (max_ip_retries + 1)
            (internal_ip_attempt ipnetwork netmask gateway_ip key s) (hash_wgkey key % total) a e in
        attempt4-ours ipnetwork netmask gateway_ip key s _ a found

    -- Nothing changes but by an address that is found.
    pub get4-cases :
        (s : IpAssignmentMap)
        → ((a : ℕ) × (search4 s ≡ ok a)
            × (get4 s ≡ (ok (v4 a), add_new_internal_ip_assignement (v4 a) key s)))
          ⊎ (((get4 s).1 ≡ s) × ((x : IpAddr) → ¬ ((get4 s).0 ≡ ok x)))
    unfolding get_client_internal_ip
    get4-cases s = elim (Bool-cases (2 ^ sub_u8 32 netmask % 2 ^ 64 == 0)) [
      | inl z ↦ inr (ground (arith, z), λ x e. ground (arith, z, e))
      | inr z ↦ elim (Bool-cases (ipnetwork.new4 netmask)) [
        | inr n ↦ inr (ground (arith, z, n), λ x e. ground (arith, z, n, e))
        | inl n ↦ elim (ResultOf-cases (search4 s)) [
          | inl (a, h) ↦ inl (a, h, ground (arith, z, n, h))
          | inr (inl (x, h)) ↦ inr (ground (arith, z, n, h), λ x e. ground (arith, z, n, h, e))
          | inr (inr h) ↦ inr (ground (arith, z, n, h), λ x e. ground (arith, z, n, h, e))
        ]
      ]
    ]

    pub get4-Grows : (s : IpAssignmentMap) → GrowsBoth s (get4 s).1
    unfolding add_new_internal_ip_assignement
    get4-Grows s = elim (get4-cases s) [
      | inl (a, h, e) ↦
          rw e
            ((λ a k h. h), is_ours-insert s.internal_ip_assignments (v4 a) key (search4-ours a s h))
      | inr (e, fails) ↦ rw e ((λ a k h. h), (λ a k h. h))
    ]

    pub get4-Has :
        (x : IpAddr) (s : IpAssignmentMap)
        → (get4 s).0 ≡ ok x
        → lookup ip_key x (get4 s).1.internal_ip_assignments ≡ some key
    unfolding add_new_internal_ip_assignement
    get4-Has x s e = elim (get4-cases s) [
      | inl (a, h, f) ↦
          let same : x ≡ v4 a = ground (arith, e, f) in
          rw (f, same) (lookup-insert_self ip_key (v4 a) key s.internal_ip_assignments)
      | inr (f, fails) ↦ absurd (fails x e)
    ]

    pub get4-ok :
        (a b : ℕ) (s t : IpAssignmentMap)
        → (get4 s).0 ≡ ok (v4 b)
        → search4 t ≡ ok a
        → (get4 t).0 ≡ ok (v4 a)
    unfolding get_client_internal_ip
    get4-ok a b s t e h = elim (Bool-cases (2 ^ sub_u8 32 netmask % 2 ^ 64 == 0)) [
      | inl z ↦ ground (arith, z, e)
      | inr z ↦ elim (Bool-cases (ipnetwork.new4 netmask)) [
        | inl n ↦ ground (arith, z, n, h)
        | inr n ↦ ground (arith, z, n, e)
      ]
    ]

    pub get4-again :
        (x : IpAddr) (s t : IpAssignmentMap)
        → (get4 s).0 ≡ ok x
        → GrowsBoth s t
        → lookup ip_key x t.internal_ip_assignments ≡ some key
        → (get4 t).0 ≡ ok x
    get4-again x s t e grows has = elim (get4-cases s) [
      | inl (a, h, f) ↦
          let same : x ≡ v4 a = ground (arith, e, f) in
          let total = 2 ^ sub_u8 32 netmask % 2 ^ 64 in
          let found : search4 t ≡ ok a =
            retry-same total (internal_ip_attempt ipnetwork netmask gateway_ip key s)
              (internal_ip_attempt ipnetwork netmask gateway_ip key t) a
              (λ i. attempt4-taken ipnetwork netmask gateway_ip key s t i grows.1)
              (λ i. attempt4-given ipnetwork netmask gateway_ip key s t i a (rw (← same) has))
              (max_ip_retries + 1) (hash_wgkey key % total) h in
          rw same (get4-ok a a s t (ap (λ r. r.0) f) found)
      | inr (f, fails) ↦ absurd (fails x e)
    ]
