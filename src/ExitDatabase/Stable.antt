-- ===== src/ExitDatabase/Stable.antt =====
-- rita_exit/src/database/in_memory_database.rs: a client keeps its addresses, and two clients do
-- not share one.
use rita.Common.{◌≡◌, ◌≢◌, Option, none, some, arith, List, [], ◌∷◌, ℕ, ap, sym, ◌∙◌, ◌⊎◌, inl, inr}
use mathlib.Core.Option.{some-injective}
use rita.Common.Map.{lookup}
use rita.Outcome.{ResultOf-cases, ResultOf, ok}
use rita.Types.{IpAddr, Identity, ip_key, IpNetwork}
use rita.ExitDatabase.{
  RitaExitError, IpAssignmentMap, IpNetworkCrate, ip_of, ExitNetworkSettings, ExitClient,
  to_exit_client, or_default, client_wg_port,
}
use rita.ExitDatabase.Request.{
  GrowsBoth, Has6, get6, get6-Grows, get6-Has6, get6-again, get4, get4-Grows, get4-Has, get4-again,
}

module _ (ipnetwork : IpNetworkCrate) (hash_wgkey : ℕ → ℕ) (settings : ExitNetworkSettings) where
  first : Identity → IpAssignmentMap → ResultOf RitaExitError (Option IpNetwork) × IpAssignmentMap
  first c =
      get6 ipnetwork hash_wgkey c.wg_public_key (or_default settings.client_subnet_size)
        settings.subnet

  second : Identity → IpAssignmentMap → ResultOf RitaExitError IpAddr × IpAssignmentMap
  second c = get4 ipnetwork hash_wgkey c.wg_public_key settings.netmask settings.own_internal_ip

  client_of : Identity → Option IpNetwork → IpAddr → ExitClient
  client_of c subnet ip = record {
    mesh_ip = c.mesh_ip;
    internal_ip = ip;
    port = client_wg_port;
    public_key = c.wg_public_key;
    internet_ipv6 = subnet;
  }

  to_exit_client-ok :
      (c : Identity) (s : IpAssignmentMap) (x : ExitClient)
      → (to_exit_client ipnetwork hash_wgkey settings c s).0 ≡ ok x
      → ((first c s).0 ≡ ok x.internet_ipv6)
        × ((second c (first c s).1).0 ≡ ok x.internal_ip)
        × (x ≡ client_of c x.internet_ipv6 x.internal_ip)
        × ((to_exit_client ipnetwork hash_wgkey settings c s).1 ≡ (second c (first c s).1).1)
  unfolding to_exit_client first second client_of
  to_exit_client-ok c s x e = ground (arith, e)

  to_exit_client-of :
      (c : Identity) (s : IpAssignmentMap) (subnet : Option IpNetwork) (ip : IpAddr)
      → (first c s).0 ≡ ok subnet
      → (second c (first c s).1).0 ≡ ok ip
      → (to_exit_client ipnetwork hash_wgkey settings c s).0 ≡ ok (client_of c subnet ip)
  unfolding to_exit_client first second client_of
  to_exit_client-of c s subnet ip e f = ground (arith, e, f)

  to_exit_client-state :
      (c : Identity) (s : IpAssignmentMap)
      → ((to_exit_client ipnetwork hash_wgkey settings c s).1 ≡ (second c (first c s).1).1)
        ⊎ ((to_exit_client ipnetwork hash_wgkey settings c s).1 ≡ (first c s).1)
  unfolding to_exit_client first second
  to_exit_client-state c s = elim (ResultOf-cases (first c s).0) [
    | inl (a, h) ↦ elim (ResultOf-cases (second c (first c s).1).0) [
      | inl (b, k) ↦ inl (ground (arith, h, k))
      | inr (inl (b, k)) ↦ inl (ground (arith, h, k))
      | inr (inr k) ↦ inl (ground (arith, h, k))
    ]
    | inr (inl (a, h)) ↦ inr (ground (arith, h))
    | inr (inr h) ↦ inr (ground (arith, h))
  ]

  GrowsBoth-trans : (s t u : IpAssignmentMap) → GrowsBoth s t → GrowsBoth t u → GrowsBoth s u
  GrowsBoth-trans s t u (g, h) (g', h') = ((λ a k e. g' a k (g a k e)), (λ a k e. h' a k (h a k e)))

  first-Grows : (c : Identity) (s : IpAssignmentMap) → GrowsBoth s (first c s).1
  unfolding first
  first-Grows c s =
      get6-Grows ipnetwork hash_wgkey c.wg_public_key (or_default settings.client_subnet_size)
        settings.subnet s

  second-Grows : (c : Identity) (s : IpAssignmentMap) → GrowsBoth s (second c s).1
  unfolding second
  second-Grows c s =
      get4-Grows ipnetwork hash_wgkey c.wg_public_key settings.netmask settings.own_internal_ip s

  to_exit_client-Grows :
      (c : Identity) (s : IpAssignmentMap)
      → GrowsBoth s (to_exit_client ipnetwork hash_wgkey settings c s).1
  to_exit_client-Grows c s = elim (to_exit_client-state c s) [
    | inl e ↦ rw e (
        GrowsBoth-trans s (first c s).1 (second c (first c s).1).1 (first-Grows c s)
          (second-Grows c (first c s).1))
    | inr e ↦ rw e (first-Grows c s)
  ]

  -- The state after a client has been asked for each of the identities.
  abbrev pub serve : List Identity → IpAssignmentMap → IpAssignmentMap
  serve [] s = s
  serve (c ∷ cs) s = serve cs (to_exit_client ipnetwork hash_wgkey settings c s).1

  serve-Grows : (cs : List Identity) (s : IpAssignmentMap) → GrowsBoth s (serve cs s)
  serve-Grows [] s = ((λ a k e. e), (λ a k e. e))
  serve-Grows (c ∷ cs) s =
      let s' = (to_exit_client ipnetwork hash_wgkey settings c s).1 in
      GrowsBoth-trans s s' (serve cs s') (to_exit_client-Grows c s) (serve-Grows cs s')

  Has6-Grows :
      (key : ℕ) (x : Option IpNetwork) (s t : IpAssignmentMap)
      → GrowsBoth s t
      → Has6 key x s
      → Has6 key x t
  Has6-Grows key none s t grows h = tt
  Has6-Grows key (some a) s t grows h = grows.0 (ip_of a) key h

  -- What a client is given is recorded for it, then and later.
  Holds : Identity → ExitClient → IpAssignmentMap → Type 0
  Holds c x t =
      Has6 c.wg_public_key x.internet_ipv6 t
      × (lookup ip_key x.internal_ip t.internal_ip_assignments ≡ some c.wg_public_key)

  module _ (c : Identity) (s : IpAssignmentMap) (x : ExitClient)
      (given : (to_exit_client ipnetwork hash_wgkey settings c s).0 ≡ ok x) where
    given-Holds : Holds c x (to_exit_client ipnetwork hash_wgkey settings c s).1
    unfolding Holds first second
    given-Holds =
        let (e, f, same, after) = to_exit_client-ok c s x given in
        let s1 = (first c s).1 in
        rw after (
          Has6-Grows c.wg_public_key x.internet_ipv6 s1 (second c s1).1 (second-Grows c s1) (
              get6-Has6 ipnetwork hash_wgkey c.wg_public_key
                (or_default settings.client_subnet_size) settings.subnet x.internet_ipv6 s e),
          get4-Has ipnetwork hash_wgkey c.wg_public_key settings.netmask settings.own_internal_ip
              x.internal_ip s1 f,
        )

    serve-Holds :
        (cs : List Identity)
        → Holds c x (serve cs (to_exit_client ipnetwork hash_wgkey settings c s).1)
    unfolding Holds
    serve-Holds cs =
        let s' = (to_exit_client ipnetwork hash_wgkey settings c s).1 in
        let grows = serve-Grows cs s' in
        (
          Has6-Grows c.wg_public_key x.internet_ipv6 s' (serve cs s') grows given-Holds.0,
          grows.1 x.internal_ip c.wg_public_key given-Holds.1,
        )

    -- A client that has been given addresses is given the same ones again, whichever clients have
    -- been asked for in between.
    pub to_exit_client-again :
        (cs : List Identity)
        → (to_exit_client ipnetwork hash_wgkey settings c
            (serve cs (to_exit_client ipnetwork hash_wgkey settings c s).1)).0
          ≡ ok x
    unfolding Holds first second
    to_exit_client-again cs =
        let (e, f, same, after) = to_exit_client-ok c s x given in
        let s1 = (first c s).1 in
        let s' = (to_exit_client ipnetwork hash_wgkey settings c s).1 in
        let t = serve cs s' in
        let holds = serve-Holds cs in
        let later = serve-Grows cs s' in
        let from1 : GrowsBoth s1 t = GrowsBoth-trans s1 s' t (rw after (second-Grows c s1)) later in
        let again6 : (first c t).0 ≡ ok x.internet_ipv6 =
          get6-again ipnetwork hash_wgkey c.wg_public_key (or_default settings.client_subnet_size)
            settings.subnet x.internet_ipv6 s t e (GrowsBoth-trans s s1 t (first-Grows c s) from1)
            holds.0 in
        let again4 : (second c (first c t).1).0 ≡ ok x.internal_ip =
          get4-again ipnetwork hash_wgkey c.wg_public_key settings.netmask settings.own_internal_ip
            x.internal_ip s1 (first c t).1 f
            (GrowsBoth-trans s1 t (first c t).1 from1 (first-Grows c t))
            ((first-Grows c t).1 x.internal_ip c.wg_public_key holds.1) in
        rw same (to_exit_client-of c t x.internet_ipv6 x.internal_ip again6 again4)

  Holds-Grows :
      (c : Identity) (x : ExitClient) (s t : IpAssignmentMap)
      → GrowsBoth s t
      → Holds c x s
      → Holds c x t
  unfolding Holds
  Holds-Grows c x s t grows (h, k) = (
    Has6-Grows c.wg_public_key x.internet_ipv6 s t grows h,
    grows.1 x.internal_ip c.wg_public_key k,
  )

  Has6-apart :
      (k j : ℕ) (x y : Option IpNetwork) (a b : IpNetwork) (t : IpAssignmentMap)
      → k ≢ j
      → Has6 k x t
      → Has6 j y t
      → x ≡ some a
      → y ≡ some b
      → ip_of a ≢ ip_of b
  Has6-apart k j none y a b t apart h g e f same = ground (arith, e)
  Has6-apart k j (some x) none a b t apart h g e f same = ground (arith, f)
  Has6-apart k j (some x) (some y) a b t apart h g e f same =
      let one : x ≡ a = ground (arith, e) in
      let other : y ≡ b = ground (arith, f) in
      apart (
        some-injective _ _ (
          sym h
          ∙ ap (λ z. lookup ip_key z t.ipv6_assignments)
              (ap ip_of one ∙ same ∙ sym (ap ip_of other))
          ∙ g))

  -- Two clients with different keys are given different internal addresses, and subnets that start
  -- at different addresses, whichever clients have been asked for in between.
  pub to_exit_client-apart :
      (c d : Identity) (s : IpAssignmentMap) (x y : ExitClient) (cs : List Identity)
      → c.wg_public_key ≢ d.wg_public_key
      → (to_exit_client ipnetwork hash_wgkey settings c s).0 ≡ ok x
      → (to_exit_client ipnetwork hash_wgkey settings d
          (serve cs (to_exit_client ipnetwork hash_wgkey settings c s).1)).0
        ≡ ok y
      → (x.internal_ip ≢ y.internal_ip)
        × ((a b : IpNetwork)
            → x.internet_ipv6 ≡ some a
            → y.internet_ipv6 ≡ some b
            → ip_of a ≢ ip_of b)
  unfolding Holds
  to_exit_client-apart c d s x y cs apart e f =
      let t = serve cs (to_exit_client ipnetwork hash_wgkey settings c s).1 in
      let u = (to_exit_client ipnetwork hash_wgkey settings d t).1 in
      let ours = Holds-Grows c x t u (to_exit_client-Grows d t) (serve-Holds c s x e cs) in
      let theirs = given-Holds d t y f in
      (
        (λ same. apart (
            some-injective _ _
              (sym ours.1 ∙ ap (λ z. lookup ip_key z u.internal_ip_assignments) same ∙ theirs.1))),
        (λ a b.
            Has6-apart c.wg_public_key d.wg_public_key x.internet_ipv6 y.internet_ipv6 a b u apart
              ours.0 theirs.0),
      )
