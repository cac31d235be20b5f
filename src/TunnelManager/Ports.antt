-- ===== src/TunnelManager/Ports.antt =====
-- The ports of rita_common/src/tunnel_manager/mod.rs. The ports that the kernel has in use are a
-- parameter, missing where it cannot tell.
use rita.Common.{
  ℕ, zero, suc, ◌+◌, ◌-◌, ◌≡◌, ◌≤◌, ◌<◌, ◌∙◌, ◌↔◌, ap, subst, Bool, true, false, ◌||◌, Option, none,
  some, String, List, [], ◌∷◌, ◌++◌, arith, if◌then◌else◌, Bool-cases, Option-cases, inl, inr, ◌==◌,
}
use rita.Outcome.{ResultOf, ok, err}
use rita.Validator.State.{contains}
use rita.TunnelManager.{Tunnel, Tunnels}

pub data TunnelError : Type 0 where
  kernel_interface_error no_free_ports_error : TunnelError
  misc_string_error : String → TunnelError

abbrev pub ports_of : List Tunnel → List ℕ
ports_of [] = []
ports_of (t ∷ tunnels) = t.listen_port ∷ ports_of tunnels

unfoldable pub get_all_used_ports : Tunnels → List ℕ
get_all_used_ports [] = []
get_all_used_ports ((id, tunnels) ∷ rows) = ports_of tunnels ++ get_all_used_ports rows

abbrev pub last_port : ℕ
last_port = 65_535

-- The loop over so many ports.
unfoldable pub first_free : (ports : ℕ) (port : ℕ) (udp_table used_ports : List ℕ) → Option ℕ
first_free zero port udp_table used_ports = none
first_free (suc n) port udp_table used_ports =
    let rest = first_free n (port + 1) udp_table used_ports in
    if contains udp_table port || contains used_ports port then rest else some port

unfoldable pub get_next_available_port : ℕ → Option (List ℕ) → Tunnels → ResultOf TunnelError ℕ
unfolding first_free get_all_used_ports
get_next_available_port start none tunnels = err kernel_interface_error
get_next_available_port start (some udp_table) tunnels =
    elim (first_free (last_port - start) start udp_table (get_all_used_ports tunnels)) [
      | none ↦ err no_free_ports_error
      | some port ↦ ok port
    ]

first_free_lem :
    (n port q : ℕ) (udp used : List ℕ)
    → first_free n port udp used ≡ some q
    → (port ≤ q) × ((q < port + n) × ((contains udp q ≡ false) × (contains used q ≡ false)))
unfolding first_free
first_free_lem zero port q udp used e = ground (arith, e)
first_free_lem (suc n) port q udp used e =
    elim (Bool-cases (contains udp port || contains used port)) [
      | inl h ↦ ground (arith, e, h, first_free_lem n (port + 1) q udp used)
      | inr h ↦ ground (arith, e, h)
    ]

first_free-least :
    (n port q r : ℕ) (udp used : List ℕ)
    → first_free n port udp used ≡ some q
    → port ≤ r
    → r < q
    → (contains udp r || contains used r) ≡ true
unfolding first_free
first_free-least zero port q r udp used e l k = ground (arith, e)
first_free-least (suc n) port q r udp used e l k =
    elim (Bool-cases (contains udp port || contains used port)) [
      | inl h ↦ elim (Bool-cases (r == port)) [
        | inl s ↦
            (let same : port ≡ r = ground arith in
              subst (λ x. (contains udp x || contains used x) ≡ true) same h)
        | inr s ↦ first_free-least n (port + 1) q r udp used (ground (arith, e, h)) (ground arith) k
      ]
      | inr h ↦ ground (arith, e, h)
    ]

-- Used by the kernel or by a tunnel.
abbrev pub is_used : List ℕ → Tunnels → ℕ → Bool
is_used udp tunnels port = contains udp port || contains (get_all_used_ports tunnels) port

first_free-finds :
    (n port q : ℕ) (udp used : List ℕ)
    → port ≤ q
    → q < port + n
    → (contains udp q || contains used q) ≡ false
    → ((r : ℕ) → port ≤ r → r < q → (contains udp r || contains used r) ≡ true)
    → first_free n port udp used ≡ some q
unfolding first_free
first_free-finds zero port q udp used l k free before = absurd (omega (arith, l, k))
first_free-finds (suc n) port q udp used l k free before = elim (Bool-cases (port == q)) [
  | inl s ↦
      (let same : q ≡ port = ground (arith, s) in
        let here = subst (λ x. (contains udp x || contains used x) ≡ false) same free in
        ground (arith, here, same))
  | inr s ↦
      (let less : port < q = ground (arith, s) in
        let taken = before port (omega arith) less in
        ground (
          arith,
          taken,
          first_free-finds n (port + 1) q udp used (omega arith) (omega arith) free
              (λ r low. before r (omega (arith, low))),
        ))
]

-- The first port from the start on that is below 65535 and not used.
abbrev pub IsFirstFree : ℕ → List ℕ → Tunnels → ℕ → Type 0
IsFirstFree start udp tunnels q =
    (start ≤ q)
    × (q < last_port)
    × (is_used udp tunnels q ≡ false)
    × ((r : ℕ) → start ≤ r → r < q → is_used udp tunnels r ≡ true)

-- Where the kernel tells its ports, `get_next_available_port` finds a port exactly when it is at
-- least the start port and below 65535, is used neither by the kernel nor by a tunnel, and every
-- port from the start to it is used by one of them.
pub next_port-free :
    (start q : ℕ) (udp : List ℕ) (tunnels : Tunnels)
    → (get_next_available_port start (some udp) tunnels ≡ ok q) ↔ IsFirstFree start udp tunnels q
unfolding get_next_available_port
next_port-free start q udp tunnels =
    let ports = last_port - start in
    let used = get_all_used_ports tunnels in
    (
      (λ e. elim (Option-cases (first_free ports start udp used)) [
        | inl f ↦ ground (arith, e, f)
        | inr (p, f) ↦
            (let s : p ≡ q = ground (arith, e, f) in
              let at : first_free ports start udp used ≡ some q = f ∙ ap some s in
              let found = first_free_lem ports start q udp used at in
              (
                found.0,
                omega (arith, found),
                ground (arith, found),
                λ r l k. first_free-least ports start q r udp used at l k,
              ))
      ]),
      (λ (low, high, free, before).
          ground (arith, first_free-finds ports start q udp used low (omega arith) free before)),
    )

pub next_port-unused :
    (start q : ℕ) (udp_table : Option (List ℕ)) (tunnels : Tunnels)
    → get_next_available_port start udp_table tunnels ≡ ok q
    → contains (get_all_used_ports tunnels) q ≡ false
unfolding get_next_available_port
next_port-unused start q none tunnels e = ground (arith, e)
next_port-unused start q (some udp) tunnels e =
    let ports = last_port - start in
    let used = get_all_used_ports tunnels in
    elim (Option-cases (first_free ports start udp used)) [
      | inl f ↦ ground (arith, e, f)
      | inr (p, f) ↦
          (let s : p ≡ q = ground (arith, e, f) in
            subst (λ x. contains used x ≡ false) s
              (ground (arith, first_free_lem ports start p udp used f)))
    ]
