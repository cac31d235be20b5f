-- ===== src/TunnelManager/Open/Distinct.antt =====
-- The ports of the tunnels across `open_tunnel` of rita_common/src/tunnel_manager/mod.rs.
use rita.Common.{
  ℕ, ◌≡◌, ◌≤◌, ◌⊎◌, refl, Bool, true, false, Option, none, some, List, [], ◌∷◌, arith, Option-cases,
  Bool-cases, inl, inr, String,
}
use rita.Outcome.{ResultOf, ok, err, panic}
use rita.Types.{IpAddr, Identity}
use rita.TunnelManager.{Tunnel, Tunnels, LocalIdentity}
use rita.TunnelManager.Ports.{TunnelError, get_next_available_port, next_port-unused}
use rita.TunnelManager.Open.{
  Peer, touch, is_match, get_in_row, get_tunnel_mut, del_tunnel, new_tunnel, add_new_tunnel_to_list,
  open_tunnel, with_flag, or_true,
}
use rita.TunnelManager.Open.Listeners.{
  one, count_row, listeners, insert_into-listeners, listeners-unused, del_tunnel-listeners,
}

module _ (p ifidx : ℕ) (ip : IpAddr) (id : Identity) (change : Tunnel → Tunnel)
    (same : (t : Tunnel) → one p (change t) ≡ one p t) where
  get_in_row-count :
      (index_id : Identity) (ts : List Tunnel) (found : Tunnel) (ts' : List Tunnel)
      → get_in_row ifidx ip id change index_id ts ≡ some (found, ts')
      → count_row p ts' ≡ count_row p ts
  unfolding get_in_row
  get_in_row-count index_id [] found ts' e = ground (arith, e)
  get_in_row-count index_id (t ∷ ts) found ts' e =
      elim (Bool-cases (is_match ifidx ip id index_id t)) [
        | inl m ↦ ground (arith, e, m, same t)
        | inr m ↦ elim (Option-cases (get_in_row ifidx ip id change index_id ts)) [
          | inl n ↦ ground (arith, e, m, n)
          | inr ((f, rest), n) ↦ ground (arith, e, m, n, get_in_row-count index_id ts f rest n)
        ]
      ]

  get_tunnel-listeners :
      (m : Tunnels) (found : Tunnel) (m' : Tunnels)
      → get_tunnel_mut ifidx ip id change m ≡ some (found, m')
      → listeners p m' ≡ listeners p m
  unfolding get_tunnel_mut listeners
  get_tunnel-listeners [] found m' e = ground (arith, e)
  get_tunnel-listeners ((index_id, ts) ∷ rows) found m' e =
      elim (Option-cases (get_in_row ifidx ip id change index_id ts)) [
        | inl n ↦ elim (Option-cases (get_tunnel_mut ifidx ip id change rows)) [
          | inl k ↦ ground (arith, e, n, k)
          | inr ((f, rest), k) ↦ ground (arith, e, n, k, get_tunnel-listeners rows f rest k)
        ]
        | inr ((f, rest), n) ↦ ground (arith, e, n, get_in_row-count index_id ts f rest n)
      ]

touch-one :
    (p now : ℕ) (nickname : Option String) (t : Tunnel) → one p (touch now nickname t) ≡ one p t
unfolding touch
touch-one p now nickname t = refl

Result-cases :
    {A : Type 0} (r : ResultOf TunnelError A)
    → ((a : A) × (r ≡ ok a)) ⊎ (((e : TunnelError) × (r ≡ err e)) ⊎ (r ≡ panic))
Result-cases (ok a) = inl (a, refl)
Result-cases (err e) = inr (inl (e, refl))
Result-cases panic = inr (inr refl)

with_flag-tunnels :
    (had : Bool) (r : ResultOf TunnelError Tunnel) (m : Tunnels) → (with_flag had (r, m)).1 ≡ m
with_flag-tunnels had (ok t) m = refl
with_flag-tunnels had (err e) m = refl
with_flag-tunnels had panic m = refl

module _ (now : ℕ) (mesh_ip : Option IpAddr) (create : IpAddr → ℕ → ℕ → LocalIdentity → Option ℕ)
    (wg_start_port : ℕ) (udp_table : Option (List ℕ)) where
  new_tunnel-listen_port :
      (ip : IpAddr) (port ifidx : ℕ) (id : LocalIdentity) (t : Tunnel)
      → new_tunnel now mesh_ip create ip port ifidx id ≡ ok t
      → t.listen_port ≡ port
  unfolding new_tunnel
  new_tunnel-listen_port ip port ifidx id t e = elim (Option-cases mesh_ip) [
    | inl m ↦ ground (arith, e, m)
    | inr (own_ip, m) ↦ elim (Option-cases (create ip port ifidx id)) [
      | inl c ↦ ground (arith, e, m, c)
      | inr (name, c) ↦ ground (arith, e, m, c)
    ]
  ]

  add_new-listeners :
      (ip : IpAddr) (ifidx : ℕ) (id : LocalIdentity) (m : Tunnels) (p : ℕ)
      → listeners p m ≤ 1
      → listeners p
          (add_new_tunnel_to_list now mesh_ip create wg_start_port udp_table ip ifidx id m).1
        ≤ 1
  unfolding add_new_tunnel_to_list
  add_new-listeners ip ifidx id m p h =
      elim (Result-cases (get_next_available_port wg_start_port udp_table m)) [
        | inl (port, e) ↦ elim (Result-cases (new_tunnel now mesh_ip create ip port ifidx id)) [
          | inl (t, n) ↦ ground (
            arith,
            h,
            e,
            n,
            insert_into-listeners p t m,
            new_tunnel-listen_port ip port ifidx id t n,
            listeners-unused p m,
            next_port-unused wg_start_port port udp_table m e,
          )
          | inr (inl (x, n)) ↦ ground (arith, h, e, n)
          | inr (inr n) ↦ ground (arith, h, e, n)
        ]
        | inr (inl (x, e)) ↦ ground (arith, h, e)
        | inr (inr e) ↦ ground (arith, h, e)
      ]

  module _ (their_localid : LocalIdentity) (peer : Peer) (m : Tunnels) where
    abbrev id : Identity
    id = their_localid.global

    abbrev ours : Option (Tunnel × Tunnels)
    ours = get_tunnel_mut peer.ifidx peer.contact_ip id (touch now id.nickname) m

    abbrev added : Tunnels → ResultOf TunnelError Tunnel × Tunnels
    added rest =
        add_new_tunnel_to_list now mesh_ip create wg_start_port udp_table peer.contact_ip peer.ifidx
          their_localid rest

    abbrev result : ResultOf TunnelError (Tunnel × Bool) × Tunnels
    result = open_tunnel now mesh_ip create wg_start_port udp_table their_localid peer m

    open_tunnel-none : ours ≡ none → result ≡ with_flag false (added m)
    unfolding open_tunnel
    open_tunnel-none e = ground (arith, e)

    open_tunnel-both :
        (found : Tunnel) (m' : Tunnels)
        → ours ≡ some (found, m')
        → or_true their_localid.have_tunnel ≡ true
        → result ≡ (ok (found, true), m')
    unfolding open_tunnel
    open_tunnel-both found m' e b = ground (arith, e, b)

    open_tunnel-again :
        (found : Tunnel) (m' : Tunnels)
        → ours ≡ some (found, m')
        → or_true their_localid.have_tunnel ≡ false
        → result ≡ with_flag true (added (del_tunnel found m'))
    unfolding open_tunnel
    open_tunnel-again found m' e b = ground (arith, e, b)

    -- Where at most one tunnel listens on a port, at most one does after `open_tunnel`, whether it
    -- keeps a tunnel, replaces one, adds one or fails.
    pub open_tunnel-listeners : (p : ℕ) → listeners p m ≤ 1 → listeners p result.1 ≤ 1
    open_tunnel-listeners p h = elim (Option-cases ours) [
      | inl e ↦
          rw (open_tunnel-none e, with_flag-tunnels false (added m).0 (added m).1)
            (add_new-listeners peer.contact_ip peer.ifidx their_localid m p h)
      | inr ((found, m'), e) ↦
          (let fits =
              get_tunnel-listeners p peer.ifidx peer.contact_ip id (touch now id.nickname)
                (touch-one p now id.nickname) m found m' e in
            let rest = del_tunnel found m' in
            elim (Bool-cases (or_true their_localid.have_tunnel)) [
              | inl b ↦ rw (open_tunnel-both found m' e b) (omega (arith, fits, h))
              | inr b ↦
                  rw
                    (
                      open_tunnel-again found m' e b,
                      with_flag-tunnels true (added rest).0 (added rest).1,
                    )
                    (add_new-listeners peer.contact_ip peer.ifidx their_localid rest p
                      (omega (arith, del_tunnel-listeners p found m', fits, h)))
            ])
    ]
