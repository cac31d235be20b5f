-- ===== src/TunnelManager/Open/Listeners.antt =====
-- How many tunnels of rita_common/src/tunnel_manager/mod.rs listen on a port.
use rita.Common.{
  ℕ, ◌+◌, ◌≡◌, ◌≤◌, refl, false, ◌||◌, List, [], ◌∷◌, ◌++◌, arith, ◌==◌, if◌then◌else◌,
  Option-cases, Bool-cases, inl, inr,
}
use rita.Common.Map.{lookup, insert}
use rita.Types.{Identity, identity_eq, identity_key}
use rita.Validator.State.{contains}
use rita.TunnelManager.{Tunnel, Tunnels, insert_into_tunnel_list, tunnels_at}
use rita.TunnelManager.Ports.{get_all_used_ports, ports_of}
use rita.TunnelManager.Open.{tunnels_to_delete, retain_others, delete_all, del_tunnel}

-- How many tunnels listen on a port.
abbrev pub one : ℕ → Tunnel → ℕ
one p t = if t.listen_port == p then 1 else 0

abbrev pub count_row : ℕ → List Tunnel → ℕ
count_row p [] = 0
count_row p (t ∷ tunnels) = one p t + count_row p tunnels

unfoldable pub listeners : ℕ → Tunnels → ℕ
listeners p [] = 0
listeners p ((id, tunnels) ∷ rows) = count_row p tunnels + listeners p rows

count_row-++ :
    (p : ℕ) (xs ys : List Tunnel) → count_row p (xs ++ ys) ≡ count_row p xs + count_row p ys
count_row-++ p [] ys = omega arith
count_row-++ p (x ∷ xs) ys = omega (arith, count_row-++ p xs ys)

insert-listeners :
    (p : ℕ) (k : Identity) (v : List Tunnel) (m : Tunnels)
    → listeners p (insert identity_key k v m) + count_row p (tunnels_at k m)
      ≡ listeners p m + count_row p v
unfolding listeners lookup insert
insert-listeners p k v [] = omega arith
insert-listeners p k v ((id, tunnels) ∷ rows) = elim (Bool-cases (identity_eq id k)) [
  | inl e ↦ ground (arith, e)
  | inr e ↦ ground (arith, e, insert-listeners p k v rows)
]

pub insert_into-listeners :
    (p : ℕ) (t : Tunnel) (m : Tunnels)
    → listeners p (insert_into_tunnel_list t m) ≡ listeners p m + one p t
unfolding insert_into_tunnel_list
insert_into-listeners p t m =
    let k = t.neigh_id.global in
    elim (Option-cases (lookup identity_key k m)) [
      | inl e ↦ ground (arith, e, insert-listeners p k (t ∷ []) m)
      | inr (v, e) ↦
          ground (arith, e, insert-listeners p k (v ++ t ∷ []) m, count_row-++ p v (t ∷ []))
    ]

contains-++ : (p : ℕ) (xs ys : List ℕ) → contains (xs ++ ys) p ≡ (contains xs p || contains ys p)
unfolding contains
contains-++ p [] ys = refl
contains-++ p (x ∷ xs) ys = ground (arith, contains-++ p xs ys)

count_row-unused :
    (p : ℕ) (ts : List Tunnel) → contains (ports_of ts) p ≡ false → count_row p ts ≡ 0
unfolding contains
count_row-unused p [] h = refl
count_row-unused p (t ∷ ts) h = ground (arith, h, count_row-unused p ts)

pub listeners-unused :
    (p : ℕ) (m : Tunnels) → contains (get_all_used_ports m) p ≡ false → listeners p m ≡ 0
unfolding listeners get_all_used_ports
listeners-unused p [] h = refl
listeners-unused p ((id, ts) ∷ rows) h = ground (
  arith,
  h,
  contains-++ p (ports_of ts) (get_all_used_ports rows),
  count_row-unused p ts,
  listeners-unused p rows,
)

retain_others-count :
    (p : ℕ) (d : Tunnel) (ts : List Tunnel) → count_row p (retain_others d ts) ≤ count_row p ts
unfolding retain_others
retain_others-count p d [] = omega arith
retain_others-count p d (t ∷ ts) = ground (arith, retain_others-count p d ts)

delete_all-count : (p : ℕ) (ds ts : List Tunnel) → count_row p (delete_all ds ts) ≤ count_row p ts
unfolding delete_all
delete_all-count p [] ts = omega arith
delete_all-count p (d ∷ ds) ts =
    omega (arith, delete_all-count p ds (retain_others d ts), retain_others-count p d ts)

pub del_tunnel-listeners :
    (p : ℕ) (target : Tunnel) (m : Tunnels) → listeners p (del_tunnel target m) ≤ listeners p m
unfolding del_tunnel listeners
del_tunnel-listeners p target [] = omega arith
del_tunnel-listeners p target ((id, ts) ∷ rows) =
    omega (
      arith,
      delete_all-count p (tunnels_to_delete target ts) ts,
      del_tunnel-listeners p target rows,
    )
