-- ===== src/TrafficWatcher/Counted.antt =====
-- rita_common/src/traffic_watcher/mod.rs: how the counters of the kernel are added up.
use rita.Common.{
  ℕ, ◌+◌, ◌%◌, ◌^◌, ◌≡◌, ◌∙◌, refl, Bool, true, false, ◌||◌, some, [], ◌∷◌, arith, if◌then◌else◌,
  Bool-cases, inl, inr,
}
use rita.Common.Map.{lookup, lookup-insert, lookup-congr}
use rita.Outcome.{ok}
use rita.Types.{IpAddr}
use rita.Usage.{add_u64}
use rita.TrafficWatcher.{
  Counters, counter_key, counter_eq, or_zero, add_counter, add_local, add_forwarded, is_link_local,
  is_multicast, get_input_counters,
}

-- The bytes that the counters have for an address and an interface, and those that are billable:
-- a packet between neighbours is not.
abbrev pub bytes_of : IpAddr × ℕ → Counters → ℕ
bytes_of k [] = 0
bytes_of k ((j, v) ∷ counters) = (if counter_eq j k then v else 0) + bytes_of k counters

abbrev pub is_billable : IpAddr → Bool
is_billable ip = if is_link_local ip || is_multicast ip then false else true

abbrev pub billable : Counters → Counters
billable [] = []
billable (((ip, interface), v) ∷ counters) =
    if is_billable ip then ((ip, interface), v) ∷ billable counters else billable counters

abbrev pub total_of : IpAddr × ℕ → Counters → ℕ
total_of k m = or_zero (lookup counter_key k m)

total_of-nil : (k : IpAddr × ℕ) → total_of k [] ≡ 0
unfolding lookup
total_of-nil k = refl

add_counter-total :
    (k j : IpAddr × ℕ) (v : ℕ) (m : Counters)
    → total_of j (add_counter k v m)
      ≡ (if counter_eq k j then (total_of j m + v) % 2 ^ 64 else total_of j m)
unfolding add_counter add_u64
add_counter-total k j v m = ground (
  arith,
  lookup-insert counter_key k j ((total_of k m + v) % 2 ^ 64) m,
  lookup-congr counter_key k j m,
)

step_total :
    (k j : IpAddr × ℕ) (v rest : ℕ) (m : Counters)
    → (total_of j (add_counter k v m) + rest) % 2 ^ 64
      ≡ (total_of j m + ((if counter_eq k j then v else 0) + rest)) % 2 ^ 64
step_total k j v rest m = rw (add_counter-total k j v m) (elim (Bool-cases (counter_eq k j)) [
  | inl same ↦ rw same (omega arith)
  | inr other ↦ rw other (omega arith)
])

add_forwarded-total :
    (j : IpAddr × ℕ) (counters m : Counters)
    → total_of j (add_forwarded counters m) % 2 ^ 64 ≡ (total_of j m + bytes_of j counters) % 2 ^ 64
unfolding add_forwarded
add_forwarded-total j [] m = omega arith
add_forwarded-total j ((k, v) ∷ counters) m =
    add_forwarded-total j counters (add_counter k v m) ∙ step_total k j v (bytes_of j counters) m

add_local-total :
    (j : IpAddr × ℕ) (counters m : Counters)
    → total_of j (add_local counters m) % 2 ^ 64
      ≡ (total_of j m + bytes_of j (billable counters)) % 2 ^ 64
unfolding add_local
add_local-total j [] m = omega arith
add_local-total j (((ip, interface), v) ∷ counters) m =
    elim (Bool-cases (is_link_local ip || is_multicast ip)) [
      | inl h ↦ rw h (add_local-total j counters m)
      | inr h ↦ rw h (
          add_local-total j counters (add_counter (ip, interface) v m)
          ∙ step_total (ip, interface) j v (bytes_of j (billable counters)) m)
    ]

-- For each address and interface the input counters are the sum, modulo 2 ^ 64, of those of the
-- forwarded packets and those of the others, without the link-local and the multicast ones.
pub get_input_counters_total :
    (input forwarded total : Counters) (k : IpAddr × ℕ)
    → get_input_counters (some input) (some forwarded) ≡ ok total
    → total_of k total % 2 ^ 64 ≡ (bytes_of k (billable input) + bytes_of k forwarded) % 2 ^ 64
unfolding get_input_counters
get_input_counters_total input forwarded total k e =
    let whole : total ≡ add_forwarded forwarded (add_local input []) = ground (arith, e) in
    rw whole (
      omega (
        arith,
        add_forwarded-total k forwarded (add_local input []),
        add_local-total k input [],
        total_of-nil k,
      ))
