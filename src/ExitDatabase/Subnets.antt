-- ===== src/ExitDatabase/Subnets.antt =====
-- rita_exit/src/database/in_memory_database.rs: `generate_iterative_client_subnet`.
use rita.Common.{
  ℕ, zero, suc, ◌+◌, ◌-◌, ◌*◌, ◌%◌, ◌^◌, ◌≤◌, ◌<◌, ◌≡◌, ◌∙◌, ap, sym, subst, true, arith,
}
use rita.Outcome.{ok}
use rita.Types.{IpNetwork, v6_network}
use rita.ExitDatabase.{IpNetworkCrate, generate_iterative_client_subnet, shl_u64}

pow_suc : (a : ℕ) → 2 ^ suc a ≡ 2 * 2 ^ a
pow_suc a = omega arith

pow_pos : (a : ℕ) → 0 < 2 ^ a
pow_pos zero = omega arith
pow_pos (suc a) = omega (arith, pow_suc a, pow_pos a)

suc_shift : (a b : ℕ) → 2 ^ (suc a + b) ≡ 2 * 2 ^ (a + b)
suc_shift a b = ap (λ n. 2 ^ n) (omega arith) ∙ pow_suc (a + b)

double_mul : (x y : ℕ) → 2 * (x * y) ≡ (2 * x) * y
double_mul x y = grind arith

pow_add : (a b : ℕ) → 2 ^ (a + b) ≡ 2 ^ a * 2 ^ b
pow_add zero b = let same : 0 + b ≡ b = omega arith in rw same (omega arith)
pow_add (suc a) b =
    suc_shift a b
    ∙ ap (λ n. 2 * n) (pow_add a b)
    ∙ double_mul (2 ^ a) (2 ^ b)
    ∙ ap (λ n. n * 2 ^ b) (sym (pow_suc a))

pow_le_add : (k a : ℕ) → 2 ^ a ≤ 2 ^ (k + a)
pow_le_add zero a = let same : 0 + a ≡ a = omega arith in rw same (omega arith)
pow_le_add (suc k) a = omega (arith, pow_le_add k a, suc_shift k a)

pub pow_le : (a b : ℕ) → a ≤ b → 2 ^ a ≤ 2 ^ b
pow_le a b h = subst (λ n. 2 ^ a ≤ 2 ^ n) (omega arith) (pow_le_add (b - a) a)

mul_le : (a b c : ℕ) → a ≤ b → a * c ≤ b * c
mul_le a b c h = grind arith

module _ (ipnetwork : IpNetworkCrate) where
  open ipnetwork use {new6, network6, size6, size6_lem, new6_le, network6_bound}

  -- The index is below the number of subnets, and so each fits.
  fits :
      (prefix subprefix ind : ℕ)
      → prefix ≤ subprefix
      → subprefix ≤ 128
      → ind < shl_u64 (subprefix - prefix)
      → ind * 2 ^ (128 - subprefix) + 2 ^ (128 - subprefix) ≤ 2 ^ (128 - prefix)
  fits prefix subprefix ind l k h =
      let d = subprefix - prefix in
      let few : 2 ^ (d % 64) ≤ 2 ^ d = pow_le (d % 64) d (omega arith) in
      let whole : 128 - prefix ≡ d + (128 - subprefix) = omega arith in
      let below : ind + 1 ≤ 2 ^ d = omega arith in
      let room = mul_le (ind + 1) (2 ^ d) (2 ^ (128 - subprefix)) below in
      let total : 2 ^ (128 - prefix) ≡ 2 ^ d * 2 ^ (128 - subprefix) =
        ap (λ n. 2 ^ n) whole ∙ pow_add d (128 - subprefix) in
      let split : (ind + 1) * 2 ^ (128 - subprefix)
          ≡ ind * 2 ^ (128 - subprefix) + 2 ^ (128 - subprefix) =
        grind arith in
      omega (arith, room, total, split)

  generated :
      (addr prefix ind subprefix : ℕ) (net : IpNetwork)
      → generate_iterative_client_subnet ipnetwork (v6_network addr prefix) ind subprefix ≡ ok net
      → (new6 subprefix ≡ true)
        × (prefix ≤ subprefix)
        × (ind < shl_u64 (subprefix - prefix))
        × (net ≡ v6_network ((network6 addr prefix + ind * size6 subprefix) % 2 ^ 128) subprefix)
  unfolding generate_iterative_client_subnet
  generated addr prefix ind subprefix net e = ground (arith, e)

  subnet_at :
      (addr prefix ind subprefix : ℕ) (net : IpNetwork)
      → 0 < prefix
      → generate_iterative_client_subnet ipnetwork (v6_network addr prefix) ind subprefix ≡ ok net
      → (net ≡ v6_network (network6 addr prefix + ind * 2 ^ (128 - subprefix)) subprefix)
        × (ind * 2 ^ (128 - subprefix) + 2 ^ (128 - subprefix) ≤ 2 ^ (128 - prefix))
  subnet_at addr prefix ind subprefix net positive e =
      let (valid, l, h, same) = generated addr prefix ind subprefix net e in
      let k = new6_le subprefix valid in
      let room = fits prefix subprefix ind l k h in
      let size = size6_lem subprefix (omega arith) k in
      let whole = network6_bound addr prefix (omega arith) in
      let filled = pow_pos (128 - subprefix) in
      let small : (network6 addr prefix + ind * 2 ^ (128 - subprefix)) % 2 ^ 128
          ≡ network6 addr prefix + ind * 2 ^ (128 - subprefix) =
        omega (arith, room, whole, filled) in
      (
        same
            ∙ ap (λ s. v6_network ((network6 addr prefix + ind * s) % 2 ^ 128) subprefix) size
            ∙ ap (λ a. v6_network a subprefix) small,
        room,
      )

  -- The subnets of two indices lie within the subnet of the exit, whose prefix is not 0, and the
  -- one of the smaller index ends before the other starts.
  pub subnets_disjoint :
      (addr prefix i j subprefix : ℕ) (x y : IpNetwork)
      → 0 < prefix
      → i < j
      → generate_iterative_client_subnet ipnetwork (v6_network addr prefix) i subprefix ≡ ok x
      → generate_iterative_client_subnet ipnetwork (v6_network addr prefix) j subprefix ≡ ok y
      → (a : ℕ) × (b : ℕ) × (x ≡ v6_network a subprefix)
        × (y ≡ v6_network b subprefix)
        × (network6 addr prefix ≤ a)
        × (a + 2 ^ (128 - subprefix) ≤ b)
        × (b + 2 ^ (128 - subprefix) ≤ network6 addr prefix + 2 ^ (128 - prefix))
  subnets_disjoint addr prefix i j subprefix x y positive l e f =
      let (at_i, room_i) = subnet_at addr prefix i subprefix x positive e in
      let (at_j, room_j) = subnet_at addr prefix j subprefix y positive f in
      let s = 2 ^ (128 - subprefix) in
      let gap = mul_le (i + 1) j s (omega arith) in
      let split : (i + 1) * s ≡ i * s + s = grind arith in
      (
        network6 addr prefix + i * s,
        network6 addr prefix + j * s,
        at_i,
        at_j,
        omega arith,
        omega (arith, gap, split),
        omega (arith, room_j),
      )
