-- ===== src/Types.antt =====
-- althea_types/src/interop.rs: how nodes are identified, denominations, chains and payments.
-- An address, a WireGuard key and a mesh address are only compared by this code, so each is a
-- number; a nickname is a text.
use rita.Common.{ℕ, String, ◌≡◌, refl, Bool, true, false, ◌&&◌, Option, arith, ◌==◌}
use rita.Common.Map.{Key}

pub data IpAddr : Type 0 where
  v4 v6 : ℕ → IpAddr

-- The networks of the ipnetwork crate.
pub data IpNetwork : Type 0 where
  v4_network v6_network : (addr prefix : ℕ) → IpNetwork

unfoldable pub ip_eq : IpAddr → IpAddr → Bool
ip_eq (v4 a) (v4 b) = a == b
ip_eq (v4 a) (v6 b) = false
ip_eq (v6 a) (v4 b) = false
ip_eq (v6 a) (v6 b) = a == b

pub record Identity : Type 0 where
  pub mesh_ip : IpAddr
  pub eth_address : ℕ
  pub wg_public_key : ℕ
  pub nickname : Option String

-- Comparison ignores the nickname.
unfoldable pub identity_eq : Identity → Identity → Bool
unfolding ip_eq
identity_eq a b =
    ip_eq a.mesh_ip b.mesh_ip
    && a.eth_address == b.eth_address
    && a.wg_public_key == b.wg_public_key

pub ip_eq_refl : (a : IpAddr) → ip_eq a a ≡ true
unfolding ip_eq
ip_eq_refl (v4 a) = ground arith
ip_eq_refl (v6 a) = ground arith

pub ip_eq_comm : (a b : IpAddr) → ip_eq a b ≡ ip_eq b a
unfolding ip_eq
ip_eq_comm (v4 a) (v4 b) = ground arith
ip_eq_comm (v4 a) (v6 b) = refl
ip_eq_comm (v6 a) (v4 b) = refl
ip_eq_comm (v6 a) (v6 b) = ground arith

pub ip_eq→≡ : (a b : IpAddr) → ip_eq a b ≡ true → a ≡ b
unfolding ip_eq
ip_eq→≡ (v4 a) (v4 b) h = ground arith
ip_eq→≡ (v4 a) (v6 b) h = ground arith
ip_eq→≡ (v6 a) (v4 b) h = ground arith
ip_eq→≡ (v6 a) (v6 b) h = ground arith

pub identity_eq_refl : (a : Identity) → identity_eq a a ≡ true
unfolding identity_eq
identity_eq_refl a = ground (arith, ip_eq_refl a.mesh_ip)

pub identity_eq_comm : (a b : Identity) → identity_eq a b ≡ identity_eq b a
unfolding identity_eq
identity_eq_comm a b = ground (arith, ip_eq_comm a.mesh_ip b.mesh_ip)

pub identity_eq_congr :
    (a b c : Identity) → identity_eq a b ≡ true → identity_eq a c ≡ identity_eq b c
unfolding identity_eq
identity_eq_congr a b c h = ground (arith, ip_eq→≡ a.mesh_ip b.mesh_ip)

-- The key under which nodes are stored in a HashMap.
abbrev pub identity_key : Key Identity
identity_key = record {
  eqb = identity_eq;
  eqb_refl = identity_eq_refl;
  eqb_congr = identity_eq_congr;
  eqb_comm = identity_eq_comm;
}

pub ip_eq_congr : (a b c : IpAddr) → ip_eq a b ≡ true → ip_eq a c ≡ ip_eq b c
ip_eq_congr a b c h = ground (arith, ip_eq→≡ a b h)

abbrev pub ip_key : Key IpAddr
ip_key = record {
  eqb = ip_eq;
  eqb_refl = ip_eq_refl;
  eqb_congr = ip_eq_congr;
  eqb_comm = ip_eq_comm;
}

-- `decimal` units of `denom` are one unit of the token.
pub record Denom : Type 0 where
  pub denom : String
  pub decimal : ℕ

pub data SystemChain : Type 0 where
  ethereum sepolia xdai althea_l1 : SystemChain

abbrev pub is_xdai : SystemChain → Bool
is_xdai xdai = true
is_xdai _ = false

abbrev pub is_althea_l1 : SystemChain → Bool
is_althea_l1 althea_l1 = true
is_althea_l1 _ = false

pub record PaymentTx : Type 0 where
  pub to : Identity
  pub from : Identity
  pub amount : ℕ
  pub txid : ℕ

pub record UnpublishedPaymentTx : Type 0 where
  pub to : Identity
  pub from : Identity
  pub amount : ℕ

unfoldable pub publish : UnpublishedPaymentTx → ℕ → PaymentTx
publish p txid = record { to = p.to; from = p.from; amount = p.amount; txid = txid }
