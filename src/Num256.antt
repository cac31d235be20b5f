-- ===== src/Num256.antt =====
-- The 256 bit integers of the num256 crate, which this repository only calls. Its operations are
-- parameters; a value is the number that it stands for. `none` is a panic or, for the conversions
-- and `checked_mul`, the crate's own None. The laws state what the crate documents: a result that
-- fits is exact, the conversions fail exactly on what does not fit, and a division by zero panics.
-- Nothing is assumed of a sum, a difference or a product that does not fit.
use rita.Common.{ℕ, ◌+◌, ◌-◌, ◌*◌, ◌/◌, ◌^◌, ◌≤◌, ◌<◌, ◌≡◌, Option, none, some, arith}
pub mod Checked
use rita.Common.Int.{ℤ, pos, negsuc, pos_part, neg_part, magnitude, ◌+ℤ◌, ◌-ℤ◌, ◌*ℤ◌}

unfoldable pub uint256_limit : ℕ
uint256_limit = 2 ^ 256

unfoldable pub int256_limit : ℕ
int256_limit = 2 ^ 255

pub uint256-eq-double : uint256_limit ≡ int256_limit + int256_limit
unfolding uint256_limit int256_limit
uint256-eq-double = omega arith

pub int256_large : 1000 < int256_limit
unfolding int256_limit
int256_large = omega arith

-- An integer that an Int256 holds.
abbrev pub FitsInt256 : ℤ → Type 0
FitsInt256 z = (pos_part z < int256_limit) × (neg_part z ≤ int256_limit)

pub record Num256 : Type 0 where
  pub uadd : ℕ → ℕ → Option ℕ
  pub usub : ℕ → ℕ → Option ℕ
  pub udiv : ℕ → ℕ → Option ℕ
  pub checked_mul : ℕ → ℕ → Option ℕ
  pub iadd : ℤ → ℤ → Option ℤ
  pub isub : ℤ → ℤ → Option ℤ
  pub imul : ℤ → ℤ → Option ℤ
  pub iabs : ℤ → Option ℤ
  pub to_int256 : ℕ → Option ℤ
  pub to_uint256 : ℤ → Option ℕ
  pub uadd_fits : (a b : ℕ) → a + b < uint256_limit → uadd a b ≡ some (a + b)
  pub usub_fits : (a b : ℕ) → a < uint256_limit → b ≤ a → usub a b ≡ some (a - b)
  pub udiv_pos : (a b : ℕ) → 0 < b → udiv a b ≡ some (a / b)
  pub udiv_zero : (a : ℕ) → udiv a 0 ≡ none
  pub mul_fits : (a b : ℕ) → a * b < uint256_limit → checked_mul a b ≡ some (a * b)
  pub mul_exceeds : (a b : ℕ) → uint256_limit ≤ a * b → checked_mul a b ≡ none
  pub iadd_fits : (a b : ℤ) → FitsInt256 (a +ℤ b) → iadd a b ≡ some (a +ℤ b)
  pub isub_fits : (a b : ℤ) → FitsInt256 (a -ℤ b) → isub a b ≡ some (a -ℤ b)
  pub imul_fits : (a b : ℤ) → FitsInt256 (a *ℤ b) → imul a b ≡ some (a *ℤ b)
  pub iabs_fits : (a : ℤ) → magnitude a < int256_limit → iabs a ≡ some (pos (magnitude a))
  pub to_int256_fits : (n : ℕ) → n < int256_limit → to_int256 n ≡ some (pos n)
  pub to_int256_exceeds : (n : ℕ) → int256_limit ≤ n → to_int256 n ≡ none
  pub to_uint256_pos : (n : ℕ) → to_uint256 (pos n) ≡ some n
  pub to_uint256_negsuc : (n : ℕ) → to_uint256 (negsuc n) ≡ none
