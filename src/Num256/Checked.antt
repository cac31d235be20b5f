-- ===== src/Num256/Checked.antt =====
-- Checked 256 bit arithmetic: an instance of the interface, which shows that its laws can hold
-- together, and on which the tests run.
use rita.Common.{
  ℕ, ◌+◌, ◌-◌, ◌*◌, ◌/◌, ◌≤◌, ◌<◌, ◌≡◌, refl, Option, none, some, ◌&&◌, arith, ltb, leb, ◌==◌,
  if◌then◌else◌,
}
use rita.Common.Int.{ℤ, pos, negsuc, pos_part, neg_part, magnitude, ◌+ℤ◌, ◌-ℤ◌, ◌*ℤ◌}
use rita.Num256.{Num256, uint256_limit, int256_limit, FitsInt256}

pub within : ℕ → Option ℕ
within a = if ltb a uint256_limit then some a else none

pub subtract : ℕ → ℕ → Option ℕ
subtract a b = if leb b a then some (a - b) else none

pub divide : ℕ → ℕ → Option ℕ
divide a b = if b == 0 then none else some (a / b)

pub signed : ℤ → Option ℤ
signed z = if ltb (pos_part z) int256_limit && leb (neg_part z) int256_limit then some z else none

pub narrow : ℕ → Option ℤ
narrow a = if ltb a int256_limit then some (pos a) else none

pub unsign : ℤ → Option ℕ
unsign (pos a) = some a
unsign (negsuc a) = none

pub within_fits : (a : ℕ) → a < uint256_limit → within a ≡ some a
unfolding within
within_fits a h = ground arith

pub within_exceeds : (a : ℕ) → uint256_limit ≤ a → within a ≡ none
unfolding within
within_exceeds a h = ground arith

pub subtract_fits : (a b : ℕ) → b ≤ a → subtract a b ≡ some (a - b)
unfolding subtract
subtract_fits a b h = ground arith

pub divide_pos : (a b : ℕ) → 0 < b → divide a b ≡ some (a / b)
unfolding divide
divide_pos a b h = ground arith

pub divide_zero : (a : ℕ) → divide a 0 ≡ none
unfolding divide
divide_zero a = refl

pub signed_fits : (z : ℤ) → FitsInt256 z → signed z ≡ some z
unfolding signed
signed_fits z h = ground arith

pub signed-magnitude :
    (z : ℤ) → magnitude z < int256_limit → signed (pos (magnitude z)) ≡ some (pos (magnitude z))
unfolding signed
signed-magnitude z h = ground arith

pub narrow_fits : (a : ℕ) → a < int256_limit → narrow a ≡ some (pos a)
unfolding narrow
narrow_fits a h = ground arith

pub narrow_exceeds : (a : ℕ) → int256_limit ≤ a → narrow a ≡ none
unfolding narrow
narrow_exceeds a h = ground arith

pub unsign_pos : (a : ℕ) → unsign (pos a) ≡ some a
unfolding unsign
unsign_pos a = refl

pub unsign_negsuc : (a : ℕ) → unsign (negsuc a) ≡ none
unfolding unsign
unsign_negsuc a = refl

unfoldable pub checked : Num256
unfolding within subtract divide signed narrow unsign uint256_limit int256_limit ◌+ℤ◌ ◌-ℤ◌ ◌*ℤ◌
checked = record {
  uadd = λ a b. within (a + b);
  usub = subtract;
  udiv = divide;
  checked_mul = λ a b. within (a * b);
  iadd = λ a b. signed (a +ℤ b);
  isub = λ a b. signed (a -ℤ b);
  imul = λ a b. signed (a *ℤ b);
  iabs = λ a. signed (pos (magnitude a));
  to_int256 = narrow;
  to_uint256 = unsign;
  uadd_fits = λ a b. within_fits (a + b);
  usub_fits = λ a b _. subtract_fits a b;
  udiv_pos = divide_pos;
  udiv_zero = divide_zero;
  mul_fits = λ a b. within_fits (a * b);
  mul_exceeds = λ a b. within_exceeds (a * b);
  iadd_fits = λ a b. signed_fits (a +ℤ b);
  isub_fits = λ a b. signed_fits (a -ℤ b);
  imul_fits = λ a b. signed_fits (a *ℤ b);
  iabs_fits = signed-magnitude;
  to_int256_fits = narrow_fits;
  to_int256_exceeds = narrow_exceeds;
  to_uint256_pos = unsign_pos;
  to_uint256_negsuc = unsign_negsuc;
}
