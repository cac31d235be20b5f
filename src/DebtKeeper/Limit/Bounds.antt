-- ===== src/DebtKeeper/Limit/Bounds.antt =====
-- What the thresholds and the limit come to where the settings are sane.
use rita.Common.{ℕ, suc, ◌+◌, ◌*◌, ◌<◌, ◌≡◌, some, arith, if◌then◌else◌}
use rita.Common.Int.{ℤ, pos, negsuc, ltb_ℤ, sub_ℕ, ◌+ℤ◌, ◌-ℤ◌, ◌*ℤ◌}
use rita.Num256.{Num256, int256_limit, int256_large}
use rita.Settings.{PaymentSettings}
use rita.DebtKeeper.Limit.{calculate_close_thresh, debt_limit}

-- A payment threshold of `p` which is not negative, and ten times which fits with room for one.
pub record IsSane (payment : PaymentSettings) (p : ℕ) : Type 0 where
  pub threshold : payment.payment_threshold ≡ pos p
  pub fits : 10 * p + 1 < int256_limit

-- -m
abbrev pub minus : ℕ → ℤ
minus m = sub_ℕ 0 m

-- `debt` held to the range from -(m + 1) to m + 1.
abbrev pub clamped : ℕ → ℤ → ℤ
clamped m debt =
    if ltb_ℤ debt (minus m) then minus (suc m) else if ltb_ℤ (pos m) debt then pos (suc m) else debt

module _ (n : Num256) where
  pub close_thresh_lem :
      (payment : PaymentSettings) (p : ℕ)
      → IsSane payment p
      → calculate_close_thresh n payment ≡ some (minus (10 * p))
  unfolding calculate_close_thresh ◌*ℤ◌
  close_thresh_lem payment p v =
      ground (arith, int256_large, n.imul_fits (negsuc 0) (pos 10), n.imul_fits (negsuc 9) (pos p))

  pub debt_limit-clamped :
      (m : ℕ) (debt : ℤ)
      → suc m < int256_limit
      → debt_limit n debt (minus m) ≡ some (clamped m debt)
  unfolding debt_limit ◌+ℤ◌ ◌-ℤ◌
  debt_limit-clamped m debt h =
      ground
        (arith, n.isub_fits (minus m) (pos 1), n.iabs_fits (minus m), n.iadd_fits (pos m) (pos 1))
