-- ===== src/DebtKeeper/Limit.antt =====
-- The thresholds of rita_common/src/blockchain_oracle/mod.rs and the debt limit. `none` is a panic
-- of the 256 bit arithmetic.
pub mod Bounds
use rita.Common.{Option, none, some, ltb, if◌then◌else◌}
use rita.Common.Int.{ℤ, pos, negsuc, ltb_ℤ}
use rita.Num256.{Num256}
use rita.Settings.{PaymentSettings}

-- CLOSE_THRESH_MULT
abbrev pub close_thresh_mult : ℤ
close_thresh_mult = pos 10

unfoldable pub get_pay_thresh : PaymentSettings → ℤ
get_pay_thresh payment = payment.payment_threshold

-- Chains of operations that may panic.
infixl 5 ◌>>=◌
abbrev ◌>>=◌ : {A B : Type 0} → Option A → (A → Option B) → Option B
none >>= f = none
some a >>= f = f a

module _ (n : Num256) where
  open n use {iadd, isub, imul, iabs}

  unfoldable pub calculate_close_thresh : PaymentSettings → Option ℤ
  unfolding get_pay_thresh
  calculate_close_thresh payment = do
    factor ← imul (negsuc 0) close_thresh_mult
    imul factor (get_pay_thresh payment)

  unfoldable pub debt_limit : ℤ → ℤ → Option ℤ
  debt_limit debt close_threshold =
      if ltb_ℤ debt close_threshold then isub close_threshold (pos 1) else do
        ceiling ← iabs close_threshold
        if ltb_ℤ ceiling debt then iadd ceiling (pos 1) else some debt
