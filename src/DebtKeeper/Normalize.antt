-- ===== src/DebtKeeper/Normalize.antt =====
-- `normalize_payment_amount`: an amount of one denomination in units of another. `none` is a panic.
pub mod Rounding
use rita.Common.{ℕ, Bool, not, Option, none, some, String, if◌then◌else◌}
use text.Mathlib.Text.{◌==◌ as str_eq}
use rita.Types.{Denom}
use rita.Num256.{Num256}

unfoldable pub normalize_payment_amount : Num256 → ℕ → Denom → Denom → Option ℕ
normalize_payment_amount n amount from to =
    if not (str_eq from.denom to.denom)
    then elim (n.checked_mul amount to.decimal) [
      | none ↦ none
      | some unit_factor ↦ n.udiv unit_factor from.decimal
    ]
    else some amount
