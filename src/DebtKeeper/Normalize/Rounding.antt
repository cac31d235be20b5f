-- ===== src/DebtKeeper/Normalize/Rounding.antt =====
-- Conversions between denominations: rounding, and the way back.
use native.Mathlib.Nat.{div-eq_of_eq-mul_left}
use text.Mathlib.TextEquality.{eq_iff}
use rita.Common.{ℕ, suc, ◌*◌, ◌/◌, ◌≤◌, ◌<◌, ◌≡◌, ◌≢◌, ap, sym, subst, ◌∙◌, some, arith}
use rita.Types.{Denom}
use rita.Num256.{Num256, uint256_limit}
use rita.DebtKeeper.Normalize.{normalize_payment_amount}

module _ (n : Num256) where
  convert :
      (amount : ℕ) (from to : Denom)
      → from.denom ≢ to.denom
      → 0 < from.decimal
      → amount * to.decimal < uint256_limit
      → normalize_payment_amount n amount from to ≡ some (amount * to.decimal / from.decimal)
  unfolding normalize_payment_amount
  convert amount from to differ whole fits = ground (
    arith,
    eq_iff from.denom to.denom,
    n.mul_fits amount to.decimal,
    n.udiv_pos (amount * to.decimal) from.decimal,
  )

  -- Between two denominations of different names an amount is scaled by the ratio of their decimals
  -- and rounded down, where the decimals it comes from are not zero and the amount times the other
  -- decimals fits in 256 bits: the result is worth at most the amount, and one unit more would be
  -- worth more.
  pub normalize_rounds_down :
      (amount : ℕ) (from to : Denom)
      → from.denom ≢ to.denom
      → 0 < from.decimal
      → amount * to.decimal < uint256_limit
      → (r : ℕ) × (normalize_payment_amount n amount from to ≡ some r)
        × (r * from.decimal ≤ amount * to.decimal)
        × (amount * to.decimal < suc r * from.decimal)
  normalize_rounds_down amount from to differ whole fits = (
    amount * to.decimal / from.decimal,
    convert amount from to differ whole fits,
    grind arith,
    grind arith,
  )

  -- Into a denomination of another name that is finer by a whole factor, and back, an amount comes
  -- out as it was, where the decimals are not zero and the product fits in 256 bits.
  pub normalize_round_trip :
      (amount k : ℕ) (from to : Denom)
      → from.denom ≢ to.denom
      → 0 < from.decimal
      → 0 < k
      → to.decimal ≡ from.decimal * k
      → amount * to.decimal < uint256_limit
      → (r : ℕ) × (normalize_payment_amount n amount from to ≡ some r)
        × (normalize_payment_amount n r to from ≡ some amount)
  normalize_round_trip amount k from to differ whole pos_k scale fits =
      let same : amount * to.decimal ≡ amount * k * from.decimal = rw scale (omega arith) in
      let pos_to : 0 < to.decimal = rw scale (grind arith) in
      (
        amount * k,
        convert amount from to differ whole fits ∙ ap some (div-eq_of_eq-mul_left whole same),
        convert (amount * k) to from (λ e. differ (sym e)) pos_to
              (subst (λ (t : ℕ). t < uint256_limit) same fits)
            ∙ ap some (div-eq_of_eq-mul_left pos_to (sym same)),
      )
