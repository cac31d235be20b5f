-- ===== src/DebtKeeper/Node/Credit.antt =====
-- `payment_received` and `payment_succeeded`: what becomes of the debt and the credit.
use rita.Common.{ℕ, suc, ◌+◌, ◌-◌, ◌<◌, ◌≤◌, ◌≡◌, ◌⊎◌, inl, inr, refl, some, none, false, arith}
use rita.Common.Int.{ℤ, pos, negsuc, magnitude, sub_ℕ, ◌+ℤ◌, ◌-ℤ◌, ◌<ℤ◌, ◌≤ℤ◌}
use rita.Num256.{Num256, uint256_limit, int256_limit, uint256-eq-double, FitsInt256}
use rita.Outcome.{ok, err, conversion_error}
use rita.DebtKeeper.Node.{NodeDebtData, payment_received, payment_succeeded}

lt_or_le : (a b : ℕ) → (a < b) ⊎ (b ≤ a)
lt_or_le a b = omega arith

-- The sums that a payment of `amount` makes fit in 256 bits.
pub record Fits (amount : ℕ) (d : NodeDebtData) : Type 0 where
  pub received : d.total_payment_received + amount < uint256_limit
  pub incoming : d.incoming_payments + amount < uint256_limit
  pub debt : magnitude d.debt < int256_limit

-- A pool of credit against a debt: what is left of the debt, and of the pool. Only a negative debt
-- takes credit.
abbrev pub debt_after : ℤ → ℕ → ℤ
debt_after (pos owed) pool = pos owed
debt_after (negsuc k) pool = sub_ℕ 0 (suc k - pool)

abbrev pub pool_after : ℤ → ℕ → ℕ
pool_after (pos owed) pool = pool
pool_after (negsuc k) pool = pool - suc k

abbrev pub settled : ℕ → NodeDebtData → NodeDebtData
settled amount d = record d {
  total_payment_received = d.total_payment_received + amount;
  debt = debt_after d.debt (d.incoming_payments + amount);
  incoming_payments = pool_after d.debt (d.incoming_payments + amount);
}

module _ (n : Num256) where
  pub payment_received-settled :
      (amount : ℕ) (d : NodeDebtData)
      → Fits amount d
      → payment_received n amount d ≡ (ok tt, settled amount d)
  unfolding payment_received ◌+ℤ◌
  payment_received-settled amount d f = ground (
    arith,
    uint256-eq-double,
    n.uadd_fits d.total_payment_received amount,
    n.uadd_fits d.incoming_payments amount,
    n.iabs_fits d.debt,
    n.to_uint256_pos (magnitude d.debt),
    n.usub_fits (d.incoming_payments + amount) (magnitude d.debt),
    n.to_int256_fits (d.incoming_payments + amount),
    n.iadd_fits d.debt (pos (d.incoming_payments + amount)),
  )

  -- A payment that fits is accepted, and no credit is lost or made up: the debt and the pool of
  -- credit together grow by exactly the amount, the counter too, and nothing else but these changes.
  pub payment_received_conserves :
      (amount : ℕ) (d : NodeDebtData)
      → Fits amount d
      → let (r, e) = payment_received n amount d in
        (r ≡ ok tt)
        × (e.debt +ℤ pos e.incoming_payments ≡ d.debt +ℤ pos d.incoming_payments +ℤ pos amount)
        × (e.total_payment_received ≡ d.total_payment_received + amount)
        × (e ≡ record d {
          total_payment_received = e.total_payment_received;
          debt = e.debt;
          incoming_payments = e.incoming_payments;
        })
  unfolding ◌+ℤ◌
  payment_received_conserves amount d f =
      rw (payment_received-settled amount d f) (refl, ground arith, refl, refl)

  -- What a node that owes us pays goes to its debt first: after a payment that fits the debt is
  -- settled or the pool is empty, and the debt is not above zero, so an overpayment never makes us
  -- owe the node.
  pub payment_received_repays :
      (amount : ℕ) (d : NodeDebtData)
      → Fits amount d
      → d.debt <ℤ pos 0
      → let e = (payment_received n amount d).1 in
        (e.debt ≤ℤ pos 0) × (d.debt ≤ℤ e.debt) × ((e.debt ≡ pos 0) ⊎ (e.incoming_payments ≡ 0))
  payment_received_repays amount d f owes =
      rw (payment_received-settled amount d f) (ground arith, ground arith, ground arith)

  -- A node that does not owe us anything keeps a payment that fits as credit: the debt is left as
  -- it was.
  pub payment_received_keeps :
      (amount : ℕ) (d : NodeDebtData)
      → Fits amount d
      → pos 0 ≤ℤ d.debt
      → let e = (payment_received n amount d).1 in
        (e.debt ≡ d.debt) × (e.incoming_payments ≡ d.incoming_payments + amount)
  payment_received_keeps amount d f free =
      rw (payment_received-settled amount d f) (ground arith, ground arith)

  -- Where the counter stays below 2^256 and the debt less the amount fits in an Int256, a payment
  -- of ours that went through ends the flight, is counted with its time, and lowers the debt by its
  -- amount. Where the amount is too large for an Int256 the call reports an error, with the flight
  -- ended and the payment counted but the debt as it was.
  pub payment_succeeded_lem :
      (now amount : ℕ) (d : NodeDebtData)
      → d.total_payment_sent + amount < uint256_limit
      → FitsInt256 (d.debt -ℤ pos amount)
      → let (r, e) = payment_succeeded n now amount d in
        (e.payment_in_flight ≡ false)
        × (e.payment_in_flight_start ≡ none)
        × (e.total_payment_sent ≡ d.total_payment_sent + amount)
        × (e.last_successful_payment ≡ some now)
        × (((amount < int256_limit) × (r ≡ ok tt) × (e.debt ≡ d.debt -ℤ pos amount))
            ⊎ ((int256_limit ≤ amount)
                × (r ≡ err (conversion_error "Failed to convert amount paid to Int256!"))
                × (e.debt ≡ d.debt)))
  unfolding payment_succeeded
  payment_succeeded_lem now amount d fits_sent fits_debt = elim (lt_or_le amount int256_limit) [
    | inl small ↦
        rw
          (
            n.uadd_fits d.total_payment_sent amount fits_sent,
            n.to_int256_fits amount small,
            n.isub_fits d.debt (pos amount) fits_debt,
          )
          (refl, refl, refl, refl, inl (small, refl, refl))
    | inr large ↦
        rw (n.uadd_fits d.total_payment_sent amount fits_sent, n.to_int256_exceeds amount large)
          (refl, refl, refl, refl, inr (large, refl, refl))
  ]
