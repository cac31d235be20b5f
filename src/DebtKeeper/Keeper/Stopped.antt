-- ===== src/DebtKeeper/Keeper/Stopped.antt =====
-- How a round of `send_debt_update` ends where the blockchain oracle sees a problem.
use rita.Common.{ℕ, ◌≡◌, true, false, [], ◌∷◌, some, arith}
use rita.Common.Int.{pos, pos_part, ◌<ℤ◌}
use rita.Common.Map.{lookup-nil, lookup-middle}
use rita.Types.{Identity, identity_key, is_xdai}
use rita.Num256.{Num256}
use rita.Outcome.{err, misc_string_error}
use rita.DebtKeeper.Node.{NodeDebtData}
use rita.DebtKeeper.Node.Credit.{Fits}
use rita.DebtKeeper.Limit.Bounds.{IsSane}
use rita.DebtKeeper.Update
use rita.DebtKeeper.Update.Decision.{pays, limited}
use rita.DebtKeeper.Update.InFlight.{make_payment-InFlight}
use rita.DebtKeeper.Keeper.{
  DebtKeeper, DebtData, entry, Surroundings, collect, send_loop, send_debt_update,
}
use rita.DebtKeeper.Keeper.Round.{with_entry_lem}

module _ (n : Num256) (s : Surroundings) where
  -- With sane settings and an account that fits, a round whose first node is due a payment on xDai
  -- while the oracle sees a problem stops with an error: no tunnel change and no payment is handed
  -- on, yet the node's payment is booked as in flight from this moment.
  pub send_debt_update_stopped :
      (p : ℕ) (k : Identity) (d : NodeDebtData) (m : DebtData) (dk : DebtKeeper)
      → IsSane s.payment p
      → Fits 0 d
      → dk.debt_data ≡ (k, d) ∷ m
      → is_xdai s.payment.system_chain ≡ true
      → s.issues ≡ true
      → pos p <ℤ d.debt
      → d.payment_in_flight ≡ false
      → let (r, dk') = send_debt_update n s dk in
        (r ≡ err (misc_string_error "Potential payment issue detected"))
        × ((entry k dk'.debt_data).payment_in_flight ≡ true)
        × ((entry k dk'.debt_data).payment_in_flight_start ≡ some s.now)
  unfolding send_debt_update send_loop collect entry
  send_debt_update_stopped p k d m dk v f shape xdai trouble owes free =
      let asked = pays n s.payment k s.now p d v f owes free in
      rw shape (
        ground (
          arith,
          with_entry_lem n s p k d dk [] m v f (lookup-nil identity_key k),
          asked,
          make_payment-InFlight n s.payment k s.now (pos_part (limited s.payment p d.debt)) k d
              asked,
          lookup-middle identity_key k (Update.send_update n s.payment k s.now d).1 [] m
              (lookup-nil identity_key k),
        ))
