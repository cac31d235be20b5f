-- ===== src/DebtKeeper/Keeper/Round.antt =====
-- One round of `send_debt_update` over all nodes.
use rita.Common.{ℕ, ◌≡◌, false, ◌&&◌, List, [], ◌∷◌, ◌++◌, arith, none, some}
use rita.Common.Map.{lookup, lookup-nil, lookup-middle, insert-middle, lookup-snoc_none}
use mathlib.Core.List.{append_assoc, append-nil}
use rita.Types.{Identity, identity_key, identity_eq, is_xdai, UnpublishedPaymentTx}
use rita.Num256.{Num256}
use rita.Outcome.{ok}
use rita.DebtKeeper.Node.{NodeDebtData, DebtAction, suspend_tunnel, open_tunnel, make_payment}
use rita.DebtKeeper.Node.Credit.{Fits}
use rita.DebtKeeper.Limit.Bounds.{IsSane}
use rita.DebtKeeper.Update
use rita.DebtKeeper.Update.Decision.{action_of, send_update-decision}
use rita.DebtKeeper.Keeper.{
  DebtKeeper, DebtData, keys, with_entry, TunnelChange, payment_overdue, paid_on_time, Surroundings,
  Batch, collect, send_loop, send_debt_update,
}

-- No two entries have the same key, as in every HashMap.
abbrev pub Apart : Identity → DebtData → Type 0
Apart k [] = Unit
Apart k ((j, _) ∷ m) = (identity_eq k j ≡ false) × Apart k m

abbrev pub IsDistinct : DebtData → Type 0
IsDistinct [] = Unit
IsDistinct ((k, _) ∷ m) = Apart k m × IsDistinct m

abbrev pub AllFit : DebtData → Type 0
AllFit [] = Unit
AllFit ((_, d) ∷ m) = Fits 0 d × AllFit m

module _ (n : Num256) (s : Surroundings) where
  -- What `send_update` makes of one account.
  abbrev pub action_for : Identity → NodeDebtData → DebtAction
  action_for k d = action_of (Update.send_update n s.payment k s.now d).0

  -- Every account, each on its own, after the round.
  abbrev pub accounts_after : DebtData → DebtData
  accounts_after [] = []
  accounts_after ((k, d) ∷ m) = (k, (Update.send_update n s.payment k s.now d).1) ∷ accounts_after m

abbrev pub change_for : Identity → DebtAction → List TunnelChange
change_for k suspend_tunnel = record { identity = k; action = payment_overdue } ∷ []
change_for k open_tunnel = record { identity = k; action = paid_on_time } ∷ []
change_for k (make_payment to amount) = []

abbrev pub payment_for : Identity → DebtAction → List UnpublishedPaymentTx
payment_for us suspend_tunnel = []
payment_for us open_tunnel = []
payment_for us (make_payment to amount) = record { to = to; from = us; amount = amount } ∷ []

module _ (n : Num256) (s : Surroundings) where
  abbrev pub changes_for : DebtData → List TunnelChange
  changes_for [] = []
  changes_for ((k, d) ∷ m) = change_for k (action_for n s k d) ++ changes_for m

  abbrev pub payments_for : Identity → DebtData → List UnpublishedPaymentTx
  payments_for us [] = []
  payments_for us ((k, d) ∷ m) = payment_for us (action_for n s k d) ++ payments_for us m

  -- No entry of `m` has a key that `done` has.
  abbrev Fresh : DebtData → DebtData → Type 0
  Fresh done [] = Unit
  Fresh done ((k, _) ∷ m) = (lookup identity_key k done ≡ none) × Fresh done m

  Fresh-nil : (m : DebtData) → Fresh [] m
  Fresh-nil [] = tt
  Fresh-nil ((k, d) ∷ m) = (lookup-nil identity_key k, Fresh-nil m)

  Fresh-snoc :
      (done m : DebtData) (k : Identity) (d : NodeDebtData)
      → Fresh done m
      → Apart k m
      → Fresh (done ++ (k, d) ∷ []) m
  Fresh-snoc done [] k d f a = tt
  Fresh-snoc done ((j, e) ∷ m) k d f a =
      (lookup-snoc_none identity_key j k d done f.0 a.0, Fresh-snoc done m k d f.1 a.1)

  pub action_for_ok :
      (p : ℕ) (k : Identity) (d : NodeDebtData)
      → IsSane s.payment p
      → Fits 0 d
      → (Update.send_update n s.payment k s.now d).0 ≡ ok (action_for n s k d)
  action_for_ok p k d v f = rw (send_update-decision n s.payment k s.now p d v f) (ground arith)

  abbrev pub saved_with : DebtKeeper → DebtData → DebtKeeper
  saved_with dk m = record dk { debt_data = m }

  abbrev extended : Batch → List TunnelChange → List UnpublishedPaymentTx → Batch
  extended b changes sent = record {
    debts_message = b.debts_message ++ changes;
    payments_to_send = b.payments_to_send ++ sent;
  }

  collect_lem :
      (us k : Identity) (a : DebtAction) (b : Batch) (dk : DebtKeeper)
      → s.our_id ≡ some us
      → (is_xdai s.payment.system_chain && s.issues) ≡ false
      → collect n s k a b dk ≡ (ok (extended b (change_for k a) (payment_for us a)), dk)
  unfolding collect
  collect_lem us k suspend_tunnel b dk e q = ground (arith, append-nil b.payments_to_send)
  collect_lem us k open_tunnel b dk e q = ground (arith, append-nil b.payments_to_send)
  collect_lem us k (make_payment to amount) b dk e q =
      rw (e, q) (ground (arith, append-nil b.debts_message))

  pub with_entry_lem :
      (p : ℕ) (k : Identity) (d : NodeDebtData) (dk : DebtKeeper) (done m : DebtData)
      → IsSane s.payment p
      → Fits 0 d
      → lookup identity_key k done ≡ none
      → with_entry k (Update.send_update n s.payment k s.now) (saved_with dk (done ++ (k, d) ∷ m))
        ≡ (
          ok (action_for n s k d),
          saved_with dk (done ++ (k, (Update.send_update n s.payment k s.now d).1) ∷ m),
        )
  unfolding with_entry
  with_entry_lem p k d dk done m v f h = ground (
    arith,
    lookup-middle identity_key k d done m h,
    action_for_ok p k d v f,
    insert-middle identity_key k d (Update.send_update n s.payment k s.now d).1 done m h,
  )

  send_loop_lem :
      (p : ℕ) (us : Identity) (done m : DebtData) (b : Batch) (dk : DebtKeeper)
      → IsSane s.payment p
      → s.our_id ≡ some us
      → (is_xdai s.payment.system_chain && s.issues) ≡ false
      → Fresh done m
      → IsDistinct m
      → AllFit m
      → send_loop n s (keys m) b (saved_with dk (done ++ m)) ≡ (
        ok (extended b (changes_for m) (payments_for us m)),
        saved_with dk (done ++ accounts_after n s m),
      )
  unfolding send_loop
  send_loop_lem p us done [] b dk v e q fresh apart fit =
      ground (arith, append-nil b.debts_message, append-nil b.payments_to_send)
  send_loop_lem p us done ((k, d) ∷ m) b dk v e q fresh apart fit =
      let d' = (Update.send_update n s.payment k s.now d).1 in
      let a = action_for n s k d in
      let b' = extended b (change_for k a) (payment_for us a) in
      let ih =
        send_loop_lem p us (done ++ (k, d') ∷ []) m b' dk v e q
          (Fresh-snoc done m k d' fresh.1 apart.0) apart.1 fit.1 in
      ground (
        arith,
        with_entry_lem p k d dk done m v fit.0 fresh.0,
        collect_lem us k a b (saved_with dk (done ++ (k, d') ∷ m)) e q,
        (simp append_assoc at ih),
      )

  -- With sane settings, accounts that fit, each node listed once, a working oracle and an identity
  -- of our own, a round neither fails nor panics. Every node is treated on its own account alone,
  -- in the order of the map: each gets one tunnel change or one payment from us, as `send_update`
  -- decides, and every account ends as `send_update` leaves it.
  pub send_debt_update_lem :
      (p : ℕ) (us : Identity) (dk : DebtKeeper)
      → IsSane s.payment p
      → s.our_id ≡ some us
      → (is_xdai s.payment.system_chain && s.issues) ≡ false
      → IsDistinct dk.debt_data
      → AllFit dk.debt_data
      → send_debt_update n s dk ≡ (
        ok (record {
          debts_message = changes_for dk.debt_data;
          payments_to_send = payments_for us dk.debt_data;
        }),
        record dk { debt_data = accounts_after n s dk.debt_data },
      )
  unfolding send_debt_update
  send_debt_update_lem p us dk v e q apart fit =
      send_loop_lem p us [] dk.debt_data (record { debts_message = []; payments_to_send = [] }) dk v
        e q (Fresh-nil dk.debt_data) apart fit
