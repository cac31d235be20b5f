-- ===== src/ExitTraffic/Loops.antt =====
-- rita_exit/src/traffic_watcher/mod.rs: the two loops over the counters bill what the shares say.
use rita.Common.{ℕ, ◌<◌, ◌≡◌, ◌∙◌, refl, sym, ap, List, [], ◌∷◌, arith}
use rita.Common.Int.{◌+ℤ◌, +ℤ_assoc}
use rita.Common.Map.{lookup, nat_key}
use rita.Outcome.{ok}
use rita.Types.{Identity}
use rita.DebtKeeper.Keeper.Frame.{billed}
use rita.Debts.{traffic_vec, +ℤ_zero}
use rita.ExitTraffic.{
  Usages, Prices, ExitSettings, Round, sub_u64, input_value, input_one, input_loop, output_value,
  output_one, output_loop,
}
use rita.ExitTraffic.Billed.{
  download_of, upload_of, Distinct, client_share, input_owed, output_owed, Same, SameUploads,
}
use rita.ExitTraffic.One.{
  input_one-Same, input_one-billed, input_one-SameUploads, input_one-rest, output_one-Same,
  output_one-ok, output_one-billed, output_one-rest,
}

module _ (settings : ExitSettings) (identities : List (ℕ × Identity)) (destinations : Prices)
    (peers : List Identity) (j : Identity) where
  pub input_loop-Same :
      (counters : Usages) (r : Round)
      → Same settings identities destinations peers j r
      → Same settings identities destinations peers j
          (input_loop settings identities destinations counters r)
  unfolding input_loop
  input_loop-Same [] r same = same
  input_loop-Same ((k, u) ∷ counters) r same =
      input_loop-Same counters (input_one settings identities destinations k u r)
        (input_one-Same settings identities destinations peers j k u r same)

  pub input_loop-SameUploads :
      (counters : Usages) (r : Round)
      → Same settings identities destinations peers j r
      → SameUploads settings identities destinations peers j r.history
          (input_loop settings identities destinations counters r).history
  unfolding input_loop
  input_loop-SameUploads [] r same i = refl
  input_loop-SameUploads ((k, u) ∷ counters) r same i =
      input_loop-SameUploads counters (input_one settings identities destinations k u r)
        (input_one-Same settings identities destinations peers j k u r same) i
      ∙ input_one-SameUploads settings identities destinations peers j k u r same i

  pub input_loop-billed :
      (counters : Usages) (r : Round)
      → Distinct counters
      → Same settings identities destinations peers j r
      → billed j (traffic_vec (input_loop settings identities destinations counters r).debts)
        ≡ billed j (traffic_vec r.debts)
          +ℤ input_owed settings identities destinations peers j r.history counters
  unfolding input_loop
  input_loop-billed [] r distinct same = sym (+ℤ_zero (billed j (traffic_vec r.debts)))
  input_loop-billed ((k, u) ∷ counters) r (new, distinct) same =
      let r' = input_one settings identities destinations k u r in
      let share =
        client_share settings identities destinations peers j k
          (download_of (lookup nat_key k r.history))
          (λ dest bytes. input_value settings (sub_u64 u.download bytes)) in
      input_loop-billed counters r' distinct
        (input_one-Same settings identities destinations peers j k u r same)
      ∙ ap (λ z. billed j (traffic_vec r'.debts) +ℤ z)
          (input_one-rest settings identities destinations peers j k u r same counters new)
      ∙ ap (λ z. z +ℤ input_owed settings identities destinations peers j r.history counters)
          (input_one-billed settings identities destinations peers j k u r same)
      ∙ +ℤ_assoc (billed j (traffic_vec r.debts)) share
          (input_owed settings identities destinations peers j r.history counters)

  pub output_loop-billed :
      (counters : Usages) (r : Round)
      → 0 < settings.tx_fee_percentage
      → Distinct counters
      → Same settings identities destinations peers j r
      → ((output_loop settings identities destinations counters r).0 ≡ ok tt)
        × (billed j (traffic_vec (output_loop settings identities destinations counters r).1.debts)
            ≡ billed j (traffic_vec r.debts)
              +ℤ output_owed settings identities destinations peers j r.history counters)
  unfolding output_loop
  output_loop-billed [] r positive distinct same =
      (refl, sym (+ℤ_zero (billed j (traffic_vec r.debts))))
  output_loop-billed ((k, u) ∷ counters) r positive (new, distinct) same =
      let r' = (output_one settings identities destinations k u r).1 in
      let share =
        client_share settings identities destinations peers j k
          (upload_of (lookup nat_key k r.history))
          (λ dest bytes. output_value settings dest (sub_u64 u.upload bytes)) in
      let (fine, total) =
        output_loop-billed counters r' positive distinct
          (output_one-Same settings identities destinations peers j k u r same) in
      let bill =
        total
        ∙ ap (λ z. billed j (traffic_vec r'.debts) +ℤ z)
            (output_one-rest settings identities destinations peers j k u r same positive counters
              new)
        ∙ ap (λ z. z +ℤ output_owed settings identities destinations peers j r.history counters)
            (output_one-billed settings identities destinations peers j k u r same positive)
        ∙ +ℤ_assoc (billed j (traffic_vec r.debts)) share
            (output_owed settings identities destinations peers j r.history counters) in
      ground (
        arith,
        output_one-ok settings identities destinations peers j k u r same positive,
        fine,
        bill,
      )
