-- ===== src/ExitTraffic/One.antt =====
-- rita_exit/src/traffic_watcher/mod.rs: what one counter of the input or the output bills.
use rita.Common.{ℕ, ◌<◌, ◌≡◌, none, List, arith, inl, inr}
use rita.Common.Int.{pos, ◌+ℤ◌, ◌-ℤ◌}
use rita.Common.Map.{lookup, nat_key, lookup-insert, lookup-congr}
use rita.Outcome.{ok}
use rita.Types.{Identity}
use rita.DebtKeeper.Keeper.Frame.{billed}
use rita.Debts.{traffic_vec, billed-add_to, is_in-add_to, +ℤ_zero}
use rita.ExitTraffic.{
  WgUsage, Usages, Prices, ExitSettings, Round, sub_u64, input_value, input_one, output_value,
  output_one,
}
use rita.ExitTraffic.Billed.{
  download_of, upload_of, client_share, input_owed, output_owed, Same, SameUploads,
  input_owed-insert, output_owed-insert, entry_of-some, entry_of-none, entry_of-cases,
}

module _ (settings : ExitSettings) (identities : List (ℕ × Identity)) (destinations : Prices)
    (peers : List Identity) (j : Identity) where
  module _ (k : ℕ) (u : WgUsage) (r : Round)
      (same : Same settings identities destinations peers j r) where
    pub input_one-Same :
        Same settings identities destinations peers j
          (input_one settings identities destinations k u r)
    unfolding input_one
    input_one-Same i = elim (entry_of-cases settings identities destinations peers j k r.history) [
      | inl h ↦ ground (arith, h, same i)
      | inr (id, dest, usage, h) ↦ ground (
        arith,
        h,
        same i,
        is_in-add_to id i (pos 0 -ℤ pos (input_value settings (sub_u64 u.download usage.download)))
            r.debts,
      )
    ]

    pub input_one-billed :
        billed j (traffic_vec (input_one settings identities destinations k u r).debts)
        ≡ billed j (traffic_vec r.debts)
          +ℤ client_share settings identities destinations peers j k
              (download_of (lookup nat_key k r.history))
              (λ dest bytes. input_value settings (sub_u64 u.download bytes))
    unfolding input_one
    input_one-billed = elim (entry_of-cases settings identities destinations peers j k r.history) [
      | inl h ↦ ground (
        arith,
        h,
        (entry_of-none settings identities destinations peers j k r.history
            (λ dest bytes. input_value settings (sub_u64 u.download bytes)) h).0,
        +ℤ_zero (billed j (traffic_vec r.debts)),
      )
      | inr (id, dest, usage, h) ↦
          let (a, b, c) =
            entry_of-some settings identities destinations peers j k r.history id dest usage h in
          ground (
            arith,
            h,
            a,
            b,
            c,
            same id,
            +ℤ_zero (billed j (traffic_vec r.debts)),
            billed-add_to id j
                (pos 0 -ℤ pos (input_value settings (sub_u64 u.download usage.download))) r.debts,
          )
    ]

    pub input_one-SameUploads :
        SameUploads settings identities destinations peers j r.history
          (input_one settings identities destinations k u r).history
    unfolding input_one
    input_one-SameUploads i =
        elim (entry_of-cases settings identities destinations peers j k r.history) [
          | inl h ↦ ground (arith, h)
          | inr (id, dest, usage, h) ↦
              let (a, b, c) =
                entry_of-some settings identities destinations peers j k r.history id dest usage
                  h in
              ground (
                arith,
                h,
                c,
                lookup-insert nat_key k i (record { upload = usage.upload; download = u.download })
                    r.history,
                lookup-congr nat_key k i r.history,
              )
        ]

    -- The history of the other keys stays.
    pub input_one-rest :
        (counters : Usages)
        → lookup nat_key k counters ≡ none
        → input_owed settings identities destinations peers j
            (input_one settings identities destinations k u r).history
            counters
          ≡ input_owed settings identities destinations peers j r.history counters
    unfolding input_one
    input_one-rest counters e =
        elim (entry_of-cases settings identities destinations peers j k r.history) [
          | inl h ↦ ground (arith, h)
          | inr (id, dest, usage, h) ↦ ground (
            arith,
            h,
            input_owed-insert settings identities destinations peers j k
                (record { upload = usage.upload; download = u.download }) r.history counters e,
          )
        ]

    pub output_one-Same :
        Same settings identities destinations peers j
          (output_one settings identities destinations k u r).1
    unfolding output_one
    output_one-Same i = elim (entry_of-cases settings identities destinations peers j k r.history) [
      | inl h ↦ ground (arith, h, same i)
      | inr (id, dest, usage, h) ↦ ground (
        arith,
        h,
        same i,
        is_in-add_to id i
            (pos 0 -ℤ pos (output_value settings dest (sub_u64 u.upload usage.upload))) r.debts,
      )
    ]

    module _ (positive : 0 < settings.tx_fee_percentage) where
      pub output_one-ok : (output_one settings identities destinations k u r).0 ≡ ok tt
      unfolding output_one
      output_one-ok = elim (entry_of-cases settings identities destinations peers j k r.history) [
        | inl h ↦ ground (arith, h)
        | inr (id, dest, usage, h) ↦ ground (arith, h)
      ]

      pub output_one-billed :
          billed j (traffic_vec (output_one settings identities destinations k u r).1.debts)
          ≡ billed j (traffic_vec r.debts)
            +ℤ client_share settings identities destinations peers j k
                (upload_of (lookup nat_key k r.history))
                (λ dest bytes. output_value settings dest (sub_u64 u.upload bytes))
      unfolding output_one
      output_one-billed =
          elim (entry_of-cases settings identities destinations peers j k r.history) [
            | inl h ↦ ground (
              arith,
              h,
              (entry_of-none settings identities destinations peers j k r.history
                  (λ dest bytes. output_value settings dest (sub_u64 u.upload bytes)) h).1,
              +ℤ_zero (billed j (traffic_vec r.debts)),
            )
            | inr (id, dest, usage, h) ↦
                let (a, b, c) =
                  entry_of-some settings identities destinations peers j k r.history id dest usage
                    h in
                ground (
                  arith,
                  h,
                  a,
                  b,
                  c,
                  same id,
                  +ℤ_zero (billed j (traffic_vec r.debts)),
                  billed-add_to id j
                      (pos 0 -ℤ pos (output_value settings dest (sub_u64 u.upload usage.upload)))
                      r.debts,
                )
          ]

      pub output_one-rest :
          (counters : Usages)
          → lookup nat_key k counters ≡ none
          → output_owed settings identities destinations peers j
              (output_one settings identities destinations k u r).1.history
              counters
            ≡ output_owed settings identities destinations peers j r.history counters
      unfolding output_one
      output_one-rest counters e =
          elim (entry_of-cases settings identities destinations peers j k r.history) [
            | inl h ↦ ground (arith, h)
            | inr (id, dest, usage, h) ↦ ground (
              arith,
              h,
              output_owed-insert settings identities destinations peers j k
                  (record { upload = u.upload; download = usage.download }) r.history counters e,
            )
          ]
