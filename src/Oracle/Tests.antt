-- ===== src/Oracle/Tests.antt =====
-- The oracle's theorems at concrete answers.
use rita.Common.{ℕ, none, some, [], ◌∷◌}
use rita.Settings.{wei_denom}
use rita.Num256.Checked.{checked}
use rita.Samples.{us, settings}
use rita.Oracle.{BlockchainOracle, Answers}
use rita.Oracle.Progress.{NotPast, updates, updates_never_back}

abbrev at_ninety : BlockchainOracle
at_ninety = record { balance = some 5; last_seen_block = some 90; last_updated = some 1000 }

abbrev at_block : ℕ → Answers
at_block b = record {
  block_number = some b;
  gnosis_balance = some 6;
  status = none;
  althea_balance = none;
}

updates_never_back_example :
    NotPast
      (some 90)
      (updates checked settings
        (some us)
        wei_denom
        ((1010, at_block 80) ∷ (1020, at_block 95) ∷ [])
        at_ninety).last_seen_block
updates_never_back_example =
    updates_never_back checked settings (some us) wei_denom
      ((1010, at_block 80) ∷ (1020, at_block 95) ∷ []) at_ninety
