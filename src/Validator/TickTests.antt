-- ===== src/Validator/TickTests.antt =====
-- The theorems on a tick, on the shared queue and on Althea L1 at concrete payments.
use text.Mathlib.Text.{◌==◌ as str_eq}
use rita.Common.{
  ℕ, ◌+◌, if◌then◌else◌, ◌≡◌, refl, true, false, Option, none, some, String, List, [], ◌∷◌, arith,
}
use rita.Types.{Identity, Denom, identity_eq, xdai, althea_l1}
use rita.Num256.Checked.{checked}
use rita.Outcome.{ok}
use rita.Settings.{PaymentSettings}
use rita.Samples.{us, settings}
use rita.Validator.State.{ToValidate, is_consistent}
use rita.Validator.Batch.{run_batches, run_batches_few}
use rita.Billing
use rita.DebtKeeper.Node
use rita.DebtKeeper.Normalize.{normalize_payment_amount}
use rita.DebtKeeper.Keeper.{with_entry}
use rita.Common.Map.{lookup}
use rita.Validator.Althea.{
  MsgMicrotx, AltheaAnswer, moving, handle_tx_messaging_althea, judge_microtx, judge_coin,
  accepted_denom, judge_althea, handle_althea_tx_checking,
}
use rita.Validator.Althea.Accept.{IsGoodMicrotx, althea_accepts}
use rita.Validator.Tick.{Answer, tick_payment_validator, validate_transaction}
use rita.Validator.Tick.Consistent.{tick_consistent}
use rita.Validator.Tests.{waiting, sending, replayed, both, both_consistent, books}

abbrev ten : List ℕ
ten = 1 ∷ 2 ∷ 3 ∷ 4 ∷ 5 ∷ 6 ∷ 7 ∷ 8 ∷ 9 ∷ 10 ∷ []

run_batches_few_example : run_batches [] ten ≡ ten
run_batches_few_example = run_batches_few ten (omega arith)

abbrev token : Denom
token = record { denom = "aalthea"; decimal = 1_000_000_000_000_000_000 }

abbrev on_althea : PaymentSettings
on_althea = record settings { althea_l1_accepted_denoms = token ∷ []; system_chain = althea_l1 }

-- Two addresses that parse.
abbrev parse : String → Option ℕ
parse address =
    if str_eq address "alice" then some 111 else if str_eq address "us" then some 119 else none

abbrev althea_address : Identity → ℕ
althea_address id = id.eth_address + 100

abbrev microtx : MsgMicrotx
microtx = record {
  sender = "alice";
  receiver = "us";
  amount = some (record { amount = 30; denom = "aalthea" });
}

abbrev found : AltheaAnswer
found = record { transactions = some (microtx ∷ []); status = none }

abbrev unknown : AltheaAnswer
unknown = record { transactions = none; status = some (moving 1000) }

abbrev on_time : ToValidate
on_time = record sending { timeout_block = some 990 }

accepted_on_althea :
    (handle_althea_tx_checking checked on_althea 0
      (some us)
      parse
      althea_address
      false
      found
      waiting
      books).0
    ≡ ok (some (waiting, true))
unfolding handle_althea_tx_checking handle_tx_messaging_althea judge_microtx judge_coin
    accepted_denom judge_althea Billing.payment_received normalize_payment_amount checked
    Billing.on_keeper with_entry Node.payment_received lookup identity_eq
accepted_on_althea = refl

althea_accepts_example :
    (m : MsgMicrotx) × (rest : List MsgMicrotx) × (found.transactions ≡ some (m ∷ rest))
    × (waiting ≡ waiting)
    × IsGoodMicrotx checked on_althea 0 us parse althea_address false m waiting
althea_accepts_example =
    althea_accepts checked on_althea 0 us parse althea_address false found waiting waiting books
      accepted_on_althea

abbrev silent : Answer
silent = record { xdai = record { transaction = none; block_number = none }; althea = unknown }

tick_consistent_example :
    is_consistent
      (tick_payment_validator
        (λ ts.
          validate_transaction checked settings 300_000
            (some us)
            parse
            althea_address
            false
            silent
            xdai
            ts)
        300_000
        xdai
        (some 19)
        (on_time ∷ [])
        (replayed ∷ [])
        (both, books)).1.0
    ≡ true
tick_consistent_example =
    tick_consistent checked settings 300_000 (some us) parse althea_address false (λ ts. silent)
      xdai (on_time ∷ []) (replayed ∷ []) both books both_consistent
