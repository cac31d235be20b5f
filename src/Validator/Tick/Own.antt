-- ===== src/Validator/Tick/Own.antt =====
-- Which payment a verdict is about.
use rita.Common.{
  ℕ, ◌≡◌, Bool, Option, none, some, String, List, [], ◌∷◌, arith, ◌==◌, Option-cases, inl, inr,
}
use rita.Types.{Identity, Denom, SystemChain}
use rita.Num256.{Num256}
use rita.Settings.{PaymentSettings}
use rita.Outcome.{Action, ok}
use rita.Validator.State.{ToValidate}
use rita.Validator.Chain.{
  Books, Verdict, TransactionFields, TransactionResponse, judge_xdai, judge_destination,
  get_xdai_transaction_details, handle_tx_messaging_xdai, payment_in_chain_xdai,
}
use rita.Validator.Althea.{
  Coin, MsgMicrotx, AltheaAnswer, accepted_denom, invalid, judge_althea, judge_coin, judge_microtx,
  handle_tx_messaging_althea, timed_out, handle_althea_tx_checking,
}
use rita.Validator.Tick.{XdaiAnswer, Answer, handle_xdai_tx_checking, validate_transaction}

abbrev pub Own : (ToValidate → Action Books Verdict) → Type 0
Own validate =
    (ts r : ToValidate) (s : Bool) (b : Books) → (validate ts b).0 ≡ ok (some (r, s)) → r ≡ ts

module _ (n : Num256) (payment : PaymentSettings) (now : ℕ) where
  judge_xdai-Own : (to_us from_us deep : Bool) → Own (judge_xdai n payment now to_us from_us deep)
  unfolding judge_xdai
  judge_xdai-Own to_us from_us deep ts r s b e = ground arith

  judge_destination-Own :
      (our : ℕ) (tx : TransactionFields) (height : ℕ) (to : Option ℕ)
      → Own (λ ts. judge_destination n payment now our tx ts height to)
  unfolding judge_destination
  judge_destination-Own our tx height none ts r s b e = ground arith
  judge_destination-Own our tx height (some to) ts r s b e =
      elim (Option-cases (payment_in_chain_xdai n height tx.block_number)) [
        | inl failed ↦ ground arith
        | inr (deep, found) ↦
            ground (arith, judge_xdai-Own (to == our) (tx.from == our) deep ts r s b)
      ]

  handle_tx_messaging_xdai-Own :
      (transaction : TransactionResponse) (height : ℕ)
      → Own (λ ts. handle_tx_messaging_xdai n payment now transaction ts height)
  unfolding handle_tx_messaging_xdai
  handle_tx_messaging_xdai-Own transaction height ts r s b e =
      let tx = get_xdai_transaction_details transaction in
      elim (Option-cases payment.eth_address) [
        | inl missing ↦ ground arith
        | inr (our, found) ↦ ground (arith, judge_destination-Own our tx height tx.to ts r s b)
      ]

  handle_xdai_tx_checking-Own :
      (answer : XdaiAnswer) → Own (handle_xdai_tx_checking n payment now answer)
  unfolding handle_xdai_tx_checking
  handle_xdai_tx_checking-Own answer ts r s b e = elim (Option-cases answer.transaction) [
    | inl missing ↦ ground arith
    | inr (transaction, found) ↦ elim (Option-cases answer.block_number) [
      | inl missing ↦ ground arith
      | inr (height, block) ↦
          ground (arith, handle_tx_messaging_xdai-Own transaction height ts r s b)
    ]
  ]

  module _ (our_id : Option Identity) (parse : String → Option ℕ) (althea_address : Identity → ℕ)
      (development : Bool) where
    judge_althea-Own :
        (to_us from_us : Bool) (denom : Denom)
        → Own
            (judge_althea n payment now our_id parse althea_address development to_us from_us denom)
    unfolding judge_althea
    judge_althea-Own to_us from_us denom ts r s b e = ground arith

    judge_coin-Own :
        (receiver sender : ℕ) (coin : Coin) (found : Option Denom)
        → Own (
            judge_coin n payment now our_id parse althea_address development receiver sender coin
              found)
    unfolding judge_coin
    judge_coin-Own receiver sender coin none ts r s b e = ground arith
    judge_coin-Own receiver sender coin (some denom) ts r s b e = elim (Option-cases our_id) [
      | inl missing ↦ ground arith
      | inr (us, known) ↦ ground (
        arith,
        judge_althea-Own (receiver == althea_address us) (sender == althea_address us) denom ts r s
            b,
      )
    ]

    judge_microtx-Own :
        (m : MsgMicrotx) (amount : Option Coin)
        → Own (judge_microtx n payment now our_id parse althea_address development m amount)
    unfolding judge_microtx invalid
    judge_microtx-Own m none ts r s b e = ground arith
    judge_microtx-Own m (some coin) ts r s b e = elim (Option-cases (parse m.receiver)) [
      | inl bad ↦ ground arith
      | inr (receiver, ok_receiver) ↦ elim (Option-cases (parse m.sender)) [
        | inl bad ↦ ground arith
        | inr (sender, ok_sender) ↦ ground (
          arith,
          judge_coin-Own receiver sender coin
              (accepted_denom coin.denom payment.althea_l1_accepted_denoms) ts r s b,
        )
      ]
    ]

    handle_tx_messaging_althea-Own :
        (transactions : List MsgMicrotx)
        → Own (
            handle_tx_messaging_althea n payment now our_id parse althea_address development
              transactions)
    unfolding handle_tx_messaging_althea invalid
    handle_tx_messaging_althea-Own [] ts r s b e = ground arith
    handle_tx_messaging_althea-Own (m ∷ transactions) ts r s b e =
        judge_microtx-Own m m.amount ts r s b e

    handle_althea_tx_checking-Own :
        (answer : AltheaAnswer)
        → Own
            (handle_althea_tx_checking n payment now our_id parse althea_address development answer)
    unfolding handle_althea_tx_checking timed_out
    handle_althea_tx_checking-Own answer ts r s b e = elim (Option-cases answer.transactions) [
      | inl missing ↦ ground arith
      | inr (transactions, found) ↦
          ground (arith, handle_tx_messaging_althea-Own transactions ts r s b)
    ]

    pub validate_transaction-Own :
        (answer : Answer) (chain : SystemChain)
        → Own (
            validate_transaction n payment now our_id parse althea_address development answer chain)
    unfolding validate_transaction
    validate_transaction-Own answer chain ts r s b e = ground (
      arith,
      handle_althea_tx_checking-Own answer.althea ts r s b,
      handle_xdai_tx_checking-Own answer.xdai ts r s b,
    )
