-- ===== src/Validator/Tick.antt =====
-- `tick_payment_validator`: what waits is judged, and what is judged leaves the queue. The state is
-- the validator and the books; `answer` is what the nodes say of each payment. The futures of a batch
-- book one after the other, in the order of the batch. This is the build that warns of an
-- inconsistent state and does not panic.
pub mod Own
pub mod Tally
pub mod Consistent
use rita.Common.{
  ℕ, ◌-◌, Bool, true, false, not, ◌&&◌, Option, none, some, String, List, [], ◌∷◌, ◌++◌, ltb, leb,
  ◌==◌, if◌then◌else◌,
}
use rita.Types.{Identity, PaymentTx, SystemChain, is_althea_l1}
use rita.Num256.{Num256}
use rita.Settings.{PaymentSettings}
use rita.Outcome.{Result, Action, ok, err, panic, pure, ◌>>=◌}
use rita.Validator.State.{ToValidate, PaymentValidator, add_to_validation_queue, remove}
use rita.Validator.Chain.{Books, Verdict, TransactionResponse, handle_tx_messaging_xdai}
use rita.Validator.Batch.{run_batches}
use rita.Validator.Althea.{AltheaAnswer, handle_althea_tx_checking}
use rita.DebtKeeper.Update.{eth_payment_send_timeout}

abbrev pub payment_receive_timeout : ℕ
payment_receive_timeout = 259200

-- `checked_duration_since`
unfoldable pub elapsed : ℕ → ℕ → Option ℕ
elapsed now received = if leb received now then some (now - received) else none

unfoldable pub longer_than : ℕ → Option ℕ → Bool
longer_than limit none = false
longer_than limit (some elapsed) = ltb limit elapsed

-- Whether an item is given up for its age alone.
unfoldable pub has_timed_out : ℕ → ℕ → SystemChain → ToValidate → Bool
unfolding elapsed longer_than
has_timed_out now our_address chain item =
    let age = elapsed now item.received in
    if longer_than payment_receive_timeout age
    then true
    else item.payment.from.eth_address == our_address
      && longer_than eth_payment_send_timeout age
      && not (is_althea_l1 chain)

module _ (now our_address : ℕ) (chain : SystemChain) where
  -- The items that the loop pushes to `to_delete`, and those that it makes futures of.
  unfoldable pub timed_out_items : List ToValidate → List (ToValidate × Bool)
  unfolding has_timed_out
  timed_out_items [] = []
  timed_out_items (item ∷ items) =
      let rest = timed_out_items items in
      if has_timed_out now our_address chain item then (item, false) ∷ rest else rest

  unfoldable pub futures : List ToValidate → List ToValidate
  unfolding has_timed_out
  futures [] = []
  futures (item ∷ items) =
      let rest = futures items in
      if has_timed_out now our_address chain item then rest else item ∷ rest

-- The answers of the two requests to an xDai node, each `none` where the request fails or the node
-- does not know the transaction.
pub record XdaiAnswer : Type 0 where
  pub transaction : Option TransactionResponse
  pub block_number : Option ℕ

pub record Answer : Type 0 where
  pub xdai : XdaiAnswer
  pub althea : AltheaAnswer

unfoldable pub handle_xdai_tx_checking :
    Num256 → PaymentSettings → ℕ → XdaiAnswer → ToValidate → Action Books Verdict
handle_xdai_tx_checking n payment now answer ts = elim answer.transaction [
  | none ↦ pure none
  | some transaction ↦ elim answer.block_number [
    | none ↦ pure none
    | some block_num ↦ handle_tx_messaging_xdai n payment now transaction ts block_num
  ]
]

-- The results of a list of futures, those of them that are `Some`.
unfoldable pub collect_results :
    (ToValidate → Action Books Verdict) → List ToValidate → Action Books (List (ToValidate × Bool))
collect_results validate [] = pure []
collect_results validate (ts ∷ futs) = do
  verdict ← validate ts
  results ← collect_results validate futs
  pure (elim verdict [ none ↦ results | some result ↦ result ∷ results ])

unfoldable pub queue_all : List ToValidate → PaymentValidator → PaymentValidator
queue_all [] v = v
queue_all (ts ∷ payments) v = queue_all payments (add_to_validation_queue ts v).1

unfoldable pub remove_all : ℕ → List (ToValidate × Bool) → PaymentValidator → PaymentValidator
remove_all our_address [] v = v
remove_all our_address ((tx, success) ∷ to_delete) v =
    remove_all our_address to_delete (remove tx our_address success v).0

module _ (n : Num256) (payment : PaymentSettings) (now : ℕ) (our_id : Option Identity)
    (parse : String → Option ℕ) (althea_address : Identity → ℕ) (development : Bool) where
  unfoldable pub validate_transaction : Answer → SystemChain → ToValidate → Action Books Verdict
  validate_transaction answer chain ts =
      if is_althea_l1 chain
      then handle_althea_tx_checking n payment now our_id parse althea_address development
          answer.althea ts
      else handle_xdai_tx_checking n payment now answer.xdai ts

module _ (validate : ToValidate → Action Books Verdict) (now : ℕ) (chain : SystemChain) where
  -- From the check for an empty queue on.
  unfoldable pub judge_all :
      ℕ
      → PaymentValidator
      → List ToValidate
      → Action (PaymentValidator × Books) (List (Identity × List PaymentTx))
  unfolding run_batches timed_out_items futures collect_results remove_all
  judge_all our_address v [] (_, b) = (ok v.previously_sent_payments, (v, b))
  judge_all our_address v (item ∷ items) (_, b) =
      let futs = run_batches [] (futures now our_address chain (item ∷ items)) in
      let (results, b') = collect_results validate futs b in
      elim results [
        | ok validated ↦
            (let v' =
                remove_all our_address
                  (timed_out_items now our_address chain (item ∷ items) ++ validated) v in
              (ok v'.previously_sent_payments, (v', b')))
        | err e ↦ (err e, (v, b'))
        | panic ↦ (panic, (v, b'))
      ]

  -- The payments to replay to each node.
  unfoldable pub tick_payment_validator :
      Option ℕ
      → List ToValidate
      → List ToValidate
      → Action (PaymentValidator × Books) (List (Identity × List PaymentTx))
  unfolding queue_all judge_all
  tick_payment_validator eth_address outgoing_payments incoming (v, b) =
      let queued = queue_all (outgoing_payments ++ incoming) v in
      elim eth_address [
        | none ↦ (panic, (queued, b))
        | some our_address ↦
            judge_all our_address queued queued.unvalidated_transactions (queued, b)
      ]
