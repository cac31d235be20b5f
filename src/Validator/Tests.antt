-- ===== src/Validator/Tests.antt =====
-- The payment validator's theorems at concrete payments, and runs of its functions.
use rita.Common.{◌<◌, ◌≡◌, refl, inl, true, none, some, [], ◌∷◌, arith}
use rita.Common.Int.{pos, negsuc, ◌+ℤ◌}
use rita.Common.Map.{insert, lookup}
use rita.Types.{PaymentTx, identity_eq}
use rita.Num256.{uint256_limit, int256_limit}
use rita.Num256.Checked.{checked}
use rita.Outcome.{ok, err, duplicate_payment}
use rita.Samples.{alice, bob, us, settings}
use rita.DebtKeeper.Node.{new}
use rita.DebtKeeper.Node.Credit.{Fits}
use rita.DebtKeeper.Keeper.{entry}
use rita.Validator.State
use rita.Validator.State.{
  ToValidate, PaymentValidator, is_consistent, add_to_validation_queue, remove,
  check_for_duplicates,
}
use rita.Validator.State.Replay.{queues, removes, run, settled_never_queued}
use rita.Validator.Chain.{
  Books, TransactionFields, eip1559, legacy, get_xdai_transaction_details, handle_tx_messaging_xdai,
}
use rita.Validator.Chain.Verdict.{IsGood, accepts_only_verified, sender_unchecked}
use rita.Validator.Chain.Credit.{good_payment_credits}

abbrev from_alice : PaymentTx
from_alice = record { to = us; from = alice; amount = 30; txid = 501 }

abbrev to_bob : PaymentTx
to_bob = record { to = bob; from = us; amount = 70; txid = 502 }

abbrev pub waiting : ToValidate
waiting = record { payment = from_alice; received = 1000; timeout_block = none }

abbrev pub sending : ToValidate
sending = record { payment = to_bob; received = 1000; timeout_block = none }

-- The payment of `waiting` again, from a playback.
abbrev pub replayed : ToValidate
replayed = record waiting { received = 2000 }

abbrev pub both : PaymentValidator
both = record {
  unvalidated_transactions = sending ∷ waiting ∷ [];
  previously_sent_payments = [];
  successful_transactions = [];
}

pub both_consistent : is_consistent both ≡ true
unfolding is_consistent State.scan State.waiting_txids State.sent_txids
both_consistent = refl

settled_never_queued_example :
    let w = run (removes sending 19 true ∷ queues replayed ∷ []) (remove waiting 19 true both).0 in
    add_to_validation_queue replayed w ≡ (err duplicate_payment, w)
settled_never_queued_example =
    settled_never_queued waiting replayed 19 (removes sending 19 true ∷ queues replayed ∷ []) both
      refl

-- A settled payment is kept for playback if we sent it, and else to refuse it when it comes back.
settled_both : (remove sending 19 true (remove waiting 19 true both).0).0 ≡ record {
  unvalidated_transactions = [];
  previously_sent_payments = (bob, to_bob ∷ []) ∷ [];
  successful_transactions = from_alice ∷ [];
}
unfolding remove State.remove_item insert State.insert_item State.to_validate_eq lookup identity_eq
settled_both = refl

abbrev paid : TransactionFields
paid = record { to = some 19; from = 11; value = 30; block_number = some 90 }

-- Alice owes us 100.
abbrev pub books : Books
books = record {
  billing = record {
    debt_keeper = record {
      last_save = none;
      debt_data = (alice, record new { debt = negsuc 99 }) ∷ [];
    };
    amount_owed = 0;
  };
  reported = [];
}

low : 100 < uint256_limit
unfolding uint256_limit
low = omega arith

-- What Bob sent is credited to Alice all the same, also by a transaction of another kind.
sender_unchecked_example :
    handle_tx_messaging_xdai checked settings 0
      (eip1559 (record paid { from = 12 }))
      waiting
      100
      books
    ≡ handle_tx_messaging_xdai checked settings 0 (legacy paid) waiting 100 books
unfolding get_xdai_transaction_details
sender_unchecked_example =
    sender_unchecked checked settings 0 (eip1559 (record paid { from = 12 })) (legacy paid) waiting
      19 100 books refl refl refl refl (ground arith) (ground arith)

paid-Fits : Fits 30 (entry alice books.billing.debt_keeper.debt_data)
unfolding entry lookup identity_eq int256_limit uint256_limit
paid-Fits = omega arith

good_payment_credits_example :
    let c = (handle_tx_messaging_xdai checked settings 0 (legacy paid) waiting 100 books).1 in
    let r = (handle_tx_messaging_xdai checked settings 0 (legacy paid) waiting 100 books).0 in
    let before = entry alice books.billing.debt_keeper.debt_data in
    let after = entry alice c.billing.debt_keeper.debt_data in
    (r ≡ ok (some (waiting, true)))
    × (after.debt +ℤ pos after.incoming_payments
        ≡ before.debt +ℤ pos before.incoming_payments +ℤ pos 30)
    × (entry bob c.billing.debt_keeper.debt_data ≡ entry bob books.billing.debt_keeper.debt_data)
    × (c.reported ≡ from_alice ∷ [])
unfolding get_xdai_transaction_details identity_eq
good_payment_credits_example =
    good_payment_credits checked settings 0 (legacy paid) waiting 19 100 bob books refl low
      (refl, (90, refl, omega arith, omega arith), inl (refl, ground arith)) refl paid-Fits refl

accepted :
    (handle_tx_messaging_xdai checked settings 0 (legacy paid) waiting 100 books).0
    ≡ ok (some (waiting, true))
unfolding get_xdai_transaction_details identity_eq
accepted =
    (good_payment_credits checked settings 0 (legacy paid) waiting 19 100 bob books refl low
      (refl, (90, refl, omega arith, omega arith), inl (refl, ground arith)) refl paid-Fits refl).0

accepts_only_verified_example : (waiting ≡ waiting) × IsGood checked settings 0 19 paid waiting 100
unfolding get_xdai_transaction_details
accepts_only_verified_example =
    accepts_only_verified checked settings 0 (legacy paid) waiting waiting 19 100 books refl low
      accepted
