-- ===== src/Validator/State/Replay.antt =====
-- Runs of the validator's methods, and payments that come back.
use rita.Common.{
  ℕ, ◌≡◌, refl, Bool, true, false, ◌||◌, List, [], ◌∷◌, ◌++◌, arith, Bool-cases, inl, inr,
}
use rita.Common.Map.{insert, lookup}
use rita.Types.{Identity, identity_key, PaymentTx}
use rita.Outcome.{ok, err, duplicate_payment}
use rita.Validator.State.{
  PaymentValidator, ToValidate, payment_eq, to_validate_eq, member, insert_item, remove_item,
  waiting_txids, sent_txids, txids, contains, is_consistent, check_for_duplicates,
  add_to_validation_queue, sent_to, store, remove,
}
use rita.Validator.State.Consistent.{all_txids, count, contains-count, is_consistent_iff}
use rita.Validator.State.Preserve.{count-all, count-remove_item}

-- What is done with the state.
pub data Op : Type 0 where
  queues : ToValidate → Op
  removes : ToValidate → ℕ → Bool → Op

abbrev pub apply : Op → PaymentValidator → PaymentValidator
apply (queues ts) v = (add_to_validation_queue ts v).1
apply (removes tx our_address success) v = (remove tx our_address success v).0

abbrev pub run : List Op → PaymentValidator → PaymentValidator
run [] v = v
run (op ∷ ops) v = run ops (apply op v)

contains-append :
    (a : ℕ) (xs ys : List ℕ) → contains (xs ++ ys) a ≡ (contains xs a || contains ys a)
unfolding contains
contains-append a [] ys = refl
contains-append a (x ∷ xs) ys = ground (arith, contains-append a xs ys)

-- A txid among the payments that are settled, sent or received.
abbrev IsSettled : ℕ → PaymentValidator → Type 0
IsSettled a v =
    (contains (sent_txids v.previously_sent_payments) a
      || contains (txids v.successful_transactions) a)
    ≡ true

contains-insert_item :
    (a : ℕ) (p : PaymentTx) (xs : List PaymentTx)
    → contains (txids xs) a ≡ true
    → contains (txids (insert_item payment_eq p xs)) a ≡ true
unfolding insert_item txids contains
contains-insert_item a p xs h = ground arith

member-txid :
    (p : PaymentTx) (xs : List PaymentTx)
    → member payment_eq p xs ≡ true
    → contains (txids xs) p.txid ≡ true
unfolding member payment_eq txids contains
member-txid p [] h = cc
member-txid p (x ∷ xs) h = ground (arith, member-txid p xs)

contains-insert_item_self :
    (p : PaymentTx) (xs : List PaymentTx)
    → contains (txids (insert_item payment_eq p xs)) p.txid ≡ true
unfolding insert_item txids contains
contains-insert_item_self p xs = ground (arith, member-txid p xs)

contains-sent :
    (a : ℕ) (p : PaymentTx) (m : List (Identity × List PaymentTx))
    → contains (sent_txids m) a ≡ true
    → contains
        (sent_txids (insert identity_key p.to (insert_item payment_eq p (sent_to p.to m)) m))
        a
      ≡ true
unfolding insert lookup sent_to sent_txids contains
contains-sent a p [] h = cc
contains-sent a p ((k, txs) ∷ m) h = ground (
  arith,
  contains-append a (txids txs) (sent_txids m),
  contains-append a (txids (insert_item payment_eq p txs)) (sent_txids m),
  contains-append a (txids txs)
      (sent_txids (insert identity_key p.to (insert_item payment_eq p (sent_to p.to m)) m)),
  contains-insert_item a p txs,
  contains-sent a p m,
)

contains-sent_self :
    (p : PaymentTx) (m : List (Identity × List PaymentTx))
    → contains
        (sent_txids (insert identity_key p.to (insert_item payment_eq p (sent_to p.to m)) m))
        p.txid
      ≡ true
unfolding insert lookup sent_to sent_txids contains
contains-sent_self p [] = ground (
  arith,
  contains-append p.txid (txids (insert_item payment_eq p [])) [],
  contains-insert_item_self p [],
)
contains-sent_self p ((k, txs) ∷ m) = ground (
  arith,
  contains-append p.txid (txids (insert_item payment_eq p txs)) (sent_txids m),
  contains-append p.txid (txids txs)
      (sent_txids (insert identity_key p.to (insert_item payment_eq p (sent_to p.to m)) m)),
  contains-insert_item_self p txs,
  contains-sent_self p m,
)

store-IsSettled :
    (a our_address : ℕ) (p : PaymentTx) (success : Bool) (v : PaymentValidator)
    → IsSettled a v
    → IsSettled a (store p our_address success v)
unfolding store
store-IsSettled a our_address p success v h = ground (
  arith,
  contains-sent a p v.previously_sent_payments,
  contains-insert_item a p v.successful_transactions,
)

store-IsSettled_self :
    (our_address : ℕ) (p : PaymentTx) (v : PaymentValidator)
    → IsSettled p.txid (store p our_address true v)
unfolding store
store-IsSettled_self our_address p v = ground (
  arith,
  contains-sent_self p v.previously_sent_payments,
  contains-insert_item_self p v.successful_transactions,
)

left : ToValidate → PaymentValidator → PaymentValidator
left tx v = record v {
  unvalidated_transactions = remove_item to_validate_eq tx v.unvalidated_transactions;
}

apply-IsSettled :
    (a : ℕ) (op : Op) (v : PaymentValidator) → IsSettled a v → IsSettled a (apply op v)
unfolding add_to_validation_queue remove left
apply-IsSettled a (queues ts) v h = ground arith
apply-IsSettled a (removes tx our_address success) v h =
    store-IsSettled a our_address tx.payment success (left tx v) h

run-IsSettled :
    (a : ℕ) (ops : List Op) (v : PaymentValidator) → IsSettled a v → IsSettled a (run ops v)
run-IsSettled a [] v h = h
run-IsSettled a (op ∷ ops) v h = run-IsSettled a ops (apply op v) (apply-IsSettled a op v h)

IsSettled-refused :
    (ts : ToValidate) (v : PaymentValidator)
    → IsSettled ts.payment.txid v
    → add_to_validation_queue ts v ≡ (err duplicate_payment, v)
unfolding add_to_validation_queue check_for_duplicates
IsSettled-refused ts v h = ground (
  arith,
  contains-append ts.payment.txid (waiting_txids v.unvalidated_transactions)
      (sent_txids v.previously_sent_payments ++ txids v.successful_transactions),
  contains-append ts.payment.txid (sent_txids v.previously_sent_payments)
      (txids v.successful_transactions),
)

-- Once a payment is settled, no payment with its txid is queued again, whatever is queued, settled
-- or dropped in the meantime and whatever else the second payment says: the call reports a
-- duplicate and changes nothing.
pub settled_never_queued :
    (tx ts : ToValidate) (our_address : ℕ) (ops : List Op) (v : PaymentValidator)
    → ts.payment.txid ≡ tx.payment.txid
    → let w = run ops (remove tx our_address true v).0 in
      add_to_validation_queue ts w ≡ (err duplicate_payment, w)
unfolding remove left
settled_never_queued tx ts our_address ops v same =
    let w = run ops (remove tx our_address true v).0 in
    let settled =
      run-IsSettled tx.payment.txid ops (remove tx our_address true v).0
        (store-IsSettled_self our_address tx.payment (left tx v)) in
    IsSettled-refused ts w (rw same settled)

waiting-member :
    (tx : ToValidate) (xs : List ToValidate)
    → member to_validate_eq tx xs ≡ true
    → contains (waiting_txids xs) tx.payment.txid ≡ true
unfolding member to_validate_eq waiting_txids contains
waiting-member tx [] h = cc
waiting-member tx (x ∷ xs) h = ground (arith, waiting-member tx xs)

waiting-insert_item :
    (tx : ToValidate) (xs : List ToValidate)
    → contains (waiting_txids (insert_item to_validate_eq tx xs)) tx.payment.txid ≡ true
unfolding insert_item waiting_txids contains
waiting-insert_item tx xs = ground (arith, waiting-member tx xs)

-- Queueing is idempotent: a second payment with the txid of one that was just queued or refused is
-- refused, and the state stays as the first call left it.
pub queue_twice :
    (tx ts : ToValidate) (v : PaymentValidator)
    → ts.payment.txid ≡ tx.payment.txid
    → let w = (add_to_validation_queue tx v).1 in
      add_to_validation_queue ts w ≡ (err duplicate_payment, w)
unfolding add_to_validation_queue check_for_duplicates
queue_twice tx ts v same =
    let others = sent_txids v.previously_sent_payments ++ txids v.successful_transactions in
    ground (
      arith,
      waiting-insert_item tx v.unvalidated_transactions,
      contains-append tx.payment.txid (waiting_txids v.unvalidated_transactions) others,
      contains-append tx.payment.txid
          (waiting_txids (insert_item to_validate_eq tx v.unvalidated_transactions)) others,
    )

contains-of_count : (a : ℕ) (xs : List ℕ) → count a xs ≡ 0 → contains xs a ≡ false
contains-of_count a xs h = elim (Bool-cases (contains xs a)) [
  | inl yes' ↦ absurd (omega (arith, contains-count a xs yes'))
  | inr none_there ↦ none_there
]

-- A payment that is dropped may be tried again: where it waited in a consistent state its txid is
-- free afterwards.
pub dropped_may_return :
    (tx ts : ToValidate) (our_address : ℕ) (v : PaymentValidator)
    → is_consistent v ≡ true
    → member to_validate_eq tx v.unvalidated_transactions ≡ true
    → ts.payment.txid ≡ tx.payment.txid
    → (add_to_validation_queue ts (remove tx our_address false v).0).0 ≡ ok tt
unfolding add_to_validation_queue check_for_duplicates remove left
dropped_may_return tx ts our_address v c h same =
    let a = tx.payment.txid in
    let gone : count a (all_txids (left tx v)) ≡ 0 = ground (
      arith,
      (is_consistent_iff v).0 c a,
      count-all a v,
      count-all a (left tx v),
      count-remove_item a tx v.unvalidated_transactions h,
    ) in
    ground (arith, contains-of_count a (all_txids (left tx v)) gone, same)
