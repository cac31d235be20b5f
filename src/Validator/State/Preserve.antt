-- ===== src/Validator/State/Preserve.antt =====
-- How often a txid is known before and after each method.
use rita.Common.{
  ℕ, ◌+◌, ◌≤◌, ◌≡◌, Bool, true, false, List, [], ◌∷◌, ◌++◌, arith, ◌==◌, Bool-cases, inl, inr,
}
use rita.Common.Map.{insert, lookup}
use rita.Types.{Identity, identity_key, PaymentTx}
use rita.Validator.State.{
  PaymentValidator, ToValidate, payment_eq, to_validate_eq, member, insert_item, remove_item,
  waiting_txids, sent_txids, txids, is_consistent, check_for_duplicates, add_to_validation_queue,
  sent_to, store, remove,
}
use rita.Validator.State.Consistent.{
  all_txids, one_if, count, Once, count-append, count-contains, is_consistent_iff,
}

pub same_txid : (x tx : ToValidate) → to_validate_eq x tx ≡ true → x.payment.txid ≡ tx.payment.txid
unfolding to_validate_eq
same_txid x tx h = ground arith

pub count-remove_item :
    (a : ℕ) (tx : ToValidate) (xs : List ToValidate)
    → member to_validate_eq tx xs ≡ true
    → one_if (tx.payment.txid == a) + count a (waiting_txids (remove_item to_validate_eq tx xs))
      ≡ count a (waiting_txids xs)
unfolding member remove_item waiting_txids count
count-remove_item a tx [] h = cc
count-remove_item a tx (x ∷ xs) h = elim (Bool-cases (to_validate_eq x tx)) [
  | inl same ↦ rw same (ground (arith, same_txid x tx same))
  | inr other ↦ rw other (ground (arith, count-remove_item a tx xs))
]

count-insert_waiting :
    (a : ℕ) (tx : ToValidate) (xs : List ToValidate)
    → count a (waiting_txids (insert_item to_validate_eq tx xs))
      ≤ one_if (tx.payment.txid == a) + count a (waiting_txids xs)
unfolding insert_item waiting_txids count
count-insert_waiting a tx xs = ground arith

count-insert_item :
    (a : ℕ) (p : PaymentTx) (xs : List PaymentTx)
    → count a (txids (insert_item payment_eq p xs)) ≤ one_if (p.txid == a) + count a (txids xs)
unfolding insert_item txids count
count-insert_item a p xs = ground arith

count-sent :
    (a : ℕ) (p : PaymentTx) (m : List (Identity × List PaymentTx))
    → count a (sent_txids (insert identity_key p.to (insert_item payment_eq p (sent_to p.to m)) m))
      ≤ one_if (p.txid == a) + count a (sent_txids m)
unfolding insert lookup sent_to sent_txids txids count
count-sent a p [] =
    omega (arith, count-append a (txids (insert_item payment_eq p [])) [], count-insert_item a p [])
count-sent a p ((k, txs) ∷ m) = ground (
  arith,
  count-append a (txids (insert_item payment_eq p txs)) (sent_txids m),
  count-append a (txids txs) (sent_txids m),
  count-insert_item a p txs,
  count-sent a p m,
  count-append a (txids txs)
      (sent_txids (insert identity_key p.to (insert_item payment_eq p (sent_to p.to m)) m)),
)

-- How often the three collections together know a txid.
pub count-all :
    (a : ℕ) (v : PaymentValidator)
    → count a (all_txids v)
      ≡ count a (waiting_txids v.unvalidated_transactions)
        + (count a (sent_txids v.previously_sent_payments)
            + count a (txids v.successful_transactions))
count-all a v = omega (
  arith,
  count-append a (waiting_txids v.unvalidated_transactions)
      (sent_txids v.previously_sent_payments ++ txids v.successful_transactions),
  count-append a (sent_txids v.previously_sent_payments) (txids v.successful_transactions),
)

count-store :
    (a : ℕ) (p : PaymentTx) (our_address : ℕ) (success : Bool) (v : PaymentValidator)
    → count a (all_txids (store p our_address success v))
      ≤ one_if (p.txid == a) + count a (all_txids v)
unfolding store
count-store a p our_address success v = ground (
  arith,
  count-all a v,
  count-all a (store p our_address success v),
  count-sent a p v.previously_sent_payments,
  count-insert_item a p v.successful_transactions,
)

count-remove :
    (a : ℕ) (tx : ToValidate) (our_address : ℕ) (success : Bool) (v : PaymentValidator)
    → member to_validate_eq tx v.unvalidated_transactions ≡ true
    → count a (all_txids (remove tx our_address success v).0) ≤ count a (all_txids v)
unfolding remove
count-remove a tx our_address success v h =
    let left = record v {
      unvalidated_transactions = remove_item to_validate_eq tx v.unvalidated_transactions;
    } in
    omega (
      arith,
      count-store a tx.payment our_address success left,
      count-all a left,
      count-all a v,
      count-remove_item a tx v.unvalidated_transactions h,
    )

abbrev queued : ToValidate → PaymentValidator → PaymentValidator
queued ts v = record v {
  unvalidated_transactions = insert_item to_validate_eq ts v.unvalidated_transactions;
}

queued-Once :
    (ts : ToValidate) (v : PaymentValidator)
    → Once (all_txids v)
    → check_for_duplicates v ts ≡ false
    → Once (all_txids (queued ts v))
unfolding check_for_duplicates
queued-Once ts v h fresh a = ground (
  arith,
  h a,
  count-contains ts.payment.txid (all_txids v) fresh,
  count-insert_waiting a ts v.unvalidated_transactions,
  count-all a v,
  count-all a (queued ts v),
)

-- Queueing a payment keeps a consistent state consistent, whatever is queued.
pub add_to_validation_queue_consistent :
    (ts : ToValidate) (v : PaymentValidator)
    → is_consistent v ≡ true
    → is_consistent (add_to_validation_queue ts v).1 ≡ true
unfolding add_to_validation_queue
add_to_validation_queue_consistent ts v h = elim (Bool-cases (check_for_duplicates v ts)) [
  | inl known ↦ rw known h
  | inr fresh ↦
      rw fresh
        ((is_consistent_iff (queued ts v)).1 (queued-Once ts v ((is_consistent_iff v).0 h) fresh))
]

-- Removing a payment that waits keeps a consistent state consistent and raises no warning, whether
-- it is settled or dropped and whichever way it went.
pub remove_consistent :
    (tx : ToValidate) (our_address : ℕ) (success : Bool) (v : PaymentValidator)
    → member to_validate_eq tx v.unvalidated_transactions ≡ true
    → is_consistent v ≡ true
    → (is_consistent (remove tx our_address success v).0 ≡ true)
      × ((remove tx our_address success v).1 ≡ true)
remove_consistent tx our_address success v h c =
    let kept = (is_consistent_iff (remove tx our_address success v).0).1 (λ a.
      omega (arith, (is_consistent_iff v).0 c a, count-remove a tx our_address success v h)) in
    (kept, unfold remove in ground (arith, h, kept))
