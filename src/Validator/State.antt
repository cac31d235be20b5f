-- ===== src/Validator/State.antt =====
-- `PaymentValidator` and its methods. A HashSet is a list of items of which no two are equal; the
-- order stands for the order of iteration. `ToValidate` and `PaymentTx` hash by txid but compare
-- by all their fields, so a set can hold two items of one txid.
pub mod Consistent
pub mod Preserve
pub mod Replay
use rita.Common.{
  ℕ, Bool, true, false, not, ◌&&◌, ◌||◌, Option, none, some, List, [], ◌∷◌, ◌++◌, ◌==◌,
  if◌then◌else◌,
}
use rita.Common.Map.{insert, lookup}
use rita.Types.{Identity, identity_eq, identity_key, PaymentTx}
use rita.Outcome.{Result, ok, err, duplicate_payment}

pub record ToValidate : Type 0 where
  pub payment : PaymentTx
  pub received : ℕ
  pub timeout_block : Option ℕ

pub record PaymentValidator : Type 0 where
  pub unvalidated_transactions : List ToValidate
  pub previously_sent_payments : List (Identity × List PaymentTx)
  pub successful_transactions : List PaymentTx

unfoldable pub new : PaymentValidator
new = record {
  unvalidated_transactions = [];
  previously_sent_payments = [];
  successful_transactions = [];
}

-- The derived equalities.
unfoldable pub payment_eq : PaymentTx → PaymentTx → Bool
payment_eq a b =
    identity_eq a.to b.to && identity_eq a.from b.from && a.amount == b.amount && a.txid == b.txid

abbrev option_eq : Option ℕ → Option ℕ → Bool
option_eq none none = true
option_eq none (some b) = false
option_eq (some a) none = false
option_eq (some a) (some b) = a == b

unfoldable pub to_validate_eq : ToValidate → ToValidate → Bool
unfolding payment_eq
to_validate_eq a b =
    payment_eq a.payment b.payment
    && a.received == b.received
    && option_eq a.timeout_block b.timeout_block

-- `HashSet::insert`, `HashSet::remove` with its result.
module _ {A : Type 0} (eqb : A → A → Bool) where
  unfoldable pub member : A → List A → Bool
  member a [] = false
  member a (x ∷ xs) = eqb x a || member a xs

  unfoldable pub insert_item : A → List A → List A
  unfolding member
  insert_item a xs = if member a xs then xs else a ∷ xs

  unfoldable pub remove_item : A → List A → List A
  remove_item a [] = []
  remove_item a (x ∷ xs) = if eqb x a then xs else x ∷ remove_item a xs

-- The txids in the order in which `is_consistent` and `check_for_duplicates` go through them.
unfoldable pub waiting_txids : List ToValidate → List ℕ
waiting_txids [] = []
waiting_txids (tx ∷ txs) = tx.payment.txid ∷ waiting_txids txs

unfoldable pub txids : List PaymentTx → List ℕ
txids [] = []
txids (tx ∷ txs) = tx.txid ∷ txids txs

unfoldable pub sent_txids : List (Identity × List PaymentTx) → List ℕ
unfolding txids
sent_txids [] = []
sent_txids ((_, txs) ∷ rest) = txids txs ++ sent_txids rest

unfoldable pub contains : List ℕ → ℕ → Bool
contains [] a = false
contains (x ∷ xs) a = x == a || contains xs a

-- A loop of `is_consistent`: `none` where a txid was seen before, and else the txids seen.
unfoldable pub scan : List ℕ → List ℕ → Option (List ℕ)
unfolding contains
scan seen [] = some seen
scan seen (x ∷ xs) = let rest = scan (x ∷ seen) xs in if contains seen x then none else rest

unfoldable pub is_consistent : PaymentValidator → Bool
is_consistent v = elim (scan [] (waiting_txids v.unvalidated_transactions)) [
  | none ↦ false
  | some seen ↦ elim (scan seen (sent_txids v.previously_sent_payments)) [
    | none ↦ false
    | some seen' ↦ elim (scan seen' (txids v.successful_transactions)) [
      | none ↦ false
      | some _ ↦ true
    ]
  ]
]

unfoldable pub check_for_duplicates : PaymentValidator → ToValidate → Bool
check_for_duplicates v tx =
    contains
      (waiting_txids v.unvalidated_transactions
        ++ (sent_txids v.previously_sent_payments ++ txids v.successful_transactions))
      tx.payment.txid

unfoldable pub add_to_validation_queue :
    ToValidate → PaymentValidator → Result (Unit {0}) × PaymentValidator
add_to_validation_queue ts v =
    if not (check_for_duplicates v ts)
    then (
      ok tt,
      record v {
        unvalidated_transactions = insert_item to_validate_eq ts v.unvalidated_transactions;
      },
    )
    else (err duplicate_payment, v)

-- `entry(to).or_default()`
unfoldable pub sent_to : Identity → List (Identity × List PaymentTx) → List PaymentTx
sent_to to m = elim (lookup identity_key to m) [ none ↦ [] | some txs ↦ txs ]

-- Where a payment goes when it is settled.
unfoldable pub store : PaymentTx → ℕ → Bool → PaymentValidator → PaymentValidator
unfolding sent_to
store p our_address false v = v
store p our_address true v =
    if p.from.eth_address == our_address
    then record v {
      previously_sent_payments =
          insert identity_key p.to
            (insert_item payment_eq p (sent_to p.to v.previously_sent_payments))
            v.previously_sent_payments;
    }
    else record v { successful_transactions = insert_item payment_eq p v.successful_transactions }

-- The second part says whether the call only logs, or warns of an item that was not there or of an
-- inconsistent state (and panics in a development build).
unfoldable pub remove : ToValidate → ℕ → Bool → PaymentValidator → PaymentValidator × Bool
unfolding store
remove tx our_address success v =
    let was_present = member to_validate_eq tx v.unvalidated_transactions in
    let v' = store tx.payment our_address success (record v {
      unvalidated_transactions = remove_item to_validate_eq tx v.unvalidated_transactions;
    }) in
    (v', was_present && is_consistent v')
