-- ===== src/Usage/Payments.antt =====
-- The payment history over reports.
use rita.Common.{
  ℕ, zero, suc, ◌≤◌, ◌<◌, ◌≡◌, refl, true, false, List, [], ◌∷◌, arith, Option-cases, inl, inr,
}
use rita.Types.{PaymentTx, identity_eq_refl}
use rita.Validator.State.{member, remove_item, insert_item}
use rita.Validator.State.Consistent.{count, Once}
use rita.Usage.{
  UsageTrackerPayment, UsageTrackerStorage, length, min_by, remove_oldest, trim, tracker_payment_eq,
  from_payment_tx, payment_index, has_txid, handle_payments, update_payments, max_tx_entries,
}
use rita.Usage.Trim.{newer, trim-fits, trim-newer, trim_few}

unfoldable pub tracker_txids : List UsageTrackerPayment → List ℕ
tracker_txids [] = []
tracker_txids (p ∷ ps) = p.txid ∷ tracker_txids ps

abbrev pub kept : List UsageTrackerPayment → ℕ
kept ps = length payment_index tracker_payment_eq ps

payment_eq_refl : (p : UsageTrackerPayment) → tracker_payment_eq p p ≡ true
unfolding tracker_payment_eq
payment_eq_refl p = ground (arith, identity_eq_refl p.to, identity_eq_refl p.from)

payment_eq-index :
    (p q : UsageTrackerPayment) → tracker_payment_eq p q ≡ true → payment_index p ≡ payment_index q
unfolding tracker_payment_eq
payment_eq-index p q h = ground arith

payment_eq-txid : (p q : UsageTrackerPayment) → tracker_payment_eq p q ≡ true → p.txid ≡ q.txid
unfolding tracker_payment_eq
payment_eq-txid p q h = ground arith

count-remove_item :
    (a : ℕ) (m : UsageTrackerPayment) (ps : List UsageTrackerPayment)
    → count a (tracker_txids (remove_item tracker_payment_eq m ps)) ≤ count a (tracker_txids ps)
unfolding count tracker_txids remove_item
count-remove_item a m [] = omega arith
count-remove_item a m (p ∷ ps) = ground (arith, count-remove_item a m ps)

count-remove_oldest :
    (a : ℕ) (ps : List UsageTrackerPayment)
    → count a (tracker_txids (remove_oldest payment_index tracker_payment_eq ps))
      ≤ count a (tracker_txids ps)
unfolding remove_oldest
count-remove_oldest a ps = elim (Option-cases (min_by payment_index tracker_payment_eq ps)) [
  | inl none_left ↦ ground arith
  | inr (m, found) ↦ ground (arith, count-remove_item a m ps)
]

count-trim :
    (a max rounds : ℕ) (ps : List UsageTrackerPayment)
    → count a (tracker_txids (trim payment_index tracker_payment_eq max rounds ps))
      ≤ count a (tracker_txids ps)
unfolding trim
count-trim a max zero ps = omega arith
count-trim a max (suc rounds) ps = ground (
  arith,
  count-trim a max rounds (remove_oldest payment_index tracker_payment_eq ps),
  count-remove_oldest a ps,
)

has_txid-count :
    (a : ℕ) (ps : List UsageTrackerPayment) → has_txid a ps ≡ false → count a (tracker_txids ps) ≡ 0
unfolding has_txid count tracker_txids
has_txid-count a [] h = refl
has_txid-count a (p ∷ ps) h = ground (arith, has_txid-count a ps)

-- Whatever is reported and whatever is dropped, the history knows each txid at most once if it did
-- before.
pub update_payments-Once :
    (current_hour : ℕ) (payment : PaymentTx) (s : UsageTrackerStorage)
    → Once (tracker_txids s.payments)
    → Once (tracker_txids (update_payments current_hour payment s).payments)
unfolding update_payments handle_payments from_payment_tx insert_item count tracker_txids
update_payments-Once current_hour payment s once a =
    let entry = from_payment_tx payment current_hour in
    let added = insert_item tracker_payment_eq entry s.payments in
    ground (
      arith,
      once a,
      has_txid-count payment.txid s.payments,
      count-trim a max_tx_entries (kept added) added,
    )

-- For any hour from which on at most 5000 payments are known, a new one included, all of those are
-- kept when the new one is reported, and at most 5000 in all: the oldest go first.
pub update_payments_trims :
    (current_hour k : ℕ) (payment : PaymentTx) (s : UsageTrackerStorage)
    → has_txid payment.txid s.payments ≡ false
    → newer payment_index k
        (insert_item tracker_payment_eq (from_payment_tx payment current_hour) s.payments)
      ≤ max_tx_entries
    → let added =
        insert_item tracker_payment_eq (from_payment_tx payment current_hour) s.payments in
      let after = (update_payments current_hour payment s).payments in
      (newer payment_index k after ≡ newer payment_index k added) × (kept after ≤ max_tx_entries)
unfolding update_payments handle_payments
update_payments_trims current_hour k payment s fresh few =
    let added = insert_item tracker_payment_eq (from_payment_tx payment current_hour) s.payments in
    rw (update_payments, fresh)
      (
        trim-newer payment_index tracker_payment_eq payment_eq_refl payment_eq-index k
            max_tx_entries (kept added) added few,
        trim-fits payment_index tracker_payment_eq payment_eq_refl payment_eq-index max_tx_entries
            (kept added) added (omega arith),
      )

has_txid-member :
    (p : UsageTrackerPayment) (ps : List UsageTrackerPayment)
    → has_txid p.txid ps ≡ false
    → member tracker_payment_eq p ps ≡ false
unfolding member has_txid
has_txid-member p [] h = refl
has_txid-member p (q ∷ ps) h = ground (arith, has_txid-member p ps, payment_eq-txid q p)

-- A new payment below the bound of 5000 is added to the history, under the hour of its report, and
-- reporting its txid again changes nothing, whatever else the second report says.
pub update_payments_twice :
    (current_hour later : ℕ) (payment again : PaymentTx) (s : UsageTrackerStorage)
    → has_txid payment.txid s.payments ≡ false
    → kept s.payments < max_tx_entries
    → again.txid ≡ payment.txid
    → let after = update_payments current_hour payment s in
      (after.payments ≡ from_payment_tx payment current_hour ∷ s.payments)
      × (update_payments later again after ≡ after)
unfolding update_payments handle_payments insert_item from_payment_tx has_txid
update_payments_twice current_hour later payment again s fresh few same =
    let entry = from_payment_tx payment current_hour in
    let added = entry ∷ s.payments in
    let shape : (update_payments current_hour payment s) ≡ record s { payments = added } = ground (
      arith,
      has_txid-member entry s.payments,
      trim_few payment_index tracker_payment_eq payment_eq_refl payment_eq-index max_tx_entries
          (kept added) added,
    ) in
    rw shape (refl, ground arith)
