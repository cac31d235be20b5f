-- ===== src/Usage.antt =====
-- rita_common/src/usage_tracker: what was used by the hour, and which payments were made. Sums of
-- bytes wrap around at 64 bits, as in the release build.
pub mod Trim
pub mod Hours
pub mod Payments
pub mod Save
pub mod Throughput
mod Tests
use rita.Common.{
  ℕ, suc, zero, ◌+◌, ◌-◌, ◌/◌, ◌%◌, ◌^◌, Bool, true, false, ◌&&◌, ◌||◌, Option, none, some, List,
  [], ◌∷◌, arith, ltb, leb, ◌==◌, if◌then◌else◌, ◌≡◌,
}
use rita.Common.Map.{Key, lookup, insert, nat_key}
use rita.Types.{Identity, identity_eq, PaymentTx}
use rita.Validator.State.{remove_item, insert_item}

abbrev pub max_usage_entries : ℕ
max_usage_entries = 8_760

abbrev pub max_tx_entries : ℕ
max_tx_entries = 5_000

abbrev pub max_unsaved_usage : ℕ
max_unsaved_usage = 10_000_000_000

pub data UsageType : Type 0 where
  client relay exit : UsageType

-- `up` and `down` in bytes.
pub record Usage : Type 0 where
  pub up : ℕ
  pub down : ℕ
  pub price : ℕ

pub record UpdateUsage : Type 0 where
  pub kind : UsageType
  pub up : ℕ
  pub down : ℕ
  pub price : ℕ

pub record UsageTrackerPayment : Type 0 where
  pub to : Identity
  pub from : Identity
  pub amount : ℕ
  pub txid : ℕ
  pub index : ℕ

abbrev pub History : Type 0
History = List (ℕ × Usage)

pub record UsageTrackerStorage : Type 0 where
  pub last_save_hour : ℕ
  pub client_bandwidth : History
  pub relay_bandwidth : History
  pub exit_bandwidth : History
  pub payments : List UsageTrackerPayment

unfoldable pub add_u64 : ℕ → ℕ → ℕ
add_u64 a b = (a + b) % 2 ^ 64

-- The loops that drop the oldest entry while there are too many: the first of those with the
-- smallest index, which is then removed as an equal item.
module _ {A : Type 0} (index : A → ℕ) (eqb : A → A → Bool) where
  abbrev pub length : List A → ℕ
  length [] = 0
  length (x ∷ xs) = suc (length xs)

  unfoldable pub min_by : List A → Option A
  min_by [] = none
  min_by (x ∷ xs) = elim (min_by xs) [
    | none ↦ some x
    | some m ↦ if leb (index x) (index m) then some x else some m
  ]

  unfoldable pub remove_oldest : List A → List A
  unfolding min_by
  remove_oldest xs = elim (min_by xs) [ none ↦ xs | some oldest ↦ remove_item eqb oldest xs ]

  -- For at most so many rounds.
  unfoldable pub trim : ℕ → ℕ → List A → List A
  trim max zero xs = xs
  trim max (suc rounds) xs = elim (ltb max (length xs)) [
    | true ↦ trim max rounds (remove_oldest xs)
    | false ↦ xs
  ]

abbrev pub entry_hour : ℕ × Usage → ℕ
entry_hour (hour, usage) = hour

abbrev pub entry_eq : ℕ × Usage → ℕ × Usage → Bool
entry_eq (a, x) (b, y) = a == b

unfoldable pub add_usage : ℕ → UpdateUsage → History → History
unfolding add_u64
add_usage current_hour msg history = elim (lookup nat_key current_hour history) [
  | none ↦
      insert nat_key current_hour (record { up = msg.up; down = msg.down; price = msg.price })
        history
  | some entry ↦
      insert nat_key current_hour
        (record entry { up = add_u64 entry.up msg.up; down = add_u64 entry.down msg.down }) history
]

-- As many rounds as there are entries are enough.
unfoldable pub update_history : ℕ → UpdateUsage → History → History
unfolding add_usage
update_history current_hour msg history =
    let added = add_usage current_hour msg history in
    trim entry_hour entry_eq max_usage_entries (length entry_hour entry_eq added) added

unfoldable pub process_usage_update : ℕ → UpdateUsage → UsageTrackerStorage → UsageTrackerStorage
unfolding update_history
process_usage_update current_hour msg s = elim msg.kind [
  | client ↦ record s { client_bandwidth = update_history current_hour msg s.client_bandwidth }
  | relay ↦ record s { relay_bandwidth = update_history current_hour msg s.relay_bandwidth }
  | exit ↦ record s { exit_bandwidth = update_history current_hour msg s.exit_bandwidth }
]

-- The derived equality.
unfoldable pub tracker_payment_eq : UsageTrackerPayment → UsageTrackerPayment → Bool
tracker_payment_eq a b =
    identity_eq a.to b.to
    && identity_eq a.from b.from
    && a.amount == b.amount
    && a.txid == b.txid
    && a.index == b.index

unfoldable pub from_payment_tx : PaymentTx → ℕ → UsageTrackerPayment
from_payment_tx input index = record {
  to = input.to;
  from = input.from;
  amount = input.amount;
  txid = input.txid;
  index = index;
}

abbrev pub payment_index : UsageTrackerPayment → ℕ
payment_index p = p.index

-- Whether the history has a payment of this txid.
unfoldable pub has_txid : ℕ → List UsageTrackerPayment → Bool
has_txid a [] = false
has_txid a (p ∷ ps) = p.txid == a || has_txid a ps

unfoldable pub handle_payments : ℕ → PaymentTx → UsageTrackerStorage → UsageTrackerStorage
unfolding from_payment_tx
handle_payments current_hour payment s =
    let added = insert_item tracker_payment_eq (from_payment_tx payment current_hour) s.payments in
    record s {
      payments =
          trim payment_index tracker_payment_eq max_tx_entries
            (length payment_index tracker_payment_eq added) added;
    }

unfoldable pub update_payments : ℕ → PaymentTx → UsageTrackerStorage → UsageTrackerStorage
unfolding has_txid handle_payments
update_payments current_hour payment s =
    if has_txid payment.txid s.payments then s else handle_payments current_hour payment s
