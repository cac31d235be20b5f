-- ===== src/Usage/Hours.antt =====
-- The usage by the hour: what an update adds, and what it drops.
use rita.Common.{ℕ, ◌≤◌, ◌≡◌, refl, true, Option, none, some, arith, ◌==◌, if◌then◌else◌}
use rita.Common.Map.{lookup, lookup-insert, nat_key}
use rita.Usage.{
  Usage, UpdateUsage, UsageType, UsageTrackerStorage, client, relay, exit, History, length,
  entry_hour, entry_eq, add_u64, add_usage, update_history, process_usage_update, max_usage_entries,
}
use rita.Usage.Trim.{newer, trim-fits, trim-newer, trim_few}

abbrev pub bandwidth : UsageType → UsageTrackerStorage → History
bandwidth client s = s.client_bandwidth
bandwidth relay s = s.relay_bandwidth
bandwidth exit s = s.exit_bandwidth

abbrev pub entries : History → ℕ
entries history = length entry_hour entry_eq history

-- An hour's usage after an update: the price is that of the first update of the hour.
abbrev pub added_to : Option Usage → UpdateUsage → Usage
added_to none msg = record { up = msg.up; down = msg.down; price = msg.price }
added_to (some entry) msg = record entry {
  up = add_u64 entry.up msg.up;
  down = add_u64 entry.down msg.down;
}

entry_eq_refl : (x : ℕ × Usage) → entry_eq x x ≡ true
entry_eq_refl (a, x) = ground arith

entry_eq-hour : (x y : ℕ × Usage) → entry_eq x y ≡ true → entry_hour x ≡ entry_hour y
entry_eq-hour (a, x) (b, y) h = ground arith

bandwidth-process :
    (current_hour : ℕ) (msg : UpdateUsage) (kind : UsageType) (s : UsageTrackerStorage)
    → msg.kind ≡ kind
    → bandwidth kind (process_usage_update current_hour msg s)
      ≡ update_history current_hour msg (bandwidth kind s)
unfolding process_usage_update
bandwidth-process current_hour msg client s h = ground arith
bandwidth-process current_hour msg relay s h = ground arith
bandwidth-process current_hour msg exit s h = ground arith

lookup-add_usage :
    (current_hour j : ℕ) (msg : UpdateUsage) (history : History) (found : Option Usage)
    → lookup nat_key current_hour history ≡ found
    → lookup nat_key j (add_usage current_hour msg history)
      ≡ (if current_hour == j then some (added_to found msg) else lookup nat_key j history)
unfolding add_usage
lookup-add_usage current_hour j msg history none e =
    rw (add_usage, e) (lookup-insert nat_key current_hour j (added_to none msg) history)
lookup-add_usage current_hour j msg history (some entry) e =
    rw (add_usage, e) (lookup-insert nat_key current_hour j (added_to (some entry) msg) history)

-- While no more than 8760 hours are kept, an update adds its bytes to the current hour of its own
-- kind, at the price that the hour started with, and leaves every other hour as it was.
pub process_usage_update_adds :
    (current_hour j : ℕ) (msg : UpdateUsage) (s : UsageTrackerStorage)
    → entries (add_usage current_hour msg (bandwidth msg.kind s)) ≤ max_usage_entries
    → let before = bandwidth msg.kind s in
      lookup nat_key j (bandwidth msg.kind (process_usage_update current_hour msg s)) ≡ (
        if current_hour == j
        then some (added_to (lookup nat_key current_hour before) msg)
        else lookup nat_key j before)
unfolding update_history
process_usage_update_adds current_hour j msg s few =
    let before = bandwidth msg.kind s in
    let added = add_usage current_hour msg before in
    rw
      (
        bandwidth-process current_hour msg msg.kind s refl,
        trim_few entry_hour entry_eq entry_eq_refl entry_eq-hour max_usage_entries (entries added)
            added few,
      )
      (lookup-add_usage current_hour j msg before (lookup nat_key current_hour before) refl)

-- For any hour from which on at most 8760 hours are known, this one included, all of those are kept
-- by an update, and at most 8760 hours in all: the oldest go first.
pub process_usage_update_trims :
    (current_hour k : ℕ) (msg : UpdateUsage) (s : UsageTrackerStorage)
    → newer entry_hour k (add_usage current_hour msg (bandwidth msg.kind s)) ≤ max_usage_entries
    → let added = add_usage current_hour msg (bandwidth msg.kind s) in
      let after = bandwidth msg.kind (process_usage_update current_hour msg s) in
      (newer entry_hour k after ≡ newer entry_hour k added) × (entries after ≤ max_usage_entries)
unfolding update_history
process_usage_update_trims current_hour k msg s few =
    let added = add_usage current_hour msg (bandwidth msg.kind s) in
    rw (bandwidth-process current_hour msg msg.kind s refl) (
      trim-newer entry_hour entry_eq entry_eq_refl entry_eq-hour k max_usage_entries (entries added)
          added few,
      trim-fits entry_hour entry_eq entry_eq_refl entry_eq-hour max_usage_entries (entries added)
          added (omega arith),
    )
