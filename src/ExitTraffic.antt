-- ===== src/ExitTraffic.antt =====
-- rita_exit/src/traffic_watcher/mod.rs: what the clients of an exit owe for a round, from the
-- counters of the WireGuard interfaces; and `prepare_usage_history` of
-- althea_kernel_interface/src/wg_iface_counter.rs. Sums of bytes wrap around at 64 bits. A product of
-- a price and a number of bytes has 128 bits, and is taken not to overflow.
pub mod Merge
pub mod Billed
pub mod One
pub mod Loops
pub mod Free
pub mod Owed
mod Tests
use rita.Common.{
  ℕ, suc, zero, ◌+◌, ◌-◌, ◌*◌, ◌/◌, ◌%◌, ◌^◌, Bool, true, false, ◌&&◌, Option, none, some, List, [],
  ◌∷◌, ltb, ◌==◌, if◌then◌else◌,
}
use rita.Common.Int.{ℤ, pos, ◌-ℤ◌}
use rita.Common.Map.{lookup, insert, nat_key}
use rita.Outcome.{
  ResultOf, ok, err, panic, ActionOf, Action, pure, fail, try, modify, or_fail, or_panic, gets,
  ◌>>=◌, ◌>>◌,
}
use rita.Types.{IpAddr, v6, ip_key, IpNetwork, v4_network, v6_network, Identity}
use rita.Num256.{Num256}
use rita.DebtKeeper.Keeper.{DebtKeeper, traffic_update}
use rita.Usage.{UsageTrackerStorage, exit, process_usage_update, add_u64}
use rita.TrafficWatcher.{BabelRoute, System}
use rita.Debts.{Debts, add_to, setup, traffic_vec, is_in}
use rita.ExitDatabase.{RitaExitError, misc_string_error, kernel_interface_error}

pub record WgUsage : Type 0 where
  pub upload : ℕ
  pub download : ℕ

-- By the WireGuard key of a client.
abbrev pub Usages : Type 0
Usages = List (ℕ × WgUsage)

abbrev pub sub_u64 : ℕ → ℕ → ℕ
sub_u64 a b = (a + 2 ^ 64 - b) % 2 ^ 64

-- The settings that are read, and our identity, where it is ready.
pub record ExitSettings : Type 0 where
  pub our_id : Option Identity
  pub mesh_ip : Option IpAddr
  pub exit_price : ℕ
  pub local_fee : ℕ
  pub max_fee : ℕ
  pub tx_fee_percentage : ℕ

-- A tunnel that has been reset starts at zero, and a new one at what it is.
unfoldable pub prepare_usage_history : Usages → Usages → Usages
prepare_usage_history [] usage_history = usage_history
prepare_usage_history ((wg_key, bytes) ∷ counters) usage_history = prepare_usage_history counters (
    insert nat_key wg_key
      (elim (lookup nat_key wg_key usage_history) [
        | none ↦ bytes
        | some history ↦ record {
          upload = if ltb bytes.upload history.upload then 0 else history.upload;
          download = if ltb bytes.download history.download then 0 else history.download;
        }
      ])
      usage_history)

unfoldable pub merge_counters : Usages → Usages → Usages
unfolding add_u64
merge_counters ret [] = ret
merge_counters ret ((k, e) ∷ new_counters) =
    merge_counters
      (elim (lookup nat_key k ret) [
        | none ↦ insert nat_key k e ret
        | some usage ↦
            insert nat_key k
              (record {
                upload = add_u64 usage.upload e.upload;
                download = add_u64 usage.download e.download;
              })
              ret
      ])
      new_counters

-- The loop of `generate_helper_maps`: the identities of the clients by key and by mesh address.
unfoldable pub generate_helper_maps :
    List Identity
    → List (ℕ × Identity)
    → List (IpAddr × Identity)
    → List (ℕ × Identity) × List (IpAddr × Identity)
generate_helper_maps [] wg_to_id ip_to_id = (wg_to_id, ip_to_id)
generate_helper_maps (ident ∷ clients) wg_to_id ip_to_id =
    generate_helper_maps clients (insert nat_key ident.wg_public_key ident wg_to_id)
      (insert ip_key ident.mesh_ip ident ip_to_id)

-- The prices by the key of the client.
abbrev pub Prices : Type 0
Prices = List (ℕ × ℕ)

unfoldable pub babel_loop :
    ExitSettings → List (IpAddr × Identity) → List BabelRoute → Prices → Prices
babel_loop settings id_from_ip [] destinations = destinations
babel_loop settings id_from_ip (route ∷ routes) destinations =
    babel_loop settings id_from_ip routes (elim route.prefix [
      | v4_network addr prefix ↦ destinations
      | v6_network addr prefix ↦
          if prefix == 128 && route.installed
          then elim (lookup ip_key (v6 addr) id_from_ip) [
            | none ↦ destinations
            | some id ↦
                insert nat_key id.wg_public_key
                  (if ltb settings.max_fee route.price then settings.max_fee else route.price)
                  destinations
          ]
          else destinations
    ])

unfoldable pub get_babel_info :
    ExitSettings → List BabelRoute → Identity → List (IpAddr × Identity) → Prices
unfolding babel_loop
get_babel_info settings routes our_id id_from_ip =
    babel_loop settings id_from_ip routes ((our_id.wg_public_key, settings.local_fee) ∷ [])

-- The sum of what has moved since the round before.
unfoldable pub moved : (WgUsage → ℕ) → Usages → Usages → ℕ → ℕ
unfolding add_u64
moved part history [] total = total
moved part history ((key, val) ∷ counters) total =
    moved part history counters (elim (lookup nat_key key history) [
      | none ↦ total
      | some history_val ↦ add_u64 total (sub_u64 (part val) (part history_val))
    ])

unfoldable pub counters_logging :
    ℕ → Usages → Usages → ℕ → UsageTrackerStorage → UsageTrackerStorage
unfolding moved
counters_logging current_hour counters history exit_fee usage =
    process_usage_update current_hour
      (record {
        kind = exit;
        up = moved (λ u. u.upload) history counters 0;
        down = moved (λ u. u.download) history counters 0;
        price = exit_fee % 2 ^ 32;
      })
      usage

-- The debts and the usage history while the counters are accounted for.
pub record Round : Type 0 where
  pub debts : Debts
  pub history : Usages

abbrev pub input_value : ExitSettings → ℕ → ℕ
input_value settings used = settings.exit_price * used

-- What is sent to a client costs the price of the way there, our price, and the share of the
-- transaction fee of what is paid on. The division panics where the percentage is 0.
abbrev pub output_value : ExitSettings → ℕ → ℕ → ℕ
output_value settings dest used =
    add_u64 dest settings.exit_price * used + dest * used / settings.tx_fee_percentage

module _ (settings : ExitSettings) (identities : List (ℕ × Identity)) (destinations : Prices) where
  -- The client and the price of a counter, and what it has used so far, where all three are known.
  unfoldable pub entry_of : ℕ → Usages → Option (Identity × ℕ × WgUsage)
  entry_of wg_key history = elim (lookup nat_key wg_key identities) [
    | none ↦ none
    | some id ↦ elim (lookup nat_key wg_key destinations) [
      | none ↦ none
      | some dest ↦ elim (lookup nat_key wg_key history) [
        | none ↦ none
        | some usage ↦ some (id, dest, usage)
      ]
    ]
  ]

  unfoldable pub input_one : ℕ → WgUsage → Round → Round
  input_one wg_key bytes r = elim (entry_of wg_key r.history) [
    | none ↦ r
    | some (id, dest, history) ↦
        if is_in id r.debts
        then record {
          debts =
              add_to id
                (pos 0 -ℤ pos (input_value settings (sub_u64 bytes.download history.download)))
                r.debts;
          history = insert nat_key wg_key (record history { download = bytes.download }) r.history;
        }
        else r
  ]

  unfoldable pub input_loop : Usages → Round → Round
  input_loop [] r = r
  input_loop ((wg_key, bytes) ∷ counters) r = input_loop counters (input_one wg_key bytes r)

  unfoldable pub output_one : ℕ → WgUsage → ActionOf RitaExitError Round (Unit {0})
  output_one wg_key bytes r = elim (entry_of wg_key r.history) [
    | none ↦ (ok tt, r)
    | some (id, dest, history) ↦
        if is_in id r.debts
        then if settings.tx_fee_percentage == 0 then (panic, r) else (
          ok tt,
          record {
            debts =
                add_to id
                  (pos 0 -ℤ pos (output_value settings dest (sub_u64 bytes.upload history.upload)))
                  r.debts;
            history = insert nat_key wg_key (record history { upload = bytes.upload }) r.history;
          },
        )
        else (ok tt, r)
  ]

  unfoldable pub output_loop : Usages → ActionOf RitaExitError Round (Unit {0})
  output_loop [] = pure tt
  output_loop ((wg_key, bytes) ∷ counters) = output_one wg_key bytes >> output_loop counters

abbrev pub values : List (ℕ × Identity) → List Identity
values [] = []
values ((key, id) ∷ m) = id ∷ values m

pub record ExitSystem : Type 0 where
  pub usage_history : Usages
  pub system : System

module _ (n : Num256) (settings : ExitSettings) (current_hour : ℕ) where
  -- The debts are handed to the debt keeper, which gives nothing back.
  unfoldable pub hand_over : Round → ActionOf RitaExitError ExitSystem (Unit {0})
  hand_over r s =
      let (result, dk) = traffic_update n (traffic_vec r.debts) s.system.debt_keeper in
      let s' = record s { system = record { debt_keeper = dk; usage = s.system.usage } } in
      elim result [ ok x ↦ (ok x, s') | err e ↦ (ok tt, s') | panic ↦ (panic, s') ]

  unfoldable pub account :
      List (ℕ × Identity) → Prices → Usages → ActionOf RitaExitError ExitSystem (Unit {0})
  unfolding hand_over
  account identities destinations counters s =
      let history = prepare_usage_history counters s.usage_history in
      let (result, round) = output_loop settings identities destinations counters (
        input_loop settings identities destinations counters
          (record { debts = setup (values identities) []; history = history })) in
      let s' : ExitSystem = record {
        usage_history = round.history;
        system = record {
          debt_keeper = s.system.debt_keeper;
          usage = counters_logging current_hour counters history settings.exit_price s.system.usage;
        };
      } in
      elim result [ ok x ↦ hand_over round s' | err e ↦ (err e, s') | panic ↦ (panic, s') ]

  unfoldable pub watch_exit_traffic :
      List BabelRoute
      → List Identity
      → Option Usages
      → Option Usages
      → ActionOf RitaExitError ExitSystem (Unit {0})
  watch_exit_traffic routes clients old new = do
    our_id ← or_fail settings.our_id (misc_string_error "Identity is not ready")
    mesh_ip ← or_panic settings.mesh_ip
    let (identities, id_from_ip) = generate_helper_maps clients [] ((mesh_ip, our_id) ∷ [])
    let destinations = get_babel_info settings routes our_id id_from_ip
    counters ← or_fail old kernel_interface_error
    new_counters ← or_fail new kernel_interface_error
    account identities destinations (merge_counters counters new_counters)
