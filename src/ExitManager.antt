-- ===== src/ExitManager.antt =====
-- rita_client/src/exit_manager/mod.rs: the selected exit and the exits that are not to be selected,
-- with the types of settings/src/client.rs. A HashSet is a list in which an item stands once.
pub mod Switcher
pub mod Blacklist
mod Tests
use rita.Common.{
  ℕ, ◌+◌, ◌%◌, ◌^◌, ◌≡◌, Bool, true, false, not, Option, none, some, String, List, [], ◌∷◌, leb,
  if◌then◌else◌,
}
use rita.Common.Map.{Key, lookup, insert}
use rita.Types.{IpAddr, ip_eq, ip_key}

abbrev pub max_blacklist_strikes : ℕ
max_blacklist_strikes = 100

-- The one error of `RitaClientError` that this code returns.
pub data RitaClientError : Type 0 where
  misc_string_error : String → RitaClientError
  no_route : RitaClientError
  kernel_interface_error : RitaClientError

pub data WarningType : Type 0 where
  hard_warning soft_warning : WarningType

pub record SelectedExit : Type 0 where
  pub selected_id : Option IpAddr
  pub selected_id_metric : Option ℕ
  pub selected_id_degradation : Option ℕ
  pub tracking_exit : Option IpAddr

pub data ExitSwitchingCode : Type 0 where
  initial_exit_setup continue_current_reset continue_current : ExitSwitchingCode
  switch_exit continue_tracking reset_tracking : ExitSwitchingCode

pub record ExitBlacklist : Type 0 where
  pub blacklisted_exits : List IpAddr
  pub potential_blacklists : List (IpAddr × ℕ)

unfoldable pub contains : IpAddr → List IpAddr → Bool
contains ip [] = false
contains ip (x ∷ xs) = if ip_eq x ip then true else contains ip xs

abbrev pub set_insert : IpAddr → List IpAddr → List IpAddr
set_insert ip xs = if contains ip xs then xs else ip ∷ xs

unfoldable pub set_remove : IpAddr → List IpAddr → List IpAddr
set_remove ip [] = []
set_remove ip (x ∷ xs) = let rest = set_remove ip xs in if ip_eq x ip then rest else x ∷ rest

unfoldable pub map_remove : IpAddr → List (IpAddr × ℕ) → List (IpAddr × ℕ)
map_remove ip [] = []
map_remove ip ((x, n) ∷ m) =
    let rest = map_remove ip m in if ip_eq x ip then rest else (x, n) ∷ rest

unfoldable pub blacklist_strike_ip : IpAddr → WarningType → ExitBlacklist → ExitBlacklist
unfolding map_remove
blacklist_strike_ip ip soft_warning b = elim (lookup ip_key ip b.potential_blacklists) [
  | none ↦ record b { potential_blacklists = insert ip_key ip 1 b.potential_blacklists }
  | some warning_count ↦
      if leb max_blacklist_strikes warning_count
      then record {
        blacklisted_exits = set_insert ip b.blacklisted_exits;
        potential_blacklists = map_remove ip b.potential_blacklists;
      }
      else record b {
        potential_blacklists =
            insert ip_key ip ((warning_count + 1) % 2 ^ 16) b.potential_blacklists;
      }
]
blacklist_strike_ip ip hard_warning b = record b {
  blacklisted_exits = set_insert ip b.blacklisted_exits;
}

unfoldable pub reset_blacklist_warnings : IpAddr → ExitBlacklist → ExitBlacklist
unfolding set_remove map_remove
reset_blacklist_warnings ip b = record {
  blacklisted_exits = set_remove ip b.blacklisted_exits;
  potential_blacklists = map_remove ip b.potential_blacklists;
}

unfoldable pub reset_exit_blacklist : ExitBlacklist → ExitBlacklist
reset_exit_blacklist b = record { blacklisted_exits = []; potential_blacklists = [] }
