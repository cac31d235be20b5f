-- ===== src/ExitManager/Blacklist.antt =====
-- The soft warnings of an exit, in rita_client/src/exit_manager/mod.rs.
use rita.Common.{
  ℕ, zero, suc, ◌≡◌, ◌≤◌, ◌⊎◌, inl, inr, true, false, Option, none, some, List, arith, leb,
  Bool-cases, Option-cases, ◌∙◌, ap,
}
use rita.Common.Map.{lookup, insert, lookup-insert_self}
use rita.Types.{IpAddr, ip_key, ip_eq_refl}
use rita.ExitManager.{
  ExitBlacklist, soft_warning, contains, set_insert, blacklist_strike_ip, max_blacklist_strikes,
}

-- The blacklist after so many soft warnings to one exit.
unfoldable pub strikes : ℕ → IpAddr → ExitBlacklist → ExitBlacklist
strikes zero ip b = b
strikes (suc n) ip b = blacklist_strike_ip ip soft_warning (strikes n ip b)

-- The warnings that are counted for an exit.
abbrev counted : ℕ → Option ℕ
counted zero = none
counted (suc n) = some (suc n)

set_insert-contains : (ip : IpAddr) (xs : List IpAddr) → contains ip (set_insert ip xs) ≡ true
unfolding contains
set_insert-contains ip xs = ground (arith, ip_eq_refl ip)

strike-counts :
    (ip : IpAddr) (b : ExitBlacklist) (n : ℕ)
    → suc n ≤ max_blacklist_strikes
    → lookup ip_key ip b.potential_blacklists ≡ counted n
    → blacklist_strike_ip ip soft_warning b
      ≡ record b { potential_blacklists = insert ip_key ip (suc n) b.potential_blacklists }
unfolding blacklist_strike_ip
strike-counts ip b zero h e = ground (arith, e)
strike-counts ip b (suc n) h e = ground (arith, e)

strike-blacklists :
    (ip : IpAddr) (b : ExitBlacklist)
    → lookup ip_key ip b.potential_blacklists ≡ some max_blacklist_strikes
    → contains ip (blacklist_strike_ip ip soft_warning b).blacklisted_exits ≡ true
unfolding blacklist_strike_ip
strike-blacklists ip b e = ground (arith, e, set_insert-contains ip b.blacklisted_exits)

strike-keeps :
    (ip : IpAddr) (b : ExitBlacklist)
    → contains ip b.blacklisted_exits ≡ true
    → contains ip (blacklist_strike_ip ip soft_warning b).blacklisted_exits ≡ true
unfolding blacklist_strike_ip
strike-keeps ip b h = elim (Option-cases (lookup ip_key ip b.potential_blacklists)) [
  | inl e ↦ ground (arith, e)
  | inr (count, e) ↦ ground (arith, e, set_insert-contains ip b.blacklisted_exits)
]

-- After n warnings, of which the first finds no others and an exit that is not blacklisted.
Counts : ℕ → IpAddr → ExitBlacklist → Type 0
Counts n ip b =
    ((n ≤ max_blacklist_strikes)
      × ((lookup ip_key ip b.potential_blacklists ≡ counted n)
          × (contains ip b.blacklisted_exits ≡ false)))
    ⊎ ((suc max_blacklist_strikes ≤ n) × (contains ip b.blacklisted_exits ≡ true))

hundred-counted : (n : ℕ) → n ≡ max_blacklist_strikes → counted n ≡ some max_blacklist_strikes
hundred-counted n e = ap counted e

strike-Counts :
    (n : ℕ) (ip : IpAddr) (b : ExitBlacklist)
    → Counts n ip b
    → Counts (suc n) ip (blacklist_strike_ip ip soft_warning b)
unfolding Counts
strike-Counts n ip b (inr (h, c)) = inr (omega arith, strike-keeps ip b c)
strike-Counts n ip b (inl (h, (e, c))) = elim (Bool-cases (leb max_blacklist_strikes n)) [
  | inl l ↦ inr (ground arith, strike-blacklists ip b (e ∙ hundred-counted n (ground arith)))
  | inr l ↦
      rw (strike-counts ip b n (ground arith) e)
        (inl (ground arith, (lookup-insert_self ip_key ip (suc n) b.potential_blacklists, c)))
]

strikes-Counts :
    (n : ℕ) (ip : IpAddr) (b : ExitBlacklist)
    → lookup ip_key ip b.potential_blacklists ≡ none
    → contains ip b.blacklisted_exits ≡ false
    → Counts n ip (strikes n ip b)
unfolding Counts strikes
strikes-Counts zero ip b e c = inl (omega arith, (e, c))
strikes-Counts (suc n) ip b e c = strike-Counts n ip (strikes n ip b) (strikes-Counts n ip b e c)

-- An exit that has no warnings and is not blacklisted is blacklisted after n soft warnings exactly
-- when n is at least 101.
pub strikes-contains :
    (n : ℕ) (ip : IpAddr) (b : ExitBlacklist)
    → lookup ip_key ip b.potential_blacklists ≡ none
    → contains ip b.blacklisted_exits ≡ false
    → contains ip (strikes n ip b).blacklisted_exits ≡ leb (suc max_blacklist_strikes) n
unfolding Counts
strikes-contains n ip b e c = ground (arith, strikes-Counts n ip b e c)
