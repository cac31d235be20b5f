-- ===== src/ExitTraffic/Free.antt =====
-- rita_exit/src/traffic_watcher/mod.rs: a round of an exit where the transaction fee is 0.
use rita.Common.{
  ℕ, ◌≡◌, true, some, List, [], ◌∷◌, ◌∙◌, ap, ◌==◌, none, if◌then◌else◌, ltb, arith, Option-cases,
  Bool-cases, inl, inr, ◌⊎◌,
}
use rita.Outcome.{ok, panic}
use rita.ExitTraffic.Loops.{input_loop-Same, input_loop-SameUploads}
use rita.ExitTraffic.Owed.{maps_of, watch_lem}
use rita.TrafficWatcher.{BabelRoute}
use rita.Num256.{Num256}
use rita.Types.{IpAddr, Identity, identity_eq_refl}
use rita.Common.Map.{lookup, nat_key, insert, lookup-insert}
use rita.Debts.{is_in, is_among, setup, is_in-setup}
use rita.ExitTraffic.{
  input_loop, account, watch_exit_traffic, get_babel_info, merge_counters, ExitSystem, WgUsage,
  Usages, Prices, ExitSettings, Round, entry_of, output_one, output_loop, values,
  prepare_usage_history,
}

module _ (settings : ExitSettings) (identities : List (ℕ × Identity)) (destinations : Prices)
    (free : settings.tx_fee_percentage ≡ 0) where
  output_one-free :
      (k : ℕ) (u : WgUsage) (r : Round)
      → ((output_one settings identities destinations k u r).0 ≡ panic)
        ⊎ (output_one settings identities destinations k u r ≡ (ok tt, r))
  unfolding output_one
  output_one-free k u r =
      elim (Option-cases (entry_of settings identities destinations k r.history)) [
        | inl h ↦ inr (ground (arith, h))
        | inr ((id, dest, usage), h) ↦ elim (Bool-cases (is_in id r.debts)) [
          | inl known ↦ inl (ground (arith, h, known, free))
          | inr unknown ↦ inr (ground (arith, h, unknown))
        ]
      ]

  output_loop-free :
      (counters : Usages) (k : ℕ) (u usage : WgUsage) (id : Identity) (dest : ℕ) (r : Round)
      → lookup nat_key k counters ≡ some u
      → entry_of settings identities destinations k r.history ≡ some (id, dest, usage)
      → is_in id r.debts ≡ true
      → (output_loop settings identities destinations counters r).0 ≡ panic
  unfolding output_loop output_one lookup
  output_loop-free [] k u usage id dest r l e known = ground (arith, l)
  output_loop-free ((i, v) ∷ counters) k u usage id dest r l e known = elim (Bool-cases (i == k)) [
    | inl same ↦
        let at : i ≡ k = ground (arith, same) in
        let here = ap (λ z. entry_of settings identities destinations z r.history) at ∙ e in
        ground (arith, here, known, free)
    | inr other ↦ elim (output_one-free i v r) [
      | inl h ↦ ground (arith, h)
      | inr h ↦ ground (
        arith,
        h,
        output_loop-free counters k u usage id dest r (ground (arith, l, other)) e known,
      )
    ]
  ]

-- The entry that a counter is given in the history.
abbrev started : ℕ → WgUsage → Usages → WgUsage
started wg_key bytes usage_history = elim (lookup nat_key wg_key usage_history) [
  | none ↦ bytes
  | some history ↦ record {
    upload = if ltb bytes.upload history.upload then 0 else history.upload;
    download = if ltb bytes.download history.download then 0 else history.download;
  }
]

-- A key that the history has stays in it, and one that is counted is in it after.
prepare_usage_history-keeps :
    (k : ℕ) (w : WgUsage) (counters history : Usages)
    → lookup nat_key k history ≡ some w
    → (v : WgUsage) × (lookup nat_key k (prepare_usage_history counters history) ≡ some v)
unfolding prepare_usage_history
prepare_usage_history-keeps k w [] history e = (w, e)
prepare_usage_history-keeps k w ((i, bytes) ∷ counters) history e =
    let v = started i bytes history in
    let h' = insert nat_key i v history in
    let step = lookup-insert nat_key i k v history in
    elim (Bool-cases (i == k)) [
      | inl h ↦ prepare_usage_history-keeps k v counters h' (ground (arith, step, h))
      | inr h ↦ prepare_usage_history-keeps k w counters h' (ground (arith, step, h, e))
    ]

prepare_usage_history-has :
    (k : ℕ) (u : WgUsage) (counters history : Usages)
    → lookup nat_key k counters ≡ some u
    → (v : WgUsage) × (lookup nat_key k (prepare_usage_history counters history) ≡ some v)
unfolding prepare_usage_history lookup
prepare_usage_history-has k u [] history e = ground (arith, e)
prepare_usage_history-has k u ((i, bytes) ∷ counters) history e =
    let v = started i bytes history in
    let h' = insert nat_key i v history in
    elim (Bool-cases (i == k)) [
      | inl h ↦
          prepare_usage_history-keeps k v counters h'
            (ground (arith, lookup-insert nat_key i k v history, h))
      | inr h ↦ prepare_usage_history-has k u counters h' (ground (arith, e, h))
    ]

is_among-values :
    (k : ℕ) (id : Identity) (m : List (ℕ × Identity))
    → lookup nat_key k m ≡ some id
    → is_among id (values m) ≡ true
unfolding lookup
is_among-values k id [] e = ground (arith, e)
is_among-values k id ((i, other) ∷ m) e = elim (Bool-cases (i == k)) [
  | inl h ↦ ground (arith, e, h, identity_eq_refl id)
  | inr h ↦ ground (arith, h, is_among-values k id m (ground (arith, e, h)))
]

-- What the loop over the input leaves of the entry of a client.
input_loop-entry :
    (settings : ExitSettings) (identities : List (ℕ × Identity)) (destinations : Prices)
    (counters history : Usages) (k : ℕ) (id : Identity) (dest : ℕ) (w : WgUsage)
    → lookup nat_key k identities ≡ some id
    → lookup nat_key k destinations ≡ some dest
    → lookup nat_key k history ≡ some w
    → let start : Round = record { debts = setup (values identities) []; history = history } in
      let middle = input_loop settings identities destinations counters start in
      (is_in id middle.debts ≡ true)
      × ((v : WgUsage) × (entry_of settings identities destinations k middle.history
            ≡ some (id, dest, v)))
unfolding entry_of
input_loop-entry settings identities destinations counters history k id dest w a b c =
    let peers = values identities in
    let start : Round = record { debts = setup peers []; history = history } in
    let known = λ (i : Identity). is_in-setup i peers in
    let middle = input_loop settings identities destinations counters start in
    let same = input_loop-Same settings identities destinations peers id counters start known id in
    let uploads =
      input_loop-SameUploads settings identities destinations peers id counters start known k in
    (
      same ∙ is_among-values k id identities a,
      elim (Option-cases (lookup nat_key k middle.history)) [
        | inl h ↦ ground (arith, uploads, h, c)
        | inr (v, h) ↦ (v, ground (arith, a, b, h))
      ],
    )

module _ (n : Num256) (settings : ExitSettings) (current_hour : ℕ) (routes : List BabelRoute)
    (clients : List Identity) (old new : Usages) (s : ExitSystem) (our_id : Identity)
    (mesh_ip : IpAddr) (identity : settings.our_id ≡ some our_id)
    (address : settings.mesh_ip ≡ some mesh_ip) (free : settings.tx_fee_percentage ≡ 0) where
  account-free :
      (identities : List (ℕ × Identity)) (destinations : Prices) (counters : Usages)
      → let history = prepare_usage_history counters s.usage_history in
        let start : Round = record { debts = setup (values identities) []; history = history } in
        let middle = input_loop settings identities destinations counters start in
        (output_loop settings identities destinations counters middle).0 ≡ panic
        → let result = account n settings current_hour identities destinations counters s in
          (result.0 ≡ panic) × (result.1.system.debt_keeper ≡ s.system.debt_keeper)
  unfolding account
  account-free identities destinations counters e = ground (arith, e)

  -- With a transaction fee of 0 percent, where the identity and the mesh address are set and the
  -- counters of both interfaces can be read, a round panics as soon as one counter is that of a
  -- client with a route, and nothing is billed to anybody.
  pub watch_exit_traffic-panics :
      (k : ℕ) (id : Identity) (dest : ℕ) (u : WgUsage)
      → let maps = maps_of clients mesh_ip our_id in
        lookup nat_key k maps.0 ≡ some id
        → lookup nat_key k (get_babel_info settings routes our_id maps.1) ≡ some dest
        → lookup nat_key k (merge_counters old new) ≡ some u
        → let result =
            watch_exit_traffic n settings current_hour routes clients (some old) (some new) s in
          (result.0 ≡ panic) × (result.1.system.debt_keeper ≡ s.system.debt_keeper)
  watch_exit_traffic-panics k id dest u a b c =
      let maps = maps_of clients mesh_ip our_id in
      let prices = get_babel_info settings routes our_id maps.1 in
      let counters = merge_counters old new in
      let history = prepare_usage_history counters s.usage_history in
      let start : Round = record { debts = setup (values maps.0) []; history = history } in
      let middle = input_loop settings maps.0 prices counters start in
      let (w, has) = prepare_usage_history-has k u counters s.usage_history c in
      let (known, found) =
        input_loop-entry settings maps.0 prices counters history k id dest w a b has in
      rw
        (watch_lem n settings current_hour routes clients old new s our_id mesh_ip identity address)
        (account-free maps.0 prices counters (
          output_loop-free settings maps.0 prices free counters k u found.0 id dest middle c found.1
            known))
