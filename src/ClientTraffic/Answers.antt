-- ===== src/ClientTraffic/Answers.antt =====
-- rita_client/src/traffic_watcher/mod.rs: what the answer of the exit does to the debts.
use rita.Common.{
  ℕ, ◌≡◌, ◌∙◌, refl, ap, true, false, Option, none, some, List, [], ◌∷◌, arith, ◌⊎◌, inl, inr,
  Bool-cases, Option-cases, if◌then◌else◌, ltb, ◌-◌,
}
use rita.Common.Int.{ℤ, pos, leb_ℤ}
use rita.Outcome.{ResultOf-cases, ok, panic, ResultOf, Action}
use rita.Types.{Identity, identity_eq, identity_eq_congr}
use rita.Num256.{Num256}
use rita.DebtKeeper.Node
use rita.DebtKeeper.Node.{NodeDebtData}
use rita.DebtKeeper.Keeper.{
  DebtKeeper, Traffic, entry, keys, with_entry, traffic_update, gateway_loop,
  gateway_traffic_update,
}
use rita.DebtKeeper.Keeper.Frame.{entry-with_entry_ne}
use rita.TrafficWatcher.{BabelRoute}
use rita.ExitTraffic.{Usages, WgUsage}
use rita.ExitManager.{RitaClientError}
use rita.ClientTraffic.{
  ClientSystem, Answer, unreachable, malformed, debt, Query, bill_counter,
  local_traffic_calculation, read_counter, find_exit_route_capped, on_system, update_locally,
  update_as_gateway, use_answer, query_exit_debts, bill_of,
}

-- The debt keeper of the client.
abbrev pub keeper : ClientSystem → DebtKeeper
keeper s = s.system.debt_keeper

module _ (max_fee tx_fee_percentage current_hour : ℕ) where
  bill_counter-keeper :
      (exit_price : ℕ) (route : BabelRoute) (counter : WgUsage) (s : ClientSystem)
      → keeper (bill_counter tx_fee_percentage current_hour exit_price route counter s).1 ≡ keeper s
  unfolding bill_counter
  bill_counter-keeper exit_price route counter s = ground arith

  local_traffic_calculation-keeper :
      (exit : Identity) (exit_price : ℕ) (routes : List BabelRoute) (counters : Option Usages)
      (s : ClientSystem)
      → keeper
          (local_traffic_calculation max_fee tx_fee_percentage current_hour exit exit_price routes
            counters s).1
        ≡ keeper s
  unfolding local_traffic_calculation
  local_traffic_calculation-keeper exit exit_price routes counters s =
      elim (Option-cases (find_exit_route_capped max_fee exit.mesh_ip routes)) [
        | inl h ↦ ground (arith, h)
        | inr (route, h) ↦ elim (ResultOf-cases (read_counter counters)) [
          | inl (counter, k) ↦ ground (arith, h, k, bill_counter-keeper exit_price route counter s)
          | inr (inl (e, k)) ↦ ground (arith, h, k)
          | inr (inr k) ↦ ground (arith, h, k)
        ]
      ]

-- A method that leaves the entry of `j`.
abbrev Leaves : {A : Type 0} → Identity → Action DebtKeeper A → Type 0
Leaves j f = (dk : DebtKeeper) → entry j (f dk).1.debt_data ≡ entry j dk.debt_data

module _ (n : Num256) (j : Identity) where
  with_entry-Leaves :
      (id : Identity) (f : Action Node.NodeDebtData (Unit {0}))
      → identity_eq id j ≡ false
      → Leaves j (with_entry id f)
  with_entry-Leaves id f apart dk = entry-with_entry_ne id j f dk apart

  traffic_update-Leaves :
      (t : Traffic) → identity_eq t.from j ≡ false → Leaves j (traffic_update n (t ∷ []))
  unfolding traffic_update
  traffic_update-Leaves t apart dk =
      let left = with_entry-Leaves t.from (Node.traffic_update n t.amount) apart dk in
      elim (ResultOf-cases (with_entry t.from (Node.traffic_update n t.amount) dk).0) [
        | inl (a, h) ↦ ground (arith, h, left)
        | inr (inl (e, h)) ↦ ground (arith, h, left)
        | inr (inr h) ↦ ground (arith, h, left)
      ]

  gateway_loop-Leaves :
      (t : Traffic) (ids : List Identity)
      → identity_eq t.from j ≡ false
      → Leaves j (gateway_loop n t ids)
  unfolding gateway_loop
  gateway_loop-Leaves t [] apart dk = refl
  gateway_loop-Leaves t (id ∷ ids) apart dk = elim (Bool-cases (identity_eq id t.from)) [
    | inl h ↦
        let other : identity_eq id j ≡ false = identity_eq_congr id t.from j h ∙ apart in
        ground (arith, h, with_entry-Leaves id (Node.traffic_update n t.amount) other dk)
    | inr h ↦ ground (arith, h, gateway_loop-Leaves t ids apart dk)
  ]

  on_system-Leaves :
      {A : Type 0} (f : Action DebtKeeper A)
      → Leaves j f
      → (s : ClientSystem)
      → entry j (keeper (on_system f s).1).debt_data ≡ entry j (keeper s).debt_data
  on_system-Leaves f leaves s = leaves (keeper s)

module _ (n : Num256) (q : Query) (local_debt : Option ℕ) (amount : ℤ) (s : ClientSystem) where
  use_answer-gateway :
      q.is_gateway ≡ true
      → use_answer n q local_debt (debt amount) s ≡ update_as_gateway n q local_debt s
  unfolding use_answer
  use_answer-gateway h = ground (arith, h)

  use_answer-replaces :
      q.is_gateway ≡ false
      → leb_ℤ (pos 0) amount ≡ true
      → use_answer n q local_debt (debt amount) s
        ≡ on_system (with_entry q.exit_id (Node.traffic_replace q.now amount)) s
  unfolding use_answer
  use_answer-replaces h k = ground (arith, h, k)

  use_answer-negative :
      q.is_gateway ≡ false
      → leb_ℤ (pos 0) amount ≡ false
      → use_answer n q local_debt (debt amount) s ≡ (ok tt, s)
  unfolding use_answer
  use_answer-negative h k = ground (arith, h, k)

module _ (n : Num256) (q : Query) (j : Identity) (apart : identity_eq q.exit_id j ≡ false) where
  update_locally-Leaves :
      (local_debt : Option ℕ) (s : ClientSystem)
      → entry j (keeper (update_locally n q local_debt s).1).debt_data
        ≡ entry j (keeper s).debt_data
  unfolding update_locally
  update_locally-Leaves none s = refl
  update_locally-Leaves (some v) s = traffic_update-Leaves n j (bill_of q (pos v)) apart (keeper s)

  update_as_gateway-Leaves :
      (local_debt : Option ℕ) (s : ClientSystem)
      → entry j (keeper (update_as_gateway n q local_debt s).1).debt_data
        ≡ entry j (keeper s).debt_data
  unfolding update_as_gateway gateway_traffic_update
  update_as_gateway-Leaves none s = refl
  update_as_gateway-Leaves (some v) s =
      gateway_loop-Leaves n j (bill_of q (pos v)) (keys (keeper s).debt_data) apart (keeper s)

  use_answer-Leaves :
      (local_debt : Option ℕ) (answer : Answer) (s : ClientSystem)
      → entry j (keeper (use_answer n q local_debt answer s).1).debt_data
        ≡ entry j (keeper s).debt_data
  use_answer-Leaves local_debt unreachable s =
      unfold use_answer in update_locally-Leaves local_debt s
  use_answer-Leaves local_debt malformed s = unfold use_answer in update_locally-Leaves local_debt s
  use_answer-Leaves local_debt (debt amount) s = elim (Bool-cases q.is_gateway) [
    | inl h ↦
        simp (use_answer-gateway n q local_debt amount s h) (update_as_gateway-Leaves local_debt s)
    | inr h ↦ elim (Bool-cases (leb_ℤ (pos 0) amount)) [
      | inl k ↦
          simp (use_answer-replaces n q local_debt amount s h k)
            (with_entry-Leaves n j q.exit_id (Node.traffic_replace q.now amount) apart (keeper s))
      | inr k ↦ simp (use_answer-negative n q local_debt amount s h k)
    ]
  ]

-- An account after an answer of the exit: kept while a payment is in flight, and for 15 seconds after
-- the last one that succeeded.
abbrev pub after_replace : ℕ → ℤ → NodeDebtData → NodeDebtData
after_replace now amount d = if d.payment_in_flight then d else elim d.last_successful_payment [
  | none ↦ record d { debt = amount }
  | some paid ↦ if ltb 15 (now - paid) then record d { debt = amount } else d
]

module _ (n : Num256) (max_fee tx_fee_percentage current_hour : ℕ) (q : Query)
    (s : ClientSystem) where
  abbrev calculated : ResultOf RitaClientError ℕ × ClientSystem
  calculated =
      local_traffic_calculation max_fee tx_fee_percentage current_hour q.exit_id q.exit_price
        q.routes q.counters s

  calculated-keeper : keeper calculated.1 ≡ keeper s
  calculated-keeper =
      local_traffic_calculation-keeper max_fee tx_fee_percentage current_hour q.exit_id q.exit_price
        q.routes q.counters s

  query_cases :
      ((local_debt : Option ℕ) × (query_exit_debts n max_fee tx_fee_percentage current_hour q s
          ≡ use_answer n q local_debt q.answer calculated.1))
      ⊎ ((calculated.0 ≡ panic)
          × (query_exit_debts n max_fee tx_fee_percentage current_hour q s ≡ (panic, calculated.1)))
  unfolding query_exit_debts
  query_cases = elim (ResultOf-cases calculated.0) [
    | inl (v, h) ↦ inl (some v, ground (arith, h))
    | inr (inl (e, h)) ↦ inl (none, ground (arith, h))
    | inr (inr h) ↦ inr (h, ground (arith, h))
  ]

  -- Whatever the exit answers, and whatever the counters are, the account of no other node is
  -- changed.
  pub query_exit_debts-others :
      (j : Identity)
      → identity_eq q.exit_id j ≡ false
      → entry j (keeper (query_exit_debts n max_fee tx_fee_percentage current_hour q s).1).debt_data
        ≡ entry j (keeper s).debt_data
  query_exit_debts-others j apart = elim query_cases [
    | inl (local_debt, h) ↦
        ap (λ r. entry j (keeper r.1).debt_data) h
        ∙ use_answer-Leaves n q j apart local_debt q.answer calculated.1
        ∙ ap (λ dk. entry j dk.debt_data) calculated-keeper
    | inr (failed, h) ↦
        ap (λ r. entry j (keeper r.1).debt_data) h
        ∙ ap (λ dk. entry j dk.debt_data) calculated-keeper
  ]
