-- ===== src/DebtKeeper/Keeper/Frame.antt =====
-- An operation on one node's entry, and the billing of a list of traffic.
use rita.Common.{
  ℕ, ◌+◌, ◌≤◌, ◌<◌, ◌≡◌, refl, true, false, List, [], ◌∷◌, arith, if◌then◌else◌, Bool-cases, inl,
  inr,
}
use rita.Common.Int.{ℤ, pos, magnitude, ◌+ℤ◌, int_laws, +ℤ_magnitude, +ℤ_assoc}
use rita.Common.Map.{insert, lookup-insert, lookup-congr}
use rita.Types.{Identity, identity_key, identity_eq}
use rita.Num256.{Num256, int256_limit}
use rita.Outcome.{Action, ok}
use rita.DebtKeeper.Node.{NodeDebtData}
use rita.DebtKeeper.Node
use rita.DebtKeeper.Keeper.{DebtKeeper, DebtData, entry, with_entry, Traffic, traffic_update}

entry-congr : (k j : Identity) (m : DebtData) → identity_eq k j ≡ true → entry k m ≡ entry j m
unfolding entry
entry-congr k j m h = rw (lookup-congr identity_key k j m h, entry)

entry-insert_self :
    (k j : Identity) (d : NodeDebtData) (m : DebtData)
    → identity_eq k j ≡ true
    → entry j (insert identity_key k d m) ≡ d
unfolding entry
entry-insert_self k j d m h = rw (entry, lookup-insert identity_key k j d m, h)

entry-insert_ne :
    (k j : Identity) (d : NodeDebtData) (m : DebtData)
    → identity_eq k j ≡ false
    → entry j (insert identity_key k d m) ≡ entry j m
unfolding entry
entry-insert_ne k j d m h = rw (entry, lookup-insert identity_key k j d m, h)

module _ {A : Type 0} (ident j : Identity) (f : Action NodeDebtData A) (dk : DebtKeeper) where
  -- The entry that a method names is the one that it changes.
  pub entry-with_entry :
      identity_eq ident j ≡ true
      → entry j (with_entry ident f dk).1.debt_data ≡ (f (entry ident dk.debt_data)).1
  unfolding with_entry
  entry-with_entry same = entry-insert_self ident j _ dk.debt_data same

  pub entry-with_entry_ne :
      identity_eq ident j ≡ false
      → entry j (with_entry ident f dk).1.debt_data ≡ entry j dk.debt_data
  unfolding with_entry
  entry-with_entry_ne other = entry-insert_ne ident j _ dk.debt_data other

-- What a list of traffic bills to the node `j`, and its size over all nodes.
abbrev pub billed : Identity → List Traffic → ℤ
billed j [] = pos 0
billed j (t ∷ ts) = (if identity_eq t.from j then t.amount else pos 0) +ℤ billed j ts

abbrev pub volume : List Traffic → ℕ
volume [] = 0
volume (t ∷ ts) = magnitude t.amount + volume ts

-- No debt is larger than `b` in either direction.
abbrev pub Bounded : ℕ → DebtData → Type 0
Bounded b m = (k : Identity) → magnitude (entry k m).debt ≤ b

module _ (n : Num256) where
  node_traffic :
      (b : ℕ) (amount : ℤ) (d : NodeDebtData)
      → magnitude d.debt ≤ b
      → b + magnitude amount < int256_limit
      → Node.traffic_update n amount d ≡ (ok tt, record d { debt = d.debt +ℤ amount })
  unfolding Node.traffic_update
  node_traffic b amount d h fits = rw (
      n.iadd_fits d.debt amount
        (omega (arith, +ℤ_magnitude d.debt amount), omega (arith, +ℤ_magnitude d.debt amount)))

  step : Traffic → DebtKeeper → DebtKeeper
  step t dk = (with_entry t.from (Node.traffic_update n t.amount) dk).1

  module _ (b : ℕ) (t : Traffic) (dk : DebtKeeper) (small : Bounded b dk.debt_data)
      (fits : b + magnitude t.amount < int256_limit) where
    step_debt :
        (j : Identity)
        → (entry j (step t dk).debt_data).debt
          ≡ (entry j dk.debt_data).debt +ℤ (if identity_eq t.from j then t.amount else pos 0)
    unfolding step
    step_debt j = elim (Bool-cases (identity_eq t.from j)) [
      | inl same ↦ rw (
        same,
        entry-with_entry t.from j (Node.traffic_update n t.amount) dk same,
        node_traffic b t.amount (entry t.from dk.debt_data) (small t.from) fits,
        entry-congr t.from j dk.debt_data same,
      )
      | inr other ↦
          rw (other, entry-with_entry_ne t.from j (Node.traffic_update n t.amount) dk other)
            (omega int_laws)
    ]

    step_ok : with_entry t.from (Node.traffic_update n t.amount) dk ≡ (ok tt, step t dk)
    unfolding step with_entry
    step_ok = rw (node_traffic b t.amount (entry t.from dk.debt_data) (small t.from) fits)

    step-Bounded : Bounded (b + magnitude t.amount) (step t dk).debt_data
    step-Bounded j = rw (step_debt j) (elim (Bool-cases (identity_eq t.from j)) [
      | inl same ↦
          rw same (omega (arith, small j, +ℤ_magnitude (entry j dk.debt_data).debt t.amount))
      | inr other ↦
          rw other (omega (arith, small j, +ℤ_magnitude (entry j dk.debt_data).debt (pos 0)))
    ])

  -- A list of traffic is billed whole: where all debts and all the traffic together fit in an
  -- Int256, nothing panics and the debt of every node moves by the sum of what is billed to it,
  -- whatever the order of the list and whichever other nodes stand in it.
  pub traffic_update_bills :
      (b : ℕ) (ts : List Traffic) (dk : DebtKeeper) (j : Identity)
      → Bounded b dk.debt_data
      → b + volume ts < int256_limit
      → ((traffic_update n ts dk).0 ≡ ok tt)
        × ((entry j (traffic_update n ts dk).1.debt_data).debt
            ≡ (entry j dk.debt_data).debt +ℤ billed j ts)
  unfolding traffic_update
  traffic_update_bills b [] dk j small fits = (refl, omega int_laws)
  traffic_update_bills b (t ∷ ts) dk j small fits =
      let one : b + magnitude t.amount < int256_limit = omega arith in
      let (fine, debts) =
        traffic_update_bills (b + magnitude t.amount) ts (step t dk) j
          (step-Bounded b t dk small one) (omega arith) in
      ground (
        arith,
        step_ok b t dk small one,
        fine,
        debts,
        step_debt b t dk small one j,
        +ℤ_assoc (entry j dk.debt_data).debt (if identity_eq t.from j then t.amount else pos 0)
            (billed j ts),
      )
