-- ===== src/Debts.antt =====
-- The table of debts that the traffic watchers of rita_common and rita_exit collate before it is
-- handed to the debt keeper. An amount has 128 bits in the source; the products of a price and a
-- number of bytes are below 2 ^ 97, and so their sums are taken not to overflow.
use rita.Common.{
  ◌≡◌, refl, sym, ◌∙◌, Bool, true, false, Bool-cases, inl, inr, none, some, ◌||◌, List, [], ◌∷◌,
  arith, if◌then◌else◌, Option-cases,
}
use rita.Common.Int.{ℤ, pos, ◌+ℤ◌, int_laws, +ℤ_assoc, +ℤ_parts}
use rita.Common.Map.{lookup, insert, lookup-insert, lookup-congr}
use rita.Types.{v6, Identity, identity_key, identity_eq, identity_eq_congr}
use rita.DebtKeeper.Keeper.{Traffic}
use rita.DebtKeeper.Keeper.Frame.{billed}

abbrev pub Debts : Type 0
Debts = List (Identity × ℤ)

-- `debts.get_mut(id)`, and an amount that is added.
unfoldable pub add_to : Identity → ℤ → Debts → Debts
add_to id amount debts = elim (lookup identity_key id debts) [
  | none ↦ debts
  | some debt ↦ insert identity_key id (debt +ℤ amount) debts
]

-- The table before anything is counted.
unfoldable pub setup : List Identity → Debts → Debts
setup [] debts = debts
setup (ident ∷ idents) debts = setup idents (insert identity_key ident (pos 0) debts)

unfoldable pub traffic_vec : Debts → List Traffic
traffic_vec [] = []
traffic_vec ((from, amount) ∷ debts) = record { from = from; amount = amount } ∷ traffic_vec debts

abbrev pub is_in : Identity → Debts → Bool
is_in id debts = elim (lookup identity_key id debts) [ none ↦ false | some debt ↦ true ]

-- What an entry for `id` adds to the bill of `j`.
abbrev pub share : Identity → Identity → ℤ → ℤ
share id j amount = if identity_eq id j then amount else pos 0

pub +ℤ_zero : (a : ℤ) → a +ℤ pos 0 ≡ a
+ℤ_zero a = omega int_laws

pub zero_add : (a : ℤ) → pos 0 +ℤ a ≡ a
zero_add a = omega int_laws

-- An identity to instantiate what holds of every one.
abbrev pub nobody : Identity
nobody = record { mesh_ip = v6 0; eth_address = 0; wg_public_key = 0; nickname = none }

billed-insert :
    (id j : Identity) (debt amount : ℤ) (debts : Debts)
    → lookup identity_key id debts ≡ some debt
    → billed j (traffic_vec (insert identity_key id (debt +ℤ amount) debts))
      ≡ billed j (traffic_vec debts) +ℤ share id j amount
unfolding lookup insert traffic_vec
billed-insert id j debt amount [] e = ground (arith, e)
billed-insert id j debt amount ((k, v) ∷ debts) e = elim (Bool-cases (identity_eq k id)) [
  | inl same ↦ elim (Bool-cases (identity_eq id j)) [
    | inl ours ↦
        let one : v ≡ debt = ground (arith, e, same) in
        let key : identity_eq k j ≡ true = identity_eq_congr k id j same ∙ ours in
        rw (same, key, ours, one)
          (omega (
            int_laws,
            +ℤ_parts debt amount,
            +ℤ_parts (debt +ℤ amount) (billed j (traffic_vec debts)),
            +ℤ_parts debt (billed j (traffic_vec debts)),
            +ℤ_parts (debt +ℤ billed j (traffic_vec debts)) amount,
          ))
    | inr theirs ↦
        let key : identity_eq k j ≡ false = identity_eq_congr k id j same ∙ theirs in
        rw (same, key, theirs) (omega int_laws)
  ]
  | inr other ↦
      rw (other, billed-insert id j debt amount debts (ground (arith, e, other)))
        (sym (
          +ℤ_assoc (if identity_eq k j then v else pos 0) (billed j (traffic_vec debts))
            (share id j amount)))
]

-- An amount that is added is billed to the node that it names, where the table has it.
pub billed-add_to :
    (id j : Identity) (amount : ℤ) (debts : Debts)
    → billed j (traffic_vec (add_to id amount debts))
      ≡ billed j (traffic_vec debts) +ℤ (if is_in id debts then share id j amount else pos 0)
unfolding add_to
billed-add_to id j amount debts = elim (Option-cases (lookup identity_key id debts)) [
  | inl h ↦ ground (arith, h, +ℤ_zero (billed j (traffic_vec debts)))
  | inr (debt, h) ↦ ground (arith, h, billed-insert id j debt amount debts)
]

-- No node enters or leaves the table.
pub is_in-add_to :
    (id j : Identity) (amount : ℤ) (debts : Debts)
    → is_in j (add_to id amount debts) ≡ is_in j debts
unfolding add_to
is_in-add_to id j amount debts = elim (Option-cases (lookup identity_key id debts)) [
  | inl h ↦ ground (arith, h)
  | inr (debt, h) ↦ ground (
    arith,
    h,
    lookup-insert identity_key id j (debt +ℤ amount) debts,
    lookup-congr identity_key id j debts,
  )
]

abbrev AllZero : Debts → Type 0
AllZero [] = Unit {0}
AllZero ((from, amount) ∷ debts) = (amount ≡ pos 0) × AllZero debts

insert-AllZero :
    (id : Identity) (debts : Debts) → AllZero debts → AllZero (insert identity_key id (pos 0) debts)
unfolding insert
insert-AllZero id [] z = (refl, tt)
insert-AllZero id ((k, v) ∷ debts) (e, z) = elim (Bool-cases (identity_eq k id)) [
  | inl same ↦ rw same (refl, z)
  | inr other ↦ rw other (e, insert-AllZero id debts z)
]

billed-AllZero :
    (j : Identity) (debts : Debts) → AllZero debts → billed j (traffic_vec debts) ≡ pos 0
unfolding traffic_vec
billed-AllZero j [] z = refl
billed-AllZero j ((k, v) ∷ debts) (e, z) =
    rw (e, billed-AllZero j debts z)
      (elim (Bool-cases (identity_eq k j)) [
        | inl same ↦ rw same (omega int_laws)
        | inr other ↦ rw other (omega int_laws)
      ])

setup-AllZero :
    (idents : List Identity) (debts : Debts) → AllZero debts → AllZero (setup idents debts)
unfolding setup
setup-AllZero [] debts z = z
setup-AllZero (id ∷ idents) debts z =
    setup-AllZero idents (insert identity_key id (pos 0) debts) (insert-AllZero id debts z)

-- Nothing is billed before anything is counted.
pub billed-setup :
    (j : Identity) (idents : List Identity) → billed j (traffic_vec (setup idents [])) ≡ pos 0
billed-setup j idents = billed-AllZero j (setup idents []) (setup-AllZero idents [] tt)

abbrev pub is_among : Identity → List Identity → Bool
is_among j [] = false
is_among j (id ∷ idents) = identity_eq id j || is_among j idents

is_in-setup_onto :
    (j : Identity) (idents : List Identity) (debts : Debts)
    → is_in j (setup idents debts) ≡ (is_among j idents || is_in j debts)
unfolding setup
is_in-setup_onto j [] debts = refl
is_in-setup_onto j (id ∷ idents) debts = ground (
  arith,
  is_in-setup_onto j idents (insert identity_key id (pos 0) debts),
  lookup-insert identity_key id j (pos 0) debts,
)

-- The table is that of the nodes that it is set up with.
pub is_in-setup :
    (j : Identity) (idents : List Identity) → is_in j (setup idents []) ≡ is_among j idents
unfolding lookup
is_in-setup j idents = ground (arith, is_in-setup_onto j idents [])
