-- ===== src/DebtKeeper/Load/Forgive.antt =====
-- What a restart keeps of the accounts that were saved.
use rita.Common.{
  ◌<◌, ◌≡◌, refl, true, false, Option, none, some, ◌⊎◌, inl, inr, Option-cases, [], ◌∷◌, arith,
  if◌then◌else◌,
}
use rita.Common.Int.{pos, leb_ℤ, ◌≤ℤ◌, ◌<ℤ◌}
use rita.Common.Map.{lookup, insert, lookup-cons, lookup-insert, lookup-nil}
use mathlib.Core.Option
use rita.Types.{Identity, identity_key, identity_eq, identity_eq_congr, identity_eq_comm}
use rita.Settings.{PaymentSettings}
use rita.DebtKeeper.Node.{NodeDebtData}
use rita.DebtKeeper.Keeper.{DebtData}
use rita.DebtKeeper.Keeper.Round.{Apart, IsDistinct}
use rita.DebtKeeper.Load.{restored, debt_data_to_ser, admit, ser_loop, ser_to_debt_data}

lookup-Apart :
    (k j : Identity) (m : DebtData)
    → Apart k m
    → identity_eq k j ≡ true
    → lookup identity_key j m ≡ none
unfolding lookup
lookup-Apart k j [] a h = lookup-nil identity_key j
lookup-Apart k j ((i, d) ∷ m) a h =
    ground (arith, lookup-Apart k j m a.1 h, identity_eq_congr k j i h, identity_eq_comm i j)

abbrev admitted : PaymentSettings → Option NodeDebtData → Option NodeDebtData → Option NodeDebtData
admitted payment none old = old
admitted payment (some d) old = elim (admit payment d) [ none ↦ old | some e ↦ some e ]

lookup-ser_loop :
    (payment : PaymentSettings) (ret input : DebtData) (k : Identity)
    → IsDistinct input
    → lookup identity_key k (ser_loop payment ret input)
      ≡ admitted payment (lookup identity_key k input) (lookup identity_key k ret)
unfolding ser_loop
lookup-ser_loop payment ret [] k h = rw (lookup-nil identity_key k)
lookup-ser_loop payment ret ((i, d) ∷ input) k h = elim (Option-cases (admit payment d)) [
  | inl skipped ↦
      rw (skipped, ser_loop)
        (rw (lookup-ser_loop payment ret input k h.1) (
          ground
            (arith, skipped, lookup-Apart i k input h.0, lookup-cons identity_key k i d input)))
  | inr (e, kept) ↦
      rw (kept, ser_loop)
        (rw (lookup-ser_loop payment (insert identity_key i e ret) input k h.1) (
          ground (
            arith,
            kept,
            lookup-Apart i k input h.0,
            lookup-cons identity_key k i d input,
            lookup-insert identity_key i k e ret,
          )))
]

Apart-debt_data_to_ser : (k : Identity) (m : DebtData) → Apart k m → Apart k (debt_data_to_ser m)
unfolding debt_data_to_ser
Apart-debt_data_to_ser k [] a = tt
Apart-debt_data_to_ser k ((i, d) ∷ m) a = (a.0, Apart-debt_data_to_ser k m a.1)

IsDistinct-debt_data_to_ser : (m : DebtData) → IsDistinct m → IsDistinct (debt_data_to_ser m)
unfolding debt_data_to_ser
IsDistinct-debt_data_to_ser [] h = tt
IsDistinct-debt_data_to_ser ((i, d) ∷ m) h =
    (Apart-debt_data_to_ser i m h.0, IsDistinct-debt_data_to_ser m h.1)

lookup-debt_data_to_ser :
    (k : Identity) (m : DebtData)
    → lookup identity_key k (debt_data_to_ser m) ≡ Option.map restored (lookup identity_key k m)
unfolding debt_data_to_ser lookup
lookup-debt_data_to_ser k [] = refl
lookup-debt_data_to_ser k ((i, d) ∷ m) = ground (arith, lookup-debt_data_to_ser k m)

-- The accounts after a save and a restart.
abbrev pub restarted : PaymentSettings → DebtData → DebtData
restarted payment m = ser_to_debt_data payment (debt_data_to_ser m)

lookup-restarted :
    (payment : PaymentSettings) (m : DebtData) (k : Identity)
    → IsDistinct m
    → lookup identity_key k (restarted payment m)
      ≡ admitted payment (Option.map restored (lookup identity_key k m)) none
unfolding ser_to_debt_data
lookup-restarted payment m k h = rw (
  lookup-ser_loop payment [] (debt_data_to_ser m) k (IsDistinct-debt_data_to_ser m h),
  lookup-debt_data_to_ser k m,
  lookup-nil identity_key k,
)

-- Without forgiveness and with each node listed once, a restart keeps every account, with no
-- payment in flight and no memory of the last one.
pub restart_keeps :
    (payment : PaymentSettings) (m : DebtData) (k : Identity)
    → IsDistinct m
    → payment.forgive_on_reboot ≡ false
    → lookup identity_key k (restarted payment m) ≡ Option.map restored (lookup identity_key k m)
unfolding admit
restart_keeps payment m k h off = rw (lookup-restarted payment m k h) (ground arith)

-- With forgiveness on and each node listed once, nobody owes us anything after a restart.
pub restart_forgives :
    (payment : PaymentSettings) (m : DebtData) (k : Identity) (e : NodeDebtData)
    → IsDistinct m
    → payment.forgive_on_reboot ≡ true
    → lookup identity_key k (restarted payment m) ≡ some e
    → pos 0 ≤ℤ e.debt
unfolding admit
restart_forgives payment m k e h on found =
    let found' = rw (lookup-restarted payment m k h) at found in ground arith

-- With forgiveness on and each node listed once, a node that we owe, or that has credit with us, is
-- kept over a restart: its credit as it was, and its debt as it was where we owe it and zero where
-- not.
pub restart_honours :
    (payment : PaymentSettings) (m : DebtData) (k : Identity) (d : NodeDebtData)
    → IsDistinct m
    → payment.forgive_on_reboot ≡ true
    → lookup identity_key k m ≡ some d
    → (pos 0 <ℤ d.debt) ⊎ (0 < d.incoming_payments)
    → (e : NodeDebtData) × (lookup identity_key k (restarted payment m) ≡ some e)
      × (e.incoming_payments ≡ d.incoming_payments)
      × (e.debt ≡ (if leb_ℤ d.debt (pos 0) then pos 0 else d.debt))
unfolding admit restored
restart_honours payment m k d h on found due = (
  record d {
    debt = (if leb_ℤ d.debt (pos 0) then pos 0 else d.debt);
    payment_in_flight = false;
    payment_in_flight_start = none;
    last_successful_payment = none;
  },
  rw (lookup-restarted payment m k h, found) (ground arith),
  refl,
  refl,
)
