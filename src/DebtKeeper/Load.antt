-- ===== src/DebtKeeper/Load.antt =====
-- What is read back from the disk after a restart.
pub mod Forgive
use rita.Common.{ℕ, Bool, true, false, ◌&&◌, Option, none, some, List, [], ◌∷◌, if◌then◌else◌, ◌==◌}
use rita.Common.Int.{ℤ, pos, leb_ℤ}
use rita.Common.Map.{insert}
use rita.Types.{Identity, identity_key}
use rita.Settings.{PaymentSettings}
use rita.DebtKeeper.Node.{NodeDebtData}
use rita.DebtKeeper.Keeper.{DebtData, DebtKeeper}

-- The fields that serde skips come back as their defaults.
unfoldable pub restored : NodeDebtData → NodeDebtData
restored d = record d {
  payment_in_flight = false;
  payment_in_flight_start = none;
  last_successful_payment = none;
}

-- What the file holds: the entries in the order of the map, less the fields that serde skips.
unfoldable pub debt_data_to_ser : DebtData → DebtData
debt_data_to_ser [] = []
debt_data_to_ser ((i, d) ∷ input) = (i, restored d) ∷ debt_data_to_ser input

-- One turn of the loop: `none` is the `continue`.
unfoldable pub admit : PaymentSettings → NodeDebtData → Option NodeDebtData
admit payment d =
    if payment.forgive_on_reboot
    then (if leb_ℤ d.debt (pos 0) && d.incoming_payments == 0
        then none
        else if leb_ℤ d.debt (pos 0)
        then some (record d { debt = pos 0 })
        else some d)
    else some d

unfoldable pub ser_loop : PaymentSettings → DebtData → DebtData → DebtData
ser_loop payment ret [] = ret
ser_loop payment ret ((i, d) ∷ input) = elim (admit payment d) [
  | none ↦ ser_loop payment ret input
  | some d' ↦ ser_loop payment (insert identity_key i d' ret) input
]

unfoldable pub ser_to_debt_data : PaymentSettings → DebtData → DebtData
ser_to_debt_data payment input = ser_loop payment [] input

-- `DebtKeeper::default`, from what the two readers of the file came to.
unfoldable pub default : PaymentSettings → Option DebtData → Option DebtData → DebtKeeper
default payment none none = record { last_save = none; debt_data = [] }
default payment none (some val) = record {
  last_save = none;
  debt_data = ser_to_debt_data payment val;
}
default payment (some val) none = record {
  last_save = none;
  debt_data = ser_to_debt_data payment val;
}
default payment (some val) (some _) = record {
  last_save = none;
  debt_data = ser_to_debt_data payment val;
}
