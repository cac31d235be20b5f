-- ===== src/DebtKeeper.antt =====
-- rita_common/src/debt_keeper/mod.rs: who owes whom, and what is done about it.
pub mod Node
pub mod Limit
pub mod Update
pub mod Keeper
pub mod Normalize
pub mod Load
mod Tests
