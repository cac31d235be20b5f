-- ===== src/Validator.antt =====
-- rita_common/src/payment_validator/mod.rs: payments that wait for the chain, and those that are
-- settled.
pub mod State
pub mod Chain
pub mod Incoming
pub mod Batch
pub mod Althea
pub mod Tick
mod Tests
mod TickTests
