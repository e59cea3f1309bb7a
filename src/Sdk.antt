-- ===== src/Sdk.antt =====
-- sdk/src/lib.rs: the off-chain side of the session lock.
pub mod Merkle
pub mod Account
