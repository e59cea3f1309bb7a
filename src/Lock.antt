-- ===== src/Lock.antt =====
-- contracts/controller-session-lock/src/main.rs: the lock of an account.
pub mod Types
pub mod Signatures
pub mod Policy
pub mod Account
pub mod Session
