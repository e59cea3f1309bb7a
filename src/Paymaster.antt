-- ===== src/Paymaster.antt =====
-- paymaster/src/lib.rs: a relayer that pays the fee of those who hold a token.
pub mod Assemble
pub mod Token
pub mod Biscuit
pub mod Sponsor
pub mod Service
pub mod Rpc
pub mod Server
