-- ===== src/Tests.antt =====
-- Concrete boards, transactions and hosts, and the theorems applied to them.
pub mod Hosts
pub mod Board
pub mod Chain
pub mod Cells
pub mod Off
pub mod Tokens
pub mod Registered
pub mod Carried
pub mod Service
pub mod Signing
pub mod Server
pub mod Started
pub mod Gate
pub mod Browser
pub mod Played
pub mod Paid
