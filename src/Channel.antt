-- ===== src/Channel.antt =====
-- sdk/src/channel.rs: a payment channel on the budget of a session.
pub mod Rail
pub mod Session
pub mod Funding
