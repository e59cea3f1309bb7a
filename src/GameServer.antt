-- ===== src/GameServer.antt =====
-- paymaster-service/src/bin/game-operator.rs: the HTTP server in front of the operator and the
-- invoice relay. serde_json's parser, the crate hex, the node, the signer, the disk and the clock are
-- parameters; what a handler changes is returned with its reply.
pub mod Reports
pub mod Handlers
pub mod Routes
pub mod Outcomes
pub mod Sound
pub mod Log
pub mod Refused
pub mod Config
pub mod Setup
