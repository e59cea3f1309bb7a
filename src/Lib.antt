-- ===== src/Lib.antt =====
-- The session controller for CKB: models of its on-chain scripts and of the off-chain crates that
-- build, sequence and sponsor their transactions, and what makes them correct.
--
-- The parts, and the files that model them:
--   * contracts/controller-session-lock/src/main.rs, the lock of an account: Lock. Lock/Types has the
--     constants, `Error` and `parse_session_params`; Lock/Signatures the messages, `verify_signature`,
--     `verify_owner` and `current_revocation_epoch`; Lock/Policy `check_output_policies` and
--     `merkle_verify`; Lock/Account `enforce_account_outputs` and `check_spend_cap`; Lock/Session
--     `verify_session`, its steps, and `auth`. Lock/Session/Spec says what may be done, of the
--     transaction alone.
--   * game-rules/src/lib.rs, the rules compiled into the chain and the clients: Game for
--     `apply_intent`, `apply_batch` and `equals_unordered`, Game/Codec for the encodings.
--   * contracts/controller-game-cell/src/main.rs, the type script of a game: GameCell, with
--     GameCell/Legal for what it is to accept and GameCell/Reachable for the boards it lets arise.
--   * sdk/src/lib.rs: Sdk/Merkle for the policy tree, Sdk/Account for args, data, messages and
--     witnesses. sdk/src/channel.rs: Channel/Rail and Channel/Session.
--   * paymaster-service/src/operator.rs, with `flush_or_shed` of src/bin/game-operator.rs: Operator;
--     paymaster-service/src/sighash.rs: Operator/Sighash.
--   * paymaster-service/src/bin/game-operator.rs: Operator/Relay for the queue of invoices,
--     GameServer/Config and GameServer/Setup for `main` down to the operator, GameServer/Reports for
--     the results log and what is written as JSON, GameServer/Handlers for the handlers and
--     GameServer/Routes for a request, its route and the reply.
--   * paymaster/src: Paymaster/Assemble for assemble.rs, Paymaster/Token for authz.rs,
--     Paymaster/Biscuit for biscuit_gate.rs, Paymaster/Sponsor for lib.rs.
--   * paymaster-service/src: Paymaster/Service for service.rs, Paymaster/Rpc for rpc.rs,
--     Paymaster/Server for the handlers and routes of main.rs with `outpoint_str` of lib.rs, and
--     Paymaster/Server/Setup for its `main`.
--   * wasm/src/lib.rs: Client for the hex helpers, Client/Encoding for args, messages, the policy tree
--     and witnesses, Client/Games for moves, batches and boards, Client/Channels for the channel
--     session object.
--   * Text and Json have what the services use of the standard library's strings and of serde_json.
-- The SDK builds what the lock reads, so their theorems meet in Sdk/Account; the client's texts are
-- what the game server reads (Client/Posted) and what the type script checks (Client/Applied); the
-- operator builds and signs what the type script checks, so theirs meet in Operator/Transitions and
-- Operator/Sighash; the game server runs the operator and the relay (GameServer), and the sponsor
-- server runs the service with the biscuit gate and the node's client (Paymaster/Server).
--
-- A script runs against a `Host` (Host): the syscalls, the digest, `hex::encode` and ckb-auth are its
-- fields, and `IsRunOn` says what the syscalls answer in a transaction. An entry comes to a `Run`
-- (Run): it returns, fails with its error, or panics. The loops over cells take fuel; one more than
-- the number of cells is enough, and the theorems on them say so. Integers are natural numbers, and
-- a truncation, a checked or a saturating operation is written out (Base/Words); what the code reads
-- out of range is written out as well. A witness is its parsed form: the molecule encoding is a
-- library's, as are the signatures of ed25519_dalek and secp256k1 and the datalog of biscuit-auth. A
-- server's loop is a list of requests, each with what the node, the signer, the disk and the clock
-- answer while it is served. A text is the list of its bytes.
--
-- Not modelled: the paths of the configuration files, sockets, what is printed, and the texts of
-- JSON and of errors; the overflow of the relay's 64-bit id counter; a `usize` of 32 bits, on which
-- the decoder of a board can overflow; the command line, the demo and the JavaScript SDK, which are
-- not Rust and call the parts above.
pub mod Base
pub mod Bytes
pub mod Text
pub mod Json
pub mod Host
pub mod Run
pub mod Game
pub mod Sdk
pub mod Lock
pub mod GameCell
pub mod Operator
pub mod GameServer
pub mod Channel
pub mod Client
pub mod Paymaster
pub mod Tests
