-- ===== src/GameServer/Setup.antt =====
-- The set-up of the server: the game's id and the chain, and the operator on it.
pub mod Started
pub mod Outpoints
use ckb_controller.Base.{
  ℕ, ◌*◌, Bool, Option, none, some, List, [], ◌∷◌, ◌++◌, length, replicate, Result, ok, err, ok_or,
  map_err, ◌>>=◌, ◌>>◌, ◌==◌, if◌then◌else◌, u64_mod,
}
use ckb_controller.Bytes.{Bytes}
use ckb_controller.Bytes.Equality.{bytes_eq}
use ckb_controller.Text.{codes, trim_0x, parse_uint}
use ckb_controller.Text.Trim.{trim}
use ckb_controller.Json.{Json, string, null, at_key, as_str, optional}
use ckb_controller.Host.{Script, CellOutput, OutPoint, CellDep}
use ckb_controller.Game as Game
use ckb_controller.Game.{GameError, GameState}
use ckb_controller.Game.Codec.{decode_state}
use ckb_controller.Operator.{GameTip, GameOperator, game_type_script, new, with_fee}
use ckb_controller.Operator.Relay.{empty_relay}
use ckb_controller.Paymaster.Rpc.{anyhow, find_cell_by_type}
use ckb_controller.GameServer.Reports.{Server}
use ckb_controller.GameServer.Config.{
  Environment, unwrap_or, or_else, ckb, default_auth_dep, default_secp_dep, pick, parse_outpoint,
  dep, manifest_dep,
}

-- `Byte32::default()` and `Script::default()`
abbrev pub zero_hash : Bytes
zero_hash = replicate 32 0

abbrev pub default_script : Script
default_script = record { code_hash = zero_hash; hash_type = 0 ∷ []; args = [] }

-- The `"mock"` arm: an empty board in memory.
unfoldable pub mock_operator : Bytes → GameOperator
mock_operator game_id =
    let tip_output : CellOutput = record {
      capacity = 1000 * ckb;
      lock = default_script;
      type_script = some (game_type_script zero_hash 4 game_id);
    } in
    new game_id [] (record {
      out_point = record { tx_hash = zero_hash; index = 0 };
      output = tip_output;
      state = Game.empty;
    })

-- `GameState::decode(&data).map_err(..)?`
abbrev pub board_of : Bytes → Result Bytes GameState
board_of content = map_err (λ e. anyhow) (decode_state content)

-- The tip behind a search for the cell of the game.
abbrev pub tip_of : Option (OutPoint × CellOutput × Bytes) → Result Bytes GameTip
tip_of none = err anyhow
tip_of (some (out_point, output, content)) = do
  state ← board_of content
  ok (record { out_point = out_point; output = output; state = state })

module _ (env : Environment) (cfg net : Json) (network : Bytes) where
  -- The bytes of a text in hex.
  abbrev pub hex_bytes : Bytes → Result Bytes Bytes
  hex_bytes s = ok_or (env.hex_decode (trim_0x s)) anyhow

  -- The key of the operator, from the file that holds it in hex.
  unfoldable pub secret_key : Bytes → Result Bytes Bytes
  secret_key keyfile = do
    sk_hex ← ok_or (env.read_to_string keyfile) anyhow
    sk ← hex_bytes (trim sk_hex)
    if env.is_secret_key sk then ok sk else err anyhow

  unfoldable pub fee_of : Result Bytes ℕ
  fee_of =
      ok_or
        (parse_uint u64_mod (
          pick env (codes "FEE") (at_key (codes "feeShannons") (at_key (codes "operator") cfg))
            (codes "100000")))
        anyhow

  -- The game's code, from the manifest or the file that overrides it.
  unfoldable pub deploy_of : Result Bytes Json
  deploy_of = elim (env.var (codes "DEPLOY_FILE")) [
    | none ↦ ok (at_key (codes "game") net)
    | some f ↦ do text ← ok_or (env.read_to_string f) anyhow; ok_or (env.from_str text) anyhow
  ]

  unfoldable pub code_hash_of : Json → Result Bytes Bytes
  code_hash_of deploy = do
    hash ← ok_or (as_str (at_key (codes "codeHash") deploy)) anyhow
    ok_or (env.h256_from_str (trim_0x hash)) anyhow

  unfoldable pub game_dep_of : Json → Result Bytes OutPoint
  game_dep_of deploy = do at ← ok_or (manifest_dep deploy) anyhow; parse_outpoint env at

  unfoldable pub named_dep : Bytes → Bytes → Bytes → Result Bytes OutPoint
  named_dep env_name entry default =
      parse_outpoint env (pick env env_name (optional (manifest_dep (at_key entry net))) default)

  -- The `"http"` arm: the operator on the live cell of the game.
  unfoldable pub http_operator : Bytes → Result Bytes GameOperator
  http_operator game_id = do
    let rpc_url =
        pick env (codes "RPC")
          (at_key (codes "rpc") (at_key network (at_key (codes "networks") cfg)))
          (codes "http://127.0.0.1:8114")
    keyfile ←
        ok_or (or_else (env.var (codes "KEYFILE")) (as_str (at_key (codes "keyFile") cfg))) anyhow
    fee ← fee_of
    sk ← secret_key keyfile
    deploy ← deploy_of
    code_hash ← code_hash_of deploy
    game_dep ← game_dep_of deploy
    auth_dep ← named_dep (codes "AUTH_DEP") (codes "auth") default_auth_dep
    secp_dep ← named_dep (codes "SECP_DEP") (codes "secp256k1Sighash") default_secp_dep
    found ← find_cell_by_type (env.node rpc_url) (game_type_script code_hash 4 game_id)
    tip ← tip_of found
    ok (with_fee fee (new game_id (dep game_dep 0 ∷ dep auth_dep 0 ∷ dep secp_dep 1 ∷ []) tip))

  -- The chain by its name.
  unfoldable pub operator_of : Bytes → Bytes → Result Bytes GameOperator
  operator_of chain game_id =
      if bytes_eq chain (codes "mock")
      then ok (mock_operator game_id)
      else if bytes_eq chain (codes "http")
      then http_operator game_id
      else err anyhow

-- `main` down to the relay and the results log, whose lines are `results`.
unfoldable pub set_up : Environment → Json → Json → List Json → Result Bytes Server
set_up env cfg manifest results = do
  let network =
      unwrap_or (or_else (env.var (codes "NETWORK")) (as_str (at_key (codes "network") cfg)))
        (codes "testnet")
  let net = at_key network manifest
  game_id ←
      hex_bytes env cfg net network
        (pick env (codes "GAME_ID") (at_key (codes "gameId") cfg) (codes "0x" ++ replicate 64 b'0'))
  if length game_id == 32 then ok tt else err anyhow
  let chain =
      pick env (codes "CHAIN") (at_key (codes "chain") (at_key (codes "operator") cfg))
        (codes "mock")
  operator ← operator_of env cfg net network chain game_id
  ok (record { operator = operator; relay = empty_relay; results = results })
