-- ===== src/Paymaster/Server/Setup.antt =====
-- paymaster-service/src/main.rs: the set-up of the sponsor server from the variables of the process.
pub mod Configured
use ckb_controller.Base.{
  ℕ, Option, none, some, List, [], ◌∷◌, Result, ok, err, ok_or, map_err, ◌>>=◌, u32_mod, u64_mod,
}
use ckb_controller.Bytes.{Bytes}
use ckb_controller.Text.{codes, trim_0x, split_once, parse_uint}
use ckb_controller.Host.{Script, OutPoint, CellDep}
use ckb_controller.Paymaster.Service.{SponsorService}
use ckb_controller.Paymaster.Biscuit.{Engine, new}
use ckb_controller.Paymaster.Rpc.{Node, anyhow}
use ckb_controller.Paymaster.Server.{Formats, service}

-- The variables that are set, the parsers of hex and ckb_types, and the client for the node at a url.
pub record Variables : Type 0 where
  pub var : Bytes → Option Bytes
  pub hex_decode : Bytes → Option Bytes
  pub h256_from_str : Bytes → Option Bytes
  pub node : Bytes → Node

abbrev pub sighash_code_hash : Bytes
sighash_code_hash = codes "9bd7e06f3ecf4be0f2fcd2188b23f1b9fcc88e5d4b65a8637b17723bbda3cce8"

abbrev or_default : Option Bytes → Bytes → Bytes
or_default none default = default
or_default (some s) default = s

module _ (v : Variables) where
  abbrev pub env_or : Bytes → Bytes → Bytes
  env_or name default = or_default (v.var name) default

  abbrev pub require : Bytes → Result Bytes Bytes
  require name = ok_or (v.var name) anyhow

  abbrev pub hex_bytes : Bytes → Result Bytes Bytes
  hex_bytes s = ok_or (v.hex_decode (trim_0x s)) anyhow

  unfoldable pub outpoint_from_str : Bytes → Result Bytes OutPoint
  outpoint_from_str s = do
    (tx, idx) ← ok_or (split_once b':' s) anyhow
    tx_hash ← ok_or (v.h256_from_str (trim_0x tx)) anyhow
    index ← ok_or (parse_uint u32_mod idx) anyhow
    ok (record { tx_hash = tx_hash; index = index })

  -- The lock of the relayer's wallet; the hash type is `Type`.
  unfoldable pub fee_lock : Bytes → Result Bytes Script
  fee_lock pubkey_hash = do
    code_hash ← ok_or (v.h256_from_str sighash_code_hash) anyhow
    ok (record { code_hash = code_hash; hash_type = 1 ∷ []; args = pubkey_hash })

  -- `main` down to the service; the dep type is `DepGroup`.
  unfoldable pub set_up : Formats → Engine → Result Bytes SponsorService
  set_up f e = do
    let rpc_url = env_or (codes "RPC") (codes "http://127.0.0.1:8114")
    let scope = env_or (codes "SCOPE") (codes "ckb-controller-sponsor")
    fee_rate ← ok_or (parse_uint u64_mod (env_or (codes "FEE_RATE") (codes "1000"))) anyhow
    key ← require (codes "BISCUIT_PUBKEY")
    gate ← map_err (λ x. anyhow) (new e key)
    hash ← require (codes "FEE_PUBKEY_HASH")
    pubkey_hash ← hex_bytes hash
    lock ← fee_lock pubkey_hash
    at ← require (codes "FEE_CELL_DEP")
    out_point ← outpoint_from_str at
    let fee_dep : CellDep = record { out_point = out_point; dep_type = 1 }
    ok (service f e gate (v.node rpc_url) lock fee_dep fee_rate scope)
