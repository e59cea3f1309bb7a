-- ===== src/GameServer/Config.antt =====
-- What the set-up of the server reads: variables, configuration values and the deps of a manifest.
use ckb_controller.Base.{
  ℕ, Bool, ◌&&◌, Option, none, some, ◌∷◌, ◌++◌, Result, ok, ok_or, ◌>>=◌, ◌==◌, if◌then◌else◌,
  u32_mod,
}
use ckb_controller.Base.Options as Options
use ckb_controller.Bytes.{Bytes}
use ckb_controller.Text.{codes, trim_0x, split_once, from_str_radix, parse_uint}
use ckb_controller.Text.Decimal.{decimal}
use ckb_controller.Json.{Json, null, at_key, as_str, as_u64}
use ckb_controller.Host.{OutPoint, CellDep, Transaction}
use ckb_controller.Paymaster.Rpc.{Node, anyhow}
use mathlib.Core.Option as Opt

-- The process and the libraries: the variables that are set, the files that can be read, the parsers
-- of serde_json, hex, ckb_types and secp256k1, and the client for the node at a url.
pub record Environment : Type 0 where
  pub var : Bytes → Option Bytes
  pub read_to_string : Bytes → Option Bytes
  pub from_str : Bytes → Option Json
  pub hex_decode : Bytes → Option Bytes
  pub h256_from_str : Bytes → Option Bytes
  pub is_secret_key : Bytes → Bool
  pub node : Bytes → Node

-- `unwrap_or_else` and `or_else` on options.
abbrev pub unwrap_or : {A : Type 0} → Option A → A → A
unwrap_or none a = a
unwrap_or (some b) a = b

abbrev pub or_else : {A : Type 0} → Option A → Option A → Option A
or_else none o = o
or_else (some a) o = some a

-- 10 ^ 8 shannons
abbrev pub ckb : ℕ
ckb = 100000000

abbrev pub default_auth_dep : Bytes
default_auth_dep = codes "0x539e202c058680b1945352800ad8d6edaaf2ec2034d6b2d575aad423bf1a401c:0"

abbrev pub default_secp_dep : Bytes
default_secp_dep = codes "0xf8de3bb47d055cdf460d93a2a6e1b05f7432f9777c8c474abf4eec1d4aee5d37:0"

-- `strip_prefix("0x")`
unfoldable pub strip_0x : Bytes → Option Bytes
strip_0x (a ∷ b ∷ rest) = if a == b'0' && b == b'x' then some rest else none
strip_0x _ = none

-- The index of an outpoint, in hex behind the prefix and in decimal without.
abbrev pub index_of : Bytes → Option ℕ
index_of index = elim (strip_0x index) [
  | some h ↦ from_str_radix 16 u32_mod h
  | none ↦ parse_uint u32_mod index
]

-- The node in memory: it answers with the hash of what it is sent, and its count of that is never
-- read.
abbrev pub mock_send_transaction : (Transaction → Bytes) → Transaction → Result Bytes Bytes
mock_send_transaction hash tx = ok (hash tx)

module _ (env : Environment) where
  unfoldable pub pick : Bytes → Json → Bytes → Bytes
  pick env_name cfg default =
      unwrap_or (or_else (env.var env_name) (or_else (as_str cfg) (Opt.map decimal (as_u64 cfg))))
        default

  unfoldable pub load_json : Bytes → Json
  load_json path = unwrap_or (Options.◌>>=◌ (env.read_to_string path) (λ s. env.from_str s)) null

  unfoldable pub parse_outpoint : Bytes → Result Bytes OutPoint
  parse_outpoint s = do
    (hash, index) ← ok_or (split_once b':' s) anyhow
    n ← ok_or (index_of index) anyhow
    tx_hash ← ok_or (env.h256_from_str (trim_0x hash)) anyhow
    ok (record { tx_hash = tx_hash; index = n })

abbrev pub dep : OutPoint → ℕ → CellDep
dep out_point dep_type = record { out_point = out_point; dep_type = dep_type }

unfoldable pub manifest_dep : Json → Option Bytes
manifest_dep art =
    Opt.map
      (λ (hash : Bytes).
        hash
        ++ (b':'
            ∷ unwrap_or (as_str (at_key (codes "index") (at_key (codes "dep") art))) (codes "0x0")))
      (as_str (at_key (codes "txHash") (at_key (codes "dep") art)))
