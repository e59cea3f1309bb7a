-- ===== src/Client.antt =====
-- The browser's bindings, wasm/src/lib.rs: what crosses to JavaScript are texts and integers.
pub mod Encoding
pub mod Games
pub mod Channels
pub mod Texts
pub mod Proofs
pub mod Posted
pub mod Applied
pub mod Closed
use ckb_controller.Base.{
  ℕ, ◌++◌, Option, none, some, List, [], ◌∷◌, length, ◌==◌, if◌then◌else◌, u128_mod,
}
use ckb_controller.Bytes.{Bytes}
use ckb_controller.Text.{codes, trim_0x, parse_uint}
use ckb_controller.Host.{Script, OutPoint, RawTransaction, Transaction, WitnessArgs}
use ckb_controller.Run.{Run, done, failed, panicked, out_of_fuel, ◌>>=◌}
use ckb_controller.Game.{GameError}
use ckb_controller.Channel.Rail.{MockRailError}
use ckb_controller.Channel.Session.{ChannelError}

-- The libraries' functions: hex, the digest, the molecule encodings and bech32.
pub record Libraries : Type 0 where
  pub hex_encode : Bytes → Bytes
  pub hex_decode : Bytes → Option Bytes
  pub blake2b_256 : Bytes → Bytes
  pub calc_script_hash : Script → Bytes
  pub raw_as_slice : RawTransaction → Bytes
  pub tx_hash : Transaction → Bytes
  pub script_as_slice : Script → Bytes
  pub script_from_slice : Bytes → Option Script
  pub transaction_as_slice : Transaction → Bytes
  pub transaction_from_slice : Bytes → Option Transaction
  pub out_point_as_slice : OutPoint → Bytes
  pub as_bytes : WitnessArgs → Bytes
  -- `bech32::encode` of the payload in base 32, by the prefix
  pub bech32m : Bytes → Bytes → Option Bytes

-- What a call throws, without the words of its text.
pub data Thrown : Type 0 where
  invalid_hex invalid_u128 invalid_transaction invalid_script bech32_error session_closed
        bad_outpoint bad_index :
      Thrown
  expected_bytes : ℕ → Thrown
  bad_state bad_batch bad_intent apply_failed : GameError → Thrown
  open_failed pay_failed close_failed : ChannelError MockRailError → Thrown

-- `R<T>` of an option.
abbrev pub or_throw : {A : Type 0} → Thrown → Option A → Run Thrown A
or_throw e none = failed e
or_throw e (some a) = done a

-- `try_into` an array.
abbrev pub sized : ℕ → Bytes → Run Thrown Bytes
sized n b = if length b == n then done b else failed (expected_bytes n)

abbrev pub parse_u128 : Bytes → Run Thrown ℕ
parse_u128 s = or_throw invalid_u128 (parse_uint u128_mod s)

module _ (l : Libraries) where
  abbrev pub hx : Bytes → Run Thrown Bytes
  hx s = or_throw invalid_hex (l.hex_decode (trim_0x s))

  unfoldable pub arr20 : Bytes → Run Thrown Bytes
  arr20 s = hx s >>= sized 20

  unfoldable pub arr32 : Bytes → Run Thrown Bytes
  arr32 s = hx s >>= sized 32

  abbrev pub hexout : Bytes → Bytes
  hexout b = codes "0x" ++ l.hex_encode b

  -- A script from its molecule encoding in hex.
  abbrev pub script_from : Bytes → Run Thrown Script
  script_from s = hx s >>= λ b. or_throw invalid_script (l.script_from_slice b)

  -- `leaves_from`
  unfoldable pub leaves_from : List Bytes → Run Thrown (List Bytes)
  leaves_from [] = done []
  leaves_from (h ∷ hs) = do leaf ← arr32 h; leaves ← leaves_from hs; done (leaf ∷ leaves)
