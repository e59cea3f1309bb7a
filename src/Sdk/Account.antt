-- ===== src/Sdk/Account.antt =====
-- The args, data, messages and witnesses that sdk/src/lib.rs builds for the session lock.
pub mod Layout
pub mod Unlocks
pub mod Registered
pub mod Carried
pub mod Owner
use ckb_controller.Base.{
  ℕ, ◌%◌, Option, none, some, List, [], ◌∷◌, ◌++◌, length, ◌==◌, if◌then◌else◌,
}
use ckb_controller.Bytes.{Bytes, to_le, concat}
use ckb_controller.Host.{RawTransaction, Transaction, WitnessArgs, Script}
use ckb_controller.Lock.Types.{session_auth_domain}
use ckb_controller.Sdk.Merkle

unfoldable pub session_params : Bytes → ℕ → Bytes → ℕ → Bytes → Bytes
session_params session_pubkey_hash expires_at policies_root spend_cap guardian_pubkey_hash =
    session_pubkey_hash
    ++ (to_le 8 expires_at ++ (policies_root ++ (to_le 16 spend_cap ++ guardian_pubkey_hash)))

abbrev pub owner_only_args : Bytes → Bytes
owner_only_args owner_pubkey_hash = owner_pubkey_hash

abbrev pub registered_args : Bytes → Bytes → Bytes
registered_args owner_pubkey_hash params = owner_pubkey_hash ++ params

unfoldable pub epoch_data : ℕ → Bytes
epoch_data epoch = if epoch == 0 then [] else to_le 8 epoch

-- One round of the loop of `proof_region`; `len() as u8` drops the high bits.
abbrev pub frame : ℕ × List Bytes → Bytes
frame (kind, proof) = kind ∷ length proof % 256 ∷ concat proof

unfoldable pub proof_region : List (ℕ × List Bytes) → Bytes
proof_region [] = []
proof_region (entry ∷ entries) = frame entry ++ proof_region entries

-- `wrap_lock`, as the parsed witness.
abbrev pub wrap_lock : Bytes → WitnessArgs
wrap_lock lock_bytes = record { lock = some lock_bytes; input_type = none; output_type = none }

unfoldable pub owner_witness : Bytes → WitnessArgs
owner_witness owner_sig = wrap_lock (0 ∷ owner_sig)

-- `if let Some(g) = guardian_sig`
abbrev pub or_nothing : Option Bytes → Bytes
or_nothing none = []
or_nothing (some g) = g

unfoldable pub session_witness_registered : Bytes → Option Bytes → Bytes → WitnessArgs
session_witness_registered session_sig guardian_sig region =
    wrap_lock (1 ∷ session_sig ++ (or_nothing guardian_sig ++ region))

unfoldable pub session_witness_carried : Bytes → Bytes → Bytes → Option Bytes → Bytes → WitnessArgs
session_witness_carried params owner_auth session_sig guardian_sig region =
    wrap_lock (1 ∷ params ++ (owner_auth ++ (session_sig ++ (or_nothing guardian_sig ++ region))))

module _ (blake2b : Bytes → Bytes) where
  unfoldable pub tx_message : (RawTransaction → Bytes) → Transaction → Bytes
  tx_message raw_as_slice tx = blake2b (raw_as_slice (record tx.raw { cell_deps = [] }))

  unfoldable pub session_auth_message : Bytes → ℕ → Bytes → Bytes
  session_auth_message script_hash revocation_epoch params =
      blake2b (session_auth_domain ++ (script_hash ++ (to_le 8 revocation_epoch ++ params)))

  abbrev pub policy_leaf_for_script : (Script → Bytes) → Script → Bytes
  policy_leaf_for_script calc_script_hash script =
      Merkle.policy_leaf blake2b (calc_script_hash script)
