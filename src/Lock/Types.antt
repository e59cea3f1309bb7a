-- ===== src/Lock/Types.antt =====
-- The constants, errors and session parameters of the session lock.
use ckb_controller.Base.{ℕ, ◌-◌, ◌^◌, [], ◌∷◌, replicate, Result, ok, err}
use ckb_controller.Bytes.{Bytes, slice, from_le}
use ckb_controller.Host.{SysError}
use ckb_controller.Run.{Run, done, failed, panicked}

abbrev pub args_len : ℕ
args_len = 116

abbrev pub owner_only_args_len : ℕ
owner_only_args_len = 20

abbrev pub session_params_len : ℕ
session_params_len = 96

abbrev pub spend_cap_unlimited : ℕ
spend_cap_unlimited = 2 ^ 128 - 1

abbrev pub no_expiry : ℕ
no_expiry = 2 ^ 64 - 1

-- b"ckb-controller/session-auth/v1"
abbrev pub session_auth_domain : Bytes
session_auth_domain =
    b'c' ∷ b'k' ∷ b'b' ∷ b'-' ∷ b'c' ∷ b'o' ∷ b'n' ∷ b't' ∷ b'r' ∷ b'o' ∷ b'l' ∷ b'l' ∷ b'e' ∷ b'r'
    ∷ b'/' ∷ b's' ∷ b'e' ∷ b's' ∷ b's' ∷ b'i' ∷ b'o' ∷ b'n' ∷ b'-' ∷ b'a' ∷ b'u' ∷ b't' ∷ b'h'
    ∷ b'/' ∷ b'v' ∷ b'1' ∷ []

abbrev pub revocation_epoch_len : ℕ
revocation_epoch_len = 8

abbrev pub policy_kind_type : ℕ
policy_kind_type = 0

abbrev pub policy_kind_lock : ℕ
policy_kind_lock = 1

abbrev pub wildcard_root : Bytes
wildcard_root = replicate 32 0xff

abbrev pub signature_len : ℕ
signature_len = 65

abbrev pub mode_owner : ℕ
mode_owner = 0

abbrev pub mode_session : ℕ
mode_session = 1

abbrev pub auth_id_ckb_secp256k1 : ℕ
auth_id_ckb_secp256k1 = 0

abbrev pub zero_key_hash : Bytes
zero_key_hash = replicate 20 0

pub data Error : Type 0 where
  index_out_of_bound item_missing length_not_enough encoding multiple_inputs args_len_error : Error
  empty_witness_error witness_len_error invalid_mode wrong_session_key session_disabled : Error
  session_expired policy_not_allowed policy_proof_missing policy_proof_malformed : Error
  session_cannot_administer spend_cap_exceeded auth_error : Error

-- `impl From<SysError> for Error`, which panics on the errors that no read gives.
abbrev pub from_sys {ℓ} : {A : Type ℓ} → SysError → Run Error A
from_sys SysError.index_out_of_bound = failed index_out_of_bound
from_sys SysError.item_missing = failed item_missing
from_sys (SysError.length_not_enough n) = failed length_not_enough
from_sys SysError.encoding = failed encoding
from_sys (SysError.unknown code) = panicked
from_sys SysError.spawn_related = panicked

-- `call()?` on a syscall.
abbrev pub sys {ℓ} : {A : Type ℓ} → Result SysError A → Run Error A
sys (ok a) = done a
sys (err e) = from_sys e

pub record SessionParams : Type 0 where
  pub session_pubkey_hash : Bytes
  pub expires_at : ℕ
  pub policies_root : Bytes
  pub spend_cap : ℕ
  pub guardian_pubkey_hash : Bytes

unfoldable pub parse_session_params : Bytes → SessionParams
parse_session_params b = record {
  session_pubkey_hash = slice 0 20 b;
  expires_at = from_le (slice 20 28 b);
  policies_root = slice 28 60 b;
  spend_cap = from_le (slice 60 76 b);
  guardian_pubkey_hash = slice 76 96 b;
}
