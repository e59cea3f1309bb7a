-- ===== src/Lock/Session.antt =====
-- SESSION mode and the entry of the session lock.
pub mod Spec
pub mod Steps
pub mod Signatures
pub mod Permitted
pub mod Entry
pub mod Revocation
pub mod Halts
use ckb_controller.Base.{
  ℕ, suc, zero, ◌+◌, ◌/◌, Bool, true, false, Option, none, some, List, [], ◌∷◌, length, drop, ltb,
  leb, ◌==◌, not, ◌&&◌, if◌then◌else◌, Result, ok, err,
}
use ckb_controller.Bytes.{Bytes, slice}
use ckb_controller.Bytes.Equality.{bytes_eq}
use ckb_controller.Host.{Source, group_input, Host, Script, WitnessArgs}
use ckb_controller.Run.{Run, done, failed, panicked, out_of_fuel, fail_if, ◌>>=◌, ◌>>◌}
use ckb_controller.Lock.Types.{
  Error, sys, SessionParams, parse_session_params, args_len, owner_only_args_len,
  session_params_len, signature_len, no_expiry, wildcard_root, zero_key_hash, auth_id_ckb_secp256k1,
  mode_owner, mode_session, multiple_inputs, args_len_error, empty_witness_error, witness_len_error,
  invalid_mode, session_disabled, session_expired,
}
use ckb_controller.Lock.Signatures.{
  tx_message, verify_signature, verify_owner, session_auth_message, current_revocation_epoch,
}
use ckb_controller.Lock.Policy.{check_output_policies}
use ckb_controller.Lock.Account.{enforce_account_outputs, check_spend_cap, current_timestamp_ms}

module _ (host : Host) where
  -- The carried model: the owner signed these params at the account's current epoch.
  unfoldable pub carried_params : Bytes → Bytes → Bytes → Run Error (SessionParams × Bytes)
  carried_params script_hash args rest = do
    fail_if (ltb (length rest) (session_params_len + signature_len)) witness_len_error
    let params_block = slice 0 session_params_len rest
    let owner_auth = slice session_params_len (session_params_len + signature_len) rest
    epoch ← current_revocation_epoch host
    let auth_msg = session_auth_message host script_hash epoch params_block
    verify_signature host auth_id_ckb_secp256k1 owner_auth auth_msg (slice 0 20 args)
    done (parse_session_params params_block, drop (session_params_len + signature_len) rest)

  -- The params and the signature region, by the trust model that the length of the args selects.
  unfoldable pub resolve_params : Bytes → Bytes → Bytes → Run Error (SessionParams × Bytes)
  resolve_params script_hash args rest =
      if length args == args_len
      then done (parse_session_params (slice owner_only_args_len args_len args), rest)
      else if length args == owner_only_args_len
      then carried_params script_hash args rest
      else failed args_len_error

  -- Step (1b): the guardian's signature, if the params set a guardian. It returns the proof region.
  unfoldable pub verify_guardian : SessionParams → Bytes → Bytes → Run Error Bytes
  verify_guardian params sig_region message =
      if bytes_eq params.guardian_pubkey_hash zero_key_hash
      then done (drop signature_len sig_region)
      else (do
        fail_if (ltb (length sig_region) (signature_len + signature_len)) witness_len_error
        let guardian_sig = slice signature_len (signature_len + signature_len) sig_region
        verify_signature host auth_id_ckb_secp256k1 guardian_sig message params.guardian_pubkey_hash
        done (drop (signature_len + signature_len) sig_region))

  -- Steps (0) and (1).
  unfoldable pub verify_session_key : SessionParams → Bytes → Bytes → Run Error (Unit {0})
  verify_session_key params sig_region message = do
    fail_if (bytes_eq params.session_pubkey_hash zero_key_hash) session_disabled
    fail_if (ltb (length sig_region) signature_len) witness_len_error
    let session_sig = slice 0 signature_len sig_region
    verify_signature host auth_id_ckb_secp256k1 session_sig message params.session_pubkey_hash

  -- Step (2).
  unfoldable pub check_expiry : SessionParams → Run Error (Unit {0})
  check_expiry params = if params.expires_at == no_expiry then done tt else (do
    now_ms ← current_timestamp_ms host
    fail_if (leb params.expires_at (now_ms / 1000)) session_expired)

  -- Step (3).
  unfoldable pub check_policies : ℕ → Script → SessionParams → Bytes → Run Error (Unit {0})
  check_policies fuel script params proof_region =
      if bytes_eq params.policies_root wildcard_root
      then done tt
      else check_output_policies host script params.policies_root proof_region fuel

  -- `fuel` bounds the number of outputs and of account cells.
  unfoldable pub verify_session : ℕ → Script → Bytes → Bytes → Bytes → Bytes → Run Error (Unit {0})
  verify_session fuel script script_hash args rest message = do
    (params, sig_region) ← resolve_params script_hash args rest
    verify_session_key params sig_region message
    proof_region ← verify_guardian params sig_region message
    check_expiry params
    check_policies fuel script params proof_region
    returned_capacity ← enforce_account_outputs host fuel script args
    check_spend_cap host fuel params.spend_cap returned_capacity

  -- The SESSION arm of the `match` on the mode.
  unfoldable pub enter_session : ℕ → Script → Bytes → Bytes → Run Error (Unit {0})
  enter_session fuel script rest message = do
    script_hash ← sys host.load_script_hash
    verify_session fuel script script_hash script.args rest message

  -- The `match` on the mode, the first byte of the unlock data.
  unfoldable pub dispatch : ℕ → Script → Bytes → Bytes → Run Error (Unit {0})
  dispatch fuel script [] message = failed empty_witness_error
  dispatch fuel script (mode ∷ rest) message =
      if mode == mode_owner
      then verify_owner host script.args rest message
      else if mode == mode_session
      then enter_session fuel script rest message
      else failed invalid_mode

  -- `witness_args.lock().to_opt().ok_or(Error::EmptyWitnessError)?`
  abbrev lock_field : WitnessArgs → Run Error Bytes
  lock_field w = elim (w.lock) [ none ↦ failed empty_witness_error | some b ↦ done b ]

  -- `load_input_since(1, Source::GroupInput).is_ok()`
  abbrev has_second_input : Bool
  has_second_input = elim (host.load_input_since 1 group_input) [ ok _ ↦ true | err _ ↦ false ]

  -- `auth`, which `program_entry` runs.
  unfoldable pub auth : ℕ → Run Error (Unit {0})
  auth fuel = do
    fail_if has_second_input multiple_inputs
    script ← sys host.load_script
    fail_if
        (not (length script.args == args_len) && not (length script.args == owner_only_args_len))
        args_len_error
    witness_args ← sys (host.load_witness_args 0 group_input)
    lock_bytes ← lock_field witness_args
    fail_if (length lock_bytes == 0) empty_witness_error
    message ← tx_message host
    dispatch fuel script lock_bytes message
