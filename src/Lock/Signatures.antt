-- ===== src/Lock/Signatures.antt =====
-- The messages of the session lock, and the signature checks that it delegates to ckb-auth.
use ckb_controller.Base.{ℕ, [], ◌∷◌, ◌++◌, length, ltb, ◌==◌, if◌then◌else◌, Result, ok, err}
use ckb_controller.Bytes.{Bytes, slice, to_le, from_le}
use ckb_controller.Host.{SysError, group_input, Host, data1}
use ckb_controller.Run.{Run, done, failed, panicked, ◌>>=◌}
use ckb_controller.Lock.Types.{
  Error, auth_error, witness_len_error, sys, session_auth_domain, signature_len,
  auth_id_ckb_secp256k1, revocation_epoch_len,
}

-- `.map_err(|_| Error::AuthError)?`
abbrev pub or_auth_error : {A : Type 0} → Result SysError A → Run Error A
or_auth_error (ok a) = done a
or_auth_error (err e) = failed auth_error

module _ (host : Host) where
  unfoldable pub tx_message : Run Error Bytes
  tx_message = elim (host.load_transaction) [
    | ok tx ↦ done (host.blake2b_256 (host.raw_as_slice (record tx.raw { cell_deps = [] })))
    | err e ↦ panicked
  ]

  unfoldable pub verify_signature : ℕ → Bytes → Bytes → Bytes → Run Error (Unit {0})
  verify_signature algorithm_id signature message pubkey_hash = do
    let auth_args =
        host.hex_encode (algorithm_id ∷ [])
        ∷ host.hex_encode signature
        ∷ host.hex_encode message
        ∷ host.hex_encode pubkey_hash
        ∷ []
    pid ← or_auth_error (host.spawn_cell host.auth_code_hash data1 auth_args)
    result ← or_auth_error (host.wait pid)
    if result == 0 then done tt else failed auth_error

  unfoldable pub verify_owner : Bytes → Bytes → Bytes → Run Error (Unit {0})
  verify_owner args rest message =
      if ltb (length rest) signature_len
      then failed witness_len_error
      else verify_signature auth_id_ckb_secp256k1 (slice 0 signature_len rest) message
          (slice 0 20 args)

  -- The bytes that are hashed: the buffer of `session_auth_message`, part by part.
  abbrev pub session_auth_bytes : Bytes → ℕ → Bytes → Bytes
  session_auth_bytes script_hash epoch params =
      session_auth_domain ++ (script_hash ++ (to_le 8 epoch ++ params))

  unfoldable pub session_auth_message : Bytes → ℕ → Bytes → Bytes
  session_auth_message script_hash epoch params =
      host.blake2b_256 (session_auth_bytes script_hash epoch params)

  unfoldable pub current_revocation_epoch : Run Error ℕ
  current_revocation_epoch = do
    content ← sys (host.load_cell_data 0 group_input)
    done (
        if ltb (length content) revocation_epoch_len
        then 0
        else from_le (slice 0 revocation_epoch_len content))
