-- ===== src/Lock/Session/Halts.antt =====
-- The steps of the session lock outside of its loops do not run out of fuel.
pub mod Entry
use ckb_controller.Base.{
  ℕ, zero, suc, ◌+◌, ◌*◌, ◌<◌, ◌≡◌, ◌≢◌, refl, arith, Bool, true, false, Option, none, some, List,
  [], ◌∷◌, ◌&&◌, not, length, drop, get_elem?-drop_cons, get_elem?-drop_nil, Bool-cases, inl, inr,
  ltb, leb, ◌==◌, ◌/◌, if◌then◌else◌, Result, ok, err, ◌∙◌,
}
use ckb_controller.Bytes.{Bytes, slice}
use ckb_controller.Bytes.Equality.{bytes_eq}
use ckb_controller.Host.{
  Transaction, SysError, Source, output, group_input, Host, Script, WitnessArgs, Cell, Context,
  IsRunOn,
}
use ckb_controller.Run.{
  Halts, done-Halts, failed-Halts, panicked-Halts, if-Halts, guarded, Run, done, failed, panicked,
  out_of_fuel, fail_if, ◌>>=◌, ◌>>◌, >>=-has_fuel, fail_if-has_fuel,
}
use ckb_controller.Lock.Types.{
  Error, sys, from_sys, SessionParams, mode_owner, mode_session, args_len, owner_only_args_len,
  zero_key_hash, session_disabled, witness_len_error, empty_witness_error, policy_not_allowed,
}
use ckb_controller.Lock.Signatures.{
  or_auth_error, tx_message, verify_signature, verify_owner, current_revocation_epoch,
}
use ckb_controller.Lock.Policy.{
  same_code, policy_leaf, consume_proof, policy_step, policy_loop, check_output_policies, or_break,
  byte_at, merkle_verify,
}
use ckb_controller.Lock.Policy.Allowed.{policy_loop_next, policy_loop_end}
use ckb_controller.Lock.Account.Kept.{account_loop_next, account_loop_end}
use ckb_controller.Lock.Account.{
  keep_account, account_step, account_loop, enforce_account_outputs, capacity_loop, check_outflow,
  check_spend_cap, current_timestamp_ms,
}
use ckb_controller.Lock.Session.{
  carried_params, resolve_params, verify_guardian, verify_session_key, check_expiry, check_policies,
  verify_session, enter_session, dispatch, lock_field, auth,
}

pub sys-Halts : {A : Type 0} (r : Result SysError A) → Halts (sys r)
sys-Halts (ok a) = λ p. cc
sys-Halts (err SysError.index_out_of_bound) = λ p. cc
sys-Halts (err SysError.item_missing) = λ p. cc
sys-Halts (err (SysError.length_not_enough n)) = λ p. cc
sys-Halts (err SysError.encoding) = λ p. cc
sys-Halts (err (SysError.unknown code)) = λ p. cc
sys-Halts (err SysError.spawn_related) = λ p. cc

pub or_auth_error-Halts : {A : Type 0} (r : Result SysError A) → Halts (or_auth_error r)
or_auth_error-Halts (ok a) = λ p. cc
or_auth_error-Halts (err e) = λ p. cc

module _ (host : Host) where
  pub tx_message-Halts : Halts (tx_message host)
  unfolding tx_message
  tx_message-Halts =
      elim (host.load_transaction)
        as (λ (r : Result SysError Transaction). Halts {E = Error} {A = Bytes} (elim r [
          | ok tx ↦ done (host.blake2b_256 (host.raw_as_slice (record tx.raw { cell_deps = [] })))
          | err e ↦ panicked
        ])) [ ok tx ↦ done-Halts _ | err e ↦ panicked-Halts ]

  pub verify_signature-Halts :
      (algorithm : ℕ) (signature message hash : Bytes)
      → Halts (verify_signature host algorithm signature message hash)
  unfolding verify_signature
  verify_signature-Halts algorithm signature message hash =
      >>=-has_fuel (or_auth_error _) _ (or_auth_error-Halts _) (λ pid.
        >>=-has_fuel (or_auth_error (host.wait pid)) _ (or_auth_error-Halts (host.wait pid))
          (λ result. if-Halts (result == 0) (done-Halts tt) (failed-Halts _)))

  pub verify_owner-Halts : (args rest message : Bytes) → Halts (verify_owner host args rest message)
  unfolding verify_owner
  verify_owner-Halts args rest message =
      if-Halts (ltb (length rest) 65) (failed-Halts _) (verify_signature-Halts _ _ message _)

  pub current_revocation_epoch-Halts : Halts (current_revocation_epoch host)
  unfolding current_revocation_epoch
  current_revocation_epoch-Halts =
      >>=-has_fuel (sys (host.load_cell_data 0 group_input)) _ (sys-Halts _) (λ c. done-Halts _)

  pub resolve_params-Halts :
      (script_hash args rest : Bytes) → Halts (resolve_params host script_hash args rest)
  unfolding resolve_params carried_params
  resolve_params-Halts script_hash args rest = if-Halts (length args == args_len) (done-Halts _) (
      if-Halts (length args == owner_only_args_len)
        (guarded _ _ (
          >>=-has_fuel (current_revocation_epoch host) _ current_revocation_epoch-Halts (λ epoch.
            >>=-has_fuel (verify_signature host _ _ _ _) _ (verify_signature-Halts _ _ _ _)
              (λ _. done-Halts _))))
        (failed-Halts _))

  pub verify_session_key-Halts :
      (params : SessionParams) (sig_region message : Bytes)
      → Halts (verify_session_key host params sig_region message)
  unfolding verify_session_key
  verify_session_key-Halts params sig_region message =
      guarded (bytes_eq params.session_pubkey_hash zero_key_hash) session_disabled (
        guarded (ltb (length sig_region) 65) witness_len_error
          (verify_signature-Halts 0 (slice 0 65 sig_region) message params.session_pubkey_hash))

  pub verify_guardian-Halts :
      (params : SessionParams) (sig_region message : Bytes)
      → Halts (verify_guardian host params sig_region message)
  unfolding verify_guardian
  verify_guardian-Halts params sig_region message = if-Halts _ (done-Halts _) (
      guarded _ _ (
        >>=-has_fuel (verify_signature host _ _ message _) _ (verify_signature-Halts _ _ message _)
          (λ _. done-Halts _)))

  pub check_expiry-Halts : (params : SessionParams) → Halts (check_expiry host params)
  unfolding check_expiry current_timestamp_ms
  check_expiry-Halts params = if-Halts _ (done-Halts tt) (
      >>=-has_fuel (sys (host.load_header 0 Source.header_dep)) _ (sys-Halts _)
        (λ now. fail_if-has_fuel _ _))

  pub policy_leaf-Halts : (kind i : ℕ) (lock : Script) → Halts (policy_leaf host kind i lock)
  unfolding policy_leaf
  policy_leaf-Halts kind i lock =
      if-Halts (kind == 0)
        (>>=-has_fuel (sys (host.load_cell_type i output)) _ (sys-Halts _) (λ t.
          elim t
            as (λ (u : Option Script).
              (elim u [
                | some s ↦ done (host.blake2b_256 (host.calc_script_hash s))
                | none ↦ failed policy_not_allowed
              ])
              ≢ out_of_fuel) [ some s ↦ done-Halts _ | none ↦ failed-Halts policy_not_allowed ]))
        (if-Halts (kind == 1) (done-Halts _) (failed-Halts _))

  pub consume_proof-Halts :
      (root region : Bytes) (cursor i : ℕ) (lock : Script)
      → Halts (consume_proof host root region cursor i lock)
  unfolding consume_proof
  consume_proof-Halts root region cursor i lock =
      let size = byte_at region (cursor + 1) * 32 in
      guarded (ltb (length region) (cursor + 2)) _ (
        guarded (ltb (length region) (cursor + 2 + size)) _ (
          >>=-has_fuel (policy_leaf host (byte_at region cursor) i lock) _
            (policy_leaf-Halts _ i lock)
            (λ leaf.
              guarded
                (not (merkle_verify host root leaf (slice (cursor + 2) (cursor + 2 + size) region)))
                _ (done-Halts _))))

  pub policy_step-Halts :
      (script : Script) (root region : Bytes) (cursor i : ℕ) (lock : Script)
      → Halts (policy_step host script root region cursor i lock)
  unfolding policy_step
  policy_step-Halts script root region cursor i lock =
      if-Halts (same_code lock script) (done-Halts cursor)
        (consume_proof-Halts root region cursor i lock)

  pub account_step-Halts :
      (script : Script) (args content : Bytes) (i returned : ℕ) (lock : Script)
      → Halts (account_step host script args content i returned lock)
  unfolding account_step keep_account
  account_step-Halts script args content i returned lock =
      if-Halts (same_code lock script)
        (guarded _ _ (
          >>=-has_fuel (sys (host.load_cell_data i output)) _ (sys-Halts _) (λ c. guarded _ _ (
            >>=-has_fuel (sys (host.load_cell_capacity i output)) _ (sys-Halts _)
              (λ n. done-Halts _)))))
        (done-Halts returned)
