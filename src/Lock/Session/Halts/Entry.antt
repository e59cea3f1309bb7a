-- ===== src/Lock/Session/Halts/Entry.antt =====
-- The loops of the session lock and its entry, with fuel for the cells of a transaction.
use ckb_controller.Base.{
  ℕ, zero, suc, ◌+◌, ◌<◌, ◌≡◌, ◌≢◌, refl, arith, Option, none, some, List, [], ◌∷◌, length, drop,
  get_elem?-drop_cons, get_elem?-drop_nil, ◌==◌, ok, err, ◌∙◌,
}
use ckb_controller.Bytes.{Bytes}
use ckb_controller.Host.{SysError, group_input, Host, Script, WitnessArgs, Cell, Context, IsRunOn}
use ckb_controller.Run.{
  Halts, done-Halts, failed-Halts, if-Halts, guarded, done, failed, out_of_fuel, >>=-has_fuel,
  fail_if-has_fuel,
}
use ckb_controller.Lock.Types.{sys, SessionParams, mode_owner, mode_session, empty_witness_error}
use ckb_controller.Lock.Signatures.{tx_message}
use ckb_controller.Lock.Policy.{policy_step, policy_loop, check_output_policies}
use ckb_controller.Lock.Policy.Allowed.{policy_loop_next, policy_loop_end}
use ckb_controller.Lock.Account.Kept.{account_loop_next, account_loop_end}
use ckb_controller.Lock.Account.{
  account_step, account_loop, enforce_account_outputs, capacity_loop, check_outflow,
  check_spend_cap,
}
use ckb_controller.Lock.Session.{
  resolve_params, verify_guardian, verify_session_key, check_expiry, check_policies, verify_session,
  enter_session, dispatch, lock_field, auth,
}
use ckb_controller.Lock.Session.Halts.{
  sys-Halts, tx_message-Halts, verify_owner-Halts, resolve_params-Halts, verify_session_key-Halts,
  verify_guardian-Halts, check_expiry-Halts, policy_step-Halts, account_step-Halts,
}

module _ (host : Host) (tx : Context) (run : IsRunOn tx host) where
  policy_loop-Halts :
      (script : Script) (root region : Bytes) (fuel cursor i : ℕ) (cells : List Cell)
      → length cells < fuel
      → drop i tx.outputs ≡ cells
      → Halts (policy_loop host script root region fuel cursor i)
  policy_loop-Halts script root region zero cursor i cells h at = absurd (omega arith)
  policy_loop-Halts script root region (suc fuel) cursor i [] h at =
      rw
        (policy_loop_end host tx run root region script fuel cursor i
          (get_elem?-drop_nil i tx.outputs at))
        (done-Halts tt)
  policy_loop-Halts script root region (suc fuel) cursor i (c ∷ cells) h at =
      let (now, next) = get_elem?-drop_cons i tx.outputs at in
      rw (policy_loop_next host tx run root region script fuel cursor i c now) (
        >>=-has_fuel (policy_step host script root region cursor i c.lock) _
          (policy_step-Halts host script root region cursor i c.lock)
          (λ cursor'.
            policy_loop-Halts script root region fuel cursor' (i + 1) cells (omega arith) next))

  account_loop-Halts :
      (script : Script) (args content : Bytes) (fuel i returned : ℕ) (cells : List Cell)
      → length cells < fuel
      → drop i tx.outputs ≡ cells
      → Halts (account_loop host script args content fuel i returned)
  account_loop-Halts script args content zero i returned cells h at = absurd (omega arith)
  account_loop-Halts script args content (suc fuel) i returned [] h at =
      rw
        (account_loop_end host tx run script args content fuel i returned
          (get_elem?-drop_nil i tx.outputs at))
        (done-Halts returned)
  account_loop-Halts script args content (suc fuel) i returned (c ∷ cells) h at =
      let (now, next) = get_elem?-drop_cons i tx.outputs at in
      rw (account_loop_next host tx run script args content fuel i returned c now) (
        >>=-has_fuel (account_step host script args content i returned c.lock) _
          (account_step-Halts host script args content i returned c.lock)
          (λ r. account_loop-Halts script args content fuel (i + 1) r cells (omega arith) next))

  capacity_loop-Halts :
      (fuel i total : ℕ) (cells : List Cell)
      → length cells < fuel
      → drop i tx.group_inputs ≡ cells
      → Halts (capacity_loop host fuel i total)
  unfolding capacity_loop
  capacity_loop-Halts zero i total cells h at = absurd (omega arith)
  capacity_loop-Halts (suc fuel) i total [] h at =
      let found : host.load_cell_capacity i group_input ≡ err SysError.index_out_of_bound =
        run.capacity_is i group_input ∙ rw (get_elem?-drop_nil i tx.group_inputs at) in
      rw (capacity_loop, found) (done-Halts total)
  capacity_loop-Halts (suc fuel) i total (c ∷ cells) h at =
      let (now, next) = get_elem?-drop_cons i tx.group_inputs at in
      let found : host.load_cell_capacity i group_input ≡ ok c.capacity =
        run.capacity_is i group_input ∙ rw now in
      rw (capacity_loop, found) (capacity_loop-Halts fuel (i + 1) _ cells (omega arith) next)

  module _ (fuel : ℕ) (enough : length tx.outputs < fuel)
      (enough' : length tx.group_inputs < fuel) where
    check_spend_cap-Halts : (cap returned : ℕ) → Halts (check_spend_cap host fuel cap returned)
    unfolding check_spend_cap check_outflow
    check_spend_cap-Halts cap returned = if-Halts _ (done-Halts tt) (
        >>=-has_fuel (capacity_loop host fuel 0 0) _
          (capacity_loop-Halts fuel 0 0 tx.group_inputs enough' refl) (λ n. fail_if-has_fuel _ _))

    enforce_account_outputs-Halts :
        (script : Script) (args : Bytes) → Halts (enforce_account_outputs host fuel script args)
    unfolding enforce_account_outputs
    enforce_account_outputs-Halts script args =
        >>=-has_fuel (sys (host.load_cell_data 0 group_input)) _ (sys-Halts _)
          (λ content. account_loop-Halts script args content fuel 0 0 tx.outputs enough refl)

    check_policies-Halts :
        (script : Script) (params : SessionParams) (region : Bytes)
        → Halts (check_policies host fuel script params region)
    unfolding check_policies check_output_policies
    check_policies-Halts script params region =
        if-Halts _ (done-Halts tt)
          (policy_loop-Halts script params.policies_root region fuel 0 0 tx.outputs enough refl)

    verify_session-Halts :
        (script : Script) (script_hash args rest message : Bytes)
        → Halts (verify_session host fuel script script_hash args rest message)
    unfolding verify_session
    verify_session-Halts script script_hash args rest message =
        >>=-has_fuel (resolve_params host script_hash args rest) _
          (resolve_params-Halts host script_hash args rest)
          (λ (params, region).
            >>=-has_fuel (verify_session_key host params region message) _
              (verify_session_key-Halts host params region message)
              (λ _.
                >>=-has_fuel (verify_guardian host params region message) _
                  (verify_guardian-Halts host params region message)
                  (λ proofs.
                    >>=-has_fuel (check_expiry host params) _ (check_expiry-Halts host params) (λ _.
                      >>=-has_fuel (check_policies host fuel script params proofs) _
                        (check_policies-Halts script params proofs)
                        (λ _.
                          >>=-has_fuel (enforce_account_outputs host fuel script args) _
                            (enforce_account_outputs-Halts script args)
                            (λ returned. check_spend_cap-Halts params.spend_cap returned))))))

    dispatch-Halts :
        (script : Script) (unlock message : Bytes)
        → Halts (dispatch host fuel script unlock message)
    unfolding dispatch enter_session
    dispatch-Halts script [] message = failed-Halts _
    dispatch-Halts script (mode ∷ rest) message =
        if-Halts (mode == mode_owner) (verify_owner-Halts host script.args rest message) (
          if-Halts (mode == mode_session)
            (>>=-has_fuel (sys host.load_script_hash) _ (sys-Halts _)
              (λ hash. verify_session-Halts script hash script.args rest message))
            (failed-Halts _))

    lock_field-Halts : (w : WitnessArgs) → Halts (lock_field host w)
    lock_field-Halts w =
        elim (w.lock)
          as (λ (o : Option Bytes).
            (elim o [ none ↦ failed empty_witness_error | some b ↦ done b ]) ≢ out_of_fuel) [
              | none ↦ failed-Halts empty_witness_error
              | some b ↦ done-Halts b
            ]

    -- With fuel for the outputs and for the cells of the group, the lock never runs out of it: it
    -- returns, fails with one of its errors, or panics, whatever its args, its witness and the
    -- answers about signatures.
    pub auth-Halts : auth host fuel ≢ out_of_fuel
    unfolding auth
    auth-Halts = guarded _ _ (
        >>=-has_fuel (sys host.load_script) _ (sys-Halts _) (λ script. guarded _ _ (
          >>=-has_fuel (sys (host.load_witness_args 0 group_input)) _ (sys-Halts _) (λ w.
            >>=-has_fuel (lock_field host w) _ (lock_field-Halts w) (λ unlock. guarded _ _ (
              >>=-has_fuel (tx_message host) _ (tx_message-Halts host)
                (λ message. dispatch-Halts script unlock message)))))))
