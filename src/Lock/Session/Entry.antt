-- ===== src/Lock/Session/Entry.antt =====
-- The entry of the session lock against the conditions on which an account may be spent.
use ckb_controller.Base.{
  ℕ, ◌<◌, ◌≤◌, ◌≡◌, ◌⊎◌, ◌↔◌, arith, false, ◌&&◌, not, [], ◌∷◌, ◌++◌, length, drop, sym, ap, ◌∙◌,
  inl, inr, some, none, get_elem?, u128_mod, ltb, ◌==◌, ==_iff, Bool-cases, Option-cases, ok, err,
  ltb→le, le→ltb, length-append, take-append,
}
use ckb_controller.Bytes.{Bytes, slice, length-slice}
use ckb_controller.Host.{SysError, group_input, Host, Script, Cell, Context, IsRunOn, WitnessArgs}
use ckb_controller.Run.{done, ◌>>=◌, >>=-eq-done, fail_if-done}
use ckb_controller.Lock.Types.{sys, multiple_inputs, args_len_error, empty_witness_error}
use ckb_controller.Lock.Signatures.{tx_message, verify_owner}
use ckb_controller.Lock.Account.Outflow.{total_capacity}
use ckb_controller.Lock.Session.{
  has_second_input, lock_field, dispatch, enter_session, verify_session, auth,
}
use ckb_controller.Lock.Session.Spec.{IsUnlocked, Opens, by_owner, by_session, Accepts, message_of}
use ckb_controller.Lock.Session.Signatures.{split_65, verify_signature-done, verify_signature-of}
use ckb_controller.Lock.Session.Permitted.{verify_session_iff}

lock_field-done :
    (host : Host) (w : WitnessArgs) {b : Bytes} → lock_field host w ≡ done b → w.lock ≡ some b
lock_field-done host w e = elim (Option-cases w.lock) [
  | inl missing ↦ absurd (cc (rw missing at e))
  | inr (b', at) ↦ cc (at, rw at at e)
]

sizes_iff : (n : ℕ) → ((not (n == 116) && not (n == 20)) ≡ false) ↔ ((n ≡ 116) ⊎ (n ≡ 20))
sizes_iff n = ground arith

Opens-length :
    {host : Host} {tx : Context} {cell : Cell} {unlock : Bytes}
    → Opens host tx cell unlock
    → (length unlock == 0) ≡ false
Opens-length (by_owner signature later size shape accepts) = ground arith
Opens-length (by_session p) = ground arith

module _ (host : Host) (tx : Context) (run : IsRunOn tx host) where
  witness_read :
      (w : WitnessArgs)
      → sys (host.load_witness_args 0 group_input) ≡ done w
      → get_elem? tx.group_witnesses 0 ≡ some w
  witness_read w e = elim (Option-cases (get_elem? tx.group_witnesses 0)) [
    | inl missing ↦
        let found : host.load_witness_args 0 group_input ≡ err SysError.index_out_of_bound =
          run.group_witness_is 0 ∙ rw missing in
        absurd (cc (rw found at e))
    | inr (w', at) ↦
        let found : host.load_witness_args 0 group_input ≡ ok w' = run.group_witness_is 0 ∙ rw at in
        cc (at, rw found at e)
  ]

  message_read : tx_message host ≡ done (message_of host tx)
  unfolding tx_message
  message_read = rw run.transaction_is

  second_input_iff : (has_second_input host ≡ false) ↔ (get_elem? tx.group_since 1 ≡ none)
  second_input_iff = elim (Option-cases (get_elem? tx.group_since 1)) [
    | inl missing ↦
        let found : host.load_input_since 1 group_input ≡ err SysError.index_out_of_bound =
          run.since_is 1 ∙ rw missing in
        (λ _. missing, λ _. rw (found, has_second_input))
    | inr (s, at) ↦
        let found : host.load_input_since 1 group_input ≡ ok s = run.since_is 1 ∙ rw at in
        (λ e. absurd (cc (rw (found, has_second_input) at e)), λ e. absurd (cc (e, at)))
  ]

  enter_session_is :
      (fuel : ℕ) (rest message : Bytes)
      → enter_session host fuel tx.script rest message
        ≡ verify_session host fuel tx.script
            (host.calc_script_hash tx.script)
            tx.script.args
            rest
            message
  unfolding enter_session
  enter_session_is fuel rest message =
      ap (λ r. sys r >>= λ h. verify_session host fuel tx.script h tx.script.args rest message)
        run.script_hash_is

  verify_owner-done :
      (rest message : Bytes)
      → verify_owner host tx.script.args rest message ≡ done tt
      → (65 ≤ length rest) × Accepts host (slice 0 65 rest) message (slice 0 20 tx.script.args)
  unfolding verify_owner
  verify_owner-done rest message e = elim (Bool-cases (ltb (length rest) 65)) [
    | inl short ↦ absurd (cc (rw short at e))
    | inr wide ↦ (
      ltb→le (length rest) 65 wide,
      verify_signature-done host (slice 0 65 rest) message _ (rw wide at e),
    )
  ]

  verify_owner-of :
      (signature later message : Bytes)
      → length signature ≡ 65
      → Accepts host signature message (slice 0 20 tx.script.args)
      → verify_owner host tx.script.args (signature ++ later) message ≡ done tt
  unfolding verify_owner
  verify_owner-of signature later message size accepts =
      let fits : ltb (length (signature ++ later)) 65 ≡ false =
        le→ltb _ _ (omega (arith, length-append signature later, size)) in
      let cut : slice 0 65 (signature ++ later) ≡ signature = take-append 65 signature later size in
      rw (fits, cut) (verify_signature-of host signature message _ accepts)

  module _ (cell : Cell) (first : get_elem? tx.group_inputs 0 ≡ some cell) (fuel : ℕ)
      (enough : length tx.outputs < fuel) (enough' : length tx.group_inputs < fuel)
      (fits : total_capacity tx.group_inputs < u128_mod) where
    dispatch-Opens :
        (unlock : Bytes)
        → dispatch host fuel tx.script unlock (message_of host tx) ≡ done tt
        → Opens host tx cell unlock
    unfolding dispatch
    dispatch-Opens [] e = absurd (cc e)
    dispatch-Opens (mode ∷ rest) e = elim (Bool-cases (mode == 0)) [
      | inl owner ↦
          let (wide, accepts) = verify_owner-done rest (message_of host tx) (rw owner at e) in
          rw ((==_iff mode 0).0 owner) (
            by_owner (slice 0 65 rest) (drop 65 rest) (length-slice 0 65 rest (omega arith) wide)
              (sym (split_65 rest)) accepts)
      | inr no_owner ↦ elim (Bool-cases (mode == 1)) [
        | inl session ↦
            let mode_is : mode ≡ 1 = (==_iff mode 1).0 session in
            rw mode_is (
              by_session (
                (verify_session_iff host tx run cell first fuel enough enough' fits rest
                    (message_of host tx)).0
                  (sym (enter_session_is fuel rest (message_of host tx))
                    ∙ rw (no_owner, session) at e)))
        | inr neither ↦ absurd (cc (rw (no_owner, neither) at e))
      ]
    ]

    dispatch-of :
        {unlock : Bytes}
        → Opens host tx cell unlock
        → dispatch host fuel tx.script unlock (message_of host tx) ≡ done tt
    unfolding dispatch
    dispatch-of (by_owner signature later size shape accepts) =
        rw shape (verify_owner-of signature later (message_of host tx) size accepts)
    dispatch-of (by_session {rest} p) =
        enter_session_is fuel rest (message_of host tx)
        ∙ ((verify_session_iff host tx run cell first fuel enough enough' fits rest
              (message_of host tx)).1
            p)

    dispatch_at :
        (script : Script) (unlock message : Bytes)
        → script ≡ tx.script
        → message ≡ message_of host tx
        → dispatch host fuel script unlock message ≡ done tt
        → Opens host tx cell unlock
    dispatch_at script unlock message same same' e = dispatch-Opens unlock (rw (same, same') at e)

    auth-IsUnlocked : auth host fuel ≡ done tt → IsUnlocked host tx cell
    unfolding auth
    auth-IsUnlocked e =
        let (single, e₁) = fail_if-done (has_second_input host) multiple_inputs _ e in
        let (script, got, e₂) = >>=-eq-done (sys host.load_script) _ e₁ in
        let same : script ≡ tx.script = cc (got, ap sys run.script_is) in
        let (sizes, e₃) =
          fail_if-done (not (length script.args == 116) && not (length script.args == 20))
            args_len_error _ e₂ in
        let (w, read, e₄) = >>=-eq-done (sys (host.load_witness_args 0 group_input)) _ e₃ in
        let (unlock, found, e₅) = >>=-eq-done (lock_field host w) _ e₄ in
        let (some_bytes, e₆) = fail_if-done (length unlock == 0) empty_witness_error _ e₅ in
        let (message, signed, e₇) = >>=-eq-done (tx_message host) _ e₆ in
        let message_same : message ≡ message_of host tx = cc (signed, message_read) in
        record {
          single = second_input_iff.0 single;
          args_size = (sizes_iff (length tx.script.args)).0 (rw same at sizes);
          witness = w;
          witness_at = witness_read w read;
          unlock = unlock;
          unlock_is = lock_field-done host w found;
          opens = dispatch_at script unlock message same message_same e₇;
        }

    IsUnlocked-auth : IsUnlocked host tx cell → auth host fuel ≡ done tt
    unfolding auth
    IsUnlocked-auth u =
        let single = second_input_iff.1 u.single in
        let sizes = (sizes_iff (length tx.script.args)).1 u.args_size in
        let read : host.load_witness_args 0 group_input ≡ ok u.witness =
          run.group_witness_is 0 ∙ rw u.witness_at in
        let script_read : sys host.load_script ≡ done tx.script = ap sys run.script_is in
        rw (
          single,
          script_read,
          sizes,
          read,
          u.unlock_is,
          Opens-length u.opens,
          message_read,
          dispatch-of u.opens,
        )

    -- With fuel for the cells and inputs that total below 2 ^ 128, the lock lets the account be spent
    -- exactly if its cell is the only one of the group and its witness opens it: by the owner's
    -- signature, or by a permitted session.
    pub auth_iff : (auth host fuel ≡ done tt) ↔ IsUnlocked host tx cell
    auth_iff = (auth-IsUnlocked, IsUnlocked-auth)
