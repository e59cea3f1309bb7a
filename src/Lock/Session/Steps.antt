-- ===== src/Lock/Session/Steps.antt =====
-- The steps of SESSION mode but the signatures: the trust models and the expiry.
use ckb_controller.Base.{
  ◌/◌, ◌≤◌, ◌≡◌, arith, false, ◌++◌, length, drop, ok, err, sym, ◌∙◌, ltb, leb, ◌==◌, le→ltb,
  ltb→le, leb→lt, lt→leb, ==_iff, length-append, drop-append, take-append, take-append-drop,
  drop-drop, Bool-cases, inl, inr, some, get_elem?, Option-cases, subst,
}
use ckb_controller.Bytes.{Bytes, slice, length-slice, slice-append}
use ckb_controller.Host.{SysError, Host, Cell, Context, IsRunOn, group_input, header_dep}
use ckb_controller.Run.{done, >>=-eq-done, fail_if-done, fail_if_last}
use ckb_controller.Lock.Types.{
  SessionParams, parse_session_params, witness_len_error, no_expiry, session_expired,
}
use ckb_controller.Lock.Signatures.{
  verify_signature, current_revocation_epoch, session_auth_message,
}
use ckb_controller.Lock.Account.{current_timestamp_ms}
use ckb_controller.Lock.Session.{carried_params, resolve_params, check_expiry}
use ckb_controller.Lock.Session.Spec.{Grants, registered, carried, epoch_of, IsLive}
use ckb_controller.Lock.Session.Signatures.{verify_signature-done, verify_signature-of}

split_161 : (b : Bytes) → slice 0 96 b ++ (slice 96 161 b ++ drop 161 b) ≡ b
split_161 b =
    let later : slice 96 161 b ++ drop 161 b ≡ drop 96 b =
      rw (drop-drop 65 96 b) at (take-append-drop 65 (drop 96 b)) in
    rw later (take-append-drop 96 b)

module _ (host : Host) (tx : Context) (run : IsRunOn tx host) (cell : Cell)
    (first : get_elem? tx.group_inputs 0 ≡ some cell) where
  pub epoch_read : current_revocation_epoch host ≡ done (epoch_of cell.content)
  unfolding current_revocation_epoch
  epoch_read =
      let found : host.load_cell_data 0 group_input ≡ ok cell.content =
        run.data_is 0 group_input ∙ rw first in
      rw found

  carried_params-Grants :
      (rest region : Bytes) (params : SessionParams)
      → length tx.script.args ≡ 20
      → carried_params host (host.calc_script_hash tx.script) tx.script.args rest
        ≡ done (params, region)
      → Grants host tx cell rest params region
  unfolding carried_params session_auth_message
  carried_params-Grants rest region params short e =
      let (fits, e₁) = fail_if-done (ltb (length rest) 161) witness_len_error _ e in
      let (epoch, read, e₂) = >>=-eq-done (current_revocation_epoch host) _ e₁ in
      let (_, checked, e₃) =
        >>=-eq-done
          (verify_signature host 0 (slice 96 161 rest)
            (session_auth_message host (host.calc_script_hash tx.script) epoch (slice 0 96 rest))
            (slice 0 20 tx.script.args))
          _ e₂ in
      let now : epoch_of cell.content ≡ epoch = cc (epoch_read, read) in
      let wide : 161 ≤ length rest = ltb→le (length rest) 161 fits in
      let params_is : parse_session_params (slice 0 96 rest) ≡ params = cc e₃ in
      let region_is : drop 161 rest ≡ region = cc e₃ in
      let accepts =
        verify_signature-done host (slice 96 161 rest)
          (session_auth_message host (host.calc_script_hash tx.script) epoch (slice 0 96 rest))
          (slice 0 20 tx.script.args) checked in
      let granted : Grants host tx cell rest (parse_session_params (slice 0 96 rest)) region =
        carried {sig_region = region} short (slice 0 96 rest) (slice 96 161 rest)
          (length-slice 0 96 rest (omega arith) (omega (arith, wide)))
          (length-slice 96 161 rest (omega arith) wide) (rw region_is at (sym (split_161 rest)))
          (rw now accepts) in
      subst (λ p. Grants host tx cell rest p region) params_is granted

  pub resolve_params-Grants :
      (rest region : Bytes) (params : SessionParams)
      → resolve_params host (host.calc_script_hash tx.script) tx.script.args rest
        ≡ done (params, region)
      → Grants host tx cell rest params region
  unfolding resolve_params
  resolve_params-Grants rest region params e = elim (Bool-cases (length tx.script.args == 116)) [
    | inl long ↦
        let whole = (==_iff (length tx.script.args) 116).0 long in
        let e₁ = rw long at e in
        let params_is : parse_session_params (slice 20 116 tx.script.args) ≡ params = cc e₁ in
        let region_is : rest ≡ region = cc e₁ in
        let granted : Grants host tx cell rest (parse_session_params (slice 20 116 tx.script.args))
            rest =
          registered whole in
        subst (λ p. Grants host tx cell rest p region) params_is
          (subst
            (λ r. Grants host tx cell rest (parse_session_params (slice 20 116 tx.script.args)) r)
            region_is granted)
    | inr other ↦ elim (Bool-cases (length tx.script.args == 20)) [
      | inl short ↦
          carried_params-Grants rest region params ((==_iff (length tx.script.args) 20).0 short)
            (rw (other, short) at e)
      | inr neither ↦ absurd (cc (rw (other, neither) at e))
    ]
  ]

  pub resolve_params-of :
      {rest region : Bytes} {params : SessionParams}
      → Grants host tx cell rest params region
      → resolve_params host (host.calc_script_hash tx.script) tx.script.args rest
        ≡ done (params, region)
  unfolding resolve_params carried_params session_auth_message
  resolve_params-of (registered whole) = rw whole
  resolve_params-of {rest}
        (carried {sig_region} short params_block owner_auth size size' shape accepts) =
      let wide = length-append params_block (owner_auth ++ sig_region) in
      let wide' = length-append owner_auth sig_region in
      let fits : ltb (length (params_block ++ (owner_auth ++ sig_region))) 161 ≡ false =
        le→ltb _ _ (omega (arith, wide, wide', size, size')) in
      let front : slice 0 96 (params_block ++ (owner_auth ++ sig_region)) ≡ params_block =
        take-append 96 params_block (owner_auth ++ sig_region) size in
      let cut : slice 96 161 (params_block ++ (owner_auth ++ sig_region)) ≡ owner_auth =
        slice-append 96 161 params_block owner_auth sig_region size (omega (arith, size')) in
      let past : drop 161 (params_block ++ (owner_auth ++ sig_region)) ≡ sig_region =
        sym (drop-drop 65 96 (params_block ++ (owner_auth ++ sig_region)))
        ∙ rw (drop-append 96 params_block (owner_auth ++ sig_region) size)
            (drop-append 65 owner_auth sig_region size') in
      let signed = verify_signature-of host owner_auth _ (slice 0 20 tx.script.args) accepts in
      rw (short, shape, fits, epoch_read, front, cut, signed, past)

module _ (host : Host) (tx : Context) (run : IsRunOn tx host) (params : SessionParams) where
  pub check_expiry-IsLive : check_expiry host params ≡ done tt → IsLive params tx
  unfolding check_expiry current_timestamp_ms
  check_expiry-IsLive e = elim (Bool-cases (params.expires_at == no_expiry)) [
    | inl never ↦ inl ((==_iff params.expires_at no_expiry).0 never)
    | inr some_time ↦ elim (Option-cases (get_elem? tx.header_times 0)) [
      | inl missing ↦
          let found : host.load_header 0 header_dep ≡ err SysError.index_out_of_bound =
            run.header_is 0 ∙ rw missing in
          absurd (cc (rw (some_time, found) at e))
      | inr (now_ms, at) ↦
          let found : host.load_header 0 header_dep ≡ ok now_ms = run.header_is 0 ∙ rw at in
          let early =
            fail_if_last (leb params.expires_at (now_ms / 1000)) session_expired
              (rw (some_time, found) at e) in
          inr (now_ms, at, leb→lt _ _ early)
    ]
  ]

  pub check_expiry-of : IsLive params tx → check_expiry host params ≡ done tt
  unfolding check_expiry current_timestamp_ms
  check_expiry-of live = elim (Bool-cases (params.expires_at == no_expiry)) [
    | inl never ↦ rw never
    | inr some_time ↦ elim live [
      | inl never ↦ absurd (cc (some_time, (==_iff params.expires_at no_expiry).1 never))
      | inr (now_ms, at, early) ↦
          let found : host.load_header 0 header_dep ≡ ok now_ms = run.header_is 0 ∙ rw at in
          let test = lt→leb params.expires_at (now_ms / 1000) early in rw (some_time, found, test)
    ]
  ]
