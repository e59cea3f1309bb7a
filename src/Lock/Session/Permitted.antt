-- ===== src/Lock/Session/Permitted.antt =====
-- SESSION mode of the session lock against the conditions that it is to enforce.
use ckb_controller.Base.{
  ℕ, ◌+◌, ◌<◌, ◌≤◌, ◌≡◌, ◌⊎◌, ◌↔◌, refl, arith, length, inl, inr, some, get_elem?, u128_mod,
}
use ckb_controller.Bytes.{Bytes}
use ckb_controller.Bytes.Equality.{bytes_eq_cases}
use ckb_controller.Host.{Host, Cell, Context, IsRunOn}
use ckb_controller.Run.{done, >>=-eq-done}
use ckb_controller.Lock.Types.{SessionParams, wildcard_root}
use ckb_controller.Lock.Policy.Allowed.{Allowed, check_output_policies_iff}
use ckb_controller.Lock.Account.{enforce_account_outputs}
use ckb_controller.Lock.Account.Kept.{own_capacity, saturate, enforce_account_outputs_iff}
use ckb_controller.Lock.Account.Outflow.{total_capacity, check_spend_cap_iff}
use ckb_controller.Lock.Session.{
  resolve_params, verify_session_key, verify_guardian, check_expiry, check_policies, verify_session,
}
use ckb_controller.Lock.Session.Spec.{IsPermitted}
use ckb_controller.Lock.Session.Signatures.{
  signatures-Signed, verify_session_key-of, verify_guardian-of,
}
use ckb_controller.Lock.Session.Steps.{
  resolve_params-Grants, resolve_params-of, check_expiry-IsLive, check_expiry-of,
}

-- The cap on what a saturated sum leaves is the cap on the sum.
saturate_bound :
    (total own cap : ℕ) → total < u128_mod → (total ≤ saturate own + cap) ↔ (total ≤ own + cap)
saturate_bound total own cap h = (λ k. omega (arith, h, k), λ k. omega (arith, h, k))

module _ (host : Host) (tx : Context) (run : IsRunOn tx host) where
  check_policies_iff :
      (fuel : ℕ) (params : SessionParams) (proofs : Bytes)
      → length tx.outputs < fuel
      → (check_policies host fuel tx.script params proofs ≡ done tt) ↔ (
          (params.policies_root ≡ wildcard_root)
          ⊎ Allowed host params.policies_root tx.script tx.outputs proofs)
  unfolding check_policies
  check_policies_iff fuel params proofs enough =
      let plain =
        check_output_policies_iff host tx run params.policies_root proofs tx.script fuel enough in
      elim (bytes_eq_cases params.policies_root wildcard_root) [
        | inl (any, test) ↦ (λ _. inl any, λ _. rw test)
        | inr (some_root, test) ↦ (
          λ e. inr (plain.0 (rw test at e)),
          λ h. elim h [
            | inl any ↦ absurd (some_root any)
            | inr allowed ↦ rw test (plain.1 allowed)
          ],
        )
      ]

  module _ (cell : Cell) (first : get_elem? tx.group_inputs 0 ≡ some cell) (fuel : ℕ)
      (enough : length tx.outputs < fuel) (enough' : length tx.group_inputs < fuel)
      (fits : total_capacity tx.group_inputs < u128_mod) where
    verify_session-IsPermitted :
        (rest message : Bytes)
        → verify_session host fuel tx.script
            (host.calc_script_hash tx.script)
            tx.script.args
            rest
            message
          ≡ done tt
        → IsPermitted host tx cell rest message
    unfolding verify_session
    verify_session-IsPermitted rest message e =
        let ((params, region), resolved, e₁) =
          >>=-eq-done (resolve_params host (host.calc_script_hash tx.script) tx.script.args rest) _
            e in
        let (_, keyed, e₂) = >>=-eq-done (verify_session_key host params region message) _ e₁ in
        let (proofs, guarded, e₃) = >>=-eq-done (verify_guardian host params region message) _ e₂ in
        let (_, early, e₄) = >>=-eq-done (check_expiry host params) _ e₃ in
        let (_, checked, e₅) =
          >>=-eq-done (check_policies host fuel tx.script params proofs) _ e₄ in
        let (returned, walked, capped) =
          >>=-eq-done (enforce_account_outputs host fuel tx.script tx.script.args) _ e₅ in
        let (enabled, signed) = signatures-Signed host params message region proofs keyed guarded in
        let (kept, sum) =
          (enforce_account_outputs_iff host tx run fuel tx.script tx.script.args cell returned first
              enough).0
            walked in
        let cap =
          (check_spend_cap_iff host tx run fuel params.spend_cap returned enough' fits).0 capped in
        record {
          params = params;
          sig_region = region;
          proofs = proofs;
          grants = resolve_params-Grants host tx run cell first rest region params resolved;
          enabled = enabled;
          signed = signed;
          live = check_expiry-IsLive host tx run params early;
          allowed = (check_policies_iff fuel params proofs enough).0 checked;
          kept = kept;
          bounded = elim cap [
            | inl free ↦ inl free
            | inr small ↦ inr ((saturate_bound _ _ _ fits).0 (rw sum at small))
          ];
        }

    IsPermitted-verify_session :
        (rest message : Bytes)
        → IsPermitted host tx cell rest message
        → verify_session host fuel tx.script
            (host.calc_script_hash tx.script)
            tx.script.args
            rest
            message
          ≡ done tt
    unfolding verify_session
    IsPermitted-verify_session rest message p =
        let resolved = resolve_params-of host tx run cell first p.grants in
        let keyed = verify_session_key-of host p.params message p.enabled p.signed in
        let guarded = verify_guardian-of host p.params message p.signed in
        let early = check_expiry-of host tx run p.params p.live in
        let checked = (check_policies_iff fuel p.params p.proofs enough).1 p.allowed in
        let walked =
          (enforce_account_outputs_iff host tx run fuel tx.script tx.script.args cell
              (saturate (own_capacity tx.script tx.outputs)) first enough).1
            (p.kept, refl) in
        let capped =
          (check_spend_cap_iff host tx run fuel p.params.spend_cap
              (saturate (own_capacity tx.script tx.outputs)) enough' fits).1
            (elim (p.bounded) [
              | inl free ↦ inl free
              | inr small ↦ inr ((saturate_bound _ _ _ fits).1 small)
            ]) in
        rw (resolved, keyed, guarded, early, checked, walked, capped)

    -- With fuel for the cells and inputs that total below 2 ^ 128, `verify_session` returns exactly if
    -- the session is permitted: a trust model grants the params, the keys signed, the session is live,
    -- the policies allow the outputs, the account's cells are kept and the cap holds.
    pub verify_session_iff :
        (rest message : Bytes)
        → (verify_session host fuel tx.script
              (host.calc_script_hash tx.script)
              tx.script.args
              rest
              message
            ≡ done tt)
          ↔ IsPermitted host tx cell rest message
    verify_session_iff rest message =
        (verify_session-IsPermitted rest message, IsPermitted-verify_session rest message)
