-- ===== src/Lock/Session/Signatures.antt =====
-- The signature checks of SESSION mode against what they are to enforce.
use ckb_controller.Base.{
  ℕ, ◌≤◌, ◌≡◌, ◌≢◌, arith, false, [], ◌∷◌, ◌++◌, length, drop, ok, sym, ◌∙◌, ltb, ◌==◌,
  if◌then◌else◌, tests, le→ltb, ==_iff, length-append, drop-append, take-append, take-append-drop,
  drop-drop, Bool-cases, Result, err, inl, inr,
}
use ckb_controller.Bytes.{Bytes, slice, length-slice, slice-append}
use ckb_controller.Bytes.Equality.{bytes_eq, bytes_eq_cases, bytes_eq_iff}
use ckb_controller.Host.{SysError, Host, data1}
use ckb_controller.Run.{Run, done, failed, >>=-eq-done, fail_if-done}
use ckb_controller.Lock.Types.{
  Error, SessionParams, zero_key_hash, auth_error, session_disabled, witness_len_error,
}
use ckb_controller.Lock.Signatures.{or_auth_error, verify_signature}
use ckb_controller.Lock.Session.{verify_session_key, verify_guardian}
use ckb_controller.Lock.Session.Spec.{Accepts, Signed, alone, guarded}

-- A front of 65 bytes, and the rest.
pub split_65 : (b : Bytes) → slice 0 65 b ++ drop 65 b ≡ b
split_65 b = take-append-drop 65 b

pub split_130 : (b : Bytes) → slice 0 65 b ++ (slice 65 130 b ++ drop 130 b) ≡ b
split_130 b =
    let later : slice 65 130 b ++ drop 130 b ≡ drop 65 b =
      rw (drop-drop 65 65 b) at (take-append-drop 65 (drop 65 b)) in
    rw later (take-append-drop 65 b)

bytes_differ : (a b : Bytes) → bytes_eq a b ≡ false → a ≢ b
bytes_differ a b e = λ p. cc (e, (bytes_eq_iff a b).1 p)

or_auth_error-done :
    {A : Type 0} (r : Result SysError A) {a : A} → or_auth_error r ≡ done a → r ≡ ok a
or_auth_error-done (ok b) e = cc
or_auth_error-done (err x) e = cc

bytes_eq_other : (a b : Bytes) → a ≢ b → bytes_eq a b ≡ false
bytes_eq_other a b h = elim (bytes_eq_cases a b) [
  | inl (same, _) ↦ absurd (h same)
  | inr (_, test) ↦ test
]

injective_done : {A : Type 0} {a b : A} → Path (Run Error A) (done a) (done b) → a ≡ b
injective_done e = cc

exit_code :
    (n : ℕ)
    → Path (Run Error (Unit {0})) (if n == 0 then done tt else failed auth_error) (done tt)
    → n ≡ 0
exit_code n e = elim (Bool-cases (n == 0)) [
  | inl same ↦ (==_iff n 0).0 same
  | inr other ↦ absurd (cc (rw other at e))
]

module _ (host : Host) where
  pub verify_signature-done :
      (signature message pubkey_hash : Bytes)
      → verify_signature host 0 signature message pubkey_hash ≡ done tt
      → Accepts host signature message pubkey_hash
  unfolding verify_signature
  verify_signature-done signature message pubkey_hash e =
      let args =
        host.hex_encode (0 ∷ [])
        ∷ host.hex_encode signature
        ∷ host.hex_encode message
        ∷ host.hex_encode pubkey_hash
        ∷ [] in
      let (pid, spawned, e₁) =
        >>=-eq-done (or_auth_error (host.spawn_cell host.auth_code_hash data1 args)) _ e in
      let (code, waited, e₂) = >>=-eq-done (or_auth_error (host.wait pid)) _ e₁ in
      record {
        pid = pid;
        spawned = or_auth_error-done _ spawned;
        exits = rw (exit_code code e₂) at (or_auth_error-done _ waited);
      }

  pub verify_signature-of :
      (signature message pubkey_hash : Bytes)
      → Accepts host signature message pubkey_hash
      → verify_signature host 0 signature message pubkey_hash ≡ done tt
  unfolding verify_signature
  verify_signature-of signature message pubkey_hash a = rw (a.spawned, a.exits)

  module _ (params : SessionParams) (message : Bytes) where
    pub signatures-Signed :
        (region proofs : Bytes)
        → verify_session_key host params region message ≡ done tt
        → verify_guardian host params region message ≡ done proofs
        → (params.session_pubkey_hash ≢ zero_key_hash) × Signed host params message region proofs
    unfolding verify_session_key verify_guardian
    signatures-Signed region proofs e g =
        let (enabled, e₁) =
          fail_if-done (bytes_eq params.session_pubkey_hash zero_key_hash) session_disabled _ e in
        let (fits, e₂) = fail_if-done (ltb (length region) 65) witness_len_error _ e₁ in
        let accepts =
          verify_signature-done (slice 0 65 region) message params.session_pubkey_hash e₂ in
        let wide : 65 ≤ length region = omega (tests, fits) in
        let on : params.session_pubkey_hash ≢ zero_key_hash = bytes_differ _ _ enabled in
        elim (bytes_eq_cases params.guardian_pubkey_hash zero_key_hash) [
          | inl (none_set, test) ↦ (
            on,
            alone none_set (slice 0 65 region) (length-slice 0 65 region (omega arith) wide)
                (rw (injective_done (rw test at g)) at (sym (split_65 region))) accepts,
          )
          | inr (set, test) ↦
              let g₁ = rw test at g in
              let (fits', g₂) = fail_if-done (ltb (length region) 130) witness_len_error _ g₁ in
              let (_, checked, g₃) =
                >>=-eq-done
                  (verify_signature host 0 (slice 65 130 region) message
                    params.guardian_pubkey_hash)
                  _ g₂ in
              let wide' : 130 ≤ length region = omega (tests, fits') in
              (
                on,
                guarded set (slice 0 65 region) (slice 65 130 region)
                    (length-slice 0 65 region (omega arith) wide)
                    (length-slice 65 130 region (omega arith) wide')
                    (rw (injective_done g₃) at (sym (split_130 region))) accepts
                    (verify_signature-done (slice 65 130 region) message params.guardian_pubkey_hash
                      checked),
              )
        ]

    session_key_of :
        (region sig later : Bytes)
        → params.session_pubkey_hash ≢ zero_key_hash
        → length sig ≡ 65
        → region ≡ sig ++ later
        → Accepts host sig message params.session_pubkey_hash
        → verify_session_key host params region message ≡ done tt
    unfolding verify_session_key
    session_key_of region sig later enabled size shape accepts =
        let test = bytes_eq_other params.session_pubkey_hash zero_key_hash enabled in
        let fits : ltb (length (sig ++ later)) 65 ≡ false =
          le→ltb _ _ (omega (arith, length-append sig later, size)) in
        let cut : slice 0 65 (sig ++ later) ≡ sig = take-append 65 sig later size in
        let signed = verify_signature-of sig message params.session_pubkey_hash accepts in
        rw (test, shape, fits, cut, signed)

    pub verify_session_key-of :
        {region proofs : Bytes}
        → params.session_pubkey_hash ≢ zero_key_hash
        → Signed host params message region proofs
        → verify_session_key host params region message ≡ done tt
    verify_session_key-of enabled (alone {region} {proofs} none_set sig size shape accepts) =
        session_key_of region sig proofs enabled size shape accepts
    verify_session_key-of enabled
          (guarded {region} {proofs} set sig guard size size' shape accepts accepts') =
        session_key_of region sig (guard ++ proofs) enabled size shape accepts

    pub verify_guardian-of :
        {region proofs : Bytes}
        → Signed host params message region proofs
        → verify_guardian host params region message ≡ done proofs
    unfolding verify_guardian
    verify_guardian-of (alone {region} {proofs} none_set sig size shape accepts) =
        let test = (bytes_eq_iff params.guardian_pubkey_hash zero_key_hash).1 none_set in
        rw (test, shape, drop-append 65 sig proofs size)
    verify_guardian-of (guarded {region} {proofs} set sig guard size size' shape accepts accepts') =
        let test : bytes_eq params.guardian_pubkey_hash zero_key_hash ≡ false =
          bytes_eq_other _ _ set in
        let wide = length-append sig (guard ++ proofs) in
        let wide' = length-append guard proofs in
        let fits : ltb (length (sig ++ (guard ++ proofs))) 130 ≡ false =
          le→ltb _ _ (omega (arith, wide, wide', size, size')) in
        let cut : slice 65 130 (sig ++ (guard ++ proofs)) ≡ guard =
          slice-append 65 130 sig guard proofs size (omega (arith, size')) in
        let past : drop 130 (sig ++ (guard ++ proofs)) ≡ proofs =
          sym (drop-drop 65 65 (sig ++ (guard ++ proofs)))
          ∙ rw (drop-append 65 sig (guard ++ proofs) size) (drop-append 65 guard proofs size') in
        let signed = verify_signature-of guard message params.guardian_pubkey_hash accepts' in
        rw (test, shape, fits, cut, signed, past)
