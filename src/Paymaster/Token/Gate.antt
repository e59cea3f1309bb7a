-- ===== src/Paymaster/Token/Gate.antt =====
-- Whom the gate lets through.
use ckb_controller.Base.{
  ℕ, ◌+◌, ◌≤◌, ◌≡◌, ◌↔◌, refl, arith, Bool, true, ◌++◌, length, take, ok, >>=-eq-ok, ltb,
  length-append, take-append, ltb→le, le→ltb, Bool-cases, inl, inr,
}
use ckb_controller.Bytes.{Bytes, slice, slice-append_last}
use ckb_controller.Bytes.Equality.{bytes_eq_cases, bytes_eq_iff}
use ckb_controller.Paymaster.Token.{Capability, canonical, parse, check, authorize, issue}
use ckb_controller.Paymaster.Token.Canonical.{IsCapability, parse-canonical}

-- The token grants a capability: it parses to it, the signature behind it is the authority's, and
-- it is of the scope and not expired.
pub record IsGranted (is_utf8 : Bytes → Bool) (verify : Bytes → Bytes → Bool) (token : Bytes)
    (now : ℕ) (required_scope : Bytes) (cap : Capability) : Type 0 where
  pub sig_start : ℕ
  pub parsed : parse is_utf8 token ≡ ok (cap, sig_start)
  pub room : sig_start + 64 ≤ length token
  pub signed : verify (take sig_start token) (slice sig_start (sig_start + 64) token) ≡ true
  pub in_scope : cap.scope ≡ required_scope
  pub in_time : now ≤ cap.not_after

module _ (is_utf8 : Bytes → Bool) (verify : Bytes → Bytes → Bool) where
  check-ok :
      (token : Bytes) (now : ℕ) (required_scope : Bytes) (c cap : Capability) (k : ℕ)
      → check is_utf8 verify token now required_scope c k ≡ ok cap
      → (c ≡ cap)
        × (k + 64 ≤ length token)
        × (verify (take k token) (slice k (k + 64) token) ≡ true)
        × (c.scope ≡ required_scope)
        × (now ≤ c.not_after)
  unfolding check
  check-ok token now required_scope c cap k e = elim (Bool-cases (ltb (length token) (k + 64))) [
    | inl short ↦ absurd (cc (rw short at e))
    | inr room ↦ elim (Bool-cases (verify (take k token) (slice k (k + 64) token))) [
      | inr forged ↦ absurd (cc (rw (room, forged) at e))
      | inl signed ↦ elim (bytes_eq_cases c.scope required_scope) [
        | inr (_, other) ↦ absurd (cc (rw (room, signed, other) at e))
        | inl (scope, test) ↦ elim (Bool-cases (ltb c.not_after now)) [
          | inl late ↦ absurd (cc (rw (room, signed, test, late) at e))
          | inr early ↦ (
            cc (rw (room, signed, test, early) at e),
            ltb→le _ _ room,
            signed,
            scope,
            ltb→le _ _ early,
          )
        ]
      ]
    ]
  ]

  check-of :
      (token : Bytes) (now : ℕ) (required_scope : Bytes) (c : Capability) (k : ℕ)
      → k + 64 ≤ length token
      → verify (take k token) (slice k (k + 64) token) ≡ true
      → c.scope ≡ required_scope
      → now ≤ c.not_after
      → check is_utf8 verify token now required_scope c k ≡ ok c
  unfolding check
  check-of token now required_scope c k room signed scope early = rw (
    le→ltb (length token) (k + 64) room,
    signed,
    (bytes_eq_iff c.scope required_scope).1 scope,
    le→ltb c.not_after now early,
  )

  check-IsGranted :
      (token : Bytes) (now : ℕ) (required_scope : Bytes) (c cap : Capability) (k : ℕ)
      → parse is_utf8 token ≡ ok (c, k)
      → (c ≡ cap)
        × (k + 64 ≤ length token)
        × (verify (take k token) (slice k (k + 64) token) ≡ true)
        × (c.scope ≡ required_scope)
        × (now ≤ c.not_after)
      → IsGranted is_utf8 verify token now required_scope cap
  check-IsGranted token now required_scope c cap k parsed (same, room, signed, scope, early) =
      record {
        sig_start = k;
        parsed = rw same at parsed;
        room = room;
        signed = signed;
        in_scope = rw same at scope;
        in_time = rw same at early;
      }

  -- The gate returns a capability exactly if the token grants it.
  pub authorize_iff :
      (token : Bytes) (now : ℕ) (required_scope : Bytes) (cap : Capability)
      → (authorize is_utf8 verify token now required_scope ≡ ok cap)
        ↔ IsGranted is_utf8 verify token now required_scope cap
  unfolding authorize
  authorize_iff token now required_scope cap = (
    λ e.
        let ((c, k), parsed, e₁) = >>=-eq-ok (parse is_utf8 token) _ e in
        check-IsGranted token now required_scope c cap k parsed
          (check-ok token now required_scope c cap k e₁),
    λ g.
        rw g.parsed
          (check-of token now required_scope cap g.sig_start g.room g.signed g.in_scope g.in_time),
  )

  -- A token that the authority issues passes the gate for its scope until it expires, if the
  -- authority's signatures have 64 bytes and verify.
  pub authorize-issue :
      (sign : Bytes → Bytes) (cap : Capability) (now : ℕ)
      → IsCapability is_utf8 cap
      → length (sign (canonical cap)) ≡ 64
      → verify (canonical cap) (sign (canonical cap)) ≡ true
      → now ≤ cap.not_after
      → authorize is_utf8 verify (issue sign cap) now cap.scope ≡ ok cap
  unfolding issue
  authorize-issue sign cap now v size signed early =
      let c = canonical cap in
      let s = sign (canonical cap) in
      let front : take (length c) (c ++ s) ≡ c = take-append (length c) c s refl in
      let back : slice (length c) (length c + 64) (c ++ s) ≡ s =
        slice-append_last (length c) (length c + 64) c s refl (omega (arith, size)) in
      (authorize_iff (c ++ s) now cap.scope cap).1 (record {
        sig_start = length c;
        parsed = parse-canonical is_utf8 cap s v;
        room = omega (arith, length-append c s, size);
        signed = rw (front, back) signed;
        in_scope = refl;
        in_time = early;
      })
