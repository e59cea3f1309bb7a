-- ===== src/Paymaster/Token.antt =====
-- paymaster/src/authz.rs: sponsor tokens. A string is its bytes; `is_utf8` is the test of
-- `String::from_utf8`, and the signatures are those of the crate ed25519_dalek.
pub mod Canonical
pub mod Gate
use ckb_controller.Base.{
  ℕ, ◌+◌, ◌%◌, Bool, true, false, not, Option, none, some, List, [], ◌∷◌, ◌++◌, length, take, drop,
  Result, ok, err, ◌>>=◌, ltb, if◌then◌else◌, u16_mod,
}
use ckb_controller.Bytes.{Bytes, slice, to_le, from_le}
use ckb_controller.Bytes.Equality.{bytes_eq}

pub data AuthzError : Type 0 where
  malformed bad_signature wrong_scope expired denied : AuthzError

pub record Capability : Type 0 where
  pub scope : Bytes
  pub subject : Bytes
  pub not_after : ℕ

-- `Capability::canonical`; `len() as u16` drops the high bits.
unfoldable pub canonical : Capability → Bytes
canonical cap =
    to_le 2 (length cap.scope % u16_mod)
    ++ (cap.scope
        ++ (to_le 2 (length cap.subject % u16_mod) ++ (cap.subject ++ to_le 8 cap.not_after)))

-- The closures of `parse`: the cursor that they leave, and the value that they read.
unfoldable pub take_bytes : Bytes → ℕ → ℕ → Result AuthzError ℕ
take_bytes buf i n = if ltb (length buf) (i + n) then err malformed else ok (i + n)

unfoldable pub read_u16 : Bytes → ℕ → Result AuthzError (ℕ × ℕ)
read_u16 buf i =
    if ltb (length buf) (i + 2) then err malformed else ok (from_le (slice i (i + 2) buf), i + 2)

unfoldable pub read_u64 : Bytes → ℕ → Result AuthzError (ℕ × ℕ)
read_u64 token i =
    if ltb (length token) (i + 8)
    then err malformed
    else ok (from_le (slice i (i + 8) token), i + 8)

module _ (is_utf8 : Bytes → Bool) where
  -- `String::from_utf8(..).map_err(..)?`
  unfoldable pub from_utf8 : Bytes → Result AuthzError Bytes
  from_utf8 b = if is_utf8 b then ok b else err malformed

  -- A length and a string of that length, at the cursor.
  unfoldable pub read_string : Bytes → ℕ → Result AuthzError (Bytes × ℕ)
  read_string token i = do
    (len, start) ← read_u16 token i
    end ← take_bytes token start len
    s ← from_utf8 (slice start end token)
    ok (s, end)

  unfoldable pub parse : Bytes → Result AuthzError (Capability × ℕ)
  parse token = do
    (scope, i) ← read_string token 0
    (subject, j) ← read_string token i
    (not_after, k) ← read_u64 token j
    ok (record { scope = scope; subject = subject; not_after = not_after }, k)

  module _ (verify : Bytes → Bytes → Bool) where
    -- The checks of `authorize` on a capability and its signature.
    unfoldable pub check : Bytes → ℕ → Bytes → Capability → ℕ → Result AuthzError Capability
    check token now required_scope cap sig_start =
        if ltb (length token) (sig_start + 64)
        then err malformed
        else if not (verify (take sig_start token) (slice sig_start (sig_start + 64) token))
        then err bad_signature
        else if not (bytes_eq cap.scope required_scope)
        then err wrong_scope
        else if ltb cap.not_after now
        then err expired
        else ok cap

    -- `Ed25519Gate::authorize`; `verify` is the check with the authority's key.
    unfoldable pub authorize : Bytes → ℕ → Bytes → Result AuthzError Capability
    authorize token now required_scope = do
      (cap, sig_start) ← parse token
      check token now required_scope cap sig_start

-- `Ed25519Authority::issue`
unfoldable pub issue : (Bytes → Bytes) → Capability → Bytes
issue sign cap = canonical cap ++ sign (canonical cap)
