-- ===== src/Paymaster/Biscuit.antt =====
-- paymaster/src/biscuit_gate.rs: the gate over biscuit tokens. The crate biscuit-auth is a parameter:
-- its keys, tokens, authorizers and queries. A time is its whole seconds.
pub mod Revoked
use ckb_controller.Base.{
  ℕ, ◌%◌, Bool, true, false, not, ◌||◌, Option, none, some, List, [], ◌∷◌, ◌++◌, length, Result, ok,
  err, ok_or, ◌>>=◌, ◌>>◌, ltb, leb, ◌==◌, if◌then◌else◌,
}
use ckb_controller.Bytes.{Bytes}
use ckb_controller.Bytes.Equality.{bytes_eq}
use ckb_controller.Text.{codes, trim_0x, from_str_radix}
use ckb_controller.Run as Run
use ckb_controller.Run.{Run, done, failed, panicked}
use ckb_controller.Paymaster.Token.{AuthzError, malformed, bad_signature, denied, Capability}

-- `SystemTime`, before or since `UNIX_EPOCH`.
pub data SystemTime : Type 0 where
  before_epoch since_epoch : ℕ → SystemTime

abbrev pub to_systemtime : ℕ → SystemTime
to_systemtime unix_secs = since_epoch unix_secs

-- `t.duration_since(UNIX_EPOCH)`, in seconds
abbrev pub duration_since_epoch : SystemTime → Option ℕ
duration_since_epoch (before_epoch n) = none
duration_since_epoch (since_epoch n) = some n

pub data Term : Type 0 where
  str : Bytes → Term
  date : SystemTime → Term

pub record Fact : Type 0 where
  pub name : Bytes
  pub terms : List Term

-- The crate biscuit-auth.
pub record Engine : Type 1 where
  pub Key : Type 0
  pub Token : Type 0
  pub Authorizer : Type 0
  pub key_from_str : Bytes → Option Key
  pub from_base64 : Bytes → Key → Option Token
  pub revocation_identifiers : Token → List Bytes
  -- of a fact, datalog code and its parameters
  pub build_authorizer : Fact → Bytes → List (Bytes × Term) → Token → Option Authorizer
  pub authorizes : Authorizer → Bool
  -- `query_exactly_one` for a string and for a date
  pub query_string : Bytes → Authorizer → Option Bytes
  pub query_date : Bytes → Authorizer → Option SystemTime
  -- a token of the authority, of facts and checks, in base64
  pub mint : List Fact → List Bytes → Option Bytes

abbrev pub scope_fact : Bytes
scope_fact = codes "sponsor"

abbrev pub subject_fact : Bytes
subject_fact = codes "subject"

abbrev pub expires_fact : Bytes
expires_fact = codes "expires"

-- `HashSet::contains` and `insert`
unfoldable pub contains : Bytes → List Bytes → Bool
contains id [] = false
contains id (r ∷ rs) = bytes_eq r id || contains id rs

abbrev pub insert : Bytes → List Bytes → List Bytes
insert id rs = if contains id rs then rs else id ∷ rs

-- `ids.iter().any(|id| revoked.contains(id))`
unfoldable pub any_revoked : List Bytes → List Bytes → Bool
any_revoked revoked [] = false
any_revoked revoked (id ∷ ids) = contains id revoked || any_revoked revoked ids

-- Whether a slice may end where these bytes begin: they do not continue a character.
abbrev pub is_char_boundary : Bytes → Bool
is_char_boundary [] = true
is_char_boundary (b ∷ bs) = ltb b 128 || leb 192 b

-- The pairs of digits, one by one: a slice inside of a character panics, and the first pair that is
-- no number ends the loop. An odd rest does not occur.
unfoldable pub decode_pairs : Bytes → Run AuthzError (Option Bytes)
decode_pairs [] = done (some [])
decode_pairs (a ∷ []) = done none
decode_pairs (a ∷ b ∷ rest) =
    let later = decode_pairs rest in
    if not (is_char_boundary rest) then panicked else elim (from_str_radix 16 256 (a ∷ b ∷ [])) [
      | none ↦ done none
      | some n ↦
          Run.◌>>=◌ later
            (λ found. elim found [ none ↦ done none | some ns ↦ done (some (n ∷ ns)) ])
    ]

unfoldable pub decode_hex : Bytes → Run AuthzError (Option Bytes)
decode_hex s = if length s % 2 == 0 then decode_pairs s else done none

module _ (e : Engine) where
  pub record BiscuitGate : Type 0 where
    pub root_pubkey : e.Key
    pub revoked : List Bytes

  -- `BiscuitGate::new`
  unfoldable pub new : Bytes → Result AuthzError BiscuitGate
  new public_key = do
    root ← ok_or (e.key_from_str public_key) bad_signature
    ok (record { root_pubkey = root; revoked = [] })

  -- `revoke_hex`, with the gate that it leaves.
  unfoldable pub revoke_hex : Bytes → BiscuitGate → Run AuthzError BiscuitGate
  revoke_hex revocation_id gate = Run.◌>>=◌ (decode_hex (trim_0x revocation_id)) (λ found.
      elim found [
        | none ↦ failed malformed
        | some id ↦ done (record gate { revoked = insert id gate.revoked })
      ])

  unfoldable pub issue : Capability → Result AuthzError Bytes
  issue cap =
      ok_or
        (e.mint
          (record { name = scope_fact; terms = str cap.scope ∷ [] }
            ∷ record { name = subject_fact; terms = str cap.subject ∷ [] }
            ∷ record { name = expires_fact; terms = date (to_systemtime cap.not_after) ∷ [] }
            ∷ [])
          (codes "check if expires($e), time($t), $t <= $e" ∷ []))
        malformed

  -- Step (c): the authorizer, with the time and the policy for the scope.
  unfoldable pub authorizer_for : ℕ → Bytes → e.Token → Result AuthzError e.Authorizer
  authorizer_for now required_scope biscuit =
      ok_or
        (e.build_authorizer (record { name = codes "time"; terms = date (to_systemtime now) ∷ [] })
          (codes "allow if sponsor({scope});") ((codes "scope", str required_scope) ∷ []) biscuit)
        denied

  -- The facts that the authorizer has, read back.
  unfoldable pub read_back : e.Authorizer → Result AuthzError Capability
  read_back authorizer = do
    scope ←
        ok_or (e.query_string (codes "data($s) <- " ++ scope_fact ++ codes "($s)") authorizer)
          malformed
    subject ←
        ok_or (e.query_string (codes "data($s) <- " ++ subject_fact ++ codes "($s)") authorizer)
          malformed
    expires ←
        ok_or (e.query_date (codes "data($e) <- " ++ expires_fact ++ codes "($e)") authorizer)
          malformed
    not_after ← ok_or (duration_since_epoch expires) malformed
    ok (record { scope = scope; subject = subject; not_after = not_after })

  abbrev pub denied_unless : Bool → Result AuthzError (Unit {0})
  denied_unless true = ok tt
  denied_unless false = err denied

  -- Steps (b) and (c), on a token that the root key signed.
  unfoldable pub admit : BiscuitGate → ℕ → Bytes → e.Token → Result AuthzError Capability
  admit gate now required_scope biscuit = do
    denied_unless (not (any_revoked gate.revoked (e.revocation_identifiers biscuit)))
    authorizer ← authorizer_for now required_scope biscuit
    denied_unless (e.authorizes authorizer)
    read_back authorizer

  -- `is_utf8` is the test of `std::str::from_utf8`.
  unfoldable pub authorize :
      (Bytes → Bool) → BiscuitGate → Bytes → ℕ → Bytes → Result AuthzError Capability
  authorize is_utf8 gate token now required_scope = do
    token_str ← if is_utf8 token then ok token else err malformed
    biscuit ← ok_or (e.from_base64 token_str gate.root_pubkey) bad_signature
    admit gate now required_scope biscuit
