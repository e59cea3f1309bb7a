-- ===== src/Paymaster/Biscuit/Revoked.antt =====
-- Revocation by the hex spelling of an id, and what a token must be to pass the gate.
use ckb_controller.Base.{
  ℕ, ◌*◌, ◌/◌, ◌%◌, ◌≡◌, refl, arith, Bool, true, false, not, ◌||◌, ◌&&◌, Option-cases, Option,
  none, some, List, [], ◌∷◌, length, All, Result, ok, err, ok_or, ◌>>◌, >>=-eq-ok, ◌==◌,
  if◌then◌else◌, Bool-cases, inl, inr, lt→ltb,
}
use ckb_controller.Bytes.{Bytes, IsByte}
use ckb_controller.Bytes.Equality.{bytes_eq, bytes_eq_cases, bytes_eq_comm}
use ckb_controller.Text.Hex.{hex, hex_digit, hex_digit_range, from_str_radix-hex, trim_0x-hex}
use ckb_controller.Run.{done}
use ckb_controller.Paymaster.Token.{AuthzError, bad_signature, denied, Capability}
use ckb_controller.Paymaster.Biscuit.{
  Engine, BiscuitGate, contains, insert, any_revoked, decode_pairs, decode_hex, is_char_boundary,
  revoke_hex, authorizer_for, read_back, denied_unless, admit, authorize,
}

-- The hex spelling of bytes starts with a character of its own.
hex_boundary : (bs : Bytes) → All IsByte bs → is_char_boundary (hex bs) ≡ true
unfolding hex
hex_boundary [] h = refl
hex_boundary (b ∷ bs) h =
    let (small, _, _) = hex_digit_range (b / 16) (omega (arith, h.0)) in
    rw (lt→ltb (hex_digit (b / 16)) 128 small)

length-hex : (bs : Bytes) → length (hex bs) ≡ 2 * length bs
unfolding hex
length-hex [] = omega arith
length-hex (b ∷ bs) = omega (arith, length-hex bs)

decode_pairs-hex : (bs : Bytes) → All IsByte bs → decode_pairs (hex bs) ≡ done (some bs)
unfolding decode_pairs hex
decode_pairs-hex [] h = refl
decode_pairs-hex (b ∷ bs) h =
    rw (hex_boundary bs h.1, from_str_radix-hex b h.0, decode_pairs-hex bs h.1)

pub decode_hex-hex : (bs : Bytes) → All IsByte bs → decode_hex (hex bs) ≡ done (some bs)
unfolding decode_hex
decode_hex-hex bs h =
    let even : (length (hex bs) % 2 == 0) ≡ true = ground (arith, length-hex bs) in
    rw even (decode_pairs-hex bs h)

contains-insert :
    (x id : Bytes) (rs : List Bytes) → contains x (insert id rs) ≡ (bytes_eq id x || contains x rs)
contains-insert x id rs = elim (Bool-cases (contains id rs)) [
  | inr new ↦ unfold contains in rw new
  | inl old ↦ rw old (elim (bytes_eq_cases id x) [
    | inl (same, test) ↦ rw test (rw same at old)
    | inr (other, test) ↦ rw test
  ])
]

contains-cons :
    (id i : Bytes) (ids : List Bytes) → contains id (i ∷ ids) ≡ (bytes_eq i id || contains id ids)
unfolding contains
contains-cons id i ids = refl

or_swap : (a b c d : Bool) → ((a || b) || (c || d)) ≡ ((a || c) || (b || d))
or_swap true b c d = refl
or_swap false true true d = refl
or_swap false true false d = refl
or_swap false false c d = refl

any_revoked-insert :
    (id : Bytes) (rs ids : List Bytes)
    → any_revoked (insert id rs) ids ≡ (contains id ids || any_revoked rs ids)
unfolding any_revoked
any_revoked-insert id rs [] = unfold contains in refl
any_revoked-insert id rs (i ∷ ids) =
    rw
      (
        contains-insert i id rs,
        any_revoked-insert id rs ids,
        bytes_eq_comm id i,
        contains-cons id i ids,
      )
      (or_swap (bytes_eq i id) (contains i rs) (contains id ids) (any_revoked rs ids))

module _ (e : Engine) where
  -- Whether a token that the root key signed carries an id.
  unfoldable pub carries : Bytes → BiscuitGate e → Bytes → Bool
  carries id gate token = elim (e.from_base64 token gate.root_pubkey) [
    | some t ↦ contains id (e.revocation_identifiers t)
    | none ↦ false
  ]

  abbrev pub revoking : Bytes → BiscuitGate e → BiscuitGate e
  revoking id gate = record gate { revoked = insert id gate.revoked }

  admit-revoking :
      (id : Bytes) (gate : BiscuitGate e) (now : ℕ) (scope : Bytes) (t : e.Token)
      → admit e (revoking id gate) now scope t ≡ (
          if contains id (e.revocation_identifiers t) then err denied else admit e gate now scope t)
  unfolding admit
  admit-revoking id gate now scope t =
      let both = any_revoked-insert id gate.revoked (e.revocation_identifiers t) in
      elim (Bool-cases (contains id (e.revocation_identifiers t))) [
        | inl hit ↦ rw (both, hit)
        | inr miss ↦ rw (both, miss)
      ]

  authorize-revoking :
      (is_utf8 : Bytes → Bool) (id : Bytes) (gate : BiscuitGate e) (token : Bytes) (now : ℕ)
      (scope : Bytes)
      → authorize e is_utf8 (revoking id gate) token now scope ≡ (
          if carries id gate token && is_utf8 token
          then err denied
          else authorize e is_utf8 gate token now scope)
  unfolding authorize carries
  authorize-revoking is_utf8 id gate token now scope =
      elim (Option-cases (e.from_base64 token gate.root_pubkey)) [
        | inl unsigned ↦ elim (Bool-cases (is_utf8 token)) [
          | inl text ↦ rw (text, unsigned, carries)
          | inr other ↦ rw (other, unsigned, carries)
        ]
        | inr (t, found) ↦ elim (Bool-cases (is_utf8 token)) [
          | inl text ↦ elim (Bool-cases (contains id (e.revocation_identifiers t))) [
            | inl hit ↦ rw (text, found, carries, admit-revoking id gate now scope t, hit)
            | inr miss ↦ rw (text, found, carries, admit-revoking id gate now scope t, miss)
          ]
          | inr other ↦ elim (Bool-cases (contains id (e.revocation_identifiers t))) [
            | inl hit ↦ rw (other, found, carries, hit)
            | inr miss ↦ rw (other, found, carries, miss)
          ]
        ]
      ]

  revoke_hex-hex :
      (id : Bytes) (gate : BiscuitGate e)
      → All IsByte id
      → revoke_hex e (hex id) gate ≡ done (revoking id gate)
  unfolding revoke_hex
  revoke_hex-hex id gate h = rw (trim_0x-hex id h, decode_hex-hex id h)

  -- The hex spelling of an id revokes it: the gate then denies a token that the root key signed and
  -- that carries the id, and answers on all other tokens as before.
  pub revoke_hex-authorize :
      (is_utf8 : Bytes → Bool) (id : Bytes) (gate : BiscuitGate e)
      → All IsByte id
      → (gate' : BiscuitGate e) × (revoke_hex e (hex id) gate ≡ done gate')
        × ((token : Bytes) (now : ℕ) (scope : Bytes)
            → authorize e is_utf8 gate' token now scope ≡ (
                if carries id gate token && is_utf8 token
                then err denied
                else authorize e is_utf8 gate token now scope))
  revoke_hex-authorize is_utf8 id gate h = (
    revoking id gate,
    revoke_hex-hex id gate h,
    λ token now scope. authorize-revoking is_utf8 id gate token now scope,
  )

  -- What the gate has made sure of.
  pub record IsAdmitted (is_utf8 : Bytes → Bool) (gate : BiscuitGate e) (token : Bytes) (now : ℕ)
      (scope : Bytes) (cap : Capability) : Type 0 where
    pub text : is_utf8 token ≡ true
    pub biscuit : e.Token
    pub signed : e.from_base64 token gate.root_pubkey ≡ some biscuit
    pub valid : any_revoked gate.revoked (e.revocation_identifiers biscuit) ≡ false
    pub authorizer : e.Authorizer
    pub built : authorizer_for e now scope biscuit ≡ ok authorizer
    pub allowed : e.authorizes authorizer ≡ true
    pub facts : read_back e authorizer ≡ ok cap

  unless-ok :
      (b : Bool) {A : Type 0} (k : Result AuthzError A) {a : A}
      → (denied_unless e b >> k) ≡ ok a
      → (b ≡ true) × (k ≡ ok a)
  unless-ok true k h = (refl, h)
  unless-ok false k h = cc

  pub authorize-IsAdmitted :
      (is_utf8 : Bytes → Bool) (gate : BiscuitGate e) (token : Bytes) (now : ℕ) (scope : Bytes)
      (cap : Capability)
      → authorize e is_utf8 gate token now scope ≡ ok cap
      → IsAdmitted is_utf8 gate token now scope cap
  unfolding authorize admit
  authorize-IsAdmitted is_utf8 gate token now scope cap h = elim (Bool-cases (is_utf8 token)) [
    | inr other ↦ absurd (cc (rw other at h))
    | inl text ↦
        let (t, signed, h₁) =
          >>=-eq-ok (ok_or (e.from_base64 token gate.root_pubkey) bad_signature) _ (rw text at h) in
        let (fresh, h₂) =
          unless-ok (not (any_revoked gate.revoked (e.revocation_identifiers t))) _ h₁ in
        let (a, built, h₃) = >>=-eq-ok (authorizer_for e now scope t) _ h₂ in
        let (allowed, h₄) = unless-ok (e.authorizes a) _ h₃ in
        record {
          text = text;
          biscuit = t;
          signed = some_of _ signed;
          valid = not_true _ fresh;
          authorizer = a;
          built = built;
          allowed = allowed;
          facts = h₄;
        }
  ]
    where
      some_of : {A : Type 0} (o : Option A) {a : A} → ok_or o bad_signature ≡ ok a → o ≡ some a
      some_of (some b) h = cc
      some_of none h = cc

      not_true : (b : Bool) → not b ≡ true → b ≡ false
      not_true true h = cc
      not_true false h = refl
