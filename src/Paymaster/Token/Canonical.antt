-- ===== src/Paymaster/Token/Canonical.antt =====
-- A capability is parsed from its canonical bytes, whatever follows them.
use ckb_controller.Base.{
  ℕ, ◌+◌, ◌%◌, ◌<◌, ◌≡◌, refl, arith, Bool, true, false, [], ◌++◌, length, ok, ltb, u16_mod,
  u64_mod, ap, ◌∙◌, length-append, append_assoc, le→ltb,
}
use ckb_controller.Bytes.{
  Bytes, slice, to_le, from_le, length-to_le, from_le-to_le, slice-append, slice-behind,
}
use ckb_controller.Paymaster.Token.{
  Capability, canonical, take_bytes, read_u16, from_utf8, read_string, read_u64, parse,
}

-- What `canonical` writes for a string.
abbrev pub field : Bytes → Bytes
field s = to_le 2 (length s % u16_mod) ++ s

pub length-field : (s : Bytes) → length (field s) ≡ 2 + length s
length-field s =
    omega
      (arith, length-append (to_le 2 (length s % u16_mod)) s, length-to_le 2 (length s % u16_mod))

-- The strings and the deadline fit the fields that encode them, and the strings are UTF-8.
pub record IsCapability (is_utf8 : Bytes → Bool) (cap : Capability) : Type 0 where
  pub scope_fits : length cap.scope < u16_mod
  pub subject_fits : length cap.subject < u16_mod
  pub not_after_fits : cap.not_after < u64_mod
  pub scope_valid : is_utf8 cap.scope ≡ true
  pub subject_valid : is_utf8 cap.subject ≡ true

module _ (is_utf8 : Bytes → Bool) where
  read_string-field :
      (front s rest : Bytes) (i : ℕ)
      → length front ≡ i
      → length s < u16_mod
      → is_utf8 s ≡ true
      → read_string is_utf8 (front ++ (field s ++ rest)) i ≡ ok (s, i + 2 + length s)
  unfolding read_string read_u16 take_bytes from_utf8
  read_string-field front s rest i size fits valid =
      let head : Bytes = to_le 2 (length s % u16_mod) in
      let head_size = length-to_le 2 (length s % u16_mod) in
      let whole = length-append front (field s ++ rest) in
      let inner = length-append (field s) rest in
      let outer = length-field s in
      let regroup : field s ++ rest ≡ head ++ (s ++ rest) = append_assoc head s rest in
      let read : slice i (i + 2) (front ++ (field s ++ rest)) ≡ head =
        rw regroup
          (slice-append i (i + 2) front head (s ++ rest) size (omega (arith, head_size))) in
      let value : from_le head ≡ length s =
        from_le-to_le 2 (length s % u16_mod) (omega arith) ∙ omega (arith, fits) in
      let fits₁ : ltb (length (front ++ (field s ++ rest))) (i + 2) ≡ false =
        le→ltb _ _ (omega (arith, whole, inner, outer, size)) in
      let fits₂ : ltb (length (front ++ (field s ++ rest))) (i + 2 + length s) ≡ false =
        le→ltb _ _ (omega (arith, whole, inner, outer, size)) in
      let body : slice (i + 2) (i + 2 + length s) (front ++ (field s ++ rest)) ≡ s =
        slice-behind i 2 (2 + length s) (i + 2) (i + 2 + length s) front (field s ++ rest) size refl
          (omega arith)
        ∙ rw regroup (slice-append 2 (2 + length s) head s rest head_size refl) in
      rw (fits₁, read, value, fits₂, body, valid)

  read_u64-last :
      (front rest : Bytes) (n i : ℕ)
      → length front ≡ i
      → n < u64_mod
      → read_u64 (front ++ (to_le 8 n ++ rest)) i ≡ ok (n, i + 8)
  unfolding read_u64
  read_u64-last front rest n i size fits =
      let width = length-to_le 8 n in
      let room : ltb (length (front ++ (to_le 8 n ++ rest))) (i + 8) ≡ false = le→ltb _ _ (
        omega (
          arith,
          length-append front (to_le 8 n ++ rest),
          length-append (to_le 8 n) rest,
          size,
          width,
        )) in
      let read : slice i (i + 8) (front ++ (to_le 8 n ++ rest)) ≡ to_le 8 n =
        slice-append i (i + 8) front (to_le 8 n) rest size (omega (arith, width)) in
      rw (room, read, from_le-to_le 8 n (omega (arith, fits)))

  -- The fields of a token, nested to the right.
  token_shape :
      (cap : Capability) (rest : Bytes)
      → canonical cap ++ rest
        ≡ field cap.scope ++ (field cap.subject ++ (to_le 8 cap.not_after ++ rest))
  unfolding canonical
  token_shape cap rest = simp append_assoc

  length-canonical :
      (cap : Capability) → length (canonical cap) ≡ 12 + length cap.scope + length cap.subject
  length-canonical cap =
      let shape : canonical cap ++ []
          ≡ field cap.scope ++ (field cap.subject ++ (to_le 8 cap.not_after ++ [])) =
        token_shape cap [] in
      let sizes = ap length shape in
      omega (
        arith,
        sizes,
        length-append (canonical cap) [],
        length-append (field cap.scope) (field cap.subject ++ (to_le 8 cap.not_after ++ [])),
        length-append (field cap.subject) (to_le 8 cap.not_after ++ []),
        length-append (to_le 8 cap.not_after) [],
        length-field cap.scope,
        length-field cap.subject,
        length-to_le 8 cap.not_after,
      )

  -- Canonical bytes parse back to the capability, whatever follows, and the cursor stands at their end.
  pub parse-canonical :
      (cap : Capability) (rest : Bytes)
      → IsCapability is_utf8 cap
      → parse is_utf8 (canonical cap ++ rest) ≡ ok (cap, length (canonical cap))
  unfolding parse
  parse-canonical cap rest v =
      let a = field cap.scope in
      let b = field cap.subject in
      let z = to_le 8 cap.not_after in
      let i = 0 + 2 + length cap.scope in
      let j = i + 2 + length cap.subject in
      let first =
        read_string-field [] cap.scope (b ++ (z ++ rest)) 0 refl v.scope_fits v.scope_valid in
      let second =
        read_string-field a cap.subject (z ++ rest) i (length-field cap.scope) v.subject_fits
          v.subject_valid in
      let size : length (a ++ b) ≡ j =
        omega (arith, length-append a b, length-field cap.scope, length-field cap.subject) in
      let third : read_u64 (a ++ (b ++ (z ++ rest))) j ≡ ok (cap.not_after, j + 8) =
        rw (append_assoc a b (z ++ rest)) at
          (read_u64-last (a ++ b) rest cap.not_after j size v.not_after_fits) in
      let end : j + 8 ≡ length (canonical cap) = omega (arith, length-canonical cap) in
      rw (token_shape cap rest, first, second, third, end)
