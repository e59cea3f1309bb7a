-- ===== src/Text/Decimal.antt =====
-- Numbers in decimal, and how the text functions read them.
use ckb_controller.Base.{
  ℕ, zero, suc, ◌+◌, ◌*◌, ◌/◌, ◌%◌, ◌<◌, ◌≤◌, ◌≡◌, refl, arith, false, some, [], ◌∷◌, ltb, ◌==◌,
  if◌then◌else◌, All, Bool-cases, inl, inr, lt→ltb, ◌∙◌, u128_mod,
}
use ckb_controller.Bytes.{Bytes}
use ckb_controller.Text.{to_digit, read_digits, from_str_radix, parse_uint}

-- The digits of a number in front of a text, by a bound on their count.
unfoldable pub decimal_digits : ℕ → ℕ → Bytes → Bytes
decimal_digits zero n later = later
decimal_digits (suc fuel) n later =
    let front = decimal_digits fuel (n / 10) ((b'0' + n % 10) ∷ later) in
    if ltb n 10 then (b'0' + n) ∷ later else front

-- A number of at most 128 bits has at most 39 digits.
abbrev pub decimal : ℕ → Bytes
decimal n = decimal_digits 39 n []

-- `10 ^ n`, by recursion.
abbrev tens : ℕ → ℕ
tens zero = 1
tens (suc n) = 10 * tens n

to_digit-decimal : (d : ℕ) → d < 10 → to_digit 10 (b'0' + d) ≡ some d
unfolding to_digit
to_digit-decimal d h = ground arith

-- One digit more is read.
read_digit :
    (bound n d : ℕ) (later : Bytes)
    → d < 10
    → n * 10 + d < bound
    → read_digits 10 bound n ((b'0' + d) ∷ later) ≡ read_digits 10 bound (n * 10 + d) later
unfolding read_digits
read_digit bound n d later h k = rw (to_digit-decimal d h, read_digits, lt→ltb (n * 10 + d) bound k)

-- The digits of a number are read back to it.
read_digits-decimal_digits :
    (fuel bound n : ℕ) (later : Bytes)
    → n < tens fuel
    → n < bound
    → read_digits 10 bound 0 (decimal_digits fuel n later) ≡ read_digits 10 bound n later
unfolding decimal_digits
read_digits-decimal_digits zero bound n later h k =
    let none_left : n ≡ 0 = omega arith in rw none_left
read_digits-decimal_digits (suc fuel) bound n later h k = elim (Bool-cases (ltb n 10)) [
  | inl small ↦
      let sum : 0 * 10 + n ≡ n = omega arith in
      rw small (rw sum at (read_digit bound 0 n later (ground arith) (omega arith)))
  | inr large ↦
      let joined : n / 10 * 10 + n % 10 ≡ n = omega arith in
      let step = read_digit bound (n / 10) (n % 10) later (omega arith) (omega arith) in
      rw large (
        read_digits-decimal_digits fuel bound (n / 10) ((b'0' + n % 10) ∷ later) (omega arith)
          (omega arith)
        ∙ (rw joined at step))
]

-- A text starts with something else than a sign.
record IsUnsigned (s : Bytes) : Type 0 where
  first : ℕ
  rest : Bytes
  shape : s ≡ first ∷ rest
  plain : (first == b'+') ≡ false

digit-IsUnsigned : (d : ℕ) (later : Bytes) → IsUnsigned ((b'0' + d) ∷ later)
digit-IsUnsigned d later = record {
  first = b'0' + d;
  rest = later;
  shape = refl;
  plain = ground arith;
}

decimal_digits-IsUnsigned :
    (fuel n : ℕ) (later : Bytes) → IsUnsigned later → IsUnsigned (decimal_digits fuel n later)
unfolding decimal_digits
decimal_digits-IsUnsigned zero n later u = u
decimal_digits-IsUnsigned (suc fuel) n later u = elim (Bool-cases (ltb n 10)) [
  | inl small ↦ rw small (digit-IsUnsigned n later)
  | inr large ↦ rw large (
      decimal_digits-IsUnsigned fuel (n / 10) ((b'0' + n % 10) ∷ later)
        (digit-IsUnsigned (n % 10) later))
]

some-IsUnsigned : (fuel n : ℕ) (later : Bytes) → IsUnsigned (decimal_digits (suc fuel) n later)
unfolding decimal_digits
some-IsUnsigned fuel n later = elim (Bool-cases (ltb n 10)) [
  | inl small ↦ rw small (digit-IsUnsigned n later)
  | inr large ↦ rw large (
      decimal_digits-IsUnsigned fuel (n / 10) ((b'0' + n % 10) ∷ later)
        (digit-IsUnsigned (n % 10) later))
]

from_str_radix-unsigned :
    (bound : ℕ) (s : Bytes) → IsUnsigned s → from_str_radix 10 bound s ≡ read_digits 10 bound 0 s
unfolding from_str_radix
from_str_radix-unsigned bound [] u = cc (u.shape)
from_str_radix-unsigned bound (b ∷ []) u =
    let same : u.first ≡ b = cc (u.shape) in
    let plain : (b == b'+') ≡ false = rw same at u.plain in rw plain
from_str_radix-unsigned bound (b ∷ c ∷ bs) u =
    let same : u.first ≡ b = cc (u.shape) in
    let plain : (b == b'+') ≡ false = rw same at u.plain in rw plain

-- The decimal spelling of a number of at most 128 bits is parsed back to it.
pub parse_uint-decimal :
    (bound n : ℕ) → n < bound → bound ≤ u128_mod → parse_uint bound (decimal n) ≡ some n
unfolding read_digits
parse_uint-decimal bound n h k =
    from_str_radix-unsigned bound (decimal n) (some-IsUnsigned 38 n [])
    ∙ read_digits-decimal_digits 39 bound n [] (omega arith) h

abbrev pub IsDigit : ℕ → Type 0
IsDigit b = (b'0' ≤ b) × (b ≤ b'9')

decimal_digits-IsDigit :
    (fuel n : ℕ) (later : Bytes) → All IsDigit later → All IsDigit (decimal_digits fuel n later)
unfolding decimal_digits
decimal_digits-IsDigit zero n later v = v
decimal_digits-IsDigit (suc fuel) n later v = elim (Bool-cases (ltb n 10)) [
  | inl small ↦ rw small ((omega arith, ground arith), v)
  | inr large ↦ rw large (
      decimal_digits-IsDigit fuel (n / 10) ((b'0' + n % 10) ∷ later)
        ((omega arith, omega arith), v))
]

-- The decimal spelling consists of digits.
pub decimal-IsDigit : (n : ℕ) → All IsDigit (decimal n)
decimal-IsDigit n = decimal_digits-IsDigit 39 n [] tt
