-- ===== src/Text/Hex.antt =====
-- The hex spelling of bytes, in lower case, and how the text functions read it.
use ckb_controller.Base.{
  ℕ, ◌+◌, ◌-◌, ◌*◌, ◌/◌, ◌%◌, ◌<◌, ◌≡◌, refl, arith, false, some, [], ◌∷◌, ◌++◌, ltb, ◌==◌,
  if◌then◌else◌, All, lt→ltb,
}
use ckb_controller.Bytes.{Bytes, IsByte}
use ckb_controller.Text.{codes, split_once, to_digit, read_digits, from_str_radix, trim_0x}

abbrev pub hex_digit : ℕ → ℕ
hex_digit d = if ltb d 10 then d + b'0' else d - 10 + b'a'

unfoldable pub hex : Bytes → Bytes
hex [] = []
hex (b ∷ bs) = hex_digit (b / 16) ∷ hex_digit (b % 16) ∷ hex bs

pub to_digit-hex_digit : (d : ℕ) → d < 16 → to_digit 16 (hex_digit d) ≡ some d
unfolding to_digit
to_digit-hex_digit d h = ground arith

pub hex_digit_range :
    (d : ℕ)
    → d < 16
    → (hex_digit d < 128) × ((hex_digit d == b'+') ≡ false) × ((hex_digit d == b'x') ≡ false)
hex_digit_range d h = (ground arith, ground arith, ground arith)

-- Two hex digits are a byte.
pub from_str_radix-hex :
    (b : ℕ)
    → b < 256
    → from_str_radix 16 256 (hex_digit (b / 16) ∷ hex_digit (b % 16) ∷ []) ≡ some b
unfolding from_str_radix read_digits
from_str_radix-hex b h =
    let high = to_digit-hex_digit (b / 16) (omega arith) in
    let low = to_digit-hex_digit (b % 16) (omega arith) in
    let (_, plain, _) = hex_digit_range (b / 16) (omega arith) in
    let small = lt→ltb (0 * 16 + b / 16) 256 (omega arith) in
    let whole = lt→ltb ((0 * 16 + b / 16) * 16 + b % 16) 256 (omega arith) in
    let sum : (0 * 16 + b / 16) * 16 + b % 16 ≡ b = omega arith in
    rw (plain, high, read_digits, small, low, whole, sum)

-- No hex spelling starts with the prefix, so trimming takes off one prefix.
pub trim_0x-hex : (bs : Bytes) → All IsByte bs → trim_0x (hex bs) ≡ hex bs
unfolding trim_0x hex
trim_0x-hex [] h = refl
trim_0x-hex (b ∷ bs) h =
    let (_, _, other) = hex_digit_range (b % 16) (omega arith) in ground (arith, other)

-- A spelling behind the prefix is trimmed to the spelling.
pub trim_0x-prefixed : (b : Bytes) → All IsByte b → trim_0x (codes "0x" ++ hex b) ≡ hex b
unfolding trim_0x codes
trim_0x-prefixed b v = trim_0x-hex b v

-- The spelling in front of a colon is split off.
pub split_once-hex :
    (bs later : Bytes)
    → All IsByte bs
    → split_once b':' (hex bs ++ (b':' ∷ later)) ≡ some (hex bs, later)
unfolding split_once hex
split_once-hex [] later v = refl
split_once-hex (b ∷ bs) later v =
    let high : (hex_digit (b / 16) == b':') ≡ false = ground (arith, v.0) in
    let low : (hex_digit (b % 16) == b':') ≡ false = ground arith in
    rw (high, low, split_once-hex bs later v.1)
