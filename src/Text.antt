-- ===== src/Text.antt =====
-- Rust's `str` as its bytes, and the calls of the standard library that the services make on it.
pub mod Hex
pub mod Decimal
pub mod Trim
use Prim.Native.Char.{code}
use Prim.Native.String.{String}
use ckb_controller.Base.{
  ℕ, ◌+◌, ◌-◌, ◌*◌, Bool, true, false, ◌&&◌, Option, none, some, List, [], ◌∷◌, ◌++◌, ltb, leb,
  ◌==◌, if◌then◌else◌,
}
use ckb_controller.Bytes.{Bytes}
use mathlib.Core.Option as Opt

-- A literal.
unfoldable pub codes : String → Bytes
codes String.[] = []
codes (String.◌∷◌ c s) = code c ∷ codes s

-- `s.trim_start_matches("0x")`, which takes off the prefix as often as it stands there.
unfoldable pub trim_0x : Bytes → Bytes
trim_0x [] = []
trim_0x (a ∷ []) = a ∷ []
trim_0x (a ∷ b ∷ rest) =
    let trimmed = trim_0x rest in if a == b'0' && b == b'x' then trimmed else a ∷ b ∷ rest

-- `s.split_once(c)` at a character of one byte.
unfoldable pub split_once : ℕ → Bytes → Option (Bytes × Bytes)
split_once c [] = none
split_once c (b ∷ bs) =
    if b == c
    then some ([], bs)
    else Opt.map (λ (p : Bytes × Bytes). (b ∷ p.0, p.1)) (split_once c bs)

-- The head and the tail of `s.split(c)`.
unfoldable pub split_head : ℕ → Bytes → Bytes × List Bytes
split_head c [] = ([], [])
split_head c (b ∷ bs) =
    let (front, parts) = split_head c bs in
    if b == c then ([], front ∷ parts) else (b ∷ front, parts)

abbrev pub split : ℕ → Bytes → List Bytes
split c s = let (front, parts) = split_head c s in front ∷ parts

-- `(b as char).to_digit(radix)`
unfoldable pub to_digit : ℕ → ℕ → Option ℕ
to_digit radix b =
    let below = λ (d : ℕ). if ltb d radix then some d else none in
    if leb b'0' b && leb b b'9'
    then below (b - b'0')
    else if leb b'a' b && leb b b'z'
    then below (b - b'a' + 10)
    else if leb b'A' b && leb b b'Z'
    then below (b - b'A' + 10)
    else none

-- The digits of a number below a bound, behind those read so far.
unfoldable pub read_digits : ℕ → ℕ → ℕ → Bytes → Option ℕ
read_digits radix bound n [] = some n
read_digits radix bound n (b ∷ bs) = elim (to_digit radix b) [
  | none ↦ none
  | some d ↦
      let rest = read_digits radix bound (n * radix + d) bs in
      if ltb (n * radix + d) bound then rest else none
]

-- `from_str_radix` of an unsigned integer below a bound; it takes a leading plus.
unfoldable pub from_str_radix : ℕ → ℕ → Bytes → Option ℕ
from_str_radix radix bound [] = none
from_str_radix radix bound (b ∷ []) = if b == b'+' then none else read_digits radix bound 0 (b ∷ [])
from_str_radix radix bound (b ∷ c ∷ bs) =
    if b == b'+' then read_digits radix bound 0 (c ∷ bs) else read_digits radix bound 0 (b ∷ c ∷ bs)

-- `s.parse()`
abbrev pub parse_uint : ℕ → Bytes → Option ℕ
parse_uint bound s = from_str_radix 10 bound s

-- `parts.join(separator)`
unfoldable pub join : Bytes → List Bytes → Bytes
join separator [] = []
join separator (part ∷ []) = part
join separator (part ∷ next ∷ parts) = part ++ (separator ++ join separator (next ∷ parts))
