-- ===== src/Text/Trim.antt =====
-- `str::trim`, which takes off the white space of Unicode in its UTF-8 form.
use ckb_controller.Base.{
  ℕ, zero, suc, Bool, ◌&&◌, ◌||◌, [], ◌∷◌, ◌++◌, length, drop, ◌==◌, leb, if◌then◌else◌,
}
use ckb_controller.Bytes.{Bytes}

abbrev is_space : ℕ → Bool
is_space a = (leb 9 a && leb a 13) || a == 32

-- U+0085 and U+00A0,
abbrev is_space_pair : ℕ → ℕ → Bool
is_space_pair a b = a == 0xc2 && (b == 0x85 || b == 0xa0)

-- and U+1680, U+2000 to U+200A, U+2028, U+2029, U+202F, U+205F and U+3000.
abbrev is_space_triple : ℕ → ℕ → ℕ → Bool
is_space_triple a b c =
    (a == 0xe1 && (b == 0x9a && c == 0x80))
    || ((a == 0xe2
          && (b == 0x80 && ((leb 0x80 c && leb c 0x8a) || (c == 0xa8 || (c == 0xa9 || c == 0xaf)))))
        || ((a == 0xe2 && (b == 0x81 && c == 0x9f)) || (a == 0xe3 && (b == 0x80 && c == 0x80))))

-- The bytes of the white space that a text starts with,
unfoldable pub space_at : Bytes → ℕ
space_at [] = 0
space_at (a ∷ []) = if is_space a then 1 else 0
space_at (a ∷ b ∷ []) = if is_space a then 1 else if is_space_pair a b then 2 else 0
space_at (a ∷ b ∷ c ∷ s) =
    if is_space a
    then 1
    else if is_space_pair a b
    then 2
    else if is_space_triple a b c
    then 3
    else 0

-- and that a text which stands backwards ends with.
unfoldable pub space_before : Bytes → ℕ
space_before [] = 0
space_before (a ∷ []) = if is_space a then 1 else 0
space_before (a ∷ b ∷ []) = if is_space a then 1 else if is_space_pair b a then 2 else 0
space_before (a ∷ b ∷ c ∷ s) =
    if is_space a
    then 1
    else if is_space_pair b a
    then 2
    else if is_space_triple c b a
    then 3
    else 0

-- As many rounds as bytes are enough.
unfoldable pub trim_by : (Bytes → ℕ) → ℕ → Bytes → Bytes
trim_by space zero s = s
trim_by space (suc fuel) s =
    let rest = trim_by space fuel (drop (space s) s) in if space s == 0 then s else rest

abbrev pub backwards : Bytes → Bytes
backwards [] = []
backwards (b ∷ s) = backwards s ++ (b ∷ [])

abbrev pub trim : Bytes → Bytes
trim s =
    let front = trim_by space_at (length s) s in
    backwards (trim_by space_before (length front) (backwards front))
