-- ===== src/Bytes.antt =====
-- Byte strings as lists of numbers: slices, equality, and the little-endian integers of
-- `to_le_bytes` and `from_le_bytes`.
pub mod Equality
use native.Mathlib.Nat.{suc-mul}
use ckb_controller.Base.{
  ℕ, zero, suc, ◌+◌, ◌-◌, ◌*◌, ◌/◌, ◌%◌, ◌^◌, ◌<◌, ◌≤◌, ◌≡◌, refl, arith, List, [], ◌∷◌, ◌++◌,
  length, take, drop, All, length-take, length-drop, length-append, take-append, drop-append, min,
  append-nil, All-append, ap, All-take, All-drop, subst, ◌∙◌, drop-drop, take_all, sym,
  take-append-take, take-append-drop,
}

abbrev pub Bytes : Type 0
Bytes = List ℕ

abbrev pub IsByte : ℕ → Type 0
IsByte b = b < 256

-- `[u8; n]`
pub record IsArray (n : ℕ) (b : Bytes) : Type 0 where
  pub size : length b ≡ n
  pub bytes : All IsByte b

-- `&data[from..to]`, where the guards of the code have made sure that it lies in `data`.
abbrev pub slice : ℕ → ℕ → Bytes → Bytes
slice from to data' = take (to - from) (drop from data')

-- `n.to_le_bytes()` for an integer of `w` bytes.
unfoldable pub to_le : ℕ → ℕ → Bytes
to_le zero n = []
to_le (suc w) n = (n % 256) ∷ to_le w (n / 256)

-- `from_le_bytes`
unfoldable pub from_le : Bytes → ℕ
from_le [] = 0
from_le (b ∷ bs) = b + 256 * from_le bs

pub length-to_le : (w n : ℕ) → length (to_le w n) ≡ w
unfolding to_le
length-to_le zero n = refl
length-to_le (suc w) n = ap suc (length-to_le w (n / 256))

pub to_le-IsByte : (w n : ℕ) → All IsByte (to_le w n)
unfolding to_le
to_le-IsByte zero n = tt
to_le-IsByte (suc w) n = (omega arith, to_le-IsByte w (n / 256))

-- `256 ^ w`, by recursion.
abbrev pub span : ℕ → ℕ
span zero = 1
span (suc w) = 256 * span w

pub from_le-to_le : (w n : ℕ) → n < span w → from_le (to_le w n) ≡ n
unfolding from_le to_le
from_le-to_le zero n h = omega arith
from_le-to_le (suc w) n h = omega (arith, from_le-to_le w (n / 256) (omega arith))

pub from_le-lt : (bs : Bytes) → All IsByte bs → from_le bs < span (length bs)
unfolding from_le
from_le-lt [] h = omega arith
from_le-lt (b ∷ bs) h = omega (arith, from_le-lt bs h.1)

pub to_le-from_le : (bs : Bytes) → All IsByte bs → to_le (length bs) (from_le bs) ≡ bs
unfolding from_le to_le
to_le-from_le [] h = refl
to_le-from_le (b ∷ bs) h =
    let low : (b + 256 * from_le bs) % 256 ≡ b = omega (arith, h.0) in
    let high : (b + 256 * from_le bs) / 256 ≡ from_le bs = omega (arith, h.0) in
    rw (low, high, to_le-from_le bs h.1)

-- Two integers in range with the same bytes are the same.
pub to_le-injective : (w m n : ℕ) → m < span w → n < span w → to_le w m ≡ to_le w n → m ≡ n
to_le-injective w m n hm hn e =
    omega (arith, from_le-to_le w m hm, from_le-to_le w n hn, ap from_le e)

-- What stands in the middle, and what stands last, is read back by its offsets.
pub slice-append :
    (from to : ℕ) (a b c : Bytes)
    → length a ≡ from
    → from + length b ≡ to
    → slice from to (a ++ (b ++ c)) ≡ b
slice-append from to a b c h k =
    rw (drop-append from a (b ++ c) h) (take-append (to - from) b c (omega arith))

pub slice-append_last :
    (from to : ℕ) (a b : Bytes)
    → length a ≡ from
    → from + length b ≡ to
    → slice from to (a ++ b) ≡ b
slice-append_last from to a b h k =
    rw (drop-append from a b h) (take_all (to - from) b (omega arith))

-- A slice behind a front.
pub slice-behind :
    (n a b from to : ℕ) (front rest : Bytes)
    → length front ≡ n
    → from ≡ n + a
    → to ≡ n + b
    → slice from to (front ++ rest) ≡ slice a b rest
slice-behind n a b from to front rest size start end =
    let width : to - from ≡ b - a = omega (arith, start, end) in
    rw (width, start, ← drop-drop a n (front ++ rest), drop-append n front rest size)

pub length-slice :
    (from to : ℕ) (b : Bytes) → from ≤ to → to ≤ length b → length (slice from to b) ≡ to - from
length-slice from to b h k =
    rw (length-take (to - from) (drop from b), length-drop from b) (omega arith)

pub slice-IsByte : (from to : ℕ) (b : Bytes) → All IsByte b → All IsByte (slice from to b)
slice-IsByte from to b h = All-take IsByte (to - from) (drop from b) (All-drop IsByte from b h)

-- Reading an integer and writing it again gives back the bytes.
pub to_le-slice :
    (w from to : ℕ) (b : Bytes)
    → All IsByte b
    → to ≤ length b
    → from + w ≡ to
    → to_le w (from_le (slice from to b)) ≡ slice from to b
to_le-slice w from to b h k e =
    let size : length (slice from to b) ≡ w =
      length-slice from to b (omega arith) k ∙ omega arith in
    subst (λ n. to_le n (from_le (slice from to b)) ≡ slice from to b) size
      (to_le-from_le (slice from to b) (slice-IsByte from to b h))

-- Adjacent slices join.
pub slice-join :
    (from mid to : ℕ) (b : Bytes)
    → from ≤ mid
    → mid ≤ to
    → slice from mid b ++ slice mid to b ≡ slice from to b
slice-join from mid to b h k =
    let there : from + (mid - from) ≡ mid = omega arith in
    let whole : mid - from + (to - mid) ≡ to - from = omega arith in
    let split : drop mid b ≡ drop (mid - from) (drop from b) =
      sym (rw there at (drop-drop (mid - from) from b)) in
    rw (split, take-append-take (mid - from) (to - mid) (drop from b), whole)

-- One byte string after another.
abbrev pub concat : List Bytes → Bytes
concat [] = []
concat (b ∷ bs) = b ++ concat bs

-- The first `n` pieces of `w` bytes.
abbrev pub chunks : ℕ → ℕ → Bytes → List Bytes
chunks w zero b = []
chunks w (suc n) b = take w b ∷ chunks w n (drop w b)

pub concat-chunks : (w n : ℕ) (b : Bytes) → length b ≡ n * w → concat (chunks w n b) ≡ b
concat-chunks w zero [] h = refl
concat-chunks w zero (x ∷ b) h = absurd (omega arith)
concat-chunks w (suc n) b h =
    rw (concat-chunks w n (drop w b) (rw (length-drop w b) (omega (arith, suc-mul n w))))
      (take-append-drop w b)

pub length-chunks : (w n : ℕ) (b : Bytes) → length (chunks w n b) ≡ n
length-chunks w zero b = refl
length-chunks w (suc n) b = ap suc (length-chunks w n (drop w b))

pub chunks-length :
    (w n : ℕ) (b : Bytes) → length b ≡ n * w → All (λ c. length c ≡ w) (chunks w n b)
chunks-length w zero b h = tt
chunks-length w (suc n) b h = (
  rw (length-take w b) (omega (arith, suc-mul n w)),
  chunks-length w n (drop w b) (rw (length-drop w b) (omega (arith, suc-mul n w))),
)

pub length-concat :
    (w : ℕ) (bs : List Bytes) → All (λ c. length c ≡ w) bs → length (concat bs) ≡ length bs * w
length-concat w [] h = omega arith
length-concat w (b ∷ bs) h =
    rw (length-append b (concat bs))
      (omega (arith, h.0, length-concat w bs h.1, suc-mul (length bs) w))
