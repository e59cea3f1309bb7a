-- ===== src/Game/BatchCodec.antt =====
-- The encoding of moves and batches in game-rules/src/lib.rs, read back.
use ckb_controller.Base.{
  ℕ, ◌+◌, ◌-◌, ◌*◌, ◌%◌, ◌<◌, ◌≤◌, ◌≡◌, refl, arith, List, [], ◌∷◌, ◌++◌, length, drop, All, ok,
  err, u16_mod, u64_mod, length-append, take-append, drop-append, drop-drop, append_assoc, ◌∙◌,
}
use ckb_controller.Bytes.{
  Bytes, slice, to_le, from_le, length-to_le, from_le-to_le, slice-append, slice-append_last,
}
use ckb_controller.Game.{batch_malformed, Intent}
use ckb_controller.Game.Codec.{
  encode_intent, decode_intent, encode_intents, encode_batch, decode_intents, decode_batch,
}

-- The ranges of Rust's types.
pub record IsIntent (i : Intent) : Type 0 where
  pub hash_size : length i.hash ≡ 20
  pub points_fits : i.points < u64_mod
  pub nonce_fits : i.nonce < u64_mod
  pub sig_size : length i.sig ≡ 65

pub length-encode_intent : (i : Intent) → IsIntent i → length (encode_intent i) ≡ 101
unfolding encode_intent
length-encode_intent i v = rw (
  length-append i.hash,
  length-append (to_le 8 i.points),
  length-append (to_le 8 i.nonce),
  length-to_le 8 i.points,
  length-to_le 8 i.nonce,
  v.hash_size,
  v.sig_size,
)

-- A move decodes from its 101 bytes.
pub decode_intent-encode_intent : (i : Intent) → IsIntent i → decode_intent (encode_intent i) ≡ ok i
decode_intent-encode_intent i v =
    let points = to_le 8 i.points in
    let nonce = to_le 8 i.nonce in
    let front = i.hash ++ points in
    let front_size : length front ≡ 28 =
      omega (arith, length-append i.hash points, v.hash_size, length-to_le 8 i.points) in
    let size = length-encode_intent i v in
    let first : slice 0 20 (encode_intent i) ≡ i.hash =
      unfold encode_intent in take-append 20 i.hash (points ++ (nonce ++ i.sig)) v.hash_size in
    let second : slice 20 28 (encode_intent i) ≡ points =
      unfold encode_intent in
      slice-append 20 28 i.hash points (nonce ++ i.sig) v.hash_size
        (omega (arith, length-to_le 8 i.points)) in
    let third : slice 28 36 (encode_intent i) ≡ nonce =
      unfold encode_intent in
      rw (← append_assoc i.hash points (nonce ++ i.sig))
        (slice-append 28 36 front nonce i.sig front_size (omega (arith, length-to_le 8 i.nonce))) in
    let last : slice 36 101 (encode_intent i) ≡ i.sig =
      unfold encode_intent in
      rw (← append_assoc i.hash points (nonce ++ i.sig), ← append_assoc front nonce i.sig)
        (slice-append_last 36 101 (front ++ nonce) i.sig
          (rw (length-append front) (omega (arith, front_size, length-to_le 8 i.nonce)))
          (omega (arith, v.sig_size))) in
    let read_points = from_le-to_le 8 i.points v.points_fits in
    let read_nonce = from_le-to_le 8 i.nonce v.nonce_fits in
    unfold decode_intent in rw (size, first, second, third, last, read_points, read_nonce)

decode_intents-encode_intents :
    (is : List Intent) (i : ℕ) (d : Bytes)
    → All IsIntent is
    → drop (2 + i * 101) d ≡ encode_intents is
    → decode_intents (length is) i d ≡ ok is
unfolding decode_intents encode_intents
decode_intents-encode_intents [] i d v e = refl
decode_intents-encode_intents (m ∷ is) i d v e =
    let size = length-encode_intent m v.0 in
    let width : 2 + i * 101 + 101 - (2 + i * 101) ≡ 101 = omega arith in
    let this : slice (2 + i * 101) (2 + i * 101 + 101) d ≡ encode_intent m =
      rw (width, e) (take-append 101 (encode_intent m) (encode_intents is) size) in
    let step : 2 + i * 101 + 101 ≡ 2 + (i + 1) * 101 = omega arith in
    let rest : drop (2 + (i + 1) * 101) d ≡ encode_intents is =
      rw (← step, ← drop-drop 101 (2 + i * 101) d, e)
        (drop-append 101 (encode_intent m) (encode_intents is) size) in
    rw
      (this, decode_intent-encode_intent m v.0, decode_intents-encode_intents is (i + 1) d v.1 rest)

length-encode_intents :
    (is : List Intent) → All IsIntent is → length (encode_intents is) ≡ length is * 101
unfolding encode_intents
length-encode_intents [] v = omega arith
length-encode_intents (i ∷ is) v =
    rw (length-append (encode_intent i))
      (omega (arith, length-encode_intent i v.0, length-encode_intents is v.1))

count_read : (is : List Intent) → from_le (slice 0 2 (encode_batch is)) ≡ length is % u16_mod
unfolding encode_batch
count_read is =
    rw
      (take-append 2 (to_le 2 (length is % u16_mod)) (encode_intents is)
        (length-to_le 2 (length is % u16_mod)))
      (from_le-to_le 2 (length is % u16_mod) (omega arith))

length-encode_batch :
    (is : List Intent) → All IsIntent is → length (encode_batch is) ≡ 2 + length is * 101
unfolding encode_batch
length-encode_batch is v = rw (
  length-append (to_le 2 (length is % u16_mod)),
  length-to_le 2 (length is % u16_mod),
  length-encode_intents is v,
)

-- A batch of at most 65535 moves decodes from its encoding.
pub decode_batch-encode_batch :
    (is : List Intent)
    → All IsIntent is
    → length is < u16_mod
    → decode_batch (encode_batch is) ≡ ok is
decode_batch-encode_batch is v fits =
    let size = length-encode_batch is v in
    let count : from_le (slice 0 2 (encode_batch is)) ≡ length is =
      count_read is ∙ omega (arith, fits) in
    let body : drop (2 + 0 * 101) (encode_batch is) ≡ encode_intents is =
      unfold encode_batch in
      drop-append 2 (to_le 2 (length is % u16_mod)) (encode_intents is)
        (length-to_le 2 (length is % u16_mod)) in
    let moves = decode_intents-encode_intents is 0 (encode_batch is) v body in
    unfold decode_batch in ground (arith, size, count, moves)

-- The count is 16 bits wide: the encoding of any longer batch is refused.
pub decode_batch-too_long :
    (is : List Intent)
    → All IsIntent is
    → u16_mod ≤ length is
    → decode_batch (encode_batch is) ≡ err batch_malformed
decode_batch-too_long is v long =
    let size = length-encode_batch is v in
    let count = count_read is in unfold decode_batch in ground (arith, size, count)
