-- ===== src/Game/Codec.antt =====
-- The wire encodings of game-rules/src/lib.rs: states, moves and batches.
use ckb_controller.Base.{
  ℕ, zero, suc, ◌+◌, ◌*◌, ◌%◌, List, [], ◌∷◌, ◌++◌, length, ltb, ◌==◌, not, if◌then◌else◌, Result,
  ok, err, ◌>>=◌, u16_mod, u32_mod,
}
use ckb_controller.Bytes.{Bytes, slice, to_le, from_le}
use ckb_controller.Game.{
  GameError, state_malformed, batch_malformed, PlayerEntry, GameState, Intent, empty,
}

abbrev pub game_id_len : ℕ
game_id_len = 32

abbrev pub entry_len : ℕ
entry_len = 36

abbrev pub intent_len : ℕ
intent_len = 101

abbrev pub state_header_len : ℕ
state_header_len = 12

-- One round of the loop of `GameState::encode`.
unfoldable pub encode_entry : PlayerEntry → Bytes
encode_entry p = p.hash ++ (to_le 8 p.score ++ to_le 8 p.nonce)

unfoldable pub encode_entries : List PlayerEntry → Bytes
encode_entries [] = []
encode_entries (p ∷ ps) = encode_entry p ++ encode_entries ps

-- `GameState::encode`; `len() as u32` drops the high bits.
unfoldable pub encode_state : GameState → Bytes
encode_state s = to_le 8 s.seq ++ (to_le 4 (length s.players % u32_mod) ++ encode_entries s.players)

unfoldable pub decode_entry : Bytes → PlayerEntry
decode_entry e = record {
  hash = slice 0 20 e;
  score = from_le (slice 20 28 e);
  nonce = from_le (slice 28 36 e);
}

-- The rounds `i..count` of the loop of `GameState::decode`.
unfoldable pub decode_entries : ℕ → ℕ → Bytes → List PlayerEntry
decode_entries zero i data' = []
decode_entries (suc left) i data' =
    let off = state_header_len + i * entry_len in
    decode_entry (slice off (off + entry_len) data') ∷ decode_entries left (i + 1) data'

-- `GameState::decode`, with a `usize` of 64 bits, in which the product is exact.
unfoldable pub decode_state : Bytes → Result GameError GameState
decode_state data' =
    if length data' == 0
    then ok empty
    else if ltb (length data') state_header_len
    then err state_malformed
    else let count = from_le (slice 8 12 data') in
      if not (length data' == state_header_len + count * entry_len)
      then err state_malformed
      else ok (record { seq = from_le (slice 0 8 data'); players = decode_entries count 0 data' })

-- `Intent::encode`
unfoldable pub encode_intent : Intent → Bytes
encode_intent i = i.hash ++ (to_le 8 i.points ++ (to_le 8 i.nonce ++ i.sig))

-- `Intent::decode`
unfoldable pub decode_intent : Bytes → Result GameError Intent
decode_intent b =
    if not (length b == intent_len)
    then err batch_malformed
    else ok (record {
      hash = slice 0 20 b;
      points = from_le (slice 20 28 b);
      nonce = from_le (slice 28 36 b);
      sig = slice 36 101 b;
    })

unfoldable pub encode_intents : List Intent → Bytes
encode_intents [] = []
encode_intents (i ∷ is) = encode_intent i ++ encode_intents is

-- `encode_batch`; `len() as u16` drops the high bits.
unfoldable pub encode_batch : List Intent → Bytes
encode_batch is = to_le 2 (length is % u16_mod) ++ encode_intents is

-- The rounds `i..n` of the loop of `decode_batch`.
unfoldable pub decode_intents : ℕ → ℕ → Bytes → Result GameError (List Intent)
decode_intents zero i batch = ok []
decode_intents (suc left) i batch = do
  let off = 2 + i * intent_len
  intent ← decode_intent (slice off (off + intent_len) batch)
  rest ← decode_intents left (i + 1) batch
  ok (intent ∷ rest)

-- `decode_batch`
unfoldable pub decode_batch : Bytes → Result GameError (List Intent)
decode_batch batch =
    if ltb (length batch) 2
    then err batch_malformed
    else let n = from_le (slice 0 2 batch) in
      if not (length batch == 2 + n * intent_len)
      then err batch_malformed
      else decode_intents n 0 batch

-- b"ckb-controller/game-intent/v1"
abbrev pub intent_domain : Bytes
intent_domain =
    b'c' ∷ b'k' ∷ b'b' ∷ b'-' ∷ b'c' ∷ b'o' ∷ b'n' ∷ b't' ∷ b'r' ∷ b'o' ∷ b'l' ∷ b'l' ∷ b'e' ∷ b'r'
    ∷ b'/' ∷ b'g' ∷ b'a' ∷ b'm' ∷ b'e' ∷ b'-' ∷ b'i' ∷ b'n' ∷ b't' ∷ b'e' ∷ b'n' ∷ b't' ∷ b'/'
    ∷ b'v' ∷ b'1' ∷ []

-- `intent_message`, with the digest as a parameter.
unfoldable pub intent_message : (Bytes → Bytes) → Bytes → Bytes → ℕ → ℕ → Bytes
intent_message blake2b_256 game_id hash points nonce =
    blake2b_256 (intent_domain ++ (game_id ++ (hash ++ (to_le 8 points ++ to_le 8 nonce))))
