-- ===== src/Game/Widths.antt =====
-- The fields of a board and of moves keep to the widths of their encodings: hashes of 20 bytes and
-- integers of 64 bits, in what is decoded.
pub mod Batches
use ckb_controller.Base.{
  ℕ, zero, suc, ◌+◌, ◌*◌, ◌%◌, ◌<◌, ◌≤◌, ◌≡◌, refl, arith, List, [], ◌∷◌, ◌++◌, length,
  length-append, All, All-append, ok, Option-cases, inl, inr, subst, ◌∙◌, sym, ==_iff, Bool-cases,
  ◌==◌, u64_mod, u32_mod, >>=-eq-ok,
}
use ckb_controller.Bytes.{
  Bytes, IsByte, IsArray, slice, to_le, from_le, from_le-lt, slice-IsByte, length-slice,
  to_le-IsByte, span,
}
use ckb_controller.Game.{
  PlayerEntry, GameState, Intent, first_entry, advance_player, apply_intent, apply_intents,
  apply_batch, find_player, write_player,
}
use ckb_controller.Game.Codec.{
  encode_entry, encode_entries, encode_state, encode_intent, decode_entry, decode_entries,
  decode_state, decode_intent, decode_intents, decode_batch,
}
use ckb_controller.Game.RoundTrip.{IsEntry, IsState, decode_state-ok}
use ckb_controller.Game.BatchCodec.{IsIntent}
use ckb_controller.Game.Batches.{apply_intents-ok, apply_batch-ok}
use ckb_controller.Game.Entries.{write_player-All, find_player-All}
use ckb_controller.Game.Invariant.{apply_intent_new, apply_intent_known}

-- An entry of the widths of the Rust type.
pub record IsStored (p : PlayerEntry) : Type 0 where
  pub hash : IsArray 20 p.hash
  pub score_fits : p.score < u64_mod
  pub nonce_fits : p.nonce < u64_mod

pub record IsMove (i : Intent) : Type 0 where
  pub hash : IsArray 20 i.hash
  pub points_fits : i.points < u64_mod
  pub nonce_fits : i.nonce < u64_mod
  pub sig : IsArray 65 i.sig

pub IsMove-IsIntent : (i : Intent) → IsMove i → IsIntent i
IsMove-IsIntent i v = record {
  hash_size = v.hash.size;
  points_fits = v.points_fits;
  nonce_fits = v.nonce_fits;
  sig_size = v.sig.size;
}

slice-IsArray :
    (n from to : ℕ) (d : Bytes)
    → All IsByte d
    → from + n ≡ to
    → to ≤ length d
    → IsArray n (slice from to d)
slice-IsArray n from to d v width fits = record {
  size = length-slice from to d (omega arith) fits ∙ omega arith;
  bytes = slice-IsByte from to d v;
}

-- An integer of `w` bytes is in range.
read-fits :
    (w from to : ℕ) (d : Bytes)
    → All IsByte d
    → from + w ≡ to
    → to ≤ length d
    → from_le (slice from to d) < span w
read-fits w from to d v width fits =
    let cut = slice-IsArray w from to d v width fits in
    subst (λ n. from_le (slice from to d) < span n) cut.size
      (from_le-lt (slice from to d) cut.bytes)

decode_entry-IsStored : (e : Bytes) → IsArray 36 e → IsStored (decode_entry e)
unfolding decode_entry
decode_entry-IsStored e v = record {
  hash = slice-IsArray 20 0 20 e v.bytes refl (omega (arith, v.size));
  score_fits = omega (arith, read-fits 8 20 28 e v.bytes refl (omega (arith, v.size)));
  nonce_fits = omega (arith, read-fits 8 28 36 e v.bytes refl (omega (arith, v.size)));
}

decode_entries-IsStored :
    (n i : ℕ) (d : Bytes)
    → All IsByte d
    → length d ≡ 12 + (i + n) * 36
    → All IsStored (decode_entries n i d)
unfolding decode_entries
decode_entries-IsStored zero i d v size = tt
decode_entries-IsStored (suc n) i d v size = (
  decode_entry-IsStored (slice (12 + i * 36) (12 + i * 36 + 36) d)
      (slice-IsArray 36 (12 + i * 36) (12 + i * 36 + 36) d v refl (omega (arith, size))),
  decode_entries-IsStored n (i + 1) d v (omega (arith, size)),
)

-- The entries of a board that is decoded have the widths of the type.
pub decode_state-IsStored :
    (d : Bytes) (s : GameState) → All IsByte d → decode_state d ≡ ok s → All IsStored s.players
decode_state-IsStored [] s v e =
    let same : s ≡ record { seq = 0; players = [] } = unfold decode_state in cc e in rw same tt
decode_state-IsStored (b ∷ d) s v e =
    let (size, shape) = decode_state-ok (b ∷ d) s (omega arith) e in
    rw shape
      (decode_entries-IsStored (from_le (slice 8 12 (b ∷ d))) 0 (b ∷ d) v (omega (arith, size)))

decode_intent-IsMove : (b : Bytes) (i : Intent) → All IsByte b → decode_intent b ≡ ok i → IsMove i
unfolding decode_intent
decode_intent-IsMove b i v e = elim (Bool-cases (length b == 101)) [
  | inl sized ↦
      let size : length b ≡ 101 = (==_iff (length b) 101).0 sized in
      let shape : i ≡ record {
        hash = slice 0 20 b;
        points = from_le (slice 20 28 b);
        nonce = from_le (slice 28 36 b);
        sig = slice 36 101 b;
      } =
        ground (arith, e) in
      rw shape (record {
        hash = slice-IsArray 20 0 20 b v refl (omega (arith, size));
        points_fits = omega (arith, read-fits 8 20 28 b v refl (omega (arith, size)));
        nonce_fits = omega (arith, read-fits 8 28 36 b v refl (omega (arith, size)));
        sig = slice-IsArray 65 36 101 b v refl (omega (arith, size));
      })
  | inr other ↦ absurd (ground (arith, e, other))
]

decode_intents-IsMove :
    (n i : ℕ) (d : Bytes) (is : List Intent)
    → All IsByte d
    → decode_intents n i d ≡ ok is
    → All IsMove is
unfolding decode_intents
decode_intents-IsMove zero i d is v e = let same : is ≡ [] = cc e in rw same tt
decode_intents-IsMove (suc n) i d is v e =
    let off : ℕ = 2 + i * 101 in
    let (m, first, e₁) = >>=-eq-ok (decode_intent (slice off (off + 101) d)) _ e in
    let (ms, rest, e₂) = >>=-eq-ok (decode_intents n (i + 1) d) _ e₁ in
    let shape : is ≡ m ∷ ms = cc e₂ in
    rw shape (
      decode_intent-IsMove (slice off (off + 101) d) m (slice-IsByte off (off + 101) d v) first,
      decode_intents-IsMove n (i + 1) d ms v rest,
    )

-- The moves of a batch that is decoded have the widths of the type.
pub decode_batch-IsMove :
    (d : Bytes) (is : List Intent) → All IsByte d → decode_batch d ≡ ok is → All IsMove is
unfolding decode_batch
decode_batch-IsMove d is v e =
    decode_intents-IsMove (from_le (slice 0 2 d)) 0 d is v (ground (arith, e))

encode_entries-IsByte : (ps : List PlayerEntry) → All IsStored ps → All IsByte (encode_entries ps)
unfolding encode_entries encode_entry
encode_entries-IsByte [] v = tt
encode_entries-IsByte (p ∷ ps) v =
    All-append IsByte (p.hash ++ (to_le 8 p.score ++ to_le 8 p.nonce)) (encode_entries ps)
      (All-append IsByte p.hash (to_le 8 p.score ++ to_le 8 p.nonce) v.0.hash.bytes (
        All-append IsByte (to_le 8 p.score) (to_le 8 p.nonce) (to_le-IsByte 8 p.score)
          (to_le-IsByte 8 p.nonce)))
      (encode_entries-IsByte ps v.1)

-- The encodings consist of bytes.
pub encode_state-IsByte : (s : GameState) → All IsStored s.players → All IsByte (encode_state s)
unfolding encode_state
encode_state-IsByte s v =
    let count = to_le 4 (length s.players % u32_mod) in
    All-append IsByte (to_le 8 s.seq) (count ++ encode_entries s.players) (to_le-IsByte 8 s.seq) (
      All-append IsByte count (encode_entries s.players)
        (to_le-IsByte 4 (length s.players % u32_mod)) (encode_entries-IsByte s.players v))

pub encode_intent-IsByte : (i : Intent) → IsMove i → All IsByte (encode_intent i)
unfolding encode_intent
encode_intent-IsByte i v =
    let points = to_le 8 i.points in
    let nonce = to_le 8 i.nonce in
    All-append IsByte i.hash (points ++ (nonce ++ i.sig)) v.hash.bytes (
      All-append IsByte points (nonce ++ i.sig) (to_le-IsByte 8 i.points)
        (All-append IsByte nonce i.sig (to_le-IsByte 8 i.nonce) v.sig.bytes))

pub stored_entries : (ps : List PlayerEntry) → All IsStored ps → All IsEntry ps
stored_entries [] v = tt
stored_entries (p ∷ ps) v = (
  record { hash_size = v.0.hash.size; score_fits = v.0.score_fits; nonce_fits = v.0.nonce_fits },
  stored_entries ps v.1,
)
