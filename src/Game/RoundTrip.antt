-- ===== src/Game/RoundTrip.antt =====
-- The encoding of states in game-rules/src/lib.rs, read back.
use ckb_controller.Base.{
  ℕ, zero, suc, ◌+◌, ◌-◌, ◌*◌, ◌%◌, ◌<◌, ◌≡◌, refl, arith, List, [], ◌∷◌, ◌++◌, length, drop, All,
  ok, subst, u32_mod, u64_mod, length-append, take-append, drop-append, drop-drop, drop_all,
  take_all, take-append-drop, append_assoc, ap, sym, ◌∙◌,
}
use ckb_controller.Bytes.{
  Bytes, IsByte, slice, to_le, from_le, length-to_le, from_le-to_le, slice-append,
  slice-append_last, length-slice, slice-IsByte, span, from_le-lt, slice-join, to_le-slice,
}
use ckb_controller.Game.{PlayerEntry, GameState}
use ckb_controller.Game.Codec.{
  encode_entry, encode_entries, encode_state, decode_entry, decode_entries, decode_state,
}

-- The ranges of Rust's types.
pub record IsEntry (p : PlayerEntry) : Type 0 where
  pub hash_size : length p.hash ≡ 20
  pub score_fits : p.score < u64_mod
  pub nonce_fits : p.nonce < u64_mod

pub record IsState (s : GameState) : Type 0 where
  pub seq_fits : s.seq < u64_mod
  pub count_fits : length s.players < u32_mod
  pub entries : All IsEntry s.players

length-encode_entry : (p : PlayerEntry) → length p.hash ≡ 20 → length (encode_entry p) ≡ 36
unfolding encode_entry
length-encode_entry p h = rw (
  length-append p.hash,
  length-append (to_le 8 p.score),
  length-to_le 8 p.score,
  length-to_le 8 p.nonce,
  h,
)

decode_entry-encode_entry : (p : PlayerEntry) → IsEntry p → decode_entry (encode_entry p) ≡ p
unfolding decode_entry encode_entry
decode_entry-encode_entry p v =
    let score = to_le 8 p.score in
    let nonce = to_le 8 p.nonce in
    let first : slice 0 20 (p.hash ++ (score ++ nonce)) ≡ p.hash =
      take-append 20 p.hash (score ++ nonce) v.hash_size in
    let second : slice 20 28 (p.hash ++ (score ++ nonce)) ≡ score =
      slice-append 20 28 p.hash score nonce v.hash_size (omega (arith, length-to_le 8 p.score)) in
    let third : slice 28 36 (p.hash ++ (score ++ nonce)) ≡ nonce =
      rw (← append_assoc p.hash score nonce) (
        slice-append_last 28 36 (p.hash ++ score) nonce
          (omega (arith, length-append p.hash score, v.hash_size, length-to_le 8 p.score))
          (omega (arith, length-to_le 8 p.nonce))) in
    rw (
      first,
      second,
      third,
      from_le-to_le 8 p.score v.score_fits,
      from_le-to_le 8 p.nonce v.nonce_fits,
    )

-- The entries from the `i`-th on are read back where they stand.
decode_entries-encode_entries :
    (ps : List PlayerEntry) (i : ℕ) (d : Bytes)
    → All IsEntry ps
    → drop (12 + i * 36) d ≡ encode_entries ps
    → decode_entries (length ps) i d ≡ ps
unfolding decode_entries encode_entries
decode_entries-encode_entries [] i d v e = refl
decode_entries-encode_entries (p ∷ ps) i d v e =
    let size = length-encode_entry p v.0.hash_size in
    let width : 12 + i * 36 + 36 - (12 + i * 36) ≡ 36 = omega arith in
    let this : slice (12 + i * 36) (12 + i * 36 + 36) d ≡ encode_entry p =
      rw (width, e) (take-append 36 (encode_entry p) (encode_entries ps) size) in
    let step : 12 + i * 36 + 36 ≡ 12 + (i + 1) * 36 = omega arith in
    let rest : drop (12 + (i + 1) * 36) d ≡ encode_entries ps =
      rw (← step, ← drop-drop 36 (12 + i * 36) d, e)
        (drop-append 36 (encode_entry p) (encode_entries ps) size) in
    rw (this, decode_entry-encode_entry p v.0, decode_entries-encode_entries ps (i + 1) d v.1 rest)

length-encode_entries :
    (ps : List PlayerEntry) → All IsEntry ps → length (encode_entries ps) ≡ length ps * 36
unfolding encode_entries
length-encode_entries [] v = omega arith
length-encode_entries (p ∷ ps) v =
    rw (length-append (encode_entry p))
      (omega (arith, length-encode_entry p v.0.hash_size, length-encode_entries ps v.1))

-- A state decodes from its encoding, if its fields are in the ranges of their types and its
-- players can be counted in 32 bits.
pub decode_state-encode_state : (s : GameState) → IsState s → decode_state (encode_state s) ≡ ok s
decode_state-encode_state s v =
    let n = length s.players in
    let seq = to_le 8 s.seq in
    let count = to_le 4 (n % u32_mod) in
    let body = encode_entries s.players in
    let size : length (encode_state s) ≡ 12 + n * 36 =
      unfold encode_state in
      rw (length-append seq, length-append count)
        (omega (
          arith,
          length-to_le 8 s.seq,
          length-to_le 4 (n % u32_mod),
          length-encode_entries s.players v.entries,
        )) in
    let first : from_le (slice 0 8 (encode_state s)) ≡ s.seq =
      unfold encode_state in
      rw (take-append 8 seq (count ++ body) (length-to_le 8 s.seq))
        (from_le-to_le 8 s.seq v.seq_fits) in
    let second : from_le (slice 8 12 (encode_state s)) ≡ n =
      unfold encode_state in
      rw
        (slice-append 8 12 seq count body (length-to_le 8 s.seq)
          (omega (arith, length-to_le 4 (n % u32_mod))))
        (from_le-to_le 4 (n % u32_mod) (omega arith) ∙ omega (arith, v.count_fits)) in
    let body_at : drop (12 + 0 * 36) (encode_state s) ≡ body =
      unfold encode_state in
      rw (← append_assoc seq count body) (
        drop-append 12 (seq ++ count) body (
          rw (length-append seq)
            (omega (arith, length-to_le 8 s.seq, length-to_le 4 (n % u32_mod))))) in
    let players = decode_entries-encode_entries s.players 0 (encode_state s) v.entries body_at in
    unfold decode_state in ground (arith, size, first, second, players)

encode_entry-decode_entry :
    (e : Bytes) → All IsByte e → length e ≡ 36 → encode_entry (decode_entry e) ≡ e
unfolding encode_entry decode_entry
encode_entry-decode_entry e v size =
    let score = to_le-slice 8 20 28 e v (omega arith) refl in
    let nonce = to_le-slice 8 28 36 e v (omega arith) refl in
    rw
      (
        score,
        nonce,
        slice-join 20 28 36 e (omega arith) (omega arith),
        slice-join 0 20 36 e (omega arith) (omega arith),
      )
      (take_all 36 e size)

encode_entries-decode_entries :
    (n i : ℕ) (d : Bytes)
    → All IsByte d
    → length d ≡ 12 + (i + n) * 36
    → encode_entries (decode_entries n i d) ≡ drop (12 + i * 36) d
unfolding decode_entries encode_entries
encode_entries-decode_entries zero i d v size = sym (drop_all (12 + i * 36) d (omega arith))
encode_entries-decode_entries (suc n) i d v size =
    let off : ℕ = 12 + i * 36 in
    let step : 12 + (i + 1) * 36 ≡ off + 36 = omega arith in
    let width : off + 36 - off ≡ 36 = omega arith in
    let this =
      encode_entry-decode_entry (slice off (off + 36) d) (slice-IsByte off (off + 36) d v)
        (length-slice off (off + 36) d (omega arith) (omega arith) ∙ width) in
    rw
      (
        this,
        encode_entries-decode_entries n (i + 1) d v (omega arith),
        step,
        ← drop-drop 36 off d,
        width,
      )
      (take-append-drop 36 (drop off d))

length-decode_entries : (n i : ℕ) (d : Bytes) → length (decode_entries n i d) ≡ n
unfolding decode_entries
length-decode_entries zero i d = refl
length-decode_entries (suc n) i d = ap suc (length-decode_entries n (i + 1) d)

pub decode_state-ok :
    (d : Bytes) (s : GameState)
    → 0 < length d
    → decode_state d ≡ ok s
    → let n = from_le (slice 8 12 d) in
      (length d ≡ 12 + n * 36)
      × (s ≡ record { seq = from_le (slice 0 8 d); players = decode_entries n 0 d })
unfolding decode_state
decode_state-ok d s h e = ground arith

encode_decoded :
    (d : Bytes)
    → All IsByte d
    → let n = from_le (slice 8 12 d) in
      length d ≡ 12 + n * 36
      → encode_state (record { seq = from_le (slice 0 8 d); players = decode_entries n 0 d }) ≡ d
encode_decoded d v size =
    let n : ℕ = from_le (slice 8 12 d) in
    let in_range : n < span 4 =
      subst (λ k. n < span k) (length-slice 8 12 d (omega arith) (omega arith))
        (from_le-lt (slice 8 12 d) (slice-IsByte 8 12 d v)) in
    let count : length (decode_entries n 0 d) % u32_mod ≡ n =
      rw (length-decode_entries n 0 d) (omega (arith, in_range)) in
    let seq = to_le-slice 8 0 8 d v (omega arith) refl in
    let four = to_le-slice 4 8 12 d v (omega arith) refl in
    let body = encode_entries-decode_entries n 0 d v (omega (arith, size)) in
    unfold encode_state in
    rw
      (
        seq,
        count,
        four,
        body,
        ← append_assoc (slice 0 8 d),
        slice-join 0 8 12 d (omega arith) (omega arith),
      )
      (take-append-drop 12 d)

-- Cell data that decodes is the encoding of what it decodes to, unless it is empty.
pub encode_state-decode_state :
    (d : Bytes) (s : GameState)
    → All IsByte d
    → 0 < length d
    → decode_state d ≡ ok s
    → encode_state s ≡ d
encode_state-decode_state d s v some_bytes e =
    let (size, shape) = decode_state-ok d s some_bytes e in rw shape (encode_decoded d v size)
