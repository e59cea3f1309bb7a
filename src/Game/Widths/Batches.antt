-- ===== src/Game/Widths/Batches.antt =====
-- A batch of moves of the widths of the type leaves entries of these widths, and few more of them.
use ckb_controller.Base.{
  ◌+◌, ◌<◌, ◌≤◌, ◌≡◌, refl, arith, List, [], ◌∷◌, length, length-append, All, All-append, ok,
  Option-cases, inl, inr, subst, sym, u64_mod, u32_mod,
}
use ckb_controller.Bytes.{Bytes, IsArray}
use ckb_controller.Game.{
  PlayerEntry, GameState, Intent, first_entry, advance_player, apply_intent, apply_intents,
  apply_batch, find_player, write_player,
}
use ckb_controller.Game.RoundTrip.{IsState}
use ckb_controller.Game.Batches.{apply_intents-ok, apply_batch-ok}
use ckb_controller.Game.Entries.{write_player-All, find_player-All}
use ckb_controller.Game.Invariant.{apply_intent_new, apply_intent_known}
use ckb_controller.Game.Widths.{IsStored, IsMove, stored_entries}

advance_player-IsStored :
    (i : Intent) (p q : PlayerEntry)
    → IsMove i
    → IsStored p
    → advance_player i p ≡ ok q
    → IsStored q
unfolding advance_player
advance_player-IsStored i p q m v e =
    let fits : (q.hash ≡ p.hash) × (q.score < u64_mod) × (q.nonce ≡ i.nonce) = ground arith in
    let (same, small, next) = fits in
    record {
      hash = subst (λ h. IsArray 20 h) (sym same) v.hash;
      score_fits = small;
      nonce_fits = omega (arith, next, m.nonce_fits);
    }

first_entry-IsStored : (i : Intent) → IsMove i → IsStored (first_entry i)
first_entry-IsStored i m = record {
  hash = m.hash;
  score_fits = m.points_fits;
  nonce_fits = omega arith;
}

apply_intent-IsStored :
    (i : Intent) (s t : GameState)
    → IsMove i
    → All IsStored s.players
    → apply_intent i s ≡ (ok tt, t)
    → All IsStored t.players
apply_intent-IsStored i s t m v e = elim (Option-cases (find_player i.hash s.players)) [
  | inl absent ↦
      let (low, shape) = apply_intent_new i s t absent e in
      rw shape (All-append IsStored s.players _ v (first_entry-IsStored i m, tt))
  | inr (p, found) ↦
      let (low, q, r, shape) = apply_intent_known i s t p found e in
      let before = find_player-All IsStored i.hash p s.players found v in
      rw shape
        (write_player-All IsStored i.hash q s.players (advance_player-IsStored i p q m before r) v)
]

apply_intents-IsStored :
    (is : List Intent) (s t : GameState)
    → All IsMove is
    → All IsStored s.players
    → apply_intents is s ≡ (ok tt, t)
    → All IsStored t.players
apply_intents-IsStored [] s t ms v e =
    let same : s ≡ t = unfold apply_intents in cc in rw (sym same) v
apply_intents-IsStored (i ∷ is) s t ms v e =
    let (m, first, rest) = apply_intents-ok i is s t e in
    apply_intents-IsStored is m t ms.1 (apply_intent-IsStored i s m ms.0 v first) rest

-- A batch that is accepted leaves entries of the widths of the type.
pub apply_batch-IsStored :
    (is : List Intent) (s t : GameState)
    → All IsMove is
    → All IsStored s.players
    → apply_batch is s ≡ (ok tt, t)
    → All IsStored t.players
apply_batch-IsStored is s t ms v e =
    let (m, run, fits, shape) = apply_batch-ok is s t e in
    rw shape (apply_intents-IsStored is s m ms v run)

-- A board that a batch leaves fits its encoding, if it has fewer than 2 ^ 32 players.
pub apply_batch-IsState :
    (is : List Intent) (s t : GameState)
    → All IsMove is
    → All IsStored s.players
    → apply_batch is s ≡ (ok tt, t)
    → length t.players < u32_mod
    → IsState t
apply_batch-IsState is s t ms v e few =
    let (m, run, fits, shape) = apply_batch-ok is s t e in
    record {
      seq_fits = rw shape (omega (arith, fits));
      count_fits = few;
      entries = stored_entries t.players (apply_batch-IsStored is s t ms v e);
    }

length-write_player :
    (h : Bytes) (q : PlayerEntry) (ps : List PlayerEntry) → length (write_player h q ps) ≡ length ps
unfolding write_player
length-write_player h q [] = refl
length-write_player h q (p ∷ ps) = ground (arith, length-write_player h q ps)

apply_intent-grows :
    (i : Intent) (s t : GameState)
    → apply_intent i s ≡ (ok tt, t)
    → length t.players ≤ length s.players + 1
apply_intent-grows i s t e = elim (Option-cases (find_player i.hash s.players)) [
  | inl absent ↦
      let (low, shape) = apply_intent_new i s t absent e in
      rw shape (omega (arith, length-append s.players (first_entry i ∷ [])))
  | inr (p, found) ↦
      let (low, q, r, shape) = apply_intent_known i s t p found e in
      rw shape (omega (arith, length-write_player i.hash q s.players))
]

apply_intents-grows :
    (is : List Intent) (s t : GameState)
    → apply_intents is s ≡ (ok tt, t)
    → length t.players ≤ length s.players + length is
apply_intents-grows [] s t e =
    let same : s ≡ t = unfold apply_intents in cc in rw (sym same) (omega arith)
apply_intents-grows (i ∷ is) s t e =
    let (m, first, rest) = apply_intents-ok i is s t e in
    omega (arith, apply_intent-grows i s m first, apply_intents-grows is m t rest)

-- A batch adds at most a player for each move.
pub apply_batch-grows :
    (is : List Intent) (s t : GameState)
    → apply_batch is s ≡ (ok tt, t)
    → length t.players ≤ length s.players + length is
apply_batch-grows is s t e =
    let (m, run, fits, shape) = apply_batch-ok is s t e in rw shape (apply_intents-grows is s m run)
