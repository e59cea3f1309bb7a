-- ===== src/Game/Batches.antt =====
-- `GameState::apply_batch` of game-rules/src/lib.rs: what a batch of moves adds up to, where it
-- stops, and why no move is taken twice.
use ckb_controller.Base.{
  ℕ, ◌+◌, ◌<◌, ◌≤◌, ◌≡◌, refl, arith, inl, inr, List, [], ◌∷◌, ◌++◌, length, if◌then◌else◌, ok, err,
  u64_mod, ap, ◌∙◌, Result-cases,
}
use ckb_controller.Bytes.{Bytes}
use ckb_controller.Bytes.Equality.{bytes_eq, bytes_eq_refl, bytes_eq→eq}
use ckb_controller.Game.{GameError, GameState, Intent, apply_intent, apply_intents, apply_batch}
use ckb_controller.Game.Moves.{score_of, nonce_of, IsLegal, Advanced, apply_intent-Outcome}

-- The points that a batch gives to a player, and the player's moves in it.
abbrev pub points_by : Bytes → List Intent → ℕ
points_by h [] = 0
points_by h (i ∷ is) = (if bytes_eq i.hash h then i.points else 0) + points_by h is

abbrev pub moves_by : Bytes → List Intent → ℕ
moves_by h [] = 0
moves_by h (i ∷ is) = (if bytes_eq i.hash h then 1 else 0) + moves_by h is

pub apply_intent-ok :
    (i : Intent) (s t : GameState) → apply_intent i s ≡ (ok tt, t) → IsLegal i s × Advanced i s t
apply_intent-ok i s t e = rw e at (apply_intent-Outcome i s)

pub apply_intent-err :
    (i : Intent) (s t : GameState) (x : GameError)
    → apply_intent i s ≡ (err x, t)
    → (¬ IsLegal i s) × (t ≡ s)
apply_intent-err i s t x e = rw e at (apply_intent-Outcome i s)

pub apply_intents-ok :
    (i : Intent) (is : List Intent) (s t : GameState)
    → apply_intents (i ∷ is) s ≡ (ok tt, t)
    → (m : GameState) × (apply_intent i s ≡ (ok tt, m)) × (apply_intents is m ≡ (ok tt, t))
unfolding apply_intents
apply_intents-ok i is s t e = elim (Result-cases (apply_intent i s).0) [
  | inl (u, r) ↦ ((apply_intent i s).1, ground arith, ground arith)
  | inr (x, r) ↦ ground arith
]

-- What a run of moves does to every player.
pub apply_intents_effect :
    (is : List Intent) (s t : GameState) (h : Bytes)
    → apply_intents is s ≡ (ok tt, t)
    → (t.seq ≡ s.seq)
      × (score_of h t ≡ score_of h s + points_by h is)
      × (nonce_of h t ≡ nonce_of h s + moves_by h is)
apply_intents_effect [] s t h e = unfold apply_intents in ground arith
apply_intents_effect (i ∷ is) s t h e =
    let (m, first, rest) = apply_intents-ok i is s t e in
    let (legal, adv) = apply_intent-ok i s m first in
    let (seqs, scores, nonces) = apply_intents_effect is m t h rest in
    ground (arith, adv.scores h, adv.nonces h, legal.fresh, bytes_eq→eq i.hash h)

pub apply_batch-ok :
    (is : List Intent) (s t : GameState)
    → apply_batch is s ≡ (ok tt, t)
    → (m : GameState) × (apply_intents is s ≡ (ok tt, m))
      × (m.seq + length is < u64_mod)
      × (t ≡ record m { seq = m.seq + length is })
unfolding apply_batch
apply_batch-ok is s t e = elim (Result-cases (apply_intents is s).0) [
  | inl (u, r) ↦ ((apply_intents is s).1, ground arith, ground arith, ground arith)
  | inr (x, r) ↦ ground arith
]

-- A batch that is accepted raises `seq` by its length, and every player's score and nonce by the
-- points and by the number of that player's moves in it; nothing has overflowed.
pub apply_batch_effect :
    (is : List Intent) (s t : GameState)
    → apply_batch is s ≡ (ok tt, t)
    → (t.seq ≡ s.seq + length is)
      × (t.seq < u64_mod)
      × ((h : Bytes)
          → (score_of h t ≡ score_of h s + points_by h is)
            × (nonce_of h t ≡ nonce_of h s + moves_by h is))
apply_batch_effect is s t e =
    let (m, run, fits, shape) = apply_batch-ok is s t e in
    let (seqs, _, _) = apply_intents_effect is s m [] run in
    (
      ap (λ (u : GameState). u.seq) shape ∙ omega (arith, seqs),
      omega (arith, fits, ap (λ (u : GameState). u.seq) shape),
      λ h.
          let (_, scores, nonces) = apply_intents_effect is s m h run in
          (ap (score_of h) shape ∙ scores, ap (nonce_of h) shape ∙ nonces),
    )

-- A move of an accepted batch is covered by its player's nonce from then on.
nonce_covers :
    (before after : List Intent) (i : Intent) (s t : GameState)
    → apply_intents (before ++ (i ∷ after)) s ≡ (ok tt, t)
    → i.nonce ≤ nonce_of i.hash t
nonce_covers [] after i s t e =
    let (m, first, rest) = apply_intents-ok i after s t e in
    let (legal, adv) = apply_intent-ok i s m first in
    let (_, _, nonces) = apply_intents_effect after m t i.hash rest in
    ground (arith, adv.nonces i.hash, bytes_eq_refl i.hash)
nonce_covers (j ∷ before) after i s t e =
    let (m, first, rest) = apply_intents-ok j (before ++ (i ∷ after)) s t e in
    nonce_covers before after i m t rest

-- No replay: once a batch with a move in it has been accepted, no state that any later accepted
-- batch leads to takes that move again.
pub replay_refused :
    (before after later : List Intent) (i : Intent) (s t u : GameState)
    → apply_batch (before ++ (i ∷ after)) s ≡ (ok tt, t)
    → apply_batch later t ≡ (ok tt, u)
    → (e : GameError) × (apply_intent i u ≡ (err e, u))
replay_refused before after later i s t u first second = elim (Result-cases (apply_intent i u).0) [
  | inl (_, r) ↦
      let (legal, _) = apply_intent-ok i u (apply_intent i u).1 (ground arith) in
      let (m, run, _, shape) = apply_batch-ok (before ++ (i ∷ after)) s t first in
      let (_, _, grows) = apply_batch_effect later t u second in
      absurd (
        omega (
          arith,
          legal.fresh,
          nonce_covers before after i s m run,
          ap (nonce_of i.hash) shape,
          (grows i.hash).1,
        ))
  | inr (e, r) ↦
      let (_, same) = apply_intent-err i u (apply_intent i u).1 e (ground arith) in
      (e, ground arith)
]

-- Where the loop of a batch stops, the moves before the one that failed have been written.
pub apply_intents_stop :
    (is : List Intent) (s t : GameState) (e : GameError)
    → apply_intents is s ≡ (err e, t)
    → (before : List Intent) × (i : Intent) × (after : List Intent) × (is ≡ before ++ (i ∷ after))
      × (apply_intents before s ≡ (ok tt, t))
      × (apply_intent i t ≡ (err e, t))
unfolding apply_intents
apply_intents_stop [] s t e h = ground arith
apply_intents_stop (i ∷ is) s t e h = elim (Result-cases (apply_intent i s).0) [
  | inl (_, r) ↦
      let (before, j, after, shape, run, bad) =
        apply_intents_stop is (apply_intent i s).1 t e (ground arith) in
      (i ∷ before, j, after, ap (◌∷◌ i) shape, ground arith, bad)
  | inr (x, r) ↦
      let (_, same) = apply_intent-err i s (apply_intent i s).1 x (ground arith) in
      ([], i, is, refl, ground arith, ground arith)
]
