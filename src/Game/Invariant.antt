-- ===== src/Game/Invariant.antt =====
-- What holds of every board that game-rules/src/lib.rs builds from the empty one.
use ckb_controller.Base.{
  ℕ, suc, ◌+◌, ◌*◌, ◌≤◌, ◌≡◌, refl, arith, none, some, List, [], ◌∷◌, ◌++◌, length, All, ok, ◌∙◌,
  Option-cases, inl, inr, false, All-append, subst, Result-cases,
}
use ckb_controller.Bytes.{Bytes}
use ckb_controller.Bytes.Equality.{bytes_eq, bytes_eq_cases, bytes_eq_comm}
use ckb_controller.Game.{
  PlayerEntry, GameState, Intent, find_player, write_player, advance_player, first_entry,
  apply_intent, apply_intents, apply_batch, empty,
}
use ckb_controller.Game.Moves.{find_player-hash, find-write_ne, find-append_ne}
use ckb_controller.Game.Entries.{write_player-All, find_player-All}
use ckb_controller.Game.Batches.{apply_intents-ok, apply_batch-ok}

-- No player is listed twice.
abbrev pub Distinct : List PlayerEntry → Type 0
Distinct [] = Unit
Distinct (p ∷ ps) = (find_player p.hash ps ≡ none) × Distinct ps

-- The moves that the players have made.
abbrev pub moves_made : List PlayerEntry → ℕ
moves_made [] = 0
moves_made (p ∷ ps) = p.nonce + moves_made ps

-- A score is at most the cap times the number of moves.
abbrev pub IsEarned : PlayerEntry → Type 0
IsEarned p = p.score ≤ 1000 * p.nonce

-- The board, `k` moves into a batch: `seq` is raised only at its end.
pub record IsFair (k : ℕ) (s : GameState) : Type 0 where
  pub distinct : Distinct s.players
  pub earned : All IsEarned s.players
  pub counted : moves_made s.players ≡ s.seq + k

write-Distinct :
    (h : Bytes) (q : PlayerEntry) (ps : List PlayerEntry)
    → q.hash ≡ h
    → Distinct ps
    → Distinct (write_player h q ps)
unfolding find_player write_player
write-Distinct h q [] e d = tt
write-Distinct h q (p ∷ ps) e d = elim (bytes_eq_cases p.hash h) [
  | inl (same, t) ↦ rw t (rw (e, ← same) d.0, d.1)
  | inr (other, t) ↦ rw t (
    find-write_ne h p.hash q ps e (bytes_eq_comm h p.hash ∙ t) ∙ d.0,
    write-Distinct h q ps e d.1,
  )
]

not_first :
    (p : PlayerEntry) (h : Bytes) (ps : List PlayerEntry)
    → find_player h (p ∷ ps) ≡ none
    → (bytes_eq p.hash h ≡ false) × (find_player h ps ≡ none)
unfolding find_player
not_first p h ps e = ground arith

push-Distinct :
    (q : PlayerEntry) (ps : List PlayerEntry)
    → find_player q.hash ps ≡ none
    → Distinct ps
    → Distinct (ps ++ (q ∷ []))
push-Distinct q [] e d = (unfold find_player in refl, tt)
push-Distinct q (p ∷ ps) e d =
    let (other, absent) = not_first p q.hash ps e in
    (
      find-append_ne p.hash q ps (bytes_eq_comm q.hash p.hash ∙ other) ∙ d.0,
      push-Distinct q ps absent d.1,
    )

write-moves_made :
    (h : Bytes) (q p : PlayerEntry) (ps : List PlayerEntry)
    → find_player h ps ≡ some p
    → moves_made (write_player h q ps) + p.nonce ≡ moves_made ps + q.nonce
unfolding find_player write_player
write-moves_made h q p [] e = cc
write-moves_made h q p (r ∷ ps) e = ground (arith, write-moves_made h q p ps)

push-moves_made :
    (q : PlayerEntry) (ps : List PlayerEntry)
    → moves_made (ps ++ (q ∷ [])) ≡ moves_made ps + q.nonce
push-moves_made q [] = omega arith
push-moves_made q (p ∷ ps) = omega (arith, push-moves_made q ps)

advance-IsEarned :
    (i : Intent) (p q : PlayerEntry)
    → i.points ≤ 1000
    → IsEarned p
    → advance_player i p ≡ ok q
    → IsEarned q × (q.nonce ≡ p.nonce + 1) × (q.hash ≡ p.hash)
unfolding advance_player
advance-IsEarned i p q low earned e = ground arith

pub apply_intent_new :
    (i : Intent) (s t : GameState)
    → find_player i.hash s.players ≡ none
    → apply_intent i s ≡ (ok tt, t)
    → (i.points ≤ 1000) × (t ≡ record s { players = s.players ++ (first_entry i ∷ []) })
unfolding apply_intent
apply_intent_new i s t absent e = ground arith

pub apply_intent_known :
    (i : Intent) (s t : GameState) (p : PlayerEntry)
    → find_player i.hash s.players ≡ some p
    → apply_intent i s ≡ (ok tt, t)
    → (i.points ≤ 1000)
      × (q : PlayerEntry) × (advance_player i p ≡ ok q)
      × (t ≡ record s { players = write_player i.hash q s.players })
unfolding apply_intent
apply_intent_known i s t p found e = elim (Result-cases (advance_player i p)) [
  | inl (q, r) ↦ (ground arith, q, r, ground arith)
  | inr (x, r) ↦ ground arith
]

write-IsFair :
    (k : ℕ) (i : Intent) (s : GameState) (p q : PlayerEntry)
    → IsFair k s
    → find_player i.hash s.players ≡ some p
    → i.points ≤ 1000
    → advance_player i p ≡ ok q
    → IsFair (k + 1) (record s { players = write_player i.hash q s.players })
write-IsFair k i s p q fair found low e =
    let (earned, nonce, hash) =
      advance-IsEarned i p q low (find_player-All IsEarned i.hash p s.players found fair.earned)
        e in
    record {
      distinct =
          write-Distinct i.hash q s.players (hash ∙ find_player-hash i.hash s.players found)
            fair.distinct;
      earned = write_player-All IsEarned i.hash q s.players earned fair.earned;
      counted = omega (arith, write-moves_made i.hash q p s.players found, nonce, fair.counted);
    }

push-IsFair :
    (k : ℕ) (i : Intent) (s : GameState)
    → IsFair k s
    → find_player i.hash s.players ≡ none
    → i.points ≤ 1000
    → IsFair (k + 1) (record s { players = s.players ++ (first_entry i ∷ []) })
push-IsFair k i s fair absent low = record {
  distinct = push-Distinct (first_entry i) s.players absent fair.distinct;
  earned = All-append IsEarned s.players _ fair.earned (omega arith, tt);
  counted = omega (arith, push-moves_made (first_entry i) s.players, fair.counted);
}

-- One move is one more move made.
apply_intent-IsFair :
    (k : ℕ) (i : Intent) (s t : GameState)
    → IsFair k s
    → apply_intent i s ≡ (ok tt, t)
    → IsFair (k + 1) t
apply_intent-IsFair k i s t fair e = elim (Option-cases (find_player i.hash s.players)) [
  | inl absent ↦
      let (low, shape) = apply_intent_new i s t absent e in
      rw shape (push-IsFair k i s fair absent low)
  | inr (p, found) ↦
      let (low, q, r, shape) = apply_intent_known i s t p found e in
      rw shape (write-IsFair k i s p q fair found low r)
]

apply_intents-IsFair :
    (k : ℕ) (is : List Intent) (s t : GameState)
    → IsFair k s
    → apply_intents is s ≡ (ok tt, t)
    → IsFair (k + length is) t
apply_intents-IsFair k [] s t fair e =
    let same : s ≡ t = unfold apply_intents in cc in
    subst (λ u. IsFair (k + 0) u) same (let z : k ≡ k + 0 = omega arith in rw z at fair)
apply_intents-IsFair k (i ∷ is) s t fair e =
    let (m, first, rest) = apply_intents-ok i is s t e in
    let shift : k + 1 + length is ≡ k + suc (length is) = omega arith in
    rw shift at (apply_intents-IsFair (k + 1) is m t (apply_intent-IsFair k i s m fair first) rest)

-- An accepted batch keeps a fair board fair: no player is listed twice, no score is above 1000
-- points a move, and `seq` is the number of all moves that the players have made.
pub apply_batch-IsFair :
    (is : List Intent) (s t : GameState) → IsFair 0 s → apply_batch is s ≡ (ok tt, t) → IsFair 0 t
apply_batch-IsFair is s t fair e =
    let (m, run, _, shape) = apply_batch-ok is s t e in
    let after = apply_intents-IsFair 0 is s m fair run in
    let finished : IsFair 0 (record m { seq = m.seq + length is }) = record {
      distinct = after.distinct;
      earned = after.earned;
      counted = omega (arith, after.counted);
    } in
    rw shape finished

pub empty-IsFair : IsFair 0 empty
empty-IsFair = record { distinct = tt; earned = tt; counted = omega arith }
