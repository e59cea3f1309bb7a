-- ===== src/Game/Moves.antt =====
-- `GameState::apply_intent` of game-rules/src/lib.rs against the rule that it stands for: each
-- player has a score and a nonce, 0 before the first move.
use ckb_controller.Base.{
  ℕ, ◌+◌, ◌<◌, ◌≤◌, ◌≡◌, refl, arith, true, false, Option, none, some, List, [], ◌∷◌, ◌++◌,
  if◌then◌else◌, Result, ok, err, u64_mod, Option-cases, inl, inr, Result-cases, ltb, ◌==◌, sym,
  Bool-cases, tests, ==_iff, ◌∙◌,
}
use ckb_controller.Bytes.{Bytes}
use ckb_controller.Bytes.Equality.{bytes_eq, bytes_eq→eq, bytes_eq_refl, bytes_eq_cases}
use ckb_controller.Game.{
  GameError, PlayerEntry, GameState, Intent, find_player, write_player, advance_player, first_entry,
  apply_intent, max_points_per_move,
}

-- What the board shows of a player.
abbrev pub score_in : Option PlayerEntry → ℕ
score_in none = 0
score_in (some p) = p.score

abbrev pub nonce_in : Option PlayerEntry → ℕ
nonce_in none = 0
nonce_in (some p) = p.nonce

abbrev pub score_of : Bytes → GameState → ℕ
score_of h s = score_in (find_player h s.players)

abbrev pub nonce_of : Bytes → GameState → ℕ
nonce_of h s = nonce_in (find_player h s.players)

-- The rule of the game.
pub record IsLegal (i : Intent) (s : GameState) : Type 0 where
  pub capped : i.points ≤ 1000
  pub fresh : i.nonce ≡ nonce_of i.hash s + 1
  pub nonce_fits : i.nonce < u64_mod
  pub score_fits : score_of i.hash s + i.points < u64_mod

pub find_player-hash :
    (h : Bytes) (ps : List PlayerEntry) {p : PlayerEntry} → find_player h ps ≡ some p → p.hash ≡ h
unfolding find_player
find_player-hash h [] e = cc
find_player-hash h (q ∷ ps) e = elim (bytes_eq_cases q.hash h) [
  | inl (same, t) ↦ let e' = rw t at e in cc (same)
  | inr (other, t) ↦ find_player-hash h ps (rw t at e)
]

pub find-write_self :
    (h : Bytes) (q : PlayerEntry) (ps : List PlayerEntry) (p : PlayerEntry)
    → q.hash ≡ h
    → find_player h ps ≡ some p
    → find_player h (write_player h q ps) ≡ some q
unfolding find_player write_player
find-write_self h q [] p e f = cc
find-write_self h q (r ∷ ps) p e f = ground (arith, find-write_self h q ps p e, bytes_eq_refl h)

pub find-write_ne :
    (h k : Bytes) (q : PlayerEntry) (ps : List PlayerEntry)
    → q.hash ≡ h
    → bytes_eq h k ≡ false
    → find_player k (write_player h q ps) ≡ find_player k ps
unfolding find_player write_player
find-write_ne h k q [] e f = refl
find-write_ne h k q (r ∷ ps) e f = ground (arith, find-write_ne h k q ps e f, bytes_eq→eq r.hash h)

pub find-append_new :
    (k : Bytes) (q : PlayerEntry) (ps : List PlayerEntry)
    → find_player k ps ≡ none
    → bytes_eq q.hash k ≡ true
    → find_player k (ps ++ (q ∷ [])) ≡ some q
unfolding find_player
find-append_new k q [] e t = rw t
find-append_new k q (r ∷ ps) e t = ground (arith, find-append_new k q ps)

pub find-append_ne :
    (k : Bytes) (q : PlayerEntry) (ps : List PlayerEntry)
    → bytes_eq q.hash k ≡ false
    → find_player k (ps ++ (q ∷ [])) ≡ find_player k ps
unfolding find_player
find-append_ne k q [] t = rw t
find-append_ne k q (r ∷ ps) t = ground (arith, find-append_ne k q ps)

-- The board after a move that was accepted.
pub record Advanced (i : Intent) (s t : GameState) : Type 0 where
  pub same_seq : t.seq ≡ s.seq
  pub scores :
      (h : Bytes)
      → score_of h t ≡ (if bytes_eq i.hash h then score_of h s + i.points else score_of h s)
  pub nonces : (h : Bytes) → nonce_of h t ≡ (if bytes_eq i.hash h then i.nonce else nonce_of h s)

-- What `apply_intent` does with a move: it takes a legal one and records it for its player and for
-- no one else, and on any other it leaves the board as it was.
abbrev pub Outcome : Intent → GameState → Result GameError (Unit {0}) × GameState → Type 0
Outcome i s (ok _, t) = IsLegal i s × Advanced i s t
Outcome i s (err e, t) = ¬ IsLegal i s × (t ≡ s)

advance_player-ok :
    (i : Intent) (p : PlayerEntry)
    → i.nonce ≡ p.nonce + 1
    → i.nonce < u64_mod
    → p.score + i.points < u64_mod
    → advance_player i p ≡ ok (record p { score = p.score + i.points; nonce = i.nonce })
unfolding advance_player
advance_player-ok i p a b c = ground arith

advance_player-inv :
    (i : Intent) (p : PlayerEntry) {q : PlayerEntry}
    → advance_player i p ≡ ok q
    → (i.nonce ≡ p.nonce + 1)
      × (i.nonce < u64_mod)
      × (p.score + i.points < u64_mod)
      × (q.hash ≡ p.hash)
      × (q.score ≡ p.score + i.points)
      × (q.nonce ≡ i.nonce)
unfolding advance_player
advance_player-inv i p h = ground arith

-- The entry of a known player is overwritten.
write-Advanced :
    (i : Intent) (s : GameState) (p q : PlayerEntry)
    → find_player i.hash s.players ≡ some p
    → q.hash ≡ i.hash
    → q.score ≡ p.score + i.points
    → q.nonce ≡ i.nonce
    → Advanced i s (record s { players = write_player i.hash q s.players })
write-Advanced i s p q found same score nonce = record {
  same_seq = refl;
  scores = λ h. elim (bytes_eq_cases i.hash h) [
    | inl (e, t) ↦ rw (t, ← e, find-write_self i.hash q s.players p same found, found) score
    | inr (e, t) ↦ rw (t, find-write_ne i.hash h q s.players same t)
  ];
  nonces = λ h. elim (bytes_eq_cases i.hash h) [
    | inl (e, t) ↦ rw (t, ← e, find-write_self i.hash q s.players p same found) nonce
    | inr (e, t) ↦ rw (t, find-write_ne i.hash h q s.players same t)
  ];
}

-- A new player is added behind the others.
push-Advanced :
    (i : Intent) (s : GameState)
    → find_player i.hash s.players ≡ none
    → i.nonce ≡ 1
    → Advanced i s (record s { players = s.players ++ (first_entry i ∷ []) })
push-Advanced i s absent first = record {
  same_seq = refl;
  scores = λ h. elim (bytes_eq_cases i.hash h) [
    | inl (e, t) ↦
        rw (find-append_new h (first_entry i) s.players (rw e at absent) t, t, rw e at absent)
          (omega arith)
    | inr (e, t) ↦ rw (find-append_ne h (first_entry i) s.players t, t)
  ];
  nonces = λ h. elim (bytes_eq_cases i.hash h) [
    | inl (e, t) ↦
        rw (find-append_new h (first_entry i) s.players (rw e at absent) t, t) (sym first)
    | inr (e, t) ↦ rw (find-append_ne h (first_entry i) s.players t, t)
  ];
}

known_player :
    (i : Intent) (s : GameState) (p : PlayerEntry)
    → i.points ≤ 1000
    → find_player i.hash s.players ≡ some p
    → Outcome i s (apply_intent i s)
known_player i s p low found =
    let high : ltb max_points_per_move i.points ≡ false = omega tests in
    elim (Result-cases (advance_player i p)) [
      | inl (q, e) ↦
          let (fresh, fits, score_fits, hash, score, nonce) = advance_player-inv i p e in
          unfold apply_intent in
          rw (high, found, e)
            (
              record {
                capped = low;
                fresh = rw found fresh;
                nonce_fits = fits;
                score_fits = rw found score_fits;
              },
              write-Advanced i s p q found (hash ∙ find_player-hash i.hash s.players found) score
                  nonce,
            )
      | inr (x, e) ↦
          unfold apply_intent in
          rw (high, found, e)
            (
              λ legal. cc (
                e,
                advance_player-ok i p (rw found at legal.fresh) legal.nonce_fits
                    (rw found at legal.score_fits),
              ),
              refl,
            )
    ]

new_player :
    (i : Intent) (s : GameState)
    → i.points ≤ 1000
    → find_player i.hash s.players ≡ none
    → Outcome i s (apply_intent i s)
new_player i s low absent =
    let high : ltb max_points_per_move i.points ≡ false = omega tests in
    elim (Bool-cases (i.nonce == 1)) [
      | inl e ↦
          let first = (==_iff i.nonce 1).0 e in
          unfold apply_intent in
          rw (high, absent, e)
            (
              record {
                capped = low;
                fresh = rw absent first;
                nonce_fits = omega arith;
                score_fits = rw absent (omega arith);
              },
              push-Advanced i s absent first,
            )
      | inr e ↦
          unfold apply_intent in
          rw (high, absent, e)
            (λ legal. cc (e, (==_iff i.nonce 1).1 (rw absent at legal.fresh)), refl)
    ]

-- `apply_intent` takes exactly the legal moves, adds the points to the mover's score, sets the
-- mover's nonce to the move's, and shows every other player and `seq` as before; where it fails
-- the move is not legal and the state is unchanged.
pub apply_intent-Outcome : (i : Intent) (s : GameState) → Outcome i s (apply_intent i s)
apply_intent-Outcome i s = elim (Bool-cases (ltb max_points_per_move i.points)) [
  | inl high ↦
      unfold apply_intent in rw high (λ legal. absurd (omega (tests, high, legal.capped)), refl)
  | inr low ↦ elim (Option-cases (find_player i.hash s.players)) [
    | inl absent ↦ new_player i s (omega (tests, low)) absent
    | inr (p, found) ↦ known_player i s p (omega (tests, low)) found
  ]
]
