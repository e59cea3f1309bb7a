-- ===== src/Game.antt =====
-- game-rules/src/lib.rs: the state of a game, one move, and the order-insensitive comparison that
-- the type script makes. A `&mut self` method returns its result with the state that it leaves.
pub mod Moves
pub mod Batches
pub mod Entries
pub mod Invariant
pub mod Unordered
pub mod Reorder
pub mod Codec
pub mod RoundTrip
pub mod BatchCodec
pub mod Widths
use ckb_controller.Base.{
  ℕ, Bool, true, false, ◌&&◌, Option, none, some, List, [], ◌∷◌, ◌++◌, length, ltb, ◌==◌,
  if◌then◌else◌, Result, ok, err, ok_or, ◌>>=◌, checked_add_u64,
}
use ckb_controller.Bytes.{Bytes}
use ckb_controller.Bytes.Equality.{bytes_eq}

abbrev pub max_points_per_move : ℕ
max_points_per_move = 1000

pub data GameError : Type 0 where
  state_malformed batch_malformed nonce_not_fresh points_too_high overflow : GameError

pub record PlayerEntry : Type 0 where
  pub hash : Bytes
  pub score : ℕ
  pub nonce : ℕ

pub record GameState : Type 0 where
  pub seq : ℕ
  pub players : List PlayerEntry

pub record Intent : Type 0 where
  pub hash : Bytes
  pub points : ℕ
  pub nonce : ℕ
  pub sig : Bytes

-- `GameState::empty`
abbrev pub empty : GameState
empty = record { seq = 0; players = [] }

-- `iter_mut().find(|p| p.hash == hash)`: the entry that it finds,
unfoldable pub find_player : Bytes → List PlayerEntry → Option PlayerEntry
find_player h [] = none
find_player h (p ∷ ps) = if bytes_eq p.hash h then some p else find_player h ps

-- and the players after a write through the reference to it.
unfoldable pub write_player : Bytes → PlayerEntry → List PlayerEntry → List PlayerEntry
write_player h q [] = []
write_player h q (p ∷ ps) = if bytes_eq p.hash h then q ∷ ps else p ∷ write_player h q ps

-- The `Some(p)` arm of `apply_intent`: the entry that the move leaves.
unfoldable pub advance_player : Intent → PlayerEntry → Result GameError PlayerEntry
advance_player i p = do
  next ← ok_or (checked_add_u64 p.nonce 1) overflow
  score ←
      if i.nonce == next
      then ok_or (checked_add_u64 p.score i.points) overflow
      else err nonce_not_fresh
  ok (record p { score = score; nonce = i.nonce })

abbrev pub first_entry : Intent → PlayerEntry
first_entry i = record { hash = i.hash; score = i.points; nonce = 1 }

unfoldable pub apply_intent : Intent → GameState → Result GameError (Unit {0}) × GameState
apply_intent i s =
    if ltb max_points_per_move i.points
    then (err points_too_high, s)
    else elim (find_player i.hash s.players) [
      | some p ↦ elim (advance_player i p) [
        | ok q ↦ (ok tt, record s { players = write_player i.hash q s.players })
        | err e ↦ (err e, s)
      ]
      | none ↦
          if i.nonce == 1
          then (ok tt, record s { players = s.players ++ (first_entry i ∷ []) })
          else (err nonce_not_fresh, s)
    ]

-- The loop of `apply_batch`: it stops at the first move that fails, and what was written stays.
unfoldable pub apply_intents : List Intent → GameState → Result GameError (Unit {0}) × GameState
apply_intents [] s = (ok tt, s)
apply_intents (i ∷ is) s =
    let (r, s') = apply_intent i s in
    let rest = apply_intents is s' in elim r [ ok _ ↦ rest | err e ↦ (err e, s') ]

unfoldable pub apply_batch : List Intent → GameState → Result GameError (Unit {0}) × GameState
apply_batch is s =
    let (r, s') = apply_intents is s in
    elim r [
      | ok _ ↦ elim (checked_add_u64 s'.seq (length is)) [
        | some n ↦ (ok tt, record s' { seq = n })
        | none ↦ (err overflow, s')
      ]
      | err e ↦ (err e, s')
    ]

unfoldable pub same_entry : PlayerEntry → PlayerEntry → Bool
same_entry p q = bytes_eq q.hash p.hash && (q.score == p.score && q.nonce == p.nonce)

-- `other.players.iter().any(..)`
unfoldable pub any_same : PlayerEntry → List PlayerEntry → Bool
any_same p [] = false
any_same p (q ∷ qs) = if same_entry p q then true else any_same p qs

-- `self.players.iter().all(..)`
unfoldable pub all_in : List PlayerEntry → List PlayerEntry → Bool
all_in [] qs = true
all_in (p ∷ ps) qs = if any_same p qs then all_in ps qs else false

unfoldable pub equals_unordered : GameState → GameState → Bool
equals_unordered s t =
    if s.seq == t.seq
    then if length s.players == length t.players then all_in s.players t.players else false
    else false
