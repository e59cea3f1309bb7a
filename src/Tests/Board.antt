-- ===== src/Tests/Board.antt =====
-- The game rules on concrete boards.
use ckb_controller.Base.{
  ℕ, ◌+◌, ◌≡◌, ◌↔◌, refl, arith, true, List, [], ◌∷◌, replicate, ok, err, length, All, u64_mod, ◌<◌,
}
use ckb_controller.Bytes.{Bytes}
use ckb_controller.Bytes.Equality.{bytes_eq}
use ckb_controller.Game.{
  GameError, GameState, Intent, find_player, advance_player, write_player, apply_intent,
  apply_intents, apply_batch, equals_unordered, empty,
}
use ckb_controller.Game.Moves.{Outcome, apply_intent-Outcome, score_of, nonce_of}
use ckb_controller.Game.Batches.{points_by, moves_by, apply_batch_effect, replay_refused}
use ckb_controller.Game.Invariant.{Distinct, IsFair, apply_batch-IsFair, empty-IsFair}
use ckb_controller.Game.Unordered.{equals_unordered_iff}
use ckb_controller.Game.Codec.{encode_state, decode_state}
use ckb_controller.Game.RoundTrip.{decode_state-encode_state, IsState}
use ckb_controller.Game.BatchCodec.{IsIntent}
use mathlib.Core.List.{Perm}

abbrev pub alice : Bytes
alice = replicate 20 1

abbrev pub bob : Bytes
bob = replicate 20 2

abbrev pub move : Bytes → ℕ → ℕ → Intent
move who points nonce = record { hash = who; points = points; nonce = nonce; sig = replicate 65 0 }

abbrev pub opening : List Intent
opening = move alice 10 1 ∷ move bob 5 1 ∷ move alice 1000 2 ∷ []

abbrev pub opened : GameState
opened = record {
  seq = 3;
  players =
      record { hash = alice; score = 1010; nonce = 2 }
      ∷ record { hash = bob; score = 5; nonce = 1 }
      ∷ [];
}

abbrev pub swapped : GameState
swapped = record opened {
  players =
      record { hash = bob; score = 5; nonce = 1 }
      ∷ record { hash = alice; score = 1010; nonce = 2 }
      ∷ [];
}

pub opening_run : apply_batch opening empty ≡ (ok tt, opened)
unfolding apply_batch apply_intents apply_intent find_player advance_player write_player bytes_eq
opening_run = refl

pub opening_replays : apply_intents opening empty ≡ (ok tt, record opened { seq = 0 })
unfolding apply_intents apply_intent find_player advance_player write_player bytes_eq
opening_replays = refl

apply_intent-Outcome_example :
    Outcome (move bob 1001 2) opened (apply_intent (move bob 1001 2) opened)
apply_intent-Outcome_example = apply_intent-Outcome (move bob 1001 2) opened

apply_batch_effect_example :
    (3 ≡ 0 + 3)
    × (3 < u64_mod)
    × ((h : Bytes)
        → (score_of h opened ≡ score_of h empty + points_by h opening)
          × (nonce_of h opened ≡ nonce_of h empty + moves_by h opening))
apply_batch_effect_example = apply_batch_effect opening empty opened opening_run

abbrev later : List Intent
later = move bob 7 2 ∷ []

abbrev grown : GameState
grown = record {
  seq = 4;
  players =
      record { hash = alice; score = 1010; nonce = 2 }
      ∷ record { hash = bob; score = 12; nonce = 2 }
      ∷ [];
}

later_run : apply_batch later opened ≡ (ok tt, grown)
unfolding apply_batch apply_intents apply_intent find_player advance_player write_player bytes_eq
later_run = refl

replay_refused_example : (e : GameError) × (apply_intent (move bob 5 1) grown ≡ (err e, grown))
replay_refused_example =
    replay_refused (move alice 10 1 ∷ []) (move alice 1000 2 ∷ []) later (move bob 5 1) empty opened
      grown opening_run later_run

pub opened-IsFair : IsFair 0 opened
opened-IsFair = apply_batch-IsFair opening empty opened empty-IsFair opening_run

opened-Distinct : Distinct opened.players
opened-Distinct = opened-IsFair.distinct

equals_unordered_iff_example :
    (equals_unordered opened swapped ≡ true)
    ↔ ((opened.seq ≡ swapped.seq) × Perm opened.players swapped.players)
equals_unordered_iff_example = equals_unordered_iff opened swapped opened-Distinct

pub opened-IsState : IsState opened
opened-IsState = record {
  seq_fits = omega arith;
  count_fits = omega arith;
  entries = (
    record { hash_size = refl; score_fits = omega arith; nonce_fits = omega arith },
    (record { hash_size = refl; score_fits = omega arith; nonce_fits = omega arith }, tt),
  );
}

decode_state-encode_state_example : decode_state (encode_state opened) ≡ ok opened
decode_state-encode_state_example = decode_state-encode_state opened opened-IsState

move-IsIntent :
    (who : Bytes) (points nonce : ℕ)
    → length who ≡ 20
    → points < u64_mod
    → nonce < u64_mod
    → IsIntent (move who points nonce)
move-IsIntent who points nonce size h k = record {
  hash_size = size;
  points_fits = h;
  nonce_fits = k;
  sig_size = refl;
}

abbrev one_player : GameState
one_player = record { seq = 1; players = record { hash = bob; score = 5; nonce = 1 } ∷ [] }

pub opening-IsIntents : All IsIntent opening
opening-IsIntents = (
  move-IsIntent alice 10 1 refl (omega arith) (omega arith),
  (
    move-IsIntent bob 5 1 refl (omega arith) (omega arith),
    (move-IsIntent alice 1000 2 refl (omega arith) (omega arith), tt),
  ),
)

pub empty-IsState : IsState empty
empty-IsState = record { seq_fits = omega arith; count_fits = omega arith; entries = tt }

pub swapped-IsState : IsState swapped
swapped-IsState = record {
  seq_fits = omega arith;
  count_fits = omega arith;
  entries = (opened-IsState.entries.1.0, (opened-IsState.entries.0, tt));
}
