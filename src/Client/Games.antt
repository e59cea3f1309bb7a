-- ===== src/Client/Games.antt =====
-- Moves, batches and boards, as calls of the game rules on texts.
use ckb_controller.Base.{ℕ, ◌++◌, List, [], ◌∷◌, map, Result, ok, err}
use ckb_controller.Bytes.{Bytes}
use ckb_controller.Text.{codes, join}
use ckb_controller.Text.Decimal.{decimal}
use ckb_controller.Run.{Run, done, failed, ◌>>=◌}
use ckb_controller.Game.{GameError, GameState, PlayerEntry, Intent, apply_batch}
use ckb_controller.Game.Codec.{
  encode_state, decode_state, encode_intent, decode_intent, encode_batch, decode_batch,
  intent_message,
}
use ckb_controller.Client.{
  Libraries, Thrown, sized, hx, arr20, arr32, hexout, bad_state, bad_batch, bad_intent,
  apply_failed,
}

-- `map_err` of a call of the rules.
abbrev pub or_game : {A : Type 0} → (GameError → Thrown) → Result GameError A → Run Thrown A
or_game e (ok a) = done a
or_game e (err g) = failed (e g)

-- The state that `apply_batch` leaves where it returns.
abbrev pub applied : Result GameError (Unit {0}) × GameState → Run Thrown GameState
applied (ok u, s) = done s
applied (err g, s) = failed (apply_failed g)

module _ (l : Libraries) where
  unfoldable pub game_intent_message : Bytes → Bytes → ℕ → ℕ → Run Thrown Bytes
  game_intent_message game_id player_pubkey_hash points nonce = do
    game ← arr32 l game_id
    player ← arr20 l player_pubkey_hash
    done (hexout l (intent_message l.blake2b_256 game player points nonce))

  unfoldable pub game_encode_intent : Bytes → ℕ → ℕ → Bytes → Run Thrown Bytes
  game_encode_intent player_pubkey_hash points nonce sig = do
    s ← hx l sig >>= sized 65
    player ← arr20 l player_pubkey_hash
    done (
        hexout l
          (encode_intent (record { hash = player; points = points; nonce = nonce; sig = s })))

  unfoldable pub game_apply : Bytes → Bytes → Run Thrown Bytes
  game_apply state batch = do
    board ← hx l state
    s ← or_game bad_state (decode_state board)
    moves ← hx l batch
    intents ← or_game bad_batch (decode_batch moves)
    next ← applied (apply_batch intents s)
    done (hexout l (encode_state next))

  -- The loop of `game_encode_batch`.
  unfoldable pub parsed_intents : List Bytes → Run Thrown (List Intent)
  parsed_intents [] = done []
  parsed_intents (i ∷ is) = do
    b ← hx l i
    intent ← or_game bad_intent (decode_intent b)
    intents ← parsed_intents is
    done (intent ∷ intents)

  unfoldable pub game_encode_batch : List Bytes → Run Thrown Bytes
  game_encode_batch intents = do
    parsed ← parsed_intents intents
    done (hexout l (encode_batch parsed))

  abbrev pub player_text : PlayerEntry → Bytes
  player_text p =
      codes "{\"hash\":\""
      ++ (hexout l p.hash
          ++ (codes "\",\"score\":"
              ++ (decimal p.score ++ (codes ",\"nonce\":" ++ (decimal p.nonce ++ codes "}")))))

  unfoldable pub game_decode_state : Bytes → Run Thrown Bytes
  game_decode_state data' = do
    board ← hx l data'
    s ← or_game bad_state (decode_state board)
    done (
        codes "{\"seq\":"
        ++ (decimal s.seq
            ++ (codes ",\"players\":["
                ++ (join (codes ",") (map player_text s.players) ++ codes "]}"))))
