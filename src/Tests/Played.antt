-- ===== src/Tests/Played.antt =====
-- A move from the browser, to the game server and into a transaction of the game cell.
use ckb_controller.Base.{
  ◌≡◌, refl, arith, ap, none, some, [], ◌∷◌, ◌++◌, replicate, All, ok, All-append,
}
use ckb_controller.Bytes.{Bytes, IsByte, to_le, to_le-IsByte}
use ckb_controller.Bytes.Equality.{bytes_eq}
use ckb_controller.Text.{codes}
use ckb_controller.Text.Hex.{hex}
use ckb_controller.Json.{object, end, field, string, find_field, get, get_str}
use ckb_controller.Run.{done, ◌>>=◌}
use ckb_controller.Host.{Context}
use ckb_controller.Game.{
  GameState, Intent, empty, apply_batch, apply_intents, apply_intent, find_player,
}
use ckb_controller.Game.Codec.{
  encode_state, decode_state, encode_intent, encode_intents, encode_batch, decode_batch,
}
use ckb_controller.Game.BatchCodec.{decode_batch-encode_batch}
use ckb_controller.Game.Invariant.{empty-IsFair}
use ckb_controller.Game.Widths.{IsMove, IsMove-IsIntent, encode_intent-IsByte, encode_state-IsByte}
use ckb_controller.GameCell.{verify}
use ckb_controller.GameCell.Legal.{here, later}
use ckb_controller.GameServer.Reports.{Formats, World, Server}
use ckb_controller.GameServer.Handlers.{handle_move, handle_intent}
use ckb_controller.Client.{sized, hx, arr20, hexout}
use ckb_controller.Client.Texts.{hx-hexout}
use ckb_controller.Client.Games.{game_encode_intent, game_apply}
use ckb_controller.Client.Applied.{game_apply-accepted}
use ckb_controller.Client.Posted.{game_encode_intent-handle_intent}
use ckb_controller.Tests.Hosts.{as_bytes, host_of, host_of-IsRunOn}
use ckb_controller.Tests.Board.{alice, move}
use ckb_controller.Tests.Cells.{round, board}
use ckb_controller.Tests.Browser.{unhex, hex-IsHex, libraries, replicate-IsArray}

abbrev first_move : Intent
first_move = move alice 10 1

first_move-IsMove : IsMove first_move
first_move-IsMove = record {
  hash = replicate-IsArray 20 1 (omega arith);
  points_fits = omega arith;
  nonce_fits = omega arith;
  sig = replicate-IsArray 65 0 (omega arith);
}

abbrev move_text : Bytes
move_text = hexout libraries (encode_intent first_move)

alice_read : arr20 libraries (hexout libraries alice) ≡ done alice
unfolding arr20
alice_read =
    ap (λ r. r >>= sized 20) (hx-hexout libraries hex-IsHex alice first_move-IsMove.hash.bytes)

move_shown :
    game_encode_intent libraries (hexout libraries alice) 10 1 (hexout libraries (replicate 65 0))
    ≡ done move_text
unfolding game_encode_intent
move_shown =
    rw (hx-hexout libraries hex-IsHex (replicate 65 0) first_move-IsMove.sig.bytes, alice_read)

-- The server's formats, with the same hex.
abbrev formats : Formats
formats = record {
  as_bytes = as_bytes;
  from_str = λ body. some (object (field (codes "intent") (string body) end));
  hex_decode = unhex;
  hex_encode = hex;
}

field_read :
    get_str (codes "intent") (object (field (codes "intent") (string move_text) end))
    ≡ some move_text
unfolding get find_field codes bytes_eq
field_read = refl

game_encode_intent-handle_intent_example :
    (i : Intent) × (arr20 libraries (hexout libraries alice) ≡ done i.hash)
    × ((hx libraries (hexout libraries (replicate 65 0)) >>= sized 65) ≡ done i.sig)
    × (i.points ≡ 10)
    × (i.nonce ≡ 1)
    × ((w : World) (s : Server) → handle_intent formats w move_text s ≡ handle_move formats w i s)
game_encode_intent-handle_intent_example =
    game_encode_intent-handle_intent libraries hex-IsHex formats hex-IsHex (hexout libraries alice)
      (hexout libraries (replicate 65 0)) move_text move_text
      (object (field (codes "intent") (string move_text) end)) 10 1 (omega arith) (omega arith)
      move_shown refl field_read

abbrev moved : GameState
moved = record { seq = 1; players = record { hash = alice; score = 10; nonce = 1 } ∷ [] }

moved_run : apply_batch (first_move ∷ []) empty ≡ (ok tt, moved)
unfolding apply_batch apply_intents apply_intent find_player
moved_run = refl

batch_read : decode_batch (encode_batch (first_move ∷ [])) ≡ ok (first_move ∷ [])
batch_read =
    decode_batch-encode_batch (first_move ∷ []) (IsMove-IsIntent first_move first_move-IsMove, tt)
      (omega arith)

empty_read : decode_state [] ≡ ok empty
unfolding decode_state
empty_read = refl

encode_batch-IsByte : All IsByte (encode_batch (first_move ∷ []))
unfolding encode_batch encode_intents
encode_batch-IsByte =
    All-append IsByte (to_le 2 1) (encode_intent first_move ++ []) (to_le-IsByte 2 1) (
      All-append IsByte (encode_intent first_move) []
        (encode_intent-IsByte first_move first_move-IsMove) tt)

abbrev batch_text : Bytes
batch_text = hexout libraries (encode_batch (first_move ∷ []))

batch_spelled : hx libraries batch_text ≡ done (encode_batch (first_move ∷ []))
batch_spelled = hx-hexout libraries hex-IsHex (encode_batch (first_move ∷ [])) encode_batch-IsByte

none_spelled : hx libraries (hexout libraries []) ≡ done []
none_spelled = hx-hexout libraries hex-IsHex [] tt

abbrev moved_text : Bytes
moved_text = hexout libraries (encode_state moved)

moved_spelled : hx libraries moved_text ≡ done (encode_state moved)
moved_spelled = hx-hexout libraries hex-IsHex (encode_state moved) (
    encode_state-IsByte moved (
      record { hash = first_move-IsMove.hash; score_fits = omega arith; nonce_fits = omega arith },
      tt,
    ))

moved_shown : game_apply libraries (hexout libraries []) batch_text ≡ done moved_text
unfolding game_apply
moved_shown = rw (none_spelled, batch_spelled) (rw (empty_read) (rw (batch_read) (rw (moved_run))))

abbrev played : Context
played = record round {
  outputs = board (encode_state moved) ∷ [];
  group_outputs = board (encode_state moved) ∷ [];
  witnesses =
      record { lock = none; input_type = none; output_type = none }
      ∷ record {
        lock = none;
        input_type = some (encode_batch (first_move ∷ []));
        output_type = none;
      }
      ∷ [];
}

game_apply-accepted_example : verify (host_of played) 3 ≡ done tt
game_apply-accepted_example =
    game_apply-accepted libraries hex-IsHex (host_of played) played (hexout libraries []) batch_text
      moved_text 3 (host_of-IsRunOn played) moved_shown
      (record {
        before = board [];
        after = board (encode_state moved);
        one_input = refl;
        one_output = refl;
        state_is = none_spelled;
        next_is = moved_spelled;
        index = 1;
        found = later (λ e. cc e) (here refl);
        witness = record {
          lock = none;
          input_type = some (encode_batch (first_move ∷ []));
          output_type = none;
        };
        witness_at = refl;
        moves = encode_batch (first_move ∷ []);
        moves_are = refl;
        batch_is = batch_spelled;
      })
      (record {
        fair = λ s e. let same : s ≡ empty = cc (e, empty_read) in rw same empty-IsFair;
        signed = λ is e.
            let same : is ≡ first_move ∷ [] = cc (e, batch_read) in
            rw same (record { pid = 0; spawned = refl; exits = refl }, tt);
        few = λ s is e f.
            let same : s ≡ empty = cc (e, empty_read) in
            let moves : is ≡ first_move ∷ [] = cc (f, batch_read) in rw (same, moves) (omega arith);
      })
      refl (omega arith) (omega arith)
