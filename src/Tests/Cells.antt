-- ===== src/Tests/Cells.antt =====
-- The game cell's type script on concrete transactions.
use ckb_controller.Base.{◌≢◌, ◌≡◌, ◌↔◌, refl, arith, none, some, [], ◌∷◌, replicate, ok, length}
use ckb_controller.Bytes.{Bytes, to_le, from_le}
use ckb_controller.Bytes.Equality.{bytes_eq}
use ckb_controller.Game.RoundTrip.{decode_state-encode_state}
use ckb_controller.Host.{Script, Cell, Context, RawTransaction}
use ckb_controller.GameCell.Halts.{verify-Halts}
use ckb_controller.Run.{out_of_fuel, done}
use ckb_controller.Game.{
  empty, apply_batch, equals_unordered, apply_intents, apply_intent, find_player, advance_player,
  write_player, all_in, any_same, same_entry,
}
use ckb_controller.Game.Codec.{
  encode_state, encode_batch, decode_state, decode_batch, encode_entries, encode_entry,
  encode_intents, encode_intent, decode_intents, decode_intent, decode_entries, decode_entry,
  intent_message,
}
use ckb_controller.Game.Invariant.{IsFair}
use ckb_controller.GameCell as GameCell
use ckb_controller.GameCell.Legal.{IsLegal}
use ckb_controller.GameCell.Accepted.{verify_iff}
use ckb_controller.GameCell.Reachable.{Reachable, created, advanced, Reachable-IsFair}
use ckb_controller.Tests.Hosts.{host_of, host_of-IsRunOn}
use ckb_controller.Tests.Board.{opening, swapped, swapped-IsState}

abbrev user_lock : Script
user_lock = record { code_hash = replicate 32 8; hash_type = 1 ∷ []; args = [] }

abbrev coin : Cell
coin = record { capacity = 100; lock = user_lock; type_script = none; content = [] }

abbrev nothing : RawTransaction
nothing = record {
  version = 0;
  cell_deps = [];
  header_deps = [];
  inputs = [];
  outputs = [];
  outputs_data = [];
}

abbrev pub game_script : Script
game_script = record { code_hash = replicate 32 2; hash_type = 1 ∷ []; args = replicate 32 7 }

abbrev pub board : Bytes → Cell
board content = record {
  capacity = 300;
  lock = user_lock;
  type_script = some game_script;
  content = content;
}

abbrev creation : Context
creation = record {
  script = game_script;
  transaction = record { raw = nothing; witnesses = [] };
  inputs = coin ∷ [];
  outputs = board [] ∷ [];
  group_inputs = [];
  group_outputs = board [] ∷ [];
  witnesses = [];
  group_witnesses = [];
  group_since = [];
  header_times = [];
}

abbrev pub round : Context
round = record {
  script = game_script;
  transaction = record { raw = nothing; witnesses = [] };
  inputs = coin ∷ board [] ∷ [];
  outputs = board (encode_state swapped) ∷ coin ∷ [];
  group_inputs = board [] ∷ [];
  group_outputs = board (encode_state swapped) ∷ [];
  witnesses =
      record { lock = none; input_type = none; output_type = none }
      ∷ record { lock = none; input_type = some (encode_batch opening); output_type = none }
      ∷ [];
  group_witnesses = [];
  group_since = [];
  header_times = [];
}

creation_run : GameCell.verify (host_of creation) 3 ≡ done tt
unfolding GameCell.verify GameCell.verify_shape GameCell.verify_genesis GameCell.count_group_cells
    GameCell.count_loop decode_state
creation_run = refl

round_run : GameCell.verify (host_of round) 3 ≡ done tt
unfolding GameCell.verify GameCell.verify_shape GameCell.verify_transition
    GameCell.count_group_cells GameCell.count_loop decode_state GameCell.find_group_input_index
    GameCell.find_loop GameCell.load_batch decode_batch GameCell.verify_intents
    GameCell.verify_intent_sig GameCell.verify_signature apply_batch equals_unordered encode_state
    to_le encode_entries encode_entry from_le bytes_eq encode_batch encode_intents encode_intent
    decode_intents decode_intent apply_intents apply_intent find_player advance_player write_player
    decode_entries decode_entry intent_message all_in any_same same_entry
round_run = refl

verify_iff_example :
    (GameCell.verify (host_of round) 3 ≡ done tt)
    ↔ ((length game_script.args ≡ 32) × IsLegal (host_of round) round)
verify_iff_example =
    verify_iff (host_of round) round (host_of-IsRunOn round) 3 (omega arith) (omega arith)
      (omega arith)

verify-Halts_example : GameCell.verify (host_of round) 3 ≢ out_of_fuel
verify-Halts_example =
    verify-Halts (host_of round) round (host_of-IsRunOn round) 3 (omega arith) (omega arith)
      (omega arith)

empty_read : decode_state [] ≡ ok empty
unfolding decode_state
empty_read = refl

swapped-Reachable : Reachable swapped
swapped-Reachable =
    advanced
      (created {t = empty} (host_of creation) creation (board [])
        (record {
          run = host_of-IsRunOn creation;
          fuel = 3;
          enough = omega arith;
          enough_in = omega arith;
          enough_out = omega arith;
          returned = creation_run;
        })
        refl refl empty_read)
      (host_of round) round (board []) (board (encode_state swapped))
      (record {
        run = host_of-IsRunOn round;
        fuel = 3;
        enough = omega arith;
        enough_in = omega arith;
        enough_out = omega arith;
        returned = round_run;
      })
      refl refl empty_read (decode_state-encode_state swapped swapped-IsState)

Reachable-IsFair_example : IsFair 0 swapped
Reachable-IsFair_example = Reachable-IsFair swapped swapped-Reachable
