-- ===== src/Tests/Started.antt =====
-- A game server that is set up with no variables and no files, and takes one move.
use ckb_controller.Base.{◌≡◌, refl, arith, All-replicate, true, none, [], replicate, ok}
use ckb_controller.Bytes.{IsByte}
use ckb_controller.Bytes.Equality.{bytes_eq}
use ckb_controller.Text.{codes, trim_0x, to_digit}
use ckb_controller.Json.{null, get}
use ckb_controller.Paymaster.Rpc.{Node, call, find_cell_by_type}
use ckb_controller.Operator.Relay.{empty_relay}
use ckb_controller.GameServer.Reports.{Server}
use ckb_controller.GameServer.Routes.{serve}
use ckb_controller.GameServer.Sound.{IsServer, begun, served}
use ckb_controller.GameServer.Config.{Environment, pick, parse_outpoint}
use ckb_controller.GameServer.Setup.{mock_operator, operator_of, set_up}
use ckb_controller.GameServer.Setup.Started.{IsFairChain, set_up-Runs}
use ckb_controller.GameServer.Setup.Outpoints.{parse_outpoint-outpoint_str}
use ckb_controller.Paymaster.Server.{outpoint_str}
use ckb_controller.Text.Hex.{hex}
use ckb_controller.Tests.Gate as Gate
use ckb_controller.Tests.Browser.{unhex, unhex-hex, replicate-IsArray}
use ckb_controller.Tests.Server.{formats, world, move_request}

abbrev no_node : Node
no_node = record {
  post = λ v. none;
  json_script = λ s. null;
  json_transaction = λ tx. null;
  cell_output = λ v. none;
  h256_from_str = λ s. none;
  hex_decode = unhex;
}

abbrev bare : Environment
bare = record {
  var = λ name. none;
  read_to_string = λ path. none;
  from_str = λ s. none;
  hex_decode = unhex;
  h256_from_str = λ s. none;
  is_secret_key = λ b. true;
  node = λ url. no_node;
}

bare-IsFairChain : IsFairChain bare
unfolding find_cell_by_type call
bare-IsFairChain = record { fair = λ url script o out content s e read. absurd (cc e) }

abbrev in_memory : Server
in_memory = record { operator = mock_operator (replicate 32 0); relay = empty_relay; results = [] }

in_memory_made : set_up bare null null [] ≡ ok in_memory
unfolding set_up pick operator_of codes trim_0x unhex to_digit bytes_eq get
in_memory_made = refl

set_up-Runs_example : IsServer (serve formats world move_request in_memory).1
set_up-Runs_example =
    set_up-Runs formats {P = λ w s. Unit {0}} bare null null [] bare-IsFairChain in_memory_made
      (served begun tt move_request)

-- The same, with a parser of hashes.
abbrev reading : Environment
reading = record bare { h256_from_str = unhex }

parse_outpoint-outpoint_str_example :
    parse_outpoint reading (
      outpoint_str
        (record Gate.formats { hex = hex })
        (record { tx_hash = replicate 32 3; index = 17 }))
    ≡ ok (record { tx_hash = replicate 32 3; index = 17 })
parse_outpoint-outpoint_str_example =
    parse_outpoint-outpoint_str (record Gate.formats { hex = hex }) reading
      (record { tx_hash = replicate 32 3; index = 17 }) (replicate-IsArray 32 3 (omega arith))
      (omega arith) refl (unhex-hex (replicate 32 3) (All-replicate IsByte 32 3 (omega arith)))
