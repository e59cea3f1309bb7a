-- ===== src/Tests/Server.antt =====
-- A game server that takes one move and one request for an unknown page.
use ckb_controller.Base.{◌≡◌, refl, arith, true, some, [], ◌∷◌, replicate, ok}
use ckb_controller.Bytes.Equality.{bytes_eq}
use ckb_controller.Text.{codes, split_head}
use ckb_controller.Json.{string, object, end, field}
use ckb_controller.Game.Invariant.{empty-IsFair}
use ckb_controller.Game.Codec.{encode_intent}
use ckb_controller.Operator.Queue.{begin, Steps-IsSound}
use ckb_controller.Operator.Relay.{empty_relay}
use ckb_controller.GameServer.Reports.{Formats, World, Server, Method, Request}
use ckb_controller.GameServer.Routes.{get_endpoint, dispatch, serve}
use ckb_controller.GameServer.Sound.{IsServer, begun, served}
use ckb_controller.GameServer.Log.{IsReliable, IsLogged, Runs-IsLogged}
use ckb_controller.GameServer.Refused.{unknown, serve-IsRefusal}
use ckb_controller.Tests.Hosts.{as_bytes}
use ckb_controller.Tests.Board.{alice}
use ckb_controller.Tests.Off.{idle}

abbrev pub formats : Formats
formats = record {
  as_bytes = as_bytes;
  from_str = λ body. some (object (field (codes "intent") (string body) end));
  hex_decode = λ b. some b;
  hex_encode = λ b. b;
}

abbrev pub world : World
world = record {
  now = 5;
  logged_at = 6;
  writes = true;
  send_transaction = λ tx. ok (replicate 32 4);
  sign = λ tx. ok tx;
}

abbrev pub start : Server
start = record { operator = idle; relay = empty_relay; results = [] }

start-IsServer : IsServer start
start-IsServer = record {
  operator = Steps-IsSound {start = idle} refl empty-IsFair begin;
  relay = record { bounded = omega arith; ascending = tt; issued = tt };
}

abbrev pub move_request : Request
move_request = record {
  method = Method.post;
  url = codes "/intent";
  body =
      some (encode_intent (record { hash = alice; points = 10; nonce = 1; sig = replicate 65 0 }));
}

abbrev stray_request : Request
stray_request = record { method = Method.get; url = b'/' ∷ b'x' ∷ []; body = some [] }

start-IsReliable : IsReliable world start
start-IsReliable = record {
  writes = refl;
  signs = λ t. (t, refl);
  pays = omega arith;
  counts = omega arith;
}

Runs-IsLogged_example : IsLogged start (serve formats world move_request start).1
Runs-IsLogged_example =
    Runs-IsLogged formats start-IsServer refl (served begun start-IsReliable move_request)

stray_status : (serve formats world stray_request start).0.status ≡ 404
unfolding serve dispatch get_endpoint split_head codes bytes_eq
stray_status = refl

serve-IsRefusal_example : (serve formats world stray_request start).1 ≡ start
serve-IsRefusal_example =
    serve-IsRefusal formats world stray_request start start-IsServer.operator (omega arith)
      (unknown stray_status)
