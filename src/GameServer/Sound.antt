-- ===== src/GameServer/Sound.antt =====
-- What holds of the server after any requests, whatever the clients, the node, the signer and the
-- disk do.
use ckb_controller.Base.{Option, none, some, Result, ok, err}
use ckb_controller.Bytes.{Bytes}
use ckb_controller.Game.{Intent}
use ckb_controller.Operator.{OperatorError, GameOperator, submit}
use ckb_controller.Operator.Queue.{IsSound, Step-IsSound, submitted, flushed}
use ckb_controller.Operator.Relay.{RelayInvoice, Relay, mark_paid}
use ckb_controller.Operator.Relay.Bounded.{IsRelay, publish-IsRelay, mark_paid-IsRelay}
use ckb_controller.GameServer.Reports.{Formats, World, Reply, Server, Request}
use ckb_controller.GameServer.Handlers as Handlers
use ckb_controller.GameServer.Handlers.{
  publish_invoice, settle, flush_reply, handle_flush, move_reply, handle_move,
}
use ckb_controller.GameServer.Routes.{serve}
use ckb_controller.GameServer.Outcomes as Outcomes
use ckb_controller.GameServer.Outcomes.{Outcome, serve-Outcome}

-- The operator's queue replays on its tip, whose board is fair; the relay is bounded and its ids
-- ascend.
pub record IsServer (s : Server) : Type 0 where
  pub operator : IsSound s.operator
  pub relay : IsRelay s.relay

-- The states that the loop comes to by requests that are served in a world and a state as `P` says.
pub data Runs (f : Formats) (P : World → Server → Type 0) (start : Server) : Server → Type 0 where
  begun : Runs f P start start
  served :
      {s : Server} {w : World}
      → Runs f P start s
      → P w s
      → (r : Request) → Runs f P start (serve f w r s).1

module _ (f : Formats) (w : World) where
  move_reply-IsServer :
      (i : Intent) (r : Result OperatorError Bytes) (op : GameOperator) (s : Server)
      → IsSound op
      → IsServer s
      → IsServer (move_reply f w i (r, op) s).1
  unfolding move_reply
  move_reply-IsServer i (ok hash) op s sound v = record { operator = sound; relay = v.relay }
  move_reply-IsServer i (err e) op s sound v = record { operator = sound; relay = v.relay }

  flush_reply-IsServer :
      (r : Result OperatorError Bytes) (op : GameOperator) (s : Server)
      → IsSound op
      → IsServer s
      → IsServer (flush_reply f w (r, op) s).1
  unfolding flush_reply
  flush_reply-IsServer (ok hash) op s sound v = record { operator = sound; relay = v.relay }
  flush_reply-IsServer (err e) op s sound v = record { operator = sound; relay = v.relay }

  flush_operator-IsSound :
      (op : GameOperator) → IsSound op → IsSound (Handlers.flush_operator f w op).1
  flush_operator-IsSound op sound =
      Step-IsSound (flushed f.as_bytes w.send_transaction w.sign) sound

  submitted-IsServer :
      (i : Intent) (r : Result OperatorError (Unit {0})) (op : GameOperator) (s : Server)
      → IsSound op
      → IsServer s
      → IsServer (Handlers.submitted f w i (r, op) s).1
  unfolding Handlers.submitted
  submitted-IsServer i (ok u) op s sound v =
      move_reply-IsServer i (Handlers.flush_operator f w op).0 (Handlers.flush_operator f w op).1 s
        (flush_operator-IsSound op sound) v
  submitted-IsServer i (err e) op s sound v = record { operator = sound; relay = v.relay }

  settle-IsServer :
      (found : Option RelayInvoice) (relay : Relay) (s : Server)
      → IsRelay relay
      → IsServer s
      → IsServer (settle f w (found, relay) s).1
  unfolding settle
  settle-IsServer (some i) relay s kept v = record { operator = v.operator; relay = kept }
  settle-IsServer none relay s kept v = record { operator = v.operator; relay = kept }

  Outcome-IsServer :
      {s : Server} {out : Reply × Server} → Outcome f w s out → IsServer s → IsServer out.1
  Outcome-IsServer Outcomes.preflight v = v
  Outcome-IsServer Outcomes.bad_request v = v
  Outcome-IsServer Outcomes.not_found v = v
  Outcome-IsServer (Outcomes.read body) v = v
  Outcome-IsServer {s} (Outcomes.moved i) v =
      unfold handle_move in
      submitted-IsServer i (submit i s.operator).0 (submit i s.operator).1 s
        (Step-IsSound (submitted i) v.operator) v
  Outcome-IsServer {s} Outcomes.flushed v =
      unfold handle_flush in
      flush_reply-IsServer (Handlers.flush_operator f w s.operator).0
        (Handlers.flush_operator f w s.operator).1 s (flush_operator-IsSound s.operator v.operator)
        v
  Outcome-IsServer {s} (Outcomes.published req invoice) v =
      unfold publish_invoice in
      record {
        operator = v.operator;
        relay = publish-IsRelay _ _ _ invoice _ w.now s.relay v.relay;
      }
  Outcome-IsServer {s} (Outcomes.paid id) v =
      settle-IsServer (mark_paid id s.relay).0 (mark_paid id s.relay).1 s
        (mark_paid-IsRelay id s.relay v.relay) v

pub serve-IsServer :
    (f : Formats) (w : World) (r : Request) (s : Server) → IsServer s → IsServer (serve f w r s).1
serve-IsServer f w r s v = Outcome-IsServer f w (serve-Outcome f w r s) v

-- Whatever is requested, and whatever the node, the signer, the disk and the clock answer, the
-- operator's queue replays on its tip, the tip's board is fair, and the relay holds at most 256
-- invoices with ascending ids that have been issued, if all this held at the start.
pub Runs-IsServer :
    (f : Formats) {P : World → Server → Type 0} {start s : Server}
    → IsServer start
    → Runs f P start s
    → IsServer s
Runs-IsServer f v begun = v
Runs-IsServer f v (served {s} {w} before holds r) =
    serve-IsServer f w r s (Runs-IsServer f v before)
