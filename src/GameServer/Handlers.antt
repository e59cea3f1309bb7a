-- ===== src/GameServer/Handlers.antt =====
-- The handlers of the server.
use ckb_controller.Base.{ℕ, true, Option, none, some, [], ◌∷◌, Result, ok, err}
use ckb_controller.Base.Options.{◌>>=◌}
use ckb_controller.Bytes.{Bytes}
use ckb_controller.Text.{codes}
use ckb_controller.Json.{Json, boolean, number, object, end, field, get_str, get_u64}
use ckb_controller.Game.{Intent}
use ckb_controller.Game.Codec.{decode_intent}
use ckb_controller.Operator.{OperatorError, GameOperator, submit, flush_or_shed}
use ckb_controller.Operator.Relay.{RelayInvoice, Relay, publish, mark_paid}
use ckb_controller.GameServer.Reports.{
  Formats, World, Reply, Server, failure, success, append, op_error_status, hex_bytes,
  invoice_published, invoice_paid, score_event, flushed_json,
}

-- The invoice of a request to publish one, if it is not empty.
abbrev pub invoice_of : Json → Option Bytes
invoice_of req = elim (get_str (codes "invoice") req) [
  | some [] ↦ none
  | some (b ∷ bs) ↦ some (b ∷ bs)
  | none ↦ none
]

-- `.unwrap_or(0)`
abbrev pub or_zero : Option ℕ → ℕ
or_zero none = 0
or_zero (some n) = n

module _ (f : Formats) (w : World) where
  -- The part of `handle_publish_invoice` behind its checks.
  unfoldable pub publish_invoice : Json → Bytes → Server → Reply × Server
  publish_invoice req invoice s =
      let amount_ckb = or_zero (get_u64 (codes "amount_ckb") req) in
      let to = get_str (codes "to") req in
      let from = get_str (codes "from") req in
      let game_id = get_str (codes "game_id") req in
      let (id, relay) = publish game_id to from invoice amount_ckb w.now s.relay in
      (
        success (object (field (codes "id") (number id) end)),
        record s {
          relay = relay;
          results = append w (invoice_published f w id from to amount_ckb game_id) s.results;
        },
      )

  unfoldable pub handle_publish_invoice : Bytes → Server → Reply × Server
  handle_publish_invoice body s = elim (f.from_str body) [
    | none ↦ (failure 400, s)
    | some req ↦ elim (invoice_of req) [
      | none ↦ (failure 400, s)
      | some invoice ↦ publish_invoice req invoice s
    ]
  ]

  -- The `match` on what `mark_paid` found.
  unfoldable pub settle : Option RelayInvoice × Relay → Server → Reply × Server
  settle (some i, relay) s = (
    success (object (field (codes "ok") (boolean true) end)),
    record s {
      relay = relay;
      results = append w (invoice_paid f w i s.operator.tip.state.seq) s.results;
    },
  )
  settle (none, relay) s = (failure 404, record s { relay = relay })

  unfoldable pub handle_mark_paid : Bytes → Server → Reply × Server
  handle_mark_paid body s = elim (f.from_str body) [
    | none ↦ (failure 400, s)
    | some req ↦ elim (get_u64 (codes "id") req) [
      | none ↦ (failure 400, s)
      | some id ↦ settle (mark_paid id s.relay) s
    ]
  ]

  -- `flush_or_shed(op, rpc, finalize)`
  abbrev pub flush_operator : GameOperator → Result OperatorError Bytes × GameOperator
  flush_operator op = flush_or_shed f.as_bytes w.send_transaction w.sign op

  -- The reply to a flush that was asked for.
  unfoldable pub flush_reply : Result OperatorError Bytes × GameOperator → Server → Reply × Server
  flush_reply (ok hash, op) s =
      (success (flushed_json f hash op.tip.state.seq), record s { operator = op })
  flush_reply (err e, op) s = (failure (op_error_status e), record s { operator = op })

  unfoldable pub handle_flush : Server → Reply × Server
  handle_flush s = flush_reply (flush_operator s.operator) s

  -- The reply to a move behind the flush of its own.
  unfoldable pub move_reply :
      Intent → Result OperatorError Bytes × GameOperator → Server → Reply × Server
  move_reply i (ok hash, op) s = (
    success (flushed_json f hash op.tip.state.seq),
    record s {
      operator = op;
      results = append w (score_event f w i op.tip.state.seq hash) s.results;
    },
  )
  move_reply i (err e, op) s = (failure (op_error_status e), record s { operator = op })

  -- The admission of a move, and the flush behind it.
  unfoldable pub submitted :
      Intent → Result OperatorError (Unit {0}) × GameOperator → Server → Reply × Server
  submitted i (ok u, op) s = move_reply i (flush_operator op) s
  submitted i (err e, op) s = (failure (op_error_status e), record s { operator = op })

  unfoldable pub handle_move : Intent → Server → Reply × Server
  handle_move i s = submitted i (submit i s.operator) s

  -- The move of a request: the JSON, its field, the hex and the encoding.
  unfoldable pub intent_of : Bytes → Option Intent
  intent_of body = do
    req ← f.from_str body
    intent_hex ← get_str (codes "intent") req
    bytes ← hex_bytes f intent_hex
    elim (decode_intent bytes) [ ok i ↦ some i | err e ↦ none ]

  unfoldable pub handle_intent : Bytes → Server → Reply × Server
  handle_intent body s = elim (intent_of body) [
    | none ↦ (failure 400, s)
    | some i ↦ handle_move i s
  ]
